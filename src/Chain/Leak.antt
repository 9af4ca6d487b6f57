-- ===== src/Chain/Leak.antt =====
-- A block that fails half-way (`Blockchain.apply_block`, lines 347 to 375): the set of unspent
-- outputs commits each call that returns on its own connection.
use bitchchain.Utxo.{outpoint_eq}
use bitchchain.Chain.{Chain}
