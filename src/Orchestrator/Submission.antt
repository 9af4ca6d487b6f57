-- ===== src/Orchestrator/Submission.antt =====
-- What `sendrawtransaction` (agent/rpc_server.py, lines 146 to 162) writes to the mempool.
use bitchchain.Base.{◌≡◌, some, Text, text_beq, if◌then◌else◌, length, pos, select, text_eq, []}
use bitchchain.Json.{Json, Fields, Codec, argument_or}
use bitchchain.Memory.{Memory}
use bitchchain.Rpc.{Outcome, returned, failed, raised}

module _ (codec : Codec) where
  open codec use {Raw, dumps}

  -- What the method answers and leaves: with a value, the object it was given stands under that id
  -- with no fee, and every other entry is as it was; with an error the store is untouched.
  abbrev pub Submitted : Memory Raw → Outcome × Memory Raw → Type 0
  Submitted memory (returned value, later) =
      (txid : Text) × (fs : Fields) × (value ≡ Json.str txid)
      × (length txid ≡ 64)
      × (argument_or (Json.str []) "txid" fs ≡ Json.str txid)
      × ((t : Text)
          → select t later.mempool ≡ (
              if text_beq txid t
              then some (record { tx_json = dumps (Json.obj fs); fee_satoshis = pos 0 })
              else select t memory.mempool))
  Submitted memory (failed code message detail, later) = later ≡ memory
  Submitted memory (raised error, later) = later ≡ memory
