-- ===== src/Mining/Search.antt =====
-- The nonce search (`mine_block`, `mine_regtest`, agent/modules/consensus_engine.py, lines 259 to
-- 288).
use bitchchain.Base.{
  ℕ, zero, suc, ◌<◌, ◌≡◌, refl, ap, ◌∙◌, inl, inr, Bool, true, false, Option, none, some, Text,
  Bytes, arith, Bool-cases, if◌then◌else◌, ok, err, ◌>>=◌, >>=-eq-ok, int_hex, runtime_error,
}
use mathlib.Core.Path.{subst}
use bitchchain.Pow.{Target, bits_to_target, below_target}
use bitchchain.Tx.{Block, header_hash, meets_target}
use bitchchain.Mining.{
  with_nonce, try_nonce, search_nonce, mine_template, mine_regtest_template, refresh,
}

-- The search changes nothing of a block but its nonce, its time and its hash.
pub record IsMinedFrom (block mined : Block) : Type 0 where
  pub transactions : mined.transactions ≡ block.transactions
  pub version : mined.header.version ≡ block.header.version
  pub prev_hash : mined.header.prev_hash ≡ block.header.prev_hash
  pub merkle_root : mined.header.merkle_root ≡ block.header.merkle_root
  pub bits : mined.header.bits ≡ block.header.bits
  pub height : mined.header.height ≡ block.header.height

IsMinedFrom-missed :
    (block : Block) (nonce : ℕ) (next mined : Block)
    → IsMinedFrom (record block { header = record block.header { nonce = nonce } }) next
    → IsMinedFrom next mined
    → IsMinedFrom block mined
IsMinedFrom-missed block nonce next mined a b = record {
  transactions = b.transactions ∙ a.transactions;
  version = b.version ∙ a.version;
  prev_hash = b.prev_hash ∙ a.prev_hash;
  merkle_root = b.merkle_root ∙ a.merkle_root;
  bits = b.bits ∙ a.bits;
  height = b.height ∙ a.height;
}

module _ (sha256 : Bytes → Bytes) where
  -- A success of one try, read back.
  try_nonce-parts :
      (target : Target) (b : Block) (good : Bool) (hash : Text)
      → try_nonce sha256 target b ≡ ok (good, hash)
      → (n : ℕ) × (header_hash sha256 b.header ≡ ok hash)
        × (int_hex hash ≡ ok n)
        × (below_target n target ≡ good)
  unfolding try_nonce
  try_nonce-parts target b good hash h =
      let (found, hashed, rest) =
        >>=-eq-ok (header_hash sha256 b.header)
          (λ hash. int_hex hash >>= λ n. ok (below_target n target, hash)) h in
      let (n, number, done) =
        >>=-eq-ok (int_hex found) (λ n. ok (below_target n target, found)) rest in
      (n, cc (hashed, done), cc (number, done), cc done)

  -- What a hit is: the block's own hash, below the target.
  pub record IsHit (target : Target) (mined : Block) : Type 0 where
    pub number : ℕ
    pub hashed : header_hash sha256 mined.header ≡ ok mined.block_hash
    pub read : int_hex mined.block_hash ≡ ok number
    pub below : below_target number target ≡ true

  pub search_nonce_sound :
      (missed : ℕ → Block → Block) (target : Target)
      (kept : (n : ℕ) (b : Block) → IsMinedFrom b (missed n b)) (rounds nonce : ℕ)
      (block mined : Block)
      → search_nonce sha256 missed target rounds nonce block ≡ ok (some mined)
      → IsHit target mined × IsMinedFrom block mined
  unfolding search_nonce
  search_nonce_sound missed target kept zero nonce block mined h = absurd (cc h)
  search_nonce_sound missed target kept (suc rounds) nonce block mined h =
      let tried = with_nonce sha256 block nonce in
      let next = missed nonce tried in
      let (out, result, rest) =
        >>=-eq-ok (try_nonce sha256 target tried)
          (λ out.
            if out.0
            then ok (some (record tried { block_hash = out.1 }))
            else search_nonce sha256 missed target rounds (suc nonce) next)
          h in
      let (n, hashed, read, below) = try_nonce-parts target tried out.0 out.1 result in
      elim (Bool-cases out.0) [
        | inl hit ↦
            let this : record tried { block_hash = out.1 } ≡ mined = cc (rw hit at rest) in
            subst (λ b. IsHit target b × IsMinedFrom block b) this
              (
                record { number = n; hashed = hashed; read = read; below = below ∙ hit },
                record {
                  transactions = refl;
                  version = refl;
                  prev_hash = refl;
                  merkle_root = refl;
                  bits = refl;
                  height = refl;
                },
              )
        | inr miss ↦
            let (found, from_next) =
              search_nonce_sound missed target kept rounds (suc nonce) next mined
                (rw miss at rest) in
            (found, IsMinedFrom-missed block nonce next mined (kept nonce tried) from_next)
      ]

  refresh-kept : (clock : ℕ → ℕ) (n : ℕ) (b : Block) → IsMinedFrom b (refresh sha256 clock n b)
  refresh-kept clock n b = ground arith

  pub unchanged : (n : ℕ) (b : Block) → IsMinedFrom b b
  unchanged n b = record {
    transactions = refl;
    version = refl;
    prev_hash = refl;
    merkle_root = refl;
    bits = refl;
    height = refl;
  }

  pub hit-meets_target :
      (block mined : Block)
      → IsHit (bits_to_target block.header.bits) mined
      → IsMinedFrom block mined
      → meets_target sha256 mined.header ≡ ok true
  unfolding meets_target
  hit-meets_target block mined hit m =
      rw (hit.hashed, hit.read)
        (ap (λ b. ok (below_target hit.number (bits_to_target b))) m.bits ∙ ap ok hit.below)

  -- A block that `mine_block` returns for a template carries its own header's hash, that hash is
  -- below the target of its bits, and only the nonce, the time and the hash are not the template's.
  pub mine_template_sound :
      (clock : ℕ → ℕ) (max_iterations : ℕ) (block mined : Block)
      → mine_template sha256 clock max_iterations block ≡ ok (some mined)
      → (header_hash sha256 mined.header ≡ ok mined.block_hash)
        × (meets_target sha256 mined.header ≡ ok true)
        × IsMinedFrom block mined
  unfolding mine_template
  mine_template_sound clock max_iterations block mined h =
      let (hit, m) =
        search_nonce_sound (refresh sha256 clock) (bits_to_target block.header.bits)
          (refresh-kept clock) max_iterations 0 block mined h in
      (hit.hashed, hit-meets_target block mined hit m, m)

  found-mined :
      (found : Option Block) (mined : Block)
      → elim found [ none ↦ err runtime_error | some b ↦ ok b ] ≡ ok mined
      → ok found ≡ ok (some mined)
  found-mined none mined h = absurd (cc h)
  found-mined (some b) mined h = cc h

  -- The same for `mine_regtest`, over the template with the given bits.
  pub mine_regtest_template_sound :
      (range difficulty_bits : ℕ) (block mined : Block)
      → mine_regtest_template sha256 range difficulty_bits block ≡ ok mined
      → (header_hash sha256 mined.header ≡ ok mined.block_hash)
        × (meets_target sha256 mined.header ≡ ok true)
        × IsMinedFrom
            (record block { header = record block.header { bits = difficulty_bits } })
            mined
  unfolding mine_regtest_template
  mine_regtest_template_sound range difficulty_bits block mined h =
      let mined_from = record block { header = record block.header { bits = difficulty_bits } } in
      let (found, searched, got) =
        >>=-eq-ok
          (search_nonce sha256 (λ n b. b) (bits_to_target difficulty_bits) range 0 mined_from)
          (λ found. elim found [ none ↦ err runtime_error | some b ↦ ok b ]) h in
      let (hit, m) =
        search_nonce_sound (λ n b. b) (bits_to_target difficulty_bits) unchanged range 0 mined_from
          mined (searched ∙ found-mined found mined got) in
      (hit.hashed, hit-meets_target mined_from mined hit m, m)

  -- What is tried at number `k`: the block as the misses before have left it, with its nonce.
  abbrev pub attempt : (ℕ → Block → Block) → ℕ → ℕ → Block → Block
  attempt missed zero nonce block = with_nonce sha256 block nonce
  attempt missed (suc k) nonce block =
      attempt missed k (suc nonce) (missed nonce (with_nonce sha256 block nonce))

  -- Every try before number `k` runs and misses.
  abbrev pub AllMiss : (ℕ → Block → Block) → Target → ℕ → ℕ → Block → Type 0
  AllMiss missed target k nonce block =
      (j : ℕ)
      → j < k
      → (hash : Text) × (try_nonce sha256 target (attempt missed j nonce block) ≡ ok (false, hash))

  search_nonce-first :
      (missed : ℕ → Block → Block) (target : Target) (rounds k nonce : ℕ) (block : Block)
      (hash : Text)
      → k < rounds
      → AllMiss missed target k nonce block
      → try_nonce sha256 target (attempt missed k nonce block) ≡ ok (true, hash)
      → search_nonce sha256 missed target rounds nonce block
        ≡ ok (some (record (attempt missed k nonce block) { block_hash = hash }))
  unfolding search_nonce
  search_nonce-first missed target zero k nonce block hash h misses hit = absurd (omega arith)
  search_nonce-first missed target (suc rounds) zero nonce block hash h misses hit = rw hit
  search_nonce-first missed target (suc rounds) (suc k) nonce block hash h misses hit =
      let (other, miss) = misses 0 (omega arith) in
      rw miss (
        search_nonce-first missed target rounds k (suc nonce)
          (missed nonce (with_nonce sha256 block nonce)) hash (omega arith)
          (λ j below. misses (suc j) (omega arith)) hit)

  -- The search returns its first hit, whatever a miss does to the block, such as the refreshed time of
  -- `mine_block`: where the try number `k` is a hit, `k` is below the rounds, and every try before it
  -- runs and misses, the search gives the block of that try with its hash. This is the hash of its
  -- header, and as a number below the target.
  pub search_nonce_complete :
      (missed : ℕ → Block → Block) (target : Target) (rounds k nonce : ℕ) (block : Block)
      (hash : Text)
      → k < rounds
      → AllMiss missed target k nonce block
      → try_nonce sha256 target (attempt missed k nonce block) ≡ ok (true, hash)
      → let mined = record (attempt missed k nonce block) { block_hash = hash } in
        (search_nonce sha256 missed target rounds nonce block ≡ ok (some mined))
        × IsHit target mined
  search_nonce_complete missed target rounds k nonce block hash h misses hit =
      let (n, hashed, read, below) =
        try_nonce-parts target (attempt missed k nonce block) true hash hit in
      (
        search_nonce-first missed target rounds k nonce block hash h misses hit,
        record { number = n; hashed = hashed; read = read; below = below },
      )

  -- A search that answers with nothing has tried every nonce of its range and missed each time, on
  -- the block as the misses before have left it.
  pub search_nonce_exhausted :
      (missed : ℕ → Block → Block) (target : Target) (rounds nonce : ℕ) (block : Block)
      → search_nonce sha256 missed target rounds nonce block ≡ ok none
      → AllMiss missed target rounds nonce block
  unfolding search_nonce
  search_nonce_exhausted missed target zero nonce block h = λ j below. absurd (omega arith)
  search_nonce_exhausted missed target (suc rounds) nonce block h =
      let tried = with_nonce sha256 block nonce in
      let next = missed nonce tried in
      let (out, result, rest) =
        >>=-eq-ok (try_nonce sha256 target tried)
          (λ out.
            if out.0
            then ok (some (record tried { block_hash = out.1 }))
            else search_nonce sha256 missed target rounds (suc nonce) next)
          h in
      elim (Bool-cases out.0) [
        | inl hit ↦ absurd (cc (rw hit at rest))
        | inr miss ↦
            missed_all out result miss
              (search_nonce_exhausted missed target rounds (suc nonce) next (rw miss at rest))
      ]
    where
      missed_all :
          (out : Bool × Text)
          → try_nonce sha256 target (with_nonce sha256 block nonce) ≡ ok out
          → out.0 ≡ false
          → AllMiss missed target rounds (suc nonce) (missed nonce (with_nonce sha256 block nonce))
          → AllMiss missed target (suc rounds) nonce block
      missed_all out result miss later zero below = (out.1, result ∙ ap (λ b. ok (b, out.1)) miss)
      missed_all out result miss later (suc j) below = later j (omega arith)
