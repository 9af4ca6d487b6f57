-- ===== src/Pow/Supply.antt =====
-- The block subsidy over the whole chain (`compute_block_reward`, agent/modules/blockchain_core.py,
-- lines 409 to 413).
use bitchchain.Base.{
  ℕ, zero, suc, ◌+◌, ◌-◌, ◌*◌, ◌/◌, ◌%◌, ◌^◌, ◌≤◌, ◌<◌, ◌≡◌, inl, inr, arith, pos, ok, err,
}
use native.Mathlib.Nat.{
  add_comm, suc-mul, le_of_eq, le_trans, mul-le-mul_left, mod-lt, eq-or-lt_of_le, pow-suc,
  div-div-eq-div-mul,
}
use bitchchain.Pow.{compute_block_reward, coinbase_reward_satoshis, halving_interval}

-- What a block of the given height may create.
abbrev pub reward_at : ℕ → ℕ
reward_at h = elim (compute_block_reward (pos h)) [ ok r ↦ r | err e ↦ 0 ]

-- The rewards of the heights below `n`.
unfoldable pub total_rewards : ℕ → ℕ
total_rewards zero = 0
total_rewards (suc n) = total_rewards n + reward_at n

abbrev halved : ℕ → ℕ
halved k = coinbase_reward_satoshis / 2 ^ k

halved-suc : (k : ℕ) → halved (suc k) ≡ halved k / 2
halved-suc k = rw (pow-suc, div-div-eq-div-mul)

reward_at-le : (h : ℕ) → reward_at h ≤ halved (h / halving_interval)
unfolding compute_block_reward
reward_at-le h = ground arith

-- What the rest of the interval and all later ones can still create.
abbrev remaining : ℕ → ℕ
remaining n = (2 * halving_interval - n % halving_interval) * halved (n / halving_interval)

one_more : (k r a : ℕ) → r < k → a + (k - suc r) * a ≡ (k - r) * a
one_more k r a h =
    let e : k - r ≡ suc (k - suc r) = omega arith in rw (e, suc-mul) (add_comm a ((k - suc r) * a))

-- Inside an interval the height moves on; at its end the reward is halved.
remaining-same :
    (n : ℕ)
    → n % halving_interval + 1 < halving_interval
    → halved (n / halving_interval) + remaining (suc n) ≤ remaining n
remaining-same n h =
    let q : suc n / halving_interval ≡ n / halving_interval = omega arith in
    let r : suc n % halving_interval ≡ suc (n % halving_interval) = omega arith in
    rw (q, r)
      (le_of_eq (
        one_more (2 * halving_interval) (n % halving_interval) (halved (n / halving_interval))
          (omega arith)))

half_interval : (i a : ℕ) → 2 * i * (a / 2) ≤ i * a
half_interval i a =
    let two : 2 * (a / 2) ≤ a = omega arith in
    le_trans (le_of_eq (mul_assoc-swap i (a / 2))) (mul-le-mul_left i two)
  where
    mul_assoc-swap : (x y : ℕ) → 2 * x * y ≡ x * (2 * y)
    mul_assoc-swap x y = grind arith

remaining-next :
    (n : ℕ)
    → n % halving_interval + 1 ≡ halving_interval
    → halved (n / halving_interval) + remaining (suc n) ≤ remaining n
remaining-next n h =
    let q : suc n / halving_interval ≡ suc (n / halving_interval) = omega arith in
    let r : suc n % halving_interval ≡ 0 = omega arith in
    let s : n % halving_interval ≡ 209_999 = omega arith in
    rw (q, r, s, halved-suc)
      (omega (arith, half_interval halving_interval (halved (n / halving_interval))))

remaining-falls : (n : ℕ) → reward_at n + remaining (suc n) ≤ remaining n
remaining-falls n = elim (eq-or-lt_of_le (mod-lt n {m = halving_interval} (omega arith))) [
  | inl last ↦ omega (arith, reward_at-le n, remaining-next n (omega (arith, last)))
  | inr inside ↦ omega (arith, reward_at-le n, remaining-same n (omega (arith, inside)))
]

total_rewards-bound : (n : ℕ) → total_rewards n + remaining n ≤ remaining 0
unfolding total_rewards
total_rewards-bound zero = omega arith
total_rewards-bound (suc n) = omega (arith, total_rewards-bound n, remaining-falls n)

-- However long the chain grows, the rewards of all its heights together stay within 21 million
-- coins of 100,000,000 satoshis.
pub total_rewards-cap : (n : ℕ) → total_rewards n ≤ 21_000_000 * 100_000_000
total_rewards-cap n = omega (arith, total_rewards-bound n)
