-- ===== src/Pow.antt =====
-- Proof of work in agent/modules/blockchain_core.py: the compact form of a target (lines 32 to 43),
-- the block reward (409 to 413) and the constants (19 to 25).
pub mod Compact
pub mod Supply
use bitchchain.Base.{
  ℕ, zero, suc, ◌+◌, ◌-◌, ◌*◌, ◌/◌, ◌%◌, ◌^◌, Bool, ltb, leb, if◌then◌else◌, ℤ, pos, negsuc, Result,
  ok, err, value_error,
}

abbrev pub genesis_bits : ℕ
genesis_bits = 0x1d00ffff

abbrev pub coinbase_reward_satoshis : ℕ
coinbase_reward_satoshis = 50 * 100_000_000

abbrev pub halving_interval : ℕ
halving_interval = 210_000

abbrev pub target_block_time_sec : ℕ
target_block_time_sec = 600

abbrev pub difficulty_adjustment_blocks : ℕ
difficulty_adjustment_blocks = 2016

-- A target is `coefficient * 256 ** (exponent - 3)`. With an exponent of at least 3 it is an
-- integer. Below that Python's power of a negative number is a float, here the exact fraction
-- `num / 256 ^ shift`: the coefficient has 23 bits, so the float is that fraction.
pub data Target : Type 0 where
  whole : ℕ → Target
  fraction : ℕ → ℕ → Target

-- `bits >> 24` and `bits & 0x7FFFFF`
abbrev pub exponent_of : ℕ → ℕ
exponent_of bits = bits / 2 ^ 24

abbrev pub coefficient_of : ℕ → ℕ
coefficient_of bits = bits % 2 ^ 23

unfoldable pub bits_to_target : ℕ → Target
bits_to_target bits =
    let exponent = exponent_of bits in
    let coefficient = coefficient_of bits in
    if leb 3 exponent
    then whole (coefficient * 256 ^ (exponent - 3))
    else fraction coefficient (3 - exponent)

-- `block_hash_int < target`, for an integer and for a float target.
unfoldable pub below_target : ℕ → Target → Bool
below_target h (whole t) = ltb h t
below_target h (fraction c k) = ltb (h * 256 ^ k) c

-- How many hexadecimal digits are left of `f"{n:064x}"` after the leading zeros, with fuel.
unfoldable pub hex_digits : ℕ → ℕ → ℕ
hex_digits zero n = 0
hex_digits (suc fuel) n = let rest = hex_digits fuel (n / 16) in if ltb 0 n then suc rest else 0

-- `64 - leading_zeros`: the width of the number padded to 64 digits, less its zeros. A number of
-- more than 64 digits has no leading zero and counts as 64, for every fuel of at least 64.
unfoldable pub significant_digits : ℕ → ℕ
unfolding hex_digits
significant_digits n = hex_digits 64 n

-- `(exponent << 24) | (coefficient & 0x7FFFFF)`: the two parts share no bit.
unfoldable pub target_to_bits : ℕ → Result ℕ
unfolding significant_digits
target_to_bits target =
    let exponent = significant_digits target / 2 in
    if ltb exponent 3
    then err value_error
    else ok (exponent * 2 ^ 24 + target / 2 ^ (8 * (exponent - 3)) % 2 ^ 23)

-- A negative height makes the shift count negative, which raises `ValueError`.
unfoldable pub compute_block_reward : ℤ → Result ℕ
compute_block_reward (negsuc h) = err value_error
compute_block_reward (pos h) =
    let halvings = h / halving_interval in
    if leb 64 halvings then ok 0 else ok (coinbase_reward_satoshis / 2 ^ halvings)
