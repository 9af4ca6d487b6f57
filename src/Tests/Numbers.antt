-- ===== src/Tests/Numbers.antt =====
-- Compact targets, rewards and script numbers at concrete values.
use bitchchain.Base.{
  ◌+◌, ℕ, ◌*◌, ◌^◌, ◌<◌, ◌≤◌, ◌≡◌, arith, [], ◌∷◌, ◌++◌, Bytes, ok, some, pos, hex,
}
use bitchchain.Pow.{whole, bits_to_target, target_to_bits}
use bitchchain.Pow.Compact.{target_to_bits-bits_to_target, target_to_bits-halves}
use bitchchain.Pow.Supply.{total_rewards, total_rewards-cap}
use bitchchain.Htlc.{encode_script_number}
use bitchchain.Htlc.Numbers.{read_push, encode_script_number-read}

total_rewards-cap_example : total_rewards 420_001 ≤ 21_000_000 * 100_000_000
total_rewards-cap_example = total_rewards-cap 420_001

target_to_bits-bits_to_target_example :
    (t : ℕ) × (bits_to_target 0x1b7fffff ≡ whole t) × (target_to_bits t ≡ ok 0x1b7fffff)
target_to_bits-bits_to_target_example =
    target_to_bits-bits_to_target 0x1b7fffff (omega arith) (omega arith) (omega arith) (omega arith)

target_to_bits-halves_example :
    (bits t : ℕ) × (target_to_bits (0xffff00 * 256 ^ 25 + 12345) ≡ ok bits)
    × (bits_to_target bits ≡ whole t)
    × (2 * t < 0xffff00 * 256 ^ 25 + 12345)
target_to_bits-halves_example =
    target_to_bits-halves 25 (0xffff00 * 256 ^ 25 + 12345) (omega arith) (omega arith) (omega arith)

encode_script_number-read_example :
    (bytes : Bytes) × (encode_script_number 144 ≡ hex bytes)
    × (read_push (bytes ++ 178 ∷ []) ≡ some (pos 144, 178 ∷ []))
encode_script_number-read_example = encode_script_number-read 144 (178 ∷ []) (omega arith)
