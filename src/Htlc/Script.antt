-- ===== src/Htlc/Script.antt =====
-- The HTLC script as bytes: the opcodes and pushes that the comment of `build_htlc_script` lists.
use bitchchain.Base.{
  ℕ, ◌*◌, ◌≡◌, refl, ◌==◌, ◌&&◌, if◌then◌else◌, [], ◌∷◌, ◌++◌, length, Bytes, hex, arith, ok, err,
  value_error,
}
use bitchchain.Htlc.{htlc_script, build_htlc_script}
use bitchchain.Htlc.Numbers.{push_bytes, encode_script_number-bytes}

hex-append : (xs ys : Bytes) → hex (xs ++ ys) ≡ hex xs ++ hex ys
unfolding hex
hex-append [] ys = refl
hex-append (x ∷ xs) ys = rw (hex-append xs ys)

pub length-hex : (bs : Bytes) → length (hex bs) ≡ 2 * length bs
unfolding hex
length-hex [] = refl
length-hex (b ∷ bs) = omega (arith, length-hex bs)

-- OP_IF OP_SHA256 <hash> OP_EQUALVERIFY <recipient> OP_CHECKSIG OP_ELSE <locktime>
-- OP_CHECKSEQUENCEVERIFY OP_DROP <sender> OP_CHECKSIG OP_ENDIF, each hash behind its length.
unfoldable pub htlc_bytes : Bytes → Bytes → Bytes → ℕ → Bytes
htlc_bytes recipient sender preimage_hash locktime =
    0x63
    ∷ 0xa8
    ∷ 0x20
    ∷ (preimage_hash
        ++ (0x88
            ∷ 0x14
            ∷ (recipient
                ++ (0xac
                    ∷ 0x67
                    ∷ (push_bytes locktime
                        ++ (0xb2 ∷ 0x75 ∷ 0x14 ∷ (sender ++ (0xac ∷ 0x68 ∷ []))))))))

htlc_script-bytes :
    (r s p : Bytes) (n : ℕ) → htlc_script (hex r) (hex s) (hex p) n ≡ hex (htlc_bytes r s p n)
unfolding htlc_script htlc_bytes hex
htlc_script-bytes r s p n = simp (hex-append, encode_script_number-bytes)

-- For hashes of 20, 20 and 32 bytes the builder returns the hexadecimal form of that script, and a
-- hash of any other length is refused with `ValueError`.
pub build_htlc_script-bytes :
    (r s p : Bytes) (n : ℕ)
    → build_htlc_script (hex r) (hex s) (hex p) n ≡ (
        if (length r == 20) && (length s == 20) && (length p == 32)
        then ok (hex (htlc_bytes r s p n))
        else err value_error)
unfolding build_htlc_script
build_htlc_script-bytes r s p n =
    ground (arith, length-hex r, length-hex s, length-hex p, htlc_script-bytes r s p n)
