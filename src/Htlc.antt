-- ===== src/Htlc.antt =====
-- The script builders at the end of agent/modules/blockchain_core.py (lines 466 to 612).
pub mod Numbers
pub mod Script
use bitchchain.Base.{
  ℕ, zero, suc, ◌+◌, ◌-◌, ◌/◌, ◌%◌, ◌^◌, ◌≡◌, Bool, true, false, not, ◌&&◌, List, [], ◌∷◌, ◌++◌,
  length, ltb, leb, ◌==◌, if◌then◌else◌, Text, Bytes, text, hex, from_hex, Result, ok, err,
  value_error, ◌>>=◌, guard, ◌>>◌,
}

abbrev pub op_dup : Text
op_dup = text "76"

abbrev pub op_hash160 : Text
op_hash160 = text "a9"

abbrev pub op_equalverify : Text
op_equalverify = text "88"

abbrev pub op_checksig : Text
op_checksig = text "ac"

abbrev pub op_equal : Text
op_equal = text "87"

abbrev pub op_if : Text
op_if = text "63"

abbrev pub op_else : Text
op_else = text "67"

abbrev pub op_endif : Text
op_endif = text "68"

abbrev pub op_sha256 : Text
op_sha256 = text "a8"

abbrev pub op_checksequenceverify : Text
op_checksequenceverify = text "b2"

abbrev pub op_drop : Text
op_drop = text "75"

abbrev pub op_pushdata_20 : Text
op_pushdata_20 = text "14"

abbrev pub op_pushdata_32 : Text
op_pushdata_32 = text "20"

-- The hexadecimal digits of a number above the lowest two, with fuel.
upper_digits : ℕ → ℕ → Text → Text
upper_digits zero n rest = rest
upper_digits (suc fuel) n rest =
    let more =
      upper_digits fuel (n / 16) ((if ltb (n % 16) 10 then n % 16 + 48 else n % 16 + 87) ∷ rest) in
    if n == 0 then rest else more

-- `f"{n:02x}"`: at least two digits; `n` rounds are fuel enough.
unfoldable pub format_02x : ℕ → Text
unfolding upper_digits
format_02x n = upper_digits n (n / 256) (hex (n % 256 ∷ []))

-- `_encode_script_number`. A negative number, which no caller passes, is not represented.
unfoldable pub encode_script_number : ℕ → Text
encode_script_number n =
    if n == 0
    then text "00"
    else if leb 1 n && leb n 16
    then format_02x (0x50 + n)
    else if ltb n 0x80
    then text "01" ++ format_02x n
    else if ltb n 0x8000
    then text "02" ++ (format_02x (n % 256) ++ format_02x (n / 2 ^ 8 % 256))
    else if ltb n 0x800000
    then text "03"
      ++ (format_02x (n % 256) ++ (format_02x (n / 2 ^ 8 % 256) ++ format_02x (n / 2 ^ 16 % 256)))
    else text "04"
      ++ (format_02x (n % 256)
          ++ (format_02x (n / 2 ^ 8 % 256)
              ++ (format_02x (n / 2 ^ 16 % 256) ++ format_02x (n / 2 ^ 24 % 256))))

-- The script that `build_htlc_script` puts together once the lengths are right.
unfoldable pub htlc_script : Text → Text → Text → ℕ → Text
htlc_script recipient_pubkey_hash sender_pubkey_hash preimage_hash locktime_blocks =
    op_if
    ++ (op_sha256
        ++ (op_pushdata_32
            ++ (preimage_hash
                ++ (op_equalverify
                    ++ (op_pushdata_20
                        ++ (recipient_pubkey_hash
                            ++ (op_checksig
                                ++ (op_else
                                    ++ (encode_script_number locktime_blocks
                                        ++ (op_checksequenceverify
                                            ++ (op_drop
                                                ++ (op_pushdata_20
                                                    ++ (sender_pubkey_hash
                                                        ++ (op_checksig ++ op_endif))))))))))))))

unfoldable pub build_htlc_script : Text → Text → Text → ℕ → Result Text
build_htlc_script recipient_pubkey_hash sender_pubkey_hash preimage_hash locktime_blocks = do
  guard (length recipient_pubkey_hash == 40) value_error
  guard (length sender_pubkey_hash == 40) value_error
  guard (length preimage_hash == 64) value_error
  ok (htlc_script recipient_pubkey_hash sender_pubkey_hash preimage_hash locktime_blocks)

unfoldable pub build_htlc_redeem_script : Text → Text → Text
build_htlc_redeem_script preimage recipient_sig_hex =
    format_02x (length recipient_sig_hex / 2)
    ++ (recipient_sig_hex ++ (format_02x (length preimage / 2) ++ (preimage ++ text "51")))

unfoldable pub build_htlc_timeout_script : Text → Text
build_htlc_timeout_script sender_sig_hex =
    format_02x (length sender_sig_hex / 2) ++ (sender_sig_hex ++ text "00")

unfoldable pub build_p2pkh_script : Text → Text
build_p2pkh_script pubkey_hash =
    op_dup ++ (op_hash160 ++ (op_pushdata_20 ++ (pubkey_hash ++ (op_equalverify ++ op_checksig))))

unfoldable pub build_p2sh_script : Text → Text
build_p2sh_script script_hash = op_hash160 ++ (op_pushdata_20 ++ (script_hash ++ op_equal))

-- SHA-256 and RIPEMD-160 are the standard library's.
unfoldable pub compute_p2sh_address : (Bytes → Bytes) → (Bytes → Bytes) → Text → Result Text
compute_p2sh_address sha256 ripemd160 htlc_script_hex = from_hex htlc_script_hex >>= λ script_bytes.
    ok (build_p2sh_script (hex (ripemd160 (sha256 script_bytes))))
