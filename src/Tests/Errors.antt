-- ===== src/Tests/Errors.antt =====
-- stream/src/error.rs on concrete errors.
use razor_rpc.Prelude.{ℕ, ◌≡◌, err, inl, arith}
use razor_rpc.Prelude.Int.{ℤ, negsuc}
use razor_rpc.Error.{num}
use razor_rpc.Error.Codec.{num_codec, num_codec_signed}

-- The i8 -3.
num_codec_signed_example :
    (n : ℕ) × ((num_codec 127).encode (negsuc 2) ≡ num n)
    × ((num_codec 127).decode (inl n) ≡ err tt)
num_codec_signed_example = num_codec_signed 128 (negsuc 2) (omega arith) (omega arith) (omega arith)

abbrev raw_id : ℤ → ℤ
raw_id x = x
