-- ===== src/Error/Codec.antt =====
-- stream/src/error.rs: `RpcErrCodec` and its implementations for numbers, `()`, `String` and `Errno`.
use razor_rpc.Prelude.{
  ℕ, ◌-◌, ◌^◌, ◌<◌, ◌≤◌, ◌≡◌, refl, List, Option, Result, ok, err, ◌⊎◌, inl, inr, leb, ◌==◌,
  if◌then◌else◌, arith,
}
use razor_rpc.Prelude.Int.{ℤ, pos, negsuc, as_u32, as_i32, InSigned, as_i32-as_u32}
use razor_rpc.Prelude.Text.{is_utf8}
use razor_rpc.Error.{EncodedErr, num, buf}

-- The trait. What arrives is a number or bytes; `should_failover` answers `ok (some addr)`,
-- `ok none` or, by default, an error.
pub record RpcErrCodec (E : Type 0) : Type 0 where
  pub encode : E → EncodedErr
  pub decode : ℕ ⊎ List ℕ → Result (Unit {0}) E
  pub should_failover : E → Result (Unit {0}) (Option (List ℕ))

abbrev pub no_failover : {E : Type 0} → E → Result (Unit {0}) (Option (List ℕ))
no_failover e = err tt

-- `impl_rpc_error_for_num!(T)`, by `T::MAX`. A signed value is cast to u32 by sign extension.
unfoldable pub encode_num : ℤ → EncodedErr
encode_num x = num (as_u32 x)

unfoldable pub decode_num : ℕ → ℕ ⊎ List ℕ → Result (Unit {0}) ℤ
decode_num max (inl i) = if leb i max then ok (pos i) else err tt
decode_num max (inr s) = err tt

unfoldable pub num_codec : ℕ → RpcErrCodec ℤ
unfolding encode_num decode_num
num_codec max = record {
  encode = encode_num;
  decode = decode_num max;
  should_failover = no_failover;
}

-- `()`
encode_unit : Unit {0} → EncodedErr
encode_unit u = num 0

decode_unit : ℕ ⊎ List ℕ → Result (Unit {0}) (Unit {0})
decode_unit (inl i) = if i == 0 then ok tt else err tt
decode_unit (inr s) = err tt

unfoldable pub unit_codec : RpcErrCodec (Unit {0})
unfolding encode_unit decode_unit
unit_codec = record { encode = encode_unit; decode = decode_unit; should_failover = no_failover }

-- `String`, as its bytes.
encode_string : List ℕ → EncodedErr
encode_string s = buf s

decode_string : ℕ ⊎ List ℕ → Result (Unit {0}) (List ℕ)
decode_string (inl i) = err tt
decode_string (inr s) = if is_utf8 s then ok s else err tt

unfoldable pub string_codec : RpcErrCodec (List ℕ)
unfolding encode_string decode_string
string_codec = record {
  encode = encode_string;
  decode = decode_string;
  should_failover = no_failover;
}

-- `nix::errno::Errno`, whose numbers and `from_raw` are those of the package nix.
module _ {Errno : Type 0} (raw : Errno → ℤ) (from_raw : ℤ → Errno) where
  encode_errno : Errno → EncodedErr
  encode_errno e = num (as_u32 (raw e))

  decode_errno : ℕ ⊎ List ℕ → Result (Unit {0}) Errno
  decode_errno (inl i) = if leb i 0x7fff_ffff then ok (from_raw (as_i32 i)) else err tt
  decode_errno (inr s) = err tt

  unfoldable pub errno_codec : RpcErrCodec Errno
  unfolding encode_errno decode_errno
  errno_codec = record {
    encode = encode_errno;
    decode = decode_errno;
    should_failover = no_failover;
  }

-- What comes back of a number: the value if it is not negative, and an error otherwise.
abbrev pub expected : ℤ → Result (Unit {0}) ℤ
expected (pos n) = ok (pos n)
expected (negsuc n) = err tt

-- For `i8`, `i16` and `i32` (`half` is 2^7, 2^15, 2^31) every error is sent as a number, which the
-- client decodes to the same value if it is not negative, and refuses if it is negative.
pub num_codec_signed :
    (half : ℕ) (x : ℤ)
    → 0 < half
    → half ≤ 2 ^ 31
    → InSigned half x
    → let c = num_codec (half - 1) in
      (n : ℕ) × (c.encode x ≡ num n) × (c.decode (inl n) ≡ expected x)
unfolding num_codec
num_codec_signed half (pos n) l h k = (as_u32 (pos n), refl, ground arith)
num_codec_signed half (negsuc n) l h k = (as_u32 (negsuc n), refl, ground arith)

-- For `u8`, `u16` and `u32` (`max` is the type's largest value) every error comes back.
num_codec_unsigned :
    (max n : ℕ)
    → n ≤ max
    → max < 2 ^ 32
    → let c = num_codec max in
      (m : ℕ) × (c.encode (pos n) ≡ num m) × (c.decode (inl m) ≡ ok (pos n))
unfolding num_codec
num_codec_unsigned max n h k = (as_u32 (pos n), refl, ground arith)

-- An `Errno` whose number is an i32 that is not negative comes back, if `from_raw` undoes `as u32`.
errno_roundtrip :
    {Errno : Type 0} (raw : Errno → ℤ) (from_raw : ℤ → Errno) (e : Errno) (n : ℕ)
    → ((d : Errno) → from_raw (raw d) ≡ d)
    → raw e ≡ pos n
    → n < 2 ^ 31
    → let c = errno_codec raw from_raw in (m : ℕ) × (c.encode e ≡ num m) × (c.decode (inl m) ≡ ok e)
unfolding errno_codec
errno_roundtrip raw from_raw e n undo r h = (as_u32 (raw e), refl, back (raw e) r)
  where
    back : (x : ℤ) → x ≡ pos n → decode_errno raw from_raw (inl (as_u32 x)) ≡ ok e
    back x p = rw p (ground (arith, as_i32-as_u32 (pos n) h, undo e, r))
