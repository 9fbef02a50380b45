-- ===== src/Codec.antt =====
-- codec/src: `Codec` for one type of message, and `MsgpCodec` over the package rmp_serde, whose calls
-- are a parameter. A write that fails leaves the buffer with what it has written.
use razor_rpc.Prelude.{
  ℕ, ◌-◌, ◌≡◌, refl, List, ◌++◌, Result, ok, ◌>>=◌, both_steps, length, take, drop, length-append,
  take-append, drop-append, arith,
}
use razor_rpc.Task.{Encoded}

-- `encode_into` fails with what it has left in the buffer.
pub record Codec (M : Type 0) : Type 0 where
  pub encode : M → Result (Unit {0}) (List ℕ)
  pub encode_into : M → List ℕ → Result (List ℕ) Encoded
  pub decode : List ℕ → Result (Unit {0}) M

-- `rmp_serde::encode::to_vec_named`, `encode::write_named` and `decode::from_slice`.
pub record RmpSerde (M : Type 0) : Type 0 where
  pub to_vec_named : M → Result (Unit {0}) (List ℕ)
  pub write_named : M → List ℕ → Result (List ℕ) (List ℕ)
  pub from_slice : List ℕ → Result (Unit {0}) M

-- What the package documents: it appends the same bytes that it gives as a vector, and reads them.
pub record IsRmpSerde {M : Type 0} (r : RmpSerde M) : Type 0 where
  pub appends :
      (m : M) (out buf : List ℕ)
      → r.write_named m out ≡ ok buf
      → (v : List ℕ) × (r.to_vec_named m ≡ ok v) × (buf ≡ out ++ v)
  pub reads : (m : M) (v : List ℕ) → r.to_vec_named m ≡ ok v → r.from_slice v ≡ ok m

module _ {M : Type 0} (r : RmpSerde M) where
  msgp_encode_into : M → List ℕ → Result (List ℕ) Encoded
  msgp_encode_into m out =
      r.write_named m out >>= λ buf. ok (record { buf = buf; size = length buf - length out })

  -- `MsgpCodec`
  unfoldable pub msgp_codec : Codec M
  unfolding msgp_encode_into
  msgp_codec = record {
    encode = r.to_vec_named;
    encode_into = msgp_encode_into;
    decode = r.from_slice;
  }

  -- If the package keeps what it documents: a message that `encode_into` puts behind what is in the
  -- buffer leaves that as it was; the size that it reports is that of the rest, and the rest is
  -- decoded as the message.
  pub encode_into-decode :
      (m : M) (out : List ℕ) (e : Encoded)
      → IsRmpSerde r
      → msgp_codec.encode_into m out ≡ ok e
      → (take (length out) e.buf ≡ out)
        × (length (drop (length out) e.buf) ≡ e.size)
        × (msgp_codec.decode (drop (length out) e.buf) ≡ ok m)
  unfolding msgp_codec
  encode_into-decode m out e law h =
      let (buf, k, p) = both_steps (r.write_named m out) _ e h in
      let (v, n, q) = law.appends m out buf k in
      let b : e.buf ≡ out ++ v = ground (arith, p, q) in
      let len : e.size ≡ length v = ground (arith, p, q, length-append out v) in
      rw (b, len, take-append (length out) out v refl, drop-append (length out) out v refl)
        (refl, refl, law.reads m v n)
