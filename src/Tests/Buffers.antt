-- ===== src/Tests/Buffers.antt =====
-- stream/src/buffer.rs and codec/src on small buffers.
use razor_rpc.Prelude.{
  ℕ, ◌+◌, ◌≡◌, refl, List, [], ◌∷◌, ◌++◌, Result, ok, err, length, take, drop, arith,
}
use razor_rpc.Prelude.Int.{pos}
use razor_rpc.Task.{Encoded}
use razor_rpc.Codec.{RmpSerde, IsRmpSerde, msgp_codec, encode_into-decode}
use razor_rpc.Buffer.{Buf, reserve_vec, reserve_vec_overruns}

-- A vector that doubles, or takes what it needs.
abbrev doubled : ℕ → ℕ → ℕ
doubled c n = c + (c + n)

-- An empty vector with a capacity of 10.
abbrev empty : Buf
empty = record { len = 0; capacity = 10 }

abbrev full : Buf
full = record { len = 10; capacity = 10 }

reserve_vec_overruns_example : reserve_vec doubled empty (pos 15) ≡ err tt
reserve_vec_overruns_example =
    reserve_vec_overruns doubled empty 15 (omega arith) (omega arith) (omega arith) (omega arith)

abbrev to_bytes : List ℕ → Result (Unit {0}) (List ℕ)
to_bytes m = ok m

abbrev append_bytes : List ℕ → List ℕ → Result (List ℕ) (List ℕ)
append_bytes m out = ok (out ++ m)

abbrev raw : RmpSerde (List ℕ)
raw = record { to_vec_named = to_bytes; write_named = append_bytes; from_slice = to_bytes }

raw-IsRmpSerde : IsRmpSerde raw
raw-IsRmpSerde = record {
  appends = λ m out buf e. (m, refl, ground (arith, e));
  reads = λ m v e. ground (arith, e);
}

abbrev written : Encoded
written = record { buf = 1 ∷ 2 ∷ 7 ∷ 8 ∷ []; size = 2 }

writes_two : (msgp_codec raw).encode_into (7 ∷ 8 ∷ []) (1 ∷ 2 ∷ []) ≡ ok written
unfolding msgp_codec
writes_two = refl

encode_into-decode_example :
    (take 2 written.buf ≡ 1 ∷ 2 ∷ [])
    × (length (drop 2 written.buf) ≡ 2)
    × ((msgp_codec raw).decode (drop 2 written.buf) ≡ ok (7 ∷ 8 ∷ []))
encode_into-decode_example =
    encode_into-decode raw (7 ∷ 8 ∷ []) (1 ∷ 2 ∷ []) written raw-IsRmpSerde writes_two
