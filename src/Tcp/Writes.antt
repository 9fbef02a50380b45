-- ===== src/Tcp/Writes.antt =====
-- transport/tcp/src: what `write_req` puts on the stream.
use razor_rpc.Prelude.{
  ℕ, ◌≡◌, refl, Bool, List, ◌++◌, Option, none, some, Result, ok, err, panic, ◌>>=◌, arith, ◌∙◌, ap,
  append_assoc, append-nil, if◌then◌else◌,
}
use razor_rpc.Tcp.Stream.{Writer, IsWriter, write_blob, blob_bytes}
use razor_rpc.Tcp.Client.{write_req, flush_req}

module _ {W : Type 0} (w : Writer W) where
  write_blob-sent :
      (s t : W) (blob : Option (List ℕ))
      → IsWriter w
      → write_blob w s blob ≡ ok t
      → w.sent t ≡ w.sent s ++ blob_bytes blob
  unfolding write_blob
  write_blob-sent s t none v e = ground (arith, e, append-nil (w.sent s))
  write_blob-sent s t (some b) v e = v.write_all-sent s t b e

  -- Behind the buffer: the blob, and the flush if it is asked for.
  after_buf : W → Option (List ℕ) → Bool → Result (Unit {0}) W
  after_buf s blob need_flush = do
    s2 ← write_blob w s blob
    if need_flush then flush_req w s2 else ok s2

  after_buf-sent :
      (s t : W) (blob : Option (List ℕ)) (need_flush : Bool)
      → IsWriter w
      → after_buf s blob need_flush ≡ ok t
      → w.sent t ≡ w.sent s ++ blob_bytes blob
  unfolding after_buf flush_req
  after_buf-sent s t blob need_flush v e = split (write_blob w s blob) refl e
    where
      split :
          (r : Result (Unit {0}) W)
          → write_blob w s blob ≡ r
          → (r >>= λ s2. if need_flush then flush_req w s2 else ok s2) ≡ ok t
          → w.sent t ≡ w.sent s ++ blob_bytes blob
      split (ok u) p q = ground (arith, q, write_blob-sent s u blob v p, v.flush-sent u t)
      split (err x) p q = ground (arith, q)
      split panic p q = ground (arith, q)

  -- A writer keeps what it documents: if `write_req` succeeds, flushing or not, exactly the buffer
  -- and then the blob were sent.
  write_req-sent :
      (s t : W) (bytes : List ℕ) (blob : Option (List ℕ)) (need_flush : Bool)
      → IsWriter w
      → write_req w s bytes blob need_flush ≡ ok t
      → w.sent t ≡ w.sent s ++ (bytes ++ blob_bytes blob)
  unfolding write_req flush_req after_buf
  write_req-sent s t bytes blob need_flush v e = finish (w.write_all s bytes) refl e
    where
      finish :
          (r : Result (Unit {0}) W)
          → w.write_all s bytes ≡ r
          → (r >>= λ u. after_buf u blob need_flush) ≡ ok t
          → w.sent t ≡ w.sent s ++ (bytes ++ blob_bytes blob)
      finish (ok u) p q =
          after_buf-sent u t blob need_flush v q
          ∙ ap (λ xs. xs ++ blob_bytes blob) (v.write_all-sent s u bytes p)
          ∙ append_assoc (w.sent s) bytes (blob_bytes blob)
      finish (err x) p q = ground (arith, q)
      finish panic p q = ground (arith, q)
