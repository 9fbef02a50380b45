-- ===== src/Server/Batches.antt =====
-- stream/src/server/server.rs: what the writer puts on the wire, however the answers come in batches.
use razor_rpc.Prelude.{
  ℕ, ◌≡◌, refl, sym, ap, subst, both_steps, ◌∙◌, List, [], ◌∷◌, ◌++◌, Option, none, some, Result,
  ok, err, panic, append_assoc, append-nil, arith,
}
use razor_rpc.Layout.{ByteOrder}
use razor_rpc.Task.{ServerTaskEncode}
use razor_rpc.Proto.Response.{Response}
use razor_rpc.Proto.Response
use razor_rpc.Tcp.Stream.{Writer, IsWriter, write_blob, blob_bytes}
use razor_rpc.Tcp.Server.{write_resp, write_resp_internal}
use razor_rpc.Server.{Answer, task, quick}
use razor_rpc.Server.Loop.{
  Batch, ServerTransport, process, process_all, write_batch, writer_run, flush_resp, close_conn,
  tcp_server,
}

-- The answers of the batches, in order.
abbrev pub flatten : {R : Type 0} → List (Batch R) → List (Answer R)
flatten [] = []
flatten (b ∷ bs) = b.first ∷ (b.more ++ flatten bs)

module _ {R : Type 0} (z : ByteOrder) (c : ServerTaskEncode R) (room : List ℕ) where
  -- The bytes of one answer, and of a list of them.
  abbrev pub AnswerBytes : Answer R → List ℕ → Type 0
  AnswerBytes (task x) out =
      (r : Response) × (Response.encode z c room x ≡ ok r) × (out ≡ r.buf ++ blob_bytes r.blob)
  AnswerBytes (quick seq e) out = Response.encode_internal z room seq e ≡ ok out

  pub data Bytes : List (Answer R) → List ℕ → Type 0 where
    none_left : Bytes [] []
    one :
        {a : Answer R} {xs : List (Answer R)} (out rest : List ℕ)
        → AnswerBytes a out
        → Bytes xs rest
        → Bytes (a ∷ xs) (out ++ rest)

  Bytes-append :
      (xs ys : List (Answer R)) (out rest : List ℕ)
      → Bytes xs out
      → Bytes ys rest
      → Bytes (xs ++ ys) (out ++ rest)
  Bytes-append [] ys _ rest none_left k = k
  Bytes-append (x ∷ xs) ys _ rest (one o r a b) k =
      subst (Bytes (x ∷ (xs ++ ys))) (sym (append_assoc o r rest))
        (one o (r ++ rest) a (Bytes-append xs ys r rest b k))

module _ {R W : Type 0} (z : ByteOrder) (w : Writer W) (law : IsWriter w) (shutdown : W → W)
    (c : ServerTaskEncode R) (room : List ℕ) where
  -- That writing from `s` to `v` sent just these answers.
  abbrev pub Wrote : W → W → List (Answer R) → Type 0
  Wrote s v xs = (out : List ℕ) × Bytes z c room xs out × (w.sent v ≡ w.sent s ++ out)

  pub Wrote-append :
      (s u v : W) (xs ys : List (Answer R)) → Wrote s u xs → Wrote u v ys → Wrote s v (xs ++ ys)
  Wrote-append s u v xs ys (o, b, e) (r, k, h) = (
    o ++ r,
    Bytes-append z c room xs ys o r b k,
    h ∙ ap (λ q. q ++ r) e ∙ append_assoc (w.sent s) o r,
  )

  blob-sent :
      (s v : W) (b : Option (List ℕ))
      → write_blob w s b ≡ ok v
      → w.sent v ≡ w.sent s ++ blob_bytes b
  unfolding write_blob
  blob-sent s v none h = ground (arith, h, append-nil (w.sent s))
  blob-sent s v (some x) h = law.write_all-sent s v x h

  abbrev server : ServerTransport R W
  server = tcp_server z w shutdown c room

  pub process-sent : (s v : W) (a : Answer R) → process server s a ≡ ok v → Wrote s v (a ∷ [])
  unfolding process tcp_server write_resp write_resp_internal
  process-sent s v (task x) h =
      let (r, e, h1) = both_steps (Response.encode z c room x) _ v h in
      let (s1, e1, h2) = both_steps (w.write_all s r.buf) _ v h1 in
      let out = r.buf ++ blob_bytes r.blob in
      (
        out ++ [],
        one out [] (r, e, refl) none_left,
        blob-sent s1 v r.blob h2
            ∙ ap (λ q. q ++ blob_bytes r.blob) (law.write_all-sent s s1 r.buf e1)
            ∙ append_assoc (w.sent s) r.buf (blob_bytes r.blob)
            ∙ ap (λ q. w.sent s ++ q) (sym (append-nil out)),
      )
  process-sent s v (quick seq e) h =
      let (out, k, h1) = both_steps (Response.encode_internal z room seq e) _ v h in
      (
        out ++ [],
        one out [] k none_left,
        law.write_all-sent s v out h1 ∙ ap (λ q. w.sent s ++ q) (sym (append-nil out)),
      )

  nothing : (s v : W) → w.sent v ≡ w.sent s → Wrote s v []
  nothing s v e = ([], none_left, e ∙ sym (append-nil (w.sent s)))

  process_all-sent :
      (s v : W) (xs : List (Answer R)) → process_all server s xs ≡ ok v → Wrote s v xs
  unfolding process_all
  process_all-sent s v [] h = nothing s v (ground (arith, h))
  process_all-sent s v (x ∷ xs) h =
      let (u, e, k) = both_steps (process server s x) _ v h in
      Wrote-append s u v (x ∷ []) xs (process-sent s u x e) (process_all-sent u v xs k)

  write_batch-sent :
      (s v : W) (b : Batch R) → write_batch server s b ≡ ok v → Wrote s v (b.first ∷ b.more)
  unfolding write_batch tcp_server flush_resp
  write_batch-sent s v b h =
      let (s1, e, h1) = both_steps (process server s b.first) _ v h in
      let (s2, k, h2) = both_steps (process_all server s1 b.more) _ v h1 in
      let (out, x, y) =
        Wrote-append s s1 s2 (b.first ∷ []) b.more (process-sent s s1 b.first e)
          (process_all-sent s1 s2 b.more k) in
      (out, x, law.flush-sent s2 v h2 ∙ y)

  pub close_conn-sent :
      ((u : W) → w.sent (shutdown u) ≡ w.sent u)
      → (s : W) → w.sent (close_conn w shutdown s) ≡ w.sent s
  unfolding close_conn flush_resp
  close_conn-sent h s = split (w.flush s) refl
    where
      split :
          (r : Result (Unit {0}) W) → w.flush s ≡ r → w.sent (close_conn w shutdown s) ≡ w.sent s
      split (ok u) e = rw (e, close_conn) (h u ∙ law.flush-sent s u e)
      split (err x) e = rw (e, close_conn) refl
      split panic e = rw (e, close_conn) refl

  -- A writer keeps what it documents and shutting down sends nothing: however the answers come in
  -- batches, if `Writer::run` ends without an error, it has sent the bytes of each answer, once and in
  -- their order, and nothing else.
  pub writer_run-sent :
      (bs : List (Batch R)) (s v : W)
      → ((u : W) → w.sent (shutdown u) ≡ w.sent u)
      → writer_run server s bs ≡ ok v
      → (out : List ℕ) × Bytes z c room (flatten bs) out × (w.sent v ≡ w.sent s ++ out)
  unfolding writer_run tcp_server
  writer_run-sent [] s v h e = nothing s v (ground (arith, e, close_conn-sent h s))
  writer_run-sent (b ∷ bs) s v h e =
      let (u, e1, k) = both_steps (write_batch server s b) _ v e in
      Wrote-append s u v (b.first ∷ b.more) (flatten bs) (write_batch-sent s u b e1)
        (writer_run-sent bs u v h k)

  -- Where no write and no flush fails.
  abbrev pub NeverFails : Type 0
  NeverFails =
      ((s : W) (bs : List ℕ) → (t : W) × (w.write_all s bs ≡ ok t))
      × ((s : W) → (t : W) × (w.flush s ≡ ok t))

  write_blob_succeeds :
      NeverFails → (s : W) (b : Option (List ℕ)) → (v : W) × (write_blob w s b ≡ ok v)
  unfolding write_blob
  write_blob_succeeds f s none = (s, refl)
  write_blob_succeeds f s (some x) = f.0 s x

  pub process_succeeds :
      NeverFails
      → (s : W) (a : Answer R) (out : List ℕ) → AnswerBytes z c room a out
      → (v : W) × (process server s a ≡ ok v)
  unfolding process tcp_server write_resp write_resp_internal
  process_succeeds f s (task x) out (r, e, k) =
      let (s1, e1) = f.0 s r.buf in
      let (v, e2) = write_blob_succeeds f s1 r.blob in (v, rw (e, e1, e2) refl)
  process_succeeds f s (quick seq q) out k = let (v, e) = f.0 s out in (v, rw (k, e) refl)

  process_all_succeeds :
      NeverFails
      → (s : W) (xs ys : List (Answer R)) (out : List ℕ) → Bytes z c room (xs ++ ys) out
      → (v : W) × (rest : List ℕ) × (process_all server s xs ≡ ok v) × Bytes z c room ys rest
  unfolding process_all
  process_all_succeeds f s [] ys out b = (s, out, refl, b)
  process_all_succeeds f s (x ∷ xs) ys _ (one o r a b) =
      let (u, e) = process_succeeds f s x o a in
      let (v, rest, k, c1) = process_all_succeeds f u xs ys r b in (v, rest, rw e k, c1)

  write_batch_succeeds :
      NeverFails
      → (s : W) (b : Batch R) (ys : List (Answer R)) (out : List ℕ)
      → Bytes z c room (b.first ∷ (b.more ++ ys)) out
      → (v : W) × (rest : List ℕ) × (write_batch server s b ≡ ok v) × Bytes z c room ys rest
  unfolding write_batch tcp_server flush_resp
  write_batch_succeeds f s b ys _ (one o r a k) =
      let (s1, e1) = process_succeeds f s b.first o a in
      let (s2, rest, e2, k2) = process_all_succeeds f s1 b.more ys r k in
      let (v, e3) = f.1 s2 in (v, rest, rw (e1, e2, e3) refl, k2)

  -- If no write and no flush fails and every answer can be encoded, `Writer::run` ends without an
  -- error, however the answers come in batches.
  writer_run_succeeds :
      (bs : List (Batch R)) (s : W) (out : List ℕ)
      → NeverFails
      → Bytes z c room (flatten bs) out
      → (v : W) × (writer_run server s bs ≡ ok v)
  unfolding writer_run tcp_server
  writer_run_succeeds [] s out f k = (close_conn w shutdown s, refl)
  writer_run_succeeds (b ∷ bs) s out f k =
      let (u, rest, e, k1) = write_batch_succeeds f s b (flatten bs) out k in
      let (v, e1) = writer_run_succeeds bs u rest f k1 in (v, rw e e1)
