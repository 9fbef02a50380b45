-- ===== src/Tcp/Client/ReadLaws.antt =====
-- transport/tcp/src/client.rs: `read_resp` on the bytes of a response that a server encoded.
use razor_rpc.Prelude.{
  ℕ, ◌^◌, ◌<◌, ◌≡◌, refl, Bool, true, false, List, [], ◌∷◌, ◌++◌, Option, none, some, ok, arith,
  length, append_assoc, ◌∙◌,
}
use razor_rpc.Prelude.Int.{ℤ, pos}
use razor_rpc.Layout.{ByteOrder}
use razor_rpc.Error.{io}
use razor_rpc.Proto.{resp_head_bytes}
use razor_rpc.Proto.Heads.{IsRespHead}
use razor_rpc.Proto.Response
use razor_rpc.Proto.Response.{Response}
use razor_rpc.Proto.Response.Laws.{response_head, blob_len_of, response_encode_ok}
use razor_rpc.Task.{ClientTask, ServerTaskEncode}
use razor_rpc.Timer.{Timer, ready, take_task}
use razor_rpc.Timer.Order.{tasks, lookup_seq, erase_seq}
use razor_rpc.Timer.Find.{take_task_lem}
use razor_rpc.Tcp.Stream.{read_exact-append, blob_bytes}
use razor_rpc.Tcp.Client.{done, finish, recv_blob, recv_task, recv_found, as_read, read_resp}
use razor_rpc.Tcp.Client.ErrorLaws.{Awaited, recv_resp_body_lem, read_resp-head}

module _ {T : Type 0} (c : ClientTask T) where
  -- The task after its blob: it lends a slice of the blob's length.
  abbrev pub TakesBlob : T → Option (List ℕ) → T → Type 0
  TakesBlob t none u = u ≡ t
  TakesBlob t (some []) u = u ≡ t
  TakesBlob t (some (x ∷ xs)) u =
      (r : T) × (c.reserve_resp_blob t (pos (length (x ∷ xs)))
        ≡ some (record { task = r; room = length (x ∷ xs) }))
      × (u ≡ c.fill_resp_blob r (x ∷ xs))

  -- The task after its message, which it can decode.
  abbrev pub TakesMsg : T → List ℕ → T → Type 0
  TakesMsg t [] u = u ≡ t
  TakesMsg t (x ∷ xs) u = c.decode_resp t (x ∷ xs) ≡ record { task = u; res = ok tt }

  module _ (alloc : ℤ → Bool) where
    finish_lem :
        (t u : T) (msg rest : List ℕ)
        → TakesMsg t msg u
        → finish c alloc t (length msg) msg rest ≡ done c alloc u rest
    unfolding finish
    finish_lem t u [] rest h = rw h refl
    finish_lem t u (x ∷ xs) rest h = ground (arith, h)

    recv_blob_lem :
        (t u v : T) (seq : ℕ) (msg rest : List ℕ) (b : Option (List ℕ))
        → TakesBlob t b u
        → TakesMsg u msg v
        → blob_len_of b < 2 ^ 31
        → recv_blob c alloc
            (response_head 0 seq (length msg) (blob_len_of b))
            t
            msg
            (blob_bytes b ++ rest)
          ≡ done c alloc v rest
    unfolding recv_blob
    recv_blob_lem t u v seq msg rest none h k l = rw (← h) (finish_lem u v msg rest k)
    recv_blob_lem t u v seq msg rest (some []) h k l = rw (← h) (finish_lem u v msg rest k)
    recv_blob_lem t u v seq msg rest (some (x ∷ xs)) (r, e, q) k l =
        let bs = x ∷ xs in
        let read = read_exact-append io (length bs) bs rest refl in
        ground (arith, e, q, read, finish_lem u v msg rest k)

    recv_task_lem :
        (t u v : T) (seq : ℕ) (msg rest : List ℕ) (b : Option (List ℕ))
        → TakesBlob t b u
        → TakesMsg u msg v
        → blob_len_of b < 2 ^ 31
        → recv_task c alloc
            (response_head 0 seq (length msg) (blob_len_of b))
            t
            (msg ++ (blob_bytes b ++ rest))
          ≡ done c alloc v rest
    unfolding recv_task
    recv_task_lem t u v seq [] rest b h k l = recv_blob_lem t u v seq [] rest b h k l
    recv_task_lem t u v seq (x ∷ xs) rest b h k l =
        let msg = x ∷ xs in
        let read = read_exact-append io (length msg) msg (blob_bytes b ++ rest) refl in
        ground (arith, read, recv_blob_lem t u v seq msg rest b h k l)

    pub response_head-IsRespHead :
        (seq m n : ℕ)
        → seq < 2 ^ 64
        → m < 2 ^ 32
        → n < 2 ^ 31
        → IsRespHead (response_head 0 seq m n)
    response_head-IsRespHead seq m n h k l = omega arith

    -- What `read_resp` makes of a response's bytes, by what `take_task` finds.
    read_resp-response :
        (z : ByteOrder) (seq : ℕ) (msg : List ℕ) (b : Option (List ℕ)) (t : Timer T) (rest : List ℕ)
        → seq < 2 ^ 64
        → length msg < 2 ^ 32
        → blob_len_of b < 2 ^ 31
        → Awaited c alloc t seq
        → let head = response_head 0 seq (length msg) (blob_len_of b) in
          let body =
            recv_found c alloc head (msg ++ (blob_bytes b ++ rest)) (lookup_seq c seq (tasks t)) in
          read_resp c alloc z false t ((resp_head_bytes z head ++ msg) ++ (blob_bytes b ++ rest))
          ≡ record {
            timer = (take_task c t seq).timer;
            errors = body.errors;
            dones = body.dones;
            rest = body.rest;
            poll = ready (as_read c alloc body.res);
          }
    read_resp-response z seq msg b t rest h m l a =
        let head = response_head 0 seq (length msg) (blob_len_of b) in
        let bs = msg ++ (blob_bytes b ++ rest) in
        rw (append_assoc (resp_head_bytes z head) msg (blob_bytes b ++ rest)) (
          read_resp-head c alloc z t head bs
            (response_head-IsRespHead seq (length msg) (blob_len_of b) h m l) refl refl
          ∙ recv_resp_body_lem c alloc t head bs a)

    -- A response that fits the header and that the server encodes for a task that awaits it, lends a
    -- slice for its blob and can decode its message, reaches that task: the blob is
    -- read into the slice that it lends and the message decoded, the task, and it alone, is done,
    -- the timer keeps the others, and the stream stands behind the response.
    pub read_resp-encode :
        (z : ByteOrder) {S : Type 0} (sv : ServerTaskEncode S) (room : List ℕ) (s : S) (seq : ℕ)
        (msg : List ℕ) (b : Option (List ℕ)) (t : Timer T) (task lent taken : T) (rest : List ℕ)
        → length room ≡ 20
        → sv.encode_resp s room ≡ record {
          seq = seq;
          buf = room ++ msg;
          res = ok (record { msg_len = length msg; blob = b });
        }
        → seq < 2 ^ 64
        → length msg < 2 ^ 32
        → blob_len_of b < 2 ^ 31
        → Awaited c alloc t seq
        → lookup_seq c seq (tasks t) ≡ some task
        → TakesBlob task b lent
        → TakesMsg lent msg taken
        → (q : Response) × (Response.encode z sv room s ≡ ok q)
          × let r = read_resp c alloc z false t (q.buf ++ (blob_bytes q.blob ++ rest)) in
            (r.errors ≡ [])
            × (r.dones ≡ c.set_ok taken ∷ [])
            × (r.rest ≡ rest)
            × (r.poll ≡ ready (ok true))
            × (tasks r.timer ≡ erase_seq c seq (tasks t))
    unfolding recv_found as_read
    read_resp-encode z sv room s seq msg b t task lent taken rest l e h m k a found tb tm =
        let head = response_head 0 seq (length msg) (blob_len_of b) in
        let (poll, kept) = take_task_lem c t seq a.inv a.registering in
        let body = recv_task_lem task lent taken seq msg rest b tb tm k in
        (
          record { seq = seq; buf = resp_head_bytes z head ++ msg; blob = b },
          response_encode_ok z sv room s seq msg b l e m k,
          rw (read_resp-response z seq msg b t rest h m k a, found, body)
              (refl, refl, refl, refl, ground (arith, kept, a.known)),
        )
