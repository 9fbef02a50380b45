-- ===== src/Tcp/Client/Skips.antt =====
-- transport/tcp/src/client.rs: `read_resp` on a response whose task is gone.
use razor_rpc.Prelude.{
  ℕ, ◌+◌, ◌^◌, ◌<◌, ◌≡◌, refl, Bool, true, false, List, [], ◌∷◌, ◌++◌, Option, none, some, ok,
  arith, length, append_assoc, length-append, ap, ◌∙◌,
}
use razor_rpc.Prelude.Int.{ℤ, pos, as_usize, as_i32-small}
use razor_rpc.Layout.{ByteOrder}
use razor_rpc.Error.{io}
use razor_rpc.Proto.{resp_head_bytes}
use razor_rpc.Proto.Heads.{IsRespHead}
use razor_rpc.Proto.Response
use razor_rpc.Proto.Response.{Response}
use razor_rpc.Proto.Response.Laws.{response_head, blob_len_of, response_encode_ok}
use razor_rpc.Task.{ClientTask, ServerTaskEncode}
use razor_rpc.Timer.{Timer, ready}
use razor_rpc.Timer.Order.{tasks, lookup_seq, erase_seq-none}
use razor_rpc.Timer.Find.{take_task_lem}
use razor_rpc.Tcp.Stream.{read_exact-append, blob_bytes}
use razor_rpc.Tcp.Client.{recv_found, recv_nobody, recv_and_dump, data_len, as_read, read_resp}
use razor_rpc.Tcp.Client.ErrorLaws.{Awaited, recv_resp_body_lem, read_resp-head}
use razor_rpc.Error.{EncodedErr, num, buf, static, as_bytes}
use razor_rpc.Error
use razor_rpc.Proto.{RespHead, rpc_magic, rpc_version_1}
use razor_rpc.Proto.Response.{encode_error}
use razor_rpc.Proto.Response.Laws.{error_head, error_text}
use razor_rpc.Prelude.Int.{as_u32}
use razor_rpc.Tcp.Client.ErrorLaws.{Fits, head_fields, encode_error_alone, error_head-IsRespHead}
use razor_rpc.Tcp.Client.ReadLaws.{response_head-IsRespHead}

module _ {T : Type 0} (c : ClientTask T) (alloc : ℤ → Bool) where
  length-blob_bytes : (b : Option (List ℕ)) → length (blob_bytes b) ≡ blob_len_of b
  length-blob_bytes none = refl
  length-blob_bytes (some s) = refl

  dump_lem :
      (n : ℕ) (s rest : List ℕ)
      → length s ≡ n
      → n < 2 ^ 31
      → alloc (pos n) ≡ true
      → recv_and_dump c alloc [] n (s ++ rest)
        ≡ record { errors = []; dones = []; rest = rest; res = ok tt }
  unfolding recv_and_dump
  dump_lem n s rest e l a =
      let i : as_usize (pos n) ≡ n = omega arith in
      rw (as_i32-small n l, a, i) (ground (arith, read_exact-append io n s rest e))

  data_len_lem : (seq m n : ℕ) → m + n < 2 ^ 31 → data_len c alloc (response_head 0 seq m n) ≡ m + n
  unfolding data_len
  data_len_lem seq m n l = omega arith

  empty : (s : List ℕ) → length s ≡ 0 → s ≡ []
  empty [] e = refl
  empty (x ∷ xs) e = ground arith

  recv_nobody_lem :
      (seq : ℕ) (msg rest : List ℕ) (b : Option (List ℕ))
      → length msg + blob_len_of b < 2 ^ 31
      → alloc (pos (length msg + blob_len_of b)) ≡ true
      → recv_nobody c alloc
          (response_head 0 seq (length msg) (blob_len_of b))
          (msg ++ (blob_bytes b ++ rest))
        ≡ record { errors = []; dones = []; rest = rest; res = ok tt }
  unfolding recv_nobody
  recv_nobody_lem seq msg rest b l a =
      let n = length msg + blob_len_of b in
      let len : length (msg ++ blob_bytes b) ≡ n =
        length-append msg (blob_bytes b) ∙ ap (◌+◌ (length msg)) (length-blob_bytes b) in
      let dump = dump_lem n (msg ++ blob_bytes b) rest len l a in
      let none_left = λ (e : n ≡ 0). empty (msg ++ blob_bytes b) (len ∙ e) in
      rw (data_len_lem seq (length msg) (blob_len_of b) l, ← append_assoc msg (blob_bytes b) rest)
        (ground (arith, dump, none_left))

  -- What skipping a response comes to: nothing is handed over, the tasks that are held stay, and the
  -- stream stands behind the response.
  abbrev pub Skips : ByteOrder → Timer T → List ℕ → List ℕ → Type 0
  Skips z t bs rest =
      let r = read_resp c alloc z false t (bs ++ rest) in
      (r.errors ≡ [])
      × (r.dones ≡ [])
      × (r.rest ≡ rest)
      × (r.poll ≡ ready (ok true))
      × (tasks r.timer ≡ tasks t)

  -- A header whose task is gone, and what follows it.
  skip_lem :
      (z : ByteOrder) (head : RespHead) (body : List ℕ) (t : Timer T) (rest : List ℕ)
      → IsRespHead head
      → head.magic ≡ rpc_magic
      → head.ver ≡ rpc_version_1
      → Awaited c alloc t head.seq
      → lookup_seq c head.seq (tasks t) ≡ none
      → recv_nobody c alloc head (body ++ rest)
        ≡ record { errors = []; dones = []; rest = rest; res = ok tt }
      → Skips z t (resp_head_bytes z head ++ body) rest
  unfolding recv_found as_read
  skip_lem z head body t rest v m e a found dumped =
      let (poll, kept) = take_task_lem c t head.seq a.inv a.registering in
      let read =
        ap (read_resp c alloc z false t) (append_assoc (resp_head_bytes z head) body rest)
        ∙ read_resp-head c alloc z t head (body ++ rest) v m e
        ∙ recv_resp_body_lem c alloc t head (body ++ rest) a in
      rw (read, found, dumped)
        (
          refl,
          refl,
          refl,
          refl,
          ground (arith, kept, a.known, erase_seq-none c head.seq (tasks t) found),
        )

  skip_text :
      (seq : ℕ) (s rest : List ℕ)
      → length s < 2 ^ 31
      → alloc (pos (length s)) ≡ true
      → recv_nobody c alloc (response_head 2 seq 0 (length s)) (s ++ rest)
        ≡ record { errors = []; dones = []; rest = rest; res = ok tt }
  unfolding recv_nobody data_len
  skip_text seq s rest f al =
      let dump = dump_lem (length s) s rest refl f al in
      let none_left = empty s in
      let n : as_u32 (pos (length s)) ≡ length s = omega arith in ground (arith, dump, none_left, n)

  skip_error_lem :
      (seq : ℕ) (e : EncodedErr) (rest : List ℕ)
      → Fits e
      → alloc (pos (length (error_text e))) ≡ true
      → recv_nobody c alloc (error_head seq e) (error_text e ++ rest)
        ≡ record { errors = []; dones = []; rest = rest; res = ok tt }
  unfolding recv_nobody data_len
  skip_error_lem seq (num n) rest f al = refl
  skip_error_lem seq (Error.rpc e) rest f al = skip_text seq (as_bytes e) rest f al
  skip_error_lem seq (buf s) rest f al = skip_text seq s rest f al
  skip_error_lem seq (static s) rest f al = skip_text seq s rest f al

  -- A response to a task that the timer no longer holds is skipped, whether it is a message and a blob of less
  -- than 2^31 bytes together or an error that fits the header, encoded into a buffer with the room of
  -- the header alone: nothing is handed over, the tasks that are held stay, and the stream stands behind the
  -- response, if a buffer for it can be had.
  pub read_resp-skip :
      (z : ByteOrder) {S : Type 0} (sv : ServerTaskEncode S) (room : List ℕ) (s : S) (seq : ℕ)
      (msg : List ℕ) (b : Option (List ℕ)) (e : EncodedErr) (t : Timer T) (rest : List ℕ)
      → length room ≡ 20
      → sv.encode_resp s room ≡ record {
        seq = seq;
        buf = room ++ msg;
        res = ok (record { msg_len = length msg; blob = b });
      }
      → seq < 2 ^ 64
      → length msg + blob_len_of b < 2 ^ 31
      → Fits e
      → Awaited c alloc t seq
      → lookup_seq c seq (tasks t) ≡ none
      → alloc (pos (length msg + blob_len_of b)) ≡ true
      → alloc (pos (length (error_text e))) ≡ true
      → ((q : Response) × (Response.encode z sv room s ≡ ok q)
          × Skips z t (q.buf ++ blob_bytes q.blob) rest)
        × ((bs : List ℕ) × (encode_error z room seq e ≡ ok bs) × Skips z t bs rest)
  read_resp-skip z sv room s seq msg b e t rest l q h k f a found al al_text =
      let head = response_head 0 seq (length msg) (blob_len_of b) in
      let bytes = resp_head_bytes z head in
      let valid =
        response_head-IsRespHead c alloc seq (length msg) (blob_len_of b) h (omega arith)
          (omega arith) in
      let dumped = recv_nobody_lem seq msg rest b k al in
      let (m, v, n) = head_fields c alloc seq e in
      (
        (
          record { seq = seq; buf = bytes ++ msg; blob = b },
          response_encode_ok z sv room s seq msg b l q (omega arith) (omega arith),
          rw (append_assoc bytes msg (blob_bytes b)) (
              skip_lem z head (msg ++ blob_bytes b) t rest valid refl refl a found
                (rw (append_assoc msg (blob_bytes b) rest) dumped)),
        ),
        (
          resp_head_bytes z (error_head seq e) ++ error_text e,
          encode_error_alone c alloc z room seq e l f,
          skip_lem z (error_head seq e) (error_text e) t rest
              (error_head-IsRespHead c alloc seq e h f) m v (rw n a) (rw n found)
              (skip_error_lem seq e rest f al_text),
        ),
      )
