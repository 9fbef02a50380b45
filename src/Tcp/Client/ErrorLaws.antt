-- ===== src/Tcp/Client/ErrorLaws.antt =====
-- transport/tcp/src/client.rs: `read_resp` on the bytes of an error that a server encoded.
use razor_rpc.Prelude.{
  ℕ, ◌^◌, ◌<◌, ◌≤◌, ◌≡◌, refl, Bool, true, false, List, [], ◌∷◌, ◌++◌, some, Result, ok, err, panic,
  arith, length, append_assoc, append-nil, ap, sym, ◌∙◌,
}
use razor_rpc.Prelude.Int.{ℤ}
use razor_rpc.Layout.{ByteOrder}
use razor_rpc.Error.{RpcIntErr, EncodedErr, io, num, static, buf, as_bytes, from_str}
use razor_rpc.Error
use razor_rpc.Error.Names.{from_str-as_bytes, from_str_iff, as_bytes-prefix, as_bytes-utf8}
use razor_rpc.Proto.{RespHead, rpc_magic, rpc_version_1, resp_head_bytes}
use razor_rpc.Proto.Heads.{IsRespHead, length-resp_head_bytes, resp_decode_head-bytes}
use razor_rpc.Proto.Response.{encode_error}
use razor_rpc.Proto.Response.Laws.{error_head, error_text, encode_error_room}
use razor_rpc.Task.{ClientTask}
use razor_rpc.Timer.{Timer, ready, take_task}
use razor_rpc.Timer.Order.{tasks, Inv, lookup_seq, erase_seq}
use razor_rpc.Timer.Find.{newest, take_task_lem}
use razor_rpc.Tcp.Stream.{read_exact-append}
use razor_rpc.Tcp.Client.{
  handled, text_error, recv_text, recv_error, recv_task, recv_found, as_read, recv_resp_body,
  read_resp,
}

-- The error that a task gets for an error that was sent: a text that the framework has a name for is
-- the framework's error.
abbrev pub error_set : {T : Type 0} → ClientTask T → T → EncodedErr → T
error_set c t (num n) = c.set_custom_error t (num n) 0 0
error_set c t e = elim (from_str (error_text e)) [
  | ok i ↦ c.set_rpc_error t i
  | err u ↦ c.set_custom_error t (buf (error_text e)) 0 0
  | panic ↦ c.set_custom_error t (buf (error_text e)) 0 0
]

-- What fits the header's fields.
abbrev pub Fits : EncodedErr → Type 0
Fits (num n) = n < 2 ^ 32
Fits e = length (error_text e) < 2 ^ 31

module _ {T : Type 0} (c : ClientTask T) (alloc : ℤ → Bool) where
  -- A response is awaited if its task is registered; taking it may not be cut short.
  pub record Awaited (t : Timer T) (seq : ℕ) : Type 0 where
    pub inv : Inv c t
    pub registering : t.reg_stopped_flag ≡ false
    pub known : seq ≤ newest c t

  pub recv_resp_body_lem :
      (t : Timer T) (head : RespHead) (s : List ℕ)
      → Awaited t head.seq
      → let b = recv_found c alloc head s (lookup_seq c head.seq (tasks t)) in
        recv_resp_body c alloc t head s ≡ record {
          timer = (take_task c t head.seq).timer;
          errors = b.errors;
          dones = b.dones;
          rest = b.rest;
          poll = ready (as_read c alloc b.res);
        }
  unfolding recv_resp_body
  recv_resp_body_lem t head s a =
      let (poll, kept) = take_task_lem c t head.seq a.inv a.registering in
      ground (arith, poll, a.known)

  pub read_resp-head :
      (z : ByteOrder) (t : Timer T) (head : RespHead) (s : List ℕ)
      → IsRespHead head
      → head.magic ≡ rpc_magic
      → head.ver ≡ rpc_version_1
      → read_resp c alloc z false t (resp_head_bytes z head ++ s) ≡ recv_resp_body c alloc t head s
  unfolding read_resp
  read_resp-head z t head s v m e =
      let bs = resp_head_bytes z head in
      rw
        (
          read_exact-append io 20 bs s (length-resp_head_bytes z head),
          resp_decode_head-bytes z head v,
          m,
          e,
        )
        refl

  text_error_lem : (t : T) (s : List ℕ) → text_error c alloc t s ≡ error_set c t (buf s)
  unfolding text_error
  text_error_lem t s = split (from_str s) refl
    where
      split :
          (r : Result (Unit {0}) RpcIntErr)
          → from_str s ≡ r
          → text_error c alloc t s ≡ error_set c t (buf s)
      split (ok e) h =
          rw ((from_str_iff s e).0 h)
            (ground (arith, as_bytes-prefix e, as_bytes-utf8 e, from_str-as_bytes e))
      split (err u) h = ground arith
      split panic h = ground arith

  pub error_head-IsRespHead :
      (seq : ℕ) (e : EncodedErr) → seq < 2 ^ 64 → Fits e → IsRespHead (error_head seq e)
  error_head-IsRespHead seq (num n) h f = omega arith
  error_head-IsRespHead seq (Error.rpc e) h f = omega arith
  error_head-IsRespHead seq (buf s) h f = omega arith
  error_head-IsRespHead seq (static s) h f = omega arith

  length-error_text : (e : EncodedErr) → Fits e → length (error_text e) < 2 ^ 31
  length-error_text (num n) f = omega arith
  length-error_text (Error.rpc e) f = f
  length-error_text (buf s) f = f
  length-error_text (static s) f = f

  pub encode_error_alone :
      (z : ByteOrder) (room : List ℕ) (seq : ℕ) (e : EncodedErr)
      → length room ≡ 20
      → Fits e
      → encode_error z room seq e ≡ ok (resp_head_bytes z (error_head seq e) ++ error_text e)
  encode_error_alone z room seq e l f =
      ap (λ out. encode_error z out seq e) (sym (append-nil room))
      ∙ encode_error_room z room [] seq e l (length-error_text e f)
      ∙ rw (append-nil) refl

  recv_text_lem :
      (t : T) (s rest : List ℕ)
      → recv_text c alloc t (length s) (s ++ rest)
        ≡ handled c alloc (error_set c t (buf s)) rest (ok tt)
  unfolding recv_text
  recv_text_lem t s rest =
      ground (arith, read_exact-append io (length s) s rest refl, text_error_lem t s)

  recv_error_lem :
      (t : T) (seq : ℕ) (e : EncodedErr) (rest : List ℕ)
      → recv_task c alloc (error_head seq e) t (error_text e ++ rest)
        ≡ handled c alloc (error_set c t e) rest (ok tt)
  unfolding recv_task recv_error
  recv_error_lem t seq (num n) rest = refl
  recv_error_lem t seq (Error.rpc e) rest = recv_text_lem t (as_bytes e) rest
  recv_error_lem t seq (buf s) rest = recv_text_lem t s rest
  recv_error_lem t seq (static s) rest = recv_text_lem t s rest

  pub head_fields :
      (seq : ℕ) (e : EncodedErr)
      → ((error_head seq e).magic ≡ rpc_magic)
        × ((error_head seq e).ver ≡ rpc_version_1)
        × ((error_head seq e).seq ≡ seq)
  head_fields seq (num n) = (refl, refl, refl)
  head_fields seq (Error.rpc e) = (refl, refl, refl)
  head_fields seq (buf s) = (refl, refl, refl)
  head_fields seq (static s) = (refl, refl, refl)

  read_resp-error :
      (z : ByteOrder) (seq : ℕ) (e : EncodedErr) (t : Timer T) (task : T) (rest : List ℕ)
      → seq < 2 ^ 64
      → Fits e
      → Awaited t seq
      → lookup_seq c seq (tasks t) ≡ some task
      → read_resp c alloc z false t (resp_head_bytes z (error_head seq e) ++ (error_text e ++ rest))
        ≡ record {
          timer = (take_task c t seq).timer;
          errors = error_set c task e ∷ [];
          dones = [];
          rest = rest;
          poll = ready (ok true);
        }
  unfolding recv_found as_read
  read_resp-error z seq e t task rest h f a found =
      let head = error_head seq e in
      let (m, v, q) = head_fields seq e in
      read_resp-head z t head (error_text e ++ rest) (error_head-IsRespHead seq e h f) m v
      ∙ recv_resp_body_lem t head (error_text e ++ rest) (rw q a)
      ∙ rw (q, found, recv_error_lem task seq e rest) refl

  -- An error that fits the header, for a task that awaits its response, encoded by the server into a
  -- buffer with the room of the header alone (no message has been written behind it): the task, and it
  -- alone, goes to `error_handle`, the timer keeps the others, and the stream stands behind the
  -- response. What is set is the number, the framework's error or the text that was sent, but for a
  -- text that names an error of the framework, which sets that error.
  pub read_resp-encode_error :
      (z : ByteOrder) (room : List ℕ) (seq : ℕ) (e : EncodedErr) (t : Timer T) (task : T)
      (rest : List ℕ)
      → length room ≡ 20
      → seq < 2 ^ 64
      → Fits e
      → Awaited t seq
      → lookup_seq c seq (tasks t) ≡ some task
      → (bs : List ℕ) × (encode_error z room seq e ≡ ok bs)
        × let r = read_resp c alloc z false t (bs ++ rest) in
          (r.errors ≡ error_set c task e ∷ [])
          × (r.dones ≡ [])
          × (r.rest ≡ rest)
          × (r.poll ≡ ready (ok true))
          × (tasks r.timer ≡ erase_seq c seq (tasks t))
  read_resp-encode_error z room seq e t task rest l h f a found =
      let bs = resp_head_bytes z (error_head seq e) in
      let (poll, kept) = take_task_lem c t seq a.inv a.registering in
      (
        bs ++ error_text e,
        encode_error_alone z room seq e l f,
        rw (append_assoc bs (error_text e) rest, read_resp-error z seq e t task rest h f a found)
            (refl, refl, refl, refl, ground (arith, kept, a.known)),
      )
