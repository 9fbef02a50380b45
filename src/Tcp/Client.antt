-- ===== src/Tcp/Client.antt =====
-- transport/tcp/src/client.rs: writing a request, and reading a response for the task that waits
-- for it. Reading leaves the connection unused after an error, so `rest` is then of no account.
pub mod Outcomes
pub mod Numbers
pub mod ErrorLaws
pub mod ReadLaws
pub mod Skips
use razor_rpc.Prelude.{
  ℕ, ◌+◌, ◌%◌, ◌^◌, Bool, true, false, ◌&&◌, List, [], ◌∷◌, Option, none, some, Result, ok, err,
  panic, ◌>>=◌, ltb, ◌==◌, if◌then◌else◌, starts_with,
}
use razor_rpc.Prelude.Int.{ℤ, pos, negsuc, as_u32, as_i32, as_usize, is_pos}
use razor_rpc.Prelude.Text.{is_utf8}
use razor_rpc.Layout.{ByteOrder}
use razor_rpc.Error.{RpcIntErr, io, decode, num, buf, from_str, rpc_err_prefix}
use razor_rpc.Proto.{
  RespHead, resp_decode_head, rpc_resp_header_len, resp_flag_has_errno, resp_flag_has_err_string,
}
use razor_rpc.Task.{ClientTask}
use razor_rpc.Timer.{Timer, Poll, Polled, pending, ready, take_task, take_task_resume}
use razor_rpc.Tcp.Stream.{Read, read_exact, Writer, write_blob}

module _ {W : Type 0} (w : Writer W) where
  unfoldable pub flush_req : W → Result (Unit {0}) W
  flush_req s = w.flush s

  -- `write_req`, of any result a failed write and a failed flush are the same error.
  unfoldable pub write_req : W → List ℕ → Option (List ℕ) → Bool → Result (Unit {0}) W
  unfolding flush_req
  write_req s bytes blob need_flush = do
    s1 ← w.write_all s bytes
    s2 ← write_blob w s1 blob
    if need_flush then flush_req s2 else ok s2

-- What reading behind the header does: the tasks handed to `error_handle` and those that are done,
-- the stream behind the response, and the result.
pub record Body (T : Type 0) : Type 0 where
  pub errors : List T
  pub dones : List T
  pub rest : List ℕ
  pub res : Result RpcIntErr (Unit {0})

-- The same of a whole response, with the timer; the result is not ready while `take_task` waits.
pub record Responded (T : Type 0) : Type 0 where
  pub timer : Timer T
  pub errors : List T
  pub dones : List T
  pub rest : List ℕ
  pub poll : Poll (Result RpcIntErr Bool)

-- `alloc n` says whether `Buffer::alloc(n)` of the package io_buffer succeeds.
module _ {T : Type 0} (c : ClientTask T) (alloc : ℤ → Bool) where
  -- `facts.error_handle(task); return res`
  abbrev pub handled : T → List ℕ → Result RpcIntErr (Unit {0}) → Body T
  handled task s res = record { errors = task ∷ []; dones = []; rest = s; res = res }

  -- `_recv_and_dump`, the tasks in `errors` being handed over before.
  unfoldable pub recv_and_dump : List T → ℕ → List ℕ → Body T
  recv_and_dump errors l s =
      let failed : Body T = record { errors = errors; dones = []; rest = s; res = err io } in
      if alloc (as_i32 l)
      then elim (read_exact io (as_usize (as_i32 l)) s) [
        | ok r ↦ record { errors = errors; dones = []; rest = r.rest; res = ok tt }
        | err e ↦ failed
        | panic ↦ failed
      ]
      else failed

  -- The error that an error's text sets: only a text of the framework is taken as its error.
  unfoldable pub text_error : T → List ℕ → T
  text_error task s =
      if starts_with s rpc_err_prefix && is_utf8 s
      then elim (from_str s) [
        | ok e ↦ c.set_rpc_error task e
        | err e ↦ c.set_custom_error task (buf s) 0 0
        | panic ↦ c.set_custom_error task (buf s) 0 0
      ]
      else c.set_custom_error task (buf s) 0 0

  -- The branch of `_recv_error` for a text of `len` bytes.
  unfoldable pub recv_text : T → ℕ → List ℕ → Body T
  recv_text task len s = elim (read_exact io len s) [
    | ok r ↦ handled (text_error task r.got) r.rest (ok tt)
    | err e ↦ handled (c.set_rpc_error task io) s (err io)
    | panic ↦ handled (c.set_rpc_error task io) s (err io)
  ]

  -- What a panic leaves: the task was handed to nobody.
  abbrev pub panicked : List ℕ → Body T
  panicked s = record { errors = []; dones = []; rest = s; res = panic }

  -- `_recv_error`. A negative length makes `resize` panic, as does a flag above 2 `unreachable!`.
  unfoldable pub recv_error : RespHead → T → List ℕ → Body T
  recv_error head task s =
      if head.flag == resp_flag_has_errno
      then handled (c.set_custom_error task (num head.msg_len) 0 0) s (ok tt)
      else if head.flag == resp_flag_has_err_string
      then elim head.blob_len [ pos len ↦ recv_text task len s | negsuc n ↦ panicked s ]
      else panicked s

  -- `task.set_ok(); task.done(); return Ok(())`
  abbrev pub done : T → List ℕ → Body T
  done task s = record { errors = []; dones = c.set_ok task ∷ []; rest = s; res = ok tt }

  -- The end of `_recv_resp_body`: `decode_resp`, `set_ok` and `done`.
  unfoldable pub finish : T → ℕ → List ℕ → List ℕ → Body T
  finish task msg_len msg s =
      let d = c.decode_resp task msg in
      if ltb 0 msg_len
      then elim d.res [
        | ok u ↦ done d.task s
        | err e ↦ handled (c.set_rpc_error d.task decode) s (ok tt)
        | panic ↦ panicked s
      ]
      else done task s

  -- The blob, if the header announces one.
  unfoldable pub recv_blob : RespHead → T → List ℕ → List ℕ → Body T
  recv_blob head task msg s =
      if is_pos head.blob_len
      then elim (c.reserve_resp_blob task head.blob_len) [
        | none ↦ recv_and_dump (c.set_rpc_error task decode ∷ []) (as_usize head.blob_len) s
        | some r ↦ elim (read_exact io r.room s) [
          | ok d ↦ finish (c.fill_resp_blob r.task d.got) head.msg_len msg d.rest
          | err e ↦ handled (c.set_rpc_error r.task io) s (err io)
          | panic ↦ panicked s
        ]
      ]
      else finish task head.msg_len msg s

  -- `_recv_resp_body` for the task that `take_task` gave.
  unfoldable pub recv_task : RespHead → T → List ℕ → Body T
  recv_task head task s =
      if ltb 0 head.flag
      then recv_error head task s
      else if ltb 0 head.msg_len
      then elim (read_exact io head.msg_len s) [
        | ok m ↦ recv_blob head task m.got m.rest
        | err e ↦ handled (c.set_rpc_error task io) s (err io)
        | panic ↦ panicked s
      ]
      else recv_blob head task [] s

  -- The length of what follows a header whose task is gone; u32 arithmetic wraps in a release build.
  unfoldable pub data_len : RespHead → ℕ
  data_len head =
      if head.flag == 0
      then (head.msg_len + as_u32 head.blob_len) % 2 ^ 32
      else if head.flag == resp_flag_has_err_string
      then as_u32 head.blob_len
      else 0

  unfoldable pub recv_nobody : RespHead → List ℕ → Body T
  recv_nobody head s =
      if ltb 0 (data_len head)
      then recv_and_dump [] (data_len head) s
      else record { errors = []; dones = []; rest = s; res = ok tt }

  -- `take_task`'s answer decides.
  unfoldable pub recv_found : RespHead → List ℕ → Option T → Body T
  recv_found head s (some task) = recv_task head task s
  recv_found head s none = recv_nobody head s

  -- `Ok(true)` for a body that was read.
  unfoldable pub as_read : Result RpcIntErr (Unit {0}) → Result RpcIntErr Bool
  as_read (ok u) = ok true
  as_read (err e) = err e
  as_read panic = panic

  -- What follows a poll of `take_task`.
  abbrev pub recv_polled : RespHead → List ℕ → Polled T (Option T) → Responded T
  recv_polled head s p = elim p.poll [
    | pending ↦ record { timer = p.timer; errors = []; dones = []; rest = s; poll = pending }
    | ready found ↦
        let b = recv_found head s found in
        record {
          timer = p.timer;
          errors = b.errors;
          dones = b.dones;
          rest = b.rest;
          poll = ready (as_read b.res);
        }
  ]

  unfoldable pub recv_resp_body : Timer T → RespHead → List ℕ → Responded T
  recv_resp_body t head s = recv_polled head s (take_task c t head.seq)

  -- The same, on a later poll, which goes on to wait for the task.
  unfoldable pub recv_resp_resume : Timer T → RespHead → List ℕ → Responded T
  recv_resp_resume t head s = recv_polled head s (take_task_resume c t head.seq)

  -- A result without a body.
  abbrev pub no_body : Timer T → List ℕ → Result RpcIntErr Bool → Responded T
  no_body t s res = record { timer = t; errors = []; dones = []; rest = s; poll = ready res }

  -- `read_resp`; `closed`, whether the close channel comes before the header.
  unfoldable pub read_resp : ByteOrder → Bool → Timer T → List ℕ → Responded T
  read_resp z closed t s =
      if closed then no_body t s (ok false) else elim (read_exact io rpc_resp_header_len s) [
        | ok h ↦ elim (resp_decode_head z h.got) [
          | ok head ↦ recv_resp_body t head h.rest
          | err e ↦ no_body t s (err e)
          | panic ↦ no_body t s panic
        ]
        | err e ↦ no_body t s (err e)
        | panic ↦ no_body t s panic
      ]
