-- ===== src/Server/Loop.antt =====
-- stream/src/server/server.rs: the two coroutines of a connection, `Reader::run` and `Writer::run`.
use razor_rpc.Prelude.{
  ℕ, zero, suc, Bool, true, false, ◌&&◌, List, [], ◌∷◌, Option, some, none, Result, ok, err, panic,
  ◌>>=◌, ◌==◌, if◌then◌else◌, is_empty,
}
use razor_rpc.Prelude.Int.{ℤ, pos, negsuc}
use razor_rpc.Layout.{ByteOrder}
use razor_rpc.Error.{RpcIntErr}
use razor_rpc.Error
use razor_rpc.Proto.{num, str}
use razor_rpc.Task.{ServerTaskEncode}
use razor_rpc.Tcp.Stream.{Writer}
use razor_rpc.Tcp.Server.{RpcSvrReq, read_req, write_resp, write_resp_internal}
use razor_rpc.Server.{Channels, RespNoti, Answer, task, quick, send_err}
use razor_rpc.Server.Dispatch.{Dispatch}

is_zero : ℤ → Bool
is_zero (pos n) = n == 0
is_zero (negsuc n) = false

-- `req.action == RpcAction::Num(0) && req.msg.is_empty()`
unfoldable pub is_ping : RpcSvrReq → Bool
unfolding is_zero
is_ping req = elim req.action [ str s ↦ false | num n ↦ is_zero n && is_empty req.msg ]

-- The channels after a turn of the reader, which goes on with `ok` only.
pub record Turned (R : Type 0) : Type 0 where
  pub channels : Channels R
  pub res : Result (Unit {0}) (Unit {0})

-- The reader's end: its channels and its result, and what it has not read.
pub record Ended (R : Type 0) : Type 0 where
  pub channels : Channels R
  pub rest : List ℕ
  pub res : Result (Unit {0}) (Unit {0})

module _ {R : Type 0} (d : Dispatch R) (noti : RespNoti) where
  -- `send_quick_resp`
  unfoldable pub send_quick_resp : Channels R → ℕ → Option RpcIntErr → Turned R
  send_quick_resp cs seq e = elim (send_err cs noti seq e) [
    | ok cs1 ↦ record { channels = cs1; res = ok tt }
    | err u ↦ record { channels = cs; res = err tt }
    | panic ↦ record { channels = cs; res = panic }
  ]

  -- The reader's turn on a request.
  unfoldable pub reader_turn : Channels R → RpcSvrReq → Turned R
  reader_turn cs req =
      if is_ping req
      then send_quick_resp cs req.seq none
      else let r = d.dispatch_req req noti cs in
        elim r.res [
          | ok u ↦ record { channels = r.channels; res = ok tt }
          | err u ↦ send_quick_resp r.channels req.seq (some Error.decode)
          | panic ↦ record { channels = r.channels; res = panic }
        ]

  -- `Reader::run`, before which `n` headers the server's close or the idle timeout comes.
  unfoldable pub reader_run : ByteOrder → (ℤ → Bool) → ℕ → Channels R → List ℕ → Ended R
  reader_run z alloc zero cs s = elim (read_req z alloc true s) [
    | ok r ↦ record { channels = cs; rest = r.rest; res = ok tt }
    | err e ↦ record { channels = cs; rest = s; res = err tt }
    | panic ↦ record { channels = cs; rest = s; res = panic }
  ]
  reader_run z alloc (suc n) cs s = elim (read_req z alloc false s) [
    | ok r ↦
        let t = reader_turn cs r.req in
        elim t.res [
          | ok u ↦ reader_run z alloc n t.channels r.rest
          | err u ↦ record { channels = t.channels; rest = r.rest; res = err tt }
          | panic ↦ record { channels = t.channels; rest = r.rest; res = panic }
        ]
    | err e ↦ record { channels = cs; rest = s; res = err tt }
    | panic ↦ record { channels = cs; rest = s; res = panic }
  ]

-- What the writer asks of `ServerTransport`.
pub record ServerTransport (R W : Type 0) : Type 0 where
  pub write_resp : W → R → Result (Unit {0}) W
  pub write_resp_internal : W → ℕ → Option RpcIntErr → Result (Unit {0}) W
  pub flush_resp : W → Result (Unit {0}) W
  pub close_conn : W → W

-- What `try_recv` gives after a `recv`: one batch.
pub record Batch (R : Type 0) : Type 0 where
  pub first : Answer R
  pub more : List (Answer R)

module _ {R W : Type 0} (t : ServerTransport R W) where
  -- The macro `process!`.
  unfoldable pub process : W → Answer R → Result (Unit {0}) W
  process w (task x) = t.write_resp w x
  process w (quick seq e) = t.write_resp_internal w seq e

  -- `while let Ok(task) = done_rx.try_recv() { process!(task) }`
  unfoldable pub process_all : W → List (Answer R) → Result (Unit {0}) W
  process_all w [] = ok w
  process_all w (x ∷ xs) = process w x >>= λ v. process_all v xs

  unfoldable pub write_batch : W → Batch R → Result (Unit {0}) W
  write_batch w b = do w1 ← process w b.first; w2 ← process_all w1 b.more; t.flush_resp w2

  -- `Writer::run` on the batches that it finds until every sender is gone.
  unfoldable pub writer_run : W → List (Batch R) → Result (Unit {0}) W
  writer_run w [] = ok (t.close_conn w)
  writer_run w (b ∷ bs) = write_batch w b >>= λ v. writer_run v bs

-- `transport/tcp/src/server.rs` as the transport; `shutdown` is `shutdown_write` of the stream.
module _ {W : Type 0} (w : Writer W) where
  unfoldable pub flush_resp : W → Result (Unit {0}) W
  flush_resp s = w.flush s

  -- `shutdown` is `shutdown_write` of the stream.
  unfoldable pub close_conn : (W → W) → W → W
  close_conn shutdown s = elim (flush_resp s) [ ok s1 ↦ shutdown s1 | err e ↦ s | panic ↦ s ]

-- `room` is the header's room in the encode buffer.
unfoldable pub tcp_server :
    {W : Type 0}
    → ByteOrder
    → Writer W
    → (W → W)
    → {R : Type 0} → ServerTaskEncode R
    → List ℕ
    → ServerTransport R W
tcp_server z w shutdown c room = record {
  write_resp = λ s x. write_resp z w c s room x;
  write_resp_internal = λ s seq e. write_resp_internal z w s room seq e;
  flush_resp = flush_resp w;
  close_conn = close_conn w shutdown;
}
