-- ===== src/Server/Connection.antt =====
-- stream/src/server/server.rs: `server_conn`, the reader and the writer of a connection, which share its channel.
pub mod Laws
pub mod Drains
use razor_rpc.Prelude.{
  Result, panic, ℕ, ◌≡◌, ◌≢◌, ◌⊎◌, inl, inr, refl, sym, ap, subst, ◌∙◌, Bool, true, false, List, [],
  ◌∷◌, ◌++◌, map, map-append, Option, none, some, ok, err, arith, append_assoc, append-nil, ◌==◌,
  if◌then◌else◌,
}
use razor_rpc.Prelude.Int.{ℤ}
use razor_rpc.Layout.{ByteOrder}
use razor_rpc.Error.{RpcIntErr}
use razor_rpc.Task.{ServerTaskEncode}
use razor_rpc.Tcp.Stream.{Writer, IsWriter}
use razor_rpc.Tcp.Server.{RpcSvrReq, read_req}
use razor_rpc.Server.{Channels, RespNoti, Answer, task, quick}
use razor_rpc.Server.Dispatch.{Dispatch}
use razor_rpc.Server.Loop.{
  ServerTransport, reader_turn, process, tcp_server, flush_resp, close_conn,
}
use razor_rpc.Server.Answers.{Sends}
use razor_rpc.Server.Turns.{answered, AnswersAtOnce, Arriving, no_more, next, turn_lem}
use razor_rpc.Server.Batches.{
  Bytes, none_left, one, Wrote, Wrote-append, process-sent, NeverFails, process_succeeds,
  close_conn-sent,
}

-- Where the writer is: in `recv`, in the loop of `try_recv`, before the flush, at its end,
-- or ended by a write or a flush that failed.
pub data Writing : Type 0 where
  waiting : Writing
  draining : Writing
  closed : Writing
  failed : Writing

pub record Connection (R W : Type 0) : Type 0 where
  pub channels : Channels R
  pub unread : List ℕ
  pub wire : W
  pub writing : Writing
  pub reading : Bool

-- The channels when the writer has taken an answer.
unfoldable pub received : {R : Type 0} → Channels R → RespNoti → List (Answer R) → Channels R
received cs noti left i = if i == noti.channel then record (cs i) { answers = left } else cs i

-- The channels when the writer has dropped its receiver.
unfoldable pub gone_writer : {R : Type 0} → Channels R → RespNoti → Channels R
gone_writer cs noti i = if i == noti.channel then record (cs i) { has_writer = false } else cs i

module _ {R W : Type 0} (d : Dispatch R) (noti : RespNoti) (z : ByteOrder) (alloc : ℤ → Bool)
    (t : ServerTransport R W) where
  -- What the channel holds for the writer.
  abbrev pub waits : Connection R W → List (Answer R)
  waits k = (k.channels noti.channel).answers

  abbrev pub Open : Connection R W → Type 0
  Open k = (k.writing ≡ waiting) ⊎ (k.writing ≡ draining)

  abbrev pub Fails : {A : Type 0} → Result (Unit {0}) A → Type 0
  Fails r = (r ≡ err tt) ⊎ (r ≡ panic)

  -- A step of the reader, which goes on, or ends with a failed turn or a failed read; or of the writer:
  -- `recv` or `try_recv` with `process!`, the flush when `try_recv` finds no more, and the end, when
  -- the reader and all tasks have dropped their `RespNoti`. A write or a flush that fails ends the
  -- writer; what it leaves of the stream is open.
  pub data Step (k : Connection R W) : Connection R W → Type 0 where
    reads :
        (req : RpcSvrReq) (rest : List ℕ)
        → k.reading ≡ true
        → read_req z alloc false k.unread ≡ ok (record { req = req; rest = rest })
        → (reader_turn d noti k.channels req).res ≡ ok tt
        → Step k
            (record k { channels = (reader_turn d noti k.channels req).channels; unread = rest })
    fails :
        (req : RpcSvrReq) (rest : List ℕ)
        → k.reading ≡ true
        → read_req z alloc false k.unread ≡ ok (record { req = req; rest = rest })
        → Fails (reader_turn d noti k.channels req).res
        → Step k (record k {
          channels = (reader_turn d noti k.channels req).channels;
          unread = rest;
          reading = false;
        })
    stops :
        (stopped : Bool) (e : RpcIntErr)
        → read_req z alloc stopped k.unread ≡ err e
        → Step k (record k { reading = false })
    writes :
        (x : Answer R) (left : List (Answer R)) (v : W)
        → Open k
        → waits k ≡ x ∷ left
        → process t k.wire x ≡ ok v
        → Step k
            (record k { channels = received k.channels noti left; wire = v; writing = draining })
    write_fails :
        (x : Answer R) (left : List (Answer R)) (v : W)
        → Open k
        → waits k ≡ x ∷ left
        → Fails (process t k.wire x)
        → Step k (record k {
          channels = gone_writer (received k.channels noti left) noti;
          wire = v;
          writing = failed;
        })
    flush_fails :
        (v : W)
        → k.writing ≡ draining
        → waits k ≡ []
        → Fails (t.flush_resp k.wire)
        → Step k (record k { channels = gone_writer k.channels noti; wire = v; writing = failed })
    flushes :
        (v : W)
        → k.writing ≡ draining
        → waits k ≡ []
        → t.flush_resp k.wire ≡ ok v
        → Step k (record k { wire = v; writing = waiting })
    closes :
        k.writing ≡ waiting
        → waits k ≡ []
        → k.reading ≡ false
        → Step k (record k {
          wire = t.close_conn k.wire;
          writing = closed;
          channels = gone_writer k.channels noti;
        })

  -- The states that a connection goes through.
  pub data Runs (k : Connection R W) : Connection R W → Type 0 where
    starts : Runs k k
    goes_on : {e f : Connection R W} → Runs k e → Step e f → Runs k f
