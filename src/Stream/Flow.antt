-- ===== src/Stream/Flow.antt =====
-- stream/src/client/stream.rs: sender, receiver and the second's tick in any order, one call or poll
-- at a time: no task is lost, and none is handed over twice.
use razor_rpc.Prelude.{
  ℕ, ◌+◌, ◌<◌, ◌⊎◌, ◌≡◌, ◌≢◌, refl, ap, Bool, true, List, [], ◌∷◌, ◌++◌, Result, ok, err, panic,
  arith, length, if◌then◌else◌,
}
use razor_rpc.Prelude.Int.{ℤ}
use razor_rpc.Layout.{ByteOrder}
use razor_rpc.Error.{RpcIntErr, timeout}
use razor_rpc.Proto.{RespHead}
use razor_rpc.Proto.Request
use razor_rpc.Task.{ClientTask}
use razor_rpc.Timer.{Timer, ready, adjust_task_queue, time_out, poll_sent_task, drain}
use razor_rpc.Timer.Order.{tasks, Inv}
use razor_rpc.Timer.Find.{newest}
use razor_rpc.Timer.Drain.{tasks-drain}
use razor_rpc.Timer.Expire.{adjust_lem, given_up}
use razor_rpc.Timer.Take.{Sound, drain-Sound}
use razor_rpc.Tcp.Client.{Responded, recv_resp_resume}
use razor_rpc.Stream.{
  Stream, returned, ClientTransport, send_task, send_ping_req, flush_req, drop_stream,
}
use razor_rpc.Stream.Send.{HasRoom}
use razor_rpc.Stream.Receive.{
  Receiving, Turn, goes_on, fails, awaits_task, absorb, set_error_and_exit, time_reach, recv_turn,
}
use razor_rpc.Stream.Numbers.{times, times-nil, times-append, times-failed, KeepsSeq}
use razor_rpc.Stream.Conserve.{Accounted}

module _ {T : Type 0} (c : ClientTask T) (k : KeepsSeq c) (leak : ℕ) where
  adjust-kept :
      (t : Timer T)
      → let u = (adjust_task_queue c t).timer in
        (u.pending ≡ t.pending)
        × (u.pending_task_count ≡ t.pending_task_count)
        × (u.processed_seq ≡ t.processed_seq)
  unfolding adjust_task_queue time_out
  adjust-kept t = ground arith

  pub adjust-Accounted :
      (alloc : ℤ → Bool) (t : Timer T)
      → Sound c leak t
      → let h = adjust_task_queue c t in Accounted c alloc k leak t h.timer h.errors []
  adjust-Accounted alloc t v =
      let (p, n, q) = adjust-kept t in
      let a = adjust_lem c t v.inv in
      let h = adjust_task_queue c t in
      record {
        sound = record { inv = a.inv; exact = omega (arith, n, v.exact, ap length p) };
        newest_kept = rw (p, q) refl;
        each = λ n. omega (
          arith,
          ap (times c n) a.kept,
          times-append c n (given_up c t) (tasks h.timer),
          ap (times c n) a.errors,
          times-failed c n timeout (given_up c t) k,
          times-nil c n,
        );
      }

  pub drain-Accounted :
      (alloc : ℤ → Bool) (t : Timer T)
      → Sound c leak t
      → Accounted c alloc k leak t (drain c t) [] []
  drain-Accounted alloc t v =
      let (s, e) = drain-Sound c leak t v in
      record {
        sound = s;
        newest_kept = e;
        each = λ n. omega (arith, ap (times c n) (tasks-drain c t v.inv), times-nil c n);
      }

module _ {T W : Type 0} (z : ByteOrder) (c : ClientTask T) (transport : ClientTransport W)
    (alloc : ℤ → Bool) where
  -- The state of a connection, the tasks that are done, all tasks that `send_task` was given, each under
  -- the number that it went under (that of the stream, or its own where the stream was closed), and
  -- those of them that it dropped.
  pub record Flow : Type 0 where
    pub receiving : Receiving T W
    pub given : List T
    pub dropped : List T

  abbrev pub stream_of : Flow → Stream T W
  stream_of f = f.receiving.stream

  abbrev pub with_stream : Flow → Stream T W → Flow
  with_stream f s = record f { receiving = record f.receiving { stream = s } }

  abbrev pub numbered : Stream T W → T → T
  numbered s task = if s.closed then task else c.set_seq task s.seq

  -- The tasks that a call of `send_task` drops: one whose request cannot be encoded.
  abbrev pub lost : Stream T W → T → List ℕ → List T
  lost s task room =
      if s.closed then [] else elim (Request.encode z c room s.client_id (c.set_seq task s.seq)) [
        | ok q ↦ []
        | err e ↦ c.set_seq task s.seq ∷ []
        | panic ↦ []
      ]

  -- The state that a round of the receiver leaves, unless it panics.
  pub data Leaves : Turn T W → Receiving T W → Type 0 where
    going_on : {r : Receiving T W} → Leaves (goes_on r) r
    failing : {r : Receiving T W} {e : RpcIntErr} → Leaves (fails r e) r
    awaiting : {r : Receiving T W} → Leaves (awaits_task r) r

  abbrev pub resumed : Flow → RespHead → Responded T
  resumed f head = recv_resp_resume c alloc (stream_of f).timer head f.receiving.rest

  -- The steps: a call of `send_task` that returns, and of `send_ping_req` and `flush_req`, while the
  -- numbers and the counter have not come to their end; a second that passes, a poll of the channel,
  -- bytes that arrive, a round of the receiver, the poll of a response that waited for its task, the
  -- pool's error, and the end of the sender.
  pub data Step : Flow → Flow → Type 0 where
    sends :
        (f : Flow) (task : T) (room : List ℕ) (need_flush : Bool)
        (res : Result RpcIntErr (Unit {0}))
        → HasRoom (stream_of f)
        → (send_task z c transport room (stream_of f) task need_flush).outcome ≡ returned res
        → res ≢ panic
        → Step f
            (record (with_stream f
              (send_task z c transport room (stream_of f) task need_flush).stream) {
                given = f.given ++ numbered (stream_of f) task ∷ [];
                dropped = f.dropped ++ lost (stream_of f) task room;
              })
    pings :
        (f : Flow) (room : List ℕ)
        → HasRoom (stream_of f)
        → Step f (with_stream f (send_ping_req z c transport room (stream_of f)).stream)
    flushes : (f : Flow) → Step f (with_stream f (flush_req z c transport (stream_of f)).stream)
    ticks : (f : Flow) → Step f (with_stream f (time_reach z c alloc (stream_of f)))
    polls :
        (f : Flow)
        → Step f (
            with_stream f
              (record (stream_of f) { timer = (poll_sent_task c (stream_of f).timer).timer }))
    arrives :
        (f : Flow) (bytes : List ℕ)
        → Step f (record f { receiving = record f.receiving { rest = f.receiving.rest ++ bytes } })
    receives :
        (f : Flow) (close_rx : Bool) (r : Receiving T W)
        → Leaves (recv_turn z c alloc close_rx f.receiving) r
        → Step f (record f { receiving = r })
    resumes :
        (f : Flow) (head : RespHead)
        → (resumed f head).poll ≢ ready panic
        → Step f (record f { receiving = absorb f.receiving (resumed f head) })
    breaks :
        (f : Flow) (close_conn : W → W)
        → Step f (with_stream f (set_error_and_exit close_conn (stream_of f)))
    drops : (f : Flow) → Step f (with_stream f (drop_stream (stream_of f)))

  pub data Reach (from : Flow) : Flow → Type 0 where
    begins : Reach from from
    steps : {f g : Flow} → Reach from f → Step f g → Reach from g

  -- The stream is in order, its counter says how many tasks are in the channel and were dropped, it is
  -- closed once a task was dropped, and every number that was given to a task is held by the timer, or
  -- was handed to `error_handle`, or is done, or was dropped, as often as it was given.
  pub record Conserved (f : Flow) : Type 0 where
    pub inv : Inv c (stream_of f).timer
    pub numbers : newest c (stream_of f).timer < (stream_of f).seq
    pub counted :
        (stream_of f).timer.pending_task_count
        ≡ length (stream_of f).timer.pending + length f.dropped
    pub shut : (f.dropped ≡ []) ⊎ ((stream_of f).closed ≡ true)
    pub each :
        (n : ℕ)
        → times c n f.given
          ≡ times c n (tasks (stream_of f).timer)
            + (times c n (stream_of f).errors + (times c n f.receiving.dones + times c n f.dropped))
