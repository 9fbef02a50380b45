-- ===== src/Stream.antt =====
-- stream/src/client/stream.rs and throttler.rs: the sending half of `ClientStream`, and the clean-up
-- at the end of the receiver's loop. The throttler's `WaitGroup` (package crossfire) counts the
-- guards that are alive. A request's guard lives in the timer's item with its task (timer.rs,
-- `ClientTaskItem`), so the number in flight is the number of tasks that the timer holds; waiting
-- for it to go down changes nothing here. `errors` lists the tasks that were handed to `facts.error_handle`, in order.
pub mod Send
pub mod Cleanup
pub mod Receive
pub mod Rounds
pub mod Numbers
pub mod Conserve
pub mod Flow
pub mod Moves
pub mod Keeps
pub mod Once
use razor_rpc.Prelude.{
  ℕ, zero, suc, ◌+◌, ◌%◌, ◌^◌, Bool, true, false, ◌||◌, List, [], ◌∷◌, ◌++◌, Option, none, some,
  Result, ok, err, panic, ltb, leb, ◌==◌, if◌then◌else◌, length,
}
use razor_rpc.Layout.{ByteOrder}
use razor_rpc.Error.{RpcIntErr, io, encode}
use razor_rpc.Task.{ClientTask}
use razor_rpc.Proto.Request.{Request}
use razor_rpc.Proto.Request
use razor_rpc.Timer.Order.{tasks}
use razor_rpc.Timer.{
  new as timer_new, Timer, fetch_add_u64, fetch_sub_u64, reg_task, stop_reg_task,
  clean_pending_tasks,
}

-- What the stream asks of `ClientTransport`: writing and flushing, on the connection's state.
pub record ClientTransport (W : Type 0) : Type 0 where
  pub write_req : W → List ℕ → Option (List ℕ) → Bool → Result (Unit {0}) W
  pub flush_req : W → Result (Unit {0}) W

pub record Throttler : Type 0 where
  pub thresholds : ℕ

-- `inflight` is what `wg.get_left()` says.
unfoldable pub nearly_full : Throttler → ℕ → Bool
nearly_full t inflight = ltb t.thresholds (inflight + 1)

unfoldable pub is_full : Throttler → ℕ → Bool
is_full t inflight = leb t.thresholds inflight

-- `throttle` waits only if there is a threshold.
unfoldable pub may_wait : Throttler → Bool
may_wait t = ltb 0 t.thresholds

unfoldable pub set_thresholds : Throttler → ℕ → Throttler
set_thresholds t n = record t { thresholds = n }

pub record Stream (T : Type 0) (W : Type 0) : Type 0 where
  pub client_id : ℕ
  pub conn : W
  pub seq : ℕ
  pub closed : Bool
  pub timer : Timer T
  pub has_err : Bool
  pub throttler : Throttler
  pub errors : List T

-- The guards that are alive: one for each task in the timer.
unfoldable pub get_inflight_count : {T W : Type 0} → Stream T W → ℕ
get_inflight_count s = length (tasks s.timer)

-- How a call of `send_task` ends: it returns, or it waits for room in the timer's channel with the
-- task in hand.
pub data Outcome (T : Type 0) : Type 0 where
  returned : Result RpcIntErr (Unit {0}) → Outcome T
  waits : T → Outcome T

pub record Sent (T : Type 0) (W : Type 0) : Type 0 where
  pub stream : Stream T W
  pub outcome : Outcome T

-- `ClientStreamInner::new`
unfoldable pub new : {T W : Type 0} → W → ℕ → ℕ → ℕ → Stream T W
new conn client_id task_timeout thresholds =
    let limit = if thresholds == 0 then 128 else thresholds in
    record {
      client_id = client_id;
      conn = conn;
      seq = 1;
      closed = false;
      timer = timer_new task_timeout limit;
      has_err = false;
      throttler = record { thresholds = limit };
      errors = [];
    }

-- `ClientStream`'s `Drop`
unfoldable pub drop_stream : {T W : Type 0} → Stream T W → Stream T W
drop_stream s = record s { timer = stop_reg_task s.timer; closed = true }

module _ {T W : Type 0} (z : ByteOrder) (c : ClientTask T) (transport : ClientTransport W) where
  -- `task.set_rpc_error(RpcIntErr::IO); self.facts.error_handle(task)`
  unfoldable pub fail_io : Stream T W → T → Stream T W
  fail_io s task = record s { errors = s.errors ++ c.set_rpc_error task io ∷ [] }

  abbrev pub count_add : Stream T W → Stream T W
  count_add s = record s {
    timer = record s.timer { pending_task_count = fetch_add_u64 s.timer.pending_task_count };
  }

  abbrev pub count_sub : Stream T W → Stream T W
  count_sub s = record s {
    timer = record s.timer { pending_task_count = fetch_sub_u64 s.timer.pending_task_count };
  }

  abbrev pub broken : Stream T W → Stream T W
  broken s = record s { closed = true; has_err = true }

  -- The end of `send_request`, once the request is on its way: the task goes to the timer with the
  -- throttler's guard.
  unfoldable pub register : Stream T W → T → Sent T W
  register s task = elim (reg_task s.timer task) [
    | none ↦ record { stream = s; outcome = waits task }
    | some timer ↦ record { stream = record s { timer = timer }; outcome = returned (ok tt) }
  ]

  -- `send_request`'s branch on `write_req`.
  unfoldable pub after_write : Stream T W → T → Result (Unit {0}) W → Sent T W
  after_write s task (ok conn) = register (record s { conn = conn }) task
  after_write s task (err e) =
      let s1 = count_sub (broken s) in
      let s2 = record s1 { timer = stop_reg_task s1.timer } in
      record { stream = fail_io s2 task; outcome = returned (err io) }
  after_write s task panic = record { stream = s; outcome = returned panic }

  -- `send_request`'s branch on `ReqHead::encode`. On an error the task is dropped.
  unfoldable pub after_encode : Bool → Stream T W → T → Result (Unit {0}) Request → Sent T W
  after_encode need_flush s task (ok r) =
      after_write s task (transport.write_req s.conn r.buf r.blob need_flush)
  after_encode need_flush s task (err e) = record { stream = s; outcome = returned (err encode) }
  after_encode need_flush s task panic = record { stream = s; outcome = returned panic }

  -- `room` is the header's room in the encode buffer.
  unfoldable pub send_request : List ℕ → Stream T W → T → Bool → Sent T W
  send_request room s task need_flush =
      let task1 = c.set_seq task s.seq in
      let s1 = record s { seq = fetch_add_u64 s.seq } in
      after_encode need_flush s1 task1 (Request.encode z c room s.client_id task1)

  -- The branch of `send_task` on the result of `send_request`.
  unfoldable pub after_request : Sent T W → Sent T W
  after_request r = elim r.outcome [
    | waits task ↦ r
    | returned res ↦ elim res [
      | ok u ↦ r
      | err e ↦ record { stream = broken r.stream; outcome = returned (err io) }
      | panic ↦ r
    ]
  ]

  unfoldable pub send_task : List ℕ → Stream T W → T → Bool → Sent T W
  send_task room s task need_flush =
      let flush = need_flush || nearly_full s.throttler (get_inflight_count s) in
      let s1 = count_add s in
      if s1.closed
      then record { stream = count_sub (fail_io s1 task); outcome = returned (err io) }
      else after_request (send_request room s1 task flush)

  unfoldable pub flush_req : Stream T W → Sent T W
  flush_req s = elim (transport.flush_req s.conn) [
    | ok conn ↦ record { stream = record s { conn = conn }; outcome = returned (ok tt) }
    | err e ↦
        let s1 = broken s in
        record {
          stream = record s1 { timer = stop_reg_task s1.timer };
          outcome = returned (err io);
        }
    | panic ↦ record { stream = s; outcome = returned panic }
  ]

  ping_written : Stream T W → Result (Unit {0}) W → Sent T W
  ping_written s (ok conn) = record {
    stream = record s { conn = conn };
    outcome = returned (ok tt);
  }
  ping_written s (err e) = record {
    stream = record s { closed = true };
    outcome = returned (err io);
  }
  ping_written s panic = record { stream = s; outcome = returned panic }

  ping_encoded : Stream T W → Result (Unit {0}) (List ℕ) → Sent T W
  unfolding ping_written
  ping_encoded s (ok buf) = ping_written s (transport.write_req s.conn buf none true)
  ping_encoded s (err e) = record { stream = s; outcome = returned (err encode) }
  ping_encoded s panic = record { stream = s; outcome = returned panic }

  unfoldable pub send_ping_req : List ℕ → Stream T W → Sent T W
  unfolding ping_encoded
  send_ping_req room s =
      let s1 = record s { seq = fetch_add_u64 s.seq } in
      if s.closed
      then record { stream = s; outcome = returned (err io) }
      else ping_encoded s1 (Request.encode_ping z room s.client_id s.seq)

module _ {T W : Type 0} (c : ClientTask T) where
  unfoldable pub clean_stream : Stream T W → Stream T W
  clean_stream s =
      let r = clean_pending_tasks c s.timer in
      record s { timer = r.timer; errors = s.errors ++ r.errors }

  -- `while timer.pending_task_count > 0 { clean; sleep }`, with fuel for its rounds.
  unfoldable pub clean_loop : ℕ → Stream T W → Option (Stream T W)
  clean_loop zero s = none
  clean_loop (suc fuel) s =
      let rest = clean_loop fuel (clean_stream s) in
      if ltb 0 s.timer.pending_task_count then rest else some s

  -- The branch of `receive_loop` on an error.
  unfoldable pub receive_error : ℕ → Stream T W → Option (Stream T W)
  receive_error fuel s = clean_loop fuel (clean_stream (record s { closed = true }))
