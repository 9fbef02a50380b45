-- ===== src/Stream/Once.antt =====
-- stream/src/client/stream.rs: every task that is given to a stream comes out once.
use razor_rpc.Prelude.{
  ℕ, suc, ◌+◌, ◌≡◌, length, ap, inl, refl, Bool, true, [], some, arith, ◌==◌, if◌then◌else◌,
}
use razor_rpc.Prelude.Int.{ℤ}
use razor_rpc.Layout.{ByteOrder}
use razor_rpc.Task.{ClientTask}
use razor_rpc.Timer.{new as timer_new, clean_pending_tasks}
use razor_rpc.Timer.Order.{tasks, Inv}
use razor_rpc.Timer.Laws.{new-Inv, clean_lem}
use razor_rpc.Stream.{Stream, ClientTransport, new, receive_error, clean_loop, clean_stream}
use razor_rpc.Stream.Numbers.{times-nil, times-clean, times, times-append, KeepsSeq}
use razor_rpc.Stream.Flow.{Reach, begins, steps, Conserved}
use razor_rpc.Stream.Keeps.{State, Good, Writes, step-Good}

module _ {T W : Type 0} (z : ByteOrder) (c : ClientTask T) (transport : ClientTransport W)
    (alloc : ℤ → Bool) (k : KeepsSeq c) where
  -- A stream that has just been made.
  abbrev pub start : W → ℕ → ℕ → ℕ → State z c transport alloc k
  start conn client_id task_timeout thresholds = record {
    receiving = record {
      stream = new conn client_id task_timeout thresholds;
      dones = [];
      rest = [];
    };
    given = [];
    dropped = [];
  }

  start-Good :
      (conn : W) (client_id task_timeout thresholds : ℕ)
      → Good z c transport alloc k (start conn client_id task_timeout thresholds)
  unfolding new timer_new times
  start-Good conn client_id task_timeout thresholds =
      let limit = if thresholds == 0 then 128 else thresholds in
      record {
        inv = unfold timer_new in new-Inv c task_timeout limit;
        numbers = omega arith;
        counted = refl;
        shut = inl refl;
        each = λ n. refl;
      }

  -- A task keeps its number, and neither encoding nor writing panics: in every state that a new stream
  -- reaches before its numbers run out, in whatever order the calls of its sender that return, its
  -- receiver and the tick have moved and whatever bytes have arrived, the timer is in order, and every
  -- number under which a task was given to the stream is held by the timer, was handed to
  -- `error_handle`, is done, or was dropped because its request could not be encoded, as often as it
  -- was given; the counter is too high by the tasks that were dropped, and a stream that dropped one
  -- is closed.
  pub every_task_once :
      (conn : W) (client_id task_timeout thresholds : ℕ) (f : State z c transport alloc k)
      → Writes z c transport alloc k
      → Reach z c transport alloc (start conn client_id task_timeout thresholds) f
      → Conserved z c transport alloc f
  every_task_once conn client_id task_timeout thresholds _ w begins =
      start-Good conn client_id task_timeout thresholds
  every_task_once conn client_id task_timeout thresholds _ w (steps {f} {g} r s) =
      step-Good z c transport alloc k f g w
        (every_task_once conn client_id task_timeout thresholds f w r) s

  receive_error_cleans :
      (fuel : ℕ) (s : Stream T W)
      → Inv c s.timer
      → s.timer.pending_task_count ≡ length s.timer.pending
      → receive_error c (suc fuel) s ≡ some (clean_stream c (record s { closed = true }))
  unfolding receive_error clean_loop clean_stream
  receive_error_cleans fuel s v exact =
      let (perm, gone, count) = clean_lem c s.timer v in
      let done : (clean_pending_tasks c s.timer).timer.pending_task_count ≡ 0 =
        omega (arith, count, exact) in
      ground (arith, done)

  -- The same of a state in which the receiver meets an error, if no task was dropped because its request
  -- could not be encoded: the receiver's clean-up ends, no task is held any more, and every number was handed to
  -- `error_handle` or is done, as often as it was given.
  pub every_task_ends :
      (conn : W) (client_id task_timeout thresholds fuel : ℕ) (f : State z c transport alloc k)
      → Writes z c transport alloc k
      → Reach z c transport alloc (start conn client_id task_timeout thresholds) f
      → f.dropped ≡ []
      → (u : Stream T W) × (receive_error c (suc fuel) f.receiving.stream ≡ some u)
        × (tasks u.timer ≡ [])
        × ((n : ℕ) → times c n f.given ≡ times c n u.errors + times c n f.receiving.dones)
  unfolding clean_stream
  every_task_ends conn client_id task_timeout thresholds fuel f w r d =
      let g = every_task_once conn client_id task_timeout thresholds f w r in
      let s = f.receiving.stream in
      let (perm, gone, count) = clean_lem c s.timer g.inv in
      let e = clean_pending_tasks c s.timer in
      (
        clean_stream c (record s { closed = true }),
        receive_error_cleans fuel s g.inv (omega (arith, g.counted, ap length d)),
        gone,
        λ n. omega (
          arith,
          g.each n,
          ap (times c n) d,
          times-nil c n,
          times-clean c n s.timer k g.inv,
          times-append c n s.errors e.errors,
        ),
      )
