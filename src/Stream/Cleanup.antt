-- ===== src/Stream/Cleanup.antt =====
-- stream/src/client/stream.rs: when the receiver's last loop ends.
use razor_rpc.Prelude.{
  ℕ, zero, suc, ◌<◌, ◌≡◌, refl, true, List, [], ◌++◌, none, some, arith, length, lt→ltb,
}
use mathlib.Core.List.{Perm}
use razor_rpc.Error.{io}
use razor_rpc.Task.{ClientTask}
use razor_rpc.Timer.{failed, clean_pending_tasks}
use razor_rpc.Timer.Order.{tasks, Inv}
use razor_rpc.Timer.Laws.{clean_lem, clean-idle, clean-pending}
use razor_rpc.Stream.{Stream, clean_stream, clean_loop, receive_error}

module _ {T W : Type 0} (c : ClientTask T) where
  -- If the timer satisfies the invariant and the counter says how many tasks are in the channel, the clean-up ends after its first round,
  -- with every task handed to `error_handle` and none left.
  receive_error_ends :
      (fuel : ℕ) (s : Stream T W)
      → Inv c s.timer
      → s.timer.pending_task_count ≡ length s.timer.pending
      → (u : Stream T W) × (receive_error c (suc fuel) s ≡ some u)
        × (tasks u.timer ≡ [])
        × (out : List T) × (u.errors ≡ s.errors ++ out)
        × Perm out (failed c io (tasks s.timer))
  unfolding receive_error clean_loop clean_stream
  receive_error_ends fuel s v e =
      let t = s.timer in
      let r = clean_pending_tasks c t in
      let (perm, gone, count) = clean_lem c t v in
      let done : r.timer.pending_task_count ≡ 0 = omega (arith, count) in
      (
        record s { closed = true; timer = r.timer; errors = s.errors ++ r.errors },
        ground (arith, done),
        gone,
        r.errors,
        refl,
        perm,
      )

  clean_loop_waits :
      (fuel : ℕ) (s : Stream T W)
      → s.timer.pending ≡ []
      → 0 < s.timer.pending_task_count
      → clean_loop c fuel s ≡ none
  unfolding clean_loop clean_stream
  clean_loop_waits zero s p h = refl
  clean_loop_waits (suc fuel) s p h =
      let (p', n) = clean-idle c s.timer p in
      rw (lt→ltb 0 s.timer.pending_task_count h)
        (clean_loop_waits fuel (clean_stream c s) p' (omega (arith, n)))

  -- If the timer satisfies the invariant and the counter is above the number of tasks in the channel, the clean-up never ends, whatever
  -- the fuel.
  pub receive_error_waits :
      (fuel : ℕ) (s : Stream T W)
      → Inv c s.timer
      → length s.timer.pending < s.timer.pending_task_count
      → receive_error c fuel s ≡ none
  unfolding receive_error clean_stream
  receive_error_waits fuel s v h =
      let (perm, gone, count) = clean_lem c s.timer v in
      clean_loop_waits fuel (clean_stream c (record s { closed = true }))
        (clean-pending c s.timer v) (omega (arith, count))
