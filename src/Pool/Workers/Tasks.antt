-- ===== src/Pool/Workers/Tasks.antt =====
-- stream/src/client/pool.rs: every task that is submitted to a pool is in one place.
use razor_rpc.Prelude.{ℕ, ◌+◌, ◌≡◌, refl, ap, ◌∙◌, List, [], ◌∷◌, ◌++◌, arith}
use razor_rpc.Error.{unreachable}
use razor_rpc.Task.{ClientTask}
use razor_rpc.Pool.{new, spawn}
use razor_rpc.Pool.Workers.{
  connecting, Worker, Moved, System, begun, moved, Step, Steps, works, submits, spawns, drops, stop,
  next,
}
use razor_rpc.Pool.Workers.Count.{total, in_hand, held, total-append, held-append, total-send_req}
use razor_rpc.Pool.Workers.Moves.{advance-Kept}

module _ {T : Type 0} (c : ClientTask T) (f : T → ℕ)
    (same : (t : T) → f (c.set_rpc_error t unreachable) ≡ f t) where
  -- What was submitted is in the channel, in the hand of a worker, given to a stream, or was handed to
  -- `error_handle`.
  abbrev pub Accounted : System T → Type 0
  Accounted s =
      total f s.submitted
      ≡ total f s.pool.channel + held f s.workers + total f s.given + total f s.errors

  moved-Accounted :
      (s : System T) (before after : List (Worker T)) (w : Worker T) (m : Moved T)
      → s.workers ≡ before ++ (w ∷ after)
      → total f s.pool.channel + in_hand f w.phase
        ≡ total f m.pool.channel
          + in_hand f m.worker.phase
          + held f m.spawned
          + total f m.given
          + total f m.errors
      → Accounted s
      → Accounted (moved s before after m)
  moved-Accounted s before after w m h k a =
      let was : held f s.workers ≡ held f before + (in_hand f w.phase + held f after) =
        ap (held f) h ∙ held-append f before (w ∷ after) in
      omega (
        arith,
        was,
        k,
        a,
        held-append f before (m.worker ∷ (after ++ m.spawned)),
        held-append f after m.spawned,
        total-append f m.given s.given,
        total-append f m.errors s.errors,
      )

  step-Accounted : (s t : System T) → Step c s t → Accounted s → Accounted t
  unfolding spawn
  step-Accounted s _ (works before after w e m h k) a =
      moved-Accounted s before after w m h
        (advance-Kept f c same s.closed s.pool w.id w.phase e m k) a
  step-Accounted s _ (submits task q o k) a = omega (arith, total-send_req f s.pool q task k)
  step-Accounted s _ (spawns o room) a = omega (
    arith,
    held-append f s.workers (record { id = s.pool.worker_count; phase = connecting } ∷ []),
  )
  step-Accounted s _ drops a = a

  Steps-Accounted : (s t : System T) → Steps c s t → Accounted s → Accounted t
  Steps-Accounted s _ stop a = a
  Steps-Accounted s _ (next t u r e) a = step-Accounted t u e (Steps-Accounted s t r a)

  -- However the workers of a pool, its callers and the drop of its handles follow one another, and
  -- however the calls of the workers turn out: of any weight of tasks that `set_rpc_error` leaves alone, what was submitted is what is in the
  -- channel, in the hands of workers, was given to a stream, or was handed to `error_handle`, so that no
  -- task is lost or in two places.
  pub submitted-Accounted :
      (thresholds channel_size : ℕ) (addr : List ℕ) (s : System T)
      → Steps c (begun (new thresholds addr channel_size)) s
      → Accounted s
  unfolding new spawn
  submitted-Accounted thresholds channel_size addr s r =
      Steps-Accounted (begun (new thresholds addr channel_size)) s r refl
