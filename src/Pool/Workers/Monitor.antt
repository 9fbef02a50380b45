-- ===== src/Pool/Workers/Monitor.antt =====
-- stream/src/client/pool.rs: the monitor of a pool, and the number of its workers.
use razor_rpc.Prelude.{
  ℕ, ◌+◌, ◌^◌, ◌<◌, ◌≤◌, ◌≡◌, refl, ap, ◌∙◌, Bool, true, false, All, List, [], ◌∷◌, ◌++◌, some,
  arith, inl, inr, ◌⊎◌, ◌==◌, if◌then◌else◌,
}
use razor_rpc.Prelude.{All-append, All-append_left, All-append_right}
use razor_rpc.Task.{ClientTask}
use razor_rpc.Pool.{
  ConnPool, new, spawn, recv, send_req, set_err, monitor_taken_over, worker_begins, worker_ends,
  worker_exits,
}
use razor_rpc.Pool.Workers.{
  Phase, connecting, checking, resting, waiting, sleeping, entering, receiving, draining, exiting,
  gone, pinging, got, sending, cleaning, forwarding, flushing, leaving, Event, succeeds, fails,
  times_out, disconnects, inflight, Worker, Moved, at_connecting, at_pinging, taken, disconnected,
  at_waiting, at_got, at_sending, at_receiving, at_forwarding, at_draining, at_flushing, at_leaving,
  at_cleaning, advance, System, begun, moved, Step, Steps, works, submits, spawns, drops, stop,
  next,
}

module _ {T : Type 0} where
  -- Whether a worker counts as one, and whether it is the monitor, before its loop is left.
  abbrev pub lives : Phase T → ℕ
  lives gone = 0
  lives _ = 1

  abbrev pub serves : Phase T → ℕ
  serves gone = 0
  serves exiting = 0
  serves _ = 1

  abbrev pub monitors_at : ℕ → Phase T → ℕ
  monitors_at id ph = if id == 0 then serves ph else 0

  abbrev pub living : List (Worker T) → ℕ
  living [] = 0
  living (w ∷ ws) = lives w.phase + living ws

  abbrev pub monitors : List (Worker T) → ℕ
  monitors [] = 0
  monitors (w ∷ ws) = monitors_at w.id w.phase + monitors ws

  living-append : (xs ys : List (Worker T)) → living (xs ++ ys) ≡ living xs + living ys
  living-append [] ys = omega arith
  living-append (x ∷ xs) ys = omega (arith, living-append xs ys)

  monitors-append : (xs ys : List (Worker T)) → monitors (xs ++ ys) ≡ monitors xs + monitors ys
  monitors-append [] ys = omega arith
  monitors-append (x ∷ xs) ys = omega (arith, monitors-append xs ys)

  -- Only the monitor, worker 0, is in its loop, and only others are in `run_worker`.
  abbrev pub Placed : ℕ → Phase T → Type 0
  Placed id checking = id ≡ 0
  Placed id resting = id ≡ 0
  Placed id waiting = id ≡ 0
  Placed id (pinging alone) = id ≡ 0
  Placed id (got task) = id ≡ 0
  Placed id entering = 0 < id
  Placed id receiving = 0 < id
  Placed id draining = 0 < id
  Placed id (forwarding task) = 0 < id
  Placed id (flushing last) = 0 < id
  Placed id (leaving ok) = 0 < id
  Placed id _ = Unit {0}

  -- What a step keeps: the counter and the living workers change alike; a monitor stays, here or as the
  -- worker that is spawned, unless every sender is gone; and none is added.
  abbrev pub Counts : Bool → ConnPool T → ℕ → Phase T → Moved T → Type 0
  Counts closed p id ph m =
      (m.pool.worker_count + lives ph ≡ p.worker_count + lives m.worker.phase + living m.spawned)
      × (monitors_at m.worker.id m.worker.phase + monitors m.spawned ≤ monitors_at id ph)
      × ((closed ≡ true)
          ⊎ (monitors_at m.worker.id m.worker.phase + monitors m.spawned ≡ monitors_at id ph))
      × (m.pool.worker_count < 2 ^ 64)
      × Placed m.worker.id m.worker.phase
      × All (λ (x : Worker T). Placed x.id x.phase) m.spawned

  taken-Counts :
      (closed : Bool) (into : T → Phase T) (p : ConnPool T) (id : ℕ) (ph : Phase T) (m : Moved T)
      → ((t : T)
          → (lives (into t) ≡ lives ph)
            × (monitors_at id (into t) ≡ monitors_at id ph)
            × Placed id (into t))
      → p.worker_count < 2 ^ 64
      → taken into p id ≡ some m
      → Counts closed p id ph m
  unfolding taken recv
  taken-Counts closed into p id ph m n u h = by_channel p.channel refl
    where
      by_channel : (xs : List T) → p.channel ≡ xs → Counts closed p id ph m
      by_channel [] e = ground (arith, h, e)
      by_channel (x ∷ xs) e = ground (arith, h, e, n x)

  draining-Counts :
      (closed : Bool) (p : ConnPool T) (id : ℕ) (m : Moved T)
      → p.worker_count < 2 ^ 64
      → 0 < id
      → at_draining p id ≡ some m
      → Counts closed p id draining m
  unfolding at_draining recv
  draining-Counts closed p id m u k h = by_channel p.channel refl
    where
      by_channel : (xs : List T) → p.channel ≡ xs → Counts closed p id draining m
      by_channel [] e = ground (arith, h, e)
      by_channel (x ∷ xs) e = ground (arith, h, e)

  monitor-lives : (id : ℕ) (ph : Phase T) → monitors_at id ph ≤ lives ph
  monitor-lives id gone = ground arith
  monitor-lives id exiting = ground arith
  monitor-lives id ph = ground arith

  monitors-le-living : (ws : List (Worker T)) → monitors ws ≤ living ws
  monitors-le-living [] = omega arith
  monitors-le-living (w ∷ ws) = omega (arith, monitor-lives w.id w.phase, monitors-le-living ws)

  send_req-count :
      (p q : ConnPool T) (task : T) → send_req p task ≡ some q → q.worker_count ≡ p.worker_count
  unfolding send_req
  send_req-count p q task h = ground (arith, h)

  -- The counter is the number of living workers, none of them is out of its place, and one monitors, or
  -- none once every sender is gone.
  pub record IsStaffed (s : System T) : Type 0 where
    pub counted : living s.workers ≡ s.pool.worker_count
    pub fits : s.pool.worker_count < 2 ^ 64
    pub at_most_one : monitors s.workers ≤ 1
    pub one : (s.closed ≡ true) ⊎ (monitors s.workers ≡ 1)
    pub placed : All (λ (w : Worker T). Placed w.id w.phase) s.workers

  module _ (c : ClientTask T) where
    cleaning-Counts :
        (closed sleeps : Bool) (p : ConnPool T) (id : ℕ) (m : Moved T)
        → p.worker_count < 2 ^ 64
        → at_cleaning c sleeps p id ≡ some m
        → Counts closed p id (cleaning sleeps) m
    unfolding at_cleaning recv
    cleaning-Counts closed sleeps p id m u h = by_channel sleeps p.channel refl refl
      where
        by_channel :
            (b : Bool) (xs : List T)
            → sleeps ≡ b
            → p.channel ≡ xs
            → Counts closed p id (cleaning sleeps) m
        by_channel true [] k e = ground (arith, h, k, e)
        by_channel false [] k e = ground (arith, h, k, e)
        by_channel b (x ∷ xs) k e = ground (arith, h, e)

    advance-Counts :
        (closed : Bool) (p : ConnPool T) (id : ℕ) (ph : Phase T) (e : Event) (m : Moved T)
        → lives ph ≤ p.worker_count
        → p.worker_count < 2 ^ 64
        → Placed id ph
        → advance c closed p id ph e ≡ some m
        → Counts closed p id ph m
    unfolding advance at_connecting at_pinging at_waiting disconnected set_err worker_exits at_got
        monitor_taken_over at_sending worker_begins at_receiving at_forwarding at_flushing
        at_leaving worker_ends
    advance-Counts closed p id connecting succeeds m l u k h = ground (arith, h)
    advance-Counts closed p id connecting fails m l u k h = ground (arith, h)
    advance-Counts closed p id connecting times_out m l u k h = ground (arith, h)
    advance-Counts closed p id connecting disconnects m l u k h = ground (arith, h)
    advance-Counts closed p id connecting (inflight n) m l u k h = ground (arith, h)
    advance-Counts closed p id checking e m l u k h = ground (arith, h)
    advance-Counts closed p id resting e m l u k h = ground (arith, h)
    advance-Counts closed p id (pinging true) succeeds m l u k h = ground (arith, h)
    advance-Counts closed p id (pinging false) succeeds m l u k h = ground (arith, h)
    advance-Counts closed p id (pinging true) fails m l u k h = ground (arith, h)
    advance-Counts closed p id (pinging false) fails m l u k h = ground (arith, h)
    advance-Counts closed p id (pinging alone) e m l u k h = ground (arith, h)
    advance-Counts closed p id waiting succeeds m l u k h =
        taken-Counts closed got p id waiting m (λ t. (refl, refl, k)) u h
    advance-Counts closed p id waiting times_out m l u k h = ground (arith, h)
    advance-Counts closed p id waiting disconnects m l u k h = ground (arith, h)
    advance-Counts closed p id waiting e m l u k h = ground (arith, h)
    advance-Counts closed p id (got task) e m l u k h = ground (arith, h)
    advance-Counts closed p id (sending task) e m l u k h = ground (arith, h)
    advance-Counts closed p id (cleaning sleeps) e m l u k h =
        cleaning-Counts closed sleeps p id m u h
    advance-Counts closed p id sleeping e m l u k h = ground (arith, h)
    advance-Counts closed p id entering e m l u k h = ground (arith, h)
    advance-Counts closed p id receiving succeeds m l u k h =
        taken-Counts closed forwarding p id receiving m (λ t. (refl, refl, k)) u h
    advance-Counts closed p id receiving e m l u k h = ground (arith, h)
    advance-Counts closed p id (forwarding task) e m l u k h = ground (arith, h)
    advance-Counts closed p id draining e m l u k h = draining-Counts closed p id m u k h
    advance-Counts closed p id (flushing true) e m l u k h = ground (arith, h)
    advance-Counts closed p id (flushing false) e m l u k h = ground (arith, h)
    advance-Counts closed p id (leaving true) e m l u k h = ground (arith, h)
    advance-Counts closed p id (leaving false) e m l u k h = ground (arith, h)
    advance-Counts closed p id exiting e m l u k h = ground (arith, h)
    advance-Counts closed p id gone e m l u k h = ground (arith, h)

    moved-IsStaffed :
        (s : System T) (before after : List (Worker T)) (w : Worker T) (m : Moved T)
        → s.workers ≡ before ++ (w ∷ after)
        → Counts s.closed s.pool w.id w.phase m
        → IsStaffed s
        → IsStaffed (moved s before after m)
    moved-IsStaffed s before after w m h (count, fewer, kept, fits, place, new_places) i =
        let living_was : living s.workers ≡ living before + (lives w.phase + living after) =
          ap living h ∙ living-append before (w ∷ after) in
        let monitors_were : monitors s.workers
            ≡ monitors before + (monitors_at w.id w.phase + monitors after) =
          ap monitors h ∙ monitors-append before (w ∷ after) in
        let living_is = living-append before (m.worker ∷ (after ++ m.spawned)) in
        let monitors_are = monitors-append before (m.worker ∷ (after ++ m.spawned)) in
        let living_end = living-append after m.spawned in
        let monitors_end = monitors-append after m.spawned in
        let places = λ (x : Worker T). Placed x.id x.phase in
        let all : All places (before ++ (w ∷ after)) = rw h at i.placed in
        let behind = All-append_right places before (w ∷ after) all in
        record {
          counted = omega (arith, living_was, living_is, living_end, count, i.counted);
          fits = fits;
          at_most_one =
              omega (arith, monitors_were, monitors_are, monitors_end, fewer, i.at_most_one);
          one = still_one kept i.one monitors_were monitors_are monitors_end;
          placed =
              All-append places before (m.worker ∷ (after ++ m.spawned))
                (All-append_left places before (w ∷ after) all)
                (place, All-append places after m.spawned behind.1 new_places);
        }
      where
        still_one :
            ((s.closed ≡ true)
              ⊎ (monitors_at m.worker.id m.worker.phase + monitors m.spawned
                  ≡ monitors_at w.id w.phase))
            → ((s.closed ≡ true) ⊎ (monitors s.workers ≡ 1))
            → (monitors s.workers ≡ monitors before + (monitors_at w.id w.phase + monitors after))
            → (monitors (before ++ (m.worker ∷ (after ++ m.spawned)))
                ≡ monitors before
                  + (monitors_at m.worker.id m.worker.phase + monitors (after ++ m.spawned)))
            → (monitors (after ++ m.spawned) ≡ monitors after + monitors m.spawned)
            → (s.closed ≡ true) ⊎ (monitors (before ++ (m.worker ∷ (after ++ m.spawned))) ≡ 1)
        still_one (inl e) o a b d = inl e
        still_one (inr e) (inl o) a b d = inl o
        still_one (inr e) (inr o) a b d = inr (omega (arith, e, o, a, b, d))

    lives-le-count :
        (s : System T) (before after : List (Worker T)) (w : Worker T)
        → s.workers ≡ before ++ (w ∷ after)
        → IsStaffed s
        → (lives w.phase ≤ s.pool.worker_count) × Placed w.id w.phase
    lives-le-count s before after w h i =
        let places = λ (x : Worker T). Placed x.id x.phase in
        let all : All places (before ++ (w ∷ after)) = rw h at i.placed in
        (
          omega (arith, ap living h, living-append before (w ∷ after), i.counted),
          (All-append_right places before (w ∷ after) all).0,
        )

    step-IsStaffed : (s t : System T) → Step c s t → IsStaffed s → IsStaffed t
    step-IsStaffed s _ (works before after w e m h k) i =
        let (lives_here, place) = lives-le-count s before after w h i in
        moved-IsStaffed s before after w m h
          (advance-Counts s.closed s.pool w.id w.phase e m lives_here i.fits place k) i
    step-IsStaffed s _ (submits task q o k) i =
        let same = send_req-count s.pool q task k in
        record {
          counted = omega (arith, i.counted, same);
          fits = omega (arith, i.fits, same);
          at_most_one = i.at_most_one;
          one = i.one;
          placed = i.placed;
        }
    step-IsStaffed s _ (spawns o room) i =
        let new_worker : Worker T = record { id = s.pool.worker_count; phase = connecting } in
        let one_now : monitors s.workers ≡ 1 = ground (arith, i.one, o) in
        let no_monitor : monitors_at s.pool.worker_count connecting ≡ 0 =
          ground (arith, monitors-le-living s.workers, i.counted, one_now) in
        let more = living-append s.workers (new_worker ∷ []) in
        let same = monitors-append s.workers (new_worker ∷ []) in
        record {
          counted = unfold spawn in omega (arith, i.counted, more, room);
          fits = unfold spawn in omega (arith, room);
          at_most_one = omega (arith, same, no_monitor, one_now);
          one = inr (omega (arith, same, no_monitor, one_now));
          placed =
              All-append (λ (x : Worker T). Placed x.id x.phase) s.workers (new_worker ∷ [])
                i.placed (tt, tt);
        }
    step-IsStaffed s _ drops i = record {
      counted = i.counted;
      fits = i.fits;
      at_most_one = i.at_most_one;
      one = inl refl;
      placed = i.placed;
    }

    Steps-IsStaffed : (s t : System T) → Steps c s t → IsStaffed s → IsStaffed t
    Steps-IsStaffed s _ stop i = i
    Steps-IsStaffed s _ (next t u r e) i = step-IsStaffed t u e (Steps-IsStaffed s t r i)

    -- In every state that a new pool reaches, however its workers, its callers and the drop of its handles follow
    -- one another: the counter of the workers is the number of those that live, the monitor among them, worker 0 alone is in the loop
    -- of the monitor, and as long as a handle is left there is exactly one monitor; it is never lost, also when it
    -- becomes a worker and spawns the next one.
    pub new-IsStaffed :
        (thresholds channel_size : ℕ) (addr : List ℕ) (s : System T)
        → Steps c (begun (new thresholds addr channel_size)) s
        → IsStaffed s
    unfolding new spawn
    new-IsStaffed thresholds channel_size addr s r =
        Steps-IsStaffed (begun (new thresholds addr channel_size)) s r (record {
          counted = refl;
          fits = omega arith;
          at_most_one = omega arith;
          one = inr refl;
          placed = (tt, tt);
        })
