-- ===== src/Pool/Workers/Moves.antt =====
-- stream/src/client/pool.rs: a worker's step moves the tasks, and loses none.
use razor_rpc.Prelude.{ℕ, ◌+◌, ◌≡◌, refl, Bool, true, false, some, arith, inl, inr, Option-cases}
use razor_rpc.Error.{unreachable}
use razor_rpc.Task.{ClientTask}
use razor_rpc.Pool.{
  ConnPool, recv, set_err, monitor_taken_over, worker_begins, worker_ends, worker_exits,
}
use razor_rpc.Pool.Workers.{
  Phase, connecting, checking, resting, waiting, sleeping, entering, receiving, draining, exiting,
  gone, pinging, got, sending, cleaning, forwarding, flushing, leaving, Event, succeeds, fails,
  times_out, disconnects, inflight, Moved, at_connecting, at_pinging, taken, disconnected,
  at_waiting, at_got, at_sending, at_receiving, at_forwarding, at_draining, at_flushing, at_leaving,
  at_cleaning, advance,
}
use razor_rpc.Pool.Workers.Count.{total, in_hand, held, total-recv}

module _ {T : Type 0} (f : T → ℕ) where
  -- The tasks before the step, in the channel and in hand, are those behind it.
  abbrev pub Kept : ConnPool T → Phase T → Moved T → Type 0
  Kept p ph m =
      total f p.channel + in_hand f ph
      ≡ total f m.pool.channel
        + in_hand f m.worker.phase
        + held f m.spawned
        + total f m.given
        + total f m.errors

  taken-Kept :
      (next : T → Phase T) (p : ConnPool T) (id : ℕ) (m : Moved T)
      → ((t : T) → in_hand f (next t) ≡ f t)
      → taken next p id ≡ some m
      → Kept p waiting m
  unfolding taken
  taken-Kept next p id m h e = elim (Option-cases (recv p)) [
    | inl n ↦ ground (arith, e, n)
    | inr ((task, q), r) ↦ ground (arith, e, r, h task, total-recv f p q task r)
  ]

  at_draining-Kept :
      (p : ConnPool T) (id : ℕ) (m : Moved T) → at_draining p id ≡ some m → Kept p draining m
  unfolding at_draining
  at_draining-Kept p id m e = elim (Option-cases (recv p)) [
    | inl n ↦ ground (arith, e, n)
    | inr ((task, q), r) ↦ ground (arith, e, r, total-recv f p q task r)
  ]

  waiting-Kept :
      (closed : Bool) (p : ConnPool T) (id : ℕ) (e : Event) (m : Moved T)
      → at_waiting closed p id e ≡ some m
      → Kept p waiting m
  unfolding at_waiting disconnected
  waiting-Kept closed p id succeeds m h = taken-Kept got p id m (λ t. refl) h
  waiting-Kept closed p id fails m h = ground (arith, h)
  waiting-Kept closed p id times_out m h = ground (arith, h)
  waiting-Kept closed p id disconnects m h = ground (arith, h)
  waiting-Kept closed p id (inflight n) m h = ground (arith, h)

  receiving-Kept :
      (closed : Bool) (p : ConnPool T) (id : ℕ) (e : Event) (m : Moved T)
      → at_receiving closed p id e ≡ some m
      → Kept p receiving m
  unfolding at_receiving disconnected
  receiving-Kept closed p id succeeds m h = taken-Kept forwarding p id m (λ t. refl) h
  receiving-Kept closed p id fails m h = ground (arith, h)
  receiving-Kept closed p id times_out m h = ground (arith, h)
  receiving-Kept closed p id disconnects m h = ground (arith, h)
  receiving-Kept closed p id (inflight n) m h = ground (arith, h)

  connecting-Kept :
      (p : ConnPool T) (id : ℕ) (e : Event) (m : Moved T)
      → at_connecting p id e ≡ some m
      → Kept p connecting m
  unfolding at_connecting set_err
  connecting-Kept p id succeeds m h = ground (arith, h)
  connecting-Kept p id fails m h = ground (arith, h)
  connecting-Kept p id times_out m h = ground (arith, h)
  connecting-Kept p id disconnects m h = ground (arith, h)
  connecting-Kept p id (inflight n) m h = ground (arith, h)

  pinging-Kept :
      (alone : Bool) (p : ConnPool T) (id : ℕ) (e : Event) (m : Moved T)
      → at_pinging alone p id e ≡ some m
      → Kept p (pinging alone) m
  unfolding at_pinging set_err
  pinging-Kept alone p id succeeds m h = ground (arith, h)
  pinging-Kept true p id fails m h = ground (arith, h)
  pinging-Kept false p id fails m h = ground (arith, h)
  pinging-Kept alone p id times_out m h = ground (arith, h)
  pinging-Kept alone p id disconnects m h = ground (arith, h)
  pinging-Kept alone p id (inflight n) m h = ground (arith, h)

  got-Kept :
      (task : T) (p : ConnPool T) (id : ℕ) (e : Event) (m : Moved T)
      → at_got task p id e ≡ some m
      → Kept p (got task) m
  unfolding at_got monitor_taken_over
  got-Kept task p id succeeds m h = ground (arith, h)
  got-Kept task p id fails m h = ground (arith, h)
  got-Kept task p id times_out m h = ground (arith, h)
  got-Kept task p id disconnects m h = ground (arith, h)
  got-Kept task p id (inflight n) m h = ground (arith, h)

  sending-Kept :
      (task : T) (p : ConnPool T) (id : ℕ) (e : Event) (m : Moved T)
      → at_sending task p id e ≡ some m
      → Kept p (sending task) m
  unfolding at_sending set_err
  sending-Kept task p id succeeds m h = ground (arith, h)
  sending-Kept task p id fails m h = ground (arith, h)
  sending-Kept task p id times_out m h = ground (arith, h)
  sending-Kept task p id disconnects m h = ground (arith, h)
  sending-Kept task p id (inflight n) m h = ground (arith, h)

  forwarding-Kept :
      (task : T) (p : ConnPool T) (id : ℕ) (e : Event) (m : Moved T)
      → at_forwarding task p id e ≡ some m
      → Kept p (forwarding task) m
  unfolding at_forwarding
  forwarding-Kept task p id succeeds m h = ground (arith, h)
  forwarding-Kept task p id fails m h = ground (arith, h)
  forwarding-Kept task p id times_out m h = ground (arith, h)
  forwarding-Kept task p id disconnects m h = ground (arith, h)
  forwarding-Kept task p id (inflight n) m h = ground (arith, h)

  flushing-Kept :
      (last : Bool) (p : ConnPool T) (id : ℕ) (e : Event) (m : Moved T)
      → at_flushing last p id e ≡ some m
      → Kept p (flushing last) m
  unfolding at_flushing
  flushing-Kept true p id succeeds m h = ground (arith, h)
  flushing-Kept false p id succeeds m h = ground (arith, h)
  flushing-Kept last p id fails m h = ground (arith, h)
  flushing-Kept last p id times_out m h = ground (arith, h)
  flushing-Kept last p id disconnects m h = ground (arith, h)
  flushing-Kept last p id (inflight n) m h = ground (arith, h)

  leaving-Kept :
      (ok : Bool) (p : ConnPool T) (id : ℕ) (m : Moved T)
      → at_leaving ok p id ≡ some m
      → Kept p (leaving ok) m
  unfolding at_leaving set_err worker_ends
  leaving-Kept true p id m h = ground (arith, h)
  leaving-Kept false p id m h = ground (arith, h)

  module _ (c : ClientTask T) (same : (t : T) → f (c.set_rpc_error t unreachable) ≡ f t) where
    cleaning-Kept :
        (sleeps : Bool) (p : ConnPool T) (id : ℕ) (m : Moved T)
        → at_cleaning c sleeps p id ≡ some m
        → Kept p (cleaning sleeps) m
    unfolding at_cleaning
    cleaning-Kept sleeps p id m e = elim (Option-cases (recv p)) [
      | inl n ↦ ground (arith, e, n)
      | inr ((task, q), r) ↦ ground (arith, e, r, same task, total-recv f p q task r)
    ]

    pub advance-Kept :
        (closed : Bool) (p : ConnPool T) (id : ℕ) (ph : Phase T) (e : Event) (m : Moved T)
        → advance c closed p id ph e ≡ some m
        → Kept p ph m
    unfolding advance worker_begins worker_exits
    advance-Kept closed p id connecting e m h = connecting-Kept p id e m h
    advance-Kept closed p id checking e m h = ground (arith, h)
    advance-Kept closed p id resting e m h = ground (arith, h)
    advance-Kept closed p id (pinging alone) e m h = pinging-Kept alone p id e m h
    advance-Kept closed p id waiting e m h = waiting-Kept closed p id e m h
    advance-Kept closed p id (got task) e m h = got-Kept task p id e m h
    advance-Kept closed p id (sending task) e m h = sending-Kept task p id e m h
    advance-Kept closed p id (cleaning sleeps) e m h = cleaning-Kept sleeps p id m h
    advance-Kept closed p id sleeping e m h = ground (arith, h)
    advance-Kept closed p id entering e m h = ground (arith, h)
    advance-Kept closed p id receiving e m h = receiving-Kept closed p id e m h
    advance-Kept closed p id (forwarding task) e m h = forwarding-Kept task p id e m h
    advance-Kept closed p id draining e m h = at_draining-Kept p id m h
    advance-Kept closed p id (flushing last) e m h = flushing-Kept last p id e m h
    advance-Kept closed p id (leaving ok) e m h = leaving-Kept ok p id m h
    advance-Kept closed p id exiting e m h = ground (arith, h)
    advance-Kept closed p id gone e m h = ground (arith, h)
