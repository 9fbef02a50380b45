-- ===== src/Pool/Laws.antt =====
-- stream/src/client/pool.rs: what the operations keep.
use razor_rpc.Prelude.{
  ℕ, ◌<◌, ◌≤◌, ◌≡◌, refl, false, List, [], ◌∷◌, some, length, length-append, arith,
}
use razor_rpc.Task.{ClientTask}
use razor_rpc.Pool.{
  ConnPool, new, spawn, size_of_channel, send_req, recv, worker_exits, monitor_taken_over, set_err,
  worker_begins, worker_ends, cleanup,
}

module _ {T : Type 0} (c : ClientTask T) where
  -- One operation on a pool, by any of its workers and callers.
  pub data Step (p : ConnPool T) : ConnPool T → Type 0 where
    send : (task : T) (q : ConnPool T) → send_req p task ≡ some q → Step p q
    received : (task : T) (q : ConnPool T) → recv p ≡ some (task, q) → Step p q
    exits : Step p (worker_exits p)
    taken_over : Step p (monitor_taken_over p)
    error : Step p (set_err p)
    clean : Step p (cleanup c p).pool
    spawned : Step p (spawn p)
    begins : Step p (worker_begins p)
    ends : Step p (worker_ends p)

  pub data Steps (p : ConnPool T) : ConnPool T → Type 0 where
    stop : Steps p p
    next : (q r : ConnPool T) → Steps p q → Step q r → Steps p r

  step_ok : (p q : ConnPool T) → Step p q → p.is_ok ≡ false → q.is_ok ≡ false
  unfolding send_req recv worker_exits monitor_taken_over set_err cleanup spawn worker_begins
      worker_ends
  step_ok p _ (send task q e) h = ground (arith, e)
  step_ok p _ (received task q e) h = ground (arith, e)
  step_ok p _ exits h = h
  step_ok p _ taken_over h = h
  step_ok p _ error h = refl
  step_ok p _ clean h = h
  step_ok p _ spawned h = h
  step_ok p _ begins h = h
  step_ok p _ ends h = h

  -- A pool that was found to be unhealthy is never healthy again, whatever happens to it.
  pub unhealthy_forever : (p q : ConnPool T) → Steps p q → p.is_ok ≡ false → q.is_ok ≡ false
  unhealthy_forever p _ stop h = h
  unhealthy_forever p _ (next q r s e) h = step_ok q r e (unhealthy_forever p q s h)

  step_room :
      (p q : ConnPool T)
      → Step p q
      → length p.channel ≤ p.channel_size
      → length q.channel ≤ q.channel_size
  unfolding send_req recv worker_exits monitor_taken_over set_err cleanup spawn worker_begins
      worker_ends
  step_room p _ (send task q e) h = ground (arith, e, length-append p.channel (task ∷ []))
  step_room p _ (received task q e) h = ground (arith, e)
  step_room p _ exits h = h
  step_room p _ taken_over h = h
  step_room p _ error h = h
  step_room p _ clean h = omega arith
  step_room p _ spawned h = h
  step_room p _ begins h = h
  step_room p _ ends h = h

  step_size : (p q : ConnPool T) → Step p q → q.channel_size ≡ p.channel_size
  unfolding send_req recv worker_exits monitor_taken_over set_err cleanup spawn worker_begins
      worker_ends
  step_size p _ (send task q e) = ground (arith, e)
  step_size p _ (received task q e) = ground (arith, e)
  step_size p _ exits = refl
  step_size p _ taken_over = refl
  step_size p _ error = refl
  step_size p _ clean = refl
  step_size p _ spawned = refl
  step_size p _ begins = refl
  step_size p _ ends = refl

  Steps-bounds :
      (p q : ConnPool T)
      → Steps p q
      → length p.channel ≤ p.channel_size
      → (length q.channel ≤ q.channel_size) × (q.channel_size ≡ p.channel_size)
  Steps-bounds p _ stop h = (h, refl)
  Steps-bounds p _ (next q r s e) h =
      let b = Steps-bounds p q s h in (step_room q r e b.0, omega (arith, step_size q r e, b.1))

  -- The channel of a pool has room for at least one task and for at least `thresholds` of its config,
  -- and, however the pool is used, never holds more than it has room for.
  pub channel_bounds :
      (thresholds channel_size : ℕ) (addr : List ℕ) (q : ConnPool T)
      → Steps (new thresholds addr channel_size) q
      → (0 < q.channel_size) × (thresholds ≤ q.channel_size) × (length q.channel ≤ q.channel_size)
  unfolding new size_of_channel spawn
  channel_bounds thresholds channel_size addr q s =
      let b = Steps-bounds (new thresholds addr channel_size) q s (omega arith) in ground (arith, b)
