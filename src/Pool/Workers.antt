-- ===== src/Pool/Workers.antt =====
-- stream/src/client/pool.rs: the workers of a pool, `run` with `run_worker` and `_run_worker`. A worker is a
-- place in the code; it goes on by an event, which is how the call that it waits for turns out. A
-- cleanup takes the tasks one by one, as other workers may take them too.
pub mod Count
pub mod Moves
pub mod Monitor
pub mod Tasks
use razor_rpc.Prelude.{
  ℕ, ◌+◌, ◌^◌, ◌<◌, ◌≡◌, Bool, true, false, ◌&&◌, List, [], ◌∷◌, ◌++◌, Option, none, some, ltb,
  ◌==◌, if◌then◌else◌, is_empty,
}
use razor_rpc.Error.{unreachable}
use razor_rpc.Task.{ClientTask}
use razor_rpc.Pool.{
  ConnPool, set_err, spawn, recv, send_req, worker_exits, monitor_taken_over, worker_begins,
  worker_ends,
}

-- Where a worker is: at a call of the stream, of the channel, or of the runtime.
pub data Phase (T : Type 0) : Type 0 where
  connecting checking resting waiting sleeping entering receiving draining exiting gone : Phase T
  -- At a ping; whether it is the only worker.
  pinging : Bool → Phase T
  -- Before it looks whether a worker is to be spawned, and at the sending of the task.
  got : T → Phase T
  sending : T → Phase T
  -- In `cleanup`; whether it sleeps then.
  cleaning : Bool → Phase T
  -- In `_run_worker`, at the sending of a task, and at a flush; whether it returns then.
  forwarding : T → Phase T
  flushing : Bool → Phase T
  -- Behind `_run_worker`, which has succeeded or not.
  leaving : Bool → Phase T

-- `inflight` is what `get_inflight_count` says.
pub data Event : Type 0 where
  succeeds fails times_out disconnects : Event
  inflight : ℕ → Event

pub record Worker (T : Type 0) : Type 0 where
  pub id : ℕ
  pub phase : Phase T

-- What a step of a worker changes: the tasks that it hands to the stream and to `error_handle`, and the
-- workers that it spawns.
pub record Moved (T : Type 0) : Type 0 where
  pub pool : ConnPool T
  pub worker : Worker T
  pub given : List T
  pub errors : List T
  pub spawned : List (Worker T)

module _ {T : Type 0} where
  abbrev pub goes : ConnPool T → ℕ → Phase T → Option (Moved T)
  goes p id phase = some (record {
    pool = p;
    worker = record { id = id; phase = phase };
    given = [];
    errors = [];
    spawned = [];
  })

  -- `self.connect()`
  unfoldable pub at_connecting : ConnPool T → ℕ → Event → Option (Moved T)
  at_connecting p id succeeds = goes p id (if id == 0 then checking else entering)
  at_connecting p id fails = goes (set_err p) id (cleaning true)
  at_connecting p id times_out = none
  at_connecting p id disconnects = none
  at_connecting p id (inflight n) = none

  -- The ping of the monitor.
  unfoldable pub at_pinging : Bool → ConnPool T → ℕ → Event → Option (Moved T)
  at_pinging alone p id succeeds = goes p id checking
  at_pinging alone p id fails = goes (set_err p) id (if alone then cleaning false else connecting)
  at_pinging alone p id times_out = none
  at_pinging alone p id disconnects = none
  at_pinging alone p id (inflight n) = none

  -- A receive: `next` is where a task leads.
  unfoldable pub taken : (T → Phase T) → ConnPool T → ℕ → Option (Moved T)
  taken next p id = elim (recv p) [ none ↦ none | some (task, q) ↦ goes q id (next task) ]

  -- `rx` is disconnected when its channel is empty and no sender is left.
  unfoldable pub disconnected : Bool → ConnPool T → ℕ → Phase T → Option (Moved T)
  disconnected closed p id next = if closed && is_empty p.channel then goes p id next else none

  -- `rx.recv_with_timer`
  unfoldable pub at_waiting : Bool → ConnPool T → ℕ → Event → Option (Moved T)
  at_waiting closed p id succeeds = taken got p id
  at_waiting closed p id fails = none
  at_waiting closed p id times_out = goes p id (pinging true)
  at_waiting closed p id disconnects = disconnected closed p id exiting
  at_waiting closed p id (inflight n) = none

  -- The monitor has a task: with others in flight and no other worker it becomes one, and spawns the
  -- next monitor.
  unfoldable pub at_got : T → ConnPool T → ℕ → Event → Option (Moved T)
  at_got task p id (inflight n) =
      if ltb 0 n && (p.worker_count == 1)
      then some (record {
        pool = monitor_taken_over p;
        worker = record { id = 1; phase = sending task };
        given = [];
        errors = [];
        spawned = record { id = 0; phase = connecting } ∷ [];
      })
      else goes p id (sending task)
  at_got task p id succeeds = none
  at_got task p id fails = none
  at_got task p id times_out = none
  at_got task p id disconnects = none

  abbrev pub hands : T → ConnPool T → ℕ → Phase T → Option (Moved T)
  hands task p id phase = some (record {
    pool = p;
    worker = record { id = id; phase = phase };
    given = task ∷ [];
    errors = [];
    spawned = [];
  })

  -- `stream.send_task(task, true)` of the monitor.
  unfoldable pub at_sending : T → ConnPool T → ℕ → Event → Option (Moved T)
  at_sending task p id succeeds = hands task p id (if id == 0 then checking else entering)
  at_sending task p id fails =
      hands task (set_err p) id (if id == 0 then cleaning true else exiting)
  at_sending task p id times_out = none
  at_sending task p id disconnects = none
  at_sending task p id (inflight n) = none

  -- `_run_worker`: a receive, a sending, the receives that do not wait, and the flush.
  unfoldable pub at_receiving : Bool → ConnPool T → ℕ → Event → Option (Moved T)
  at_receiving closed p id succeeds = taken forwarding p id
  at_receiving closed p id disconnects = disconnected closed p id (flushing true)
  at_receiving closed p id fails = none
  at_receiving closed p id times_out = none
  at_receiving closed p id (inflight n) = none

  unfoldable pub at_forwarding : T → ConnPool T → ℕ → Event → Option (Moved T)
  at_forwarding task p id succeeds = hands task p id draining
  at_forwarding task p id fails = hands task p id (leaving false)
  at_forwarding task p id times_out = none
  at_forwarding task p id disconnects = none
  at_forwarding task p id (inflight n) = none

  unfoldable pub at_draining : ConnPool T → ℕ → Option (Moved T)
  at_draining p id = elim (recv p) [
    | none ↦ goes p id (flushing false)
    | some (task, q) ↦ goes q id (forwarding task)
  ]

  unfoldable pub at_flushing : Bool → ConnPool T → ℕ → Event → Option (Moved T)
  at_flushing last p id succeeds = goes p id (if last then leaving true else receiving)
  at_flushing last p id fails = goes p id (leaving false)
  at_flushing last p id times_out = none
  at_flushing last p id disconnects = none
  at_flushing last p id (inflight n) = none

  -- The end of `run_worker`, and that of `run` behind it.
  unfoldable pub at_leaving : Bool → ConnPool T → ℕ → Option (Moved T)
  at_leaving true p id = goes (worker_ends p) id exiting
  at_leaving false p id = goes (set_err (worker_ends p)) id exiting

  module _ (c : ClientTask T) where
    -- A step of `cleanup`.
    unfoldable pub at_cleaning : Bool → ConnPool T → ℕ → Option (Moved T)
    at_cleaning sleeps p id = elim (recv p) [
      | none ↦ goes p id (if sleeps then sleeping else connecting)
      | some (task, q) ↦ some (record {
        pool = q;
        worker = record { id = id; phase = cleaning sleeps };
        given = [];
        errors = c.set_rpc_error task unreachable ∷ [];
        spawned = [];
      })
    ]

    -- One step of `spawn_worker`'s future.
    unfoldable pub advance : Bool → ConnPool T → ℕ → Phase T → Event → Option (Moved T)
    advance closed p id connecting e = at_connecting p id e
    advance closed p id checking e = goes p id (if ltb 1 p.worker_count then resting else waiting)
    advance closed p id resting e = goes p id (pinging false)
    advance closed p id (pinging alone) e = at_pinging alone p id e
    advance closed p id waiting e = at_waiting closed p id e
    advance closed p id (got task) e = at_got task p id e
    advance closed p id (sending task) e = at_sending task p id e
    advance closed p id (cleaning sleeps) e = at_cleaning sleeps p id
    advance closed p id sleeping e = goes p id connecting
    advance closed p id entering e = goes (worker_begins p) id receiving
    advance closed p id receiving e = at_receiving closed p id e
    advance closed p id (forwarding task) e = at_forwarding task p id e
    advance closed p id draining e = at_draining p id
    advance closed p id (flushing last) e = at_flushing last p id e
    advance closed p id (leaving ok) e = at_leaving ok p id
    advance closed p id exiting e = goes (worker_exits p) id gone
    advance closed p id gone e = none

-- A pool with its workers; `closed` says that every sender has been dropped.
pub record System (T : Type 0) : Type 0 where
  pub pool : ConnPool T
  pub closed : Bool
  pub workers : List (Worker T)
  pub submitted : List T
  pub given : List T
  pub errors : List T

module _ {T : Type 0} where
  -- `ConnPool::new`, with its first worker.
  abbrev pub begun : ConnPool T → System T
  begun p = record {
    pool = p;
    closed = false;
    workers = record { id = 0; phase = connecting } ∷ [];
    submitted = [];
    given = [];
    errors = [];
  }

  abbrev pub moved : System T → List (Worker T) → List (Worker T) → Moved T → System T
  moved s before after m = record s {
    pool = m.pool;
    workers = before ++ (m.worker ∷ (after ++ m.spawned));
    given = m.given ++ s.given;
    errors = m.errors ++ s.errors;
  }

  module _ (c : ClientTask T) where
    -- One step of the pool: of a worker, of a caller that submits a task or spawns a worker, or the drop of the
    -- last handle. The number of workers does not come to its end.
    pub data Step (s : System T) : System T → Type 0 where
      works :
          (before after : List (Worker T)) (w : Worker T) (e : Event) (m : Moved T)
          → s.workers ≡ before ++ (w ∷ after)
          → advance c s.closed s.pool w.id w.phase e ≡ some m
          → Step s (moved s before after m)
      submits :
          (task : T) (q : ConnPool T)
          → s.closed ≡ false
          → send_req s.pool task ≡ some q
          → Step s (record s { pool = q; submitted = task ∷ s.submitted })
      spawns :
          s.closed ≡ false
          → s.pool.worker_count + 1 < 2 ^ 64
          → Step s (record s {
            pool = spawn s.pool;
            workers = s.workers ++ record { id = s.pool.worker_count; phase = connecting } ∷ [];
          })
      drops : Step s (record s { closed = true })

    pub data Steps (s : System T) : System T → Type 0 where
      stop : Steps s s
      next : (t u : System T) → Steps s t → Step t u → Steps s u
