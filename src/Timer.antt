-- ===== src/Timer.antt =====
-- stream/src/client/timer.rs: `ClientTaskTimer`, which keeps the tasks that wait for a response.
-- An item of the source is a task here: its `task` is `Some` from `reg_task` until the item has left
-- the timer. `pending` holds the items in the bounded channel, oldest first. A method that calls
-- `facts.error_handle` returns the tasks that it hands over, in order.
pub mod Order
pub mod Drain
pub mod Find
pub mod Expire
pub mod Laws
pub mod Take
use razor_rpc.Prelude.{
  ℕ, zero, suc, ◌+◌, ◌-◌, ◌*◌, ◌%◌, ◌^◌, Bool, true, false, ◌&&◌, ◌||◌, List, [], ◌∷◌, ◌++◌, Option,
  none, some, ltb, leb, ◌==◌, not, length, is_empty, if◌then◌else◌, map,
}
use razor_rpc.Error.{RpcIntErr, io, timeout}
use razor_rpc.Task.{ClientTask}
use razor_rpc.Collections.{Entry, BTreeMap, Popped, insert, remove, values, pop_back}

pub record Timer (T : Type 0) : Type 0 where
  pub pending : List T
  pub capacity : ℕ
  pub pending_task_count : ℕ
  pub sent_tasks : BTreeMap T
  pub delay_tasks_queue : List (BTreeMap T)
  pub min_delay_seq : ℕ
  pub task_timeout : ℕ
  pub processed_seq : ℕ
  pub reg_stopped_flag : Bool

-- A method's new state, with the tasks that it has handed to `error_handle`.
pub record Handled (T : Type 0) : Type 0 where
  pub timer : Timer T
  pub errors : List T

-- What a future's `poll` returns.
pub data Poll (A : Type 0) : Type 0 where
  pending : Poll A
  ready : A → Poll A

pub record Polled (T : Type 0) (A : Type 0) : Type 0 where
  pub timer : Timer T
  pub poll : Poll A

unfoldable pub new : {T : Type 0} → ℕ → ℕ → Timer T
new task_timeout thresholds = record {
  pending = [];
  capacity = (if thresholds == 0 then 500 else thresholds) * 2;
  pending_task_count = 0;
  sent_tasks = [];
  delay_tasks_queue = [];
  min_delay_seq = 0;
  task_timeout = task_timeout;
  processed_seq = 0;
  reg_stopped_flag = false;
}

-- `fetch_add(1)` and `fetch_sub(1)` on an AtomicU64.
abbrev pub fetch_add_u64 : ℕ → ℕ
fetch_add_u64 n = (n + 1) % 2 ^ 64

abbrev pub fetch_sub_u64 : ℕ → ℕ
fetch_sub_u64 n = (n + (2 ^ 64 - 1)) % 2 ^ 64

-- `none`: the channel is full and the call waits.
unfoldable pub reg_task : {T : Type 0} → Timer T → T → Option (Timer T)
reg_task t task =
    if ltb (length t.pending) t.capacity
    then some (record t { pending = t.pending ++ task ∷ [] })
    else none

unfoldable pub stop_reg_task : {T : Type 0} → Timer T → Timer T
stop_reg_task t = record t { reg_stopped_flag = true }

-- `if min_seq == 0 || min_seq > seq { min_seq = seq }`
abbrev pub next_min : ℕ → ℕ → ℕ
next_min acc seq = if (acc == 0) || ltb seq acc then seq else acc

module _ {T : Type 0} (c : ClientTask T) where
  unfoldable pub got_pending_task : Timer T → T → Timer T
  got_pending_task t task = record t {
    pending_task_count = fetch_sub_u64 t.pending_task_count;
    processed_seq = c.seq task;
    sent_tasks = insert (c.seq task) task t.sent_tasks;
  }

  unfoldable pub got_all : Timer T → List T → Timer T
  got_all t [] = t
  got_all t (x ∷ xs) = got_all (got_pending_task t x) xs

  -- The loops `while let ... = pending_tasks_recv.try_recv()` and `poll_item`: the whole channel.
  unfoldable pub drain : Timer T → Timer T
  drain t = got_all (record t { pending = [] }) t.pending

  -- With whether there was an item.
  unfoldable pub poll_sent_task : Timer T → Polled T Bool
  poll_sent_task t = record { timer = drain t; poll = ready (not (is_empty t.pending)) }

  -- `task_item.task.take().unwrap()`, `set_rpc_error(e)`.
  abbrev pub failed : RpcIntErr → List T → List T
  failed e = map (λ task. c.set_rpc_error task e)

  unfoldable pub clean_batches : List (BTreeMap T) → List T
  clean_batches [] = []
  clean_batches (b ∷ bs) = failed io (values b) ++ clean_batches bs

  unfoldable pub emptied : List (BTreeMap T) → List (BTreeMap T)
  emptied [] = []
  emptied (b ∷ bs) = [] ∷ emptied bs

  unfoldable pub clean_pending_tasks : Timer T → Handled T
  clean_pending_tasks t =
      let u = drain t in
      record {
        timer = record u { sent_tasks = []; delay_tasks_queue = emptied u.delay_tasks_queue };
        errors = failed io (values u.sent_tasks) ++ clean_batches u.delay_tasks_queue;
      }

  unfoldable pub all_empty : List (BTreeMap T) → Bool
  all_empty [] = true
  all_empty (b ∷ bs) = is_empty b && all_empty bs

  unfoldable pub check_pending_tasks_empty : Timer T → Polled T Bool
  check_pending_tasks_empty t =
      let u = drain t in
      record { timer = u; poll = ready (is_empty u.sent_tasks && all_empty u.delay_tasks_queue) }

  -- The lookup at the end of `take_task`: the tasks of this second, then the batches, newest first.
  unfoldable pub remove_delayed : ℕ → List (BTreeMap T) → Option T × List (BTreeMap T)
  remove_delayed seq [] = (none, [])
  remove_delayed seq (b ∷ bs) =
      let r = remove seq b in
      let later = remove_delayed seq bs in
      elim r.found [ some task ↦ (some task, r.rest ∷ bs) | none ↦ (later.0, b ∷ later.1) ]

  unfoldable pub remove_task : Timer T → ℕ → Polled T (Option T)
  remove_task t seq =
      let r = remove seq t.sent_tasks in
      let d = remove_delayed seq t.delay_tasks_queue in
      elim r.found [
        | some task ↦ record { timer = record t { sent_tasks = r.rest }; poll = ready (some task) }
        | none ↦ record { timer = record t { delay_tasks_queue = d.1 }; poll = ready d.0 }
      ]

  -- `WaitRegTaskFuture::poll`: `true` is `Ok(())` and `false` is `Err(())`.
  unfoldable pub wait_reg_task : Timer T → ℕ → Polled T Bool
  wait_reg_task t target =
      let p = poll_sent_task t in
      if leb target t.processed_seq
      then record { timer = t; poll = ready true }
      else if t.reg_stopped_flag
      then record { timer = t; poll = ready false }
      else if not (is_empty t.pending) && leb target p.timer.processed_seq
      then record { timer = p.timer; poll = ready true }
      else record { timer = p.timer; poll = pending }

  -- A poll of `take_task` that waits for the task to be registered.
  unfoldable pub take_task_resume : Timer T → ℕ → Polled T (Option T)
  take_task_resume t seq =
      let p = wait_reg_task t seq in
      elim p.poll [
        | pending ↦ record { timer = p.timer; poll = pending }
        | ready registered ↦
            if registered
            then remove_task p.timer seq
            else record { timer = p.timer; poll = ready none }
      ]

  -- The first poll of `take_task`.
  unfoldable pub take_task : Timer T → ℕ → Polled T (Option T)
  take_task t seq =
      if ltb seq t.min_delay_seq
      then record { timer = t; poll = ready none }
      else if ltb t.processed_seq seq
      then take_task_resume t seq
      else remove_task t seq

  -- `min_seq` over the tasks of a batch, 0 to begin with.
  unfoldable pub min_seq_of : ℕ → List T → ℕ
  min_seq_of acc [] = acc
  min_seq_of acc (x ∷ xs) = min_seq_of (next_min acc (c.seq x)) xs

  unfoldable pub time_out : Timer T → BTreeMap T → Handled T
  time_out t real_timeout =
      if is_empty real_timeout then record { timer = t; errors = [] } else record {
        timer = record t { min_delay_seq = min_seq_of 0 (values real_timeout) };
        errors = failed timeout (values real_timeout);
      }

  unfoldable pub adjust_task_queue : Timer T → Handled T
  adjust_task_queue t =
      let queue = t.sent_tasks ∷ t.delay_tasks_queue in
      let moved = record t { sent_tasks = []; delay_tasks_queue = queue } in
      if ltb t.task_timeout (length queue)
      then elim (pop_back queue) [
        | none ↦ record { timer = moved; errors = [] }
        | some p ↦ time_out (record moved { delay_tasks_queue = p.front }) p.last
      ]
      else record { timer = moved; errors = [] }
