-- ===== src/Pool.antt =====
-- stream/src/client/pool.rs: the state of the pool of connections to one address, less the loops of
-- its workers. `channel` holds the tasks in the bounded channel, oldest first.
pub mod Laws
pub mod Workers
use razor_rpc.Prelude.{
  ℕ, ◌+◌, ◌-◌, ◌%◌, ◌^◌, Bool, true, false, List, [], ◌∷◌, ◌++◌, Option, none, some, length, ltb,
  ◌==◌, if◌then◌else◌,
}
use razor_rpc.Error.{unreachable}
use razor_rpc.Task.{ClientTask}
use razor_rpc.Timer.{failed}

pub record ConnPool (T : Type 0) : Type 0 where
  pub addr : List ℕ
  pub channel_size : ℕ
  pub channel : List T
  pub is_ok : Bool
  pub worker_count : ℕ
  pub connected_worker_count : ℕ

-- `fetch_add(1)` on an AtomicUsize.
abbrev pub fetch_add_usize : ℕ → ℕ
fetch_add_usize n = (n + 1) % 2 ^ 64

unfoldable pub size_of_channel : ℕ → ℕ → ℕ
size_of_channel thresholds channel_size =
    if ltb 0 thresholds
    then if ltb channel_size thresholds then thresholds else channel_size
    else if channel_size == 0
    then 128
    else channel_size

unfoldable pub spawn : {T : Type 0} → ConnPool T → ConnPool T
spawn p = record p { worker_count = fetch_add_usize p.worker_count }

-- `ConnPool::new`, with the `thresholds` of the configuration.
unfoldable pub new : {T : Type 0} → ℕ → List ℕ → ℕ → ConnPool T
unfolding spawn size_of_channel
new thresholds addr channel_size = spawn (record {
  addr = addr;
  channel_size = size_of_channel thresholds channel_size;
  channel = [];
  is_ok = true;
  worker_count = 0;
  connected_worker_count = 0;
})

abbrev pub is_healthy : {T : Type 0} → ConnPool T → Bool
is_healthy p = p.is_ok

abbrev pub get_addr : {T : Type 0} → ConnPool T → List ℕ
get_addr p = p.addr

-- `send_req`: none if it waits for room in the channel.
unfoldable pub send_req : {T : Type 0} → ConnPool T → T → Option (ConnPool T)
send_req p task =
    if ltb (length p.channel) p.channel_size
    then some (record p { channel = p.channel ++ task ∷ [] })
    else none

-- `rx.recv()` and `rx.try_recv()` of a worker: none if the channel is empty.
unfoldable pub recv : {T : Type 0} → ConnPool T → Option (T × ConnPool T)
recv p = elim p.channel [ [] ↦ none | task ∷ rest ↦ some (task, record p { channel = rest }) ]

-- `worker_count.fetch_sub(1)` at the end of a worker, and `compare_exchange(1, 2)` where the monitor
-- takes over as a worker.
unfoldable pub worker_exits : {T : Type 0} → ConnPool T → ConnPool T
worker_exits p = record p { worker_count = (p.worker_count + (2 ^ 64 - 1)) % 2 ^ 64 }

unfoldable pub monitor_taken_over : {T : Type 0} → ConnPool T → ConnPool T
monitor_taken_over p = record p { worker_count = if p.worker_count == 1 then 2 else p.worker_count }

unfoldable pub set_err : {T : Type 0} → ConnPool T → ConnPool T
set_err p = record p { is_ok = false }

-- `run_worker` around `_run_worker`: the counter before and after.
unfoldable pub worker_begins : {T : Type 0} → ConnPool T → ConnPool T
worker_begins p = record p { connected_worker_count = fetch_add_usize p.connected_worker_count }

unfoldable pub worker_ends : {T : Type 0} → ConnPool T → ConnPool T
worker_ends p = record p { connected_worker_count = fetch_add_usize p.connected_worker_count }

-- The pool after `cleanup`, and the tasks that it hands to `error_handle`.
pub record Cleaned (T : Type 0) : Type 0 where
  pub pool : ConnPool T
  pub errors : List T

unfoldable pub cleanup : {T : Type 0} → ClientTask T → ConnPool T → Cleaned T
cleanup c p = record { pool = record p { channel = [] }; errors = failed c unreachable p.channel }
