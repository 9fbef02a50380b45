-- ===== src/Tests/Workers.antt =====
-- stream/src/client/pool.rs: a pool whose monitor takes a task while another one is in flight.
use razor_rpc.Prelude.{ℕ, refl, true, false, List, [], ◌∷◌, none, length}
use razor_rpc.Pool.{ConnPool, new, spawn, size_of_channel, send_req, recv, monitor_taken_over}
use razor_rpc.Pool.Workers.{
  Phase, connecting, checking, waiting, got, sending, succeeds, inflight, Worker, Moved, System,
  begun, Steps, stop, next, works, submits, advance, at_connecting, at_waiting, taken, at_got,
}
use razor_rpc.Pool.Workers.Tasks.{Accounted, submitted-Accounted}
use razor_rpc.Pool.Workers.Monitor.{IsStaffed, new-IsStaffed}
use razor_rpc.Tests.Sample.{Sample, sample_task}

abbrev task : Sample
task = record { number = 0; msg = 1 ∷ 2 ∷ []; blob = none; error = none; answer = [] }

abbrev pool_of : List Sample → ℕ → ConnPool Sample
pool_of channel count = record {
  addr = [];
  channel_size = 4;
  channel = channel;
  is_ok = true;
  worker_count = count;
  connected_worker_count = 0;
}

abbrev at : ℕ → Phase Sample → Worker Sample
at id phase = record { id = id; phase = phase }

abbrev system_of : ConnPool Sample → List (Worker Sample) → System Sample
system_of p ws = record {
  pool = p;
  closed = false;
  workers = ws;
  submitted = task ∷ [];
  given = [];
  errors = [];
}

abbrev goes_to : ConnPool Sample → ℕ → Phase Sample → Moved Sample
goes_to p id phase = record {
  pool = p;
  worker = at id phase;
  given = [];
  errors = [];
  spawned = [];
}

abbrev takes_over : Moved Sample
takes_over = record {
  pool = pool_of [] 2;
  worker = at 1 (sending task);
  given = [];
  errors = [];
  spawned = at 0 connecting ∷ [];
}

abbrev full : ConnPool Sample
full = pool_of (task ∷ []) 1

abbrev last_system : System Sample
last_system = system_of (pool_of [] 2) (at 1 (sending task) ∷ (at 0 connecting ∷ []))

run : Steps sample_task (begun (new 0 [] 4)) last_system
unfolding new spawn size_of_channel send_req advance at_connecting at_waiting taken recv at_got
    monitor_taken_over
run =
    let s0 = begun (new 0 [] 4) in
    let s1 = system_of full (at 0 connecting ∷ []) in
    let s2 = system_of full (at 0 checking ∷ []) in
    let s3 = system_of full (at 0 waiting ∷ []) in
    let s4 = system_of (pool_of [] 1) (at 0 (got task) ∷ []) in
    let r1 : Steps sample_task s0 s1 = next s0 s1 stop (submits task full refl refl) in
    let r2 : Steps sample_task s0 s2 =
      next s1 s2 r1 (works [] [] (at 0 connecting) succeeds (goes_to full 0 checking) refl refl) in
    let r3 : Steps sample_task s0 s3 =
      next s2 s3 r2 (works [] [] (at 0 checking) succeeds (goes_to full 0 waiting) refl refl) in
    let r4 : Steps sample_task s0 s4 =
      next s3 s4 r3
        (works [] [] (at 0 waiting) succeeds (goes_to (pool_of [] 1) 0 (got task)) refl refl) in
    next s4 last_system r4 (works [] [] (at 0 (got task)) (inflight 1) takes_over refl refl)

submitted-Accounted_example : Accounted sample_task (λ t. length t.msg) (λ t. refl) last_system
submitted-Accounted_example =
    submitted-Accounted sample_task (λ t. length t.msg) (λ t. refl) 0 4 [] last_system run

new-IsStaffed_example : IsStaffed last_system
new-IsStaffed_example = new-IsStaffed sample_task 0 4 [] last_system run
