-- ===== src/Tests/Failovers.antt =====
-- stream/src/client/failover.rs and pool.rs on a pool of two addresses, the first of which fails.
use razor_rpc.Prelude.{ℕ, ◌+◌, ◌<◌, ◌≤◌, ◌≡◌, refl, Bool, true, false, List, [], ◌∷◌, length, arith}
use razor_rpc.Error.{io, decode, method, int_err_lt}
use razor_rpc.Pool.{ConnPool, get_addr, set_err}
use razor_rpc.Pool
use razor_rpc.Pool.Laws.{stop, next, error, channel_bounds, unhealthy_forever}
use razor_rpc.Failover.{
  FailoverTask, FailoverPool, ClusterConfig, sent, retried, from_next, select, select_from,
  error_handle, failover_task, retry_worker,
}
use razor_rpc.Failover.Select.{Selected, start, select_lem}
use razor_rpc.Failover.Retry.{retry, once, again, limit_of, retries_lem}
use razor_rpc.Tests.Sample.{Sample, sample, sample_task}

abbrev node : List ℕ → Bool → ConnPool (FailoverTask Sample)
node addr ok = record {
  addr = addr;
  channel_size = 128;
  channel = [];
  is_ok = ok;
  worker_count = 1;
  connected_worker_count = 0;
}

abbrev cluster : ClusterConfig Sample
cluster = record { pools = node (1 ∷ []) false ∷ node (2 ∷ []) true ∷ []; ver = 7 }

abbrev pool : FailoverPool Sample
pool = record {
  cluster = cluster;
  stateless = false;
  next_node = 0;
  pool_channel_size = 0;
  retry_limit = 2;
  thresholds = 128;
}

select_lem_example : Selected cluster (start 0 from_next) (select cluster 0 from_next)
select_lem_example = select_lem cluster 0 from_next (omega arith)

-- A task before and after a retry.
abbrev first : FailoverTask Sample
first = record {
  last_index = 0;
  config_ver = 7;
  inner = sample 5;
  retry = 0;
  should_retry = false;
  max_retries = 0;
}

abbrev failed_once : FailoverTask Sample
failed_once = record first {
  inner = sample_task.set_rpc_error (sample 5) io;
  retry = 1;
  should_retry = true;
}

abbrev second : FailoverTask Sample
second = record failed_once { last_index = 1 }

handled :
    error_handle sample_task 2 true ((failover_task sample_task).set_rpc_error first io)
    ≡ retried failed_once
unfolding error_handle failover_task int_err_lt
handled = refl

routed : (retry_worker sample_task pool failed_once).routed ≡ sent 1 second
unfolding retry_worker select select_from
routed = refl

retries_lem_example :
    (second.retry ≡ first.retry + 1)
    × (second.retry ≤ limit_of sample_task 2 first)
    × (second.max_retries ≡ first.max_retries)
retries_lem_example =
    retries_lem sample_task 2 first second 1 (omega arith) (omega arith)
      (again 0 first second once (retry io failed_once pool 1 handled routed))

cannot_retry : int_err_lt decode method ≡ false
unfolding int_err_lt
cannot_retry = refl

channel_bounds_example :
    (0 < (set_err (Pool.new {T = Sample} 16 (1 ∷ []) 0)).channel_size)
    × (16 ≤ (set_err (Pool.new {T = Sample} 16 (1 ∷ []) 0)).channel_size)
    × (length (set_err (Pool.new {T = Sample} 16 (1 ∷ []) 0)).channel
        ≤ (set_err (Pool.new {T = Sample} 16 (1 ∷ []) 0)).channel_size)
channel_bounds_example =
    channel_bounds sample_task 16 0 (1 ∷ []) (set_err (Pool.new 16 (1 ∷ []) 0))
      (next (Pool.new 16 (1 ∷ []) 0) (set_err (Pool.new 16 (1 ∷ []) 0)) stop error)

abbrev broken : ConnPool (FailoverTask Sample)
broken = node (1 ∷ []) false

unhealthy_forever_example : (set_err broken).is_ok ≡ false
unhealthy_forever_example =
    unhealthy_forever (failover_task sample_task) broken (set_err broken)
      (next broken (set_err broken) stop error) refl
