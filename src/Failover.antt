-- ===== src/Failover.antt =====
-- stream/src/client/failover.rs: the pool of pools, which selects a node for a task and retries a
-- task that failed. A method that sends says to which pool (by its place, the index modulo the
-- number of pools) the task goes; each runs as if the others waited, as the lock and the atomic
-- operations allow.
pub mod Select
pub mod Addrs
pub mod Retry
use razor_rpc.Prelude.{
  ℕ, zero, suc, ◌+◌, ◌-◌, ◌%◌, ◌^◌, Bool, true, false, ◌&&◌, List, [], ◌∷◌, ◌++◌, Option, none,
  some, length, map, get_elem?, ltb, leb, ◌==◌, bytes_eq, if◌then◌else◌, Result, ok, err, panic,
}
use razor_rpc.Error.{RpcIntErr, EncodedErr, method, unreachable, int_err_lt}
use razor_rpc.Task.{ClientTask, Decoded, Reserved}
use razor_rpc.Pool.{ConnPool, fetch_add_usize, is_healthy, get_addr}
use razor_rpc.Pool

pub record FailoverTask (T : Type 0) : Type 0 where
  pub last_index : ℕ
  pub config_ver : ℕ
  pub inner : T
  pub retry : ℕ
  pub should_retry : Bool
  pub max_retries : ℕ

pub record ClusterConfig (T : Type 0) : Type 0 where
  pub pools : List (ConnPool (FailoverTask T))
  pub ver : ℕ

-- `thresholds` is that of the configuration, which `ConnPool::new` reads.
pub record FailoverPool (T : Type 0) : Type 0 where
  pub cluster : ClusterConfig T
  pub stateless : Bool
  pub next_node : ℕ
  pub pool_channel_size : ℕ
  pub retry_limit : ℕ
  pub thresholds : ℕ

-- `route`: `Ok(next_node)`, or `Err(last_index)`.
pub data Route : Type 0 where
  from_next : Route
  after : ℕ → Route

-- What becomes of a task: it goes to the pool that the index stands for, or it is done.
pub data Routed (T : Type 0) : Type 0 where
  sent : ℕ → FailoverTask T → Routed T
  done : T → Routed T

-- What `error_handle` does: the task goes to the retry worker, or is done.
pub data Handed (T : Type 0) : Type 0 where
  retried : FailoverTask T → Handed T
  done : T → Handed T

-- `AtomicU64`'s range for versions: `wrapping_add(1)`.
abbrev pub next_ver : ℕ → ℕ
next_ver n = (n + 1) % 2 ^ 64

-- The pools after `get_or_add_addr`, the place of the address, and the version.
pub record Added (T : Type 0) : Type 0 where
  pub pool : FailoverPool T
  pub index : ℕ
  pub ver : ℕ

pub record Found (T : Type 0) : Type 0 where
  pub found : Option (ConnPool (FailoverTask T))
  pub rest : List (ConnPool (FailoverTask T))

-- The pool of pools after a task was routed, and where it went.
pub record Step (T : Type 0) : Type 0 where
  pub pool : FailoverPool T
  pub routed : Routed T

module _ {T : Type 0} where
  -- Whether the pool at a place is healthy; there is none behind the end.
  abbrev pub healthy_at : List (ConnPool (FailoverTask T)) → ℕ → Bool
  healthy_at pools i = elim (get_elem? pools i) [ none ↦ false | some p ↦ is_healthy p ]

  -- The loop of `select` over `n` indices from `i` on.
  unfoldable pub select_from : List (ConnPool (FailoverTask T)) → ℕ → ℕ → Option ℕ
  select_from pools i zero = none
  select_from pools i (suc n) =
      let rest = select_from pools (i + 1) n in
      if healthy_at pools (i % length pools) then some i else rest

  -- `ClusterConfig::select` from the value of `next_node`. In a release build `seed + l` wraps, and
  -- the range is then empty.
  unfoldable pub select : ClusterConfig T → ℕ → Route → Option ℕ
  select c next_node route =
      let l = length c.pools in
      let seed : ℕ = elim route [ from_next ↦ next_node | after i ↦ fetch_add_usize i ] in
      if l == 0 then none else select_from c.pools seed ((seed + l) % 2 ^ 64 - seed)

  -- `next_node` after `select`: round-robin counts it up, unless there is no pool.
  unfoldable pub next_after : FailoverPool T → Route → FailoverPool T
  next_after f from_next =
      if f.stateless && ltb 0 (length f.cluster.pools)
      then record f { next_node = fetch_add_usize f.next_node }
      else f
  next_after f (after i) = f

  unfoldable pub get_by_addr : List (ConnPool (FailoverTask T)) → List ℕ → Option ℕ
  get_by_addr [] addr = none
  get_by_addr (p ∷ ps) addr =
      let rest = get_by_addr ps addr in
      if bytes_eq (get_addr p) addr
      then some 0
      else elim rest [ none ↦ none | some i ↦ some (i + 1) ]

  new_pool : FailoverPool T → List ℕ → ConnPool (FailoverTask T)
  new_pool f addr = Pool.new f.thresholds addr f.pool_channel_size

  unfoldable pub get_or_add_addr : FailoverPool T → List ℕ → Added T
  unfolding new_pool
  get_or_add_addr f addr = elim (get_by_addr f.cluster.pools addr) [
    | some i ↦ record { pool = f; index = i; ver = f.cluster.ver }
    | none ↦
        let ver = next_ver f.cluster.ver in
        record {
          pool = record f {
            cluster = record { pools = new_pool f addr ∷ f.cluster.pools; ver = ver };
          };
          index = 0;
          ver = ver;
        }
  ]

  -- `old_pools_map`: the last pool of an address, keyed by the address. The order is of no account.
  unfoldable pub map_insert :
      ConnPool (FailoverTask T)
      → List (ConnPool (FailoverTask T))
      → List (ConnPool (FailoverTask T))
  map_insert p [] = p ∷ []
  map_insert p (q ∷ m) =
      let rest = map_insert p m in if bytes_eq (get_addr q) (get_addr p) then p ∷ m else q ∷ rest

  unfoldable pub map_of :
      List (ConnPool (FailoverTask T))
      → List (ConnPool (FailoverTask T))
      → List (ConnPool (FailoverTask T))
  map_of [] m = m
  map_of (p ∷ ps) m = map_of ps (map_insert p m)

  unfoldable pub map_remove : List ℕ → List (ConnPool (FailoverTask T)) → Found T
  map_remove addr [] = record { found = none; rest = [] }
  map_remove addr (q ∷ m) =
      let r = map_remove addr m in
      if bytes_eq (get_addr q) addr
      then record { found = some q; rest = m }
      else record { found = r.found; rest = q ∷ r.rest }

  unfoldable pub build_pools :
      FailoverPool T
      → List (List ℕ)
      → List (ConnPool (FailoverTask T))
      → List (ConnPool (FailoverTask T))
  unfolding new_pool
  build_pools f [] m = []
  build_pools f (addr ∷ addrs) m =
      let r = map_remove addr m in
      let rest = build_pools f addrs r.rest in
      elim r.found [ some p ↦ p ∷ rest | none ↦ new_pool f addr ∷ rest ]

  unfoldable pub update_addrs : FailoverPool T → List (List ℕ) → FailoverPool T
  update_addrs f addrs = record f {
    cluster = record {
      pools = build_pools f addrs (map_of f.cluster.pools []);
      ver = next_ver f.cluster.ver;
    };
  }

  -- `FailoverPool::new`
  unfoldable pub new : ℕ → List (List ℕ) → Bool → ℕ → ℕ → FailoverPool T
  new thresholds addrs stateless retry_limit pool_channel_size = record {
    cluster = record {
      pools = map (λ addr. Pool.new thresholds addr pool_channel_size) addrs;
      ver = 0;
    };
    stateless = stateless;
    next_node = 0;
    pool_channel_size = pool_channel_size;
    retry_limit = retry_limit;
    thresholds = thresholds;
  }

module _ {T : Type 0} (c : ClientTask T) where
  -- `impl ClientTask for FailoverTask<T>` and its parts.
  task_rpc_error : FailoverTask T → RpcIntErr → FailoverTask T
  task_rpc_error t e =
      let inner = c.set_rpc_error t.inner e in
      if int_err_lt e method
      then record t { should_retry = true; retry = fetch_add_usize t.retry; inner = inner }
      else record t { should_retry = false; inner = inner }

  task_custom_error : FailoverTask T → EncodedErr → ℕ → ℕ → FailoverTask T
  task_custom_error t e last_index conf_ver = record t {
    should_retry = false;
    inner = c.set_custom_error t.inner e t.last_index t.config_ver;
  }

  task_decode : FailoverTask T → List ℕ → Decoded (FailoverTask T)
  task_decode t bs =
      let d = c.decode_resp t.inner bs in record { task = record t { inner = d.task }; res = d.res }

  unfoldable pub failover_task : ClientTask (FailoverTask T)
  unfolding task_rpc_error task_custom_error task_decode
  failover_task = record {
    get_action = λ t. c.get_action t.inner;
    encode_req = λ t out. c.encode_req t.inner out;
    get_req_blob = λ t. c.get_req_blob t.inner;
    decode_resp = task_decode;
    reserve_resp_blob = λ t n. elim (c.reserve_resp_blob t.inner n) [
      | none ↦ none
      | some r ↦ some (record { task = record t { inner = r.task }; room = r.room })
    ];
    fill_resp_blob = λ t bs. record t { inner = c.fill_resp_blob t.inner bs };
    seq = λ t. c.seq t.inner;
    set_seq = λ t n. record t { inner = c.set_seq t.inner n };
    set_custom_error = task_custom_error;
    set_rpc_error = task_rpc_error;
    set_ok = λ t. record t { inner = c.set_ok t.inner };
  }

  -- `FailoverFacts::error_handle`; `alive`, whether the retry worker still receives.
  unfoldable pub error_handle : ℕ → Bool → FailoverTask T → Handed T
  error_handle limit alive t =
      let retry_limit = if ltb 0 t.max_retries then t.max_retries else limit in
      if t.should_retry && leb t.retry retry_limit
      then if alive then retried t else done t.inner
      else done t.inner

  -- One round of `retry_worker`, while the pool of pools lives.
  unfoldable pub retry_worker : FailoverPool T → FailoverTask T → Step T
  retry_worker f t =
      let same = f.cluster.ver == t.config_ver in
      let route = if same then after t.last_index else from_next in
      let task = if same then t else record t { config_ver = f.cluster.ver } in
      record {
        pool = next_after f route;
        routed = elim (select f.cluster f.next_node route) [
          | some i ↦ sent i (record task { last_index = i })
          | none ↦ done task.inner
        ];
      }

  -- The task as it is first given to a pool.
  abbrev pub first_try : T → ℕ → ℕ → FailoverTask T
  first_try task index ver = record {
    last_index = index;
    config_ver = ver;
    inner = task;
    retry = 0;
    should_retry = false;
    max_retries = 0;
  }

  -- The end of `send_req` and of `resubmit`, on what `select` found.
  unfoldable pub send_selected : FailoverPool T → T → Option ℕ → Routed T
  send_selected f task none = done (c.set_rpc_error task unreachable)
  send_selected f task (some i) = sent i (first_try task i f.cluster.ver)

  unfoldable pub send_req : FailoverPool T → T → Step T
  send_req f task = record {
    pool = next_after f from_next;
    routed = send_selected f task (select f.cluster f.next_node from_next);
  }

  -- `resubmit`: to an address, or to the node after the last one.
  unfoldable pub resubmit_addr : FailoverPool T → T → List ℕ → ℕ → Option ℕ → Step T
  resubmit_addr f task addr retry_count max_retries =
      let a = get_or_add_addr f addr in
      let limit : ℕ = elim max_retries [ none ↦ 0 | some n ↦ n ] in
      record {
        pool = record a.pool { next_node = a.index };
        routed =
            sent a.index
              (record (first_try task a.index a.ver) { retry = retry_count; max_retries = limit });
      }

  unfoldable pub resubmit_next : FailoverPool T → T → ℕ → Step T
  resubmit_next f task last_index = record {
    pool = f;
    routed = send_selected f task (select f.cluster f.next_node (after last_index));
  }
