-- ===== src/Failover/Retry.antt =====
-- stream/src/client/failover.rs: how often a task is retried.
use razor_rpc.Prelude.{
  ℕ, suc, ◌+◌, ◌^◌, ◌<◌, ◌≤◌, ◌≡◌, refl, Bool, true, false, ltb, if◌then◌else◌, arith,
}
use razor_rpc.Error.{RpcIntErr, method, int_err_lt}
use razor_rpc.Task.{ClientTask}
use razor_rpc.Failover.{
  FailoverTask, FailoverPool, sent, Handed, retried, error_handle, failover_task, retry_worker,
}

module _ {T : Type 0} (c : ClientTask T) (limit : ℕ) where
  -- The limit of a task: its own, or the pool's.
  abbrev pub limit_of : FailoverTask T → ℕ
  limit_of t = if ltb 0 t.max_retries then t.max_retries else limit

  -- One retry: an error of the framework is set on a task that was sent, `error_handle` gives it to
  -- the retry worker, and that sends it again, by whatever cluster there then is.
  pub data Retry (t u : FailoverTask T) : Type 0 where
    retry :
        (e : RpcIntErr) (v : FailoverTask T) (f : FailoverPool T) (i : ℕ)
        → error_handle c limit true ((failover_task c).set_rpc_error t e) ≡ retried v
        → (retry_worker c f v).routed ≡ sent i u
        → Retry t u

  pub data Retries (t : FailoverTask T) : ℕ → FailoverTask T → Type 0 where
    once : Retries t 0 t
    again : (n : ℕ) (u v : FailoverTask T) → Retries t n u → Retry u v → Retries t (suc n) v

  handled_lem :
      (t v : FailoverTask T) (e : RpcIntErr)
      → t.retry + 1 < 2 ^ 64
      → error_handle c limit true ((failover_task c).set_rpc_error t e) ≡ retried v
      → (v.retry ≡ t.retry + 1)
        × (v.retry ≤ limit_of t)
        × (v.max_retries ≡ t.max_retries)
        × (int_err_lt e method ≡ true)
  unfolding error_handle failover_task
  handled_lem t v e h r = ground (arith, r)

  routed_lem :
      (f : FailoverPool T) (v u : FailoverTask T) (i : ℕ)
      → (retry_worker c f v).routed ≡ sent i u
      → (u.retry ≡ v.retry) × (u.max_retries ≡ v.max_retries)
  unfolding retry_worker
  routed_lem f v u i r = ground (arith, r)

  -- A task that starts within its limit, which is below the end of a usize, is sent again at most as often as its limit allows: every
  -- retry counts, and the count stays within the limit, whatever the errors and the clusters are.
  pub retries_lem :
      (t u : FailoverTask T) (n : ℕ)
      → limit_of t + 1 < 2 ^ 64
      → t.retry ≤ limit_of t
      → Retries t n u
      → (u.retry ≡ t.retry + n) × (u.retry ≤ limit_of t) × (u.max_retries ≡ t.max_retries)
  retries_lem t _ _ h k once = (omega arith, k, refl)
  retries_lem t _ _ h k (again n u v s (retry e w f i r q)) =
      let a = retries_lem t u n h k s in
      let b = handled_lem u w e (omega (arith, a)) r in
      let d = routed_lem f w v i q in ground (arith, a, b, d, h, k)

  -- An error of the framework from `method` on ends the task: it is done with that error, whatever
  -- its count and its limit are.
  error_handle_ends :
      (t : FailoverTask T) (e : RpcIntErr) (alive : Bool)
      → int_err_lt e method ≡ false
      → error_handle c limit alive ((failover_task c).set_rpc_error t e)
        ≡ Handed.done (c.set_rpc_error t.inner e)
  unfolding error_handle failover_task
  error_handle_ends t e alive h = ground (arith, h)
