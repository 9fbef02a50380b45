-- ===== src/Api/Calls.antt =====
-- src/client/mod.rs: `call` of `APIClientCaller`, on a connection pool and on a failover pool. That a
-- task is submitted and comes back, or that its channel is closed, is a parameter: `none` is the latter.
use razor_rpc.Prelude.{
  ℕ, zero, suc, List, Option, none, some, Result, ok, err, panic, ◌⊎◌, inl, inr,
}
use razor_rpc.Error.{RpcError, user}
use razor_rpc.Error
use razor_rpc.Error.Codec.{RpcErrCodec}
use razor_rpc.Codec.{Codec}
use razor_rpc.Api.{ApiClientReq, new, process_res, returns, redirect, next_node, call_round}

module _ {P E : Type 0} (resp_codec : Codec P) (default : P) (err_codec : RpcErrCodec E) where
  -- What `rx.recv_async` of a connection pool gives.
  unfoldable pub received_task : Option ApiClientReq → Result (RpcError E) P
  received_task none = err (RpcError.rpc Error.internal)
  received_task (some t) = (process_res err_codec resp_codec.decode default t).1

  -- `ConnPool::call`; `expect("encode")` panics.
  unfoldable pub conn_call :
      {Q : Type 0}
      → Codec Q
      → (ApiClientReq → Option ApiClientReq)
      → List ℕ
      → Q
      → Result (RpcError E) P
  conn_call req_codec send_req service_method req = elim (req_codec.encode req) [
    | ok req_buf ↦ received_task (send_req (new service_method req_buf))
    | err u ↦ panic
    | panic ↦ panic
  ]

  -- The loop of `FailoverPool::call`, on fuel for its rounds: none if the fuel has run out. `resubmit` is
  -- given an address or the node that was used last, and the count.
  module _ (max_retries : ℕ) (resubmit : ApiClientReq → List ℕ ⊎ ℕ → ℕ → Option ApiClientReq) where
    unfoldable pub call_loop : ℕ → ℕ → Option ApiClientReq → Option (Result (RpcError E) P)
    call_loop zero retry_count received = none
    call_loop (suc fuel) retry_count none = some (err (RpcError.rpc Error.internal))
    call_loop (suc fuel) retry_count (some t) =
        elim (call_round err_codec resp_codec.decode default max_retries retry_count t) [
          | returns r ↦ some r
          | redirect u addr m ↦ call_loop fuel m (resubmit u (inl addr) m)
          | next_node u last m ↦ call_loop fuel m (resubmit u (inr last) m)
        ]

    unfoldable pub failover_call :
        {Q : Type 0}
        → Codec Q
        → ℕ
        → (ApiClientReq → Option ApiClientReq)
        → List ℕ
        → Q
        → Option (Result (RpcError E) P)
    failover_call req_codec fuel send_req service_method req = elim (req_codec.encode req) [
      | ok req_buf ↦ call_loop fuel 0 (send_req (new service_method req_buf))
      | err u ↦ some panic
      | panic ↦ some panic
    ]
