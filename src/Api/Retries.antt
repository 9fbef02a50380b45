-- ===== src/Api/Retries.antt =====
-- src/client/mod.rs: the loop of `FailoverPool::call` ends.
use razor_rpc.Prelude.{
  ℕ, zero, suc, ◌+◌, ◌<◌, ◌≤◌, ◌≡◌, refl, List, Option, none, some, Result, ok, err, panic, ◌⊎◌,
  inl, inr, arith,
}
use razor_rpc.Error.{RpcError}
use razor_rpc.Error
use razor_rpc.Error.Codec.{RpcErrCodec}
use razor_rpc.Codec.{Codec}
use razor_rpc.Api.{ApiClientReq, new, call_round, Called, returns, redirect, next_node}
use razor_rpc.Api.Errors.{redirect_lem, next_node_lem}
use razor_rpc.Api.Calls.{call_loop, failover_call}

module _ {P E : Type 0} (resp_codec : Codec P) (default : P) (err_codec : RpcErrCodec E)
    (max_retries : ℕ) (resubmit : ApiClientReq → List ℕ ⊎ ℕ → ℕ → Option ApiClientReq) where
  abbrev loop : ℕ → ℕ → Option ApiClientReq → Option (Result (RpcError E) P)
  loop = call_loop resp_codec default err_codec max_retries resubmit

  abbrev pub Ends : Option (Result (RpcError E) P) → Type 0
  Ends o = (r : Result (RpcError E) P) × (o ≡ some r)

  abbrev Enough : ℕ → Type 0
  Enough fuel =
      (n : ℕ) (o : Option ApiClientReq)
      → max_retries < fuel + n
      → n ≤ max_retries
      → Ends (loop fuel n o)

  after_round :
      (fuel n : ℕ) (t : ApiClientReq) (c : Called err_codec resp_codec.decode default)
      → call_round err_codec resp_codec.decode default max_retries n t ≡ c
      → max_retries < suc fuel + n
      → Enough fuel
      → Ends (loop (suc fuel) n (some t))
  unfolding call_loop
  after_round fuel n t (returns r) e h k = (r, ground (arith, e))
  after_round fuel n t (redirect u addr m) e h k =
      let b = redirect_lem err_codec resp_codec.decode default max_retries n m t u addr e in
      let (r, i) = k m (resubmit u (inl addr) m) (omega (arith, b)) (omega (arith, b)) in
      (r, ground (arith, e, i))
  after_round fuel n t (next_node u last m) e h k =
      let b = next_node_lem err_codec resp_codec.decode default max_retries n m last t u e in
      let (r, i) = k m (resubmit u (inr last) m) (omega (arith, b)) (omega (arith, b)) in
      (r, ground (arith, e, i))

  call_loop_ends : (fuel : ℕ) → Enough fuel
  unfolding call_loop
  call_loop_ends zero n o h b = absurd (omega arith)
  call_loop_ends (suc fuel) n none h b = (err (RpcError.rpc Error.internal), refl)
  call_loop_ends (suc fuel) n (some t) h b =
      after_round fuel n t (call_round err_codec resp_codec.decode default max_retries n t) refl h
        (call_loop_ends fuel)

  -- Whatever comes back and however a task is submitted again, a call on a failover pool returns (or
  -- panics) within one round more than its limit of retries.
  pub failover_call-Ends :
      {Q : Type 0} (req_codec : Codec Q) (send_req : ApiClientReq → Option ApiClientReq)
      (service_method : List ℕ) (req : Q)
      → Ends (
          failover_call resp_codec default err_codec max_retries resubmit req_codec
            (max_retries + 1)
            send_req
            service_method
            req)
  unfolding failover_call
  failover_call-Ends req_codec send_req service_method req =
      encoded_ends (req_codec.encode req) refl
    where
      encoded_ends :
          (x : Result (Unit {0}) (List ℕ))
          → req_codec.encode req ≡ x
          → Ends (
              failover_call resp_codec default err_codec max_retries resubmit req_codec
                (max_retries + 1)
                send_req
                service_method
                req)
      encoded_ends (ok bs) e =
          let (r, i) =
            call_loop_ends (max_retries + 1) 0 (send_req (new service_method bs)) (omega arith)
              (omega arith) in
          (r, ground (arith, e, i))
      encoded_ends (err u) e = (panic, ground (arith, e))
      encoded_ends panic e = (panic, ground (arith, e))
