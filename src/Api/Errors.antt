-- ===== src/Api/Errors.antt =====
-- src/client/task.rs and src/client/mod.rs: the error that a caller gets, and how often it is
-- redirected.
use razor_rpc.Prelude.{
  ℕ, suc, ◌+◌, ◌-◌, ◌<◌, ◌≤◌, ◌≡◌, refl, List, Result, ok, err, panic, inl, inr, arith,
}
use razor_rpc.Error.{
  RpcIntErr, decode, EncodedErr, num, static, buf, RpcError, user, from_str, as_bytes,
}
use razor_rpc.Error
use razor_rpc.Error.Names.{from_str-as_bytes}
use razor_rpc.Error.Codec.{RpcErrCodec}
use razor_rpc.Tcp.Client.ErrorLaws.{error_set}
use razor_rpc.Api.{
  ApiClientReq, api_task, user_error, process, process_res, redirect, next_node, failover,
  call_round,
}

module _ {E R : Type 0} (codec : RpcErrCodec E) (decode_msg : List ℕ → Result (Unit {0}) R)
    (default : R) where
  -- What the caller gets for an error that the server sent: a text that names an error of the
  -- framework is that error, any other text and a number are the service's to decode.
  abbrev pub received_text : List ℕ → Result (RpcError E) R
  received_text s = elim (from_str s) [
    | ok i ↦ err (RpcError.rpc i)
    | err u ↦ user_error codec decode_msg default (inr s)
    | panic ↦ user_error codec decode_msg default (inr s)
  ]

  abbrev pub received : EncodedErr → Result (RpcError E) R
  received (Error.rpc e) = err (RpcError.rpc e)
  received (num n) = user_error codec decode_msg default (inl n)
  received (buf s) = received_text s
  received (static s) = received_text s

  result_text :
      (t : ApiClientReq) (s : List ℕ)
      → (process_res codec decode_msg default (error_set api_task t (buf s))).1 ≡ received_text s
  unfolding process_res api_task process
  result_text t s = ground arith

  -- An error that reached the client's task is what its caller gets, in all four forms in which a
  -- server sends it; the caller never meets the branch that is said to be unreachable.
  pub process_res-error_set :
      (t : ApiClientReq) (e : EncodedErr)
      → (process_res codec decode_msg default (error_set api_task t e)).1 ≡ received e
  unfolding process_res api_task process
  process_res-error_set t (num n) = refl
  process_res-error_set t (Error.rpc e) = ground (arith, from_str-as_bytes e)
  process_res-error_set t (buf s) = result_text t s
  process_res-error_set t (static s) = result_text t s

  -- The rounds of a call: each raises the count, and submits the task again.
  pub data Rounds (max_retries : ℕ) : ℕ → ℕ → Type 0 where
    begin : Rounds max_retries 0 0
    redirected :
        (count rounds m : ℕ) (t u : ApiClientReq) (addr : List ℕ)
        → Rounds max_retries count rounds
        → call_round codec decode_msg default max_retries count t ≡ redirect u addr m
        → Rounds max_retries m (suc rounds)
    moved :
        (count rounds m last : ℕ) (t u : ApiClientReq)
        → Rounds max_retries count rounds
        → call_round codec decode_msg default max_retries count t ≡ next_node u last m
        → Rounds max_retries m (suc rounds)

  pub redirect_lem :
      (max_retries count m : ℕ) (t u : ApiClientReq) (addr : List ℕ)
      → call_round codec decode_msg default max_retries count t ≡ redirect u addr m
      → (m ≡ count + 1) × (m < max_retries)
  unfolding call_round failover
  redirect_lem max_retries count m t u addr e = ground (arith, e)

  pub next_node_lem :
      (max_retries count m last : ℕ) (t u : ApiClientReq)
      → call_round codec decode_msg default max_retries count t ≡ next_node u last m
      → (m ≡ count + 1) × (m < max_retries)
  unfolding call_round failover
  next_node_lem max_retries count m last t u e = ground (arith, e)

  -- Whatever the answers are, a call on a failover pool is submitted again fewer times than
  -- `max_retries`, or not at all.
  rounds_lem :
      (max_retries count rounds : ℕ)
      → Rounds max_retries count rounds
      → (count ≡ rounds) × (rounds ≤ max_retries - 1)
  rounds_lem max_retries _ _ begin = (refl, omega arith)
  rounds_lem max_retries _ _ (redirected count rounds m t u addr r e) =
      let a = rounds_lem max_retries count rounds r in
      let b = redirect_lem max_retries count m t u addr e in omega (arith, a, b)
  rounds_lem max_retries _ _ (moved count rounds m last t u r e) =
      let a = rounds_lem max_retries count rounds r in
      let b = next_node_lem max_retries count m last t u e in omega (arith, a, b)
