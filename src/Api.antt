-- ===== src/Api.antt =====
-- src/client/task.rs and src/client/mod.rs: the task of an API call, what its caller gets, and the
-- redirects of a call on a failover pool. The codec is a parameter: `decode` of the answer's bytes,
-- and the answer's `default`.
pub mod Errors
pub mod Server
pub mod Service
pub mod Calls
pub mod Remote
pub mod Retries
pub mod Wire
use razor_rpc.Prelude.{
  ℕ, ◌+◌, ◌<◌, List, [], ◌++◌, Option, none, some, Result, ok, err, panic, length, is_empty, ltb,
  if◌then◌else◌, inl, inr, ◌⊎◌,
}
use razor_rpc.Prelude.Int.{ℤ}
use razor_rpc.Error.{RpcIntErr, decode, EncodedErr, num, static, buf, RpcError, user}
use razor_rpc.Error
use razor_rpc.Error.Codec.{RpcErrCodec}
use razor_rpc.Proto.{RpcAction, str}
use razor_rpc.Task.{ClientTask, Encoded, Decoded, Reserved}

-- `APIClientReq`, less the channel that wakes the caller.
pub record ApiClientReq : Type 0 where
  pub seq : ℕ
  pub req_msg : Option (List ℕ)
  pub action : List ℕ
  pub resp : Option (List ℕ)
  pub res : Option (Result EncodedErr (Unit {0}))
  pub config_ver : ℕ
  pub last_index : ℕ

-- `new`, with the request's bytes.
unfoldable pub new : List ℕ → List ℕ → ApiClientReq
new service_method req_buf = record {
  seq = 0;
  req_msg = some req_buf;
  action = service_method;
  resp = none;
  res = none;
  config_ver = 0;
  last_index = 0;
}

api_encode : ApiClientReq → List ℕ → Result (Unit {0}) Encoded
api_encode t out = elim t.req_msg [
  | some msg ↦ ok (record { buf = out ++ msg; size = length msg })
  | none ↦ ok (record { buf = out; size = 0 })
]

api_decode : ApiClientReq → List ℕ → Decoded ApiClientReq
api_decode t bs = record {
  task = if is_empty bs then t else record t { resp = some bs };
  res = ok tt;
}

api_custom_error : ApiClientReq → EncodedErr → ℕ → ℕ → ApiClientReq
api_custom_error t e last_index config_ver = record t {
  res = some (err e);
  config_ver = config_ver;
  last_index = last_index;
}

-- A blob is neither sent nor taken: the traits' defaults.
api_no_blob : ApiClientReq → Option (List ℕ)
api_no_blob t = none

api_no_room : ApiClientReq → ℤ → Option (Reserved ApiClientReq)
api_no_room t n = none

unfoldable pub api_task : ClientTask ApiClientReq
unfolding api_encode api_decode api_custom_error api_no_blob api_no_room
api_task = record {
  get_action = λ t. str t.action;
  encode_req = api_encode;
  get_req_blob = api_no_blob;
  decode_resp = api_decode;
  reserve_resp_blob = api_no_room;
  fill_resp_blob = λ t bs. t;
  seq = λ t. t.seq;
  set_seq = λ t n. record t { seq = n };
  set_custom_error = api_custom_error;
  set_rpc_error = λ t e. record t { res = some (err (Error.rpc e)) };
  set_ok = λ t. record t { res = some (ok tt) };
}

module _ {E R : Type 0} (codec : RpcErrCodec E) (decode_msg : List ℕ → Result (Unit {0}) R)
    (default : R) where
  -- `E::decode` on what arrived.
  unfoldable pub user_error : ℕ ⊎ List ℕ → Result (RpcError E) R
  user_error x = elim (codec.decode x) [
    | ok e ↦ err (user e)
    | err u ↦ err (RpcError.rpc decode)
    | panic ↦ panic
  ]

  -- The branches of `process_res`; a static text does not arrive, `unreachable!`.
  unfoldable pub process : Option (List ℕ) → Result EncodedErr (Unit {0}) → Result (RpcError E) R
  process none (ok u) = ok default
  process (some resp) (ok u) = elim (decode_msg resp) [
    | ok r ↦ ok r
    | err u ↦ err (RpcError.rpc decode)
    | panic ↦ panic
  ]
  process resp (err (Error.rpc e)) = err (RpcError.rpc e)
  process resp (err (num n)) = user_error (inl n)
  process resp (err (buf s)) = user_error (inr s)
  process resp (err (static s)) = panic
  process resp panic = panic

  -- `process_res`: the result is taken out of the task.
  unfoldable pub process_res : ApiClientReq → ApiClientReq × Result (RpcError E) R
  process_res t = elim t.res [
    | none ↦ (t, panic)
    | some res ↦ (record t { res = none }, process t.resp res)
  ]

  -- What the loop of `FailoverPool::call` does with a task that came back: it returns, or it submits
  -- the task again, to an address or to the node after the last one.
  pub data Called : Type 0 where
    returns : Result (RpcError E) R → Called
    redirect : ApiClientReq → List ℕ → ℕ → Called
    next_node : ApiClientReq → ℕ → ℕ → Called

  -- The branches on `should_failover`, with the count that has been raised.
  failover : ℕ → ℕ → ApiClientReq → E → Called
  failover max_retries retry_count t e =
      let again = ltb retry_count max_retries in
      elim (codec.should_failover e) [
        | ok addr ↦ elim addr [
          | some a ↦ if again then redirect t a retry_count else returns (err (user e))
          | none ↦ if again then next_node t t.last_index retry_count else returns (err (user e))
        ]
        | err u ↦ returns (err (user e))
        | panic ↦ returns panic
      ]

  unfoldable pub call_round : ℕ → ℕ → ApiClientReq → Called
  unfolding failover
  call_round max_retries retry_count t =
      let p = process_res t in
      elim p.1 [
        | ok r ↦ returns (ok r)
        | err x ↦ elim x [
          | user e ↦ failover max_retries (retry_count + 1) p.0 e
          | RpcError.rpc e ↦ returns (err (RpcError.rpc e))
        ]
        | panic ↦ returns panic
      ]
