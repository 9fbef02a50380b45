-- ===== src/Api/Server.antt =====
-- src/server/task.rs and src/server/dispatch.rs: the task of an API request, the answers it can give,
-- and the service and method that an action names. What a task hands to `noti.done` is the value.
pub mod Answers
use razor_rpc.Prelude.{
  ℕ, List, [], ◌∷◌, ◌++◌, Option, none, some, Result, ok, err, panic, length, ◌==◌, if◌then◌else◌,
}
use razor_rpc.Error.{RpcIntErr, EncodedErr, RpcError, user}
use razor_rpc.Error
use razor_rpc.Error.Codec.{RpcErrCodec}
use razor_rpc.Proto.{RpcAction, str, num}
use razor_rpc.Task.{ServerTaskEncode, RespBody, RespParts}
use razor_rpc.Tcp.Server.{RpcSvrReq}

-- `APIServerReq`, less its codec and its channel.
pub record ApiServerReq : Type 0 where
  pub seq : ℕ
  pub service : List ℕ
  pub method : List ℕ
  pub req : Option (List ℕ)

pub record ApiServerResp : Type 0 where
  pub seq : ℕ
  pub msg : Option (List ℕ)
  pub res : Option (Result EncodedErr (Unit {0}))

-- `set_result`, on what the codec's `encode` gives.
unfoldable pub set_result : ApiServerReq → Result (Unit {0}) (List ℕ) → ApiServerResp
set_result r (ok msg) = record { seq = r.seq; msg = some msg; res = some (ok tt) }
set_result r _ = record { seq = r.seq; msg = none; res = some (err (Error.rpc Error.encode)) }

unfoldable pub set_rpc_error : ApiServerReq → RpcIntErr → ApiServerResp
set_rpc_error r e = record { seq = r.seq; msg = none; res = some (err (Error.rpc e)) }

unfoldable pub set_error : {E : Type 0} → RpcErrCodec E → ApiServerReq → RpcError E → ApiServerResp
set_error codec r (RpcError.rpc e) = record {
  seq = r.seq;
  msg = none;
  res = some (err (Error.rpc e));
}
set_error codec r (user e) = record { seq = r.seq; msg = none; res = some (err (codec.encode e)) }

-- `impl ServerTaskEncode for APIServerResp`; the result is taken, and none panics.
encode_result : ApiServerResp → List ℕ → Result EncodedErr (Unit {0}) → RespParts
encode_result t out (ok u) = elim t.msg [
  | some msg ↦ record {
    seq = t.seq;
    buf = out ++ msg;
    res = ok (record { msg_len = length msg; blob = none });
  }
  | none ↦ record { seq = t.seq; buf = out; res = ok (record { msg_len = 0; blob = none }) }
]
encode_result t out (err e) = record { seq = t.seq; buf = out; res = err e }
encode_result t out panic = record { seq = t.seq; buf = out; res = panic }

encode_answer : ApiServerResp → List ℕ → RespParts
unfolding encode_result
encode_answer t out = elim t.res [
  | some res ↦ encode_result t out res
  | none ↦ record { seq = t.seq; buf = out; res = panic }
]

unfoldable pub api_resp : ServerTaskEncode ApiServerResp
unfolding encode_answer
api_resp = record { encode_resp = encode_answer }

-- `str::split_once` of the standard library: what stands before and behind the first `sep`.
unfoldable pub split_once : ℕ → List ℕ → Option (List ℕ × List ℕ)
split_once sep [] = none
split_once sep (x ∷ xs) =
    let rest = split_once sep xs in
    if x == sep then some ([], xs) else elim rest [ none ↦ none | some p ↦ some (x ∷ p.0, p.1) ]

-- `APIDispatch::dispatch_req`: the request that is dispatched, or an error. The separator is '.'.
unfoldable pub dispatch_req : RpcSvrReq → Result (Unit {0}) ApiServerReq
dispatch_req r = elim r.action [
  | num n ↦ err tt
  | str action ↦ elim (split_once 46 action) [
    | none ↦ err tt
    | some p ↦ ok (record { seq = r.seq; service = p.0; method = p.1; req = some r.msg })
  ]
]
