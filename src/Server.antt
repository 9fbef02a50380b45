-- ===== src/Server.antt =====
-- stream/src/server: what a connection's coroutines and the server's tasks share. A connection has a
-- channel (of the package crossfire) on which tasks go back to its writer; the channels of all
-- connections are a function from the number of a connection, and a `RespNoti` is such a number.
pub mod Task
pub mod Dispatch
pub mod Loop
pub mod Close
pub mod Answers
pub mod Turns
pub mod Batches
pub mod Connection
pub mod Pipeline
pub mod Waits
pub mod Decimal
pub mod Graceful
use razor_rpc.Prelude.{
  ℕ, Bool, List, [], ◌∷◌, ◌++◌, Option, none, some, Result, ok, err, panic, length, ◌==◌,
  if◌then◌else◌,
}
use razor_rpc.Error.{RpcIntErr, EncodedErr}
use razor_rpc.Task.{ServerTaskEncode, Encoded, RespParts}

-- What goes over the channel: a task with its result, or the answer to a ping, or an error.
pub data Answer (T : Type 0) : Type 0 where
  task : T → Answer T
  quick : ℕ → Option RpcIntErr → Answer T

-- An unbounded channel; `has_writer`, whether its receiving end is still there.
pub record Channel (T : Type 0) : Type 0 where
  pub answers : List (Answer T)
  pub has_writer : Bool

abbrev pub Channels : Type 0 → Type 0
Channels T = ℕ → Channel T

pub record RespNoti : Type 0 where
  pub channel : ℕ

module _ {T : Type 0} where
  unfoldable pub push : Channels T → RespNoti → Answer T → Channels T
  push cs noti a i =
      if i == noti.channel then record (cs i) { answers = (cs i).answers ++ a ∷ [] } else cs i

  -- `RespNoti::done`; that the writer is gone is ignored.
  unfoldable pub done : Channels T → RespNoti → T → Channels T
  done cs noti t = if (cs noti.channel).has_writer then push cs noti (task t) else cs

  unfoldable pub send_err :
      Channels T → RespNoti → ℕ → Option RpcIntErr → Result (Unit {0}) (Channels T)
  send_err cs noti seq e =
      if (cs noti.channel).has_writer then ok (push cs noti (quick seq e)) else err tt

-- `RpcSvrResp`
pub record RpcSvrResp : Type 0 where
  pub seq : ℕ
  pub msg : Option (List ℕ)
  pub blob : Option (List ℕ)
  pub res : Option (Result EncodedErr (Unit {0}))

-- Its `encode_resp` on the result that was taken.
encode_taken : RpcSvrResp → List ℕ → Result EncodedErr (Unit {0}) → RespParts
encode_taken t out (ok u) = elim t.msg [
  | some msg ↦ record {
    seq = t.seq;
    buf = out ++ msg;
    res = ok (record { msg_len = length msg; blob = t.blob });
  }
  | none ↦ record { seq = t.seq; buf = out; res = ok (record { msg_len = 0; blob = t.blob }) }
]
encode_taken t out (err e) = record { seq = t.seq; buf = out; res = err e }
encode_taken t out panic = record { seq = t.seq; buf = out; res = panic }

encode_svr_resp : RpcSvrResp → List ℕ → RespParts
unfolding encode_taken
encode_svr_resp t out = elim t.res [
  | some res ↦ encode_taken t out res
  | none ↦ record { seq = t.seq; buf = out; res = panic }
]

unfoldable pub svr_resp : ServerTaskEncode RpcSvrResp
unfolding encode_svr_resp
svr_resp = record { encode_resp = encode_svr_resp }
