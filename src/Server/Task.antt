-- ===== src/Server/Task.antt =====
-- stream/src/server/task.rs: `ServerTaskVariant` and `ServerTaskVariantFull`, how they are decoded,
-- answered and encoded. `R` is the enum of tasks that the writer takes; a task is made one by `into`.
use razor_rpc.Prelude.{ℕ, List, [], Option, none, some, Result, ok, err, panic, ◌>>=◌}
use razor_rpc.Error.{encode, EncodedErr}
use razor_rpc.Error
use razor_rpc.Error.Codec.{RpcErrCodec}
use razor_rpc.Proto.{RpcAction}
use razor_rpc.Task.{ServerTaskEncode, Encoded, RespParts}
use razor_rpc.Codec.{Codec}
use razor_rpc.Server.{Channels, RespNoti, done}

-- `ServerTaskDone`: what `_set_result` leaves is the task, and the channel that it takes out of it.
pub record ServerTaskDone (S E : Type 0) : Type 0 where
  pub set_result_ : S → Result E (Unit {0}) → Result (Unit {0}) (S × RespNoti)

-- `set_result`: the channels after it, or a panic.
unfoldable pub set_result :
    {S E R : Type 0}
    → ServerTaskDone S E
    → (S → R)
    → S
    → Result E (Unit {0})
    → Channels R
    → Result (Unit {0}) (Channels R)
set_result d into t res cs = d.set_result_ t res >>= λ p. ok (done cs p.1 (into p.0))

pub record ServerTaskVariant (M E : Type 0) : Type 0 where
  pub seq : ℕ
  pub action : RpcAction
  pub msg : M
  pub blob : Option (List ℕ)
  pub res : Option (Result E (Unit {0}))
  pub noti : Option RespNoti

pub record ServerTaskVariantFull (Q P E : Type 0) : Type 0 where
  pub seq : ℕ
  pub action : RpcAction
  pub req : Q
  pub req_blob : Option (List ℕ)
  pub resp : Option P
  pub resp_blob : Option (List ℕ)
  pub res : Option (Result E (Unit {0}))
  pub noti : Option RespNoti

-- The answer to a message that `encode_into` has, or has not, put into the buffer.
unfoldable pub encoded : ℕ → Option (List ℕ) → Result (List ℕ) Encoded → RespParts
encoded seq blob (ok e) = record {
  seq = seq;
  buf = e.buf;
  res = ok (record { msg_len = e.size; blob = blob });
}
encoded seq blob (err left) = record { seq = seq; buf = left; res = err (Error.rpc encode) }
encoded seq blob panic = record { seq = seq; buf = []; res = panic }

module _ {M E : Type 0} where
  variant_set_result :
      ServerTaskVariant M E
      → Result E (Unit {0})
      → Result (Unit {0}) (ServerTaskVariant M E × RespNoti)
  variant_set_result t res = elim t.noti [
    | some noti ↦ ok (record t { res = some res; noti = none }, noti)
    | none ↦ panic
  ]

  unfoldable pub variant_done : ServerTaskDone (ServerTaskVariant M E) E
  unfolding variant_set_result
  variant_done = record { set_result_ = variant_set_result }

  unfoldable pub variant_decode_req :
      Codec M
      → RpcAction
      → ℕ
      → List ℕ
      → Option (List ℕ)
      → RespNoti
      → Result (Unit {0}) (ServerTaskVariant M E)
  variant_decode_req codec action seq msg blob noti = do
    req ← codec.decode msg
    ok (record { seq = seq; action = action; msg = req; blob = blob; res = none; noti = some noti })

  unfoldable pub variant_get_action : ServerTaskVariant M E → RpcAction
  variant_get_action t = t.action

module _ {M E : Type 0} (codec : Codec M) (errors : RpcErrCodec E) where
  variant_reply : ServerTaskVariant M E → List ℕ → Result E (Unit {0}) → RespParts
  variant_reply t out (ok u) = encoded t.seq t.blob (codec.encode_into t.msg out)
  variant_reply t out (err e) = record { seq = t.seq; buf = out; res = err (errors.encode e) }
  variant_reply t out panic = record { seq = t.seq; buf = out; res = panic }

  variant_encode_resp : ServerTaskVariant M E → List ℕ → RespParts
  unfolding variant_reply
  variant_encode_resp t out = elim t.res [
    | some res ↦ variant_reply t out res
    | none ↦ record { seq = t.seq; buf = out; res = panic }
  ]

  unfoldable pub variant_encode : ServerTaskEncode (ServerTaskVariant M E)
  unfolding variant_encode_resp
  variant_encode = record { encode_resp = variant_encode_resp }

module _ {Q P E : Type 0} where
  full_set_result :
      ServerTaskVariantFull Q P E
      → Result E (Unit {0})
      → Result (Unit {0}) (ServerTaskVariantFull Q P E × RespNoti)
  full_set_result t res = elim t.noti [
    | some noti ↦ ok (record t { res = some res; noti = none }, noti)
    | none ↦ panic
  ]

  unfoldable pub full_done : ServerTaskDone (ServerTaskVariantFull Q P E) E
  unfolding full_set_result
  full_done = record { set_result_ = full_set_result }

  unfoldable pub full_decode_req :
      Codec Q
      → RpcAction
      → ℕ
      → List ℕ
      → Option (List ℕ)
      → RespNoti
      → Result (Unit {0}) (ServerTaskVariantFull Q P E)
  full_decode_req codec action seq msg blob noti = do
    req ← codec.decode msg
    ok (record {
      seq = seq;
      action = action;
      req = req;
      req_blob = blob;
      resp = none;
      resp_blob = none;
      res = none;
      noti = some noti;
    })

  unfoldable pub full_get_action : ServerTaskVariantFull Q P E → RpcAction
  full_get_action t = t.action

module _ {Q P E : Type 0} (codec : Codec P) (errors : RpcErrCodec E) where
  full_reply : ServerTaskVariantFull Q P E → List ℕ → Result E (Unit {0}) → RespParts
  full_reply t out (ok u) = elim t.resp [
    | some resp ↦ encoded t.seq t.resp_blob (codec.encode_into resp out)
    | none ↦ record {
      seq = t.seq;
      buf = out;
      res = ok (record { msg_len = 0; blob = t.resp_blob });
    }
  ]
  full_reply t out (err e) = record { seq = t.seq; buf = out; res = err (errors.encode e) }
  full_reply t out panic = record { seq = t.seq; buf = out; res = panic }

  full_encode_resp : ServerTaskVariantFull Q P E → List ℕ → RespParts
  unfolding full_reply
  full_encode_resp t out = elim t.res [
    | some res ↦ full_reply t out res
    | none ↦ record { seq = t.seq; buf = out; res = panic }
  ]

  unfoldable pub full_encode : ServerTaskEncode (ServerTaskVariantFull Q P E)
  unfolding full_encode_resp
  full_encode = record { encode_resp = full_encode_resp }
