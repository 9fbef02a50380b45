-- ===== src/Task.antt =====
-- stream/src/client/task.rs and stream/src/server/task.rs: the traits by which the framework
-- handles tasks. The codec that the methods are given is part of the instance; a `&mut self` method
-- returns the task. `done` consumes the task, so its callers list the tasks that are done.
use razor_rpc.Prelude.{ℕ, List, Option, Result}
use razor_rpc.Prelude.Int.{ℤ}
use razor_rpc.Error.{RpcIntErr, EncodedErr}
use razor_rpc.Proto.{RpcAction}

-- The buffer after `encode_req`, and the size that it reports.
pub record Encoded : Type 0 where
  pub buf : List ℕ
  pub size : ℕ

-- The task after `reserve_resp_blob`, and the length of the slice that it lends.
pub record Reserved (T : Type 0) : Type 0 where
  pub task : T
  pub room : ℕ

-- The task after `decode_resp`, and its result.
pub record Decoded (T : Type 0) : Type 0 where
  pub task : T
  pub res : Result (Unit {0}) (Unit {0})

-- `ClientTask`. `fill_resp_blob` is what reading into the lent slice does to the task.
pub record ClientTask (T : Type 0) : Type 0 where
  pub get_action : T → RpcAction
  pub encode_req : T → List ℕ → Result (Unit {0}) Encoded
  pub get_req_blob : T → Option (List ℕ)
  pub decode_resp : T → List ℕ → Decoded T
  pub reserve_resp_blob : T → ℤ → Option (Reserved T)
  pub fill_resp_blob : T → List ℕ → T
  pub seq : T → ℕ
  pub set_seq : T → ℕ → T
  pub set_custom_error : T → EncodedErr → ℕ → ℕ → T
  pub set_rpc_error : T → RpcIntErr → T
  pub set_ok : T → T

-- What a response holds besides its buffer: the length of its message, and a blob.
pub record RespBody : Type 0 where
  pub msg_len : ℕ
  pub blob : Option (List ℕ)

-- The result of `encode_resp`, with the buffer that it wrote to.
pub record RespParts : Type 0 where
  pub seq : ℕ
  pub buf : List ℕ
  pub res : Result EncodedErr RespBody

-- `ServerTaskEncode`
pub record ServerTaskEncode (T : Type 0) : Type 0 where
  pub encode_resp : T → List ℕ → RespParts
