-- ===== src/Server/Dispatch.antt =====
-- stream/src/server/dispatch.rs: the `Dispatch` interface and `DispatchClosure`. What a handler sends
-- before it returns is in the channels that it leaves.
use razor_rpc.Prelude.{ℕ, List, Option, Result, ok, err, panic}
use razor_rpc.Proto.{RpcAction}
use razor_rpc.Tcp.Server.{RpcSvrReq}
use razor_rpc.Server.{Channels, RespNoti}

-- The channels that a handler leaves, and its result.
pub record Dispatched (R : Type 0) : Type 0 where
  pub channels : Channels R
  pub res : Result (Unit {0}) (Unit {0})

-- `Dispatch`
pub record Dispatch (R : Type 0) : Type 0 where
  pub dispatch_req : RpcSvrReq → RespNoti → Channels R → Dispatched R

-- `ServerTaskDecode<R>` for a type of tasks.
pub record ServerTaskDecode (S : Type 0) : Type 0 where
  pub decode_req : RpcAction → ℕ → List ℕ → Option (List ℕ) → RespNoti → Result (Unit {0}) S

module _ {S R : Type 0} (d : ServerTaskDecode S) (task_handle : S → Channels R → Dispatched R) where
  handle_decoded : Channels R → Result (Unit {0}) S → Dispatched R
  handle_decoded cs (ok t) = task_handle t cs
  handle_decoded cs (err e) = record { channels = cs; res = err tt }
  handle_decoded cs panic = record { channels = cs; res = panic }

  -- `DispatchClosure`
  unfoldable pub dispatch_closure : Dispatch R
  unfolding handle_decoded
  dispatch_closure = record {
    dispatch_req =
        λ req noti cs. handle_decoded cs (d.decode_req req.action req.seq req.msg req.blob noti);
  }
