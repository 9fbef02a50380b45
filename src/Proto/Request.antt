-- ===== src/Proto/Request.antt =====
-- stream/src/proto.rs: `ReqHead::encode` and `ReqHead::encode_ping`.
pub mod Laws
use razor_rpc.Prelude.{
  ℕ, ◌+◌, ◌%◌, ◌^◌, List, ◌++◌, Option, none, some, Result, ok, err, ◌>>=◌, ltb, length,
  if◌then◌else◌,
}
use razor_rpc.Prelude.Int.{pos, as_u32, as_i32}
use razor_rpc.Layout.{ByteOrder}
use razor_rpc.Task.{ClientTask}
use razor_rpc.Proto.{RpcAction, str, num, or_high_mask, ping_action, req_write_head}

-- The buffer to send, and the blob to send behind it.
pub record Request : Type 0 where
  pub buf : List ℕ
  pub blob : Option (List ℕ)

-- `blob.len()`, 0 if there is none.
abbrev pub blob_size : Option (List ℕ) → ℕ
blob_size none = 0
blob_size (some b) = length b

-- The header's action field, and the buffer behind the action's string.
unfoldable pub action_flag : RpcAction → ℕ
action_flag (num n) = as_u32 n
action_flag (str s) = or_high_mask (length s % 2 ^ 32)

unfoldable pub write_action : RpcAction → List ℕ → List ℕ
write_action (num n) buf = buf
write_action (str s) buf = buf ++ s

module _ (z : ByteOrder) where
  unfoldable pub encode_ping : List ℕ → ℕ → ℕ → Result (Unit {0}) (List ℕ)
  encode_ping room client_id seq = req_write_head z room client_id ping_action seq 0 (pos 0)

  module _ {T : Type 0} (c : ClientTask T) where
    unfoldable pub encode : List ℕ → ℕ → T → Result (Unit {0}) Request
    encode room client_id task = do
      let action = c.get_action task
      msg ← c.encode_req task (write_action action room)
      let blob = c.get_req_blob task
      if ltb 0xffff_ffff msg.size
          then err tt
          else if ltb 0x7fff_ffff (blob_size blob)
          then err tt
          else req_write_head z msg.buf client_id (action_flag action) (c.seq task)
              (msg.size % 2 ^ 32) (as_i32 (blob_size blob))
            >>= λ buf. ok (record { buf = buf; blob = blob })
