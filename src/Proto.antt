-- ===== src/Proto.antt =====
-- stream/src/proto.rs: the two fixed-length headers as bytes, and the action of a request.
-- Both structs are `repr(C, packed)`: their fields follow one another in declaration order.
-- `room` is what the buffer holds where `set_len` makes room for a header.
pub mod Heads
pub mod Request
pub mod Response
use razor_rpc.Prelude.{
  ℕ, ◌+◌, ◌-◌, ◌/◌, ◌%◌, ◌^◌, Bool, List, [], ◌∷◌, ◌++◌, Result, ok, err, panic, ltb, ◌==◌,
  if◌then◌else◌, length, drop,
}
use razor_rpc.Prelude.Int.{ℤ, pos, as_u32, as_i32}
use razor_rpc.Layout.{ByteOrder, next_field}
use razor_rpc.Error.{RpcIntErr, io, version}

abbrev pub ping_action : ℕ
ping_action = 0

abbrev pub rpc_magic : ℕ
rpc_magic = 19749

-- `U32_HIGH_MASK`, bit 31 of a u32.
abbrev pub u32_high_mask : ℕ
u32_high_mask = 2 ^ 31

abbrev pub resp_flag_has_errno : ℕ
resp_flag_has_errno = 1

abbrev pub resp_flag_has_err_string : ℕ
resp_flag_has_err_string = 2

abbrev pub rpc_version_1 : ℕ
rpc_version_1 = 1

abbrev pub rpc_req_header_len : ℕ
rpc_req_header_len = 32

abbrev pub rpc_resp_header_len : ℕ
rpc_resp_header_len = 20

-- `RpcAction`, and `RpcActionOwned`, which owns its string.
pub data RpcAction : Type 0 where
  str : List ℕ → RpcAction
  num : ℤ → RpcAction

-- `x & U32_HIGH_MASK == 0` of a u32, `x | U32_HIGH_MASK`, and `x ^ U32_HIGH_MASK`.
abbrev pub high_bit_clear : ℕ → Bool
high_bit_clear x = x / u32_high_mask % 2 == 0

abbrev pub or_high_mask : ℕ → ℕ
or_high_mask x = if high_bit_clear x then x + u32_high_mask else x

abbrev pub xor_high_mask : ℕ → ℕ
xor_high_mask x = if high_bit_clear x then x + u32_high_mask else x - u32_high_mask

pub record ReqHead : Type 0 where
  pub magic : ℕ
  pub ver : ℕ
  pub format : ℕ
  pub action : ℕ
  pub seq : ℕ
  pub client_id : ℕ
  pub msg_len : ℕ
  pub blob_len : ℕ

pub record RespHead : Type 0 where
  pub magic : ℕ
  pub ver : ℕ
  pub flag : ℕ
  pub msg_len : ℕ
  pub seq : ℕ
  pub blob_len : ℤ

-- `get_action`: the number, or the length of the action's string.
unfoldable pub get_action : ReqHead → Result ℤ ℤ
get_action h =
    if high_bit_clear h.action then ok (as_i32 h.action) else err (as_i32 (xor_high_mask h.action))

module _ (z : ByteOrder) where
  unfoldable pub req_head_bytes : ReqHead → List ℕ
  req_head_bytes h =
      z.encode 2 h.magic
      ++ (z.encode 1 h.ver
          ++ (z.encode 1 h.format
              ++ (z.encode 4 h.action
                  ++ (z.encode 8 h.seq
                      ++ (z.encode 8 h.client_id
                          ++ (z.encode 4 h.msg_len ++ (z.encode 4 h.blob_len ++ [])))))))

  unfoldable pub req_head_of_bytes : List ℕ → ReqHead
  unfolding next_field
  req_head_of_bytes bs =
      let magic = next_field z 2 bs in
      let ver = next_field z 1 magic.rest in
      let format = next_field z 1 ver.rest in
      let action = next_field z 4 format.rest in
      let seq = next_field z 8 action.rest in
      let client_id = next_field z 8 seq.rest in
      let msg_len = next_field z 4 client_id.rest in
      let blob_len = next_field z 4 msg_len.rest in
      record {
        magic = magic.value;
        ver = ver.value;
        format = format.value;
        action = action.value;
        seq = seq.value;
        client_id = client_id.value;
        msg_len = msg_len.value;
        blob_len = blob_len.value;
      }

  unfoldable pub resp_head_bytes : RespHead → List ℕ
  resp_head_bytes h =
      z.encode 2 h.magic
      ++ (z.encode 1 h.ver
          ++ (z.encode 1 h.flag
              ++ (z.encode 4 h.msg_len
                  ++ (z.encode 8 h.seq ++ (z.encode 4 (as_u32 h.blob_len) ++ [])))))

  unfoldable pub resp_head_of_bytes : List ℕ → RespHead
  unfolding next_field
  resp_head_of_bytes bs =
      let magic = next_field z 2 bs in
      let ver = next_field z 1 magic.rest in
      let flag = next_field z 1 ver.rest in
      let msg_len = next_field z 4 flag.rest in
      let seq = next_field z 8 msg_len.rest in
      let blob_len = next_field z 4 seq.rest in
      record {
        magic = magic.value;
        ver = ver.value;
        flag = flag.value;
        msg_len = msg_len.value;
        seq = seq.value;
        blob_len = as_i32 blob_len.value;
      }

  -- `ReqHead::_write_head`: every field of the header that lies over the buffer's first 32 bytes.
  unfoldable pub req_write_head : List ℕ → ℕ → ℕ → ℕ → ℕ → ℤ → Result (Unit {0}) (List ℕ)
  req_write_head buf client_id action seq msg_len blob_len =
      if ltb (length buf) rpc_req_header_len
      then panic
      else ok (
          req_head_bytes (record {
            magic = rpc_magic;
            ver = rpc_version_1;
            format = 0;
            action = action;
            seq = seq;
            client_id = client_id;
            msg_len = msg_len;
            blob_len = as_u32 blob_len;
          })
          ++ drop rpc_req_header_len buf)

  -- `RespHead::_write_head`
  unfoldable pub resp_write_head {κ} : {E : Type κ} → List ℕ → ℕ → ℕ → ℕ → ℤ → Result E (List ℕ)
  resp_write_head buf flag seq msg_len blob_len =
      if ltb (length buf) rpc_resp_header_len
      then panic
      else ok (
          resp_head_bytes (record {
            magic = rpc_magic;
            ver = rpc_version_1;
            flag = flag;
            msg_len = msg_len;
            seq = seq;
            blob_len = blob_len;
          })
          ++ drop rpc_resp_header_len buf)

  -- `ReqHead::decode_head`. Bytes of another length make `ref_from_bytes` fail, and `expect` panic.
  unfoldable pub req_decode_head : List ℕ → Result RpcIntErr ReqHead
  req_decode_head bs =
      let head = req_head_of_bytes bs in
      if length bs == rpc_req_header_len
      then if head.magic == rpc_magic
        then if head.ver == rpc_version_1 then ok head else err version
        else err io
      else panic

  -- `RespHead::decode_head`
  unfoldable pub resp_decode_head : List ℕ → Result RpcIntErr RespHead
  resp_decode_head bs =
      let head = resp_head_of_bytes bs in
      if length bs == rpc_resp_header_len
      then if head.magic == rpc_magic
        then if head.ver == rpc_version_1 then ok head else err version
        else err io
      else panic
