-- ===== src/Proto/Heads.antt =====
-- stream/src/proto.rs: what `decode_head` reads of what `_write_head` wrote.
use razor_rpc.Prelude.{◌^◌, ◌<◌, ◌≡◌, ok, err, length, length-append, if◌then◌else◌, ◌==◌}
use razor_rpc.Prelude.Int.{as_u32, IsI32, as_u32-lt, as_i32-as_u32}
use razor_rpc.Layout.{ByteOrder, take-encode, drop-encode}
use razor_rpc.Error.{io, version}
use razor_rpc.Proto.{
  ReqHead, RespHead, req_head_bytes, req_head_of_bytes, resp_head_bytes, resp_head_of_bytes,
  req_decode_head, resp_decode_head, rpc_magic, rpc_version_1,
}

-- Each field fits its width.
pub record IsReqHead (h : ReqHead) : Type 0 where
  pub magic : h.magic < 2 ^ 16
  pub ver : h.ver < 2 ^ 8
  pub format : h.format < 2 ^ 8
  pub action : h.action < 2 ^ 32
  pub seq : h.seq < 2 ^ 64
  pub client_id : h.client_id < 2 ^ 64
  pub msg_len : h.msg_len < 2 ^ 32
  pub blob_len : h.blob_len < 2 ^ 32

pub record IsRespHead (h : RespHead) : Type 0 where
  pub magic : h.magic < 2 ^ 16
  pub ver : h.ver < 2 ^ 8
  pub flag : h.flag < 2 ^ 8
  pub msg_len : h.msg_len < 2 ^ 32
  pub seq : h.seq < 2 ^ 64
  pub blob_len : IsI32 h.blob_len

module _ (z : ByteOrder) where
  pub length-req_head_bytes : (h : ReqHead) → length (req_head_bytes z h) ≡ 32
  unfolding req_head_bytes
  length-req_head_bytes h = simp (length-append, z.length-encode)

  pub length-resp_head_bytes : (h : RespHead) → length (resp_head_bytes z h) ≡ 20
  unfolding resp_head_bytes
  length-resp_head_bytes h = simp (length-append, z.length-encode)

  req_head_of_bytes-bytes :
      (h : ReqHead) → IsReqHead h → req_head_of_bytes z (req_head_bytes z h) ≡ h
  unfolding req_head_bytes req_head_of_bytes
  req_head_of_bytes-bytes h v = simp (
    take-encode z,
    drop-encode z,
    z.decode-encode 2 h.magic v.magic,
    z.decode-encode 1 h.ver v.ver,
    z.decode-encode 1 h.format v.format,
    z.decode-encode 4 h.action v.action,
    z.decode-encode 8 h.seq v.seq,
    z.decode-encode 8 h.client_id v.client_id,
    z.decode-encode 4 h.msg_len v.msg_len,
    z.decode-encode 4 h.blob_len v.blob_len,
  )

  resp_head_of_bytes-bytes :
      (h : RespHead) → IsRespHead h → resp_head_of_bytes z (resp_head_bytes z h) ≡ h
  unfolding resp_head_bytes resp_head_of_bytes
  resp_head_of_bytes-bytes h v = simp (
    take-encode z,
    drop-encode z,
    z.decode-encode 2 h.magic v.magic,
    z.decode-encode 1 h.ver v.ver,
    z.decode-encode 1 h.flag v.flag,
    z.decode-encode 4 h.msg_len v.msg_len,
    z.decode-encode 8 h.seq v.seq,
    z.decode-encode 4 (as_u32 h.blob_len) (as_u32-lt h.blob_len),
    as_i32-as_u32 h.blob_len v.blob_len,
  )

  -- `decode_head` on the bytes of a header whose fields fit: the header itself if magic and version
  -- are the protocol's, `io` on another magic, and otherwise `version`.
  pub req_decode_head-bytes :
      (h : ReqHead)
      → IsReqHead h
      → req_decode_head z (req_head_bytes z h) ≡ (
          if h.magic == rpc_magic
          then if h.ver == rpc_version_1 then ok h else err version
          else err io)
  unfolding req_decode_head
  req_decode_head-bytes h v = simp (length-req_head_bytes h, req_head_of_bytes-bytes h v)

  -- `decode_head` on the bytes of a response's header whose fields fit: the header itself if magic and
  -- version are the protocol's, `io` on another magic, and otherwise `version`.
  pub resp_decode_head-bytes :
      (h : RespHead)
      → IsRespHead h
      → resp_decode_head z (resp_head_bytes z h) ≡ (
          if h.magic == rpc_magic
          then if h.ver == rpc_version_1 then ok h else err version
          else err io)
  unfolding resp_decode_head
  resp_decode_head-bytes h v = simp (length-resp_head_bytes h, resp_head_of_bytes-bytes h v)
