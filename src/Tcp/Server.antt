-- ===== src/Tcp/Server.antt =====
-- transport/tcp/src/server.rs: reading a request and writing a response.
pub mod ReadLaws
use razor_rpc.Prelude.{
  ℕ, Bool, true, false, List, [], Option, none, some, Result, ok, err, panic, ◌>>=◌, ltb,
  if◌then◌else◌,
}
use razor_rpc.Prelude.Int.{ℤ, as_i32, as_usize, is_pos}
use razor_rpc.Prelude.Text.{is_utf8}
use razor_rpc.Layout.{ByteOrder}
use razor_rpc.Error.{RpcIntErr, io, timeout, decode}
use razor_rpc.Proto.{RpcAction, str, num, ReqHead, get_action, req_decode_head, rpc_req_header_len}
use razor_rpc.Proto.Response.{Response}
use razor_rpc.Proto.Response
use razor_rpc.Task.{ServerTaskEncode}
use razor_rpc.Tcp.Stream.{Read, read_exact, Writer, write_blob}

-- `RpcSvrReq`
pub record RpcSvrReq : Type 0 where
  pub seq : ℕ
  pub action : RpcAction
  pub msg : List ℕ
  pub blob : Option (List ℕ)

pub record Received : Type 0 where
  pub req : RpcSvrReq
  pub rest : List ℕ

-- The action, and the stream behind its string.
pub record ActionRead : Type 0 where
  pub action : RpcAction
  pub rest : List ℕ

pub record BlobRead : Type 0 where
  pub blob : Option (List ℕ)
  pub rest : List ℕ

unfoldable pub read_action : Result ℤ ℤ → List ℕ → Result RpcIntErr ActionRead
read_action (ok n) s = ok (record { action = num n; rest = s })
read_action (err len) s = do
  r ← read_exact io (as_usize len) s
  if is_utf8 r.got then ok (record { action = str r.got; rest = r.rest }) else err decode
read_action panic s = panic

unfoldable pub read_msg : ℕ → List ℕ → Result RpcIntErr Read
read_msg len s = if ltb 0 len then read_exact io len s else ok (record { got = []; rest = s })

-- An error of `decode_head` is reported as `Decode`.
unfoldable pub head_or_decode : Result RpcIntErr ReqHead → Result RpcIntErr ReqHead
head_or_decode (ok head) = ok head
head_or_decode (err e) = err decode
head_or_decode panic = panic

-- `alloc n` says whether `Buffer::alloc(n)` of the package io_buffer succeeds; `cancelled`, whether
-- the server's close or the idle timeout comes before the header.
module _ (z : ByteOrder) (alloc : ℤ → Bool) where
  unfoldable pub read_blob : ℤ → List ℕ → Result RpcIntErr BlobRead
  read_blob len s =
      if is_pos len
      then if alloc len
        then (do
          r ← read_exact io (as_usize len) s
          ok (record { blob = some r.got; rest = r.rest }))
        else err decode
      else ok (record { blob = none; rest = s })

  unfoldable pub read_req : Bool → List ℕ → Result RpcIntErr Received
  read_req true s = err timeout
  read_req false s = do
    h ← read_exact io rpc_req_header_len s
    head ← head_or_decode (req_decode_head z h.got)
    a ← read_action (get_action head) h.rest
    m ← read_msg head.msg_len a.rest
    b ← read_blob (as_i32 head.blob_len) m.rest
    ok (record {
      req = record { seq = head.seq; action = a.action; msg = m.got; blob = b.blob };
      rest = b.rest;
    })

module _ (z : ByteOrder) {W : Type 0} (w : Writer W) where
  unfoldable pub write_resp :
      {T : Type 0} → ServerTaskEncode T → W → List ℕ → T → Result (Unit {0}) W
  write_resp c s room task = do
    r ← Response.encode z c room task
    s1 ← w.write_all s r.buf
    write_blob w s1 r.blob

  unfoldable pub write_resp_internal : W → List ℕ → ℕ → Option RpcIntErr → Result (Unit {0}) W
  write_resp_internal s room seq e = do
    out ← Response.encode_internal z room seq e
    w.write_all s out
