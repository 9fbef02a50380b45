-- ===== src/Tests/Protocol.antt =====
-- stream/src/proto.rs on concrete tasks.
use razor_rpc.Prelude.{
  ℕ, zero, suc, ap, ◌^◌, ◌≡◌, ◌≤◌, refl, List, [], ◌∷◌, ◌++◌, none, some, ok, length, arith,
}
use razor_rpc.Prelude.Int.{negsuc}
use razor_rpc.Layout.{little_endian}
use razor_rpc.Error.{io, version, num, as_bytes}
use razor_rpc.Error
use razor_rpc.Proto.{
  get_action, rpc_magic, rpc_version_1, req_head_bytes, req_decode_head, resp_head_bytes,
  resp_decode_head, ReqHead, RespHead,
}
use razor_rpc.Proto
use razor_rpc.Proto.Heads.{IsReqHead, IsRespHead}
use razor_rpc.Proto.Request.Laws.{request_head, action_field, action_read, get_action-field}
use razor_rpc.Proto.Response
use razor_rpc.Proto.Response.Laws.{response_head, error_head, encode_long_blob}
use razor_rpc.Task.{ServerTaskEncode, RespParts}
use razor_rpc.Tests.Sample.{Sample, zeros}

abbrev head : ReqHead
head = request_head 4 3 5 2 1

head-IsReqHead : IsReqHead head
head-IsReqHead = omega arith

abbrev answer_head : RespHead
answer_head = response_head 0 5 2 1

answer_head-IsRespHead : IsRespHead answer_head
answer_head-IsRespHead = omega arith

-- The action -1.
get_action-field_example :
    get_action (request_head 4 (action_field (Proto.num (negsuc 0))) 5 2 1)
    ≡ action_read (Proto.num (negsuc 0))
get_action-field_example =
    get_action-field (request_head 4 (action_field (Proto.num (negsuc 0))) 5 2 1)
      (Proto.num (negsuc 0)) (omega arith) refl

-- A long list, never written out.
replicate : ℕ → List ℕ
replicate zero = []
replicate (suc n) = 0 ∷ replicate n

length-replicate : (n : ℕ) → length (replicate n) ≡ n
unfolding replicate
length-replicate zero = refl
length-replicate (suc n) = ap suc (length-replicate n)

long : (n : ℕ) → 2 ^ 31 ≤ n → 2 ^ 31 ≤ length (replicate n)
long n h = omega (arith, length-replicate n)

-- A task with a blob of 2^31 bytes.
abbrev large : Sample
large = record {
  number = 5;
  msg = 7 ∷ 8 ∷ [];
  blob = some (replicate (2 ^ 31));
  error = none;
  answer = [];
}

abbrev encode_large : Unit {0} → List ℕ → RespParts
encode_large u out = record {
  seq = 5;
  buf = out ++ (1 ∷ 2 ∷ []);
  res = ok (record { msg_len = 2; blob = some (replicate (2 ^ 31)) });
}

abbrev answering_large : ServerTaskEncode (Unit {0})
answering_large = record { encode_resp = encode_large }

encode_long_blob_example :
    Response.encode little_endian answering_large (zeros 20) tt
    ≡ ok (record {
      seq = 5;
      buf =
          resp_head_bytes little_endian (error_head 5 (Error.rpc Error.encode))
          ++ (1 ∷ 2 ∷ [])
          ++ as_bytes Error.encode;
      blob = none;
    })
encode_long_blob_example =
    encode_long_blob little_endian answering_large (zeros 20) tt 5 (1 ∷ 2 ∷ []) (replicate (2 ^ 31))
      refl refl (omega arith) (long (2 ^ 31) (omega arith))
