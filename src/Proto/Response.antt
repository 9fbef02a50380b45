-- ===== src/Proto/Response.antt =====
-- stream/src/proto.rs: `RespHead::encode`, `encode_internal` and `_encode_error`.
pub mod Laws
use razor_rpc.Prelude.{
  ℕ, ◌%◌, ◌^◌, List, ◌++◌, Option, none, some, Result, ok, err, panic, ◌>>=◌, ltb, length,
  if◌then◌else◌,
}
use razor_rpc.Prelude.Int.{pos, as_i32}
use razor_rpc.Layout.{ByteOrder}
use razor_rpc.Error.{RpcIntErr, EncodedErr, num, static, buf, as_bytes}
use razor_rpc.Error
use razor_rpc.Task.{ServerTaskEncode, RespBody}
use razor_rpc.Proto.{resp_write_head, resp_flag_has_errno, resp_flag_has_err_string}

pub record Response : Type 0 where
  pub seq : ℕ
  pub buf : List ℕ
  pub blob : Option (List ℕ)

module _ (z : ByteOrder) where
  -- The macro `write_err!`.
  write_err : List ℕ → ℕ → List ℕ → Result (Unit {0}) (List ℕ)
  write_err out seq s =
      resp_write_head z out resp_flag_has_err_string seq 0 (as_i32 (length s)) >>= λ head.
      ok (head ++ s)

  -- `_encode_error`: the error's text goes to the end of the buffer.
  unfoldable pub encode_error : List ℕ → ℕ → EncodedErr → Result (Unit {0}) (List ℕ)
  unfolding write_err
  encode_error out seq (num n) = resp_write_head z out resp_flag_has_errno seq n (pos 0)
  encode_error out seq (Error.rpc e) = write_err out seq (as_bytes e)
  encode_error out seq (buf s) = write_err out seq s
  encode_error out seq (static s) = write_err out seq s

  -- `encode_internal`: an error, or the answer to a ping.
  unfoldable pub encode_internal : List ℕ → ℕ → Option RpcIntErr → Result (Unit {0}) (List ℕ)
  encode_internal room seq (some e) = encode_error room seq (Error.rpc e)
  encode_internal room seq none = resp_write_head z room 0 seq 0 (pos 0)

  reply_error : List ℕ → ℕ → EncodedErr → Result (Unit {0}) Response
  reply_error out seq e =
      encode_error out seq e >>= λ sent. ok (record { seq = seq; buf = sent; blob = none })

  reply_ok : List ℕ → ℕ → ℕ → Option (List ℕ) → ℕ → Result (Unit {0}) Response
  reply_ok out seq msg_len blob blob_len =
      resp_write_head z out 0 seq (msg_len % 2 ^ 32) (as_i32 blob_len) >>= λ sent.
      ok (record { seq = seq; buf = sent; blob = blob })

  reply : List ℕ → ℕ → Result EncodedErr RespBody → Result (Unit {0}) Response
  unfolding reply_error reply_ok
  reply out seq (ok r) = elim r.blob [
    | none ↦
        if ltb 0xffff_ffff r.msg_len
        then reply_error out seq (Error.rpc Error.encode)
        else reply_ok out seq r.msg_len none 0
    | some blob ↦
        if ltb 0xffff_ffff r.msg_len
        then reply_error out seq (Error.rpc Error.encode)
        else if ltb 0x7fff_ffff (length blob)
        then reply_error out seq (Error.rpc Error.encode)
        else reply_ok out seq r.msg_len (some blob) (length blob)
  ]
  reply out seq (err e) = reply_error out seq e
  reply out seq panic = panic

  unfoldable pub encode :
      {T : Type 0} → ServerTaskEncode T → List ℕ → T → Result (Unit {0}) Response
  unfolding reply
  encode c room task = let parts = c.encode_resp task room in reply parts.buf parts.seq parts.res
