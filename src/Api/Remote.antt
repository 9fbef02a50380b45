-- ===== src/Api/Remote.antt =====
-- src/client and src/server: what an answer of a service becomes at the caller.
use razor_rpc.Prelude.{
  ℕ, ◌≡◌, ◌≢◌, ◌∙◌, List, [], ◌∷◌, Option, none, some, Result, ok, err, panic, inl, inr, ltb,
  if◌then◌else◌, arith,
}
use razor_rpc.Error.{RpcIntErr, EncodedErr, num, buf, static, RpcError, user, from_str, as_bytes}
use razor_rpc.Error
use razor_rpc.Error.Codec.{RpcErrCodec}
use razor_rpc.Task.{RespParts}
use razor_rpc.Tcp.Client.ErrorLaws.{error_set}
use razor_rpc.Api.{ApiClientReq, api_task, process_res, process, user_error}
use razor_rpc.Api.Errors.{process_res-error_set}
use razor_rpc.Api.Calls.{received_task}
use razor_rpc.Api.Server.{ApiServerReq, ApiServerResp, api_resp, set_result, set_error}
use razor_rpc.Api.Service.{Method, answered}

-- What a task becomes by an answer to it: it gets the message of the answer, or its error. Api/Wire shows
-- that the answer's bytes do this. A refused request is answered with a decode error; a panic gives no answer.
abbrev pub delivered : ApiClientReq → RespParts → Option ApiClientReq
delivered t parts = elim parts.res [
  | ok body ↦
      some (
        api_task.set_ok (if ltb 0 body.msg_len then (api_task.decode_resp t parts.buf).task else t))
  | err e ↦ some (error_set api_task t e)
  | panic ↦ none
]

abbrev pub exchange_answer : ApiClientReq → Result (Unit {0}) ApiServerResp → Option ApiClientReq
exchange_answer t (ok a) = delivered t (api_resp.encode_resp a [])
exchange_answer t (err u) = some (error_set api_task t (Error.rpc Error.decode))
exchange_answer t panic = none

-- An error that its codec's `decode` has back in the form in which it arrives.
abbrev ComesBack : {E : Type 0} → RpcErrCodec E → E → EncodedErr → Type 0
ComesBack codec e (num n) = codec.decode (inl n) ≡ ok e
ComesBack codec e (static s) = (from_str s ≡ err tt) × (codec.decode (inr s) ≡ ok e)
ComesBack codec e (buf s) = (from_str s ≡ err tt) × (codec.decode (inr s) ≡ ok e)
ComesBack codec e (Error.rpc i) = ⊥

-- The codecs of a method read back what they write, and write no message as nothing.
pub record IsFaithful (m : Method) : Type 0 where
  pub args : (a : m.Arg) (bs : List ℕ) → m.arg_codec.encode a ≡ ok bs → m.arg_codec.decode bs ≡ ok a
  pub resps :
      (p : m.Resp)
      → (b : ℕ) × (bs : List ℕ) × (m.resp_codec.encode p ≡ ok (b ∷ bs))
        × (m.resp_codec.decode (b ∷ bs) ≡ ok p)
  pub errs : (e : m.Err) → ComesBack m.err_codec e (m.err_codec.encode e)

module _ (m : Method) (default : m.Resp) (f : IsFaithful m) where
  abbrev got : Option ApiClientReq → Result (RpcError m.Err) m.Resp
  got o = received_task m.resp_codec default m.err_codec o

  got_user :
      (t : ApiClientReq) (e : m.Err) (x : EncodedErr)
      → ComesBack m.err_codec e x
      → got (some (error_set api_task t x)) ≡ err (user e)
  unfolding received_task user_error
  got_user t e (num n) h =
      process_res-error_set m.err_codec m.resp_codec.decode default t (num n) ∙ ground (arith, h)
  got_user t e (static s) h =
      process_res-error_set m.err_codec m.resp_codec.decode default t (static s) ∙ ground (arith, h)
  got_user t e (buf s) h =
      process_res-error_set m.err_codec m.resp_codec.decode default t (buf s) ∙ ground (arith, h)
  got_user t e (Error.rpc i) h = elim h [ ]

  got_rpc :
      (t : ApiClientReq) (i : RpcIntErr)
      → got (some (error_set api_task t (Error.rpc i))) ≡ err (RpcError.rpc i)
  unfolding received_task
  got_rpc t i = process_res-error_set m.err_codec m.resp_codec.decode default t (Error.rpc i)

  -- What the answer to a result of the method becomes at the caller.
  pub got_answer :
      (t : ApiClientReq) (q : ApiServerReq) (r : Result (RpcError m.Err) m.Resp)
      → r ≢ panic
      → got (exchange_answer t (answered m q r)) ≡ r
  unfolding answered set_result set_error api_resp
  got_answer t q (ok p) h =
      let (b, bs, e, d) = f.resps p in
      unfold received_task process_res process api_task in ground (arith, e, d)
  got_answer t q (err (RpcError.rpc i)) h = got_rpc t i
  got_answer t q (err (user e)) h = got_user t e (m.err_codec.encode e) (f.errs e)
  got_answer t q panic h = ground (arith, h)
