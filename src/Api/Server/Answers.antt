-- ===== src/Api/Server/Answers.antt =====
-- src/server: the request that an action reaches, and the way of an answer to the client's caller.
use razor_rpc.Prelude.{
  ℕ, ◌≡◌, ◌≢◌, ◌∙◌, refl, List, [], ◌∷◌, ◌++◌, some, Result, ok, err, All, arith, inl,
}
use razor_rpc.Error.{EncodedErr, num, user}
use razor_rpc.Error.Codec.{RpcErrCodec}
use razor_rpc.Proto.{str}
use razor_rpc.Tcp.Server.{RpcSvrReq}
use razor_rpc.Tcp.Client.ErrorLaws.{error_set}
use razor_rpc.Api.{ApiClientReq, api_task, process_res}
use razor_rpc.Api.Errors.{process_res-error_set, received}
use razor_rpc.Api.{user_error}
use razor_rpc.Api.Server.{ApiServerReq, split_once, dispatch_req, set_error}

split_once-append :
    (sep : ℕ) (xs ys : List ℕ)
    → All (λ x. x ≢ sep) xs
    → split_once sep (xs ++ (sep ∷ ys)) ≡ some (xs, ys)
unfolding split_once
split_once-append sep [] ys h = ground arith
split_once-append sep (x ∷ xs) ys h = ground (arith, split_once-append sep xs ys h.1, h.0)

-- An action of the form "Service.method", the service having no dot, reaches that service and that
-- method with its number and its message; the method may have dots.
pub dispatch_req-action :
    (service method : List ℕ) (r : RpcSvrReq)
    → All (λ x. x ≢ 46) service
    → r.action ≡ str (service ++ (46 ∷ method))
    → dispatch_req r
      ≡ ok (record { seq = r.seq; service = service; method = method; req = some r.msg })
unfolding dispatch_req
dispatch_req-action service method r h e =
    rw e (ground (arith, split_once-append 46 service method h))

module _ {E R : Type 0} (codec : RpcErrCodec E) (decode_msg : List ℕ → Result (Unit {0}) R)
    (default : R) where
  decoded :
      (e : E) (n : ℕ)
      → codec.decode (inl n) ≡ ok e
      → received codec decode_msg default (num n) ≡ err (user e)
  unfolding user_error
  decoded e n k = ground (arith, k)

  -- An error of the service that its codec sends as a number, and reads back from it, is the error
  -- that the caller gets, once the error of the answer has reached the client's task.
  process_res-set_error :
      (r : ApiServerReq) (t : ApiClientReq) (e : E) (n : ℕ)
      → codec.encode e ≡ num n
      → codec.decode (inl n) ≡ ok e
      → (x : EncodedErr) × ((set_error codec r (user e)).res ≡ some (err x))
        × ((process_res codec decode_msg default (error_set api_task t x)).1 ≡ err (user e))
  unfolding set_error
  process_res-set_error r t e n h k = (
    codec.encode e,
    refl,
    rw h (process_res-error_set codec decode_msg default t (num n) ∙ decoded e n k),
  )
