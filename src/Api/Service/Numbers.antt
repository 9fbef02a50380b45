-- ===== src/Api/Service/Numbers.antt =====
-- src/server/service.rs and macros/src/service.rs: the number of every answer.
use razor_rpc.Prelude.{
  ℕ, ◌≡◌, refl, sym, subst, arith, ◌⊎◌, inl, inr, List, [], ◌∷◌, Result, ok, err, panic, some, none,
  Bool, true, false, bytes_eq, if◌then◌else◌, Option,
}
use razor_rpc.Error.{RpcError, user}
use razor_rpc.Proto.{RpcAction, str, num}
use razor_rpc.Tcp.Server.{RpcSvrReq}
use razor_rpc.Api.Server.{
  ApiServerReq, ApiServerResp, set_result, set_rpc_error, set_error, dispatch_req, split_once,
}
use razor_rpc.Api.Service.{
  ServiceStatic, Method, answered, handle_arg, handle, serve_methods, service, serve_fields,
  service_mux_struct, mux_service, mux_serve, inline_dispatch,
}
use razor_rpc.Api.Service.Laws.{added, mux_serve-added}

set_result-seq : (q : ApiServerReq) (x : Result (Unit {0}) (List ℕ)) → (set_result q x).seq ≡ q.seq
unfolding set_result
set_result-seq q (ok m) = refl
set_result-seq q (err u) = refl
set_result-seq q panic = refl

-- If there is an answer, it has this number.
abbrev pub Numbered : ℕ → Result (Unit {0}) ApiServerResp → Type 0
Numbered n (ok a) = a.seq ≡ n
Numbered n (err u) = Unit
Numbered n panic = Unit

answered-Numbered :
    (m : Method) (q : ApiServerReq) (x : Result (RpcError m.Err) m.Resp)
    → Numbered q.seq (answered m q x)
unfolding answered set_error
answered-Numbered m q (ok resp) = set_result-seq q (m.resp_codec.encode resp)
answered-Numbered m q (err (RpcError.rpc e)) = refl
answered-Numbered m q (err (user e)) = refl
answered-Numbered m q panic = tt

handle_arg-Numbered :
    (m : Method) (q : ApiServerReq) (x : Result (Unit {0}) m.Arg)
    → Numbered q.seq (handle_arg m q x)
unfolding handle_arg set_rpc_error
handle_arg-Numbered m q (ok arg) = answered-Numbered m q (m.call arg)
handle_arg-Numbered m q (err u) = refl
handle_arg-Numbered m q panic = tt

one_of :
    (n : ℕ) (c : Bool) (x y : Result (Unit {0}) ApiServerResp)
    → Numbered n x
    → Numbered n y
    → Numbered n (if c then x else y)
one_of n true x y h k = h
one_of n false x y h k = k

handle-Numbered :
    (m : Method) (q : ApiServerReq) (o : Option (List ℕ)) → q.req ≡ o → Numbered q.seq (handle m q)
unfolding handle
handle-Numbered m q none e =
    let refused : handle m q ≡ panic = ground (arith, e) in subst (Numbered q.seq) (sym refused) tt
handle-Numbered m q (some buf) e =
    let read : handle m q ≡ handle_arg m q (m.arg_codec.decode buf) = ground (arith, e) in
    subst (Numbered q.seq) (sym read) (handle_arg-Numbered m q (m.arg_codec.decode buf))

serve_methods-Numbered : (ms : List Method) (q : ApiServerReq) → Numbered q.seq (serve_methods ms q)
unfolding serve_methods set_rpc_error
serve_methods-Numbered [] q = refl
serve_methods-Numbered (m ∷ ms) q =
    one_of q.seq (bytes_eq m.method_name q.method) (handle m q) (serve_methods ms q)
      (handle-Numbered m q q.req refl) (serve_methods-Numbered ms q)

-- Services that `#[service]` makes, each of a name and methods.
abbrev pub services : List (List ℕ × List Method) → List ServiceStatic
services [] = []
services ((name, ms) ∷ rest) = service name ms ∷ services rest

serve_fields-Numbered :
    (ds : List (List ℕ × List Method)) (q : ApiServerReq)
    → Numbered q.seq (serve_fields (services ds) q)
unfolding serve_fields set_rpc_error service
serve_fields-Numbered [] q = refl
serve_fields-Numbered ((name, ms) ∷ ds) q =
    one_of q.seq (bytes_eq name q.service) (serve_methods ms q) (serve_fields (services ds) q)
      (serve_methods-Numbered ms q) (serve_fields-Numbered ds q)

mux_serve-Numbered :
    (ds : List (List ℕ × List Method)) (q : ApiServerReq)
    → Numbered q.seq (mux_serve (added (services ds)) q)
unfolding service_mux_struct
mux_serve-Numbered ds q = rw (mux_serve-added (services ds) q) (serve_fields-Numbered ds q)

-- What becomes of a request: it is refused, or dispatched under its number.
abbrev DispatchedAs : RpcSvrReq → Type 0
DispatchedAs r =
    (dispatch_req r ≡ err tt) ⊎ ((q : ApiServerReq) × (dispatch_req r ≡ ok q) × (q.seq ≡ r.seq))

dispatched-by :
    (r : RpcSvrReq) (o : Option (List ℕ × List ℕ)) (action : List ℕ)
    → r.action ≡ str action
    → split_once 46 action ≡ o
    → DispatchedAs r
unfolding dispatch_req
dispatched-by r none action e h = inl (ground (arith, e, h))
dispatched-by r (some p) action e h = inr (
  record { seq = r.seq; service = p.0; method = p.1; req = some r.msg },
  ground (arith, e, h),
  refl,
)

dispatched : (r : RpcSvrReq) (a : RpcAction) → r.action ≡ a → DispatchedAs r
unfolding dispatch_req
dispatched r (str action) e = dispatched-by r (split_once 46 action) action e refl
dispatched r (num n) e = inl (ground (arith, e))

-- Whatever services that `#[service]` makes are added to a mux, and whatever the request: an answer
-- that the dispatcher gives, a result or any error, has the number of the request.
inline_dispatch-Numbered :
    (ds : List (List ℕ × List Method)) (r : RpcSvrReq)
    → Numbered r.seq (inline_dispatch (mux_service (added (services ds))) r)
unfolding inline_dispatch mux_service
inline_dispatch-Numbered ds r =
    let mux = mux_service (added (services ds)) in
    elim (dispatched r r.action refl) [
      | inl e ↦
          let refused : inline_dispatch mux r ≡ err tt = ground (arith, e) in
          subst (Numbered r.seq) (sym refused) tt
      | inr (q, e, n) ↦
          let served : inline_dispatch mux r ≡ mux_serve (added (services ds)) q =
            ground (arith, e) in
          subst (Numbered r.seq) (sym served) (
            subst (λ k. Numbered k (mux_serve (added (services ds)) q)) n (mux_serve-Numbered ds q))
    ]
