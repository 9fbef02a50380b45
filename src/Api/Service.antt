-- ===== src/Api/Service.antt =====
-- src/server/service.rs, macros/src/service.rs, macros/src/service_mux_struct.rs and `Inline` of
-- src/server/dispatch.rs: the services of an API. A service gives for a request the answer that it
-- hands to `noti.done`, or panics; the methods of the user's object are parameters.
pub mod Laws
pub mod Numbers
use razor_rpc.Prelude.{
  ℕ, Bool, true, false, List, [], ◌∷◌, Option, none, some, Result, ok, err, panic, ◌>>=◌, bytes_eq,
  if◌then◌else◌,
}
use razor_rpc.Error.{RpcIntErr, RpcError}
use razor_rpc.Error
use razor_rpc.Error.Codec.{RpcErrCodec}
use razor_rpc.Codec.{Codec}
use razor_rpc.Tcp.Server.{RpcSvrReq}
use razor_rpc.Api.Server.{
  ApiServerReq, ApiServerResp, set_result, set_rpc_error, set_error, dispatch_req,
}

abbrev pub Serve : Type 0
Serve = ApiServerReq → Result (Unit {0}) ApiServerResp

-- `ServiceStatic`, and `ServiceDyn`, which calls it.
pub record ServiceStatic : Type 0 where
  pub service_name : List ℕ
  pub serve : Serve

-- A method of an `impl Trait for Struct` under `#[service]`.
pub record Method : Type 1 where
  pub Arg : Type 0
  pub Resp : Type 0
  pub Err : Type 0
  pub method_name : List ℕ
  pub arg_codec : Codec Arg
  pub resp_codec : Codec Resp
  pub err_codec : RpcErrCodec Err
  pub call : Arg → Result (RpcError Err) Resp

-- What is done with the result of a method.
unfoldable pub answered :
    (m : Method) → ApiServerReq → Result (RpcError m.Err) m.Resp → Result (Unit {0}) ApiServerResp
answered m req (ok resp) = ok (set_result req (m.resp_codec.encode resp))
answered m req (err e) = ok (set_error m.err_codec req e)
answered m req panic = panic

unfoldable pub handle_arg :
    (m : Method) → ApiServerReq → Result (Unit {0}) m.Arg → Result (Unit {0}) ApiServerResp
handle_arg m req (ok arg) = answered m req (m.call arg)
handle_arg m req (err u) = ok (set_rpc_error req Error.decode)
handle_arg m req panic = panic

-- The generated `__handle_..`.
unfoldable pub handle : Method → Serve
handle m req = elim req.req [ none ↦ panic | some buf ↦ handle_arg m req (m.arg_codec.decode buf) ]

-- The generated match of `serve`: the first method of the name.
unfoldable pub serve_methods : List Method → Serve
serve_methods [] req = ok (set_rpc_error req Error.method)
serve_methods (m ∷ ms) req =
    let later = serve_methods ms req in
    if bytes_eq m.method_name req.method then handle m req else later

-- `#[service]`, by the name of the trait.
unfoldable pub service : List ℕ → List Method → ServiceStatic
service name ms = record { service_name = name; serve = serve_methods ms }

-- `#[service_mux_struct]`: the first field whose service has the name.
unfoldable pub serve_fields : List ServiceStatic → Serve
serve_fields [] req = ok (set_rpc_error req Error.service)
serve_fields (s ∷ ss) req =
    let later = serve_fields ss req in
    if bytes_eq s.service_name req.service then s.serve req else later

unfoldable pub service_mux_struct : List ServiceStatic → ServiceStatic
service_mux_struct fields = record { service_name = []; serve = serve_fields fields }

-- `ServiceMuxDyn`; its map by names.
pub record ServiceMuxDyn : Type 0 where
  pub services : List ℕ → Option ServiceStatic

unfoldable pub new : ServiceMuxDyn
new = record { services = λ name. none }

unfoldable pub add : ServiceMuxDyn → ServiceStatic → ServiceMuxDyn
add mux s = record {
  services = λ name. if bytes_eq s.service_name name then some s else mux.services name;
}

unfoldable pub mux_serve : ServiceMuxDyn → Serve
mux_serve mux req = elim (mux.services req.service) [
  | some s ↦ s.serve req
  | none ↦ ok (set_rpc_error req Error.service)
]

unfoldable pub mux_service : ServiceMuxDyn → ServiceStatic
mux_service mux = record { service_name = []; serve = mux_serve mux }

-- `APIDispatch::dispatch_req` over `Inline::dispatch`: the answer, if there is one.
unfoldable pub inline_dispatch : ServiceStatic → RpcSvrReq → Result (Unit {0}) ApiServerResp
inline_dispatch s r = dispatch_req r >>= s.serve
