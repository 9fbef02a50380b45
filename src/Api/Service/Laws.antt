-- ===== src/Api/Service/Laws.antt =====
-- src/server/service.rs and macros/src/service.rs: which method answers a request, and how.
use razor_rpc.Prelude.{
  ℕ, ◌≡◌, ◌≢◌, ◌∙◌, refl, sym, ap, List, [], ◌∷◌, ◌++◌, ok, some, All, arith, bytes_eq,
  bytes_eq_sound, Bool-cases, inl, inr, false, bytes_eq_refl,
}
use razor_rpc.Proto.{str}
use razor_rpc.Tcp.Server.{RpcSvrReq}
use razor_rpc.Api.Server.{ApiServerReq}
use razor_rpc.Api.Server.Answers.{dispatch_req-action}
use razor_rpc.Api.Service.{
  ServiceStatic, Method, answered, handle_arg, handle, serve_methods, service, serve_fields,
  service_mux_struct, ServiceMuxDyn, new, add, mux_serve, mux_service, inline_dispatch,
}

-- The services that were added to a new mux, the newest first.
abbrev pub added : List ServiceStatic → ServiceMuxDyn
added [] = new
added (s ∷ ss) = add (added ss) s

-- A `ServiceMuxDyn` answers every request as the struct of `#[service_mux_struct]` does that has the
-- services as its fields, the last one added first.
pub mux_serve-added :
    (ss : List ServiceStatic) (req : ApiServerReq)
    → mux_serve (added ss) req ≡ (service_mux_struct ss).serve req
unfolding mux_serve new add serve_fields service_mux_struct
mux_serve-added [] req = refl
mux_serve-added (s ∷ ss) req = ground (arith, mux_serve-added ss req)

differ : (xs ys : List ℕ) → xs ≢ ys → bytes_eq xs ys ≡ false
differ xs ys h = elim (Bool-cases (bytes_eq xs ys)) [
  | inl e ↦ ground (arith, h, bytes_eq_sound xs ys e)
  | inr e ↦ e
]

serve_fields-append :
    (newer older : List ServiceStatic) (s : ServiceStatic) (req : ApiServerReq)
    → All (λ x. x.service_name ≢ s.service_name) newer
    → s.service_name ≡ req.service
    → serve_fields (newer ++ (s ∷ older)) req ≡ s.serve req
unfolding serve_fields
serve_fields-append [] older s req h e =
    ground (arith, ap (bytes_eq s.service_name) (sym e) ∙ bytes_eq_refl s.service_name)
serve_fields-append (x ∷ xs) older s req h e =
    let other = ap (bytes_eq x.service_name) (sym e) ∙ differ x.service_name s.service_name h.0 in
    ground (arith, other, serve_fields-append xs older s req h.1 e)

serve_methods-append :
    (before after : List Method) (m : Method) (req : ApiServerReq)
    → All (λ x. x.method_name ≢ m.method_name) before
    → m.method_name ≡ req.method
    → serve_methods (before ++ (m ∷ after)) req ≡ handle m req
unfolding serve_methods
serve_methods-append [] after m req h e =
    ground (arith, ap (bytes_eq m.method_name) (sym e) ∙ bytes_eq_refl m.method_name)
serve_methods-append (x ∷ xs) after m req h e =
    let other = ap (bytes_eq x.method_name) (sym e) ∙ differ x.method_name m.method_name h.0 in
    ground (arith, other, serve_methods-append xs after m req h.1 e)

serve_methods-mux :
    (older newer : List ServiceStatic) (name : List ℕ) (before after : List Method) (m : Method)
    (q : ApiServerReq)
    → All (λ s. s.service_name ≢ name) newer
    → All (λ k. k.method_name ≢ m.method_name) before
    → name ≡ q.service
    → m.method_name ≡ q.method
    → mux_serve (added (newer ++ (service name (before ++ (m ∷ after)) ∷ older))) q ≡ handle m q
unfolding service service_mux_struct
serve_methods-mux older newer name before after m q hs hm es em =
    let s = service name (before ++ (m ∷ after)) in
    mux_serve-added (newer ++ (s ∷ older)) q
    ∙ serve_fields-append newer older s q hs es
    ∙ serve_methods-append before after m q hm em

-- A request with the action "Service.method", the service having no dot, is answered by that method
-- of the service of that name which was added last, through the dispatcher and the mux: if its message is
-- decoded, the answer is what the code of `#[service]` makes of the method's result, under the number of the
-- request. Of methods of one name the first counts.
pub inline_dispatch-served :
    (older newer : List ServiceStatic) (name : List ℕ) (before after : List Method) (m : Method)
    (r : RpcSvrReq) (arg : m.Arg)
    → All (λ x. x ≢ 46) name
    → All (λ s. s.service_name ≢ name) newer
    → All (λ k. k.method_name ≢ m.method_name) before
    → r.action ≡ str (name ++ (46 ∷ m.method_name))
    → m.arg_codec.decode r.msg ≡ ok arg
    → let mux = added (newer ++ (service name (before ++ (m ∷ after)) ∷ older)) in
      let q : ApiServerReq = record {
        seq = r.seq;
        service = name;
        method = m.method_name;
        req = some r.msg;
      } in
      inline_dispatch (mux_service mux) r ≡ answered m q (m.call arg)
unfolding inline_dispatch mux_service handle handle_arg
inline_dispatch-served older newer name before after m r arg hd hs hm ea ed =
    let q : ApiServerReq = record {
      seq = r.seq;
      service = name;
      method = m.method_name;
      req = some r.msg;
    } in
    let dispatched = dispatch_req-action name m.method_name r hd ea in
    let served = serve_methods-mux older newer name before after m q hs hm refl refl in
    ground (arith, dispatched, served, ed)
