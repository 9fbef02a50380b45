-- ===== src/Macros/Agree.antt =====
-- macros/src: what `#[endpoint_async]` accepts, and that its actions are those that `#[service]` serves.
use razor_rpc.Prelude.{
  ℕ, ◌≡◌, ◌≢◌, refl, sym, ap, ◌∙◌, true, List, [], ◌∷◌, map, Option, some, Result, ok, All, length,
  arith,
}
use razor_rpc.Proto.{str}
use razor_rpc.Tcp.Server.{RpcSvrReq}
use razor_rpc.Api.Server.{ApiServerReq, dispatch_req}
use razor_rpc.Api.Server.Answers.{dispatch_req-action}
use mathlib.Core.Option.{some-injective}
use razor_rpc.Macros.Syntax.{both_somes}
use razor_rpc.Macros.Signatures.{FnArg, Signature, check_return_type}
use razor_rpc.Macros.Endpoint.{
  Item, method_item, other_item, argument_name, service_method, expand_method, generate_trait_impl,
  is_some_type,
}
use razor_rpc.Macros.Endpoint
use razor_rpc.Macros.Service.{
  impl_block, Served, arg_type, serve_method, methods_data, expand_service,
}

abbrev pub signatures : List Item → List Signature
signatures [] = []
signatures (method_item sig ∷ items) = sig ∷ signatures items
signatures (other_item ∷ items) = signatures items

-- A signature with `self` and one argument, that returns a `Result` with an `RpcError`.
abbrev pub IsCallable : Signature → Type 0
IsCallable s = (length s.inputs ≡ 2) × (check_return_type s.output ≡ true)

two_inputs : (xs : List FnArg) (a : Option (List ℕ)) → argument_name xs ≡ some a → length xs ≡ 2
unfolding argument_name
two_inputs xs a h = ground (arith, h)

expand_method_lem :
    (t : List ℕ) (s : Signature) (m : Endpoint.Method)
    → expand_method t s ≡ some m
    → (m.service_method ≡ service_method t s.ident) × IsCallable s
unfolding expand_method
expand_method_lem t s m h =
    let (a, e, k) = both_somes (argument_name s.inputs) _ m h in
    (ground (arith, k), (two_inputs s.inputs a e, ground (arith, k)))

-- Every method of a trait that `#[endpoint_async]` accepts has `self` and one argument and returns a `Result`
-- with an `RpcError`, and the generated methods call the actions "Trait.method" of all of them, in order.
generate_trait_impl_lem :
    (t : List ℕ) (items : List Item) (ms : List Endpoint.Method)
    → generate_trait_impl t items ≡ some ms
    → (map (λ m. m.service_method) ms ≡ map (λ s. service_method t s.ident) (signatures items))
      × All IsCallable (signatures items)
unfolding generate_trait_impl
generate_trait_impl_lem t [] ms h =
    (ap (map (λ m. m.service_method)) (sym (some-injective [] ms h)), tt)
generate_trait_impl_lem t (method_item sig ∷ items) ms h =
    let (m, e, k) = both_somes (expand_method t sig) _ ms h in
    let (rest, d, l) = both_somes (generate_trait_impl t items) _ ms k in
    let (i, j) = expand_method_lem t sig m e in
    let (same, all) = generate_trait_impl_lem t items rest d in
    (
      ap (map (λ m. m.service_method)) (sym (some-injective (m ∷ rest) ms l))
          ∙ ground (arith, i, same),
      (j, all),
    )
generate_trait_impl_lem t (other_item ∷ items) ms h = generate_trait_impl_lem t items ms h

serve_method_lem : (s : Signature) (k : Served) → serve_method s ≡ some k → k.method_name ≡ s.ident
unfolding serve_method
serve_method_lem s k h = let (t, e, l) = both_somes (arg_type s.inputs) _ k h in ground (arith, l)

methods_data_lem :
    (items : List Item) (ks : List Served)
    → methods_data items ≡ some ks
    → map (λ k. k.method_name) ks ≡ map (λ s. s.ident) (signatures items)
unfolding methods_data
methods_data_lem [] ks h = ap (map (λ k. k.method_name)) (sym (some-injective [] ks h))
methods_data_lem (method_item sig ∷ items) ks h =
    let (k, e, l) = both_somes (serve_method sig) _ ks h in
    let (rest, d, n) = both_somes (methods_data items) _ ks l in
    ap (map (λ k. k.method_name)) (sym (some-injective (k ∷ rest) ks n))
    ∙ ground (arith, serve_method_lem sig k e, methods_data_lem items rest d)
methods_data_lem (other_item ∷ items) ks h = methods_data_lem items ks h

map-map_names {ℓ} :
    {A : Type ℓ} (t : List ℕ) (name : A → List ℕ) (xs : List A)
    → map (λ x. service_method t (name x)) xs ≡ map (service_method t) (map name xs)
map-map_names t name [] = refl
map-map_names t name (x ∷ xs) =
    ap (λ (r : List (List ℕ)). service_method t (name x) ∷ r) (map-map_names t name xs)

actions_lem :
    (t name : List ℕ) (items impl_items : List Item) (ms : List Endpoint.Method) (ks : List Served)
    → generate_trait_impl t items ≡ some ms
    → expand_service (impl_block (some t) impl_items) ≡ some (name, ks)
    → map (λ s. s.ident) (signatures items) ≡ map (λ s. s.ident) (signatures impl_items)
    → (name ≡ t)
      × (map (λ m. m.service_method) ms ≡ map (λ k. service_method name k.method_name) ks)
unfolding expand_service
actions_lem t name items impl_items ms ks g e h =
    let (rest, d, l) = both_somes (methods_data impl_items) _ (name, ks) e in
    let pair = some-injective (t, rest) (name, ks) l in
    let same_name : t ≡ name = ap (λ (p : List ℕ × List Served). p.0) pair in
    let same_methods : rest ≡ ks = ap (λ (p : List ℕ × List Served). p.1) pair in
    let names : map (λ k. k.method_name) ks ≡ map (λ s. s.ident) (signatures items) =
      ap (map (λ k. k.method_name)) (sym same_methods)
      ∙ methods_data_lem impl_items rest d
      ∙ sym h in
    let client = (generate_trait_impl_lem t items ms g).0 in
    (
      sym same_name,
      client
          ∙ map-map_names t (λ s. s.ident) (signatures items)
          ∙ ap (map (service_method t)) (sym names)
          ∙ sym (map-map_names t (λ k. k.method_name) ks)
          ∙ ap (λ n. map (λ k. service_method n k.method_name) ks) same_name,
    )

-- What the dispatcher makes of a request with an action.
abbrev pub dispatched : RpcSvrReq → List ℕ → Result (Unit {0}) ApiServerReq
dispatched r action = dispatch_req (record r { action = str action })

map-map_actions {ℓ} :
    {A : Type ℓ} (r : RpcSvrReq) (action : A → List ℕ) (xs : List A)
    → map (λ x. dispatched r (action x)) xs ≡ map (dispatched r) (map action xs)
map-map_actions r action [] = refl
map-map_actions r action (x ∷ xs) =
    ap (λ (l : List (Result (Unit {0}) ApiServerReq)). dispatched r (action x) ∷ l)
      (map-map_actions r action xs)

-- The request that reaches a method of a service.
abbrev pub request_to : RpcSvrReq → List ℕ → Served → Result (Unit {0}) ApiServerReq
request_to r name k =
    ok (record { seq = r.seq; service = name; method = k.method_name; req = some r.msg })

map-dispatched :
    (r : RpcSvrReq) (name : List ℕ) (ks : List Served)
    → All (λ x. x ≢ 46) name
    → map (λ k. dispatched r (service_method name k.method_name)) ks ≡ map (request_to r name) ks
unfolding service_method
map-dispatched r name [] h = refl
map-dispatched r name (k ∷ ks) h =
    let here =
      dispatch_req-action name k.method_name
        (record r { action = str (service_method name k.method_name) }) h refl in
    let rest = map-dispatched r name ks h in cc

-- If both macros accept a trait, whose name has no dot, and an `impl` of it, with the methods in one order:
-- the service has the trait's name, and a request with the action of a generated method of the client is
-- dispatched to this service and to the method of this name in it, for all methods, in order.
pub actions-agree :
    (t name : List ℕ) (items impl_items : List Item) (ms : List Endpoint.Method) (ks : List Served)
    (r : RpcSvrReq)
    → All (λ x. x ≢ 46) t
    → generate_trait_impl t items ≡ some ms
    → expand_service (impl_block (some t) impl_items) ≡ some (name, ks)
    → map (λ s. s.ident) (signatures items) ≡ map (λ s. s.ident) (signatures impl_items)
    → (name ≡ t) × (map (λ m. dispatched r m.service_method) ms ≡ map (request_to r name) ks)
actions-agree t name items impl_items ms ks r d g e h =
    let (same, actions) = actions_lem t name items impl_items ms ks g e h in
    (
      same,
      map-map_actions r (λ m. m.service_method) ms
          ∙ ap (map (dispatched r)) actions
          ∙ sym (map-map_actions r (λ k. service_method name k.method_name) ks)
          ∙ map-dispatched r name ks (rw same d),
    )
