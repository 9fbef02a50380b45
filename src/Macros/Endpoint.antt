-- ===== src/Macros/Endpoint.antt =====
-- macros/src/endpoint_async.rs: the checks of `#[endpoint_async]`, and the client's methods that it generates.
use razor_rpc.Prelude.{ℕ, Bool, true, false, List, [], ◌∷◌, ◌++◌, Option, none, some, if◌then◌else◌}
use razor_rpc.Macros.Syntax.{◌>>=◌}
use razor_rpc.Macros.Signatures.{
  FnArg, receiver, typed, typed_pattern, ReturnType, Signature, get_result_type_from_future,
  check_return_type,
}

-- A method of the trait, or another item.
pub data Item : Type 0 where
  method_item : Signature → Item
  other_item : Item

-- A generated method: the action that it calls, the argument that it sends, `none` for `()`, and whether it
-- returns a future or is an `async fn`.
pub record Method : Type 0 where
  pub ident : List ℕ
  pub service_method : List ℕ
  pub argument : Option (List ℕ)
  pub returns_future : Bool

-- The name of the argument; a method that has not two inputs panics.
unfoldable pub argument_name : List FnArg → Option (Option (List ℕ))
argument_name (self_arg ∷ typed name t ∷ []) = some (some name)
argument_name (self_arg ∷ typed_pattern t ∷ []) = some none
argument_name (self_arg ∷ receiver ∷ []) = some none
argument_name _ = none

unfoldable pub is_some_type : ReturnType → Bool
is_some_type r = elim (get_result_type_from_future r) [ none ↦ false | some t ↦ true ]

-- `format!("{}.{}", trait_name, method_name)`
unfoldable pub service_method : List ℕ → List ℕ → List ℕ
service_method trait_name method_name = trait_name ++ (46 ∷ method_name)

unfoldable pub expand_method : List ℕ → Signature → Option Method
expand_method trait_name sig = do
  argument ← argument_name sig.inputs
  if check_return_type sig.output
      then some (record {
        ident = sig.ident;
        service_method = service_method trait_name sig.ident;
        argument = argument;
        returns_future = is_some_type sig.output;
      })
      else none

-- `generate_trait_impl`: its methods.
unfoldable pub generate_trait_impl : List ℕ → List Item → Option (List Method)
generate_trait_impl trait_name [] = some []
generate_trait_impl trait_name (method_item sig ∷ items) = do
  m ← expand_method trait_name sig
  ms ← generate_trait_impl trait_name items
  some (m ∷ ms)
generate_trait_impl trait_name (other_item ∷ items) = generate_trait_impl trait_name items

-- What a generated method does with its argument, by the caller's `call` at the argument's type; where the
-- argument has no name, by its `call` at `()`.
unfoldable pub call_method :
    {A R : Type 0} → (List ℕ → A → R) → (List ℕ → Unit {0} → R) → Method → A → R
call_method call call_unit m arg = elim m.argument [
  | some name ↦ call m.service_method arg
  | none ↦ call_unit m.service_method tt
]
