-- ===== src/Macros/Service.antt =====
-- macros/src/service.rs: the checks of `#[service]`, and the methods that it serves.
use razor_rpc.Prelude.{
  ℕ, Bool, false, ◌||◌, List, [], ◌∷◌, Option, none, some, bytes_eq, if◌then◌else◌,
}
use razor_rpc.Prelude.Text.{bytes}
use razor_rpc.Macros.Syntax.{◌>>=◌, Ty, path, tuple, other_type, segment, end_of_path, last_of}
use razor_rpc.Macros.Signatures.{
  FnArg, receiver, typed, typed_pattern, ReturnType, no_type, impl_trait, returns, Signature,
}
use razor_rpc.Macros.Endpoint.{Item, method_item, other_item, is_some_type}

-- What `#[service]` stands on: an `impl` block, with the last identifier of its trait's path if it has
-- one, or another item.
pub data Target : Type 0 where
  impl_block : Option (List ℕ) → List Item → Target
  other_target : Target

-- The type of the first typed input.
unfoldable pub arg_type : List FnArg → Option Ty
arg_type [] = none
arg_type (receiver ∷ rest) = arg_type rest
arg_type (typed name t ∷ rest) = some t
arg_type (typed_pattern t ∷ rest) = some t

-- A path of more than one segment whose last one is `Pin`.
unfoldable pub is_pin : Ty → Bool
is_pin (path qself colon (segment i a (segment j b rest))) =
    bytes_eq (last_of j b rest).ident (bytes "Pin")
is_pin (path qself colon (segment i a end_of_path)) = false
is_pin (path qself colon end_of_path) = false
is_pin (tuple empty) = false
is_pin other_type = false

unfoldable pub returns_pin_box_future : ReturnType → Bool
returns_pin_box_future no_type = false
returns_pin_box_future (impl_trait bounds) = false
returns_pin_box_future (returns t) = is_pin t

unfoldable pub should_await : Signature → Bool
should_await sig = sig.asyncness || (returns_pin_box_future sig.output || is_some_type sig.output)

-- A method that is served: its name, and the type that its message is decoded as.
pub record Served : Type 0 where
  pub method_name : List ℕ
  pub arg_ty : Ty

unfoldable pub serve_method : Signature → Option Served
serve_method sig = do
  t ← arg_type sig.inputs
  if should_await sig then some (record { method_name = sig.ident; arg_ty = t }) else none

-- `methods_data`
unfoldable pub methods_data : List Item → Option (List Served)
methods_data [] = some []
methods_data (method_item sig ∷ items) = do
  m ← serve_method sig
  ms ← methods_data items
  some (m ∷ ms)
methods_data (other_item ∷ items) = methods_data items

-- `service`: the name of the service, and its methods.
unfoldable pub expand_service : Target → Option (List ℕ × List Served)
expand_service other_target = none
expand_service (impl_block none items) = none
expand_service (impl_block (some name) items) = methods_data items >>= λ ms. some (name, ms)
