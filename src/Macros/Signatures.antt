-- ===== src/Macros/Signatures.antt =====
-- What the macros of macros/src read of a method's signature: its inputs and what it returns.
-- `syn::Type` is that of Macros/Syntax, with `impl Trait` beside it.
use razor_rpc.Prelude.{
  Bool, false, ◌&&◌, ℕ, List, [], ◌∷◌, Option, none, some, bytes_eq, if◌then◌else◌,
}
use razor_rpc.Prelude.Text.{bytes}
use razor_rpc.Macros.Syntax.{
  Ty, Arguments, angle_bracketed, no_generics, type_argument, other_argument, type_segment,
}

-- An input: `self`, a typed one whose pattern is an identifier, or one with another pattern.
pub data FnArg : Type 0 where
  receiver : FnArg
  typed : List ℕ → Ty → FnArg
  typed_pattern : Ty → FnArg

-- An argument in the angle brackets of a bound: a binding `ident = type`, or another one.
pub data BoundArg : Type 0 where
  binding : List ℕ → Ty → BoundArg
  other_bound_arg : BoundArg

-- A bound of `impl ..`: a trait by the identifier of its last segment, with the arguments that it has in angle
-- brackets, or a lifetime.
pub data Bound : Type 0 where
  trait_bound : List ℕ → List BoundArg → Bound
  other_bound : Bound

pub data ReturnType : Type 0 where
  no_type : ReturnType
  impl_trait : List Bound → ReturnType
  returns : Ty → ReturnType

pub record Signature : Type 0 where
  pub ident : List ℕ
  pub inputs : List FnArg
  pub asyncness : Bool
  pub output : ReturnType

unfoldable pub output_of : List BoundArg → Option Ty
output_of [] = none
output_of (binding i t ∷ rest) =
    let later = output_of rest in if bytes_eq i (bytes "Output") then some t else later
output_of (other_bound_arg ∷ rest) = output_of rest

unfoldable pub future_output : List Bound → Option Ty
future_output [] = none
future_output (trait_bound i args ∷ rest) =
    let later = future_output rest in
    if bytes_eq i (bytes "Future")
    then elim (output_of args) [ some t ↦ some t | none ↦ later ]
    else later
future_output (other_bound ∷ rest) = future_output rest

-- `get_result_type_from_future` on what a method returns.
unfoldable pub get_result_type_from_future : ReturnType → Option Ty
get_result_type_from_future no_type = none
get_result_type_from_future (impl_trait bounds) = future_output bounds
get_result_type_from_future (returns t) = none

-- Whether a type is a path whose last segment has the name.
unfoldable pub is_named : List ℕ → Ty → Bool
is_named name t = elim (type_segment t) [ none ↦ false | some s ↦ bytes_eq s.ident name ]

-- The arguments of `Result`, of which the second has to be an `RpcError`.
unfoldable pub second_is_rpc_error : Arguments → Bool
second_is_rpc_error (angle_bracketed (type_argument t (type_argument e no_generics))) =
    is_named (bytes "RpcError") e
second_is_rpc_error (angle_bracketed (other_argument (type_argument e no_generics))) =
    is_named (bytes "RpcError") e
second_is_rpc_error _ = false

-- `check_result_type`
unfoldable pub check_result_type : Ty → Bool
check_result_type t = elim (type_segment t) [
  | none ↦ false
  | some s ↦ bytes_eq s.ident (bytes "Result") && second_is_rpc_error s.arguments
]

-- `check_return_type`
unfoldable pub check_return_type : ReturnType → Bool
check_return_type no_type = false
check_return_type (impl_trait bounds) = elim (future_output bounds) [
  | none ↦ false
  | some t ↦ check_result_type t
]
check_return_type (returns t) = check_result_type t
