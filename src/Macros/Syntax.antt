-- ===== src/Macros/Syntax.antt =====
-- What the macros of stream/macros/src read of the syntax trees of the package syn.
use razor_rpc.Prelude.{ℕ, ◌≡◌, refl, arith, Bool, List, Option, none, some}
use razor_rpc.Prelude.Int.{ℤ}

-- A chain of steps, each of which may panic.
infixl 5 ◌>>=◌
abbrev pub ◌>>=◌ {ℓ κ} : {A : Type ℓ} {B : Type κ} → Option A → (A → Option B) → Option B
none >>= f = none
some a >>= f = f a

-- A chain of steps that does not panic has steps that do not.
pub both_somes {ℓ κ} :
    {A : Type ℓ} {B : Type κ} (o : Option A) (f : A → Option B) (b : B)
    → (o >>= f) ≡ some b
    → (a : A) × (o ≡ some a) × (f a ≡ some b)
both_somes none f b h = ground (arith, h)
both_somes (some a) f b h = (a, refl, h)

-- `syn::Type`: a path with whether it has a `qself` and a leading colon, or a tuple with whether it is
-- empty. A path is the list of its segments, each an identifier with its arguments.
mutual
  pub data Ty : Type 0 where
    path : Bool → Bool → Segments → Ty
    tuple : Bool → Ty
    other_type : Ty

  pub data Segments : Type 0 where
    end_of_path : Segments
    segment : List ℕ → Arguments → Segments → Segments

  pub data Arguments : Type 0 where
    no_arguments : Arguments
    angle_bracketed : Generics → Arguments
    parenthesized : Arguments

  pub data Generics : Type 0 where
    no_generics : Generics
    type_argument : Ty → Generics → Generics
    other_argument : Generics → Generics

-- A segment, as `segments.last()` gives it.
pub record Last : Type 0 where
  pub ident : List ℕ
  pub arguments : Arguments

unfoldable pub last_of : List ℕ → Arguments → Segments → Last
last_of ident args end_of_path = record { ident = ident; arguments = args }
last_of ident args (segment i a rest) = last_of i a rest

-- `path.segments.last()`
unfoldable pub last_segment : Segments → Option Last
last_segment end_of_path = none
last_segment (segment i a rest) = some (last_of i a rest)

-- The last segment of a type that is a path.
unfoldable pub type_segment : Ty → Option Last
type_segment (path qself colon segments) = last_segment segments
type_segment (tuple empty) = none
type_segment other_type = none

-- The first type argument in angle brackets.
unfoldable pub first_type : Arguments → Option Ty
first_type (angle_bracketed (type_argument t rest)) = some t
first_type (angle_bracketed no_generics) = none
first_type (angle_bracketed (other_argument rest)) = none
first_type no_arguments = none
first_type parenthesized = none

-- `NestedMeta`, as an action: a string, an integer with its value as i32 if it has one, another
-- literal, the path of an enum's variant with its value, or anything else.
pub data ActionArg : Type 0 where
  lit_str : List ℕ → ActionArg
  lit_int : Option ℤ → ActionArg
  lit_other : ActionArg
  variant_path : ℤ → ActionArg
  other_meta : ActionArg
