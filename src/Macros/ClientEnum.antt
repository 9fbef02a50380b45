-- ===== src/Macros/ClientEnum.antt =====
-- stream/macros/src/client_task_enum.rs: the checks of `#[client_task_enum]`, and the code that it
-- generates. The enum's variants are numbered; `T i` is the type of the task in variant i, and a value
-- is a variant with its task.
use razor_rpc.Prelude.{
  ℕ, Bool, true, false, List, [], ◌∷◌, Option, none, some, bytes_eq, if◌then◌else◌,
}
use razor_rpc.Prelude.Int.{ℤ}
use razor_rpc.Proto.{RpcAction, str, num}
use razor_rpc.Task.{ClientTask, Decoded, Reserved}
use razor_rpc.Macros.Syntax.{
  ◌>>=◌, ActionArg, lit_str, lit_int, lit_other, variant_path, other_meta,
}

-- A variant: the texts of the types of its fields, if it is a tuple, and what each of its attributes
-- `#[action(..)]` holds.
pub record Variant : Type 0 where
  pub fields : Option (List (List ℕ))
  pub action : List (List ActionArg)

-- The one type of a tuple of one field.
unfoldable pub inner_type : Variant → Option (List ℕ)
inner_type v = elim v.fields [
  | none ↦ none
  | some [] ↦ none
  | some (t ∷ []) ↦ some t
  | some (t ∷ u ∷ us) ↦ none
]

-- What one attribute says: an action, nothing, or a panic. A literal has to be the only one; of paths
-- the first counts.
unfoldable pub attribute_action : List ActionArg → Option (Option ActionArg)
attribute_action [] = some none
attribute_action (variant_path n ∷ xs) = some (some (variant_path n))
attribute_action (other_meta ∷ xs) = some none
attribute_action (x ∷ []) = some (some x)
attribute_action (x ∷ y ∷ ys) = none

-- `get_action_attribute`: the first attribute that says something.
unfoldable pub get_action_attribute : List (List ActionArg) → Option (Option ActionArg)
get_action_attribute [] = some none
get_action_attribute (a ∷ as') =
    let later = get_action_attribute as' in
    attribute_action a >>= λ found. elim found [ none ↦ later | some x ↦ some (some x) ]

-- The arm of `get_action`: a fixed action, or `none` for that of the task. An integer that is no i32
-- does not compile.
unfoldable pub action_arm : Option ActionArg → Option (Option RpcAction)
action_arm none = some none
action_arm (some (lit_str s)) = some (some (str s))
action_arm (some (lit_int none)) = none
action_arm (some (lit_int (some n))) = some (some (num n))
action_arm (some (variant_path n)) = some (some (num n))
action_arm (some lit_other) = none
action_arm (some other_meta) = none

unfoldable pub variant_arm : Variant → Option (Option RpcAction)
variant_arm v = get_action_attribute v.action >>= λ a. action_arm a

unfoldable pub has_type : List ℕ → List (List ℕ) → Bool
has_type t [] = false
has_type t (u ∷ us) = if bytes_eq t u then true else has_type t us

-- `for variant in variants`: the arms of `get_action`. `seen` are the types of the variants before.
unfoldable pub expand : List (List ℕ) → List Variant → Option (List (Option RpcAction))
expand seen [] = some []
expand seen (v ∷ vs) = inner_type v >>= λ t.
    if has_type t seen
    then none
    else (variant_arm v >>= λ a. expand (t ∷ seen) vs >>= λ arms. some (a ∷ arms))

module _ {T : ℕ → Type 0} (inner : (i : ℕ) → ClientTask (T i)) (arms : ℕ → Option RpcAction) where
  abbrev pub Enum : Type 0
  Enum = (i : ℕ) × T i

  unfoldable pub enum_action : Enum → RpcAction
  enum_action (i, t) = elim (arms i) [ some a ↦ a | none ↦ (inner i).get_action t ]

  unfoldable pub enum_decode : Enum → List ℕ → Decoded Enum
  enum_decode (i, t) bs =
      let d = (inner i).decode_resp t bs in record { task = (i, d.task); res = d.res }

  unfoldable pub enum_reserve : Enum → ℤ → Option (Reserved Enum)
  enum_reserve (i, t) size = elim ((inner i).reserve_resp_blob t size) [
    | none ↦ none
    | some r ↦ some (record { task = (i, r.task); room = r.room })
  ]

  -- The impls of the enum: every method is that of the variant's task.
  unfoldable pub client_task_enum : ClientTask Enum
  client_task_enum = record {
    get_action = enum_action;
    encode_req = λ x out. (inner x.0).encode_req x.1 out;
    get_req_blob = λ x. (inner x.0).get_req_blob x.1;
    decode_resp = enum_decode;
    reserve_resp_blob = enum_reserve;
    fill_resp_blob = λ x bs. (x.0, (inner x.0).fill_resp_blob x.1 bs);
    seq = λ x. (inner x.0).seq x.1;
    set_seq = λ x n. (x.0, (inner x.0).set_seq x.1 n);
    set_custom_error = λ x e l v. (x.0, (inner x.0).set_custom_error x.1 e l v);
    set_rpc_error = λ x e. (x.0, (inner x.0).set_rpc_error x.1 e);
    set_ok = λ x. (x.0, (inner x.0).set_ok x.1);
  }
