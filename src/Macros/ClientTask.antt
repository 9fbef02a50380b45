-- ===== src/Macros/ClientTask.antt =====
-- stream/macros/src/client_task.rs: what `#[client_task]` makes of its arguments and of the fields.
use razor_rpc.Prelude.{
  ℕ, Bool, true, false, List, [], ◌∷◌, Option, none, some, bytes_eq, if◌then◌else◌,
}
use razor_rpc.Prelude.Text.{bytes}
use razor_rpc.Proto.{RpcAction, str, num}
use razor_rpc.Macros.Syntax.{
  ◌>>=◌, Ty, path, tuple, end_of_path, segment, Arguments, angle_bracketed, no_generics,
  type_argument, type_segment, first_type, ActionArg, lit_str, lit_int, lit_other, variant_path,
  other_meta,
}

-- An argument of the attribute.
pub data Arg : Type 0 where
  debug : Arg
  action_arg : ActionArg → Arg

-- What `#[field(..)]` says of a field.
pub data Tag : Type 0 where
  common : Tag
  req : Tag
  resp : Tag
  req_blob : Tag
  resp_blob : Tag
  action : Tag
  res : Tag
  noti : Tag
  other_tag : Tag

pub record Named : Type 0 where
  pub name : List ℕ
  pub type : Ty

pub record Field : Type 0 where
  pub named : Named
  pub tags : List Tag

-- The variables of the macro that the attributes fill.
pub record Args : Type 0 where
  pub gen_debug : Bool
  pub static_action : Option ActionArg

pub record Tagged : Type 0 where
  pub common_field : Option Named
  pub req_field : Option Named
  pub resp_field : Option Named
  pub req_blob_field : Option Named
  pub resp_blob_field : Option Named
  pub field_action : Option Named
  pub res_field : Option Named
  pub noti_field : Option Named

unfoldable pub no_tags : Tagged
no_tags = record {
  common_field = none;
  req_field = none;
  resp_field = none;
  req_blob_field = none;
  resp_blob_field = none;
  field_action = none;
  res_field = none;
  noti_field = none;
}

-- `for arg in args`
unfoldable pub read_arg : Args → Arg → Option Args
read_arg a debug = if a.gen_debug then none else some (record a { gen_debug = true })
read_arg a (action_arg x) = elim a.static_action [
  | none ↦ some (record a { static_action = some x })
  | some y ↦ none
]

unfoldable pub read_args : Args → List Arg → Option Args
read_args a [] = some a
read_args a (x ∷ xs) = read_arg a x >>= λ b. read_args b xs

-- A tag of a field: a second one replaces the first, but for `action`.
unfoldable pub read_tag : Tagged → Named → Tag → Option Tagged
read_tag t f common = some (record t { common_field = some f })
read_tag t f req = some (record t { req_field = some f })
read_tag t f resp = some (record t { resp_field = some f })
read_tag t f req_blob = some (record t { req_blob_field = some f })
read_tag t f resp_blob = some (record t { resp_blob_field = some f })
read_tag t f action = elim t.field_action [
  | none ↦ some (record t { field_action = some f })
  | some g ↦ none
]
read_tag t f res = some (record t { res_field = some f })
read_tag t f noti = some (record t { noti_field = some f })
read_tag t f other_tag = some t

unfoldable pub read_tags : Tagged → Named → List Tag → Option Tagged
read_tags t f [] = some t
read_tags t f (x ∷ xs) = read_tag t f x >>= λ u. read_tags u f xs

unfoldable pub read_fields : Tagged → List Field → Option Tagged
read_fields t [] = some t
read_fields t (f ∷ fs) = read_tags t f.named f.tags >>= λ u. read_fields u fs

-- `check_option_inner_type`
unfoldable pub check_option_inner_type : Ty → Bool
check_option_inner_type
      (path false false (segment i (angle_bracketed (type_argument t no_generics)) end_of_path)) =
    bytes_eq i (bytes "Option")
check_option_inner_type _ = false

-- A type that is a path whose last segment has this name, as the first type argument of another.
unfoldable pub argument_of : List ℕ → Ty → Option Ty
argument_of name t = do
  l ← type_segment t
  if bytes_eq l.ident name then first_type l.arguments else none

-- The two arguments of `Result`, of which the first is `()`.
unfoldable pub result_error : Arguments → Option Ty
result_error (angle_bracketed (type_argument (tuple true) (type_argument e no_generics))) = some e
result_error _ = none

unfoldable pub error_of_result : Ty → Option Ty
error_of_result t = do
  l ← type_segment t
  if bytes_eq l.ident (bytes "Result") then result_error l.arguments else none

-- `error_type`, of the type `Option<Result<(), RpcError<E>>>`, and `noti_inner_type`.
unfoldable pub error_type : Ty → Option Ty
error_type t = do
  r ← argument_of (bytes "Option") t
  e ← error_of_result r
  argument_of (bytes "RpcError") e

unfoldable pub noti_inner_type : Ty → Option Ty
noti_inner_type t = do m ← argument_of (bytes "Option") t; argument_of (bytes "MTx") m

-- How the generated code gets at the action.
pub data ActionImpl : Type 0 where
  no_action : ActionImpl
  from_string : List ℕ → ActionImpl
  from_number : List ℕ → ActionImpl
  fixed : RpcAction → ActionImpl

unfoldable pub field_action_impl : Named → Option ActionImpl
field_action_impl f = do
  l ← type_segment f.type
  if bytes_eq l.ident (bytes "String") then some (from_string f.name) else some (from_number f.name)

unfoldable pub static_action_impl : ActionArg → Option ActionImpl
static_action_impl (lit_str s) = some (fixed (str s))
static_action_impl (lit_int none) = none
static_action_impl (lit_int (some n)) = some (fixed (num n))
static_action_impl (variant_path n) = some (fixed (num n))
static_action_impl lit_other = none
static_action_impl other_meta = none

-- Both ways at once are refused.
unfoldable pub action_impl : Option Named → Option ActionArg → Option ActionImpl
action_impl none none = some no_action
action_impl (some f) none = field_action_impl f
action_impl none (some a) = static_action_impl a
action_impl (some f) (some a) = none

-- What `ClientTaskDone` is generated from.
pub record DoneImpl : Type 0 where
  pub res : List ℕ
  pub noti : List ℕ
  pub error_type : Ty
  pub noti_inner_type : Ty

-- `res` and `noti` come together.
unfoldable pub done_impl : Option Named → Option Named → Option (Option DoneImpl)
done_impl none none = some none
done_impl (some r) none = none
done_impl none (some n) = none
done_impl (some r) (some n) = do
  e ← error_type r.type
  m ← noti_inner_type n.type
  some (some (record { res = r.name; noti = n.name; error_type = e; noti_inner_type = m }))

pub record Expansion : Type 0 where
  pub common : Named
  pub req : List ℕ
  pub resp : List ℕ
  pub req_blob : Option Named
  pub resp_blob : Option Named
  pub action : ActionImpl
  pub done : Option DoneImpl
  pub debug : Bool

-- What is left to check once the attributes are read.
unfoldable pub expand_tagged : Args → Tagged → Option Expansion
expand_tagged a t = do
  c ← t.common_field
  q ← t.req_field
  p ← t.resp_field
  i ← action_impl t.field_action a.static_action
  d ← done_impl t.res_field t.noti_field
  if check_option_inner_type p.type
      then some (record {
        common = c;
        req = q.name;
        resp = p.name;
        req_blob = t.req_blob_field;
        resp_blob = t.resp_blob_field;
        action = i;
        done = d;
        debug = a.gen_debug;
      })
      else none

-- `client_task_impl`
unfoldable pub expand : List Arg → List Field → Option Expansion
expand args fields = do
  a ← read_args (record { gen_debug = false; static_action = none }) args
  t ← read_fields no_tags fields
  expand_tagged a t
