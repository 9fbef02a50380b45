-- ===== src/Macros/ServerEnum.antt =====
-- stream/macros/src/server_task_enum.rs: the checks of `#[server_task_enum]`, and the code that it
-- generates. Variants are numbered as those of `#[client_task_enum]`.
use razor_rpc.Prelude.{
  ℕ, suc, Bool, true, false, List, [], ◌∷◌, ◌++◌, Option, none, some, Result, ok, err, panic,
  bytes_eq, if◌then◌else◌, get_elem?,
}
use razor_rpc.Prelude.Int.{int_eq}
use razor_rpc.Proto.{RpcAction, str, num}
use razor_rpc.Task.{ServerTaskEncode}
use razor_rpc.Server.{RespNoti}
use razor_rpc.Server.Task.{ServerTaskDone}
use razor_rpc.Server.Dispatch.{ServerTaskDecode}
use razor_rpc.Macros.Syntax.{
  ◌>>=◌, ActionArg, lit_str, lit_int, lit_other, variant_path, other_meta,
}
use razor_rpc.Macros.ClientEnum.{Variant, inner_type, has_type}

-- What `ServerTaskEnumAttrs::parse` meets, one after the other; a type is its text.
pub data Token : Type 0 where
  req_flag : Token
  resp_flag : Token
  resp_type_is : List ℕ → Token
  error_is : List ℕ → Token
  comma : Token
  unexpected : Token

pub record Parsed : Type 0 where
  pub req : Bool
  pub resp : Bool
  pub resp_type : Option (List ℕ)
  pub error : Option (List ℕ)

unfoldable pub parse_token : Parsed → Token → Option Parsed
parse_token p req_flag = some (record p { req = true })
parse_token p resp_flag = some (record p { resp = true })
parse_token p (resp_type_is t) = some (record p { resp_type = some t })
parse_token p (error_is t) = some (record p { error = some t })
parse_token p comma = some p
parse_token p unexpected = none

unfoldable pub parse_tokens : Parsed → List Token → Option Parsed
parse_tokens p [] = some p
parse_tokens p (t ∷ ts) = parse_token p t >>= λ q. parse_tokens q ts

-- The attributes, with the type of the response: `none` is the enum itself.
pub record Attrs : Type 0 where
  pub has_req : Bool
  pub has_resp : Bool
  pub resp_type : Option (List ℕ)
  pub error : List ℕ

unfoldable pub response_type : Bool → Option (List ℕ) → Option (Option (List ℕ))
response_type true none = some none
response_type true (some t) = none
response_type false none = none
response_type false (some t) = some (some t)

unfoldable pub parse_attrs : List Token → Option Attrs
parse_attrs ts = do
  p ← parse_tokens (record { req = false; resp = false; resp_type = none; error = none }) ts
  e ← p.error
  r ← response_type p.resp p.resp_type
  some (record { has_req = p.req; has_resp = p.resp; resp_type = r; error = e })

-- `get_action_attribute`: the first attribute `#[action(..)]` that holds something.
unfoldable pub get_action_attribute : List (List ActionArg) → List ActionArg
get_action_attribute [] = []
get_action_attribute ([] ∷ rest) = get_action_attribute rest
get_action_attribute ((x ∷ xs) ∷ rest) = x ∷ xs

-- The action that a pattern of `decode_req`, or an arm of `get_action`, names.
unfoldable pub action_of : ActionArg → Option RpcAction
action_of (lit_str s) = some (str s)
action_of (lit_int none) = none
action_of (lit_int (some n)) = some (num n)
action_of lit_other = none
action_of (variant_path n) = some (num n)
action_of other_meta = none

-- An arm of the generated `match action`.
pub record Arm : Type 0 where
  pub pattern_action : RpcAction
  pub variant : ℕ

unfoldable pub decode_arms : ℕ → List ActionArg → Option (List Arm)
decode_arms i [] = some []
decode_arms i (x ∷ xs) = do
  a ← action_of x
  arms ← decode_arms i xs
  some (record { pattern_action = a; variant = i } ∷ arms)

-- The arm of `get_action`: fixed for one action, `none` for that of the task where there are more.
unfoldable pub get_action_arm : List ActionArg → Option (Option RpcAction)
get_action_arm [] = none
get_action_arm (x ∷ []) = action_of x >>= λ a. some (some a)
get_action_arm (x ∷ y ∷ ys) = some none

-- The two matches that are generated from the actions, by the number of the first variant.
pub record Matches : Type 0 where
  pub arms : List Arm
  pub actions : List (Option RpcAction)

unfoldable pub expand_actions : ℕ → List Variant → Option Matches
expand_actions i [] = some (record { arms = []; actions = [] })
expand_actions i (v ∷ vs) = do
  here ← decode_arms i (get_action_attribute v.action)
  arm ← get_action_arm (get_action_attribute v.action)
  m ← expand_actions (suc i) vs
  some (record { arms = here ++ m.arms; actions = arm ∷ m.actions })

-- Every variant has one field, and no type occurs twice.
unfoldable pub check_types : List (List ℕ) → List Variant → Option (Unit {0})
check_types seen [] = some tt
check_types seen (v ∷ vs) = do
  t ← inner_type v
  if has_type t seen then none else check_types (t ∷ seen) vs

-- `server_task_enum_impl`: the matches, if requests are decoded.
unfoldable pub expand : List Token → List Variant → Option (Attrs × Option Matches)
expand ts vs = do
  u ← check_types [] vs
  a ← parse_attrs ts
  if a.has_req then (expand_actions 0 vs >>= λ m. some (a, some m)) else some (a, none)

-- Whether an action matches a pattern.
unfoldable pub action_matches : RpcAction → RpcAction → Bool
action_matches (str s) (str t) = bytes_eq s t
action_matches (num m) (num n) = int_eq m n
action_matches (str s) (num n) = false
action_matches (num m) (str t) = false

-- The first arm that matches.
unfoldable pub find_arm : List Arm → RpcAction → Option ℕ
find_arm [] action = none
find_arm (a ∷ rest) action =
    let later = find_arm rest action in
    if action_matches action a.pattern_action then some a.variant else later

module _ {T : ℕ → Type 0} (m : Matches) where
  module _ (inner : (i : ℕ) → ServerTaskDecode (T i)) where
    -- The generated `decode_req`.
    unfoldable pub decode_variant :
        RpcAction → ℕ → List ℕ → Option (List ℕ) → RespNoti → ℕ → Result (Unit {0}) ((i : ℕ) × T i)
    decode_variant action seq req blob noti i =
        elim ((inner i).decode_req action seq req blob noti) [
          | ok t ↦ ok (i, t)
          | err u ↦ err tt
          | panic ↦ panic
        ]

    unfoldable pub enum_decode : ServerTaskDecode ((i : ℕ) × T i)
    enum_decode = record {
      decode_req = λ action seq req blob noti. elim (find_arm m.arms action) [
        | none ↦ err tt
        | some i ↦ decode_variant action seq req blob noti i
      ];
    }

  -- The generated `get_action`, where the tasks of a variant may have their own.
  unfoldable pub enum_get_action : ((i : ℕ) → T i → RpcAction) → (i : ℕ) × T i → RpcAction
  enum_get_action own (i, t) = elim (get_elem? m.actions i) [
    | none ↦ own i t
    | some arm ↦ elim arm [ none ↦ own i t | some a ↦ a ]
  ]

module _ {T : ℕ → Type 0} where
  -- The generated `encode_resp` and `_set_result`.
  unfoldable pub enum_encode : ((i : ℕ) → ServerTaskEncode (T i)) → ServerTaskEncode ((i : ℕ) × T i)
  enum_encode inner = record { encode_resp = λ x out. (inner x.0).encode_resp x.1 out }

  unfoldable pub enum_set_result :
      {E : Type 0}
      → ((i : ℕ) → ServerTaskDone (T i) E)
      → (i : ℕ) × T i
      → Result E (Unit {0})
      → Result (Unit {0}) (((i : ℕ) × T i) × RespNoti)
  enum_set_result inner (i, t) res = elim ((inner i).set_result_ t res) [
    | ok p ↦ ok ((i, p.0), p.1)
    | err u ↦ err u
    | panic ↦ panic
  ]
