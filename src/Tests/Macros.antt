-- ===== src/Tests/Macros.antt =====
-- stream/macros/src on a small struct, and on an enum of two variants.
use razor_rpc.Prelude.{
  ℕ, ◌≡◌, refl, true, false, List, [], ◌∷◌, ◌++◌, Option, none, some, Result, ok, err, length,
  arith, ap, sym, panic, bytes_eq,
}
use razor_rpc.Prelude.Int.{pos}
use razor_rpc.Prelude.Text.{bytes}
use razor_rpc.Error.{RpcError, user}
use razor_rpc.Error.Codec.{unit_codec}
use razor_rpc.Proto.{RpcAction, str}
use razor_rpc.Proto
use razor_rpc.Task.{Encoded}
use razor_rpc.Codec.{Codec}
use razor_rpc.Server.{RespNoti}
use razor_rpc.Server.Dispatch.{ServerTaskDecode}
use razor_rpc.Tcp.Client.ErrorLaws.{error_set}
use razor_rpc.Macros.Syntax.{
  Ty, path, tuple, segment, end_of_path, no_arguments, angle_bracketed, type_argument, no_generics,
  lit_int, lit_str, type_segment, last_segment, last_of, first_type,
}
use razor_rpc.Macros.ClientTask.{
  Arg, action_arg, Tag, common, req, resp, res, noti, Field, Expansion, fixed, expand, read_args,
  read_arg, read_fields, read_tags, read_tag, no_tags, expand_tagged, action_impl,
  static_action_impl, done_impl, error_type, noti_inner_type, argument_of, error_of_result,
  result_error, check_option_inner_type,
}
use razor_rpc.Macros.Generated.{Fields, client_task, get_result}
use razor_rpc.Macros.Tasks.{IsStruct, as_number, get_result-error_set}
use razor_rpc.Macros.ClientEnum.{Variant}
use razor_rpc.Macros.ServerEnum.{
  Matches, expand_actions, decode_arms, get_action_arm, action_of, get_action_attribute,
  enum_decode, enum_get_action, decode_variant, find_arm, action_matches,
}
use razor_rpc.Macros.Actions.{get_action-decode_req}

-- The text of a type with one type argument, and of one without.
abbrev of_type : List ℕ → Ty → Ty
of_type name t =
    path false false (segment name (angle_bracketed (type_argument t no_generics)) end_of_path)

abbrev plain : List ℕ → Ty
plain name = path false false (segment name no_arguments end_of_path)

abbrev result_type : Ty
result_type = path false false (
    segment (bytes "Result")
      (angle_bracketed (
        type_argument (tuple true)
          (type_argument (of_type (bytes "RpcError") (plain (bytes "Errno"))) no_generics)))
      end_of_path)

abbrev field : List ℕ → Ty → List Tag → Field
field name t tags = record { named = record { name = name; type = t }; tags = tags }

-- struct { common: C, req: Q, resp: Option<P>, res: Option<Result<(), RpcError<Errno>>>,
-- noti: Option<MTx<M>> }
abbrev fields : List Field
fields =
    field (bytes "common") (plain (bytes "C")) (common ∷ [])
    ∷ field (bytes "req") (plain (bytes "Q")) (req ∷ [])
    ∷ field (bytes "resp") (of_type (bytes "Option") (plain (bytes "P"))) (resp ∷ [])
    ∷ field (bytes "res") (of_type (bytes "Option") result_type) (res ∷ [])
    ∷ field (bytes "noti") (of_type (bytes "Option") (of_type (bytes "MTx") (plain (bytes "M"))))
        (noti ∷ [])
    ∷ []

abbrev args : List Arg
args = action_arg (lit_int (some (pos 1))) ∷ []

abbrev expansion : Expansion
expansion = record {
  common = record { name = bytes "common"; type = plain (bytes "C") };
  req = bytes "req";
  resp = bytes "resp";
  req_blob = none;
  resp_blob = none;
  action = fixed (Proto.num (pos 1));
  done = some (record {
    res = bytes "res";
    noti = bytes "noti";
    error_type = plain (bytes "Errno");
    noti_inner_type = plain (bytes "M");
  });
  debug = false;
}

expands : expand args fields ≡ some expansion
unfolding expand read_args read_arg read_fields read_tags read_tag no_tags expand_tagged action_impl
    type_segment last_segment last_of first_type bytes_eq static_action_impl done_impl error_type
    noti_inner_type argument_of error_of_result result_error check_option_inner_type
expands = refl

-- A struct with a number, a message, an answer and a result.
record Small : Type 0 where
  number : ℕ
  answer : Option (List ℕ)
  result : Option (Result (RpcError (Unit {0})) (Unit {0}))

abbrev small_fields : Fields Small (List ℕ) (List ℕ) (Unit {0})
small_fields = record {
  seq = λ t. t.number;
  set_seq = λ t n. record t { number = n };
  req = λ t. [];
  set_resp = λ t p. record t { answer = p };
  req_blob = none;
  resp_blob = none;
  action = λ t. Proto.num (pos 1);
  res = λ t. t.result;
  set_res = λ t r. record t { result = r };
  noti = λ t. none;
  take_noti = λ t. t;
}

small_fields-IsStruct : IsStruct small_fields
small_fields-IsStruct = record {
  seq-set_seq = λ t n. refl;
  seq-set_resp = λ t p. refl;
  seq-set_res = λ t r. refl;
  res-set_res = λ t r. refl;
  seq-reserve = λ b t n r e h. ground (arith, e);
  seq-fill = λ b t bs e. ground (arith, e);
}

abbrev append_bytes : List ℕ → List ℕ → Result (List ℕ) Encoded
append_bytes m out = ok (record { buf = out ++ m; size = length m })

abbrev raw : Codec (List ℕ)
raw = record { encode = λ m. ok m; encode_into = append_bytes; decode = λ bs. ok bs }

abbrev small : Small
small = record { number = 5; answer = none; result = none }

get_result-error_set_example :
    get_result small_fields
      (error_set (client_task small_fields unit_codec raw raw) small (unit_codec.encode tt))
    ≡ err (user tt)
unfolding unit_codec
get_result-error_set_example =
    get_result-error_set small_fields unit_codec raw raw small_fields-IsStruct small tt
      (as_number 0 refl refl)

-- Two variants: `First` for the action 1, `Second` for the actions "a" and "b".
abbrev first_variant : Variant
first_variant = record {
  action = (lit_int (some (pos 1)) ∷ []) ∷ [];
  fields = some (bytes "First" ∷ []);
}

abbrev second_variant : Variant
second_variant = record {
  action = (lit_str (bytes "a") ∷ lit_str (bytes "b") ∷ []) ∷ [];
  fields = some (bytes "Second" ∷ []);
}

abbrev matches : Matches
matches = record {
  arms =
      record { pattern_action = Proto.num (pos 1); variant = 0 }
      ∷ record { pattern_action = str (bytes "a"); variant = 1 }
      ∷ record { pattern_action = str (bytes "b"); variant = 1 }
      ∷ [];
  actions = some (Proto.num (pos 1)) ∷ none ∷ [];
}

expands_actions : expand_actions 0 (first_variant ∷ second_variant ∷ []) ≡ some matches
unfolding expand_actions decode_arms get_action_arm action_of get_action_attribute
expands_actions = refl

-- A task of either variant keeps its action, and whether a message came.
abbrev Kept : ℕ → Type 0
Kept i = RpcAction × List ℕ

abbrev kept : (i : ℕ) → ServerTaskDecode (Kept i)
kept i = record { decode_req = λ action seq req blob noti. ok (action, req) }

abbrev kept_action : (i : ℕ) → Kept i → RpcAction
kept_action i t = t.0

value_kept : Result (Unit {0}) (RpcAction × List ℕ) → RpcAction → RpcAction
value_kept (ok t) a = t.0
value_kept (err u) a = a
value_kept panic a = a

abbrev noti_one : RespNoti
noti_one = record { channel = 1 }

decodes_second :
    (enum_decode matches kept).decode_req (str (bytes "b")) 4 (9 ∷ []) none noti_one
    ≡ ok (1, (str (bytes "b"), 9 ∷ []))
unfolding enum_decode find_arm action_matches decode_variant bytes_eq
decodes_second = refl

get_action-decode_req_example :
    enum_get_action matches kept_action (1, (str (bytes "b"), 9 ∷ [])) ≡ str (bytes "b")
unfolding value_kept
get_action-decode_req_example =
    get_action-decode_req kept kept_action (first_variant ∷ second_variant ∷ []) matches
      (str (bytes "b")) 4 (9 ∷ []) none noti_one (1, (str (bytes "b"), 9 ∷ [])) expands_actions
      (λ i t h. ap (λ r. value_kept r (str (bytes "b"))) (sym h)) decodes_second
