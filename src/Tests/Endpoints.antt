-- ===== src/Tests/Endpoints.antt =====
-- macros/src and src/client on a trait of two methods, and a call from end to end.
use razor_rpc.Prelude.{
  ℕ, ◌+◌, ◌≡◌, ◌≢◌, refl, true, false, List, [], ◌∷◌, ◌++◌, map, Option, none, some, Result, ok,
  err, panic, arith, inl, inr, ◌⊎◌, bytes_eq,
}
use razor_rpc.Prelude.Text.{bytes}
use razor_rpc.Error.{RpcError, num}
use razor_rpc.Error.Codec.{RpcErrCodec}
use razor_rpc.Codec.{Codec}
use razor_rpc.Task.{Encoded}
use razor_rpc.Proto.{str}
use razor_rpc.Tcp.Server.{RpcSvrReq}
use razor_rpc.Api.{ApiClientReq}
use razor_rpc.Api.Calls.{failover_call}
use razor_rpc.Api.Service.{ServiceStatic, Method, service, mux_service}
use razor_rpc.Api.Service.Laws.{added}
use razor_rpc.Api.Remote.{IsFaithful}
use razor_rpc.Api.Retries.{Ends, failover_call-Ends}
use razor_rpc.Macros.Syntax.{
  Ty, path, segment, end_of_path, no_arguments, angle_bracketed, type_argument, no_generics,
  type_segment, last_segment, last_of,
}
use razor_rpc.Macros.Signatures.{
  receiver, typed, returns, Signature, check_return_type, check_result_type, second_is_rpc_error,
  is_named, get_result_type_from_future,
}
use razor_rpc.Macros.Endpoint.{
  Item, method_item, other_item, argument_name, service_method, expand_method, generate_trait_impl,
  is_some_type, call_method,
}
use razor_rpc.Macros.Endpoint
use razor_rpc.Macros.Service.{
  impl_block, Served, arg_type, should_await, serve_method, methods_data, expand_service,
}
use razor_rpc.Macros.Agree.{actions-agree, dispatched, request_to}

abbrev plain : List ℕ → Ty
plain name = path false false (segment name no_arguments end_of_path)

-- `Result<P, RpcError<E>>`
abbrev result_type : Ty
result_type = path false false (
    segment (bytes "Result")
      (angle_bracketed (
        type_argument (plain (bytes "P")) (
          type_argument
            (path false false (
              segment (bytes "RpcError")
                (angle_bracketed (type_argument (plain (bytes "E")) no_generics)) end_of_path))
            no_generics)))
      end_of_path)

abbrev sig_of : List ℕ → Signature
sig_of name = record {
  ident = name;
  inputs = receiver ∷ typed (bytes "q") (plain (bytes "Q")) ∷ [];
  asyncness = true;
  output = returns result_type;
}

abbrev items : List Item
items = method_item (sig_of (bytes "add")) ∷ other_item ∷ method_item (sig_of (bytes "sub")) ∷ []

abbrev generated_of : List ℕ → List ℕ → Endpoint.Method
generated_of name action = record {
  ident = name;
  service_method = action;
  argument = some (bytes "q");
  returns_future = false;
}

abbrev generated : List Endpoint.Method
generated =
    generated_of (bytes "add") (bytes "Calc.add")
    ∷ generated_of (bytes "sub") (bytes "Calc.sub")
    ∷ []

generates : generate_trait_impl (bytes "Calc") items ≡ some generated
unfolding generate_trait_impl expand_method argument_name service_method is_some_type
    check_return_type check_result_type second_is_rpc_error is_named get_result_type_from_future
    type_segment last_segment last_of bytes_eq
generates = refl

abbrev served_of : List ℕ → Served
served_of name = record { method_name = name; arg_ty = plain (bytes "Q") }

abbrev all_served : List Served
all_served = served_of (bytes "add") ∷ served_of (bytes "sub") ∷ []

serves : expand_service (impl_block (some (bytes "Calc")) items) ≡ some (bytes "Calc", all_served)
unfolding expand_service methods_data serve_method arg_type should_await
serves = refl

-- A request, whatever its action.
abbrev asked : RpcSvrReq
asked = record { seq = 3; action = str []; msg = 4 ∷ []; blob = none }

actions-agree_example :
    (bytes "Calc" ≡ bytes "Calc")
    × (map (λ m. dispatched asked m.service_method) generated
        ≡ map (request_to asked (bytes "Calc")) all_served)
actions-agree_example =
    actions-agree (bytes "Calc") (bytes "Calc") items items generated all_served asked
      (ground arith, (ground arith, (ground arith, (ground arith, tt)))) generates serves refl

-- A method whose message, answer and error are a number each, one byte long.
abbrev decode_byte : List ℕ → Result (Unit {0}) ℕ
decode_byte (n ∷ []) = ok n
decode_byte _ = err tt

abbrev byte_into : ℕ → List ℕ → Result (List ℕ) Encoded
byte_into n out = err out

abbrev byte : Codec ℕ
byte = record { encode = λ n. ok (n ∷ []); encode_into = byte_into; decode = decode_byte }

abbrev decode_error : ℕ ⊎ List ℕ → Result (Unit {0}) ℕ
decode_error (inl n) = ok n
decode_error (inr s) = err tt

abbrev error_codec : RpcErrCodec ℕ
error_codec = record { encode = num; decode = decode_error; should_failover = λ e. ok none }

abbrev pub add : Method
add = record {
  Arg = ℕ;
  Resp = ℕ;
  Err = ℕ;
  method_name = bytes "add";
  arg_codec = byte;
  resp_codec = byte;
  err_codec = error_codec;
  call = λ n. ok (n + 1);
}

add_args : (a : ℕ) (bs : List ℕ) → byte.encode a ≡ ok bs → byte.decode bs ≡ ok a
add_args a bs h = ground (arith, h)

pub add-IsFaithful : IsFaithful add
add-IsFaithful = record { args = add_args; resps = λ p. (p, [], refl, refl); errs = λ e. refl }

abbrev pub calc : ServiceStatic
calc = mux_service (added (service (bytes "Calc") (add ∷ []) ∷ []))

not_panic : (n : ℕ) → ◌≢◌ {A = Result (RpcError ℕ) ℕ} (ok n) panic
not_panic n h = ground (arith, h)

-- The generated method calls its action, with its argument or with `()`.
calls_add :
    call_method (λ a n. a ++ (n ∷ [])) (λ a u. a) (generated_of (bytes "add") (bytes "Calc.add")) 4
    ≡ bytes "Calc.add" ++ (4 ∷ [])
unfolding call_method
calls_add = refl

-- Every node answers that another one should be asked.
abbrev refused : ApiClientReq → Option ApiClientReq
refused t = some (record t { res = some (err (num 3)) })

failover_call-Ends_example :
    Ends byte 0 error_codec 2
      (λ t a n. refused t)
      (failover_call byte 0 error_codec 2 (λ t a n. refused t) byte 3 refused (bytes "Calc.add") 4)
failover_call-Ends_example =
    failover_call-Ends byte 0 error_codec 2 (λ t a n. refused t) byte refused (bytes "Calc.add") 4
