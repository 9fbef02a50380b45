-- ===== src/Tests/Services.antt =====
-- src/server/service.rs on two services, one of them twice.
use razor_rpc.Prelude.{
  bytes_eq, bytes_eq_refl, false, true, ap, sym, ◌∙◌, ℕ, ◌≡◌, ◌≢◌, List, [], ◌∷◌, none, some,
  Result, ok, err, arith, inl, inr, ◌⊎◌,
}
use razor_rpc.Prelude.Text.{bytes}
use razor_rpc.Error.{RpcError, user, num}
use razor_rpc.Error.Codec.{RpcErrCodec}
use razor_rpc.Codec.{Codec}
use razor_rpc.Task.{Encoded}
use razor_rpc.Proto.{str}
use razor_rpc.Tcp.Server.{RpcSvrReq}
use razor_rpc.Api.Server.{ApiServerReq}
use razor_rpc.Api.Service.{ServiceStatic, Method, service_mux_struct, mux_serve}
use razor_rpc.Api.Service.Laws.{added, mux_serve-added}
use razor_rpc.Api.Service.Numbers.{services}

-- A service whose errors are numbers.
abbrev decode_number : ℕ ⊎ List ℕ → Result (Unit {0}) ℕ
decode_number (inl n) = ok n
decode_number (inr s) = err tt

abbrev number_codec : RpcErrCodec ℕ
number_codec = record { encode = num; decode = decode_number; should_failover = λ e. ok none }

abbrev copy_into : List ℕ → List ℕ → Result (List ℕ) Encoded
copy_into m out = err out

abbrev copy : Codec (List ℕ)
copy = record { encode = λ m. ok m; encode_into = copy_into; decode = λ bs. ok bs }

abbrev method_of : List ℕ → (List ℕ → Result (RpcError ℕ) (List ℕ)) → Method
method_of name call = record {
  Arg = List ℕ;
  Resp = List ℕ;
  Err = ℕ;
  method_name = name;
  arg_codec = copy;
  resp_codec = copy;
  err_codec = number_codec;
  call = call;
}

abbrev hello : Method
hello = method_of (bytes "hello") (λ m. ok (1 ∷ m))

abbrev refuse : Method
refuse = method_of (bytes "refuse") (λ m. err (user 7))

abbrev old_echo : List ℕ × List Method
old_echo = (bytes "Echo", hello ∷ [])

abbrev echo : List ℕ × List Method
echo = (bytes "Echo", hello ∷ refuse ∷ [])

abbrev calc : List ℕ × List Method
calc = (bytes "Calc", hello ∷ [])

abbrev all_services : List ServiceStatic
all_services = services (calc ∷ echo ∷ old_echo ∷ [])

abbrev called : RpcSvrReq
called = record { seq = 9; action = str (bytes "Echo.refuse"); msg = 5 ∷ []; blob = none }

abbrev dispatched : ApiServerReq
dispatched = record {
  seq = 9;
  service = bytes "Echo";
  method = bytes "refuse";
  req = some (5 ∷ []);
}

unlike : (xs ys : List ℕ) → bytes_eq xs ys ≡ false → xs ≢ ys
unlike xs ys h e =
    let same : bytes_eq xs ys ≡ true = ap (bytes_eq xs) (sym e) ∙ bytes_eq_refl xs in
    ground (arith, h, same)

mux_serve-added_example :
    mux_serve (added all_services) dispatched ≡ (service_mux_struct all_services).serve dispatched
mux_serve-added_example = mux_serve-added all_services dispatched
