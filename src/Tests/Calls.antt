-- ===== src/Tests/Calls.antt =====
-- src/client on concrete answers, and transport/tcp/src on a writer that keeps what it is given.
use razor_rpc.Prelude.{
  ℕ, ◌≡◌, refl, true, List, [], ◌∷◌, none, some, Result, ok, err, arith, inl, inr, ◌⊎◌,
}
use razor_rpc.Prelude.Text.{bytes}
use razor_rpc.Error.{num}
use razor_rpc.Error.Codec.{RpcErrCodec}
use razor_rpc.Api.{ApiClientReq, new, process_res, process, user_error, call_round, next_node}
use razor_rpc.Prelude.{All, ◌≢◌}
use razor_rpc.Proto.{str}
use razor_rpc.Tcp.Server.{RpcSvrReq}
use razor_rpc.Api.Server.{ApiServerReq}
use razor_rpc.Tcp.Client.{write_req}
use razor_rpc.Tests.Sample.{list_writer}
use razor_rpc.Tcp.Stream.{write_blob}

-- A service whose errors are numbers, each of which asks for the next node.
abbrev decode_any : ℕ ⊎ List ℕ → Result (Unit {0}) ℕ
decode_any (inl n) = ok n
decode_any (inr s) = err tt

abbrev number_codec : RpcErrCodec ℕ
number_codec = record { encode = num; decode = decode_any; should_failover = λ e. ok none }

abbrev answer_of : List ℕ → Result (Unit {0}) (List ℕ)
answer_of s = ok s

abbrev request : ApiClientReq
request = new (bytes "Calc.add") (1 ∷ [])

-- The request with the error 7, which the server sent.
abbrev failed : ApiClientReq
failed = record request { res = some (err (num 7)) }

first_round :
    call_round number_codec answer_of [] 3 0 failed ≡ next_node (record failed { res = none }) 0 1
unfolding call_round process_res process user_error new
first_round = refl

written : write_req list_writer (1 ∷ []) (2 ∷ []) (some (3 ∷ [])) true ≡ ok (1 ∷ 2 ∷ 3 ∷ [])
unfolding write_req write_blob
written = refl

-- The request "A.b" of a client.
abbrev arrived : RpcSvrReq
arrived = record { seq = 5; action = str (bytes "A.b"); msg = 1 ∷ []; blob = none }

no_dot : All (λ x. x ≢ 46) (bytes "A")
no_dot = (omega arith, tt)

abbrev served : ApiServerReq
served = record { seq = 5; service = bytes "A"; method = bytes "b"; req = none }
