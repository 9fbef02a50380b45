-- ===== src/Tests/Connections.antt =====
-- transport/tcp/src on the bytes of a request and of responses.
use razor_rpc.Prelude.{
  ℕ, ◌≤◌, ◌≢◌, panic, ◌≡◌, refl, Bool, true, false, List, [], ◌∷◌, ◌++◌, none, some, ok, arith,
}
use razor_rpc.Prelude.Int.{ℤ, pos}
use razor_rpc.Layout.{little_endian}
use razor_rpc.Error.{num}
use razor_rpc.Proto.{RespHead}
use razor_rpc.Proto
use razor_rpc.Proto.Request.{Request}
use razor_rpc.Proto.Request
use razor_rpc.Proto.Response.{Response}
use razor_rpc.Proto.Response
use razor_rpc.Proto.Response.Laws.{response_head}
use razor_rpc.Timer.{ready}
use razor_rpc.Timer.Order.{tasks, erase_seq, lookup_seq}
use razor_rpc.Tcp.Stream.{blob_bytes, read_exact}
use razor_rpc.Tcp.Server.{read_req}
use razor_rpc.Tcp.Server.ReadLaws.{read_req-encode}
use razor_rpc.Tcp.Client.{read_resp, recv_task}
use razor_rpc.Tcp.Client.Outcomes.{handed, recv_task_once}
use razor_rpc.Tcp.Client.ErrorLaws.{Awaited, error_set, read_resp-encode_error}
use razor_rpc.Tcp.Client.ReadLaws.{read_resp-encode}
use razor_rpc.Tcp.Client.Skips.{Skips, read_resp-skip}
use razor_rpc.Tests.Sample.{Sample, sample, sample_task, zeros}
use razor_rpc.Task.{ServerTaskEncode, RespParts}
use razor_rpc.Tests.Timers.{timer, timer-Inv}

abbrev always : ℤ → Bool
always n = true

read_req-encode_example :
    (q : Request) × (Request.encode little_endian sample_task (zeros 32) 4 (sample 5) ≡ ok q)
    × (read_req little_endian always false (q.buf ++ (blob_bytes q.blob ++ (6 ∷ [])))
        ≡ ok (record {
          req = record {
            seq = 5;
            action = Proto.num (pos 3);
            msg = 7 ∷ 8 ∷ [];
            blob = some (9 ∷ []);
          };
          rest = 6 ∷ [];
        }))
read_req-encode_example =
    read_req-encode little_endian always sample_task (zeros 32) 4 (sample 5) (7 ∷ 8 ∷ []) (6 ∷ [])
      refl (λ out. refl) (omega arith) (omega arith) (omega arith) (omega arith) (omega arith) refl

-- A server's response to the task that is in the channel.
abbrev encode_three : Unit {0} → List ℕ → RespParts
encode_three u out = record {
  seq = 3;
  buf = out ++ (1 ∷ 2 ∷ []);
  res = ok (record { msg_len = 2; blob = some (3 ∷ []) });
}

abbrev answering_three : ServerTaskEncode (Unit {0})
answering_three = record { encode_resp = encode_three }

awaited : (n : ℕ) → n ≤ 3 → Awaited sample_task always timer n
awaited n h = record { inv = timer-Inv; registering = refl; known = h }

lookups :
    (lookup_seq sample_task 3 (tasks timer) ≡ some (sample 3))
    × (lookup_seq sample_task 2 (tasks timer) ≡ some (sample 2))
    × (lookup_seq sample_task 0 (tasks timer) ≡ none)
unfolding lookup_seq
lookups = (refl, refl, refl)

-- The task after its blob, and after its message.
abbrev lent : Sample
lent = record (sample 3) { answer = 3 ∷ [] }

abbrev taken : Sample
taken = record (sample 3) { answer = 3 ∷ 1 ∷ 2 ∷ [] }

read_resp-encode_example :
    (q : Response) × (Response.encode little_endian answering_three (zeros 20) tt ≡ ok q)
    × let r =
        read_resp sample_task always little_endian false timer
          (q.buf ++ (blob_bytes q.blob ++ (6 ∷ []))) in
      (r.errors ≡ [])
      × (r.dones ≡ taken ∷ [])
      × (r.rest ≡ 6 ∷ [])
      × (r.poll ≡ ready (ok true))
      × (tasks r.timer ≡ erase_seq sample_task 3 (tasks timer))
read_resp-encode_example =
    read_resp-encode sample_task always little_endian answering_three (zeros 20) tt 3 (1 ∷ 2 ∷ [])
      (some (3 ∷ [])) timer (sample 3) lent taken (6 ∷ []) refl refl (omega arith) (omega arith)
      (omega arith) (awaited 3 (omega arith)) lookups.0 (sample 3, refl, refl) refl

-- Number 0 was never given to a task.
abbrev encode_zero : Unit {0} → List ℕ → RespParts
encode_zero u out = record {
  seq = 0;
  buf = out ++ (1 ∷ 2 ∷ []);
  res = ok (record { msg_len = 2; blob = some (3 ∷ []) });
}

abbrev answering_zero : ServerTaskEncode (Unit {0})
answering_zero = record { encode_resp = encode_zero }

read_resp-skip_example :
    ((q : Response) × (Response.encode little_endian answering_zero (zeros 20) tt ≡ ok q)
      × Skips sample_task always little_endian timer (q.buf ++ blob_bytes q.blob) (6 ∷ []))
    × ((bs : List ℕ) × (Response.encode_error little_endian (zeros 20) 0 (num 17) ≡ ok bs)
        × Skips sample_task always little_endian timer bs (6 ∷ []))
read_resp-skip_example =
    read_resp-skip sample_task always little_endian answering_zero (zeros 20) tt 0 (1 ∷ 2 ∷ [])
      (some (3 ∷ [])) (num 17) timer (6 ∷ []) refl refl (omega arith) (omega arith) (omega arith)
      (awaited 0 (omega arith)) lookups.2 refl refl

read_resp-encode_error_example :
    (bs : List ℕ) × (Response.encode_error little_endian (zeros 20) 2 (num 17) ≡ ok bs)
    × let r = read_resp sample_task always little_endian false timer (bs ++ (6 ∷ [])) in
      (r.errors ≡ error_set sample_task (sample 2) (num 17) ∷ [])
      × (r.dones ≡ [])
      × (r.rest ≡ 6 ∷ [])
      × (r.poll ≡ ready (ok true))
      × (tasks r.timer ≡ erase_seq sample_task 2 (tasks timer))
read_resp-encode_error_example =
    read_resp-encode_error sample_task always little_endian (zeros 20) 2 (num 17) timer (sample 2)
      (6 ∷ []) refl (omega arith) (omega arith) (awaited 2 (omega arith)) lookups.1

-- A response of two bytes of which one arrives.
abbrev short : RespHead
short = response_head 0 3 2 0

short-fails : (recv_task sample_task always short (sample 3) (1 ∷ [])).res ≢ panic
unfolding recv_task read_exact
short-fails e = ground (arith, e)

recv_task_once_example : handed (recv_task sample_task always short (sample 3) (1 ∷ [])) ≡ 1
recv_task_once_example = recv_task_once sample_task always short (sample 3) (1 ∷ []) short-fails
