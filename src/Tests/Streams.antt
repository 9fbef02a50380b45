-- ===== src/Tests/Streams.antt =====
-- stream/src/client/stream.rs on a stream with the timer of three tasks.
use razor_rpc.Prelude.{ℕ, ◌≡◌, ◌≢◌, refl, false, List, [], ◌∷◌, none, Result, ok, panic, arith}
use razor_rpc.Layout.{little_endian}
use razor_rpc.Proto.Request.{Request}
use razor_rpc.Proto.Request
use razor_rpc.Proto.Request.Laws.{request_encode_ok}
use razor_rpc.Timer.{Timer}
use razor_rpc.Timer.Order.{Inv}
use razor_rpc.Stream.{Stream, send_task, receive_error}
use razor_rpc.Stream.Send.{IsValid, HasRoom, Fate, send_task_fate}
use razor_rpc.Stream.Cleanup.{receive_error_waits}
use razor_rpc.Tests.Sample.{Sample, sample, sample_task, list_transport, zeros}
use razor_rpc.Tests.Timers.{timer, timer-Inv}

abbrev stream : Stream Sample (List ℕ)
stream = record {
  client_id = 4;
  conn = [];
  seq = 4;
  closed = false;
  timer = timer;
  has_err = false;
  throttler = record { thresholds = 128 };
  errors = [];
}

stream-IsValid : IsValid sample_task stream
stream-IsValid = record { inv = timer-Inv; numbered = omega arith; counted = refl }

stream-HasRoom : HasRoom stream
stream-HasRoom = omega arith

no_panic : {A : Type 0} (r : Result (Unit {0}) A) {x : A} → r ≡ ok x → r ≢ panic
no_panic r e p = ground (arith, e, p)

encodes : Request.encode little_endian sample_task (zeros 32) 4 (sample 4) ≢ panic
encodes = no_panic (Request.encode little_endian sample_task (zeros 32) 4 (sample 4)) (
    request_encode_ok little_endian sample_task (zeros 32) 4 (sample 4) (7 ∷ 8 ∷ []) refl
      (λ out. refl) (omega arith) (omega arith) (omega arith))

send_task_fate_example :
    Fate little_endian sample_task list_transport
      (zeros 32)
      stream
      (sample 0)
      (send_task little_endian sample_task list_transport (zeros 32) stream (sample 0) false)
send_task_fate_example =
    send_task_fate little_endian sample_task list_transport (zeros 32) stream (sample 0) false
      stream-IsValid stream-HasRoom refl encodes (λ conn bytes blob b e. ground (arith, e))

-- The counter is one too high.
abbrev miscounted : Timer Sample
miscounted = record timer { pending_task_count = 2 }

miscounted-Inv : Inv sample_task miscounted
miscounted-Inv = record {
  ordered = timer-Inv.ordered;
  keyed_sent = timer-Inv.keyed_sent;
  keyed_delay = timer-Inv.keyed_delay;
  seen = timer-Inv.seen;
  seen_delay = timer-Inv.seen_delay;
  past = timer-Inv.past;
  fresh = timer-Inv.fresh;
  bounded = timer-Inv.bounded;
  counted = omega arith;
  count_fits = omega arith;
}

abbrev miscounting : Stream Sample (List ℕ)
miscounting = record stream { timer = miscounted }

receive_error_waits_example : receive_error sample_task 100 miscounting ≡ none
receive_error_waits_example =
    receive_error_waits sample_task 100 miscounting miscounted-Inv (omega arith)
