-- ===== src/Tests/Flows.antt =====
-- stream/src/client/stream.rs: a run of a sender and a receiver, and what a receiver returns.
use razor_rpc.Prelude.{ℕ, ◌+◌, ◌≡◌, refl, Bool, true, false, List, [], ◌∷◌, ◌++◌, some, ok, arith}
use razor_rpc.Prelude.Int.{ℤ, pos, negsuc}
use razor_rpc.Layout.{little_endian}
use razor_rpc.Proto.{req_write_head, req_head_bytes}
use razor_rpc.Proto.Request
use razor_rpc.Task.{Reserved}
use razor_rpc.Timer.{reg_task, new as timer_new}
use razor_rpc.Timer.Order.{tasks}
use razor_rpc.Stream.{
  Stream, Sent, returned, new, send_task, send_request, after_encode, after_write, after_request,
  register, nearly_full, get_inflight_count, receive_error,
}
use razor_rpc.Stream.Numbers.{times, KeepsSeq}
use razor_rpc.Stream.Receive.{Receiving, recv_some, recv_one_resp, time_reach}
use razor_rpc.Stream.Rounds.{recv_some_once}
use razor_rpc.Stream.Flow.{Flow, Step, sends, ticks, Reach, begins, steps, Conserved}
use razor_rpc.Stream.Keeps.{Writes}
use razor_rpc.Stream.Once.{start, every_task_once, every_task_ends}
use razor_rpc.Tests.Sample.{Sample, sample, sample_task, list_transport, zeros, reserve_sample}

abbrev always : ℤ → Bool
always n = true

reserved_number :
    (t : Sample) (n : ℤ) (r : Reserved Sample)
    → reserve_sample t n ≡ some r
    → r.task.number ≡ t.number
reserved_number t (pos n) r e = ground (arith, e)
reserved_number t (negsuc n) r e = ground (arith, e)

keeps : KeepsSeq sample_task
keeps = record {
  set_seq = λ t n. refl;
  set_rpc_error = λ t e. refl;
  set_custom_error = λ t e i v. refl;
  set_ok = λ t. refl;
  decode_resp = λ t bs. refl;
  reserve_resp_blob = reserved_number;
  fill_resp_blob = λ t bs. refl;
}

abbrev State : Type 0
State = Flow little_endian sample_task list_transport always

abbrev started : State
started = start little_endian sample_task list_transport always keeps [] 4 30 0

writes : Writes little_endian sample_task list_transport always keeps
writes conn buf blob b e = ground (arith, e)

abbrev after : State → Sent Sample (List ℕ) → Sample → State
after f r x = record f {
  receiving = record f.receiving { stream = r.stream };
  given = f.given ++ x ∷ [];
}

abbrev sent : Sent Sample (List ℕ)
sent =
    send_task little_endian sample_task list_transport (zeros 32) started.receiving.stream
      (sample 0) false

is_sent : sent.outcome ≡ returned (ok tt)
unfolding new timer_new send_task send_request after_encode after_write after_request register
    reg_task nearly_full get_inflight_count Request.encode req_write_head req_head_bytes
    little_endian Request.write_action
is_sent = refl

abbrev busy : State
busy = after started sent (sample 1)

first_step : Step little_endian sample_task list_transport always started busy
unfolding new timer_new Request.encode req_write_head req_head_bytes little_endian
    Request.write_action
first_step =
    sends started (sample 0) (zeros 32) false (ok tt)
      (record { seq_fits = omega arith; count_fits = omega arith }) is_sent (λ e. ground (arith, e))

abbrev later : State
later = record busy {
  receiving = record busy.receiving {
    stream = time_reach little_endian sample_task always busy.receiving.stream;
  };
}

run : Reach little_endian sample_task list_transport always started later
run = steps (steps begins first_step) (ticks busy)

every_task_once_example : Conserved little_endian sample_task list_transport always later
every_task_once_example =
    every_task_once little_endian sample_task list_transport always keeps [] 4 30 0 later writes run

every_task_ends_example :
    (u : Stream Sample (List ℕ)) × (receive_error sample_task 1 later.receiving.stream ≡ some u)
    × (tasks u.timer ≡ [])
    × ((n : ℕ)
        → times sample_task n (sample 1 ∷ [])
          ≡ times sample_task n u.errors + times sample_task n [])
every_task_ends_example =
    every_task_ends little_endian sample_task list_transport always keeps [] 4 30 0 0 later writes
      run refl

abbrev receiving : Receiving Sample (List ℕ)
receiving = started.receiving

recv_some_once_example :
    recv_some little_endian sample_task always 7 (some 3) (false ∷ true ∷ []) receiving ≡ record {
      ran = recv_one_resp little_endian sample_task always (false ∷ true ∷ []) receiving;
      last_resp_ts = some 3;
    }
recv_some_once_example =
    recv_some_once little_endian sample_task always 7 (some 3) (false ∷ true ∷ []) receiving
