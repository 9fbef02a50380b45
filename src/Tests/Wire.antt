-- ===== src/Tests/Wire.antt =====
-- A call of the method `add` over a connection.
use razor_rpc.Prelude.{◌≡◌, refl, Bool, true, false, [], ◌∷◌, none, some, ok, arith}
use razor_rpc.Prelude.Int.{ℤ}
use razor_rpc.Prelude.Text.{bytes, is_utf8}
use razor_rpc.Layout.{little_endian}
use razor_rpc.Proto.{str}
use razor_rpc.Timer.{Timer}
use razor_rpc.Timer.Order.{Inv, tasks, lookup_seq}
use razor_rpc.Tcp.Client.ErrorLaws.{Awaited}
use razor_rpc.Tcp.Server.ReadLaws.{Arrives}
use razor_rpc.Api.{ApiClientReq, api_task}
use razor_rpc.Api.Wire.Call.{Travels, wire_call}
use razor_rpc.Tests.Sample.{zeros}
use razor_rpc.Tests.Endpoints.{add, calc, add-IsFaithful}

abbrev always : ℤ → Bool
always n = true

-- The call's task, which the sender has numbered.
abbrev adding : ApiClientReq
adding = record {
  seq = 1;
  req_msg = some (4 ∷ []);
  action = bytes "Calc.add";
  resp = none;
  res = none;
  config_ver = 0;
  last_index = 0;
}

abbrev waiting : Timer ApiClientReq
waiting = record {
  pending = adding ∷ [];
  capacity = 8;
  pending_task_count = 1;
  sent_tasks = [];
  delay_tasks_queue = [];
  min_delay_seq = 0;
  task_timeout = 2;
  processed_seq = 0;
  reg_stopped_flag = false;
}

waiting-Inv : Inv api_task waiting
unfolding api_task
waiting-Inv = record {
  ordered = (omega arith, tt);
  keyed_sent = tt;
  keyed_delay = tt;
  seen = tt;
  seen_delay = tt;
  past = omega arith;
  fresh = (omega arith, tt);
  bounded = omega arith;
  counted = omega arith;
  count_fits = omega arith;
}

awaits : Awaited api_task always waiting 1
unfolding api_task
awaits = record { inv = waiting-Inv; registering = refl; known = omega arith }

finds : lookup_seq api_task 1 (tasks waiting) ≡ some adding
unfolding lookup_seq api_task
finds = refl

names : Arrives (str (bytes "Calc.add"))
unfolding is_utf8
names = (refl, omega arith)

wire_call_example :
    Travels little_endian always
      (zeros 32)
      (zeros 20)
      7
      add
      0
      add-IsFaithful
      calc
      waiting
      adding
      (6 ∷ [])
      (5 ∷ [])
      (ok 5)
wire_call_example =
    wire_call little_endian always (zeros 32) (zeros 20) 7 add 0 add-IsFaithful [] [] (bytes "Calc")
      [] [] waiting adding 4 (4 ∷ []) (6 ∷ []) (5 ∷ [])
      (ground arith, (ground arith, (ground arith, (ground arith, tt)))) tt tt refl refl refl
      (5 ∷ [], refl, omega arith) names refl refl (omega arith) (omega arith) (omega arith) refl
      awaits finds
