-- ===== src/Tests/Servers.antt =====
-- stream/src/server on a connection with a request, a refused request and a ping, and on a clock.
use razor_rpc.Prelude.{
  ℕ, ◌+◌, ◌*◌, ◌≡◌, refl, Bool, true, List, [], ◌∷◌, ◌++◌, none, some, Result, ok, err, panic,
  length, is_empty, if◌then◌else◌,
}
use razor_rpc.Prelude.Int.{ℤ, pos}
use razor_rpc.Layout.{little_endian}
use razor_rpc.Error.Codec.{unit_codec}
use razor_rpc.Proto.{num}
use razor_rpc.Proto.Response
use razor_rpc.Task.{ServerTaskEncode, Encoded}
use razor_rpc.Tcp.Server.{
  RpcSvrReq, read_req, write_resp, write_resp_internal, head_or_decode, read_action, read_msg,
  read_blob,
}
use razor_rpc.Tcp.Stream.{read_exact, write_blob}
use razor_rpc.Proto.{
  resp_write_head, resp_head_bytes, req_decode_head, req_head_of_bytes, get_action,
}
use razor_rpc.Codec.{Codec}
use razor_rpc.Server.{Channels, RespNoti, task, quick, done}
use razor_rpc.Server.Task.{
  ServerTaskVariant, ServerTaskVariantFull, set_result, encoded, variant_done, variant_decode_req,
  variant_encode,
}
use razor_rpc.Server.Answers.{Replies, Sends, Sends-push, variant_answers}
use razor_rpc.Server.Dispatch.{Dispatch, Dispatched, dispatch_closure}
use razor_rpc.Server.Loop.{
  Batch, writer_run, write_batch, process, process_all, flush_resp, close_conn, tcp_server,
}
use razor_rpc.Server.Close.{RpcServer, Tick}
use razor_rpc.Server.Turns.{AnswersAtOnce, answers, refuses, Arriving, no_more, next}
use razor_rpc.Server.Batches.{flatten, Bytes, none_left, one, NeverFails, writer_run-sent}
use razor_rpc.Tests.Sample.{zeros, list_writer, list_writer-IsWriter}

-- Messages that are their own bytes, of which none is empty.
abbrev write_bytes : List ℕ → List ℕ → Result (List ℕ) Encoded
write_bytes m out = ok (record { buf = out ++ m; size = length m })

abbrev read_bytes : List ℕ → Result (Unit {0}) (List ℕ)
read_bytes bs = if is_empty bs then err tt else ok bs

abbrev bytes_codec : Codec (List ℕ)
bytes_codec = record { encode = λ m. ok m; encode_into = write_bytes; decode = read_bytes }

abbrev pub channels : Channels (ServerTaskVariant (List ℕ) (Unit {0}))
channels i = record { answers = []; has_writer = true }

abbrev pub noti : RespNoti
noti = record { channel = 2 }

abbrev pub itself : {A : Type 0} → A → A
itself x = x

abbrev finished : Result (Unit {0}) (Unit {0})
finished = ok tt

variant_answers_example :
    let codec = bytes_codec in
    (t : ServerTaskVariant (List ℕ) (Unit {0})) × (u : ServerTaskVariant (List ℕ) (Unit {0}))
    × (cs1 : Channels (ServerTaskVariant (List ℕ) (Unit {0}))) × (variant_decode_req codec
          (num (pos 1))
          5
          (7 ∷ 8 ∷ [])
          (some (9 ∷ []))
          noti
        ≡ ok t)
    × (set_result variant_done itself t finished channels ≡ ok cs1)
    × Sends channels cs1 noti (task (itself u))
    × let sent = (variant_encode codec unit_codec).encode_resp u (zeros 20) in
      (sent.seq ≡ 5)
      × Replies unit_codec finished
          (bytes_codec.encode_into (7 ∷ 8 ∷ []) (zeros 20))
          (some (9 ∷ []))
          (zeros 20)
          sent
variant_answers_example =
    variant_answers bytes_codec unit_codec itself (num (pos 1)) 5 (7 ∷ 8 ∷ []) (7 ∷ 8 ∷ [])
      (some (9 ∷ [])) noti finished channels (zeros 20) refl refl

abbrev full_channels : Channels (ServerTaskVariantFull (List ℕ) (List ℕ) (Unit {0}))
full_channels i = record { answers = []; has_writer = true }

-- The clock of a close whose connections stay.
abbrev clock : ℕ → Tick
clock i = record { refs = 3; elapsed = 1000 * (i + 1) }

abbrev serving : RpcServer
serving = record {
  listeners_abort = (65 ∷ []) ∷ (66 ∷ []) ∷ [];
  aborted = [];
  refs = 4;
  has_close_tx = true;
}

-- Two bytes of a message, from a request with the given action and number.
abbrev head : ℕ → ℕ → ℕ → List ℕ
head action seq msg_len =
    37 ∷ 77 ∷ 1 ∷ 0 ∷ action ∷ 0 ∷ 0 ∷ 0 ∷ seq ∷ 0 ∷ 0 ∷ 0 ∷ 0 ∷ 0 ∷ 0 ∷ 0 ∷ zeros 8
    ++ (msg_len ∷ 0 ∷ 0 ∷ 0 ∷ zeros 4)

abbrev pub always : ℤ → Bool
always n = true

abbrev pub asked : RpcSvrReq
asked = record { seq = 5; action = num (pos 3); msg = 7 ∷ 8 ∷ []; blob = none }

abbrev refused : RpcSvrReq
refused = record { seq = 6; action = num (pos 3); msg = []; blob = none }

abbrev ping : RpcSvrReq
ping = record { seq = 7; action = num (pos 0); msg = []; blob = none }

abbrev ping_bytes : List ℕ
ping_bytes = head 0 7 0

abbrev pub refused_bytes : List ℕ
refused_bytes = head 3 6 0 ++ ping_bytes

abbrev pub asked_bytes : List ℕ
asked_bytes = head 3 5 2 ++ (7 ∷ 8 ∷ refused_bytes)

arrive : Arriving little_endian always asked_bytes (asked ∷ refused ∷ ping ∷ []) []
unfolding read_req read_exact head_or_decode req_decode_head req_head_of_bytes read_action
    get_action read_msg read_blob little_endian
arrive = next refl (next refl (next refl no_more))

abbrev pub Task : Type 0
Task = ServerTaskVariant (List ℕ) (Unit {0})

abbrev answer_at_once : Task → Channels Task → Dispatched Task
answer_at_once t cs = elim (set_result variant_done itself t finished cs) [
  | ok cs1 ↦ record { channels = cs1; res = ok tt }
  | err u ↦ record { channels = cs; res = err tt }
  | panic ↦ record { channels = cs; res = panic }
]

abbrev pub dispatch : Dispatch Task
dispatch = dispatch_closure (record { decode_req = variant_decode_req bytes_codec }) answer_at_once

pub dispatch_answers :
    (req : RpcSvrReq) (ds : Channels Task)
    → (ds noti.channel).has_writer ≡ true
    → AnswersAtOnce (λ t. t.seq) dispatch req noti ds
unfolding dispatch_closure variant_decode_req set_result variant_done done
dispatch_answers req ds w = split req.msg refl
  where
    split : (msg : List ℕ) → req.msg ≡ msg → AnswersAtOnce (λ t. t.seq) dispatch req noti ds
    split [] e = refuses (rw e refl) (rw e refl)
    split (x ∷ xs) e =
        let t : Task = record {
          seq = req.seq;
          action = req.action;
          msg = x ∷ xs;
          blob = req.blob;
          res = some finished;
          noti = none;
        } in
        answers t refl (rw e refl) (rw (e, w) (Sends-push ds noti (task t)))

-- A task whose answer is written, and the answer to a ping.
abbrev pub answered_task : Task
answered_task = record {
  seq = 5;
  action = num (pos 3);
  msg = 7 ∷ 8 ∷ [];
  blob = none;
  res = some finished;
  noti = none;
}

abbrev batches : List (Batch Task)
batches = record { first = task answered_task; more = quick 7 none ∷ [] } ∷ []

-- The header of a response with no error.
abbrev pub resp_head : ℕ → ℕ → List ℕ
resp_head seq msg_len = 37 ∷ 77 ∷ 1 ∷ 0 ∷ msg_len ∷ 0 ∷ 0 ∷ 0 ∷ seq ∷ zeros 7 ++ zeros 4

abbrev pub task_bytes : List ℕ
task_bytes = (resp_head 5 2 ++ (7 ∷ 8 ∷ [])) ++ []

abbrev both : List ℕ
both = task_bytes ++ (resp_head 7 0 ++ [])

abbrev pub encoder : ServerTaskEncode Task
encoder = variant_encode bytes_codec unit_codec

both-Bytes : Bytes little_endian encoder (zeros 20) (flatten batches) both
unfolding Response.encode Response.encode_internal resp_write_head resp_head_bytes little_endian
    variant_encode encoded
both-Bytes =
    one task_bytes (resp_head 7 0 ++ [])
      (record { seq = 5; buf = resp_head 5 2 ++ (7 ∷ 8 ∷ []); blob = none }, refl, refl)
      (one (resp_head 7 0) [] refl none_left)

appends : (s bs : List ℕ) → (t : List ℕ) × (list_writer.write_all s bs ≡ ok t)
appends s bs = (s ++ bs, refl)

pub never_fails :
    NeverFails little_endian list_writer list_writer-IsWriter itself encoder (zeros 20)
never_fails = (appends, λ s. (s, refl))

writes_both :
    writer_run (tcp_server little_endian list_writer itself encoder (zeros 20)) [] batches ≡ ok both
unfolding writer_run write_batch process process_all tcp_server flush_resp close_conn write_resp
    write_resp_internal write_blob Response.encode Response.encode_internal resp_write_head
    resp_head_bytes little_endian variant_encode encoded
writes_both = refl

writer_run-sent_example :
    (out : List ℕ) × Bytes little_endian encoder (zeros 20) (flatten batches) out
    × (both ≡ [] ++ out)
writer_run-sent_example =
    writer_run-sent little_endian list_writer list_writer-IsWriter itself encoder (zeros 20) batches
      [] both (λ u. refl) writes_both
