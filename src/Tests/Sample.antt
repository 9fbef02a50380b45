-- ===== src/Tests/Sample.antt =====
-- A small task with a message, an optional blob and a place for the response, and a stream that
-- writes to a list.
use razor_rpc.Prelude.{
  arith, ℕ, zero, suc, List, [], ◌∷◌, ◌++◌, Option, none, some, Result, ok, length, Bool,
}
use razor_rpc.Prelude.Int.{ℤ, pos, negsuc}
use razor_rpc.Error.{EncodedErr, rpc}
use razor_rpc.Proto.{num}
use razor_rpc.Task.{ClientTask, ServerTaskEncode, Encoded, Decoded, Reserved, RespParts}
use razor_rpc.Stream.{ClientTransport}
use razor_rpc.Tcp.Stream.{Writer, IsWriter}

pub record Sample : Type 0 where
  pub number : ℕ
  pub msg : List ℕ
  pub blob : Option (List ℕ)
  pub error : Option EncodedErr
  pub answer : List ℕ

abbrev pub encode_sample : Sample → List ℕ → Result (Unit {0}) Encoded
encode_sample t out = ok (record { buf = out ++ t.msg; size = length t.msg })

abbrev pub decode_sample : Sample → List ℕ → Decoded Sample
decode_sample t bs = record { task = record t { answer = t.answer ++ bs }; res = ok tt }

abbrev pub reserve_sample : Sample → ℤ → Option (Reserved Sample)
reserve_sample t (pos n) = some (record { task = t; room = n })
reserve_sample t (negsuc n) = none

abbrev pub fill_sample : Sample → List ℕ → Sample
fill_sample t bs = record t { answer = bs }

abbrev pub error_sample : Sample → EncodedErr → Sample
error_sample t e = record t { error = some e }

abbrev pub number_sample : Sample → ℕ → Sample
number_sample t n = record t { number = n }

abbrev pub sample_task : ClientTask Sample
sample_task = record {
  get_action = λ t. num (pos 3);
  encode_req = encode_sample;
  get_req_blob = λ t. t.blob;
  decode_resp = decode_sample;
  reserve_resp_blob = reserve_sample;
  fill_resp_blob = fill_sample;
  seq = λ t. t.number;
  set_seq = number_sample;
  set_custom_error = λ t e i v. error_sample t e;
  set_rpc_error = λ t e. error_sample t (rpc e);
  set_ok = λ t. t;
}

-- A task with the number `n`.
abbrev pub sample : ℕ → Sample
sample n = record { number = n; msg = 7 ∷ 8 ∷ []; blob = some (9 ∷ []); error = none; answer = [] }

-- A server's response to number 5.
abbrev pub encode_answer : Unit {0} → List ℕ → RespParts
encode_answer u out = record {
  seq = 5;
  buf = out ++ (1 ∷ 2 ∷ []);
  res = ok (record { msg_len = 2; blob = some (3 ∷ []) });
}

abbrev pub answering : ServerTaskEncode (Unit {0})
answering = record { encode_resp = encode_answer }

-- A connection that takes everything.
abbrev pub write_list : List ℕ → List ℕ → Option (List ℕ) → Bool → Result (Unit {0}) (List ℕ)
write_list w bytes blob flush = ok (w ++ bytes)

abbrev pub flush_list : List ℕ → Result (Unit {0}) (List ℕ)
flush_list w = ok w

abbrev pub list_transport : ClientTransport (List ℕ)
list_transport = record { write_req = write_list; flush_req = flush_list }

-- A header's room.
abbrev pub zeros : ℕ → List ℕ
zeros zero = []
zeros (suc n) = 0 ∷ zeros n

-- A writer that keeps a list.
abbrev pub append_bytes : List ℕ → List ℕ → Result (Unit {0}) (List ℕ)
append_bytes w bs = ok (w ++ bs)

abbrev pub flush_nothing : List ℕ → Result (Unit {0}) (List ℕ)
flush_nothing w = ok w

abbrev pub everything : List ℕ → List ℕ
everything w = w

abbrev pub list_writer : Writer (List ℕ)
list_writer = record { write_all = append_bytes; flush = flush_nothing; sent = everything }

pub list_writer-IsWriter : IsWriter list_writer
list_writer-IsWriter = record {
  write_all-sent = λ s t bs e. ground (arith, e);
  flush-sent = λ s t e. ground (arith, e);
}
