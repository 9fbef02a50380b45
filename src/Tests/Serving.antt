-- ===== src/Tests/Serving.antt =====
-- A connection that has read a request, whose answer is in the channel.
use razor_rpc.Prelude.{◌≡◌, ◌⊎◌, arith, ℕ, refl, true, List, [], ◌∷◌, ◌++◌, none}
use razor_rpc.Layout.{little_endian}
use razor_rpc.Proto.{
  resp_write_head, resp_head_bytes, req_decode_head, req_head_of_bytes, get_action,
}
use razor_rpc.Proto.Response
use razor_rpc.Tcp.Server.{read_req, head_or_decode, read_action, read_msg, read_blob}
use razor_rpc.Tcp.Stream.{read_exact}
use razor_rpc.Server.{push, done}
use razor_rpc.Server.Task.{set_result, encoded, variant_done, variant_decode_req, variant_encode}
use razor_rpc.Server.Dispatch.{dispatch_closure}
use razor_rpc.Server.Loop.{is_ping, reader_turn, tcp_server}
use razor_rpc.Server.Batches.{Bytes, none_left, one}
use razor_rpc.Server.Connection.{Connection, waiting, failed, reads, Runs, starts, goes_on}
use razor_rpc.Server.Connection.Laws.{Serving, Runs-Serving}
use razor_rpc.Server.Connection.Drains.{AllAnswered, conn_answers}
use razor_rpc.Tests.Sample.{zeros, list_writer, list_writer-IsWriter}
use razor_rpc.Tests.Servers.{
  dispatch, noti, channels, always, asked, asked_bytes, refused_bytes, encoder, itself, task_bytes,
  resp_head, Task, dispatch_answers, never_fails,
}

abbrev fresh : Connection Task (List ℕ)
fresh = record {
  channels = channels;
  unread = asked_bytes;
  wire = [];
  writing = waiting;
  reading = true;
}

abbrev after : Connection Task (List ℕ)
after = record fresh {
  channels = (reader_turn dispatch noti channels asked).channels;
  unread = refused_bytes;
}

reads_asked :
    Runs dispatch noti little_endian always
      (tcp_server little_endian list_writer itself encoder (zeros 20))
      fresh
      after
unfolding read_req read_exact head_or_decode req_decode_head req_head_of_bytes read_action
    get_action read_msg read_blob little_endian reader_turn is_ping dispatch_closure
    variant_decode_req set_result variant_done done
reads_asked = goes_on starts (reads asked refused_bytes refl refl refl)

asked-Bytes : Bytes little_endian encoder (zeros 20) (after.channels 2).answers task_bytes
unfolding Response.encode resp_write_head resp_head_bytes little_endian variant_encode encoded
    reader_turn is_ping dispatch_closure variant_decode_req set_result variant_done done push
asked-Bytes =
    one task_bytes []
      (record { seq = 5; buf = resp_head 5 2 ++ (7 ∷ 8 ∷ []); blob = none }, refl, refl) none_left

Runs-Serving_example :
    (after.writing ≡ failed)
    ⊎ Serving
        (λ t. t.seq)
        dispatch
        noti
        little_endian
        always
        list_writer
        list_writer-IsWriter
        itself
        encoder
        (zeros 20)
        fresh
        after
Runs-Serving_example =
    Runs-Serving (λ t. t.seq) dispatch noti little_endian always list_writer list_writer-IsWriter
      itself encoder (zeros 20) (λ u. refl) dispatch_answers fresh after refl refl refl reads_asked

conn_answers_example :
    AllAnswered
      (λ t. t.seq)
      dispatch
      noti
      little_endian
      always
      list_writer
      list_writer-IsWriter
      itself
      encoder
      (zeros 20)
      fresh
      after
conn_answers_example =
    conn_answers (λ t. t.seq) dispatch noti little_endian always list_writer list_writer-IsWriter
      itself encoder (zeros 20) (λ u. refl) dispatch_answers never_fails fresh after task_bytes refl
      refl refl reads_asked (λ e. ground (arith, e)) asked-Bytes
