-- ===== src/Proto/Response/Laws.antt =====
-- stream/src/proto.rs: what `RespHead::encode` and `_encode_error` put into the buffer.
use razor_rpc.Prelude.{
  ℕ, ◌%◌, length-append, ◌^◌, ◌<◌, ◌≤◌, ◌≡◌, List, [], ◌++◌, Option, none, some, ok, arith, length,
  drop, drop-append, append-nil, ◌∙◌,
}
use razor_rpc.Prelude.Int.{pos, as_i32, as_i32-small}
use razor_rpc.Layout.{ByteOrder}
use razor_rpc.Error.{RpcIntErr, EncodedErr, num, static, buf, as_bytes}
use razor_rpc.Error
use razor_rpc.Task.{ServerTaskEncode}
use razor_rpc.Proto.{RespHead, rpc_magic, rpc_version_1, resp_head_bytes, resp_write_head}
use razor_rpc.Proto.Response.{encode, encode_error}

abbrev pub response_head : ℕ → ℕ → ℕ → ℕ → RespHead
response_head flag seq msg_len blob_len = record {
  magic = rpc_magic;
  ver = rpc_version_1;
  flag = flag;
  msg_len = msg_len;
  seq = seq;
  blob_len = pos blob_len;
}

-- The header of an error, and the text behind it.
abbrev pub error_head : ℕ → EncodedErr → RespHead
error_head seq (num n) = response_head 1 seq n 0
error_head seq (Error.rpc e) = response_head 2 seq 0 (length (as_bytes e))
error_head seq (buf s) = response_head 2 seq 0 (length s)
error_head seq (static s) = response_head 2 seq 0 (length s)

abbrev pub error_text : EncodedErr → List ℕ
error_text (num n) = []
error_text (Error.rpc e) = as_bytes e
error_text (buf s) = s
error_text (static s) = s

abbrev pub blob_len_of : Option (List ℕ) → ℕ
blob_len_of none = 0
blob_len_of (some b) = length b

module _ (z : ByteOrder) where
  write_head_ok :
      (out : List ℕ) (flag seq msg_len blob_len : ℕ)
      → 20 ≤ length out
      → blob_len < 2 ^ 31
      → resp_write_head z {E = Unit {0}} out flag seq msg_len (as_i32 blob_len)
        ≡ ok (resp_head_bytes z (response_head flag seq msg_len blob_len) ++ drop 20 out)
  unfolding resp_write_head
  write_head_ok out flag seq msg_len blob_len l b = rw (as_i32-small blob_len b) (ground arith)

  -- Into a buffer that holds the header's room, and if its text is shorter than an i32 can say, an
  -- error goes out as its header, then what the buffer held behind the header's room, then the
  -- error's text.
  encode_error_lem :
      (out : List ℕ) (seq : ℕ) (e : EncodedErr)
      → 20 ≤ length out
      → length (error_text e) < 2 ^ 31
      → encode_error z out seq e
        ≡ ok (resp_head_bytes z (error_head seq e) ++ drop 20 out ++ error_text e)
  unfolding encode_error
  encode_error_lem out seq (num n) l b =
      rw (append-nil) (write_head_ok out 1 seq n 0 l (omega arith))
  encode_error_lem out seq (Error.rpc e) l b =
      ground (arith, write_head_ok out 2 seq 0 (length (as_bytes e)) l b)
  encode_error_lem out seq (buf s) l b = ground (arith, write_head_ok out 2 seq 0 (length s) l b)
  encode_error_lem out seq (static s) l b = ground (arith, write_head_ok out 2 seq 0 (length s) l b)

  -- The same where the buffer is the header's room and a message.
  write_room :
      (room msg : List ℕ) (flag seq msg_len blob_len : ℕ)
      → length room ≡ 20
      → blob_len < 2 ^ 31
      → resp_write_head z {E = Unit {0}} (room ++ msg) flag seq msg_len (as_i32 blob_len)
        ≡ ok (resp_head_bytes z (response_head flag seq msg_len blob_len) ++ msg)
  write_room room msg flag seq msg_len blob_len r b =
      write_head_ok (room ++ msg) flag seq msg_len blob_len (omega (arith, length-append room msg))
        b
      ∙ rw (drop-append 20 room msg r)

  pub encode_error_room :
      (room msg : List ℕ) (seq : ℕ) (e : EncodedErr)
      → length room ≡ 20
      → length (error_text e) < 2 ^ 31
      → encode_error z (room ++ msg) seq e
        ≡ ok (resp_head_bytes z (error_head seq e) ++ msg ++ error_text e)
  encode_error_room room msg seq e r b =
      encode_error_lem (room ++ msg) seq e (omega (arith, length-append room msg)) b
      ∙ rw (drop-append 20 room msg r)

  -- The response to a task whose `encode_resp` wrote `msg` behind the header's room: the header, the
  -- message, and the blob as it is, if both lengths fit the header.
  pub response_encode_ok :
      {T : Type 0} (c : ServerTaskEncode T) (room : List ℕ) (t : T) (seq : ℕ) (msg : List ℕ)
      (blob : Option (List ℕ))
      → length room ≡ 20
      → c.encode_resp t room ≡ record {
        seq = seq;
        buf = room ++ msg;
        res = ok (record { msg_len = length msg; blob = blob });
      }
      → length msg < 2 ^ 32
      → blob_len_of blob < 2 ^ 31
      → encode z c room t
        ≡ ok (record {
          seq = seq;
          buf = resp_head_bytes z (response_head 0 seq (length msg) (blob_len_of blob)) ++ msg;
          blob = blob;
        })
  unfolding encode
  response_encode_ok c room t seq msg none r e m b =
      let size : length msg % 2 ^ 32 ≡ length msg = omega arith in
      rw (e, size) (ground (arith, write_room room msg 0 seq (length msg) 0 r))
  response_encode_ok c room t seq msg (some s) r e m b =
      let size : length msg % 2 ^ 32 ≡ length msg = omega arith in
      rw (e, size) (ground (arith, write_room room msg 0 seq (length msg) (length s) r b))

  -- A blob longer than an i32 can say is reported as `rpc_encode`; but the message that
  -- `encode_resp` has written stays in the buffer, between the header and the error's text.
  pub encode_long_blob :
      {T : Type 0} (c : ServerTaskEncode T) (room : List ℕ) (t : T) (seq : ℕ) (msg s : List ℕ)
      → length room ≡ 20
      → c.encode_resp t room ≡ record {
        seq = seq;
        buf = room ++ msg;
        res = ok (record { msg_len = length msg; blob = some s });
      }
      → length msg < 2 ^ 32
      → 2 ^ 31 ≤ length s
      → encode z c room t
        ≡ ok (record {
          seq = seq;
          buf =
              resp_head_bytes z (error_head seq (Error.rpc Error.encode))
              ++ msg
              ++ as_bytes Error.encode;
          blob = none;
        })
  unfolding encode
  encode_long_blob c room t seq msg s r e m b =
      let sent =
        encode_error_room room msg seq (Error.rpc Error.encode) r
          (unfold as_bytes in omega arith) in
      rw e (ground (arith, sent))
