-- ===== src/Tcp/Server/ReadLaws.antt =====
-- transport/tcp/src/server.rs: `read_req` on the bytes of a request that a client encoded.
use razor_rpc.Prelude.{
  ℕ, ◌^◌, ◌<◌, ◌≡◌, refl, Bool, true, false, List, [], ◌∷◌, ◌++◌, Option, none, some, ok, arith,
  length, append_assoc,
}
use razor_rpc.Prelude.Int.{ℤ, pos, negsuc, as_i32, as_i32-small, as_usize}
use razor_rpc.Prelude.Text.{is_utf8}
use razor_rpc.Layout.{ByteOrder}
use razor_rpc.Error.{io}
use razor_rpc.Task.{ClientTask}
use razor_rpc.Proto.{RpcAction, str, num, req_head_bytes}
use razor_rpc.Proto.Heads.{IsReqHead, length-req_head_bytes, req_decode_head-bytes}
use razor_rpc.Proto.Request.{Request, blob_size, encode}
use razor_rpc.Proto.Request.Laws.{
  IsAction, action_bytes, action_field, action_field-lt, action_read, get_action-field,
  request_head, Writes, request_encode_ok,
}
use razor_rpc.Tcp.Stream.{read_exact-append, blob_bytes}
use razor_rpc.Tcp.Server.{read_action, read_msg, read_blob, read_req, head_or_decode}

-- An action that arrives as it was sent: a number that is not negative, or a string.
abbrev pub Arrives : RpcAction → Type 0
Arrives (num (pos n)) = n < 2 ^ 31
Arrives (num (negsuc n)) = ⊥
Arrives (str s) = (is_utf8 s ≡ true) × (length s < 2 ^ 31)

Arrives-IsAction : (a : RpcAction) → Arrives a → IsAction a
Arrives-IsAction (num (pos n)) h = h
Arrives-IsAction (num (negsuc n)) h = absurd h
Arrives-IsAction (str s) h = h.1

-- An empty blob arrives as none.
abbrev pub received_blob : Option (List ℕ) → Option (List ℕ)
received_blob none = none
received_blob (some []) = none
received_blob (some (x ∷ xs)) = some (x ∷ xs)

read_action_lem :
    (a : RpcAction) (r : List ℕ)
    → Arrives a
    → read_action (action_read a) (action_bytes a ++ r) ≡ ok (record { action = a; rest = r })
unfolding read_action
read_action_lem (num (pos n)) r h = refl
read_action_lem (num (negsuc n)) r h = absurd h
read_action_lem (str s) r h =
    let len : as_usize (pos (length s)) ≡ length s = omega (arith, h.1) in
    rw (len, read_exact-append io (length s) s r refl) (ground (arith, h.0))

read_msg_lem :
    (msg r : List ℕ) → read_msg (length msg) (msg ++ r) ≡ ok (record { got = msg; rest = r })
unfolding read_msg
read_msg_lem [] r = refl
read_msg_lem (x ∷ xs) r = ground (arith, read_exact-append io (length (x ∷ xs)) (x ∷ xs) r refl)

module _ (z : ByteOrder) (alloc : ℤ → Bool) where
  read_blob_lem :
      (b : Option (List ℕ)) (r : List ℕ)
      → blob_size b < 2 ^ 31
      → alloc (pos (blob_size b)) ≡ true
      → read_blob z alloc (as_i32 (blob_size b)) (blob_bytes b ++ r)
        ≡ ok (record { blob = received_blob b; rest = r })
  unfolding read_blob
  read_blob_lem none r h k = refl
  read_blob_lem (some []) r h k = refl
  read_blob_lem (some (x ∷ xs)) r h k =
      let len : as_usize (pos (length (x ∷ xs))) ≡ length (x ∷ xs) = omega arith in
      rw (as_i32-small (length (x ∷ xs)) h, k, len)
        (ground (arith, read_exact-append io (length (x ∷ xs)) (x ∷ xs) r refl))

  -- The body of `read_req` behind the header.
  read_req_bytes :
      (a : RpcAction) (client_id seq : ℕ) (msg : List ℕ) (b : Option (List ℕ)) (rest : List ℕ)
      → Arrives a
      → client_id < 2 ^ 64
      → seq < 2 ^ 64
      → length msg < 2 ^ 32
      → blob_size b < 2 ^ 31
      → alloc (pos (blob_size b)) ≡ true
      → read_req z alloc false (
          req_head_bytes z (request_head client_id (action_field a) seq (length msg) (blob_size b))
          ++ (action_bytes a ++ (msg ++ (blob_bytes b ++ rest))))
        ≡ ok (record {
          req = record { seq = seq; action = a; msg = msg; blob = received_blob b };
          rest = rest;
        })
  unfolding read_req head_or_decode
  read_req_bytes a client_id seq msg b rest h hc hs hm hb ha =
      let head = request_head client_id (action_field a) seq (length msg) (blob_size b) in
      let v : IsReqHead head = record {
        magic = omega arith;
        ver = omega arith;
        format = omega arith;
        action = action_field-lt a (Arrives-IsAction a h);
        seq = hs;
        client_id = hc;
        msg_len = hm;
        blob_len = omega arith;
      } in
      rw (
        read_exact-append io 32 (req_head_bytes z head)
            (action_bytes a ++ (msg ++ (blob_bytes b ++ rest))) (length-req_head_bytes z head),
        req_decode_head-bytes z head v,
        get_action-field head a (Arrives-IsAction a h) refl,
        read_action_lem a (msg ++ (blob_bytes b ++ rest)) h,
        read_msg_lem msg (blob_bytes b ++ rest),
        read_blob_lem b rest hb ha,
      )

  -- For a task whose number, message and blob fit the header, and whose action is a number that is not
  -- negative or UTF-8 text, if the server can allocate the blob: what the client's encoder puts on the stream (the buffer, then the blob) is what the server
  -- reads: the number, the action, the message and the blob are the task's, and the stream stands
  -- behind them; an empty blob arrives as none.
  pub read_req-encode :
      {T : Type 0} (c : ClientTask T) (room : List ℕ) (client_id : ℕ) (t : T) (msg rest : List ℕ)
      → length room ≡ 32
      → Writes z c t msg
      → Arrives (c.get_action t)
      → client_id < 2 ^ 64
      → c.seq t < 2 ^ 64
      → length msg < 2 ^ 32
      → blob_size (c.get_req_blob t) < 2 ^ 31
      → alloc (pos (blob_size (c.get_req_blob t))) ≡ true
      → (q : Request) × (encode z c room client_id t ≡ ok q)
        × (read_req z alloc false (q.buf ++ (blob_bytes q.blob ++ rest))
            ≡ ok (record {
              req = record {
                seq = c.seq t;
                action = c.get_action t;
                msg = msg;
                blob = received_blob (c.get_req_blob t);
              };
              rest = rest;
            }))
  read_req-encode c room client_id t msg rest r w a hc hs hm hb ha =
      let action = c.get_action t in
      let b = c.get_req_blob t in
      let head =
        request_head client_id (action_field action) (c.seq t) (length msg) (blob_size b) in
      let bs = req_head_bytes z head in
      (
        record { buf = bs ++ (action_bytes action ++ msg); blob = b },
        request_encode_ok z c room client_id t msg r w (Arrives-IsAction action a) hm hb,
        rw
            (
              append_assoc bs (action_bytes action ++ msg) (blob_bytes b ++ rest),
              append_assoc (action_bytes action) msg (blob_bytes b ++ rest),
            )
            (read_req_bytes action client_id (c.seq t) msg b rest a hc hs hm hb ha),
      )
