-- ===== src/Proto/Request/Laws.antt =====
-- stream/src/proto.rs: what `ReqHead::encode` puts into the buffer, and the errors it reports.
use razor_rpc.Prelude.{
  ℕ, ◌%◌, ◌+◌, ◌-◌, ◌^◌, ◌<◌, ◌≤◌, ◌≡◌, refl, List, [], ◌++◌, Result, ok, err, arith, length, drop,
  length-append, drop-append, append_assoc, ◌⊎◌,
}
use razor_rpc.Prelude.Int.{ℤ, pos, negsuc, as_u32, as_i32, IsI32, as_u32-lt, as_u32-as_i32}
use razor_rpc.Layout.{ByteOrder}
use razor_rpc.Task.{ClientTask}
use razor_rpc.Proto.{
  RpcAction, str, num, ReqHead, get_action, rpc_magic, rpc_version_1, req_head_bytes,
  req_write_head,
}
use razor_rpc.Proto.Request.{encode, blob_size, action_flag, write_action}

-- What follows the header on account of the action.
abbrev pub action_bytes : RpcAction → List ℕ
action_bytes (num n) = []
action_bytes (str s) = s

-- The header of a request.
abbrev pub request_head : ℕ → ℕ → ℕ → ℕ → ℕ → ReqHead
request_head client_id flag seq msg_len blob_len = record {
  magic = rpc_magic;
  ver = rpc_version_1;
  format = 0;
  action = flag;
  seq = seq;
  client_id = client_id;
  msg_len = msg_len;
  blob_len = blob_len;
}

-- The header field of an action: a number's bit pattern, or a length with the highest bit set.
abbrev pub action_field : RpcAction → ℕ
action_field (num n) = as_u32 n
action_field (str s) = length s + 2 ^ 31

-- A number is an i32, and a string is shorter than 2^31.
abbrev pub IsAction : RpcAction → Type 0
IsAction (num n) = IsI32 n
IsAction (str s) = length s < 2 ^ 31

pub action_field-lt : (a : RpcAction) → IsAction a → action_field a < 2 ^ 32
action_field-lt (num n) h = as_u32-lt n
action_field-lt (str s) h = omega arith

-- What `get_action` makes of the field of an action: a number that is not negative comes back as it
-- is, a string as its length; a negative number comes back as the length of a string.
abbrev pub action_read : RpcAction → Result ℤ ℤ
action_read (num (pos n)) = ok (pos n)
action_read (num (negsuc n)) = err (pos (2 ^ 31 - 1 - n))
action_read (str s) = err (pos (length s))

-- `get_action` on the header field of an action that fits: a number that is not negative is read as
-- it is, a string as its length, and a negative number as the length of a string.
pub get_action-field :
    (h : ReqHead) (a : RpcAction)
    → IsAction a
    → h.action ≡ action_field a
    → get_action h ≡ action_read a
unfolding get_action
get_action-field h (num (pos n)) i e = ground arith
get_action-field h (num (negsuc n)) i e = ground arith
get_action-field h (str s) i e = ground arith

action_flag-field : (a : RpcAction) → IsAction a → action_flag a ≡ action_field a
unfolding action_flag
action_flag-field (num n) h = refl
action_flag-field (str s) h = ground arith

drop-write_action :
    (a : RpcAction) (room msg : List ℕ)
    → length room ≡ 32
    → drop 32 (write_action a room ++ msg) ≡ action_bytes a ++ msg
unfolding write_action
drop-write_action (num n) room msg h = drop-append 32 room msg h
drop-write_action (str s) room msg h =
    rw (append_assoc room s msg) (drop-append 32 room (s ++ msg) h)

length-write_action :
    (a : RpcAction) (room msg : List ℕ)
    → length room ≡ 32
    → 32 ≤ length (write_action a room ++ msg)
unfolding write_action
length-write_action (num n) room msg h = omega (arith, length-append room msg)
length-write_action (str s) room msg h =
    omega (arith, length-append (room ++ s) msg, length-append room s)

module _ (z : ByteOrder) {T : Type 0} (c : ClientTask T) where
  -- The task's `encode_req` appends `msg` to the buffer and reports its length, as the trait asks.
  abbrev pub Writes : T → List ℕ → Type 0
  Writes t msg =
      (buf : List ℕ) → c.encode_req t buf ≡ ok (record { buf = buf ++ msg; size = length msg })

  write_head_ok :
      (buf : List ℕ) (client_id flag seq msg_len blob_len : ℕ)
      → 32 ≤ length buf
      → blob_len < 2 ^ 31
      → req_write_head z buf client_id flag seq msg_len (as_i32 blob_len)
        ≡ ok (req_head_bytes z (request_head client_id flag seq msg_len blob_len) ++ drop 32 buf)
  unfolding req_write_head
  write_head_ok buf client_id flag seq msg_len blob_len l b =
      rw (as_u32-as_i32 blob_len (omega arith)) (ground arith)

  -- A request whose message and blob fit the header: the buffer is the header, the action's string
  -- and the message, whatever the buffer held before; the blob is handed over as it is.
  pub request_encode_ok :
      (room : List ℕ) (client_id : ℕ) (t : T) (msg : List ℕ)
      → length room ≡ 32
      → Writes t msg
      → IsAction (c.get_action t)
      → length msg < 2 ^ 32
      → blob_size (c.get_req_blob t) < 2 ^ 31
      → encode z c room client_id t
        ≡ ok (record {
          buf =
              req_head_bytes z (
                request_head client_id
                  (action_field (c.get_action t))
                  (c.seq t)
                  (length msg)
                  (blob_size (c.get_req_blob t)))
              ++ (action_bytes (c.get_action t) ++ msg);
          blob = c.get_req_blob t;
        })
  unfolding encode
  request_encode_ok room client_id t msg r w a m b =
      let action = c.get_action t in
      let blob_len = blob_size (c.get_req_blob t) in
      let size : length msg % 2 ^ 32 ≡ length msg = omega arith in
      let head =
        write_head_ok (write_action action room ++ msg) client_id (action_field action) (c.seq t)
          (length msg) blob_len (length-write_action action room msg r) b in
      rw
        (
          w (write_action action room),
          action_flag-field action a,
          size,
          ← drop-write_action action room msg r,
        )
        (ground (arith, head))

  -- `encode` refuses a request whose blob is longer than an i32 can say, or whose message is longer
  -- than a u32 can say.
  encode_too_long :
      (room : List ℕ) (client_id : ℕ) (t : T) (msg : List ℕ)
      → Writes t msg
      → (2 ^ 32 ≤ length msg) ⊎ (2 ^ 31 ≤ blob_size (c.get_req_blob t))
      → encode z c room client_id t ≡ err tt
  unfolding encode
  encode_too_long room client_id t msg w big =
      rw (w (write_action (c.get_action t) room)) (ground arith)
