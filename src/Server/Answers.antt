-- ===== src/Server/Answers.antt =====
-- stream/src/server/task.rs: the way of a request through a task to its answer.
use razor_rpc.Prelude.{
  ℕ, ◌≡◌, ◌⊎◌, refl, ap, true, List, [], ◌∷◌, ◌++◌, Option, none, some, Result, ok, err, panic,
  arith,
}
use razor_rpc.Error.{EncodedErr, encode}
use razor_rpc.Error
use razor_rpc.Error.Codec.{RpcErrCodec}
use razor_rpc.Proto.{RpcAction}
use razor_rpc.Task.{RespParts, Encoded}
use razor_rpc.Codec.{Codec}
use razor_rpc.Server.{Channels, RespNoti, Answer, task, push, done}
use razor_rpc.Server.Task.{
  ServerTaskVariant, ServerTaskVariantFull, set_result, encoded, variant_done, variant_decode_req,
  variant_encode, full_done, full_decode_req, full_encode,
}

-- That the channels after a call differ from those before by one more answer on one of them.
pub record Sends {R : Type 0} (cs cs1 : Channels R) (noti : RespNoti) (a : Answer R) : Type 0 where
  pub sent : (cs1 noti.channel).answers ≡ (cs noti.channel).answers ++ a ∷ []
  pub writer : (cs1 noti.channel).has_writer ≡ (cs noti.channel).has_writer
  pub others : (i : ℕ) → (i ≡ noti.channel) ⊎ (cs1 i ≡ cs i)

pub Sends-push :
    {R : Type 0} (cs : Channels R) (noti : RespNoti) (a : Answer R)
    → Sends cs (push cs noti a) noti a
unfolding push
Sends-push cs noti a = record {
  sent = ground arith;
  writer = ground arith;
  others = λ i. ground arith;
}

done-push :
    {R : Type 0} (cs : Channels R) (noti : RespNoti) (x : R)
    → (cs noti.channel).has_writer ≡ true
    → done cs noti x ≡ push cs noti (task x)
unfolding done
done-push cs noti x h = rw h refl

-- What an answer is to be, by the result of the task and what the codec has made of the message behind
-- `out`: the message with its size and the blob, an encoding error, or the error of the result, with
-- which no message is written.
abbrev pub Replies :
    {E : Type 0}
    → RpcErrCodec E
    → Result E (Unit {0})
    → Result (List ℕ) Encoded
    → Option (List ℕ)
    → List ℕ
    → RespParts
    → Type 0
Replies errors (ok u) (ok e) blob out sent =
    (sent.buf ≡ e.buf) × (sent.res ≡ ok (record { msg_len = e.size; blob = blob }))
Replies errors (ok u) (err left) blob out sent =
    (sent.buf ≡ left) × (sent.res ≡ err (Error.rpc encode))
Replies errors (ok u) panic blob out sent = sent.res ≡ panic
Replies errors (err x) e blob out sent = (sent.buf ≡ out) × (sent.res ≡ err (errors.encode x))
Replies errors panic e blob out sent = sent.res ≡ panic

module _ {M E R : Type 0} (codec : Codec M) (errors : RpcErrCodec E)
    (into : ServerTaskVariant M E → R) where
  variant_encode-Replies :
      (u : ServerTaskVariant M E) (res : Result E (Unit {0})) (out : List ℕ)
      (e : Result (List ℕ) Encoded)
      → u.res ≡ some res
      → codec.encode_into u.msg out ≡ e
      → let sent = (variant_encode codec errors).encode_resp u out in
        (sent.seq ≡ u.seq) × Replies errors res e u.blob out sent
  unfolding variant_encode encoded
  variant_encode-Replies u (ok x) out (ok e) h k = rw (h, k) (refl, (refl, refl))
  variant_encode-Replies u (ok x) out (err left) h k = rw (h, k) (refl, (refl, refl))
  variant_encode-Replies u (ok x) out panic h k = rw (h, k) (refl, refl)
  variant_encode-Replies u (err x) out e h k = rw h (refl, (refl, refl))
  variant_encode-Replies u panic out e h k = rw h (refl, refl)

  -- While the writer is there, the task that a request is decoded into gives, by `set_result`,
  -- exactly one answer, on the channel that came with the request and on no other; encoded, the
  -- answer has the request's number and blob, and the message or the error of the result.
  pub variant_answers :
      (action : RpcAction) (seq : ℕ) (msg : List ℕ) (m : M) (blob : Option (List ℕ))
      (noti : RespNoti) (res : Result E (Unit {0})) (cs : Channels R) (out : List ℕ)
      → codec.decode msg ≡ ok m
      → (cs noti.channel).has_writer ≡ true
      → (t : ServerTaskVariant M E) × (u : ServerTaskVariant M E) × (cs1 : Channels R)
        × (variant_decode_req codec action seq msg blob noti ≡ ok t)
        × (set_result variant_done into t res cs ≡ ok cs1)
        × Sends cs cs1 noti (task (into u))
        × let sent = (variant_encode codec errors).encode_resp u out in
          (sent.seq ≡ seq) × Replies errors res (codec.encode_into m out) blob out sent
  unfolding variant_decode_req set_result variant_done
  variant_answers action seq msg m blob noti res cs out e w =
      let t : ServerTaskVariant M E = record {
        seq = seq;
        action = action;
        msg = m;
        blob = blob;
        res = none;
        noti = some noti;
      } in
      let u : ServerTaskVariant M E = record {
        seq = seq;
        action = action;
        msg = m;
        blob = blob;
        res = some res;
        noti = none;
      } in
      (
        t,
        u,
        push cs noti (task (into u)),
        rw e refl,
        ap ok (done-push cs noti (into u) w),
        Sends-push cs noti (task (into u)),
        variant_encode-Replies u res out (codec.encode_into m out) refl refl,
      )

-- What the codec makes of a response that may be missing.
abbrev pub resp_written : {P : Type 0} → Codec P → Option P → List ℕ → Result (List ℕ) Encoded
resp_written codec (some p) out = codec.encode_into p out
resp_written codec none out = ok (record { buf = out; size = 0 })

module _ {Q P E R : Type 0} (req_codec : Codec Q) (codec : Codec P) (errors : RpcErrCodec E)
    (into : ServerTaskVariantFull Q P E → R) where
  full_encode-Replies :
      (u : ServerTaskVariantFull Q P E) (resp : Option P) (res : Result E (Unit {0})) (out : List ℕ)
      (e : Result (List ℕ) Encoded)
      → u.res ≡ some res
      → u.resp ≡ resp
      → resp_written codec resp out ≡ e
      → let sent = (full_encode codec errors).encode_resp u out in
        (sent.seq ≡ u.seq) × Replies errors res e u.resp_blob out sent
  unfolding full_encode encoded
  full_encode-Replies u (some p) (ok x) out (ok e) h r k = rw (h, r, k) (refl, (refl, refl))
  full_encode-Replies u (some p) (ok x) out (err left) h r k = rw (h, r, k) (refl, (refl, refl))
  full_encode-Replies u (some p) (ok x) out panic h r k = rw (h, r, k) (refl, refl)
  full_encode-Replies u none (ok x) out e h r k = rw (h, r, ← k) (refl, (refl, refl))
  full_encode-Replies u resp (err x) out e h r k = rw h (refl, (refl, refl))
  full_encode-Replies u resp panic out e h r k = rw h (refl, refl)

  -- The same of a task that holds request and response: whatever response and blob it has been given,
  -- `set_result` gives exactly one answer, on the channel that came with the request and on no other;
  -- encoded, it has the request's number and the response, an empty message for none, or the error.
  full_answers :
      (action : RpcAction) (seq : ℕ) (msg : List ℕ) (q : Q) (blob : Option (List ℕ))
      (noti : RespNoti) (resp : Option P) (resp_blob : Option (List ℕ)) (res : Result E (Unit {0}))
      (cs : Channels R) (out : List ℕ)
      → req_codec.decode msg ≡ ok q
      → (cs noti.channel).has_writer ≡ true
      → (t : ServerTaskVariantFull Q P E) × (u : ServerTaskVariantFull Q P E) × (cs1 : Channels R)
        × (full_decode_req req_codec action seq msg blob noti ≡ ok t)
        × (set_result full_done into (record t { resp = resp; resp_blob = resp_blob }) res cs
            ≡ ok cs1)
        × Sends cs cs1 noti (task (into u))
        × let sent = (full_encode codec errors).encode_resp u out in
          (sent.seq ≡ seq) × Replies errors res (resp_written codec resp out) resp_blob out sent
  unfolding full_decode_req set_result full_done
  full_answers action seq msg q blob noti resp resp_blob res cs out e w =
      let t : ServerTaskVariantFull Q P E = record {
        seq = seq;
        action = action;
        req = q;
        req_blob = blob;
        resp = none;
        resp_blob = none;
        res = none;
        noti = some noti;
      } in
      let u : ServerTaskVariantFull Q P E = record t {
        resp = resp;
        resp_blob = resp_blob;
        res = some res;
        noti = none;
      } in
      (
        t,
        u,
        push cs noti (task (into u)),
        rw e refl,
        ap ok (done-push cs noti (into u) w),
        Sends-push cs noti (task (into u)),
        full_encode-Replies u resp res out (resp_written codec resp out) refl refl refl,
      )
