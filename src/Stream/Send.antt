-- ===== src/Stream/Send.antt =====
-- stream/src/client/stream.rs: what becomes of a task that is given to `send_task`.
use razor_rpc.Prelude.{
  ℕ, ◌+◌, ◌^◌, ◌<◌, ◌≤◌, ◌≡◌, ◌≢◌, refl, Bool, true, false, ◌||◌, List, [], ◌∷◌, ◌++◌, Option, none,
  some, Result, ok, err, panic, arith, length, length-append, Bool-cases, inl, inr, if◌then◌else◌,
}
use razor_rpc.Layout.{ByteOrder}
use razor_rpc.Error.{io}
use razor_rpc.Task.{ClientTask}
use razor_rpc.Proto.Request.{Request}
use razor_rpc.Proto.Request
use razor_rpc.Timer.{Timer, reg_task, stop_reg_task, fetch_add_u64, fetch_sub_u64}
use razor_rpc.Timer.Order.{tasks, Inv}
use razor_rpc.Timer.Drain.{last_seq}
use razor_rpc.Timer.Find.{newest}
use razor_rpc.Timer.Laws.{reg_task-Inv}
use razor_rpc.Stream.{
  Stream, Sent, returned, waits, ClientTransport, nearly_full, get_inflight_count, fail_io,
  register, after_write, after_encode, send_request, after_request, send_task,
}

-- What holds of a stream while its sender is idle: the timer's invariant, numbers above all that
-- were given out, and a counter that says how many tasks are in the channel.
pub record IsValid {T W : Type 0} (c : ClientTask T) (s : Stream T W) : Type 0 where
  pub inv : Inv c s.timer
  pub numbered : newest c s.timer < s.seq
  pub counted : s.timer.pending_task_count ≡ length s.timer.pending

-- The numbers and the counter have not come to their end.
pub record HasRoom {T W : Type 0} (s : Stream T W) : Type 0 where
  pub seq_fits : s.seq + 1 < 2 ^ 64
  pub count_fits : s.timer.pending_task_count + 1 < 2 ^ 64

module _ {T W : Type 0} (z : ByteOrder) (c : ClientTask T) (transport : ClientTransport W) where
  -- The fates of a task: it is registered under the next number; or it is handed to `error_handle`,
  -- without a number on a closed stream;
  -- or it waits for room in the channel; or, where it cannot be encoded, it is dropped: it is neither
  -- registered nor handed over, and the counter stays one too high.
  pub data Fate (room : List ℕ) (s : Stream T W) (task : T) (r : Sent T W) : Type 0 where
    registered :
        r.outcome ≡ returned (ok tt)
        → tasks r.stream.timer ≡ tasks s.timer ++ c.set_seq task s.seq ∷ []
        → r.stream.errors ≡ s.errors
        → IsValid c r.stream
        → Fate room s task r
    errored :
        (failed : T)
        → failed ≡ (if s.closed then task else c.set_seq task s.seq)
        → r.outcome ≡ returned (err io)
        → tasks r.stream.timer ≡ tasks s.timer
        → r.stream.errors ≡ s.errors ++ c.set_rpc_error failed io ∷ []
        → r.stream.closed ≡ true
        → IsValid c r.stream
        → Fate room s task r
    waiting :
        r.outcome ≡ waits (c.set_seq task s.seq)
        → s.timer.capacity ≤ length s.timer.pending
        → Fate room s task r
    dropped :
        Request.encode z c room s.client_id (c.set_seq task s.seq) ≡ err tt
        → r.outcome ≡ returned (err io)
        → tasks r.stream.timer ≡ tasks s.timer
        → r.stream.errors ≡ s.errors
        → r.stream.closed ≡ true
        → r.stream.timer.pending_task_count ≡ length r.stream.timer.pending + 1
        → Fate room s task r

  pub Inv-count :
      (t : Timer T) (n : ℕ)
      → Inv c t
      → length t.pending ≤ n
      → n < 2 ^ 64
      → Inv c (record t { pending_task_count = n })
  Inv-count t n v h k = record {
    ordered = v.ordered;
    keyed_sent = v.keyed_sent;
    keyed_delay = v.keyed_delay;
    seen = v.seen;
    seen_delay = v.seen_delay;
    past = v.past;
    fresh = v.fresh;
    bounded = v.bounded;
    counted = h;
    count_fits = k;
  }

  -- The timer while a task is on its way: the counter has counted it.
  abbrev counting : Stream T W → Timer T
  counting s = record s.timer { pending_task_count = s.timer.pending_task_count + 1 }

  reg_full : (t : Timer T) (x : T) → reg_task t x ≡ none → t.capacity ≤ length t.pending
  unfolding reg_task
  reg_full t x e = ground arith

  last_seq-snoc : (p : ℕ) (xs : List T) (x : T) → last_seq c p (xs ++ x ∷ []) ≡ c.seq x
  last_seq-snoc p [] x = refl
  last_seq-snoc p (y ∷ xs) x = last_seq-snoc (c.seq y) xs x

  reg_newest :
      (t u : Timer T) (x : T)
      → reg_task t x ≡ some u
      → (newest c u ≡ c.seq x)
        × (length u.pending ≡ length t.pending + 1)
        × (u.pending_task_count ≡ t.pending_task_count)
  unfolding reg_task
  reg_newest t u x e =
      ground (arith, last_seq-snoc t.processed_seq t.pending x, length-append t.pending (x ∷ []))

  register-none :
      (u : Stream T W) (x : T)
      → reg_task u.timer x ≡ none
      → after_request z c transport (register z c transport u x)
        ≡ record { stream = u; outcome = waits x }
  unfolding register after_request
  register-none u x e = ground (arith, e)

  register-some :
      (u : Stream T W) (x : T) (t : Timer T)
      → reg_task u.timer x ≡ some t
      → after_request z c transport (register z c transport u x)
        ≡ record { stream = record u { timer = t }; outcome = returned (ok tt) }
  unfolding register after_request
  register-some u x t e = ground (arith, e)

  -- Once the request is written.
  register_fate :
      (room : List ℕ) (s u : Stream T W) (task : T)
      → IsValid c s
      → HasRoom s
      → c.seq (c.set_seq task s.seq) ≡ s.seq
      → u.timer ≡ counting s
      → u.errors ≡ s.errors
      → u.seq ≡ s.seq + 1
      → Fate room s task
          (after_request z c transport (register z c transport u (c.set_seq task s.seq)))
  register_fate room s u task v h n et ee es = split (reg_task (counting s) x) refl
    where
      x : T
      x = c.set_seq task s.seq

      split :
          (o : Option (Timer T))
          → reg_task (counting s) x ≡ o
          → Fate room s task (after_request z c transport (register z c transport u x))
      split none e = rw (register-none u x (rw et e)) (waiting refl (reg_full (counting s) x e))
      split (some t) e =
          let inv =
            Inv-count s.timer (s.timer.pending_task_count + 1) v.inv (omega (arith, v.counted))
              (omega (arith, h.count_fits)) in
          let reg =
            reg_task-Inv c (counting s) t x inv (omega (arith, v.numbered))
              (omega (arith, v.counted)) e in
          let new = reg_newest (counting s) t x e in
          rw (register-some u x t (rw et e)) (
            registered refl reg.1 ee (record {
              inv = reg.0;
              numbered = omega (arith, new, es, n);
              counted = omega (arith, new, v.counted);
            }))

  -- The timer of a stream whose write failed: the counter is set back.
  abbrev stopped : Stream T W → Timer T
  stopped s = record s.timer {
    pending_task_count = s.timer.pending_task_count;
    reg_stopped_flag = true;
  }

  Inv-stopped : (s : Stream T W) → Inv c s.timer → Inv c (stopped s)
  Inv-stopped s v = record {
    ordered = v.ordered;
    keyed_sent = v.keyed_sent;
    keyed_delay = v.keyed_delay;
    seen = v.seen;
    seen_delay = v.seen_delay;
    past = v.past;
    fresh = v.fresh;
    bounded = v.bounded;
    counted = v.counted;
    count_fits = v.count_fits;
  }

  count-back : (n : ℕ) → n + 1 < 2 ^ 64 → fetch_sub_u64 (n + 1) ≡ n
  count-back n h = omega arith

  after_write_err :
      (s u : Stream T W) (x : T)
      → HasRoom s
      → u.timer ≡ counting s
      → after_request z c transport (after_write z c transport u x (err tt)) ≡ record {
        stream = record u {
          timer = stopped s;
          closed = true;
          has_err = true;
          errors = u.errors ++ c.set_rpc_error x io ∷ [];
        };
        outcome = returned (err io);
      }
  unfolding after_write after_request fail_io stop_reg_task
  after_write_err s u x h et = rw (et, count-back s.timer.pending_task_count h.count_fits) refl

  after_write_ok :
      (u : Stream T W) (x : T) (conn : W)
      → after_write z c transport u x (ok conn)
        ≡ register z c transport (record u { conn = conn }) x
  unfolding after_write
  after_write_ok u x conn = refl

  after_write_fate :
      (room : List ℕ) (s u : Stream T W) (task : T) (r : Result (Unit {0}) W)
      → r ≢ panic
      → s.closed ≡ false
      → IsValid c s
      → HasRoom s
      → c.seq (c.set_seq task s.seq) ≡ s.seq
      → u.timer ≡ counting s
      → u.errors ≡ s.errors
      → u.seq ≡ s.seq + 1
      → Fate room s task
          (after_request z c transport (after_write z c transport u (c.set_seq task s.seq) r))
  after_write_fate room s u task (ok conn) p o v h n et ee es =
      rw (after_write_ok u (c.set_seq task s.seq) conn)
        (register_fate room s (record u { conn = conn }) task v h n et ee es)
  after_write_fate room s u task (err e) p o v h n et ee es =
      rw (after_write_err s u (c.set_seq task s.seq) h et) (
        errored (c.set_seq task s.seq) (rw o refl) refl refl (rw ee refl) refl (record {
          inv = Inv-stopped s v.inv;
          numbered = omega (arith, v.numbered, es);
          counted = v.counted;
        }))
  after_write_fate room s u task panic p o v h n et ee es = absurd (p refl)

  -- The stream on which `send_request` encodes.
  abbrev numbered : Stream T W → Stream T W
  numbered s = record s { timer = counting s; seq = s.seq + 1 }

  pub send_task_closed :
      (room : List ℕ) (s : Stream T W) (task : T) (need_flush : Bool)
      → HasRoom s
      → s.closed ≡ true
      → send_task z c transport room s task need_flush ≡ record {
        stream = record s { errors = s.errors ++ c.set_rpc_error task io ∷ [] };
        outcome = returned (err io);
      }
  unfolding send_task fail_io
  send_task_closed room s task need_flush h e =
      let count : fetch_sub_u64 (fetch_add_u64 s.timer.pending_task_count)
          ≡ s.timer.pending_task_count =
        omega (arith, h.count_fits) in
      rw (e, count) refl

  send_task_open :
      (room : List ℕ) (s : Stream T W) (task : T) (need_flush : Bool)
      → HasRoom s
      → s.closed ≡ false
      → send_task z c transport room s task need_flush
        ≡ after_request z c transport (
            after_encode z c transport
              (need_flush || nearly_full s.throttler (get_inflight_count s))
              (numbered s)
              (c.set_seq task s.seq)
              (Request.encode z c room s.client_id (c.set_seq task s.seq)))
  unfolding send_task send_request
  send_task_open room s task need_flush h e =
      let count : fetch_add_u64 s.timer.pending_task_count ≡ s.timer.pending_task_count + 1 =
        omega (arith, h.count_fits) in
      let seq : fetch_add_u64 s.seq ≡ s.seq + 1 = omega (arith, h.seq_fits) in
      rw (e, count, seq) refl

  after_encode_ok :
      (flush : Bool) (u : Stream T W) (x : T) (q : Request)
      → after_encode z c transport flush u x (ok q)
        ≡ after_write z c transport u x (transport.write_req u.conn q.buf q.blob flush)
  unfolding after_encode
  after_encode_ok flush u x q = refl

  after_encode_err :
      (flush : Bool) (u : Stream T W) (x : T)
      → after_request z c transport (after_encode z c transport flush u x (err tt)) ≡ record {
        stream = record u { closed = true; has_err = true };
        outcome = returned (err io);
      }
  unfolding after_encode after_request
  after_encode_err flush u x = refl

  -- A call on an open stream whose request cannot be encoded, and one whose encoding panics.
  pub send_task_unencoded :
      (room : List ℕ) (s : Stream T W) (task : T) (need_flush : Bool)
      → HasRoom s
      → s.closed ≡ false
      → Request.encode z c room s.client_id (c.set_seq task s.seq) ≡ err tt
      → send_task z c transport room s task need_flush ≡ record {
        stream = record s {
          timer = record s.timer { pending_task_count = s.timer.pending_task_count + 1 };
          seq = s.seq + 1;
          closed = true;
          has_err = true;
        };
        outcome = returned (err io);
      }
  send_task_unencoded room s task need_flush h o e =
      rw (send_task_open room s task need_flush h o, e)
        (after_encode_err (need_flush || nearly_full s.throttler (get_inflight_count s))
          (numbered s) (c.set_seq task s.seq))

  pub send_task_panics :
      (room : List ℕ) (s : Stream T W) (task : T) (need_flush : Bool)
      → HasRoom s
      → s.closed ≡ false
      → Request.encode z c room s.client_id (c.set_seq task s.seq) ≡ panic
      → (send_task z c transport room s task need_flush).outcome ≡ returned panic
  unfolding after_request after_encode
  send_task_panics room s task need_flush h o e =
      rw (send_task_open room s task need_flush h o, e) refl

  after_encode_fate :
      (room : List ℕ) (flush : Bool) (s : Stream T W) (task : T) (r : Result (Unit {0}) Request)
      → Request.encode z c room s.client_id (c.set_seq task s.seq) ≡ r
      → r ≢ panic
      → s.closed ≡ false
      → ((conn : W) (buf : List ℕ) (blob : Option (List ℕ)) (b : Bool)
          → transport.write_req conn buf blob b ≢ panic)
      → IsValid c s
      → HasRoom s
      → c.seq (c.set_seq task s.seq) ≡ s.seq
      → Fate room s task (
          after_request z c transport
            (after_encode z c transport flush (numbered s) (c.set_seq task s.seq) r))
  after_encode_fate room flush s task (ok q) j p o w v h n =
      rw (after_encode_ok flush (numbered s) (c.set_seq task s.seq) q) (
        after_write_fate room s (numbered s) task (transport.write_req s.conn q.buf q.blob flush)
          (w s.conn q.buf q.blob flush) o v h n refl refl refl)
  after_encode_fate room flush s task (err e) j p o w v h n =
      rw (after_encode_err flush (numbered s) (c.set_seq task s.seq))
        (dropped j refl refl refl refl (omega (arith, v.counted)))
  after_encode_fate room flush s task panic j p o w v h n = absurd (p refl)

  -- The sender's step on a stream whose timer is in order, while neither the numbers nor the counter
  -- have run out and neither encoding nor writing panics: the task is registered under the next
  -- number, or handed to `error_handle` with the counter set back, or it waits for room in the
  -- channel, or, if it cannot be encoded, it is dropped and the counter stays one too high.
  pub send_task_fate :
      (room : List ℕ) (s : Stream T W) (task : T) (need_flush : Bool)
      → IsValid c s
      → HasRoom s
      → c.seq (c.set_seq task s.seq) ≡ s.seq
      → Request.encode z c room s.client_id (c.set_seq task s.seq) ≢ panic
      → ((conn : W) (buf : List ℕ) (blob : Option (List ℕ)) (b : Bool)
          → transport.write_req conn buf blob b ≢ panic)
      → Fate room s task (send_task z c transport room s task need_flush)
  send_task_fate room s task need_flush v h n p w = elim (Bool-cases s.closed) [
    | inl e ↦ rw (send_task_closed room s task need_flush h e) (
        errored task (rw e refl) refl refl refl e
          (record { inv = v.inv; numbered = v.numbered; counted = v.counted }))
    | inr e ↦ rw (send_task_open room s task need_flush h e) (
        after_encode_fate room (need_flush || nearly_full s.throttler (get_inflight_count s)) s task
          (Request.encode z c room s.client_id (c.set_seq task s.seq)) refl p e w v h n)
  ]
