-- ===== src/Stream/Keeps.antt =====
-- stream/src/client/stream.rs: every step of sender and receiver keeps the account of numbers.
use razor_rpc.Prelude.{
  ℕ, ◌+◌, ◌<◌, ◌≤◌, ◌⊎◌, length, ok, err, ◌≡◌, ◌≢◌, refl, sym, ap, ◌∙◌, Bool, true, false, List, [],
  ◌∷◌, ◌++◌, Option, Result, panic, arith, append-nil, ◌==◌, if◌then◌else◌, Bool-cases, inl, inr,
}
use razor_rpc.Prelude.Int.{ℤ}
use razor_rpc.Layout.{ByteOrder}
use razor_rpc.Error.{RpcIntErr, io}
use razor_rpc.Task.{ClientTask}
use razor_rpc.Timer.{fetch_add_u64, poll_sent_task, stop_reg_task, adjust_task_queue, drain}
use razor_rpc.Timer.Order.{tasks, Inv}
use razor_rpc.Timer.Find.{newest}
use razor_rpc.Proto.Request
use razor_rpc.Proto.Request.{Request}
use razor_rpc.Timer.Laws.{Inv-stop}
use razor_rpc.Timer.Take.{Sound}
use razor_rpc.Stream.{
  Stream, Sent, returned, ClientTransport, send_task, send_ping_req, flush_req, drop_stream,
}
use razor_rpc.Stream.Send.{
  IsValid, HasRoom, Fate, registered, errored, waiting, dropped, send_task_fate, send_task_closed,
  send_task_unencoded, send_task_panics, Inv-count,
}
use razor_rpc.Stream.Receive.{absorb, time_reach, set_error_and_exit}
use razor_rpc.Stream.Numbers.{times, times-append, is_number, KeepsSeq}
use razor_rpc.Stream.Conserve.{resume-Accounted}
use razor_rpc.Stream.Flow.{
  Flow, stream_of, with_stream, numbered, lost, Step, sends, pings, flushes, ticks, polls, arrives,
  receives, resumes, resumed, breaks, drops, Conserved, adjust-Accounted, drain-Accounted,
}
use razor_rpc.Stream.Moves.{Moves-Conserved, Stays, Stays-shut, absorb-Moves, round-Moves}

module _ {T W : Type 0} (z : ByteOrder) (c : ClientTask T) (transport : ClientTransport W)
    (alloc : ℤ → Bool) (k : KeepsSeq c) where
  abbrev pub State : Type 0
  State = Flow z c transport alloc

  abbrev pub Good : State → Type 0
  Good = Conserved z c transport alloc

  abbrev given_too : State → T → List T → Stream T W → State
  given_too f x lost_now s = record f {
    receiving = record f.receiving { stream = s };
    given = f.given ++ x ∷ [];
    dropped = f.dropped ++ lost_now;
  }

  times-snoc :
      (n : ℕ) (xs : List T) (x : T) → times c n (xs ++ x ∷ []) ≡ times c n xs + is_number c n x
  times-snoc n xs x = times-append c n xs (x ∷ []) ∙ unfold times in omega arith

  -- What holds of the sender's stream while nothing was dropped.
  IsValid-stream : (f : State) → Good f → f.dropped ≡ [] → IsValid c f.receiving.stream
  IsValid-stream f g e = record {
    inv = g.inv;
    numbered = g.numbers;
    counted = omega (arith, g.counted, ap length e);
  }

  none_dropped : (f : State) → Good f → f.receiving.stream.closed ≡ false → f.dropped ≡ []
  none_dropped f g o = elim g.shut [ inl e ↦ e | inr closed ↦ ground (arith, o, closed) ]

  -- A task that is held, and one that is handed to `error_handle`.
  Good-held :
      (f : State) (s : Stream T W) (x : T)
      → Good f
      → f.dropped ≡ []
      → IsValid c s
      → tasks s.timer ≡ tasks (stream_of z c transport alloc f).timer ++ x ∷ []
      → s.errors ≡ (stream_of z c transport alloc f).errors
      → Good (given_too f x [] s)
  Good-held f s x g d v h e =
      let none_lost : f.dropped ++ [] ≡ f.dropped = append-nil f.dropped in
      record {
        inv = v.inv;
        numbers = v.numbered;
        counted = omega (arith, v.counted, ap length none_lost, ap length d);
        shut = inl (none_lost ∙ d);
        each = λ n. omega (
          arith,
          g.each n,
          times-snoc n f.given x,
          ap (times c n) h,
          times-snoc n (tasks f.receiving.stream.timer) x,
          ap (times c n) e,
          ap (times c n) none_lost,
        );
      }

  Good-failed :
      (f : State) (s : Stream T W) (x : T)
      → Good f
      → Inv c s.timer
      → newest c s.timer < s.seq
      → s.timer.pending_task_count ≡ length s.timer.pending + length f.dropped
      → (f.dropped ≡ []) ⊎ (s.closed ≡ true)
      → tasks s.timer ≡ tasks (stream_of z c transport alloc f).timer
      → s.errors ≡ (stream_of z c transport alloc f).errors ++ c.set_rpc_error x io ∷ []
      → Good (given_too f x [] s)
  Good-failed f s x g v m count closes h e =
      let none_lost : f.dropped ++ [] ≡ f.dropped = append-nil f.dropped in
      record {
        inv = v;
        numbers = m;
        counted = omega (arith, count, ap length none_lost);
        shut = elim closes [ inl d ↦ inl (none_lost ∙ d) | inr o ↦ inr o ];
        each = λ n. omega (
          arith,
          g.each n,
          times-snoc n f.given x,
          ap (times c n) h,
          ap (times c n) e,
          times-snoc n f.receiving.stream.errors (c.set_rpc_error x io),
          ap {B = ℕ} (λ m. if n == m then 1 else 0) (k.set_rpc_error x io),
          ap (times c n) none_lost,
        );
      }

  -- A task whose request cannot be encoded.
  Good-dropped :
      (f : State) (x : T)
      → Good f
      → f.dropped ≡ []
      → HasRoom f.receiving.stream
      → let s = f.receiving.stream in
        Good (
          given_too f x (x ∷ []) (record s {
            timer = record s.timer { pending_task_count = s.timer.pending_task_count + 1 };
            seq = s.seq + 1;
            closed = true;
            has_err = true;
          }))
  Good-dropped f x g d h =
      let s = f.receiving.stream in
      let one_lost : f.dropped ++ (x ∷ []) ≡ x ∷ [] = rw d refl in
      record {
        inv =
            Inv-count z c transport s.timer (s.timer.pending_task_count + 1) g.inv
              (omega (arith, g.counted)) (omega (arith, h.count_fits));
        numbers = omega (arith, g.numbers);
        counted = omega (arith, g.counted, ap length one_lost, ap length d);
        shut = inr refl;
        each = λ n. omega (arith, g.each n, times-snoc n f.given x, times-snoc n f.dropped x);
      }

  fate-Good :
      (f : State) (task : T) (room : List ℕ) (res : Result RpcIntErr (Unit {0})) (r : Sent T W)
      → Good f
      → f.dropped ≡ []
      → f.receiving.stream.closed ≡ false
      → (q : Request)
      → Request.encode z c room f.receiving.stream.client_id (c.set_seq task f.receiving.stream.seq)
        ≡ ok q
      → r.outcome ≡ returned res
      → Fate z c transport room f.receiving.stream task r
      → Good (given_too f (c.set_seq task f.receiving.stream.seq) [] r.stream)
  fate-Good f task room res r g d n q e o (registered out held same v) =
      Good-held f r.stream (c.set_seq task f.receiving.stream.seq) g d v held same
  fate-Good f task room res r g d n q e o (errored failed who out held errors closed v) =
      let x = c.set_seq task f.receiving.stream.seq in
      let same : failed ≡ x = who ∙ rw n refl in
      Good-failed f r.stream x g v.inv v.numbered (omega (arith, v.counted, ap length d)) (inl d)
        held (rw same at errors)
  fate-Good f task room res r g d n q e o (waiting out full) = ground (arith, o, out)
  fate-Good f task room res r g d n q e o (dropped p out held same closed count) =
      ground (arith, e, p)

  closed-Good :
      (f : State) (task : T)
      → Good f
      → let s = f.receiving.stream in
        Good (given_too f task [] (record s { errors = s.errors ++ c.set_rpc_error task io ∷ [] }))
  closed-Good f task g =
      let s = f.receiving.stream in
      Good-failed f (record s { errors = s.errors ++ c.set_rpc_error task io ∷ [] }) task g g.inv
        g.numbers g.counted g.shut refl refl

  -- What the transport promises: to write does not panic.
  abbrev pub Writes : Type 0
  Writes =
      (conn : W) (buf : List ℕ) (blob : Option (List ℕ)) (b : Bool)
      → transport.write_req conn buf blob b ≢ panic

  numbered-closed :
      (s : Stream T W) (task : T) → s.closed ≡ true → numbered z c transport alloc s task ≡ task
  numbered-closed s task e = ground (arith, e)

  numbered-opened :
      (s : Stream T W) (task : T)
      → s.closed ≡ false
      → numbered z c transport alloc s task ≡ c.set_seq task s.seq
  numbered-opened s task e = ground (arith, e)

  lost-closed :
      (s : Stream T W) (task : T) (room : List ℕ)
      → s.closed ≡ true
      → lost z c transport alloc s task room ≡ []
  lost-closed s task room e = ground (arith, e)

  lost-encoded :
      (s : Stream T W) (task : T) (room : List ℕ) (q : Request)
      → s.closed ≡ false
      → Request.encode z c room s.client_id (c.set_seq task s.seq) ≡ ok q
      → lost z c transport alloc s task room ≡ []
  lost-encoded s task room q o e = rw (o, e) refl

  lost-dropped :
      (s : Stream T W) (task : T) (room : List ℕ)
      → s.closed ≡ false
      → Request.encode z c room s.client_id (c.set_seq task s.seq) ≡ err tt
      → lost z c transport alloc s task room ≡ c.set_seq task s.seq ∷ []
  lost-dropped s task room o e = rw (o, e) refl

  abbrev after_send : State → T → List ℕ → Bool → State
  after_send f task room need_flush =
      given_too f (numbered z c transport alloc f.receiving.stream task)
        (lost z c transport alloc f.receiving.stream task room)
        (send_task z c transport room f.receiving.stream task need_flush).stream

  opened-Good :
      (f : State) (task : T) (room : List ℕ) (need_flush : Bool) (res : Result RpcIntErr (Unit {0}))
      (r : Result (Unit {0}) Request)
      → Writes
      → Good f
      → HasRoom f.receiving.stream
      → (send_task z c transport room f.receiving.stream task need_flush).outcome ≡ returned res
      → res ≢ panic
      → f.receiving.stream.closed ≡ false
      → Request.encode z c room f.receiving.stream.client_id (c.set_seq task f.receiving.stream.seq)
        ≡ r
      → Good (after_send f task room need_flush)
  opened-Good f task room need_flush res (ok q) w g h o np n e =
      let s = f.receiving.stream in
      let d = none_dropped f g n in
      let fate =
        send_task_fate z c transport room s task need_flush (IsValid-stream f g d) h
          (k.set_seq task s.seq) (λ p. ground (arith, e, p)) w in
      rw (numbered-opened s task n, lost-encoded s task room q n e)
        (fate-Good f task room res (send_task z c transport room s task need_flush) g d n q e o
          fate)
  opened-Good f task room need_flush res (err u) w g h o np n e =
      let s = f.receiving.stream in
      rw
        (
          numbered-opened s task n,
          lost-dropped s task room n e,
          send_task_unencoded z c transport room s task need_flush h n e,
        )
        (Good-dropped f (c.set_seq task s.seq) g (none_dropped f g n) h)
  opened-Good f task room need_flush res panic w g h o np n e =
      let out = send_task_panics z c transport room f.receiving.stream task need_flush h n e in
      absurd (np (ground (arith, out, o)))

  sends-Good :
      (f : State) (task : T) (room : List ℕ) (need_flush : Bool) (res : Result RpcIntErr (Unit {0}))
      → Writes
      → Good f
      → HasRoom f.receiving.stream
      → (send_task z c transport room f.receiving.stream task need_flush).outcome ≡ returned res
      → res ≢ panic
      → Good (after_send f task room need_flush)
  sends-Good f task room need_flush res w g h o np =
      let s = f.receiving.stream in
      elim (Bool-cases s.closed) [
        | inl closed ↦
            rw
              (
                send_task_closed z c transport room s task need_flush h closed,
                numbered-closed s task closed,
                lost-closed s task room closed,
              )
              (closed-Good f task g)
        | inr opened ↦
            opened-Good f task room need_flush res
              (Request.encode z c room s.client_id (c.set_seq task s.seq)) w g h o np opened refl
      ]

  -- A call that leaves the tasks alone, and gives out no number that was given before.
  record Quiet (s u : Stream T W) : Type 0 where
    inv : Inv c s.timer → Inv c u.timer
    same : tasks u.timer ≡ tasks s.timer
    newest_same : newest c u.timer ≡ newest c s.timer
    count : u.timer.pending_task_count ≡ s.timer.pending_task_count
    waiting_same : u.timer.pending ≡ s.timer.pending
    errors : u.errors ≡ s.errors
    seq : s.seq ≤ u.seq
    stays : Stays z c transport alloc k 0 s u

  Quiet-Good :
      (f : State) (u : Stream T W)
      → Quiet f.receiving.stream u
      → Good f
      → Good (with_stream z c transport alloc f u)
  Quiet-Good f u q g = record {
    inv = q.inv g.inv;
    numbers = omega (arith, g.numbers, q.newest_same, q.seq);
    counted = omega (arith, g.counted, q.count, ap length q.waiting_same);
    shut = Stays-shut z c transport alloc k 0 f.receiving.stream u f.dropped q.stays g.shut;
    each = λ n. omega (arith, g.each n, ap (times c n) q.same, ap (times c n) q.errors);
  }

  -- The same timer.
  timer_kept :
      (s u : Stream T W)
      → u.timer ≡ s.timer
      → u.errors ≡ s.errors
      → s.seq ≤ u.seq
      → Stays z c transport alloc k 0 s u
      → Quiet s u
  timer_kept s u t e n y = record {
    inv = λ v. rw t v;
    same = rw t refl;
    newest_same = rw t refl;
    count = rw t refl;
    waiting_same = rw t refl;
    errors = e;
    seq = n;
    stays = y;
  }

  ping_lem :
      (s : Stream T W) (room : List ℕ)
      → HasRoom s
      → let u = (send_ping_req z c transport room s).stream in
        (u.timer ≡ s.timer)
        × (u.errors ≡ s.errors)
        × (s.seq ≤ u.seq)
        × Stays z c transport alloc k 0 s u
  unfolding send_ping_req
  ping_lem s room h =
      let next : fetch_add_u64 s.seq ≡ s.seq + 1 = omega (arith, h.seq_fits) in
      (ground arith, ground arith, ground (arith, next), ground arith)

  flush-Quiet : (s : Stream T W) → Quiet s (flush_req z c transport s).stream
  unfolding flush_req stop_reg_task
  flush-Quiet s = split (transport.flush_req s.conn) refl
    where
      split :
          (r : Result (Unit {0}) W)
          → transport.flush_req s.conn ≡ r
          → Quiet s (flush_req z c transport s).stream
      split (ok conn) e =
          rw (e, flush_req)
            (timer_kept s (record s { conn = conn }) refl refl (omega arith) (inl refl))
      split (err x) e =
          rw (e, flush_req)
            (record {
              inv = λ v. Inv-stop c s.timer v;
              same = refl;
              newest_same = refl;
              count = refl;
              waiting_same = refl;
              errors = refl;
              seq = omega arith;
              stays = inr refl;
            })
      split panic e = rw (e, flush_req) (timer_kept s s refl refl (omega arith) (inl refl))

  -- The step of the tick, of a poll and of a stopping sender.
  ticks-Good :
      (f : State)
      → Good f
      → Good (with_stream z c transport alloc f (time_reach z c alloc f.receiving.stream))
  unfolding time_reach
  ticks-Good f g =
      let s = f.receiving.stream in
      let h = adjust_task_queue c s.timer in
      let v : Sound c (length f.dropped) s.timer = record { inv = g.inv; exact = g.counted } in
      Moves-Conserved z c transport alloc k (length f.dropped) f
        (record f.receiving {
          stream = record s { timer = h.timer; errors = s.errors ++ h.errors };
        })
        refl
        (record {
          more_errors = h.errors;
          more_dones = [];
          accounted = adjust-Accounted c k (length f.dropped) alloc s.timer v;
          seq = refl;
          stays = inl refl;
          errors = refl;
          dones = sym (append-nil f.receiving.dones);
        })
        g

  polls-Good :
      (f : State)
      → Good f
      → Good (
          with_stream z c transport alloc f (record f.receiving.stream {
            timer = (poll_sent_task c f.receiving.stream.timer).timer;
          }))
  unfolding poll_sent_task
  polls-Good f g =
      let s = f.receiving.stream in
      let v : Sound c (length f.dropped) s.timer = record { inv = g.inv; exact = g.counted } in
      Moves-Conserved z c transport alloc k (length f.dropped) f
        (record f.receiving { stream = record s { timer = drain c s.timer } }) refl
        (record {
          more_errors = [];
          more_dones = [];
          accounted = drain-Accounted c k (length f.dropped) alloc s.timer v;
          seq = refl;
          stays = inl refl;
          errors = sym (append-nil s.errors);
          dones = sym (append-nil f.receiving.dones);
        })
        g

  drops-Good :
      (f : State)
      → Good f
      → Good (with_stream z c transport alloc f (drop_stream f.receiving.stream))
  unfolding drop_stream stop_reg_task
  drops-Good f g = record {
    inv = Inv-stop c f.receiving.stream.timer g.inv;
    numbers = g.numbers;
    counted = g.counted;
    shut = inr refl;
    each = g.each;
  }

  breaks-Good :
      (f : State) (close_conn : W → W)
      → Good f
      → Good (with_stream z c transport alloc f (set_error_and_exit close_conn f.receiving.stream))
  unfolding set_error_and_exit
  breaks-Good f close_conn g = record {
    inv = g.inv;
    numbers = g.numbers;
    counted = g.counted;
    shut = g.shut;
    each = g.each;
  }

  -- Every step keeps the account.
  pub step-Good : (f h : State) → Writes → Good f → Step z c transport alloc f h → Good h
  step-Good _ _ w g (sends f task room need_flush res h o np) =
      sends-Good f task room need_flush res w g h o np
  step-Good _ _ w g (pings f room h) =
      let s = f.receiving.stream in
      let (t, e, n, y) = ping_lem s room h in
      let u = (send_ping_req z c transport room s).stream in
      Quiet-Good f u (timer_kept s u t e n y) g
  step-Good _ _ w g (flushes f) =
      Quiet-Good f (flush_req z c transport f.receiving.stream).stream
        (flush-Quiet f.receiving.stream) g
  step-Good _ _ w g (ticks f) = ticks-Good f g
  step-Good _ _ w g (polls f) = polls-Good f g
  step-Good _ _ w g (arrives f bytes) = record {
    inv = g.inv;
    numbers = g.numbers;
    counted = g.counted;
    shut = g.shut;
    each = g.each;
  }
  step-Good _ _ w g (receives f close_rx r l) =
      let v : Sound c (length f.dropped) f.receiving.stream.timer = record {
        inv = g.inv;
        exact = g.counted;
      } in
      Moves-Conserved z c transport alloc k (length f.dropped) f r refl
        (round-Moves z c transport alloc k (length f.dropped) f.receiving r close_rx v l) g
  step-Good _ _ w g (resumes f head np) =
      let v : Sound c (length f.dropped) f.receiving.stream.timer = record {
        inv = g.inv;
        exact = g.counted;
      } in
      let d = resumed z c transport alloc f head in
      Moves-Conserved z c transport alloc k (length f.dropped) f (absorb f.receiving d) refl
        (absorb-Moves z c transport alloc k (length f.dropped) f.receiving d (
          resume-Accounted c alloc k (length f.dropped) f.receiving.stream.timer head
            f.receiving.rest v np))
        g
  step-Good _ _ w g (breaks f close_conn) = breaks-Good f close_conn g
  step-Good _ _ w g (drops f) = drops-Good f g
