-- ===== src/Stream/Moves.antt =====
-- stream/src/client/stream.rs: what each step of sender and receiver does to the account of numbers.
use razor_rpc.Prelude.{
  ℕ, length, ◌≡◌, ◌≢◌, refl, sym, ap, ◌∙◌, Bool, true, false, List, [], ◌++◌, Result, ok, err,
  panic, arith, append-nil, append_assoc, Bool-cases, inl, inr, ◌⊎◌, ◌||◌,
}
use razor_rpc.Prelude.Int.{ℤ}
use razor_rpc.Layout.{ByteOrder}
use razor_rpc.Error.{RpcIntErr, io}
use razor_rpc.Task.{ClientTask}
use razor_rpc.Timer.{Poll, pending, ready, check_pending_tasks_empty, drain}
use razor_rpc.Timer.Take.{Sound}
use razor_rpc.Tcp.Client.{Responded, read_resp}
use razor_rpc.Stream.{Stream, ClientTransport}
use razor_rpc.Stream.Receive.{
  Receiving, fails, absorb, set_closed, recv_turn, recv_open, recv_closed, open_turn, closed_turn,
  says_empty,
}
use razor_rpc.Stream.Numbers.{times, times-append, KeepsSeq}
use razor_rpc.Stream.Conserve.{Accounted, read_resp-Accounted}
use razor_rpc.Stream.Flow.{Flow, Conserved, Leaves, going_on, failing, awaiting, drain-Accounted}

module _ {T W : Type 0} (z : ByteOrder) (c : ClientTask T) (transport : ClientTransport W)
    (alloc : ℤ → Bool) (k : KeepsSeq c) (leak : ℕ) where
  -- A closed stream stays closed.
  abbrev pub Stays : Stream T W → Stream T W → Type 0
  Stays s u = (u.closed ≡ s.closed) ⊎ (u.closed ≡ true)

  pub Stays-shut :
      (s u : Stream T W) (xs : List T)
      → Stays s u
      → (xs ≡ []) ⊎ (s.closed ≡ true)
      → (xs ≡ []) ⊎ (u.closed ≡ true)
  Stays-shut s u xs h (inl e) = inl e
  Stays-shut s u xs (inl h) (inr e) = inr (h ∙ e)
  Stays-shut s u xs (inr h) (inr e) = inr h

  Stays-on : (s u v : Stream T W) → Stays s u → Stays u v → Stays s v
  Stays-on s u v h (inr k) = inr k
  Stays-on s u v (inl h) (inl k) = inl (k ∙ h)
  Stays-on s u v (inr h) (inl k) = inr (k ∙ h)

  -- A state of the receiver after another: its timer is accounted for, the sender's number is the same.
  pub record Moves (r x : Receiving T W) : Type 0 where
    pub more_errors : List T
    pub more_dones : List T
    pub accounted : Accounted c alloc k leak r.stream.timer x.stream.timer more_errors more_dones
    pub seq : x.stream.seq ≡ r.stream.seq
    pub stays : Stays r.stream x.stream
    pub errors : x.stream.errors ≡ r.stream.errors ++ more_errors
    pub dones : x.dones ≡ r.dones ++ more_dones

  pub Moves-Conserved :
      (f : Flow z c transport alloc) (x : Receiving T W)
      → leak ≡ length f.dropped
      → Moves f.receiving x
      → Conserved z c transport alloc f
      → Conserved z c transport alloc (record f { receiving = x })
  Moves-Conserved f x l m v =
      let a = m.accounted in
      record {
        inv = a.sound.inv;
        numbers = rw (a.newest_kept, m.seq) v.numbers;
        counted = omega (arith, a.sound.exact, l);
        shut = Stays-shut f.receiving.stream x.stream f.dropped m.stays v.shut;
        each = λ n. omega (
          arith,
          v.each n,
          a.each n,
          ap (times c n) m.errors,
          times-append c n f.receiving.stream.errors m.more_errors,
          ap (times c n) m.dones,
          times-append c n f.receiving.dones m.more_dones,
        );
      }

  -- The two results of a round that did not panic.
  closed_turn-Leaves :
      (r x : Receiving T W) (p : Poll (Result RpcIntErr Bool))
      → Leaves z c transport alloc (closed_turn r p) x
      → (p ≢ ready panic) × ((x ≡ r) ⊎ (x ≡ set_closed r))
  unfolding closed_turn
  closed_turn-Leaves r x pending awaiting = ((λ e. ground (arith, e)), inl refl)
  closed_turn-Leaves r x (ready (ok b)) going_on = ((λ e. ground (arith, e)), inl refl)
  closed_turn-Leaves r x (ready (err y)) failing = ((λ e. ground (arith, e)), inr refl)
  closed_turn-Leaves r x (ready panic) l = elim l [ ]

  open_turn-Leaves :
      (r x : Receiving T W) (p : Poll (Result RpcIntErr Bool))
      → Leaves z c transport alloc (open_turn r p) x
      → (p ≢ ready panic) × ((x ≡ r) ⊎ (x ≡ set_closed r))
  unfolding open_turn
  open_turn-Leaves r x pending awaiting = ((λ e. ground (arith, e)), inl refl)
  open_turn-Leaves r x (ready (ok true)) going_on = ((λ e. ground (arith, e)), inl refl)
  open_turn-Leaves r x (ready (ok false)) going_on = ((λ e. ground (arith, e)), inr refl)
  open_turn-Leaves r x (ready (err y)) failing = ((λ e. ground (arith, e)), inl refl)
  open_turn-Leaves r x (ready panic) l = elim l [ ]

  pub absorb-Moves :
      (r : Receiving T W) (d : Responded T)
      → Accounted c alloc k leak r.stream.timer d.timer d.errors d.dones
      → Moves r (absorb r d)
  unfolding absorb
  absorb-Moves r d a = record {
    more_errors = d.errors;
    more_dones = d.dones;
    accounted = a;
    seq = refl;
    stays = inl refl;
    errors = refl;
    dones = refl;
  }

  Moves-set_closed : (r x : Receiving T W) → Moves r x → Moves r (set_closed x)
  unfolding set_closed
  Moves-set_closed r x m = record {
    more_errors = m.more_errors;
    more_dones = m.more_dones;
    accounted = m.accounted;
    seq = m.seq;
    stays = inr refl;
    errors = m.errors;
    dones = m.dones;
  }

  Moves-trans : (r x y : Receiving T W) → Moves r x → Moves x y → Moves r y
  Moves-trans r x y m o =
      let a = m.accounted in
      let b = o.accounted in
      record {
        more_errors = m.more_errors ++ o.more_errors;
        more_dones = m.more_dones ++ o.more_dones;
        accounted = record {
          sound = b.sound;
          newest_kept = b.newest_kept ∙ a.newest_kept;
          each = λ n. omega (
            arith,
            a.each n,
            b.each n,
            times-append c n m.more_errors o.more_errors,
            times-append c n m.more_dones o.more_dones,
          );
        };
        seq = o.seq ∙ m.seq;
        stays = Stays-on r.stream x.stream y.stream m.stays o.stays;
        errors =
            o.errors
            ∙ ap (λ q. q ++ o.more_errors) m.errors
            ∙ append_assoc r.stream.errors m.more_errors o.more_errors;
        dones =
            o.dones
            ∙ ap (λ q. q ++ o.more_dones) m.dones
            ∙ append_assoc r.dones m.more_dones o.more_dones;
      }

  -- The receiver after the channel is drained.
  abbrev drained_state : Receiving T W → Receiving T W
  drained_state r = record r { stream = record r.stream { timer = drain c r.stream.timer } }

  drained-Moves : (r : Receiving T W) → Sound c leak r.stream.timer → Moves r (drained_state r)
  drained-Moves r v = record {
    more_errors = [];
    more_dones = [];
    accounted = drain-Accounted c k leak alloc r.stream.timer v;
    seq = refl;
    stays = inl refl;
    errors = sym (append-nil r.stream.errors);
    dones = sym (append-nil r.dones);
  }

  or_closed : (r x y : Receiving T W) → (y ≡ x) ⊎ (y ≡ set_closed x) → Moves r x → Moves r y
  or_closed r x y (inl e) m = rw e m
  or_closed r x y (inr e) m = rw e (Moves-set_closed r x m)

  open-Moves :
      (r x : Receiving T W) (close_rx : Bool)
      → Sound c leak r.stream.timer
      → Leaves z c transport alloc (recv_open z c alloc close_rx r) x
      → Moves r x
  unfolding recv_open
  open-Moves r x close_rx v l =
      let d = read_resp c alloc z close_rx r.stream.timer r.rest in
      let (np, e) = open_turn-Leaves (absorb r d) x d.poll l in
      or_closed r (absorb r d) x e (
        absorb-Moves r d (read_resp-Accounted c alloc k leak z close_rx r.stream.timer r.rest v np))

  -- The branch of a closed stream that reads on.
  reads_on :
      (r x : Receiving T W)
      → Sound c leak r.stream.timer
      → let d = read_resp c alloc z false r.stream.timer r.rest in
        Leaves z c transport alloc (closed_turn (absorb r d) d.poll) x → Moves r x
  reads_on r x v l =
      let d = read_resp c alloc z false r.stream.timer r.rest in
      let (np, e) = closed_turn-Leaves (absorb r d) x d.poll l in
      or_closed r (absorb r d) x e
        (absorb-Moves r d (read_resp-Accounted c alloc k leak z false r.stream.timer r.rest v np))

  fails-Leaves :
      (r x : Receiving T W) (e : RpcIntErr) → Leaves z c transport alloc (fails r e) x → x ≡ r
  fails-Leaves r x e failing = refl

  -- `recv_closed`, by whether it ends at once.
  closed_ends :
      (r : Receiving T W)
      → (says_empty (check_pending_tasks_empty c r.stream.timer).poll || r.stream.has_err) ≡ true
      → recv_closed z c alloc r ≡ fails (drained_state r) io
  unfolding recv_closed check_pending_tasks_empty
  closed_ends r e = rw e refl

  closed_reads :
      (r : Receiving T W)
      → (says_empty (check_pending_tasks_empty c r.stream.timer).poll || r.stream.has_err) ≡ false
      → let d = drained_state r in
        let a = read_resp c alloc z false d.stream.timer d.rest in
        recv_closed z c alloc r ≡ closed_turn (absorb d a) a.poll
  unfolding recv_closed check_pending_tasks_empty
  closed_reads r e = rw e refl

  closed-Moves :
      (r x : Receiving T W)
      → Sound c leak r.stream.timer
      → Leaves z c transport alloc (recv_closed z c alloc r) x
      → Moves r x
  closed-Moves r x v l =
      let empty = says_empty (check_pending_tasks_empty c r.stream.timer).poll in
      let d = drained_state r in
      let m = drained-Moves r v in
      elim (Bool-cases (empty || r.stream.has_err)) [
        | inl e ↦ rw (fails-Leaves d x io (rw (closed_ends r e) at l)) m
        | inr e ↦ Moves-trans r d x m (reads_on d x m.accounted.sound (rw (closed_reads r e) at l))
      ]

  turn-closed :
      (r : Receiving T W) (close_rx : Bool)
      → r.stream.closed ≡ true
      → recv_turn z c alloc close_rx r ≡ recv_closed z c alloc r
  unfolding recv_turn
  turn-closed r close_rx e = ground (arith, e)

  turn-open :
      (r : Receiving T W) (close_rx : Bool)
      → r.stream.closed ≡ false
      → recv_turn z c alloc close_rx r ≡ recv_open z c alloc close_rx r
  unfolding recv_turn
  turn-open r close_rx e = ground (arith, e)

  -- A round of the receiver that does not panic.
  pub round-Moves :
      (r x : Receiving T W) (close_rx : Bool)
      → Sound c leak r.stream.timer
      → Leaves z c transport alloc (recv_turn z c alloc close_rx r) x
      → Moves r x
  round-Moves r x close_rx v l = elim (Bool-cases r.stream.closed) [
    | inl e ↦ closed-Moves r x v (rw (turn-closed r close_rx e) at l)
    | inr e ↦ open-Moves r x close_rx v (rw (turn-open r close_rx e) at l)
  ]
