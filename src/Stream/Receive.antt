-- ===== src/Stream/Receive.antt =====
-- stream/src/client/stream.rs: the receiving half, `recv_one_resp`, `recv_some`, and the poll of the
-- future that carries the second's tick. What arrives is the list of bytes; a schedule says, one round
-- of the loop after the other, whether the close channel comes before the next header, and a run
-- ends, still waiting, with its schedule. `dones` lists the tasks that are done, in order.
use razor_rpc.Prelude.{
  ℕ, zero, suc, Bool, true, false, ◌||◌, List, [], ◌∷◌, ◌++◌, Option, some, none, Result, ok, err,
  panic, if◌then◌else◌,
}
use razor_rpc.Prelude.Int.{ℤ}
use razor_rpc.Layout.{ByteOrder}
use razor_rpc.Error.{RpcIntErr, io}
use razor_rpc.Task.{ClientTask}
use razor_rpc.Timer.{
  Poll, pending, ready, adjust_task_queue, check_pending_tasks_empty, poll_sent_task,
}
use razor_rpc.Tcp.Client.{Responded, read_resp}
use razor_rpc.Stream.{Stream, nearly_full, get_inflight_count, clean_stream}

pub record Receiving (T W : Type 0) : Type 0 where
  pub stream : Stream T W
  pub dones : List T
  pub rest : List ℕ

-- One round of the loop of `recv_one_resp`.
pub data Turn (T W : Type 0) : Type 0 where
  goes_on : Receiving T W → Turn T W
  fails : Receiving T W → RpcIntErr → Turn T W
  awaits_task : Receiving T W → Turn T W
  panics : Receiving T W → Turn T W

-- A run of `recv_one_resp`: its state, what is left of its schedule, and its poll.
pub record Ran (T W : Type 0) : Type 0 where
  pub state : Receiving T W
  pub left : List Bool
  pub outcome : Poll (Result RpcIntErr (Unit {0}))

-- A run of `recv_some`, with the time of the last response that it stored.
pub record RanSome (T W : Type 0) : Type 0 where
  pub ran : Ran T W
  pub last_resp_ts : Option ℕ

unfoldable pub will_block : {T W : Type 0} → Stream T W → Bool
will_block s = nearly_full s.throttler (get_inflight_count s)

-- `set_error_and_exit`; `close_conn` is the transport's.
unfoldable pub set_error_and_exit : {T W : Type 0} → (W → W) → Stream T W → Stream T W
set_error_and_exit close_conn s = record s { has_err = true; conn = close_conn s.conn }

-- `check_pending_tasks_empty` answers at once.
unfoldable pub says_empty : Poll Bool → Bool
says_empty pending = false
says_empty (ready b) = b

module _ {T W : Type 0} where
  -- The state behind a call of `read_resp`.
  unfoldable pub absorb : Receiving T W → Responded T → Receiving T W
  absorb r d = record {
    stream = record r.stream { timer = d.timer; errors = r.stream.errors ++ d.errors };
    dones = r.dones ++ d.dones;
    rest = d.rest;
  }

  unfoldable pub set_closed : Receiving T W → Receiving T W
  set_closed r = record r { stream = record r.stream { closed = true } }

  -- The branches on the result of `read_resp`, on a stream that is closed and on one that is not.
  unfoldable pub closed_turn : Receiving T W → Poll (Result RpcIntErr Bool) → Turn T W
  closed_turn r pending = awaits_task r
  closed_turn r (ready (ok more)) = goes_on r
  closed_turn r (ready (err e)) = fails (set_closed r) io
  closed_turn r (ready panic) = panics r

  unfoldable pub open_turn : Receiving T W → Poll (Result RpcIntErr Bool) → Turn T W
  open_turn r pending = awaits_task r
  open_turn r (ready (ok true)) = goes_on r
  open_turn r (ready (ok false)) = goes_on (set_closed r)
  open_turn r (ready (err e)) = fails r io
  open_turn r (ready panic) = panics r

module _ {T W : Type 0} (z : ByteOrder) (c : ClientTask T) (alloc : ℤ → Bool) where
  -- The two branches of the loop's body.
  unfoldable pub recv_closed : Receiving T W → Turn T W
  recv_closed r =
      let p = check_pending_tasks_empty c r.stream.timer in
      let r1 = record r { stream = record r.stream { timer = p.timer } } in
      let d = read_resp c alloc z false p.timer r.rest in
      if says_empty p.poll || r.stream.has_err
      then fails r1 io
      else closed_turn (absorb r1 d) d.poll

  unfoldable pub recv_open : Bool → Receiving T W → Turn T W
  recv_open close_rx r =
      let d = read_resp c alloc z close_rx r.stream.timer r.rest in open_turn (absorb r d) d.poll

  unfoldable pub recv_turn : Bool → Receiving T W → Turn T W
  recv_turn close_rx r = if r.stream.closed then recv_closed r else recv_open close_rx r

  -- The loop of `recv_one_resp`.
  unfoldable pub recv_one_resp : List Bool → Receiving T W → Ran T W
  recv_one_resp [] r = record { state = r; left = []; outcome = pending }
  recv_one_resp (b ∷ bs) r = elim (recv_turn b r) [
    | goes_on r1 ↦ recv_one_resp bs r1
    | fails r1 e ↦ record { state = r1; left = bs; outcome = ready (err e) }
    | awaits_task r1 ↦ record { state = r1; left = bs; outcome = pending }
    | panics r1 ↦ record { state = r1; left = bs; outcome = ready panic }
  ]

  -- `recv_some` with `n` of its 20 rounds to go; `now` is the timestamp that it stores.
  unfoldable pub recv_rounds : ℕ → ℕ → Option ℕ → List Bool → Receiving T W → RanSome T W
  recv_rounds zero now ts bs r = record {
    ran = record { state = r; left = bs; outcome = ready (ok tt) };
    last_resp_ts = ts;
  }
  recv_rounds (suc n) now ts bs r =
      let o = recv_one_resp bs r in
      elim o.outcome [
        | pending ↦ record { ran = o; last_resp_ts = ts }
        | ready res ↦ elim res [
          | ok u ↦ recv_rounds n now (elim ts [ none ↦ none | some t ↦ some now ]) o.left o.state
          | err e ↦ record { ran = o; last_resp_ts = ts }
          | panic ↦ record { ran = o; last_resp_ts = ts }
        ]
      ]

  unfoldable pub recv_some : ℕ → Option ℕ → List Bool → Receiving T W → RanSome T W
  recv_some = recv_rounds 20

  -- `time_reach`, and the loop that calls it for every tick that has come.
  unfoldable pub time_reach : Stream T W → Stream T W
  time_reach s =
      let h = adjust_task_queue c s.timer in
      record s { timer = h.timer; errors = s.errors ++ h.errors }

  unfoldable pub time_reaches : ℕ → Stream T W → Stream T W
  time_reaches zero s = s
  time_reaches (suc n) s = time_reaches n (time_reach s)

  -- `ReceiverTimerFuture::poll` with a `recv_some` that begins.
  unfoldable pub receiver_poll : ℕ → ℕ → Option ℕ → List Bool → Receiving T W → RanSome T W
  receiver_poll ticks now ts bs r =
      let s1 = time_reaches ticks r.stream in
      let s2 = record s1 { timer = (poll_sent_task c s1.timer).timer } in
      if s1.has_err
      then record {
        ran = record { state = record r { stream = s1 }; left = bs; outcome = ready (err io) };
        last_resp_ts = ts;
      }
      else recv_some now ts bs (record r { stream = s2 })

-- `ClientStreamInner`'s `Drop`
unfoldable pub drop_inner : {T W : Type 0} → ClientTask T → Stream T W → Stream T W
drop_inner c s = clean_stream c s
