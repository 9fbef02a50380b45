-- ===== src/Stream/Rounds.antt =====
-- stream/src/client/stream.rs: how `recv_one_resp` and `recv_some` end.
use razor_rpc.Prelude.{ℕ, suc, ◌≡◌, refl, Bool, List, [], ◌∷◌, Option, Result, err, panic, arith}
use razor_rpc.Prelude.Int.{ℤ}
use razor_rpc.Layout.{ByteOrder}
use razor_rpc.Error.{RpcIntErr}
use razor_rpc.Task.{ClientTask}
use razor_rpc.Timer.{Poll, pending, ready}
use razor_rpc.Stream.Receive.{
  Receiving, Turn, goes_on, fails, awaits_task, panics, recv_turn, recv_one_resp, recv_rounds,
  recv_some,
}

-- The ways in which a run can end.
pub data NotOk : Poll (Result RpcIntErr (Unit {0})) → Type 0 where
  waiting : NotOk pending
  failing : (e : RpcIntErr) → NotOk (ready (err e))
  panicking : NotOk (ready panic)

module _ {T W : Type 0} (z : ByteOrder) (c : ClientTask T) (alloc : ℤ → Bool) where
  -- Whatever arrives and whenever the stream is closed, `recv_one_resp` never returns `Ok`: it goes on
  -- to the next response, waits, fails or panics.
  recv_one_resp_never_ok :
      (bs : List Bool) (r : Receiving T W) → NotOk (recv_one_resp z c alloc bs r).outcome
  unfolding recv_one_resp
  recv_one_resp_never_ok [] r = waiting
  recv_one_resp_never_ok (b ∷ bs) r =
      split (recv_turn z c alloc b r) refl (recv_one_resp_never_ok bs)
    where
      split :
          (t : Turn T W)
          → recv_turn z c alloc b r ≡ t
          → ((r1 : Receiving T W) → NotOk (recv_one_resp z c alloc bs r1).outcome)
          → NotOk (recv_one_resp z c alloc (b ∷ bs) r).outcome
      split (goes_on r1) e h = rw (e, recv_one_resp) (h r1)
      split (fails r1 x) e h = rw (e, recv_one_resp) (failing x)
      split (awaits_task r1) e h = rw (e, recv_one_resp) waiting
      split (panics r1) e h = rw (e, recv_one_resp) panicking

  round-once :
      (n now : ℕ) (ts : Option ℕ) (bs : List Bool) (r : Receiving T W)
      (p : Poll (Result RpcIntErr (Unit {0})))
      → (recv_one_resp z c alloc bs r).outcome ≡ p
      → NotOk p
      → recv_rounds z c alloc (suc n) now ts bs r
        ≡ record { ran = recv_one_resp z c alloc bs r; last_resp_ts = ts }
  unfolding recv_rounds
  round-once n now ts bs r _ e waiting = ground (arith, e)
  round-once n now ts bs r _ e (failing x) = ground (arith, e)
  round-once n now ts bs r _ e panicking = ground (arith, e)

  -- Whatever arrives and whenever the stream is closed, `recv_some` runs one round of its 20, and the
  -- time of the last response stays as it was.
  pub recv_some_once :
      (now : ℕ) (ts : Option ℕ) (bs : List Bool) (r : Receiving T W)
      → recv_some z c alloc now ts bs r
        ≡ record { ran = recv_one_resp z c alloc bs r; last_resp_ts = ts }
  unfolding recv_some
  recv_some_once now ts bs r =
      round-once 19 now ts bs r (recv_one_resp z c alloc bs r).outcome refl
        (recv_one_resp_never_ok bs r)
