-- ===== src/Stream/Conserve.antt =====
-- stream/src/client/stream.rs, timer.rs and transport/tcp/src/client.rs: what a response does to the
-- numbers of the tasks that the timer holds.
use razor_rpc.Prelude.{
  ℕ, ◌+◌, ◌≡◌, ◌≢◌, refl, ap, Bool, true, false, List, [], Option, some, none, Result, ok, err,
  panic, arith,
}
use razor_rpc.Prelude.Int.{ℤ}
use razor_rpc.Layout.{ByteOrder}
use razor_rpc.Error.{RpcIntErr, io}
use razor_rpc.Proto.{RespHead, resp_decode_head, rpc_resp_header_len}
use razor_rpc.Task.{ClientTask}
use razor_rpc.Timer.{Timer, Poll, pending, ready, take_task, take_task_resume}
use razor_rpc.Timer.Order.{tasks}
use razor_rpc.Timer.Find.{newest}
use razor_rpc.Timer.Take.{Sound, Took, Taking, taken, missing, waiting, take_task-Took, resume-Took}
use razor_rpc.Tcp.Stream.{Read, read_exact}
use razor_rpc.Tcp.Client.{
  Responded, recv_and_dump, recv_nobody, recv_found, recv_polled, recv_resp_body, recv_resp_resume,
  as_read, read_resp,
}
use razor_rpc.Tcp.Client.Numbers.{times-recv_task, handed_times}
use razor_rpc.Stream.Numbers.{times, times-erase_seq, is_number, KeepsSeq}

module _ {T : Type 0} (c : ClientTask T) (alloc : ℤ → Bool) (k : KeepsSeq c) (leak : ℕ) where
  -- A timer `u` after `t`, and the tasks that were handed over in between: every number is still held
  -- or was handed over, as often as it was held before.
  pub record Accounted (t u : Timer T) (errors dones : List T) : Type 0 where
    pub sound : Sound c leak u
    pub newest_kept : newest c u ≡ newest c t
    pub each :
        (n : ℕ) → times c n (tasks t) ≡ times c n (tasks u) + (times c n errors + times c n dones)

  nothing_handed :
      (t u : Timer T)
      → Sound c leak u
      → newest c u ≡ newest c t
      → tasks u ≡ tasks t
      → Accounted t u [] []
  nothing_handed t u v e h = record {
    sound = v;
    newest_kept = e;
    each = λ n. rw h (unfold times in omega arith);
  }

  times-recv_nobody :
      (n : ℕ) (head : RespHead) (s : List ℕ)
      → handed_times c alloc k n (recv_nobody c alloc head s) ≡ 0
  unfolding recv_nobody recv_and_dump times
  times-recv_nobody n head s = ground arith

  -- What `recv_found` does for the answer of `take_task`.
  found-Accounted :
      (seq : ℕ) (t u : Timer T) (head : RespHead) (s : List ℕ) (p : Poll (Option T))
      (found : Option T)
      → Sound c leak u
      → newest c u ≡ newest c t
      → Taking c leak seq t u p
      → p ≡ ready found
      → (recv_found c alloc head s found).res ≢ panic
      → let b = recv_found c alloc head s found in Accounted t u b.errors b.dones
  unfolding recv_found
  found-Accounted seq t u head s _ (some y) v e (taken x l kept) h np =
      let same : x ≡ y = ground (arith, h) in
      record {
        sound = v;
        newest_kept = e;
        each = λ n. omega (
          arith,
          times-recv_task c alloc k n head y s np,
          ap (is_number c n) same,
          times-erase_seq c n seq (tasks t) x l,
          ap (times c n) kept,
        );
      }
  found-Accounted seq t u head s _ none v e (taken x l kept) h np = ground (arith, h)
  found-Accounted seq t u head s _ (some y) v e (missing kept) h np = ground (arith, h)
  found-Accounted seq t u head s _ none v e (missing kept) h np = record {
    sound = v;
    newest_kept = e;
    each = λ n. omega (arith, ap (times c n) kept, times-recv_nobody n head s);
  }
  found-Accounted seq t u head s _ found v e (waiting kept) h np = ground (arith, h)

  Taking-pending :
      (seq : ℕ) (t u : Timer T) (p : Poll (Option T))
      → Taking c leak seq t u p
      → p ≡ pending
      → tasks u ≡ tasks t
  Taking-pending seq t u _ (taken x l kept) h = ground (arith, h)
  Taking-pending seq t u _ (missing kept) h = kept
  Taking-pending seq t u _ (waiting kept) h = kept

  as_read-panic :
      (r : Result RpcIntErr (Unit {0})) → ready (as_read c alloc r) ≢ ready panic → r ≢ panic
  unfolding as_read
  as_read-panic r h e = ground (arith, h, e)

  -- What follows a poll of `take_task`.
  polled-Accounted :
      (t u : Timer T) (head : RespHead) (s : List ℕ) (p : Poll (Option T))
      → Took c leak head.seq t (record { timer = u; poll = p })
      → let r = recv_polled c alloc head s (record { timer = u; poll = p }) in
        r.poll ≢ ready panic → Accounted t r.timer r.errors r.dones
  polled-Accounted t u head s pending w np =
      nothing_handed t u w.sound w.newest_kept (Taking-pending head.seq t u pending w.taking refl)
  polled-Accounted t u head s (ready found) w np =
      found-Accounted head.seq t u head s (ready found) found w.sound w.newest_kept w.taking refl
        (as_read-panic (recv_found c alloc head s found).res np)

  body-Accounted :
      (t : Timer T) (head : RespHead) (s : List ℕ)
      → Sound c leak t
      → let r = recv_resp_body c alloc t head s in
        r.poll ≢ ready panic → Accounted t r.timer r.errors r.dones
  unfolding recv_resp_body
  body-Accounted t head s v np =
      let p = take_task c t head.seq in
      polled-Accounted t p.timer head s p.poll (take_task-Took c leak head.seq t v) np

  -- The same of a later poll, which has waited for the task.
  pub resume-Accounted :
      (t : Timer T) (head : RespHead) (s : List ℕ)
      → Sound c leak t
      → let r = recv_resp_resume c alloc t head s in
        r.poll ≢ ready panic → Accounted t r.timer r.errors r.dones
  unfolding recv_resp_resume
  resume-Accounted t head s v np =
      let p = take_task_resume c t head.seq in
      polled-Accounted t p.timer head s p.poll (resume-Took c leak head.seq t v) np

  same_timer : (t : Timer T) → Sound c leak t → Accounted t t [] []
  same_timer t v = nothing_handed t t v refl refl

  module _ (z : ByteOrder) where
    read-closed :
        (t : Timer T) (s : List ℕ)
        → read_resp c alloc z true t s
          ≡ record { timer = t; errors = []; dones = []; rest = s; poll = ready (ok false) }
    unfolding read_resp
    read-closed t s = refl

    read-head :
        (t : Timer T) (s : List ℕ) (h : Read) (head : RespHead)
        → read_exact io rpc_resp_header_len s ≡ ok h
        → resp_decode_head z h.got ≡ ok head
        → read_resp c alloc z false t s ≡ recv_resp_body c alloc t head h.rest
    unfolding read_resp
    read-head t s h head e k = rw (e, k) refl

    Goal : Timer T → Responded T → Type 0
    Goal t r = Accounted t r.timer r.errors r.dones

    read-decoded :
        (t : Timer T) (s : List ℕ) (h : Read) (d : Result RpcIntErr RespHead)
        → Sound c leak t
        → read_exact io rpc_resp_header_len s ≡ ok h
        → resp_decode_head z h.got ≡ d
        → (read_resp c alloc z false t s).poll ≢ ready panic
        → Goal t (read_resp c alloc z false t s)
    unfolding read_resp Goal
    read-decoded t s h (ok head) v e d np =
        rw (read-head t s h head e d)
          (body-Accounted t head h.rest v (rw (read-head t s h head e d) at np))
    read-decoded t s h (err x) v e d np = rw (e, d, read_resp) (same_timer t v)
    read-decoded t s h panic v e d np = rw (e, d, read_resp) (same_timer t v)

    read-arrived :
        (t : Timer T) (s : List ℕ) (r : Result RpcIntErr Read)
        → Sound c leak t
        → read_exact io rpc_resp_header_len s ≡ r
        → (read_resp c alloc z false t s).poll ≢ ready panic
        → Goal t (read_resp c alloc z false t s)
    unfolding read_resp Goal
    read-arrived t s (ok h) v e np = read-decoded t s h (resp_decode_head z h.got) v e refl np
    read-arrived t s (err x) v e np = rw (e, read_resp) (same_timer t v)
    read-arrived t s panic v e np = rw (e, read_resp) (same_timer t v)

    -- Whatever bytes arrive, unless reading panics: after `read_resp` on a sound timer every number is
    -- held or was handed over, as often as it was held before, and the timer is sound again.
    pub read_resp-Accounted :
        (closed : Bool) (t : Timer T) (s : List ℕ)
        → Sound c leak t
        → let r = read_resp c alloc z closed t s in
          r.poll ≢ ready panic → Accounted t r.timer r.errors r.dones
    unfolding Goal
    read_resp-Accounted true t s v np = rw (read-closed t s) (same_timer t v)
    read_resp-Accounted false t s v np =
        read-arrived t s (read_exact io rpc_resp_header_len s) v refl np
