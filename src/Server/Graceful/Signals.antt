-- ===== src/Server/Graceful/Signals.antt =====
-- stream/src/server/graceful.rs: what makes a server leave, and how long a restart waits.
use razor_rpc.Prelude.{
  ℕ, zero, suc, ◌+◌, ◌*◌, ◌/◌, ◌<◌, ◌≤◌, ◌≡◌, refl, true, false, List, [], ◌∷◌, ◌++◌, Option, some,
  Result, ok, err, panic, append-nil, All, arith, leb, Bool-cases, inl, inr, ◌⊎◌,
}
use razor_rpc.Prelude.Int.{ℤ}
use razor_rpc.Server.Graceful.{
  GracefulServer, Child, child_of, restart, Look, Waited, wait_child, after_wait, Signal,
  is_restart, leaves, signal_loop, after_loop, serving, closed, ready,
}

-- A signal that asks for a restart which fails.
abbrev pub FailedRestart : Option ℤ → Signal → Type 0
FailedRestart r s = (is_restart r s.number ≡ true) × (s.restarted ≡ err tt)

-- A signal that ends the loop: any but that for a restart, or a restart that succeeds.
abbrev pub Leaving : Option ℤ → Signal → Type 0
Leaving r s = (is_restart r s.number ≡ false) ⊎ (s.restarted ≡ ok tt)

leaving :
    (r : Option ℤ) (s : Signal) (rest : List Signal)
    → Leaving r s
    → signal_loop r (s ∷ rest) ≡ leaves
unfolding signal_loop
leaving r s rest (inl e) = ground (arith, e)
leaving r s rest (inr e) = ground (arith, e)

failing :
    (r : Option ℤ) (fs rest : List Signal)
    → All (FailedRestart r) fs
    → signal_loop r (fs ++ rest) ≡ signal_loop r rest
unfolding signal_loop
failing r [] rest h = refl
failing r (f ∷ fs) rest h = ground (arith, h.0, failing r fs rest h.1)

-- Restarts that fail leave the server serving, as many as there are; the first signal that is another one, or
-- whose restart succeeds, closes it, whatever comes behind.
pub ready_lem :
    (r : Option ℤ) (fs rest : List Signal) (s : Signal)
    → All (FailedRestart r) fs
    → Leaving r s
    → (ready (ok tt) r fs ≡ serving) × (ready (ok tt) r (fs ++ (s ∷ rest)) ≡ closed)
unfolding ready after_loop signal_loop
ready_lem r fs rest s h l = (
  ground (arith, failing r fs [] h, append-nil fs),
  ground (arith, failing r fs (s ∷ rest) h, leaving r s rest l),
)

wait_child_lem :
    (fuel timeout n : ℕ) (look : ℕ → Look) (tried : Waited)
    → ((k : ℕ) → 1_000_000_000 * k ≤ (look k).elapsed)
    → timeout < 1_000_000_000 * (fuel + n)
    → (x : Result (Unit {0}) (Unit {0})) × (wait_child (suc fuel) timeout look tried n ≡ some x)
unfolding wait_child
wait_child_lem zero timeout n look tried h k =
    let late : leb (look n).elapsed timeout ≡ false = ground (arith, h n, k) in
    (after_wait tried, rw late refl)
wait_child_lem (suc fuel) timeout n look tried h k =
    elim (Bool-cases (leb (look n).elapsed timeout)) [
      | inl e ↦ elim (Bool-cases (look n).opened) [
        | inl o ↦ (ok tt, rw (e, o) refl)
        | inr o ↦ rw (e, o) (wait_child_lem fuel timeout (suc n) look tried h (omega (arith, k)))
      ]
      | inr e ↦ (after_wait tried, rw e refl)
    ]

-- If every look for the child's file is a second later than the one before, a restart of a server returns (or panics)
-- within two looks more than the whole seconds of its time limit.
pub restart_ends :
    (g : GracefulServer) (spawn : Result (Unit {0}) (Unit {0})) (look : ℕ → Look) (tried : Waited)
    → ((k : ℕ) → 1_000_000_000 * k ≤ (look k).elapsed)
    → (x : Result (Unit {0}) (Unit {0})) × (restart
          (g.restart_timeout / 1_000_000_000 + 2)
          spawn
          look
          tried
          g
        ≡ some x)
unfolding restart
restart_ends g spawn look tried h = spawned (child_of g) spawn refl refl
  where
    spawned :
        (c : Result (Unit {0}) Child) (s : Result (Unit {0}) (Unit {0}))
        → child_of g ≡ c
        → spawn ≡ s
        → (x : Result (Unit {0}) (Unit {0})) × (restart
              (g.restart_timeout / 1_000_000_000 + 2)
              spawn
              look
              tried
              g
            ≡ some x)
    spawned (ok c) (ok u) e k =
        let (x, w) =
          wait_child_lem (g.restart_timeout / 1_000_000_000 + 1) g.restart_timeout 0 look tried h
            (omega arith) in
        (x, ground (arith, e, k, w))
    spawned (ok c) (err u) e k = (err u, ground (arith, e, k))
    spawned (ok c) panic e k = (panic, ground (arith, e, k))
    spawned (err u) s e k = (err u, ground (arith, e))
    spawned panic s e k = (panic, ground (arith, e))
