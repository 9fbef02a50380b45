-- ===== src/Tests/Graceful.antt =====
-- stream/src/server/graceful.rs on a server with two sockets.
use razor_rpc.Prelude.{
  ◌*◌, ℕ, ◌≡◌, refl, true, false, List, [], ◌∷◌, some, Result, ok, err, panic, arith, inl,
}
use razor_rpc.Prelude.Text.{bytes}
use razor_rpc.Prelude.Int.{ℤ, pos, int_eq}
use razor_rpc.Server.Graceful.{
  GracefulServer, Listening, Child, child_of, new, Look, exited, restart, Signal, is_restart, ready,
  serving, closed,
}
use razor_rpc.Server.Graceful.Recover.{fd_texts, listen_all, restarted-takes_over, restarted-empty}
use razor_rpc.Server.Graceful.Signals.{ready_lem, restart_ends}

-- A listener is its descriptor.
abbrev sockets : Listening ℤ (Unit {0})
sockets = record {
  try_from_raw_fd = λ addr fd. ok fd;
  bind = λ addr. ok (pos 9);
  as_raw_fd = λ s. s;
}

abbrev server_of : List (List ℕ) → GracefulServer
server_of fds = record {
  listen_fds = fds;
  recovered = false;
  recover_listen_fds = [];
  restart_timeout = 2_500_000_000;
  close_signals = pos 15 ∷ [];
}

abbrev addrs : List (List ℕ)
addrs = bytes "a:1" ∷ bytes "b:2" ∷ []

restarted-takes_over_example :
    (c : Child) × (g : GracefulServer) × (child_of (server_of (fd_texts (7 ∷ 12 ∷ []))) ≡ ok c)
    × (new 2 (pos 15 ∷ []) c.env ≡ ok g)
    × (g.recovered ≡ true)
    × ((listen_all sockets addrs g).listen_fds ≡ fd_texts (7 ∷ 12 ∷ []))
    × ((listen_all sockets addrs g).recover_listen_fds ≡ [])
restarted-takes_over_example =
    restarted-takes_over sockets (server_of (fd_texts (7 ∷ 12 ∷ []))) 7 (12 ∷ []) addrs 2
      (pos 15 ∷ []) (λ a fd. (fd, refl)) refl (omega arith) refl

restarted-empty_example :
    (c : Child) × (child_of (server_of []) ≡ ok c) × (new 2 (pos 15 ∷ []) c.env ≡ panic)
restarted-empty_example = restarted-empty (server_of []) 2 (pos 15 ∷ []) refl

abbrev signal_of : ℕ → Result (Unit {0}) (Unit {0}) → Signal
signal_of n r = record { number = pos n; restarted = r }

ready_lem_example :
    (ready (ok tt) (some (pos 10)) (signal_of 10 (err tt) ∷ []) ≡ serving)
    × (ready
          (ok tt)
          (some (pos 10))
          (signal_of 10 (err tt) ∷ (signal_of 15 (ok tt) ∷ signal_of 10 (ok tt) ∷ []))
        ≡ closed)
unfolding is_restart int_eq
ready_lem_example =
    ready_lem (some (pos 10)) (signal_of 10 (err tt) ∷ []) (signal_of 10 (ok tt) ∷ [])
      (signal_of 15 (ok tt)) ((refl, refl), tt) (inl refl)

abbrev look_at : ℕ → Look
look_at k = record { elapsed = 1_000_000_000 * k; opened = false }

restart_ends_example :
    (x : Result (Unit {0}) (Unit {0})) × (restart 4
        (ok tt)
        look_at
        exited
        (server_of (fd_texts (7 ∷ [])))
      ≡ some x)
restart_ends_example =
    restart_ends (server_of (fd_texts (7 ∷ []))) (ok tt) look_at exited (λ k. omega arith)
