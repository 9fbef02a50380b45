-- ===== src/Server/Graceful.antt =====
-- stream/src/server/graceful.rs: `GracefulServer`, whose listening sockets a restarted program takes
-- over. Descriptors go to it as text in the environment. Files, processes and signals are parameters: what
-- their calls give. Names of files are left out.
pub mod Recover
pub mod Signals
use razor_rpc.Prelude.{
  ℕ, zero, suc, ◌+◌, Bool, true, false, not, List, [], ◌∷◌, ◌++◌, Option, none, some, Result, ok,
  err, panic, leb, ◌==◌, if◌then◌else◌, ◌>>=◌,
}
use razor_rpc.Prelude.Int.{ℤ, pos, negsuc, int_eq}
use razor_rpc.Server.Decimal.{to_string, parse_i32, split, join}

-- `restart_timeout` is in nanoseconds.
pub record GracefulServer : Type 0 where
  pub listen_fds : List (List ℕ)
  pub recovered : Bool
  pub recover_listen_fds : List ℤ
  pub restart_timeout : ℕ
  pub close_signals : List ℤ

-- `fd_str.parse::<RawFd>().unwrap()` of each part.
unfoldable pub parse_fds : List (List ℕ) → Result (Unit {0}) (List ℤ)
parse_fds [] = ok []
parse_fds (s ∷ ss) =
    let rest = parse_fds ss in
    elim (parse_i32 s) [ none ↦ panic | some fd ↦ rest >>= λ fds. ok (fd ∷ fds) ]

-- The variable `_GRACEFUL_RESTART`: it is not set, is no UTF-8, or is a text.
pub data EnvVar : Type 0 where
  unset : EnvVar
  not_unicode : EnvVar
  text : List ℕ → EnvVar

-- `check_recover`; 44 is ','.
unfoldable pub check_recover : EnvVar → GracefulServer → Result (Unit {0}) GracefulServer
check_recover unset g = ok g
check_recover not_unicode g = panic
check_recover (text s) g = parse_fds (split 44 s) >>= λ fds.
    ok (record g { recover_listen_fds = g.recover_listen_fds ++ fds; recovered = true })

unfoldable pub new : ℕ → List ℤ → EnvVar → Result (Unit {0}) GracefulServer
new restart_timeout close_signals env = check_recover env (record {
  listen_fds = [];
  recovered = false;
  recover_listen_fds = [];
  restart_timeout = restart_timeout;
  close_signals = close_signals;
})

-- The kind of listener, with its calls.
pub record Listening (L Io : Type 0) : Type 0 where
  pub try_from_raw_fd : List ℕ → ℤ → Result Io L
  pub bind : List ℕ → Result Io L
  pub as_raw_fd : L → ℤ

module _ {L Io : Type 0} (l : Listening L Io) where
  unfoldable pub bind_listener : List ℕ → GracefulServer → GracefulServer × Result Io L
  bind_listener addr g = elim (l.bind addr) [
    | ok listener ↦ (
      record g { listen_fds = g.listen_fds ++ to_string (l.as_raw_fd listener) ∷ [] },
      ok listener,
    )
    | err e ↦ (g, err e)
    | panic ↦ (g, panic)
  ]

  -- With the first descriptor, which is taken out.
  unfoldable pub recover_listener : List ℕ → ℤ → GracefulServer → GracefulServer × Result Io L
  recover_listener addr raw_fd g = elim (l.try_from_raw_fd addr raw_fd) [
    | ok listener ↦ (record g { listen_fds = g.listen_fds ++ to_string raw_fd ∷ [] }, ok listener)
    | err e ↦ bind_listener addr g
    | panic ↦ (g, panic)
  ]

  unfoldable pub new_listener : List ℕ → GracefulServer → GracefulServer × Result Io L
  new_listener addr g = elim g.recover_listen_fds [
    | [] ↦ bind_listener addr g
    | raw_fd ∷ rest ↦ recover_listener addr raw_fd (record g { recover_listen_fds = rest })
  ]

-- `preserved_fds.sort()`
unfoldable pub int_leb : ℤ → ℤ → Bool
int_leb (pos m) (pos n) = leb m n
int_leb (pos m) (negsuc n) = false
int_leb (negsuc m) (pos n) = true
int_leb (negsuc m) (negsuc n) = leb n m

unfoldable pub insert_fd : ℤ → List ℤ → List ℤ
insert_fd x [] = x ∷ []
insert_fd x (y ∷ ys) = let rest = insert_fd x ys in if int_leb x y then x ∷ y ∷ ys else y ∷ rest

unfoldable pub sort_fds : List ℤ → List ℤ
sort_fds [] = []
sort_fds (x ∷ xs) = insert_fd x (sort_fds xs)

-- What `restart` gives the child: the variable, and the descriptors that stay open.
pub record Child : Type 0 where
  pub env : EnvVar
  pub preserved_fds : List ℤ

unfoldable pub child_of : GracefulServer → Result (Unit {0}) Child
child_of g = parse_fds g.listen_fds >>= λ fds.
    ok (record { env = text (join 44 g.listen_fds); preserved_fds = sort_fds fds })

-- A round of the wait for the child: the time since the start, in nanoseconds as in a `Duration`, and whether its file is there.
pub record Look : Type 0 where
  pub elapsed : ℕ
  pub opened : Bool

-- `try_wait`: the child is gone, runs, or an error.
pub data Waited : Type 0 where
  exited : Waited
  running : Waited
  wait_failed : Waited

unfoldable pub after_wait : Waited → Result (Unit {0}) (Unit {0})
after_wait exited = err tt
after_wait running = ok tt
after_wait wait_failed = err tt

-- The loop, on fuel; none if the fuel has run out.
unfoldable pub wait_child : ℕ → ℕ → (ℕ → Look) → Waited → ℕ → Option (Result (Unit {0}) (Unit {0}))
wait_child zero timeout look tried n = none
wait_child (suc fuel) timeout look tried n =
    let later = wait_child fuel timeout look tried (suc n) in
    if leb (look n).elapsed timeout
    then if (look n).opened then some (ok tt) else later
    else some (after_wait tried)

-- `restart`; `spawn` is what `cmd.spawn` gives.
unfoldable pub restart :
    ℕ
    → Result (Unit {0}) (Unit {0})
    → (ℕ → Look)
    → Waited
    → GracefulServer
    → Option (Result (Unit {0}) (Unit {0}))
restart fuel spawn look tried g = elim (child_of g) [
  | ok c ↦ elim spawn [
    | ok u ↦ wait_child fuel g.restart_timeout look tried 0
    | err e ↦ some (err e)
    | panic ↦ some panic
  ]
  | err e ↦ some (err e)
  | panic ↦ some panic
]

unfoldable pub contains : List ℤ → ℤ → Bool
contains [] s = false
contains (x ∷ xs) s = if int_eq x s then true else contains xs s

-- The signals that `ready` waits for.
unfoldable pub signals_of : GracefulServer → Option ℤ → List ℤ
signals_of g none = g.close_signals
signals_of g (some s) =
    if contains g.close_signals s then g.close_signals else g.close_signals ++ s ∷ []

-- A signal that arrives, and what a restart would give then.
pub record Signal : Type 0 where
  pub number : ℤ
  pub restarted : Result (Unit {0}) (Unit {0})

unfoldable pub is_restart : Option ℤ → ℤ → Bool
is_restart none s = false
is_restart (some r) s = int_eq r s

-- What has become of `ready`: it waits, it has left its loop, or it has panicked.
pub data Loop : Type 0 where
  waits : Loop
  leaves : Loop
  panics : Loop

-- The loop over the signals, by those that arrive.
unfoldable pub signal_loop : Option ℤ → List Signal → Loop
signal_loop restart_signal [] = waits
signal_loop restart_signal (s ∷ rest) =
    let later = signal_loop restart_signal rest in
    if is_restart restart_signal s.number
    then elim s.restarted [ ok u ↦ leaves | err e ↦ later | panic ↦ panics ]
    else leaves

-- `ready`: what it returns, and whether the exit closure was called; `pid_file` is the result of writing the
-- file.
pub data Readied : Type 0 where
  not_started : Readied
  serving : Readied
  closed : Readied
  crashed : Readied

unfoldable pub after_loop : Loop → Readied
after_loop waits = serving
after_loop leaves = closed
after_loop panics = crashed

unfoldable pub ready : Result (Unit {0}) (Unit {0}) → Option ℤ → List Signal → Readied
ready pid_file restart_signal arriving = elim pid_file [
  | ok u ↦ after_loop (signal_loop restart_signal arriving)
  | err e ↦ not_started
  | panic ↦ crashed
]
