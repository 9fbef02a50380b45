-- ===== src/Server/Close.antt =====
-- stream/src/server/server.rs: `RpcServer`, its listeners, and the wait of its graceful close.
use razor_rpc.Prelude.{
  ℕ, zero, suc, ◌-◌, Bool, true, false, List, [], ◌∷◌, ◌++◌, Option, none, some, Result, ok, err,
  panic, ltb, if◌then◌else◌,
}

-- The listeners are the addresses in their order of `listen`, and `aborted` those whose handle
-- `abort_boxed` was called on; `refs` is the number of references to
-- `conn_ref_count`, of which the server holds one.
pub record RpcServer : Type 0 where
  pub listeners_abort : List (List ℕ)
  pub aborted : List (List ℕ)
  pub refs : ℕ
  pub has_close_tx : Bool

unfoldable pub new : RpcServer
new = record { listeners_abort = []; aborted = []; refs = 1; has_close_tx = true }

-- An `io::Error`, as far as `listen` looks at it.
pub data IoError : Type 0 where
  addr_not_available : IoError
  other : ℕ → IoError

-- "0.0.0.0:0"
abbrev pub dummy_addr : List ℕ
dummy_addr = 48 ∷ 46 ∷ 48 ∷ 46 ∷ 48 ∷ 46 ∷ 48 ∷ 58 ∷ 48 ∷ []

-- The address that is bound, of the result of the listener's `local_addr`.
unfoldable pub bound_addr : Result IoError (List ℕ) → Result IoError (List ℕ)
bound_addr (ok addr) = ok addr
bound_addr (err addr_not_available) = ok dummy_addr
bound_addr (err (other n)) = err (other n)
bound_addr panic = panic

-- The server after `listen`, and its result. The listener's coroutine holds a reference.
pub record Listening : Type 0 where
  pub server : RpcServer
  pub res : Result IoError (List ℕ)

-- `listen`, on what `P::bind` gives: an error, or the listener's `local_addr`.
unfoldable pub listen : RpcServer → List ℕ → Result IoError (Result IoError (List ℕ)) → Listening
listen s addr (ok local) = elim (bound_addr local) [
  | ok a ↦ record {
    server = record s { listeners_abort = s.listeners_abort ++ addr ∷ []; refs = suc s.refs };
    res = ok a;
  }
  | err e ↦ record { server = s; res = err e }
  | panic ↦ record { server = s; res = panic }
]
listen s addr (err e) = record { server = s; res = err e }
listen s addr panic = record { server = s; res = panic }

unfoldable pub get_alive_conn : RpcServer → ℕ
get_alive_conn s = s.refs - 1

-- What the wait sees after each second of sleep: the references that are left, and the time since
-- its start, in milliseconds.
pub record Tick : Type 0 where
  pub refs : ℕ
  pub elapsed : ℕ

unfoldable pub alive : Tick → ℕ
alive t = t.refs - 1

-- `while exists_count > 0`, with fuel for its rounds: what the count is at the end, and what ticks are
-- left. `wait` is `server_close_wait`.
unfoldable pub close_wait : ℕ → ℕ → (ℕ → Tick) → ℕ → ℕ → Option ℕ
close_wait zero wait clock i count = none
close_wait (suc fuel) wait clock i count =
    let t = clock i in
    let rest = close_wait fuel wait clock (suc i) (alive t) in
    if ltb 0 count then (if ltb wait t.elapsed then some (alive t) else rest) else some count

-- The listeners are popped, so the last goes first.
unfoldable pub reversed : List (List ℕ) → List (List ℕ) → List (List ℕ)
reversed [] acc = acc
reversed (x ∷ xs) acc = reversed xs (x ∷ acc)

-- What `close` does before it waits.
unfoldable pub stop_listening : RpcServer → RpcServer
stop_listening s = record s {
  listeners_abort = [];
  aborted = s.aborted ++ reversed s.listeners_abort [];
  has_close_tx = false;
}

-- `close`: the server, and how many connections were alive at its end.
unfoldable pub close : ℕ → ℕ → (ℕ → Tick) → RpcServer → RpcServer × Option ℕ
close fuel wait clock s =
    let s1 = stop_listening s in (s1, close_wait fuel wait clock 0 (get_alive_conn s1))
