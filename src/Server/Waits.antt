-- ===== src/Server/Waits.antt =====
-- stream/src/server/server.rs: the wait of `RpcServer::close` ends.
use razor_rpc.Prelude.{ℕ, ◌<◌, ◌≡◌, ◌⊎◌, List}
use razor_rpc.Server.Close.{Tick, alive}

-- How the wait may end: nothing is alive, or the time is up at a tick, which saw what was alive.
abbrev pub Over : ℕ → (ℕ → Tick) → ℕ → Type 0
Over wait clock n = (n ≡ 0) ⊎ (i : ℕ) × (wait < (clock i).elapsed) × (n ≡ alive (clock i))
