-- ===== src/Tcp/Client/Outcomes.antt =====
-- transport/tcp/src/client.rs: a task that is taken from the timer is handed on exactly once.
use razor_rpc.Prelude.{ℕ, ◌+◌, ◌≡◌, ◌≢◌, Bool, List, panic, arith, length}
use razor_rpc.Prelude.Int.{ℤ}
use razor_rpc.Proto.{RespHead}
use razor_rpc.Task.{ClientTask}
use razor_rpc.Tcp.Client.{Body, recv_and_dump, recv_text, recv_error, finish, recv_blob, recv_task}

abbrev pub handed : {T : Type 0} → Body T → ℕ
handed b = length b.errors + length b.dones

module _ {T : Type 0} (c : ClientTask T) (alloc : ℤ → Bool) where
  handed-recv_and_dump :
      (errors : List T) (l : ℕ) (s : List ℕ)
      → handed (recv_and_dump c alloc errors l s) ≡ length errors
  unfolding recv_and_dump
  handed-recv_and_dump errors l s = ground arith

  handed-recv_error :
      (head : RespHead) (t : T) (s : List ℕ)
      → (recv_error c alloc head t s).res ≢ panic
      → handed (recv_error c alloc head t s) ≡ 1
  unfolding recv_error recv_text
  handed-recv_error head t s p = ground arith

  handed-finish :
      (t : T) (n : ℕ) (msg s : List ℕ)
      → (finish c alloc t n msg s).res ≢ panic
      → handed (finish c alloc t n msg s) ≡ 1
  unfolding finish
  handed-finish t n msg s p = ground arith

  handed-recv_blob :
      (head : RespHead) (t : T) (msg s : List ℕ)
      → (recv_blob c alloc head t msg s).res ≢ panic
      → handed (recv_blob c alloc head t msg s) ≡ 1
  unfolding recv_blob
  handed-recv_blob head t msg s p = grind (arith, handed-finish, handed-recv_and_dump)

  -- Whatever bytes arrive, reading the response to a task, unless it panics, hands the task either to
  -- `error_handle` or to `done`, and only once.
  pub recv_task_once :
      (head : RespHead) (t : T) (s : List ℕ)
      → (recv_task c alloc head t s).res ≢ panic
      → handed (recv_task c alloc head t s) ≡ 1
  unfolding recv_task
  recv_task_once head t s p = grind (arith, handed-recv_error, handed-recv_blob)
