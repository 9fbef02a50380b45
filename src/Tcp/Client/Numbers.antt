-- ===== src/Tcp/Client/Numbers.antt =====
-- transport/tcp/src/client.rs: the task that a response is read for is handed over under its number.
use razor_rpc.Prelude.{ℕ, ◌+◌, ◌≡◌, ◌≢◌, Bool, List, panic, arith}
use razor_rpc.Prelude.Int.{ℤ}
use razor_rpc.Proto.{RespHead}
use razor_rpc.Task.{ClientTask}
use razor_rpc.Tcp.Client.{
  Body, recv_and_dump, text_error, recv_text, recv_error, finish, recv_blob, recv_task,
}
use razor_rpc.Stream.Numbers.{times, is_number, KeepsSeq}

module _ {T : Type 0} (c : ClientTask T) (alloc : ℤ → Bool) (k : KeepsSeq c) where
  abbrev pub handed_times : ℕ → Body T → ℕ
  handed_times n b = times c n b.errors + times c n b.dones

  text_error-seq : (t : T) (s : List ℕ) → c.seq (text_error c alloc t s) ≡ c.seq t
  unfolding text_error
  text_error-seq t s = grind (arith, k.set_rpc_error, k.set_custom_error)

  times-recv_and_dump :
      (n : ℕ) (errors : List T) (l : ℕ) (s : List ℕ)
      → handed_times n (recv_and_dump c alloc errors l s) ≡ times c n errors
  unfolding recv_and_dump times
  times-recv_and_dump n errors l s = ground arith

  times-recv_text :
      (n : ℕ) (t : T) (len : ℕ) (s : List ℕ)
      → handed_times n (recv_text c alloc t len s) ≡ is_number c n t
  unfolding recv_text times
  times-recv_text n t len s = grind (arith, k.set_rpc_error, text_error-seq)

  times-recv_error :
      (n : ℕ) (head : RespHead) (t : T) (s : List ℕ)
      → (recv_error c alloc head t s).res ≢ panic
      → handed_times n (recv_error c alloc head t s) ≡ is_number c n t
  unfolding recv_error times
  times-recv_error n head t s p = grind (arith, k.set_custom_error, times-recv_text)

  times-finish :
      (n : ℕ) (t : T) (len : ℕ) (msg s : List ℕ)
      → (finish c alloc t len msg s).res ≢ panic
      → handed_times n (finish c alloc t len msg s) ≡ is_number c n t
  unfolding finish times
  times-finish n t len msg s p = grind (arith, k.set_ok, k.set_rpc_error, k.decode_resp)

  times-recv_blob :
      (n : ℕ) (head : RespHead) (t : T) (msg s : List ℕ)
      → (recv_blob c alloc head t msg s).res ≢ panic
      → handed_times n (recv_blob c alloc head t msg s) ≡ is_number c n t
  unfolding recv_blob times
  times-recv_blob n head t msg s p = grind (
    arith, times-finish, times-recv_and_dump, k.set_rpc_error, k.reserve_resp_blob,
    k.fill_resp_blob,
  )

  -- Whatever bytes arrive, unless reading panics: the task that a response is read for is handed over
  -- once, under its own number, and no other is.
  pub times-recv_task :
      (n : ℕ) (head : RespHead) (t : T) (s : List ℕ)
      → (recv_task c alloc head t s).res ≢ panic
      → handed_times n (recv_task c alloc head t s) ≡ is_number c n t
  unfolding recv_task times
  times-recv_task n head t s p = grind (arith, times-recv_error, times-recv_blob, k.set_rpc_error)
