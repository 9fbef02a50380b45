-- ===== src/Stream/Numbers.antt =====
-- How often a number stands in a list of tasks, and what keeps it.
use razor_rpc.Prelude.{ℕ, ◌+◌, ◌≡◌, refl, List, [], ◌∷◌, ◌++◌, some, arith, ◌==◌, if◌then◌else◌, ap}
use razor_rpc.Prelude.Int.{ℤ}
use razor_rpc.Error.{RpcIntErr, EncodedErr}
use razor_rpc.Task.{ClientTask, Reserved}
use razor_rpc.Error.{io}
use razor_rpc.Collections.{BTreeMap, values}
use razor_rpc.Timer.{Timer, failed, drain, clean_batches, clean_pending_tasks}
use razor_rpc.Timer.Order.{lookup_seq, erase_seq, tasks, delayed, Inv}
use razor_rpc.Timer.Drain.{tasks-drain}
use razor_rpc.Timer.Find.{drained}

module _ {T : Type 0} (c : ClientTask T) where
  abbrev pub is_number : ℕ → T → ℕ
  is_number n x = if n == c.seq x then 1 else 0

  unfoldable pub times : ℕ → List T → ℕ
  times n [] = 0
  times n (x ∷ xs) = is_number n x + times n xs

  pub times-nil : (n : ℕ) → times n [] ≡ 0
  unfolding times
  times-nil n = refl

  pub times-append : (n : ℕ) (xs ys : List T) → times n (xs ++ ys) ≡ times n xs + times n ys
  unfolding times
  times-append n [] ys = omega arith
  times-append n (x ∷ xs) ys = omega (arith, times-append n xs ys)

  pub times-erase_seq :
      (n s : ℕ) (xs : List T) (x : T)
      → lookup_seq c s xs ≡ some x
      → times n xs ≡ is_number n x + times n (erase_seq c s xs)
  unfolding times lookup_seq erase_seq
  times-erase_seq n s [] x h = ground (arith, h)
  times-erase_seq n s (y ∷ xs) x h = ground (arith, h, times-erase_seq n s xs x)

  -- What the framework relies on: a task keeps the number that it is given.
  pub record KeepsSeq : Type 0 where
    pub set_seq : (t : T) (n : ℕ) → c.seq (c.set_seq t n) ≡ n
    pub set_rpc_error : (t : T) (e : RpcIntErr) → c.seq (c.set_rpc_error t e) ≡ c.seq t
    pub set_custom_error :
        (t : T) (e : EncodedErr) (i v : ℕ) → c.seq (c.set_custom_error t e i v) ≡ c.seq t
    pub set_ok : (t : T) → c.seq (c.set_ok t) ≡ c.seq t
    pub decode_resp : (t : T) (bs : List ℕ) → c.seq (c.decode_resp t bs).task ≡ c.seq t
    pub reserve_resp_blob :
        (t : T) (n : ℤ) (r : Reserved T) → c.reserve_resp_blob t n ≡ some r → c.seq r.task ≡ c.seq t
    pub fill_resp_blob : (t : T) (bs : List ℕ) → c.seq (c.fill_resp_blob t bs) ≡ c.seq t

  pub times-failed :
      (n : ℕ) (e : RpcIntErr) (xs : List T) → KeepsSeq → times n (failed c e xs) ≡ times n xs
  unfolding times
  times-failed n e [] k = refl
  times-failed n e (x ∷ xs) k = rw (k.set_rpc_error x e, times-failed n e xs k) refl

  times-clean_batches :
      (n : ℕ) (bs : List (BTreeMap T))
      → KeepsSeq
      → times n (clean_batches c bs) ≡ times n (delayed bs)
  unfolding clean_batches
  times-clean_batches n [] k = refl
  times-clean_batches n (b ∷ bs) k = omega (
    arith,
    times-append n (failed c io (values b)) (clean_batches c bs),
    times-append n (delayed bs) (values b),
    times-failed n io (values b) k,
    times-clean_batches n bs k,
  )

  -- Cleaning hands over each number as often as it is held.
  pub times-clean :
      (n : ℕ) (t : Timer T)
      → KeepsSeq
      → Inv c t
      → times n (clean_pending_tasks c t).errors ≡ times n (tasks t)
  unfolding clean_pending_tasks
  times-clean n t k v =
      let d = drain c t in
      let held : times n (tasks d) ≡ times n (tasks t) = ap (times n) (tasks-drain c t v) in
      let none_left : times n d.pending ≡ 0 = rw (drained c t v).1 (unfold times in refl) in
      omega (
        arith,
        held,
        none_left,
        times-append n (failed c io (values d.sent_tasks)) (clean_batches c d.delay_tasks_queue),
        times-append n (delayed d.delay_tasks_queue) (values d.sent_tasks ++ d.pending),
        times-append n (values d.sent_tasks) d.pending,
        times-failed n io (values d.sent_tasks) k,
        times-clean_batches n d.delay_tasks_queue k,
      )
