-- ===== src/Timer/Drain.antt =====
-- stream/src/client/timer.rs: what emptying the channel does to the timer.
use razor_rpc.Prelude.{
  ℕ, ◌+◌, ◌-◌, ◌^◌, ◌<◌, ◌≤◌, ◌≡◌, refl, List, [], ◌∷◌, ◌++◌, arith, All, length, ap, append_assoc,
  append-nil, ◌∙◌,
}
use razor_rpc.Task.{ClientTask}
use razor_rpc.Collections.{BTreeMap, values}
use razor_rpc.Collections.Laws.{insert_last}
use razor_rpc.Timer.{Timer, fetch_sub_u64, got_pending_task, got_all, drain}
use razor_rpc.Timer.Order.{From, tasks, Keyed, Inv}

module _ {T : Type 0} (c : ClientTask T) where
  abbrev pub entries : List T → BTreeMap T
  entries [] = []
  entries (x ∷ xs) = record { key = c.seq x; value = x } ∷ entries xs

  abbrev pub last_seq : ℕ → List T → ℕ
  last_seq p [] = p
  last_seq p (x ∷ xs) = last_seq (c.seq x) xs

  abbrev pub count_down : ℕ → List T → ℕ
  count_down n [] = n
  count_down n (x ∷ xs) = count_down (fetch_sub_u64 n) xs

  All-key_mono :
      (p q : ℕ) (m : BTreeMap T) → p ≤ q → All (λ e. e.key ≤ p) m → All (λ e. e.key ≤ q) m
  All-key_mono p q [] h a = tt
  All-key_mono p q (e ∷ m) h a = (omega arith, All-key_mono p q m h a.1)

  All-batches_mono :
      (p q : ℕ) (bs : List (BTreeMap T))
      → p ≤ q
      → All (All (λ e. e.key ≤ p)) bs
      → All (All (λ e. e.key ≤ q)) bs
  All-batches_mono p q [] h a = tt
  All-batches_mono p q (b ∷ bs) h a = (All-key_mono p q b h a.0, All-batches_mono p q bs h a.1)

  pub last_seq-ge : (p : ℕ) (xs : List T) → From c (p + 1) xs → p ≤ last_seq p xs
  last_seq-ge p [] f = omega arith
  last_seq-ge p (x ∷ xs) f = omega (arith, last_seq-ge (c.seq x) xs f.1)

  All-key-lt : (p q : ℕ) (m : BTreeMap T) → p < q → All (λ e. e.key ≤ p) m → All (λ e. e.key < q) m
  All-key-lt p q [] h a = tt
  All-key-lt p q (e ∷ m) h a = (omega arith, All-key-lt p q m h a.1)

  All-key-snoc :
      (q : ℕ) (m : BTreeMap T) (x : T)
      → All (λ e. e.key ≤ q) m
      → c.seq x ≤ q
      → All (λ e. e.key ≤ q) (m ++ record { key = c.seq x; value = x } ∷ [])
  All-key-snoc q [] x a h = (h, tt)
  All-key-snoc q (e ∷ m) x a h = (a.0, All-key-snoc q m x a.1 h)

  -- What a timer becomes when it has taken `xs` out of the channel.
  abbrev pub received : Timer T → List T → Timer T
  received t xs = record t {
    pending_task_count = count_down t.pending_task_count xs;
    processed_seq = last_seq t.processed_seq xs;
    sent_tasks = t.sent_tasks ++ entries xs;
  }

  got_one :
      (t : Timer T) (x : T)
      → All (λ e. e.key < c.seq x) t.sent_tasks
      → got_pending_task c t x ≡ received t (x ∷ [])
  unfolding got_pending_task
  got_one t x a = rw (insert_last (c.seq x) x t.sent_tasks a)

  got_all_lem :
      (t : Timer T) (xs : List T)
      → All (λ e. e.key ≤ t.processed_seq) t.sent_tasks
      → From c (t.processed_seq + 1) xs
      → got_all c t xs ≡ received t xs
  unfolding got_all
  got_all_lem t [] a f = rw append-nil
  got_all_lem t (x ∷ xs) a f =
      rw (got_one t x (All-key-lt t.processed_seq (c.seq x) t.sent_tasks (omega arith) a)) (
        got_all_lem (received t (x ∷ [])) xs
          (All-key-snoc (c.seq x) t.sent_tasks x
            (All-key_mono t.processed_seq (c.seq x) t.sent_tasks (omega arith) a) (omega arith))
          f.1
        ∙ rw (append_assoc t.sent_tasks (entries (x ∷ [])) (entries xs)))

  values-entries : (xs : List T) → values (entries xs) ≡ xs
  values-entries [] = refl
  values-entries (x ∷ xs) = ap (◌∷◌ x) (values-entries xs)

  Keyed-entries : (m : BTreeMap T) (xs : List T) → Keyed c m → Keyed c (m ++ entries xs)
  Keyed-entries [] [] k = tt
  Keyed-entries [] (x ∷ xs) k = (refl, Keyed-entries [] xs tt)
  Keyed-entries (e ∷ m) xs k = (k.0, Keyed-entries m xs k.1)

  seen-entries :
      (p : ℕ) (m : BTreeMap T) (xs : List T)
      → All (λ e. e.key ≤ p) m
      → From c (p + 1) xs
      → All (λ e. e.key ≤ last_seq p xs) (m ++ entries xs)
  seen-entries p m [] a f = rw append-nil a
  seen-entries p m (x ∷ xs) a f = rw (← append_assoc m (entries (x ∷ [])) (entries xs)) (
      seen-entries (c.seq x) (m ++ entries (x ∷ [])) xs
        (All-key-snoc (c.seq x) m x (All-key_mono p (c.seq x) m (omega arith) a) (omega arith)) f.1)

  count_down-lem :
      (n : ℕ) (xs : List T) → length xs ≤ n → n < 2 ^ 64 → count_down n xs ≡ n - length xs
  count_down-lem n [] h l = omega arith
  count_down-lem n (x ∷ xs) h l =
      let one : fetch_sub_u64 n ≡ n - 1 = omega arith in
      rw one (count_down-lem (n - 1) xs (omega arith) (omega arith) ∙ omega arith)

  -- The timer after the channel is emptied: its tasks follow those of the current second, in order.
  pub drain_lem :
      (t : Timer T) → Inv c t → drain c t ≡ received (record t { pending = [] }) t.pending
  unfolding drain
  drain_lem t v = got_all_lem (record t { pending = [] }) t.pending v.seen v.fresh

  values-received : (m : BTreeMap T) (xs : List T) → values (m ++ entries xs) ≡ values m ++ xs
  values-received [] xs = values-entries xs
  values-received (e ∷ m) xs = ap (◌∷◌ e.value) (values-received m xs)

  -- On a timer that satisfies the invariant, taking the items out of the channel loses no task and
  -- keeps their order.
  pub tasks-drain : (t : Timer T) → Inv c t → tasks (drain c t) ≡ tasks t
  tasks-drain t v = rw (drain_lem t v, values-received t.sent_tasks t.pending, append-nil)

  pub drain-Inv : (t : Timer T) → Inv c t → Inv c (drain c t)
  drain-Inv t v =
      let n = count_down-lem t.pending_task_count t.pending v.counted v.count_fits in
      let order : From c t.min_delay_seq (tasks (drain c t)) = rw (tasks-drain t v) v.ordered in
      rw (drain_lem t v) (record {
        ordered = rw (drain_lem t v) at order;
        keyed_sent = Keyed-entries t.sent_tasks t.pending v.keyed_sent;
        keyed_delay = v.keyed_delay;
        seen = seen-entries t.processed_seq t.sent_tasks t.pending v.seen v.fresh;
        seen_delay =
            All-batches_mono t.processed_seq (last_seq t.processed_seq t.pending)
              t.delay_tasks_queue (last_seq-ge t.processed_seq t.pending v.fresh) v.seen_delay;
        past = omega (arith, last_seq-ge t.processed_seq t.pending v.fresh, v.past);
        fresh = tt;
        bounded = v.bounded;
        counted = omega arith;
        count_fits = rw n (omega arith);
      })

  -- The counter goes down by the number of items taken.
  pub count-drain :
      (t : Timer T)
      → Inv c t
      → (drain c t).pending_task_count ≡ t.pending_task_count - length t.pending
  count-drain t v =
      rw (drain_lem t v) (count_down-lem t.pending_task_count t.pending v.counted v.count_fits)
