-- ===== src/Timer/Order.antt =====
-- stream/src/client/timer.rs: the tasks that the timer holds, oldest first, and the order in which
-- the sender numbers them.
use razor_rpc.Prelude.{
  ℕ, ◌+◌, ◌^◌, ◌<◌, ◌≤◌, ◌≡◌, refl, List, [], ◌∷◌, ◌++◌, Option, none, some, arith, All, ◌==◌,
  if◌then◌else◌, length,
}
use razor_rpc.Task.{ClientTask}
use razor_rpc.Collections.{BTreeMap, values}
use razor_rpc.Timer.{Timer}

-- The tasks of the past seconds, oldest batch first.
abbrev pub delayed : {T : Type 0} → List (BTreeMap T) → List T
delayed [] = []
delayed (b ∷ bs) = delayed bs ++ values b

-- All tasks that the timer holds, oldest first.
abbrev pub tasks : {T : Type 0} → Timer T → List T
tasks t = delayed t.delay_tasks_queue ++ (values t.sent_tasks ++ t.pending)

module _ {T : Type 0} (c : ClientTask T) where
  -- Strictly increasing sequence numbers from `lo` on.
  abbrev pub From : ℕ → List T → Type 0
  From lo [] = Unit {0}
  From lo (x ∷ xs) = (lo ≤ c.seq x) × From (c.seq x + 1) xs

  pub From-mono : (lo hi : ℕ) (xs : List T) → lo ≤ hi → From hi xs → From lo xs
  From-mono lo hi [] h f = tt
  From-mono lo hi (x ∷ xs) h f = (omega arith, f.1)

  pub From-append_left : (lo : ℕ) (xs ys : List T) → From lo (xs ++ ys) → From lo xs
  From-append_left lo [] ys f = tt
  From-append_left lo (x ∷ xs) ys f = (f.0, From-append_left (c.seq x + 1) xs ys f.1)

  From-append_right : (lo : ℕ) (xs ys : List T) → From lo (xs ++ ys) → From lo ys
  From-append_right lo [] ys f = f
  From-append_right lo (x ∷ xs) ys f =
      From-mono lo (c.seq x + 1) ys (omega arith) (From-append_right (c.seq x + 1) xs ys f.1)

  -- The first task with a number, and the list without it.
  unfoldable pub lookup_seq : ℕ → List T → Option T
  lookup_seq s [] = none
  lookup_seq s (x ∷ xs) = if s == c.seq x then some x else lookup_seq s xs

  unfoldable pub erase_seq : ℕ → List T → List T
  erase_seq s [] = []
  erase_seq s (x ∷ xs) = if s == c.seq x then xs else x ∷ erase_seq s xs

  pub lookup_seq-below : (s lo : ℕ) (xs : List T) → From lo xs → s < lo → lookup_seq s xs ≡ none
  unfolding lookup_seq
  lookup_seq-below s lo [] f h = refl
  lookup_seq-below s lo (x ∷ xs) f h =
      ground (arith, lookup_seq-below s (c.seq x + 1) xs f.1 (omega arith))

  pub erase_seq-none : (s : ℕ) (xs : List T) → lookup_seq s xs ≡ none → erase_seq s xs ≡ xs
  unfolding lookup_seq erase_seq
  erase_seq-none s [] h = refl
  erase_seq-none s (x ∷ xs) h = ground (arith, erase_seq-none s xs)

  pub lookup_seq-append_none :
      (s : ℕ) (xs ys : List T) → lookup_seq s xs ≡ none → lookup_seq s (xs ++ ys) ≡ lookup_seq s ys
  unfolding lookup_seq
  lookup_seq-append_none s [] ys h = refl
  lookup_seq-append_none s (x ∷ xs) ys h = ground (arith, lookup_seq-append_none s xs ys)

  pub lookup_seq-append_some :
      (s : ℕ) (xs ys : List T) (a : T) → lookup_seq s xs ≡ some a → lookup_seq s (xs ++ ys) ≡ some a
  unfolding lookup_seq
  lookup_seq-append_some s [] ys a h = ground arith
  lookup_seq-append_some s (x ∷ xs) ys a h = ground (arith, lookup_seq-append_some s xs ys a)

  pub erase_seq-append_none :
      (s : ℕ) (xs ys : List T)
      → lookup_seq s xs ≡ none
      → erase_seq s (xs ++ ys) ≡ xs ++ erase_seq s ys
  unfolding lookup_seq erase_seq
  erase_seq-append_none s [] ys h = refl
  erase_seq-append_none s (x ∷ xs) ys h = ground (arith, erase_seq-append_none s xs ys)

  pub erase_seq-append_some :
      (s : ℕ) (xs ys : List T) (a : T)
      → lookup_seq s xs ≡ some a
      → erase_seq s (xs ++ ys) ≡ erase_seq s xs ++ ys
  unfolding lookup_seq erase_seq
  erase_seq-append_some s [] ys a h = ground arith
  erase_seq-append_some s (x ∷ xs) ys a h = ground (arith, erase_seq-append_some s xs ys a)

  -- In an increasing list a number that stands in the second part does not stand in the first.
  pub lookup_seq-first :
      (s lo : ℕ) (xs ys : List T) (a : T)
      → From lo (xs ++ ys)
      → lookup_seq s ys ≡ some a
      → lookup_seq s xs ≡ none
  unfolding lookup_seq
  lookup_seq-first s lo [] ys a f h = refl
  lookup_seq-first s lo (x ∷ xs) ys a f h = ground (
    arith,
    lookup_seq-first s (c.seq x + 1) xs ys a f.1 h,
    lookup_seq-below s (c.seq x + 1) ys (From-append_right (c.seq x + 1) xs ys f.1),
  )

  pub From-erase_seq : (s lo : ℕ) (xs : List T) → From lo xs → From lo (erase_seq s xs)
  unfolding erase_seq
  From-erase_seq s lo [] f = tt
  From-erase_seq s lo (x ∷ xs) f =
      ground (arith, From-erase_seq s (c.seq x + 1) xs f.1, From-mono lo (c.seq x + 1) xs)

  abbrev pub Keyed : BTreeMap T → Type 0
  Keyed = All (λ e. e.key ≡ c.seq e.value)

  -- What holds between two calls: the tasks are in the order of their numbers, none lies below
  -- `min_delay_seq`; those out of the channel are numbered up to `processed_seq`, those in it above;
  -- and there are at most `task_timeout` batches.
  pub record Inv (t : Timer T) : Type 0 where
    pub ordered : From t.min_delay_seq (tasks t)
    pub keyed_sent : Keyed t.sent_tasks
    pub keyed_delay : All Keyed t.delay_tasks_queue
    pub seen : All (λ e. e.key ≤ t.processed_seq) t.sent_tasks
    pub seen_delay : All (All (λ e. e.key ≤ t.processed_seq)) t.delay_tasks_queue
    pub past : t.min_delay_seq ≤ t.processed_seq
    pub fresh : From (t.processed_seq + 1) t.pending
    pub bounded : length t.delay_tasks_queue ≤ t.task_timeout
    pub counted : length t.pending ≤ t.pending_task_count
    pub count_fits : t.pending_task_count < 2 ^ 64
