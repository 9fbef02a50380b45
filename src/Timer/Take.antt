-- ===== src/Timer/Take.antt =====
-- stream/src/client/timer.rs: what `take_task` leaves behind, also once registering has stopped.
use razor_rpc.Prelude.{
  ℕ, ◌+◌, ◌≤◌, ◌≡◌, refl, sym, ◌∙◌, ap, Bool, true, false, List, [], ◌∷◌, Option, none, some, arith,
  All, length, Option-cases, Bool-cases, inl, inr, is_empty, not, leb, ltb, ◌==◌, if◌then◌else◌,
  ◌&&◌,
}
use razor_rpc.Task.{ClientTask}
use razor_rpc.Collections.{BTreeMap, remove}
use razor_rpc.Timer.{
  Timer, Polled, Poll, pending, ready, remove_delayed, remove_task, wait_reg_task, take_task_resume,
  take_task, drain, poll_sent_task,
}
use razor_rpc.Timer.Order.{
  lookup_seq, erase_seq, erase_seq-none, lookup_seq-below, From-erase_seq, tasks, Inv,
}
use razor_rpc.Timer.Drain.{drain-Inv, tasks-drain, count-drain}
use razor_rpc.Timer.Find.{remove_task_lem, newest, drained}

module _ {T : Type 0} (s : ℕ) where
  remove-All {κ} :
      (P : T → ℕ → Type κ) (m : BTreeMap T)
      → All (λ e. P e.value e.key) m
      → All (λ e. P e.value e.key) (remove s m).rest
  unfolding remove
  remove-All P [] h = tt
  remove-All P (e ∷ m) h = elim (Bool-cases (s == e.key)) [
    | inl k ↦ rw k h.1
    | inr k ↦ rw k (h.0, remove-All P m h.1)
  ]

  remove_delayed-here :
      (c : ClientTask T) (b : BTreeMap T) (bs : List (BTreeMap T)) (x : T)
      → (remove s b).found ≡ some x
      → remove_delayed c s (b ∷ bs) ≡ (some x, (remove s b).rest ∷ bs)
  unfolding remove_delayed
  remove_delayed-here c b bs x e = ground (arith, e)

  remove_delayed-later :
      (c : ClientTask T) (b : BTreeMap T) (bs : List (BTreeMap T))
      → (remove s b).found ≡ none
      → remove_delayed c s (b ∷ bs) ≡ ((remove_delayed c s bs).0, b ∷ (remove_delayed c s bs).1)
  unfolding remove_delayed
  remove_delayed-later c b bs e = ground (arith, e)

  remove_delayed-All {κ} :
      (c : ClientTask T) (P : T → ℕ → Type κ) (bs : List (BTreeMap T))
      → All (All (λ e. P e.value e.key)) bs
      → All (All (λ e. P e.value e.key)) (remove_delayed c s bs).1
  unfolding remove_delayed
  remove_delayed-All c P [] h = tt
  remove_delayed-All c P (b ∷ bs) h = elim (Option-cases (remove s b).found) [
    | inl e ↦ rw (remove_delayed-later c b bs e) (h.0, remove_delayed-All c P bs h.1)
    | inr (x, e) ↦ rw (remove_delayed-here c b bs x e) (remove-All P b h.0, h.1)
  ]

  length-remove_delayed :
      (c : ClientTask T) (bs : List (BTreeMap T)) → length (remove_delayed c s bs).1 ≡ length bs
  unfolding remove_delayed
  length-remove_delayed c [] = refl
  length-remove_delayed c (b ∷ bs) = ground (arith, length-remove_delayed c bs)

module _ {T : Type 0} (c : ClientTask T) where
  -- What both callers of `remove_task` keep besides the tasks.
  record Steady (t u : Timer T) : Type 0 where
    pending : u.pending ≡ t.pending
    count : u.pending_task_count ≡ t.pending_task_count
    processed : u.processed_seq ≡ t.processed_seq

  Inv-removed :
      (s : ℕ) (t : Timer T) (sent : BTreeMap T) (delay : List (BTreeMap T))
      → Inv c t
      → let u = record t { sent_tasks = sent; delay_tasks_queue = delay } in
        tasks u ≡ erase_seq c s (tasks t)
        → All (λ e. e.key ≡ c.seq e.value) sent
        → All (All (λ e. e.key ≡ c.seq e.value)) delay
        → All (λ e. e.key ≤ t.processed_seq) sent
        → All (All (λ e. e.key ≤ t.processed_seq)) delay
        → length delay ≡ length t.delay_tasks_queue
        → Inv c u
  Inv-removed s t sent delay v e ks kd ss sd n = record {
    ordered = rw e (From-erase_seq c s t.min_delay_seq (tasks t) v.ordered);
    keyed_sent = ks;
    keyed_delay = kd;
    seen = ss;
    seen_delay = sd;
    past = v.past;
    fresh = v.fresh;
    bounded = rw n v.bounded;
    counted = v.counted;
    count_fits = v.count_fits;
  }

  remove_task-sent :
      (s : ℕ) (t : Timer T) (x : T)
      → (remove s t.sent_tasks).found ≡ some x
      → (remove_task c t s).timer ≡ record t { sent_tasks = (remove s t.sent_tasks).rest }
  unfolding remove_task
  remove_task-sent s t x e = ground (arith, e)

  remove_task-delayed :
      (s : ℕ) (t : Timer T)
      → (remove s t.sent_tasks).found ≡ none
      → (remove_task c t s).timer
        ≡ record t { delay_tasks_queue = (remove_delayed c s t.delay_tasks_queue).1 }
  unfolding remove_task
  remove_task-delayed s t e = ground (arith, e)

  remove_task-Inv :
      (s : ℕ) (t : Timer T)
      → Inv c t
      → lookup_seq c s t.pending ≡ none
      → Inv c (remove_task c t s).timer × Steady t (remove_task c t s).timer
  remove_task-Inv s t v p =
      let kept = (remove_task_lem c s t v p).1 in
      elim (Option-cases (remove s t.sent_tasks).found) [
        | inl e ↦
            let there = remove_task-delayed s t e in
            let queue = t.delay_tasks_queue in
            rw there (
              Inv-removed s t t.sent_tasks (remove_delayed c s queue).1 v (rw there at kept)
                  v.keyed_sent (remove_delayed-All s c (λ x k. k ≡ c.seq x) queue v.keyed_delay)
                  v.seen (remove_delayed-All s c (λ x k. k ≤ t.processed_seq) queue v.seen_delay)
                  (length-remove_delayed s c queue),
              record { pending = refl; count = refl; processed = refl },
            )
        | inr (x, e) ↦
            let there = remove_task-sent s t x e in
            rw there (
              Inv-removed s t (remove s t.sent_tasks).rest t.delay_tasks_queue v (rw there at kept)
                  (remove-All s (λ x k. k ≡ c.seq x) t.sent_tasks v.keyed_sent) v.keyed_delay
                  (remove-All s (λ x k. k ≤ t.processed_seq) t.sent_tasks v.seen) v.seen_delay refl,
              record { pending = refl; count = refl; processed = refl },
            )
      ]

  module _ (leak : ℕ) where
    -- A timer that satisfies the invariant, with a counter that says how many tasks the channel holds,
    -- and how many more it has counted.
    pub record Sound (t : Timer T) : Type 0 where
      pub inv : Inv c t
      pub exact : t.pending_task_count ≡ length t.pending + leak

    -- What `take_task` may come to: one task is taken out, or the tasks are as they were.
    pub data Taking (s : ℕ) (t u : Timer T) : Poll (Option T) → Type 0 where
      taken :
          (x : T)
          → lookup_seq c s (tasks t) ≡ some x
          → tasks u ≡ erase_seq c s (tasks t)
          → Taking s t u (ready (some x))
      missing : tasks u ≡ tasks t → Taking s t u (ready none)
      waiting : tasks u ≡ tasks t → Taking s t u pending

    pub record Took (s : ℕ) (t : Timer T) (p : Polled T (Option T)) : Type 0 where
      pub sound : Sound p.timer
      pub newest_kept : newest c p.timer ≡ newest c t
      pub taking : Taking s t p.timer p.poll

    removed-Took :
        (s : ℕ) (t : Timer T)
        → Sound t
        → lookup_seq c s t.pending ≡ none
        → Took s t (remove_task c t s)
    removed-Took s t v p =
        let (inv, steady) = remove_task-Inv s t v.inv p in
        let (found, kept) = remove_task_lem c s t v.inv p in
        let u = (remove_task c t s).timer in
        let sound : Sound u = record {
          inv = inv;
          exact = omega (arith, steady.count, v.exact, ap length steady.pending);
        } in
        let same : newest c u ≡ newest c t = rw (steady.pending, steady.processed) refl in
        record {
          sound = sound;
          newest_kept = same;
          taking = elim (Option-cases (lookup_seq c s (tasks t))) [
            | inl e ↦ rw (found, e) (missing (kept ∙ erase_seq-none c s (tasks t) e))
            | inr (x, e) ↦ rw (found, e) (taken x e kept)
          ];
        }

    pub drain-Sound :
        (t : Timer T) → Sound t → Sound (drain c t) × (newest c (drain c t) ≡ newest c t)
    drain-Sound t v =
        let (processed, empty) = drained c t v.inv in
        let count = count-drain c t v.inv in
        (
          record { inv = drain-Inv c t v.inv; exact = rw empty (omega (arith, count, v.exact)) },
          rw empty processed,
        )

    as_before : (s : ℕ) (t : Timer T) → Sound t → Took s t (record { timer = t; poll = ready none })
    as_before s t v = record { sound = v; newest_kept = refl; taking = missing refl }

    -- The cases of `take_task`, by the numbers.
    take-early :
        (s : ℕ) (t : Timer T)
        → ltb s t.min_delay_seq ≡ true
        → take_task c t s ≡ record { timer = t; poll = ready none }
    unfolding take_task
    take-early s t e = ground (arith, e)

    take-known :
        (s : ℕ) (t : Timer T)
        → ltb s t.min_delay_seq ≡ false
        → ltb t.processed_seq s ≡ false
        → take_task c t s ≡ remove_task c t s
    unfolding take_task
    take-known s t e k = ground (arith, e, k)

    take-stopped :
        (s : ℕ) (t : Timer T)
        → ltb s t.min_delay_seq ≡ false
        → ltb t.processed_seq s ≡ true
        → t.reg_stopped_flag ≡ true
        → take_task c t s ≡ record { timer = t; poll = ready none }
    unfolding take_task take_task_resume wait_reg_task
    take-stopped s t e k o = ground (arith, e, k, o)

    take-drained :
        (s : ℕ) (t : Timer T)
        → ltb s t.min_delay_seq ≡ false
        → ltb t.processed_seq s ≡ true
        → t.reg_stopped_flag ≡ false
        → take_task c t s ≡ (
            if not (is_empty t.pending) && leb s (drain c t).processed_seq
            then remove_task c (drain c t) s
            else record { timer = drain c t; poll = pending })
    unfolding take_task take_task_resume wait_reg_task poll_sent_task
    take-drained s t e k o = ground (arith, e, k, o)

    Taking-same :
        (s : ℕ) (t d u : Timer T) (p : Poll (Option T))
        → tasks d ≡ tasks t
        → Taking s d u p
        → Taking s t u p
    Taking-same s t d u _ e (taken x k h) =
        taken x (ap (lookup_seq c s) (sym e) ∙ k) (h ∙ ap (erase_seq c s) e)
    Taking-same s t d u _ e (missing h) = missing (h ∙ e)
    Taking-same s t d u _ e (waiting h) = waiting (h ∙ e)

    drained-Took :
        (s : ℕ) (t : Timer T) (p : Polled T (Option T))
        → Sound t
        → Took s (drain c t) p
        → Took s t p
    drained-Took s t p v k = record {
      sound = k.sound;
      newest_kept = k.newest_kept ∙ (drain-Sound t v).1;
      taking = Taking-same s t (drain c t) p.timer p.poll (tasks-drain c t v.inv) k.taking;
    }

    -- The poll that waits for a number to be registered.
    wait-Took :
        (s : ℕ) (t : Timer T) (b : Bool)
        → Sound t
        → Took s t (
            if b then remove_task c (drain c t) s else record { timer = drain c t; poll = pending })
    wait-Took s t true v =
        let none_left : lookup_seq c s (drain c t).pending ≡ none =
          rw (drained c t v.inv).1 (unfold lookup_seq in refl) in
        drained-Took s t (remove_task c (drain c t) s) v
          (removed-Took s (drain c t) (drain-Sound t v).0 none_left)
    wait-Took s t false v = record {
      sound = (drain-Sound t v).0;
      newest_kept = (drain-Sound t v).1;
      taking = waiting (tasks-drain c t v.inv);
    }

    resume-known :
        (s : ℕ) (t : Timer T)
        → leb s t.processed_seq ≡ true
        → take_task_resume c t s ≡ remove_task c t s
    unfolding take_task_resume wait_reg_task
    resume-known s t e = ground (arith, e)

    resume-stopped :
        (s : ℕ) (t : Timer T)
        → leb s t.processed_seq ≡ false
        → t.reg_stopped_flag ≡ true
        → take_task_resume c t s ≡ record { timer = t; poll = ready none }
    unfolding take_task_resume wait_reg_task
    resume-stopped s t e o = ground (arith, e, o)

    resume-drained :
        (s : ℕ) (t : Timer T)
        → leb s t.processed_seq ≡ false
        → t.reg_stopped_flag ≡ false
        → take_task_resume c t s ≡ (
            if not (is_empty t.pending) && leb s (drain c t).processed_seq
            then remove_task c (drain c t) s
            else record { timer = drain c t; poll = pending })
    unfolding take_task_resume wait_reg_task poll_sent_task
    resume-drained s t e o = ground (arith, e, o)

    absent : (s : ℕ) (t : Timer T) → Sound t → s ≤ t.processed_seq → lookup_seq c s t.pending ≡ none
    absent s t v h = lookup_seq-below c s (t.processed_seq + 1) t.pending v.inv.fresh (omega arith)

    -- A poll of `take_task` that has waited: the same as of the first one.
    pub resume-Took : (s : ℕ) (t : Timer T) → Sound t → Took s t (take_task_resume c t s)
    resume-Took s t v = elim (Bool-cases (leb s t.processed_seq)) [
      | inl e ↦ rw (resume-known s t e) (removed-Took s t v (absent s t v (ground (arith, e))))
      | inr e ↦ elim (Bool-cases t.reg_stopped_flag) [
        | inl o ↦ rw (resume-stopped s t e o) (as_before s t v)
        | inr o ↦
            rw (resume-drained s t e o)
              (wait-Took s t (not (is_empty t.pending) && leb s (drain c t).processed_seq) v)
      ]
    ]

    -- Whether or not registering has stopped: `take_task` on a sound timer takes out the task with the
    -- number, or leaves the tasks as they are; the timer is sound again, with the same newest number.
    pub take_task-Took : (s : ℕ) (t : Timer T) → Sound t → Took s t (take_task c t s)
    take_task-Took s t v = elim (Bool-cases (ltb s t.min_delay_seq)) [
      | inl e ↦ rw (take-early s t e) (as_before s t v)
      | inr e ↦ elim (Bool-cases (ltb t.processed_seq s)) [
        | inl k ↦ elim (Bool-cases t.reg_stopped_flag) [
          | inl o ↦ rw (take-stopped s t e k o) (as_before s t v)
          | inr o ↦
              rw (take-drained s t e k o)
                (wait-Took s t (not (is_empty t.pending) && leb s (drain c t).processed_seq) v)
        ]
        | inr k ↦ rw (take-known s t e k) (removed-Took s t v (absent s t v (ground (arith, k))))
      ]
    ]
