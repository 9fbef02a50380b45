-- ===== src/Timer/Find.antt =====
-- stream/src/client/timer.rs: `take_task` finds the one task with a number, wherever it is kept.
use razor_rpc.Prelude.{
  ℕ, ◌+◌, ◌<◌, ◌≡◌, refl, true, false, List, [], ◌∷◌, ◌++◌, Option, none, some, arith, All,
  append_assoc, sym, ◌∙◌, Option-cases, inl, inr, is_empty, leb, if◌then◌else◌,
}
use razor_rpc.Task.{ClientTask}
use razor_rpc.Collections.{BTreeMap, values, remove}
use razor_rpc.Timer.{
  Timer, pending, ready, remove_delayed, remove_task, wait_reg_task, take_task_resume, take_task,
  drain, poll_sent_task,
}
use razor_rpc.Timer.Order.{
  From, From-append_left, lookup_seq, erase_seq, lookup_seq-below, erase_seq-none,
  lookup_seq-append_none, lookup_seq-append_some, erase_seq-append_none, erase_seq-append_some,
  lookup_seq-first, tasks, delayed, Keyed, Inv,
}
use razor_rpc.Timer.Drain.{last_seq, last_seq-ge, drain_lem, tasks-drain, drain-Inv}

module _ {T : Type 0} (c : ClientTask T) where
  remove-found :
      (s : ℕ) (m : BTreeMap T) → Keyed c m → (remove s m).found ≡ lookup_seq c s (values m)
  unfolding remove lookup_seq
  remove-found s [] k = refl
  remove-found s (e ∷ m) k = ground (arith, remove-found s m k.1)

  remove-rest :
      (s : ℕ) (m : BTreeMap T) → Keyed c m → values (remove s m).rest ≡ erase_seq c s (values m)
  unfolding remove erase_seq
  remove-rest s [] k = refl
  remove-rest s (e ∷ m) k = ground (arith, remove-rest s m k.1)

  -- A number that the newer part lacks is looked up in the older part alone.
  older :
      (s : ℕ) (old new : List T)
      → lookup_seq c s new ≡ none
      → (lookup_seq c s (old ++ new) ≡ lookup_seq c s old)
        × (erase_seq c s (old ++ new) ≡ erase_seq c s old ++ new)
  older s old new h = elim (Option-cases (lookup_seq c s old)) [
    | inl e ↦ (
      lookup_seq-append_none c s old new e ∙ h ∙ sym e,
      erase_seq-append_none c s old new e ∙ rw (erase_seq-none c s old e, erase_seq-none c s new h),
    )
    | inr (a, e) ↦
        (lookup_seq-append_some c s old new a e ∙ sym e, erase_seq-append_some c s old new a e)
  ]

  -- A number that the newer part holds is not in the older part.
  newer :
      (s lo : ℕ) (old new : List T) (a : T)
      → From c lo (old ++ new)
      → lookup_seq c s new ≡ some a
      → (lookup_seq c s (old ++ new) ≡ some a)
        × (erase_seq c s (old ++ new) ≡ old ++ erase_seq c s new)
  newer s lo old new a f h =
      let none_old = lookup_seq-first c s lo old new a f h in
      (lookup_seq-append_none c s old new none_old ∙ h, erase_seq-append_none c s old new none_old)

  abbrev Finds : ℕ → List T → Option T → List T → Type 0
  Finds s xs found rest = (found ≡ lookup_seq c s xs) × (rest ≡ erase_seq c s xs)

  delayed_lookup :
      (s lo : ℕ) (bs : List (BTreeMap T))
      → All (Keyed c) bs
      → From c lo (delayed bs)
      → Finds s (delayed bs) (remove_delayed c s bs).0 (delayed (remove_delayed c s bs).1)
  unfolding remove_delayed
  delayed_lookup s lo [] k f = unfold lookup_seq erase_seq in (refl, refl)
  delayed_lookup s lo (b ∷ bs) k f = elim (Option-cases (lookup_seq c s (values b))) [
    | inl e ↦ ground (
      arith,
      e,
      remove-found s b k.0,
      older s (delayed bs) (values b) e,
      delayed_lookup s lo bs k.1 (From-append_left c lo (delayed bs) (values b) f),
    )
    | inr (a, e) ↦ ground (
      arith,
      e,
      remove-found s b k.0,
      remove-rest s b k.0,
      newer s lo (delayed bs) (values b) a f e,
    )
  ]

  -- `remove_task` finds a number among all tasks that are held, if the channel does not hold it.
  pub remove_task_lem :
      (s : ℕ) (t : Timer T)
      → Inv c t
      → lookup_seq c s t.pending ≡ none
      → ((remove_task c t s).poll ≡ ready (lookup_seq c s (tasks t)))
        × (tasks (remove_task c t s).timer ≡ erase_seq c s (tasks t))
  unfolding remove_task
  remove_task_lem s t v p =
      let old = delayed t.delay_tasks_queue in
      let new = values t.sent_tasks in
      let assoc = append_assoc old new t.pending in
      let whole : From c t.min_delay_seq ((old ++ new) ++ t.pending) = rw assoc v.ordered in
      let part = From-append_left c t.min_delay_seq (old ++ new) t.pending whole in
      let out = older s (old ++ new) t.pending p in
      let in_delay =
        delayed_lookup s t.min_delay_seq t.delay_tasks_queue v.keyed_delay
          (From-append_left c t.min_delay_seq old new part) in
      elim (Option-cases (lookup_seq c s new)) [
        | inl e ↦ ground (
          arith,
          e,
          assoc,
          out,
          in_delay,
          remove-found s t.sent_tasks v.keyed_sent,
          older s old new e,
          append_assoc (erase_seq c s old) new t.pending,
        )
        | inr (a, e) ↦ ground (
          arith,
          e,
          assoc,
          out,
          remove-found s t.sent_tasks v.keyed_sent,
          remove-rest s t.sent_tasks v.keyed_sent,
          newer s t.min_delay_seq old new a part e,
          append_assoc old (erase_seq c s new) t.pending,
        )
      ]

  -- The number of the newest task that has been registered.
  abbrev pub newest : Timer T → ℕ
  newest t = last_seq c t.processed_seq t.pending

  empty-newest : (p : ℕ) (xs : List T) → is_empty xs ≡ true → last_seq c p xs ≡ p
  empty-newest p [] e = refl
  empty-newest p (x ∷ xs) e = ground arith

  pub drained :
      (t : Timer T) → Inv c t → ((drain c t).processed_seq ≡ newest t) × ((drain c t).pending ≡ [])
  drained t v = rw (drain_lem c t v) (refl, refl)

  -- The wait of `take_task` for a number that is above the last one processed.
  resume_lem :
      (t : Timer T) (s : ℕ)
      → Inv c t
      → t.reg_stopped_flag ≡ false
      → t.processed_seq < s
      → ((take_task_resume c t s).poll
          ≡ (if leb s (newest t) then ready (lookup_seq c s (tasks t)) else pending))
        × (tasks (take_task_resume c t s).timer
            ≡ (if leb s (newest t) then erase_seq c s (tasks t) else tasks t))
  unfolding take_task_resume wait_reg_task poll_sent_task
  resume_lem t s v o h =
      let d = drain c t in
      let none_left : lookup_seq c s d.pending ≡ none =
        rw (drained t v).1 (unfold lookup_seq in refl) in
      ground (
        arith,
        drained t v,
        tasks-drain c t v,
        empty-newest t.processed_seq t.pending,
        remove_task_lem s d (drain-Inv c t v) none_left,
      )

  -- On a timer that satisfies the invariant, while tasks may still be registered, `take_task` hands over the one task with that number,
  -- wherever it is kept, and keeps the others in order; it reports that there is none if none was
  -- registered or it is gone; and it waits only for a number above all that were registered.
  pub take_task_lem :
      (t : Timer T) (s : ℕ)
      → Inv c t
      → t.reg_stopped_flag ≡ false
      → let known = leb s (newest t) in
        ((take_task c t s).poll ≡ (if known then ready (lookup_seq c s (tasks t)) else pending))
        × (tasks (take_task c t s).timer ≡ (if known then erase_seq c s (tasks t) else tasks t))
  unfolding take_task
  take_task_lem t s v o = ground (
    arith,
    last_seq-ge c t.processed_seq t.pending v.fresh,
    resume_lem t s v o,
    lookup_seq-below c s t.min_delay_seq (tasks t) v.ordered,
    erase_seq-none c s (tasks t),
    lookup_seq-below c s (t.processed_seq + 1) t.pending v.fresh,
    remove_task_lem s t v,
  )
