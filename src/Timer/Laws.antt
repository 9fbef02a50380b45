-- ===== src/Timer/Laws.antt =====
-- stream/src/client/timer.rs: registering, answering and failing tasks keep the timer's invariant.
use razor_rpc.Prelude.{
  ℕ, ◌+◌, ◌-◌, ◌<◌, ◌≤◌, ◌≡◌, refl, List, [], ◌∷◌, ◌++◌, some, arith, All, All-append, length,
  length-append, append_assoc, append-nil, true,
}
use mathlib.Core.List.{Perm, map-append, perm_append_comm}
use mathlib.Core.List.Perm
use razor_rpc.Error.{io}
use razor_rpc.Task.{ClientTask}
use razor_rpc.Collections.{BTreeMap, values}
use razor_rpc.Timer.{
  Timer, new, reg_task, failed, clean_pending_tasks, clean_batches, emptied, drain, got_all,
}
use razor_rpc.Timer.Order.{From, tasks, delayed, Keyed, Inv}
use razor_rpc.Timer.Drain.{last_seq, last_seq-ge, drain_lem, tasks-drain, count-drain}
use razor_rpc.Timer.Find.{newest}

module _ {T : Type 0} (c : ClientTask T) where
  -- A new timer holds no task and satisfies the invariant.
  pub new-Inv : (task_timeout thresholds : ℕ) → Inv c (new {T = T} task_timeout thresholds)
  unfolding new
  new-Inv task_timeout thresholds = omega arith

  From-snoc :
      (lo : ℕ) (xs : List T) (x : T)
      → From c lo xs
      → All (λ y. c.seq y < c.seq x) xs
      → lo ≤ c.seq x
      → From c lo (xs ++ x ∷ [])
  From-snoc lo [] x f a h = (h, tt)
  From-snoc lo (y ∷ xs) x f a h = (f.0, From-snoc (c.seq y + 1) xs x f.1 a.1 (omega arith))

  values-below :
      (p s : ℕ) (m : BTreeMap T)
      → Keyed c m
      → All (λ e. e.key ≤ p) m
      → p < s
      → All (λ y. c.seq y < s) (values m)
  values-below p s [] k a h = tt
  values-below p s (e ∷ m) k a h = (omega arith, values-below p s m k.1 a.1 h)

  delayed-below :
      (p s : ℕ) (bs : List (BTreeMap T))
      → All (Keyed c) bs
      → All (All (λ e. e.key ≤ p)) bs
      → p < s
      → All (λ y. c.seq y < s) (delayed bs)
  delayed-below p s [] k a h = tt
  delayed-below p s (b ∷ bs) k a h =
      All-append (λ (y : T). c.seq y < s) (delayed bs) (values b) (delayed-below p s bs k.1 a.1 h)
        (values-below p s b k.0 a.0 h)

  pending-below :
      (p s : ℕ) (xs : List T) → From c (p + 1) xs → last_seq c p xs < s → All (λ y. c.seq y < s) xs
  pending-below p s [] f h = tt
  pending-below p s (x ∷ xs) f h =
      (omega (arith, last_seq-ge c (c.seq x) xs f.1), pending-below (c.seq x) s xs f.1 h)

  registered :
      (t : Timer T) (x : T)
      → Inv c t
      → newest c t < c.seq x
      → length t.pending < t.pending_task_count
      → let u = record t { pending = t.pending ++ x ∷ [] } in
        Inv c u × (tasks u ≡ tasks t ++ x ∷ [])
  registered t x v n k =
      let s = c.seq x in
      let old = delayed t.delay_tasks_queue in
      let new = values t.sent_tasks in
      let low : t.processed_seq < s =
        omega (arith, last_seq-ge c t.processed_seq t.pending v.fresh) in
      let in_pending = pending-below t.processed_seq s t.pending v.fresh n in
      let below =
        All-append (λ (y : T). c.seq y < s) old (new ++ t.pending)
          (delayed-below t.processed_seq s t.delay_tasks_queue v.keyed_delay v.seen_delay low)
          (All-append (λ (y : T). c.seq y < s) new t.pending
            (values-below t.processed_seq s t.sent_tasks v.keyed_sent v.seen low) in_pending) in
      let at_end : old ++ (new ++ (t.pending ++ x ∷ [])) ≡ tasks t ++ x ∷ [] = simp append_assoc in
      (
        record {
          ordered =
              rw at_end
                (From-snoc t.min_delay_seq (tasks t) x v.ordered below (omega (arith, v.past)));
          keyed_sent = v.keyed_sent;
          keyed_delay = v.keyed_delay;
          seen = v.seen;
          seen_delay = v.seen_delay;
          past = v.past;
          fresh = From-snoc (t.processed_seq + 1) t.pending x v.fresh in_pending (omega arith);
          bounded = v.bounded;
          counted = omega (arith, length-append t.pending (x ∷ []));
          count_fits = v.count_fits;
        },
        at_end,
      )

  -- A task numbered above all others that finds room in the channel joins the end and keeps the
  -- invariant, once the counter has counted it.
  pub reg_task-Inv :
      (t u : Timer T) (x : T)
      → Inv c t
      → newest c t < c.seq x
      → length t.pending < t.pending_task_count
      → reg_task t x ≡ some u
      → Inv c u × (tasks u ≡ tasks t ++ x ∷ [])
  unfolding reg_task
  reg_task-Inv t u x v n k r =
      let u' = record t { pending = t.pending ++ x ∷ [] } in
      let eq : u ≡ u' = ground arith in rw eq (registered t x v n k)

  batches_perm : (bs : List (BTreeMap T)) → Perm (clean_batches c bs) (failed c io (delayed bs))
  unfolding clean_batches
  batches_perm [] = Perm.refl []
  batches_perm (b ∷ bs) = rw (map-append) (
      Perm.trans (Perm.append (Perm.refl (failed c io (values b))) (batches_perm bs))
        (perm_append_comm (failed c io (values b)) (failed c io (delayed bs))))

  delayed-emptied : (bs : List (BTreeMap T)) → delayed (emptied c bs) ≡ []
  unfolding emptied
  delayed-emptied [] = refl
  delayed-emptied (b ∷ bs) = rw (delayed-emptied bs)

  drained-pending : (t : Timer T) → Inv c t → (drain c t).pending ≡ []
  drained-pending t v = rw (drain_lem c t v)

  -- On a timer that satisfies the invariant, cleaning up hands every task that is held to `error_handle`, once and with an IO error, and
  -- leaves none; the counter goes down by the number of tasks that were still in the channel.
  pub clean_lem :
      (t : Timer T)
      → Inv c t
      → let r = clean_pending_tasks c t in
        Perm r.errors (failed c io (tasks t))
        × (tasks r.timer ≡ [])
        × (r.timer.pending_task_count ≡ t.pending_task_count - length t.pending)
  unfolding clean_pending_tasks
  clean_lem t v =
      let d = drain c t in
      (
        rw (← tasks-drain c t v, map-append, drained-pending t v, append-nil)
            (Perm.trans
              (Perm.append (Perm.refl (failed c io (values d.sent_tasks)))
                (batches_perm d.delay_tasks_queue))
              (perm_append_comm (failed c io (values d.sent_tasks))
                (failed c io (delayed d.delay_tasks_queue)))),
        rw (delayed-emptied d.delay_tasks_queue) (drained-pending t v),
        count-drain c t v,
      )

  -- With nothing in the channel the counter stays as it is.
  pub clean-idle :
      (t : Timer T)
      → t.pending ≡ []
      → let u = (clean_pending_tasks c t).timer in
        (u.pending ≡ []) × (u.pending_task_count ≡ t.pending_task_count)
  unfolding clean_pending_tasks drain got_all
  clean-idle t e = rw e (refl, refl)

  pub clean-pending : (t : Timer T) → Inv c t → (clean_pending_tasks c t).timer.pending ≡ []
  unfolding clean_pending_tasks
  clean-pending t v = drained-pending t v

  pub Inv-stop : (t : Timer T) → Inv c t → Inv c (record t { reg_stopped_flag = true })
  Inv-stop t v = record {
    ordered = v.ordered;
    keyed_sent = v.keyed_sent;
    keyed_delay = v.keyed_delay;
    seen = v.seen;
    seen_delay = v.seen_delay;
    past = v.past;
    fresh = v.fresh;
    bounded = v.bounded;
    counted = v.counted;
    count_fits = v.count_fits;
  }
