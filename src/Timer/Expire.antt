-- ===== src/Timer/Expire.antt =====
-- stream/src/client/timer.rs: `adjust_task_queue`, called once a second, and the end of the timer.
use razor_rpc.Prelude.{
  ℕ, suc, ◌+◌, ◌≤◌, ◌≡◌, refl, List, [], ◌∷◌, ◌++◌, none, some, arith, All, All-append_left,
  All-append_right, length, length-append, append_assoc, append-nil, sym, ◌∙◌, ap, ltb,
  if◌then◌else◌, Bool-cases, inl, inr, true, false, subst,
}
use razor_rpc.Error.{timeout}
use razor_rpc.Task.{ClientTask}
use razor_rpc.Collections.{Entry, BTreeMap, Popped, values, pop_back}
use razor_rpc.Collections.Laws.{pop_back-cons}
use razor_rpc.Timer.{Timer, Handled, failed, next_min, time_out, min_seq_of, adjust_task_queue}
use razor_rpc.Timer.Order.{From, From-mono, tasks, delayed, Keyed, Inv}

delayed-snoc :
    {T : Type 0} (bs : List (BTreeMap T)) (b : BTreeMap T)
    → delayed (bs ++ b ∷ []) ≡ values b ++ delayed bs
delayed-snoc [] b = sym (append-nil (values b))
delayed-snoc (x ∷ bs) b = rw (delayed-snoc bs b) (append_assoc (values b) (delayed bs) (values x))

module _ {T : Type 0} (c : ClientTask T) where
  min_seq_of-From :
      (acc lo : ℕ) (xs ys : List T)
      → From c lo (xs ++ ys)
      → acc ≤ lo
      → From c (min_seq_of c acc xs) ys
  unfolding min_seq_of
  min_seq_of-From acc lo [] ys f h = From-mono c acc lo ys h f
  min_seq_of-From acc lo (x ∷ xs) ys f h =
      min_seq_of-From (next_min acc (c.seq x)) (c.seq x + 1) xs ys f.1 (ground arith)

  min_seq_of-le :
      (acc p : ℕ) (m : BTreeMap T)
      → acc ≤ p
      → Keyed c m
      → All (λ e. e.key ≤ p) m
      → min_seq_of c acc (values m) ≤ p
  unfolding min_seq_of
  min_seq_of-le acc p [] h k a = h
  min_seq_of-le acc p (e ∷ m) h k a =
      min_seq_of-le (next_min acc (c.seq e.value)) p m (ground arith) k.1 a.1

  -- The batch that `adjust_task_queue` gives up: the oldest one, if there are too many.
  unfoldable pub given_up : Timer T → List T
  given_up t =
      let queue = t.sent_tasks ∷ t.delay_tasks_queue in
      elim (pop_back queue) [
        | none ↦ []
        | some p ↦ if ltb t.task_timeout (length queue) then values p.last else []
      ]

  pub record Adjusted (t : Timer T) (r : Handled T) : Type 0 where
    pub kept : tasks t ≡ given_up t ++ tasks r.timer
    pub errors : r.errors ≡ failed c timeout (given_up t)
    pub inv : Inv c r.timer

  keep_inv :
      (t : Timer T) (front : List (BTreeMap T)) (m : ℕ)
      → Inv c t
      → From c m (delayed front ++ t.pending)
      → All (Keyed c) front
      → All (All (λ e. e.key ≤ t.processed_seq)) front
      → m ≤ t.processed_seq
      → length front ≤ t.task_timeout
      → Inv c (record t { sent_tasks = []; delay_tasks_queue = front; min_delay_seq = m })
  keep_inv t front m v f k s p b = record {
    ordered = f;
    keyed_sent = tt;
    keyed_delay = k;
    seen = tt;
    seen_delay = s;
    past = p;
    fresh = v.fresh;
    bounded = b;
    counted = v.counted;
    count_fits = v.count_fits;
  }

  split_tasks :
      (t : Timer T) (front : List (BTreeMap T)) (last : BTreeMap T)
      → t.sent_tasks ∷ t.delay_tasks_queue ≡ front ++ last ∷ []
      → tasks t ≡ values last ++ (delayed front ++ t.pending)
  split_tasks t front last e =
      sym (append_assoc (delayed t.delay_tasks_queue) (values t.sent_tasks) t.pending)
      ∙ ap (λ bs. delayed bs ++ t.pending) e
      ∙ ap (λ xs. xs ++ t.pending) (delayed-snoc front last)
      ∙ append_assoc (values last) (delayed front) t.pending

  module _ (t : Timer T) (front : List (BTreeMap T)) (last : BTreeMap T) (v : Inv c t)
      (e : t.sent_tasks ∷ t.delay_tasks_queue ≡ front ++ last ∷ []) where
    All-Keyed : All (Keyed c) (front ++ last ∷ [])
    All-Keyed = subst (All (Keyed c)) e (v.keyed_sent, v.keyed_delay)

    All-seen : All (All (λ (x : Entry T). x.key ≤ t.processed_seq)) (front ++ last ∷ [])
    All-seen = subst (All (All (λ (x : Entry T). x.key ≤ t.processed_seq))) e (v.seen, v.seen_delay)

    last_facts : Keyed c last × All (λ x. x.key ≤ t.processed_seq) last
    last_facts = (
      (All-append_right (Keyed c) front (last ∷ []) All-Keyed).0,
      (All-append_right (All (λ (x : Entry T). x.key ≤ t.processed_seq)) front (last ∷ [])
          All-seen).0,
    )

    front_inv :
        (m : ℕ)
        → From c m (delayed front ++ t.pending)
        → m ≤ t.processed_seq
        → Inv c (record t { sent_tasks = []; delay_tasks_queue = front; min_delay_seq = m })
    front_inv m f p =
        keep_inv t front m v f (All-append_left (Keyed c) front (last ∷ []) All-Keyed)
          (All-append_left (All (λ (x : Entry T). x.key ≤ t.processed_seq)) front (last ∷ [])
            All-seen)
          p (omega (arith, ap length e, length-append front (last ∷ []), v.bounded))

  -- The oldest batch leaves the queue.
  popped :
      (t : Timer T) (front : List (BTreeMap T)) (last : BTreeMap T)
      → Inv c t
      → t.sent_tasks ∷ t.delay_tasks_queue ≡ front ++ last ∷ []
      → let r = time_out c (record t { sent_tasks = []; delay_tasks_queue = front }) last in
        (tasks t ≡ values last ++ tasks r.timer)
        × (r.errors ≡ failed c timeout (values last))
        × Inv c r.timer
  unfolding time_out
  popped t front [] v e =
      let whole = split_tasks t front [] e in
      (whole, refl, front_inv t front [] v e t.min_delay_seq (rw whole at v.ordered) v.past)
  popped t front (x ∷ last) v e =
      let whole = split_tasks t front (x ∷ last) e in
      let below =
        min_seq_of-From 0 t.min_delay_seq (values (x ∷ last)) (delayed front ++ t.pending)
          (rw whole at v.ordered) (omega arith) in
      let (keyed, seen) = last_facts t front (x ∷ last) v e in
      (
        whole,
        refl,
        front_inv t front (x ∷ last) v e (min_seq_of c 0 (values (x ∷ last))) below
            (min_seq_of-le 0 t.processed_seq (x ∷ last) (omega arith) keyed seen),
      )

  given_up_many :
      (t : Timer T) (p : Popped (BTreeMap T))
      → ltb t.task_timeout (suc (length t.delay_tasks_queue)) ≡ true
      → pop_back (t.sent_tasks ∷ t.delay_tasks_queue) ≡ some p
      → given_up t ≡ values p.last
  unfolding given_up
  given_up_many t p many e = ground (arith, e)

  given_up_few :
      (t : Timer T) (p : Popped (BTreeMap T))
      → ltb t.task_timeout (suc (length t.delay_tasks_queue)) ≡ false
      → pop_back (t.sent_tasks ∷ t.delay_tasks_queue) ≡ some p
      → given_up t ≡ []
  unfolding given_up
  given_up_few t p few e = ground (arith, e)

  -- One second passes for a timer that satisfies the invariant: every task that the timer holds is either given up, in the oldest batch and
  -- with a timeout, or kept, and none is both; the invariant holds again.
  pub adjust_lem : (t : Timer T) → Inv c t → Adjusted t (adjust_task_queue c t)
  unfolding adjust_task_queue
  adjust_lem t v =
      let (p, e, f) = pop_back-cons t.sent_tasks t.delay_tasks_queue in
      elim (Bool-cases (ltb t.task_timeout (suc (length t.delay_tasks_queue)))) [
        | inl many ↦
            let (kept, errors, inv) = popped t p.front p.last v f in
            let g = given_up_many t p many e in
            rw (many, e) (record { kept = rw g kept; errors = rw g errors; inv = inv })
        | inr few ↦
            let g = given_up_few t p few e in
            let old = delayed t.delay_tasks_queue in
            let assoc = sym (append_assoc old (values t.sent_tasks) t.pending) in
            let moved =
              keep_inv t (t.sent_tasks ∷ t.delay_tasks_queue) t.min_delay_seq v
                (rw assoc at v.ordered) (v.keyed_sent, v.keyed_delay) (v.seen, v.seen_delay) v.past
                (ground arith) in
            rw few (record { kept = rw g assoc; errors = rw g; inv = moved })
      ]
