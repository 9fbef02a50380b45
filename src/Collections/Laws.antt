-- ===== src/Collections/Laws.antt =====
-- Facts about the ordered map and the queue.
use razor_rpc.Prelude.{ℕ, ◌<◌, ◌≡◌, ◌≢◌, refl, List, [], ◌∷◌, ◌++◌, none, some, arith, All, ap}
use razor_rpc.Collections.{BTreeMap, Popped, insert, remove, pop_back}

module _ {ℓ} {V : Type ℓ} where
  -- A key above all keys goes to the end.
  pub insert_last :
      (k : ℕ) (v : V) (m : BTreeMap V)
      → All (λ e. e.key < k) m
      → insert k v m ≡ m ++ record { key = k; value = v } ∷ []
  unfolding insert
  insert_last k v [] h = refl
  insert_last k v (e ∷ m) h = ground (arith, insert_last k v m h.1)

  remove-none :
      (k : ℕ) (m : BTreeMap V)
      → All (λ e. e.key ≢ k) m
      → remove k m ≡ record { found = none; rest = m }
  unfolding remove
  remove-none k [] h = refl
  remove-none k (e ∷ m) h = ground (arith, remove-none k m h.1)

module _ {ℓ} {A : Type ℓ} where
  pop_back-append :
      (xs : List A) (x : A) → pop_back (xs ++ x ∷ []) ≡ some (record { last = x; front = xs })
  unfolding pop_back
  pop_back-append [] x = refl
  pop_back-append (y ∷ xs) x = rw (pop_back-append xs x, pop_back)

  pub pop_back-cons :
      (x : A) (xs : List A)
      → (p : Popped A) × (pop_back (x ∷ xs) ≡ some p) × (x ∷ xs ≡ p.front ++ p.last ∷ [])
  unfolding pop_back
  pop_back-cons x [] = (record { last = x; front = [] }, refl, refl)
  pop_back-cons x (y ∷ ys) =
      let (p, e, f) = pop_back-cons y ys in
      (record { last = p.last; front = x ∷ p.front }, rw (e, pop_back), ap (◌∷◌ x) f)
