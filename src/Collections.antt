-- ===== src/Collections.antt =====
-- The standard library's ordered map and double-ended queue, as the client's timer uses them:
-- a `BTreeMap` is the list of its entries by increasing key, and a `VecDeque` is a list.
pub mod Laws
use razor_rpc.Prelude.{ℕ, List, [], ◌∷◌, Option, none, some, Bool, ltb, ◌==◌, if◌then◌else◌, map}

pub record Entry {ℓ} (V : Type ℓ) : Type ℓ where
  pub key : ℕ
  pub value : V

abbrev pub BTreeMap {ℓ} : Type ℓ → Type ℓ
BTreeMap V = List (Entry V)

-- What `remove` returns, and the map behind it.
pub record Removed {ℓ} (V : Type ℓ) : Type ℓ where
  pub found : Option V
  pub rest : BTreeMap V

pub record Popped {ℓ} (A : Type ℓ) : Type ℓ where
  pub last : A
  pub front : List A

module _ {ℓ} {V : Type ℓ} where
  -- An entry with the same key is replaced.
  unfoldable pub insert : ℕ → V → BTreeMap V → BTreeMap V
  insert k v [] = record { key = k; value = v } ∷ []
  insert k v (e ∷ m) =
      let later = e ∷ insert k v m in
      let here : Entry V = record { key = k; value = v } in
      if ltb k e.key then here ∷ e ∷ m else if k == e.key then here ∷ m else later

  unfoldable pub remove : ℕ → BTreeMap V → Removed V
  remove k [] = record { found = none; rest = [] }
  remove k (e ∷ m) =
      let later = remove k m in
      if k == e.key
      then record { found = some e.value; rest = m }
      else record { found = later.found; rest = e ∷ later.rest }

  abbrev pub values : BTreeMap V → List V
  values = map (λ e. e.value)

unfoldable pub pop_back {ℓ} : {A : Type ℓ} → List A → Option (Popped A)
pop_back [] = none
pop_back (x ∷ xs) = elim (pop_back xs) [
  | none ↦ some (record { last = x; front = [] })
  | some p ↦ some (record { last = p.last; front = x ∷ p.front })
]
