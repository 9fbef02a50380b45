-- ===== src/Failover/Select.antt =====
-- stream/src/client/failover.rs: which node `select` takes.
use razor_rpc.Prelude.{
  ℕ, zero, suc, ◌+◌, ◌-◌, ◌%◌, ◌^◌, ◌<◌, ◌≡◌, refl, true, false, List, [], ◌∷◌, Option, none, some,
  length, leb, ◌==◌, All, if◌then◌else◌, arith, ap, sym, ◌∙◌, Bool-cases, inl, inr,
}
use native.Mathlib.Nat.{mod-lt, mod-eq_of_lt, mod-add-mod, add-mod_left}
use razor_rpc.Pool.{ConnPool, is_healthy, fetch_add_usize}
use razor_rpc.Failover.{
  FailoverTask, ClusterConfig, Route, from_next, after, healthy_at, select_from, select,
}

-- Where a search starts.
abbrev pub start : ℕ → Route → ℕ
start next_node from_next = next_node
start next_node (after i) = i + 1

plus_zero : (i : ℕ) → i + 0 ≡ i
plus_zero i = omega arith

plus_suc : (i d : ℕ) → i + suc d ≡ (i + 1) + d
plus_suc i d = omega arith

-- The distance from `i % l` on to the place `j`.
abbrev distance : ℕ → ℕ → ℕ → ℕ
distance l r j = if leb r j then j - r else l + j - r

turn-small : (l r j : ℕ) → j < l → r < l → (r + distance l r j) % l ≡ j
turn-small l r j h k = elim (Bool-cases (leb r j)) [
  | inl e ↦ let sum : r + distance l r j ≡ j = ground arith in ap (λ x. x % l) sum ∙ mod-eq_of_lt h
  | inr e ↦
      let sum : r + distance l r j ≡ l + j = ground arith in
      ap (λ x. x % l) sum ∙ add-mod_left l j ∙ mod-eq_of_lt h
]

-- Any `l` indices in a row stand for all of `l` places.
turn : (l i j : ℕ) → j < l → (d : ℕ) × (d < l) × ((i + d) % l ≡ j)
turn l i j h =
    let r = i % l in
    let small : r < l = mod-lt i (omega arith) in
    let d = distance l r j in (d, ground arith, sym (mod-add-mod i l d) ∙ turn-small l r j h small)

module _ {T : Type 0} where
  -- None of `n` indices from `i` on stands for a healthy pool.
  abbrev pub Skipped : List (ConnPool (FailoverTask T)) → ℕ → ℕ → Type 0
  Skipped pools i zero = Unit {0}
  Skipped pools i (suc n) = (healthy_at pools (i % length pools) ≡ false) × Skipped pools (i + 1) n

  -- What a search of `n` indices from `i` on finds: the first that stands for a healthy pool.
  abbrev pub Chosen : List (ConnPool (FailoverTask T)) → ℕ → ℕ → Option ℕ → Type 0
  Chosen pools i n none = Skipped pools i n
  Chosen pools i n (some k) =
      (d : ℕ) × (d < n)
      × (k ≡ i + d)
      × Skipped pools i d
      × (healthy_at pools (k % length pools) ≡ true)

  Chosen-later :
      (pools : List (ConnPool (FailoverTask T))) (i n : ℕ) (r : Option ℕ)
      → healthy_at pools (i % length pools) ≡ false
      → Chosen pools (i + 1) n r
      → Chosen pools i (suc n) r
  Chosen-later pools i n none h c = (h, c)
  Chosen-later pools i n (some k) h (d, l, e, s, t) = (suc d, omega arith, omega arith, (h, s), t)

  select_from_lem :
      (pools : List (ConnPool (FailoverTask T))) (i n : ℕ)
      → Chosen pools i n (select_from pools i n)
  unfolding select_from
  select_from_lem pools i zero = tt
  select_from_lem pools i (suc n) = elim (Bool-cases (healthy_at pools (i % length pools))) [
    | inl h ↦ rw h (0, omega arith, omega arith, tt, h)
    | inr h ↦
        rw h
          (Chosen-later pools i n (select_from pools (i + 1) n) h (select_from_lem pools (i + 1) n))
  ]

  Skipped-at :
      (pools : List (ConnPool (FailoverTask T))) (i n d : ℕ)
      → Skipped pools i n
      → d < n
      → healthy_at pools ((i + d) % length pools) ≡ false
  Skipped-at pools i zero d s h = absurd (omega arith)
  Skipped-at pools i (suc n) zero s h = rw (plus_zero i) s.0
  Skipped-at pools i (suc n) (suc d) s h =
      rw (plus_suc i d) (Skipped-at pools (i + 1) n d s.1 (omega arith))

  All-unhealthy :
      (pools : List (ConnPool (FailoverTask T)))
      → ((j : ℕ) → j < length pools → healthy_at pools j ≡ false)
      → All (λ p. is_healthy p ≡ false) pools
  All-unhealthy [] f = tt
  All-unhealthy (p ∷ ps) f = (f 0 (omega arith), All-unhealthy ps (λ j h. f (suc j) (omega arith)))

  -- What `select` may answer: the first index from the start on that stands for a healthy pool, less
  -- than a turn away; or none, and then no pool is healthy.
  abbrev pub Selected : ClusterConfig T → ℕ → Option ℕ → Type 0
  Selected c seed none = All (λ p. is_healthy p ≡ false) c.pools
  Selected c seed (some k) = Chosen c.pools seed (length c.pools) (some k)

  selected :
      (c : ClusterConfig T) (seed : ℕ) (r : Option ℕ)
      → Chosen c.pools seed (length c.pools) r
      → Selected c seed r
  selected c seed none s = All-unhealthy c.pools (λ j h.
      let (d, l, e) = turn (length c.pools) seed j h in
      rw e at (Skipped-at c.pools seed (length c.pools) d s l))
  selected c seed (some k) s = s

  select_eq :
      (c : ClusterConfig T) (next_node : ℕ) (route : Route)
      → start next_node route + length c.pools < 2 ^ 64
      → select c next_node route ≡ (
          if length c.pools == 0
          then none
          else select_from c.pools (start next_node route) (length c.pools))
  unfolding select
  select_eq c next_node from_next h =
      let n : (next_node + length c.pools) % 2 ^ 64 - next_node ≡ length c.pools = omega arith in
      rw n refl
  select_eq c next_node (after i) h =
      let s : fetch_add_usize i ≡ i + 1 = omega arith in
      let n : (i + 1 + length c.pools) % 2 ^ 64 - (i + 1) ≡ length c.pools = omega arith in
      rw (s, n) refl

  no_pools :
      (ps : List (ConnPool (FailoverTask T)))
      → (length ps == 0) ≡ true
      → All (λ p. is_healthy p ≡ false) ps
  no_pools [] e = tt
  no_pools (p ∷ ps) e = absurd (ground (arith, e))

  -- As long as the indices do not run over the end of a usize, `select` finds a healthy pool if there
  -- is one: the first from the start on, less than a turn away.
  pub select_lem :
      (c : ClusterConfig T) (next_node : ℕ) (route : Route)
      → start next_node route + length c.pools < 2 ^ 64
      → Selected c (start next_node route) (select c next_node route)
  select_lem c next_node route h =
      let seed = start next_node route in
      let l = length c.pools in
      elim (Bool-cases (l == 0)) [
        | inl e ↦ rw (select_eq c next_node route h, e) (no_pools c.pools e)
        | inr e ↦
            rw (select_eq c next_node route h, e)
              (selected c seed (select_from c.pools seed l) (select_from_lem c.pools seed l))
      ]
