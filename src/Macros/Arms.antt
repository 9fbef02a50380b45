-- ===== src/Macros/Arms.antt =====
-- stream/macros/src/server_task_enum.rs: the arms of the two matches that are generated agree.
use razor_rpc.Prelude.{
  ℕ, zero, suc, ◌+◌, ◌≡◌, refl, sym, ap, ◌∙◌, true, List, [], ◌∷◌, ◌++◌, Option, none, some,
  bytes_eq_sound, get_elem?, arith, ◌⊎◌, inl, inr, Bool-cases, Option-cases,
}
use mathlib.Core.Option.{some-injective}
use razor_rpc.Prelude.Int.{int_eq, ℤ, pos, negsuc}
use razor_rpc.Proto.{RpcAction, str, num}
use razor_rpc.Macros.Syntax.{ActionArg, both_somes}
use razor_rpc.Macros.ClientEnum.{Variant}
use razor_rpc.Macros.ServerEnum.{
  Arm, Matches, get_action_attribute, action_of, decode_arms, get_action_arm, expand_actions,
  action_matches, find_arm,
}

int_eq_sound : (m n : ℤ) → int_eq m n ≡ true → m ≡ n
unfolding int_eq
int_eq_sound (pos m) (pos n) h = ground (arith, h)
int_eq_sound (negsuc m) (negsuc n) h = ground (arith, h)
int_eq_sound (pos m) (negsuc n) h = ground (arith, h)
int_eq_sound (negsuc m) (pos n) h = ground (arith, h)

action_matches_sound : (a b : RpcAction) → action_matches a b ≡ true → a ≡ b
unfolding action_matches
action_matches_sound (str s) (str t) h = ap str (bytes_eq_sound s t h)
action_matches_sound (num m) (num n) h = ap num (int_eq_sound m n h)
action_matches_sound (str s) (num n) h = ground (arith, h)
action_matches_sound (num m) (str t) h = ground (arith, h)

find_arm-append_none :
    (xs ys : List Arm) (a : RpcAction)
    → find_arm xs a ≡ none
    → find_arm (xs ++ ys) a ≡ find_arm ys a
unfolding find_arm
find_arm-append_none [] ys a h = refl
find_arm-append_none (x ∷ xs) ys a h = ground (arith, h, find_arm-append_none xs ys a)

find_arm-append_some :
    (xs ys : List Arm) (a : RpcAction) (i : ℕ)
    → find_arm xs a ≡ some i
    → find_arm (xs ++ ys) a ≡ some i
unfolding find_arm
find_arm-append_some [] ys a i h = ground (arith, h)
find_arm-append_some (x ∷ xs) ys a i h = ground (arith, h, find_arm-append_some xs ys a i)

-- The arm of `get_action` for a variant agrees with an action: it is fixed to it, or is the task's.
abbrev pub Agrees : Option RpcAction → RpcAction → Type 0
Agrees arm a = (arm ≡ none) ⊎ (arm ≡ some a)

find_one :
    (x : Arm) (a : RpcAction) (i : ℕ)
    → find_arm (x ∷ []) a ≡ some i
    → (i ≡ x.variant) × (a ≡ x.pattern_action)
unfolding find_arm
find_one x a i h = elim (Bool-cases (action_matches a x.pattern_action)) [
  | inl e ↦ (ground (arith, h, e), action_matches_sound a x.pattern_action e)
  | inr e ↦ ground (arith, h, e)
]

-- Arms of one variant.
variant-arms :
    (k : ℕ) (args : List ActionArg) (here : List Arm) (a : RpcAction) (i : ℕ)
    → decode_arms k args ≡ some here
    → find_arm here a ≡ some i
    → i ≡ k
unfolding decode_arms find_arm
variant-arms k [] here a i d h =
    let shape : here ≡ [] = sym (some-injective [] here d) in
    let none_left : find_arm [] a ≡ some i = rw shape at h in ground (arith, none_left)
variant-arms k (x ∷ xs) here a i d h =
    let (y, e1, d1) = both_somes (action_of x) _ here d in
    let (arms, e2, d2) = both_somes (decode_arms k xs) _ here d1 in
    let first : Arm = record { pattern_action = y; variant = k } in
    let shape : here ≡ first ∷ arms = sym (some-injective (first ∷ arms) here d2) in
    let found : find_arm (first ∷ arms) a ≡ some i = rw shape at h in
    ground (arith, found, variant-arms k xs arms a i e2)

one-arm :
    (k : ℕ) (x : ActionArg) (here : List Arm) (arm : Option RpcAction) (a : RpcAction) (i : ℕ)
    → decode_arms k (x ∷ []) ≡ some here
    → get_action_arm (x ∷ []) ≡ some arm
    → find_arm here a ≡ some i
    → Agrees arm a
unfolding decode_arms get_action_arm
one-arm k x here arm a i d g h =
    let (y, e1, d1) = both_somes (action_of x) _ here d in
    let (z, e3, g1) = both_somes (action_of x) _ arm g in
    let first : Arm = record { pattern_action = y; variant = k } in
    let shape : here ≡ first ∷ [] = sym (some-injective (first ∷ []) here d1) in
    let same = find_one first a i (rw shape at h) in
    let arm_is : arm ≡ some z = sym (some-injective (some z) arm g1) in
    let equal : y ≡ z = some-injective y z (sym e1 ∙ e3) in
    inr (arm_is ∙ ap some (sym equal ∙ sym same.1))

here-Agrees :
    (k : ℕ) (args : List ActionArg) (here : List Arm) (arm : Option RpcAction) (a : RpcAction)
    (i : ℕ)
    → decode_arms k args ≡ some here
    → get_action_arm args ≡ some arm
    → find_arm here a ≡ some i
    → Agrees arm a
unfolding get_action_arm
here-Agrees k [] here arm a i d g h = ground (arith, g)
here-Agrees k (x ∷ []) here arm a i d g h =
    one-arm k x here arm a i d (unfold get_action_arm in g) h
here-Agrees k (x ∷ y ∷ ys) here arm a i d g h = inl (sym (some-injective none arm g))

-- What holds of the matches of the variants from number `k` on.
abbrev pub Consistent : ℕ → Matches → RpcAction → ℕ → Type 0
Consistent k m a i =
    (j : ℕ) × (arm : Option RpcAction) × (i ≡ k + j)
    × (get_elem? m.actions j ≡ some arm)
    × Agrees arm a

pub expand-Consistent :
    (k : ℕ) (vs : List Variant) (m : Matches) (a : RpcAction) (i : ℕ)
    → expand_actions k vs ≡ some m
    → find_arm m.arms a ≡ some i
    → Consistent k m a i
unfolding expand_actions
expand-Consistent k [] m a i e h =
    let shape : m ≡ record { arms = []; actions = [] } = sym (some-injective _ m e) in
    let none_left : find_arm [] a ≡ some i = rw shape at h in
    unfold find_arm in ground (arith, none_left)
expand-Consistent k (v ∷ vs) m a i e h =
    let args = get_action_attribute v.action in
    let (here, e1, d1) = both_somes (decode_arms k args) _ m e in
    let (arm, e2, d2) = both_somes (get_action_arm args) _ m d1 in
    let (rest, e3, d3) = both_somes (expand_actions (suc k) vs) _ m d2 in
    let whole : Matches = record { arms = here ++ rest.arms; actions = arm ∷ rest.actions } in
    let shape : m ≡ whole = sym (some-injective whole m d3) in
    let found : find_arm (here ++ rest.arms) a ≡ some i = rw shape at h in
    rw shape (elim (Option-cases (find_arm here a)) [
      | inl n ↦
          let later = sym (find_arm-append_none here rest.arms a n) ∙ found in
          let (j, own, at_j, get, agrees) = expand-Consistent (suc k) vs rest a i e3 later in
          (suc j, own, omega (arith, at_j), get, agrees)
      | inr (l, s) ↦
          let same : l ≡ i =
            some-injective l i (sym (find_arm-append_some here rest.arms a l s) ∙ found) in
          let at_i : find_arm here a ≡ some i = s ∙ ap some same in
          (
            zero,
            arm,
            omega (arith, variant-arms k args here a i e1 at_i),
            refl,
            here-Agrees k args here arm a i e1 e2 at_i,
          )
    ])
