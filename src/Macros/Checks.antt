-- ===== src/Macros/Checks.antt =====
-- stream/macros/src/client_task.rs: the structs that `#[client_task]` accepts.
use razor_rpc.Prelude.{
  ℕ, ◌+◌, ◌≤◌, ◌≡◌, refl, sym, ap, ◌∙◌, Bool, true, false, List, [], ◌∷◌, Option, none, some, arith,
}
use mathlib.Core.Option.{some-injective}
use razor_rpc.Macros.Syntax.{ActionArg, both_somes}
use razor_rpc.Macros.ClientTask.{
  Arg, debug, action_arg, Tag, common, req, resp, req_blob, resp_blob, action, res, noti, other_tag,
  Named, Field, Args, Tagged, no_tags, read_arg, read_args, read_tag, read_tags, read_fields,
  action_impl, done_impl, DoneImpl, ActionImpl, Expansion, expand_tagged, expand,
}

-- Which tags stand on the fields, and how often `action` does.
pub record Marks : Type 0 where
  pub common : Bool
  pub req : Bool
  pub resp : Bool
  pub res : Bool
  pub noti : Bool
  pub actions : ℕ

abbrev mark : Marks → Tag → Marks
mark k common = record k { common = true }
mark k req = record k { req = true }
mark k resp = record k { resp = true }
mark k res = record k { res = true }
mark k noti = record k { noti = true }
mark k action = record k { actions = k.actions + 1 }
mark k _ = k

abbrev mark_all : Marks → List Tag → Marks
mark_all k [] = k
mark_all k (x ∷ xs) = mark_all (mark k x) xs

abbrev mark_fields : Marks → List Field → Marks
mark_fields k [] = k
mark_fields k (f ∷ fs) = mark_fields (mark_all k f.tags) fs

abbrev pub marked : List Field → Marks
marked =
    mark_fields
      (record { common = false; req = false; resp = false; res = false; noti = false; actions = 0 })

abbrev pub static_actions : List Arg → ℕ
static_actions [] = 0
static_actions (debug ∷ xs) = static_actions xs
static_actions (action_arg a ∷ xs) = static_actions xs + 1

abbrev is_some {ℓ} : {A : Type ℓ} → Option A → Bool
is_some none = false
is_some (some x) = true

abbrev number_of {ℓ} : {A : Type ℓ} → Option A → ℕ
number_of none = 0
number_of (some x) = 1

abbrev marks : Tagged → Marks
marks t = record {
  common = is_some t.common_field;
  req = is_some t.req_field;
  resp = is_some t.resp_field;
  res = is_some t.res_field;
  noti = is_some t.noti_field;
  actions = number_of t.field_action;
}

read_tag-marks :
    (t u : Tagged) (f : Named) (x : Tag) → read_tag t f x ≡ some u → marks u ≡ mark (marks t) x
unfolding read_tag
read_tag-marks t u f common h = ap marks (sym (some-injective _ u h))
read_tag-marks t u f req h = ap marks (sym (some-injective _ u h))
read_tag-marks t u f resp h = ap marks (sym (some-injective _ u h))
read_tag-marks t u f req_blob h = ap marks (sym (some-injective _ u h))
read_tag-marks t u f resp_blob h = ap marks (sym (some-injective _ u h))
read_tag-marks t u f action h = ground (arith, h)
read_tag-marks t u f res h = ap marks (sym (some-injective _ u h))
read_tag-marks t u f noti h = ap marks (sym (some-injective _ u h))
read_tag-marks t u f other_tag h = ap marks (sym (some-injective _ u h))

read_tags-marks :
    (t u : Tagged) (f : Named) (xs : List Tag)
    → read_tags t f xs ≡ some u
    → marks u ≡ mark_all (marks t) xs
unfolding read_tags
read_tags-marks t u f [] h = ap marks (sym (some-injective t u h))
read_tags-marks t u f (x ∷ xs) h =
    let (v, e, k) = both_somes (read_tag t f x) _ u h in
    read_tags-marks v u f xs k ∙ ap (λ m. mark_all m xs) (read_tag-marks t v f x e)

read_fields-marks :
    (t u : Tagged) (fs : List Field)
    → read_fields t fs ≡ some u
    → marks u ≡ mark_fields (marks t) fs
unfolding read_fields
read_fields-marks t u [] h = ap marks (sym (some-injective t u h))
read_fields-marks t u (f ∷ fs) h =
    let (v, e, k) = both_somes (read_tags t f.named f.tags) _ u h in
    read_fields-marks v u fs k ∙ ap (λ m. mark_fields m fs) (read_tags-marks t v f.named f.tags e)

read_args-actions :
    (a b : Args) (xs : List Arg)
    → read_args a xs ≡ some b
    → number_of b.static_action ≡ number_of a.static_action + static_actions xs
unfolding read_args read_arg
read_args-actions a b [] h = ground (arith, h)
read_args-actions a b (debug ∷ xs) h =
    let (v, e, k) = both_somes (read_arg a debug) _ b h in
    ground (arith, e, read_args-actions v b xs k)
read_args-actions a b (action_arg x ∷ xs) h =
    let (v, e, k) = both_somes (read_arg a (action_arg x)) _ b h in
    ground (arith, e, read_args-actions v b xs k)

-- `action_impl` refuses two actions, `done_impl` one of `res` and `noti` without the other.
one-action :
    (f : Option Named) (s : Option ActionArg) (i : ActionImpl)
    → action_impl f s ≡ some i
    → number_of f + number_of s ≤ 1
unfolding action_impl
one-action none none i h = omega arith
one-action (some f) none i h = omega arith
one-action none (some a) i h = omega arith
one-action (some f) (some a) i h = ground (arith, h)

res-noti :
    (r n : Option Named) (d : Option DoneImpl) → done_impl r n ≡ some d → is_some r ≡ is_some n
unfolding done_impl
res-noti none none d h = refl
res-noti (some r) none d h = ground (arith, h)
res-noti none (some n) d h = ground (arith, h)
res-noti (some r) (some n) d h = refl

-- A struct that `#[client_task]` accepts has a field for each of `common`, `req` and `resp`; `res` and
-- `noti` stand together or not at all; and its action is given once at most, by a field or by the
-- attribute.
expand-marked :
    (args : List Arg) (fields : List Field) (e : Expansion)
    → expand args fields ≡ some e
    → let k = marked fields in
      (k.common ≡ true)
      × (k.req ≡ true)
      × (k.resp ≡ true)
      × (k.res ≡ k.noti)
      × (k.actions + static_actions args ≤ 1)
unfolding expand expand_tagged no_tags
expand-marked args fields e h =
    let (a, ea, h1) =
      both_somes (read_args (record { gen_debug = false; static_action = none }) args) _ e h in
    let (t, et, h2) = both_somes (read_fields no_tags fields) _ e h1 in
    let (c, ec, h3) = both_somes t.common_field _ e h2 in
    let (q, eq, h4) = both_somes t.req_field _ e h3 in
    let (p, ep, h5) = both_somes t.resp_field _ e h4 in
    let (i, ei, h6) = both_somes (action_impl t.field_action a.static_action) _ e h5 in
    let (d, ed, h7) = both_somes (done_impl t.res_field t.noti_field) _ e h6 in
    let m = sym (read_fields-marks no_tags t fields et) in
    let n = read_args-actions (record { gen_debug = false; static_action = none }) a args ea in
    let one = one-action t.field_action a.static_action i ei in
    (
      ap (λ k. k.common) m ∙ ap is_some ec,
      ap (λ k. k.req) m ∙ ap is_some eq,
      ap (λ k. k.resp) m ∙ ap is_some ep,
      ap (λ k. k.res) m ∙ res-noti t.res_field t.noti_field d ed ∙ sym (ap (λ k. k.noti) m),
      omega (arith, ap (λ k. k.actions) m, n, one),
    )
