-- ===== src/Macros/Actions.antt =====
-- stream/macros/src/server_task_enum.rs: a decoded request has the action that it came with.
use razor_rpc.Prelude.{
  ℕ, ◌≡◌, refl, ap, subst, ◌∙◌, List, Option, none, some, Result, ok, err, panic, get_elem?, arith,
  inl, inr,
}
use razor_rpc.Macros.Arms.{Agrees, expand-Consistent}
use razor_rpc.Proto.{RpcAction}
use razor_rpc.Server.{RespNoti}
use razor_rpc.Server.Dispatch.{ServerTaskDecode}
use razor_rpc.Macros.ClientEnum.{Variant}
use razor_rpc.Macros.ServerEnum.{
  Matches, expand_actions, find_arm, decode_variant, enum_decode, enum_get_action,
}

value_or {ℓ} : {A : Type ℓ} → A → Result (Unit {0}) A → A
value_or a (ok b) = b
value_or a (err u) = a
value_or a panic = a

ok_injective {ℓ} : {A : Type ℓ} (a b : A) → ◌≡◌ {A = Result (Unit {0}) A} (ok a) (ok b) → a ≡ b
unfolding value_or
ok_injective a b h = ap (value_or a) h

module _ {T : ℕ → Type 0} (inner : (i : ℕ) → ServerTaskDecode (T i))
    (own : (i : ℕ) → T i → RpcAction) where
  fixed-action :
      (m : Matches) (i : ℕ) (t : T i) (a : RpcAction) (arm : Option RpcAction)
      → get_elem? m.actions i ≡ some arm
      → Agrees arm a
      → own i t ≡ a
      → enum_get_action m own (i, t) ≡ a
  unfolding enum_get_action
  fixed-action m i t a arm g (inl n) o = ground (arith, g, n, o)
  fixed-action m i t a arm g (inr f) o = ground (arith, g, f)

  abbrev DecodedAs :
      Matches → RpcAction → ℕ → List ℕ → Option (List ℕ) → RespNoti → (i : ℕ) × T i → Type 0
  DecodedAs m action seq req blob noti x =
      (find_arm m.arms action ≡ some x.0)
      × ((inner x.0).decode_req action seq req blob noti ≡ ok x.1)

  variant-decoded :
      (m : Matches) (action : RpcAction) (seq : ℕ) (req : List ℕ) (blob : Option (List ℕ))
      (noti : RespNoti) (x : (i : ℕ) × T i) (i : ℕ) (r : Result (Unit {0}) (T i))
      → find_arm m.arms action ≡ some i
      → (inner i).decode_req action seq req blob noti ≡ r
      → decode_variant m inner action seq req blob noti i ≡ ok x
      → DecodedAs m action seq req blob noti x
  unfolding decode_variant
  variant-decoded m action seq req blob noti x i (ok t) f e h =
      let same : (i, t) ≡ x = ok_injective (i, t) x (rw (e, decode_variant) at h) in
      subst (DecodedAs m action seq req blob noti) same (f, e)
  variant-decoded m action seq req blob noti x i (err u) f e h = ground (arith, e, h)
  variant-decoded m action seq req blob noti x i panic f e h = ground (arith, e, h)

  arm-decoded :
      (m : Matches) (action : RpcAction) (seq : ℕ) (req : List ℕ) (blob : Option (List ℕ))
      (noti : RespNoti) (x : (i : ℕ) × T i) (o : Option ℕ)
      → find_arm m.arms action ≡ o
      → (enum_decode m inner).decode_req action seq req blob noti ≡ ok x
      → DecodedAs m action seq req blob noti x
  unfolding enum_decode
  arm-decoded m action seq req blob noti x none f h = ground (arith, f, h)
  arm-decoded m action seq req blob noti x (some i) f h =
      variant-decoded m action seq req blob noti x i ((inner i).decode_req action seq req blob noti)
        f refl (rw (f, enum_decode) at h)

  -- If the tasks of every variant give the action that they were decoded with: a task that the generated `decode_req` makes from a
  -- request has, by the generated `get_action`, the action of the request, whether its variant has one
  -- action or several.
  pub get_action-decode_req :
      (vs : List Variant) (m : Matches) (action : RpcAction) (seq : ℕ) (req : List ℕ)
      (blob : Option (List ℕ)) (noti : RespNoti) (x : (i : ℕ) × T i)
      → expand_actions 0 vs ≡ some m
      → ((i : ℕ) (t : T i)
          → (inner i).decode_req action seq req blob noti ≡ ok t
          → own i t ≡ action)
      → (enum_decode m inner).decode_req action seq req blob noti ≡ ok x
      → enum_get_action m own x ≡ action
  get_action-decode_req vs m action seq req blob noti (i, t) e o h =
      let (found, decoded) =
        arm-decoded m action seq req blob noti (i, t) (find_arm m.arms action) refl h in
      let (j, arm, at_j, get, agrees) = expand-Consistent 0 vs m action i e found in
      let same : i ≡ j = omega (arith, at_j) in
      fixed-action m i t action arm (ap (get_elem? m.actions) same ∙ get) agrees (o i t decoded)
