-- ===== src/Error/Equality.antt =====
-- stream/src/error.rs: `PartialEq for EncodedErr`, and those of `RpcError`.
use razor_rpc.Prelude.{
  ◌≡◌, ◌∙◌, ◌↔◌, refl, sym, ap, Bool, true, ◌==◌, if◌then◌else◌, arith, bytes_eq, bytes_eq_sound,
  bytes_eq_refl, List, ℕ,
}
use razor_rpc.Error.{
  RpcIntErr, unreachable, io, timeout, method, service, encode, decode, internal, version,
  discriminant, int_err_eq, EncodedErr, rpc, num, static, buf, encoded_err_eq, RpcError, user,
  eq_int_err, eq_user_err, rpc_error_eq,
}

bytes_eq_comm : (xs ys : List ℕ) → bytes_eq xs ys ≡ bytes_eq ys xs
bytes_eq_comm xs ys = ground (arith, bytes_eq_sound xs ys, bytes_eq_sound ys xs, bytes_eq_refl xs)

-- The comparison of two errors does not depend on their order, for all four forms.
encoded_err_eq_comm : (a b : EncodedErr) → encoded_err_eq a b ≡ encoded_err_eq b a
unfolding encoded_err_eq
encoded_err_eq_comm (rpc e) (rpc f) = ground arith
encoded_err_eq_comm (rpc e) (num f) = ground arith
encoded_err_eq_comm (rpc e) (static f) = ground arith
encoded_err_eq_comm (rpc e) (buf f) = ground arith
encoded_err_eq_comm (num e) (rpc f) = ground arith
encoded_err_eq_comm (num e) (num f) = ground arith
encoded_err_eq_comm (num e) (static f) = ground arith
encoded_err_eq_comm (num e) (buf f) = ground arith
encoded_err_eq_comm (static e) (rpc f) = ground arith
encoded_err_eq_comm (static e) (num f) = ground arith
encoded_err_eq_comm (static e) (static f) = bytes_eq_comm e f
encoded_err_eq_comm (static e) (buf f) = ground (arith, bytes_eq_comm e f)
encoded_err_eq_comm (buf e) (rpc f) = ground arith
encoded_err_eq_comm (buf e) (num f) = ground arith
encoded_err_eq_comm (buf e) (static f) = ground (arith, bytes_eq_comm e f)
encoded_err_eq_comm (buf e) (buf f) = bytes_eq_comm e f

-- The error of a discriminant.
of_discriminant : ℕ → RpcIntErr
of_discriminant n =
    if n == 0
    then unreachable
    else if n == 1
    then io
    else if n == 2
    then timeout
    else if n == 3
    then method
    else if n == 4
    then service
    else if n == 5
    then encode
    else if n == 6
    then decode
    else if n == 7
    then internal
    else version

of_discriminant-discriminant : (e : RpcIntErr) → of_discriminant (discriminant e) ≡ e
unfolding of_discriminant discriminant
of_discriminant-discriminant unreachable = refl
of_discriminant-discriminant _ = refl

int_err_eq_sound : (a b : RpcIntErr) → int_err_eq a b ≡ true → a ≡ b
unfolding int_err_eq
int_err_eq_sound a b h =
    let e : discriminant a ≡ discriminant b = ground (arith, h) in
    sym (of_discriminant-discriminant a) ∙ ap of_discriminant e ∙ of_discriminant-discriminant b

int_err_eq_refl : (a : RpcIntErr) → int_err_eq a a ≡ true
unfolding int_err_eq
int_err_eq_refl a = ground arith

module _ {E : Type 0} (eq : E → E → Bool) (sound : (a b : E) → eq a b ≡ true → a ≡ b)
    (reflexive : (a : E) → eq a a ≡ true) where
  rpc_error_eq_sound : (x y : RpcError E) → rpc_error_eq eq x y ≡ true → x ≡ y
  unfolding rpc_error_eq
  rpc_error_eq_sound (RpcError.rpc a) (RpcError.rpc b) h = ap RpcError.rpc (int_err_eq_sound a b h)
  rpc_error_eq_sound (user a) (user b) h = ap user (sound a b h)
  rpc_error_eq_sound (RpcError.rpc a) (user b) h = ground (arith, h)
  rpc_error_eq_sound (user a) (RpcError.rpc b) h = ground (arith, h)

  rpc_error_eq_refl : (x : RpcError E) → rpc_error_eq eq x x ≡ true
  unfolding rpc_error_eq
  rpc_error_eq_refl (RpcError.rpc a) = int_err_eq_refl a
  rpc_error_eq_refl (user a) = reflexive a

  rpc_error_eq_iff : (x y : RpcError E) → (rpc_error_eq eq x y ≡ true) ↔ (x ≡ y)
  rpc_error_eq_iff x y =
      (rpc_error_eq_sound x y, λ h. ap (rpc_error_eq eq x) (sym h) ∙ rpc_error_eq_refl x)

  -- The three comparisons of a client's error agree: with itself it is equality, if the one of the user's type is, and the others are this
  -- one with the error wrapped.
  rpc_error_eq_lem :
      (x y : RpcError E) (i : RpcIntErr) (e : E)
      → ((rpc_error_eq eq x y ≡ true) ↔ (x ≡ y))
        × (eq_int_err x i ≡ rpc_error_eq eq x (RpcError.rpc i))
        × (eq_user_err eq x e ≡ rpc_error_eq eq x (user e))
  unfolding rpc_error_eq eq_int_err eq_user_err
  rpc_error_eq_lem (RpcError.rpc a) y i e = (rpc_error_eq_iff (RpcError.rpc a) y, refl, refl)
  rpc_error_eq_lem (user a) y i e = (rpc_error_eq_iff (user a) y, refl, refl)
