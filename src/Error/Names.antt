-- ===== src/Error/Names.antt =====
-- stream/src/error.rs: the texts of `RpcIntErr`, and which errors are retried.
use razor_rpc.Prelude.{
  List, ℕ, ◌≡◌, refl, true, ok, bytes_eq, bytes_eq_sound, starts_with, arith, ◌⊎◌, ◌↔◌,
}
use razor_rpc.Prelude.Text.{is_utf8}
use razor_rpc.Error.{
  RpcIntErr, unreachable, io, timeout, method, service, encode, decode, internal, version,
  int_err_lt, as_bytes, from_str, rpc_err_prefix,
}

pub from_str-as_bytes : (e : RpcIntErr) → from_str (as_bytes e) ≡ ok e
unfolding from_str bytes_eq
from_str-as_bytes unreachable = refl
from_str-as_bytes _ = refl

-- Every text begins with the reserved prefix and is UTF-8, as the client checks before it parses.
pub as_bytes-prefix : (e : RpcIntErr) → starts_with (as_bytes e) rpc_err_prefix ≡ true
unfolding as_bytes starts_with
as_bytes-prefix unreachable = refl
as_bytes-prefix _ = refl

pub as_bytes-utf8 : (e : RpcIntErr) → is_utf8 (as_bytes e) ≡ true
unfolding as_bytes is_utf8
as_bytes-utf8 unreachable = refl
as_bytes-utf8 _ = refl

from_str_sound : (s : List ℕ) (e : RpcIntErr) → from_str s ≡ ok e → s ≡ as_bytes e
unfolding from_str
from_str_sound s e h = ground (
  arith,
  bytes_eq_sound s (as_bytes unreachable),
  bytes_eq_sound s (as_bytes io),
  bytes_eq_sound s (as_bytes timeout),
  bytes_eq_sound s (as_bytes method),
  bytes_eq_sound s (as_bytes service),
  bytes_eq_sound s (as_bytes encode),
  bytes_eq_sound s (as_bytes decode),
  bytes_eq_sound s (as_bytes internal),
  bytes_eq_sound s (as_bytes version),
)

-- `from_str` gives `e` exactly on the text that `as_bytes` writes for `e`.
pub from_str_iff : (s : List ℕ) (e : RpcIntErr) → (from_str s ≡ ok e) ↔ (s ≡ as_bytes e)
from_str_iff s e = (from_str_sound s e, λ h. rw h (from_str-as_bytes e))

-- The errors below `method` are the three that a retry may cure.
retriable_iff :
    (e : RpcIntErr) → (int_err_lt e method ≡ true) ↔ ((e ≡ unreachable) ⊎ (e ≡ io) ⊎ (e ≡ timeout))
unfolding int_err_lt
retriable_iff e = (λ h. ground arith, λ h. ground arith)
