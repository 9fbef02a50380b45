-- ===== src/Error.antt =====
-- stream/src/error.rs: the framework's own errors, the form in which an error travels, and what
-- a client receives. Strings are their bytes.
pub mod Codec
pub mod Equality
pub mod Names
use razor_rpc.Prelude.{
  ℕ, Bool, true, false, List, Result, ok, err, ltb, ◌==◌, bytes_eq, if◌then◌else◌,
}
use razor_rpc.Prelude.Text.{bytes, is_utf8}

pub data RpcIntErr : Type 0 where
  unreachable io timeout method service encode decode internal version : RpcIntErr

-- `repr(u8)`
unfoldable pub discriminant : RpcIntErr → ℕ
discriminant unreachable = 0
discriminant io = 1
discriminant timeout = 2
discriminant method = 3
discriminant service = 4
discriminant encode = 5
discriminant decode = 6
discriminant internal = 7
discriminant version = 8

-- The derived `PartialOrd` and `PartialEq`, by the declaration's order.
unfoldable pub int_err_lt : RpcIntErr → RpcIntErr → Bool
unfolding discriminant
int_err_lt a b = ltb (discriminant a) (discriminant b)

unfoldable pub int_err_eq : RpcIntErr → RpcIntErr → Bool
unfolding discriminant
int_err_eq a b = discriminant a == discriminant b

-- `as_bytes`: the text of `strum::AsRefStr`, as the attributes give it.
unfoldable pub as_bytes : RpcIntErr → List ℕ
as_bytes unreachable = bytes "rpc_unreachable"
as_bytes io = bytes "rpc_io_err"
as_bytes timeout = bytes "rpc_timeout"
as_bytes method = bytes "rpc_method_notfound"
as_bytes service = bytes "rpc_service_notfound"
as_bytes encode = bytes "rpc_encode"
as_bytes decode = bytes "rpc_decode"
as_bytes internal = bytes "rpc_internal_err"
as_bytes version = bytes "rpc_invalid_ver"

-- `from_str` of `strum::EnumString`, over the same attributes.
unfoldable pub from_str : List ℕ → Result (Unit {0}) RpcIntErr
unfolding as_bytes
from_str s =
    if bytes_eq s (as_bytes unreachable)
    then ok unreachable
    else if bytes_eq s (as_bytes io)
    then ok io
    else if bytes_eq s (as_bytes timeout)
    then ok timeout
    else if bytes_eq s (as_bytes method)
    then ok method
    else if bytes_eq s (as_bytes service)
    then ok service
    else if bytes_eq s (as_bytes encode)
    then ok encode
    else if bytes_eq s (as_bytes decode)
    then ok decode
    else if bytes_eq s (as_bytes internal)
    then ok internal
    else if bytes_eq s (as_bytes version)
    then ok version
    else err tt

abbrev pub rpc_err_prefix : List ℕ
rpc_err_prefix = bytes "rpc_"

-- `Static` and `Buf` differ in who owns the bytes.
pub data EncodedErr : Type 0 where
  rpc : RpcIntErr → EncodedErr
  num : ℕ → EncodedErr
  static buf : List ℕ → EncodedErr

unfoldable pub try_as_str : EncodedErr → Result (Unit {0}) (List ℕ)
try_as_str (static s) = ok s
try_as_str (buf b) = if is_utf8 b then ok b else err tt
try_as_str (rpc e) = err tt
try_as_str (num n) = err tt

-- `if let Ok(o) = r { s == o } else { false }`
same_text : List ℕ → Result (Unit {0}) (List ℕ) → Bool
same_text s (ok o) = bytes_eq s o
same_text s _ = false

-- `PartialEq for EncodedErr`
unfoldable pub encoded_err_eq : EncodedErr → EncodedErr → Bool
unfolding int_err_eq try_as_str same_text
encoded_err_eq (rpc e) (rpc o) = int_err_eq e o
encoded_err_eq (rpc e) _ = false
encoded_err_eq (num e) (num o) = e == o
encoded_err_eq (num e) _ = false
encoded_err_eq (static s) other = same_text s (try_as_str other)
encoded_err_eq (buf s) (buf o) = bytes_eq s o
encoded_err_eq (buf s) other = if is_utf8 s then same_text s (try_as_str other) else false

-- What a client's caller gets: its own error type, or the framework's.
pub data RpcError (E : Type 0) : Type 0 where
  user : E → RpcError E
  rpc : RpcIntErr → RpcError E

-- The comparisons of `RpcError` with an error of the framework, with one of the user, and with itself; `eq` is the
-- `PartialEq` of the user's type.
unfoldable pub eq_int_err : {E : Type 0} → RpcError E → RpcIntErr → Bool
unfolding int_err_eq
eq_int_err (rpc r) other = int_err_eq r other
eq_int_err (user e) other = false

module _ {E : Type 0} (eq : E → E → Bool) where
  unfoldable pub eq_user_err : RpcError E → E → Bool
  eq_user_err (user r) other = eq r other
  eq_user_err (rpc e) other = false

  unfoldable pub rpc_error_eq : RpcError E → RpcError E → Bool
  unfolding int_err_eq
  rpc_error_eq (rpc r) (rpc o) = int_err_eq r o
  rpc_error_eq (user r) (user o) = eq r o
  rpc_error_eq (rpc r) (user o) = false
  rpc_error_eq (user r) (rpc o) = false
