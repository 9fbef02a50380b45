-- ===== src/Macros/Generated.antt =====
-- stream/macros/src/client_task.rs: the code that `#[client_task]` generates, as a function of the
-- fields that it is given. `set_custom_error` decodes the error of the service; the framework's own
-- errors need no codec.
use razor_rpc.Prelude.{ℕ, List, Option, none, some, Result, ok, err, panic, ◌⊎◌, inl, inr}
use razor_rpc.Prelude.Int.{ℤ}
use razor_rpc.Error.{RpcIntErr, EncodedErr, RpcError, user, internal, decode}
use razor_rpc.Error
use razor_rpc.Error.Codec.{RpcErrCodec}
use razor_rpc.Proto.{RpcAction}
use razor_rpc.Codec.{Codec}
use razor_rpc.Task.{ClientTask, Encoded, Decoded, Reserved}

-- A blob to read into: `reserve` of its type, and what reading into the slice does to the struct.
pub record RespBlob (S : Type 0) : Type 0 where
  pub reserve : S → ℤ → Option (Reserved S)
  pub fill : S → List ℕ → S

-- The fields of the struct `S` that the attributes name. `noti` is taken by `done`, to which
-- `channel` is where the task goes.
pub record Fields (S Q P E : Type 0) : Type 0 where
  pub seq : S → ℕ
  pub set_seq : S → ℕ → S
  pub req : S → Q
  pub set_resp : S → Option P → S
  pub req_blob : Option (S → List ℕ)
  pub resp_blob : Option (RespBlob S)
  pub action : S → RpcAction
  pub res : S → Option (Result (RpcError E) (Unit {0}))
  pub set_res : S → Option (Result (RpcError E) (Unit {0})) → S
  pub noti : S → Option ℕ
  pub take_noti : S → S

module _ {S Q P E : Type 0} (f : Fields S Q P E) where
  -- `ClientTaskGetResult`
  unfoldable pub get_result : S → Result (RpcError E) (Unit {0})
  get_result t = elim (f.res t) [ some r ↦ r | none ↦ err (RpcError.rpc internal) ]

  -- `done`: the task and the channel that it is sent to, if it has one.
  unfoldable pub done : S → Option (ℕ × S)
  done t = elim (f.noti t) [ none ↦ none | some n ↦ some (n, f.take_noti t) ]

  unfoldable pub set_rpc_error : S → RpcIntErr → S
  set_rpc_error t e = f.set_res t (some (err (RpcError.rpc e)))

  unfoldable pub set_ok : S → S
  set_ok t = f.set_res t (some (ok tt))

  unfoldable pub get_req_blob : S → Option (List ℕ)
  get_req_blob t = elim f.req_blob [ none ↦ none | some b ↦ some (b t) ]

  unfoldable pub reserve_resp_blob : S → ℤ → Option (Reserved S)
  reserve_resp_blob t size = elim f.resp_blob [ none ↦ none | some b ↦ b.reserve t size ]

  unfoldable pub fill_resp_blob : S → List ℕ → S
  fill_resp_blob t bs = elim f.resp_blob [ none ↦ t | some b ↦ b.fill t bs ]

  module _ (errors : RpcErrCodec E) where
    -- `if let Ok(e) = E::decode(..) { e.into() } else { RpcIntErr::Decode.into() }`
    unfoldable pub decoded_error : ℕ ⊎ List ℕ → RpcError E
    decoded_error x = elim (errors.decode x) [
      | ok e ↦ user e
      | err u ↦ RpcError.rpc decode
      | panic ↦ RpcError.rpc decode
    ]

    unfoldable pub custom_error : EncodedErr → RpcError E
    custom_error (Error.rpc e) = RpcError.rpc e
    custom_error (Error.num n) = decoded_error (inl n)
    custom_error (Error.static s) = decoded_error (inr s)
    custom_error (Error.buf b) = decoded_error (inr b)

    unfoldable pub set_custom_error : S → EncodedErr → ℕ → ℕ → S
    set_custom_error t e last_index conf_ver = f.set_res t (some (err (custom_error e)))

  module _ (req_codec : Codec Q) (resp_codec : Codec P) where
    unfoldable pub encode_req : S → List ℕ → Result (Unit {0}) Encoded
    encode_req t out = elim (req_codec.encode_into (f.req t) out) [
      | ok e ↦ ok e
      | err left ↦ err tt
      | panic ↦ panic
    ]

    unfoldable pub decode_resp : S → List ℕ → Decoded S
    decode_resp t bs = elim (resp_codec.decode bs) [
      | ok p ↦ record { task = f.set_resp t (some p); res = ok tt }
      | err u ↦ record { task = t; res = err tt }
      | panic ↦ record { task = t; res = panic }
    ]

-- The impls of a struct with `#[client_task]`, as the task that the framework handles.
unfoldable pub client_task :
    {S Q P E : Type 0} → Fields S Q P E → RpcErrCodec E → Codec Q → Codec P → ClientTask S
client_task f errors req_codec resp_codec = record {
  get_action = f.action;
  encode_req = encode_req f req_codec resp_codec;
  get_req_blob = get_req_blob f;
  decode_resp = decode_resp f req_codec resp_codec;
  reserve_resp_blob = reserve_resp_blob f;
  fill_resp_blob = fill_resp_blob f;
  seq = f.seq;
  set_seq = f.set_seq;
  set_custom_error = set_custom_error f errors;
  set_rpc_error = set_rpc_error f;
  set_ok = set_ok f;
}
