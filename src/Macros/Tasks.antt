-- ===== src/Macros/Tasks.antt =====
-- stream/macros/src: what the generated tasks owe to the framework and to their users.
use razor_rpc.Prelude.{
  ℕ, ◌≡◌, refl, ap, subst, ◌∙◌, List, Option, none, some, Result, ok, err, arith, inl, inr,
}
use mathlib.Core.Option.{some-injective}
use razor_rpc.Prelude.Int.{ℤ}
use razor_rpc.Error.{RpcIntErr, EncodedErr, RpcError, user, from_str}
use razor_rpc.Error
use razor_rpc.Error.Codec.{RpcErrCodec}
use razor_rpc.Proto.{RpcAction}
use razor_rpc.Codec.{Codec}
use razor_rpc.Task.{ClientTask, Reserved}
use razor_rpc.Tcp.Client.ErrorLaws.{error_set}
use razor_rpc.Stream.Numbers.{KeepsSeq}
use razor_rpc.Macros.Generated.{
  Fields, RespBlob, client_task, get_result, set_rpc_error, set_custom_error, custom_error,
  decoded_error, set_ok, decode_resp, reserve_resp_blob, fill_resp_blob,
}
use razor_rpc.Macros.ClientEnum.{Enum, client_task_enum, enum_decode, enum_reserve}

module _ {S Q P E : Type 0} (f : Fields S Q P E) where
  -- The fields of a struct: to set one reads back, and leaves the number.
  pub record IsStruct : Type 0 where
    pub seq-set_seq : (t : S) (n : ℕ) → f.seq (f.set_seq t n) ≡ n
    pub seq-set_resp : (t : S) (p : Option P) → f.seq (f.set_resp t p) ≡ f.seq t
    pub seq-set_res :
        (t : S) (r : Option (Result (RpcError E) (Unit {0}))) → f.seq (f.set_res t r) ≡ f.seq t
    pub res-set_res :
        (t : S) (r : Option (Result (RpcError E) (Unit {0}))) → f.res (f.set_res t r) ≡ r
    pub seq-reserve :
        (b : RespBlob S) (t : S) (n : ℤ) (r : Reserved S)
        → f.resp_blob ≡ some b
        → b.reserve t n ≡ some r
        → f.seq r.task ≡ f.seq t
    pub seq-fill :
        (b : RespBlob S) (t : S) (bs : List ℕ)
        → f.resp_blob ≡ some b
        → f.seq (b.fill t bs) ≡ f.seq t

  module _ (errors : RpcErrCodec E) (req_codec : Codec Q) (resp_codec : Codec P)
      (law : IsStruct) where
    -- The generated code of a struct keeps the number that the framework gives to the task.
    client_task-KeepsSeq : KeepsSeq (client_task f errors req_codec resp_codec)
    unfolding client_task set_rpc_error set_custom_error set_ok decode_resp reserve_resp_blob
        fill_resp_blob
    client_task-KeepsSeq = record {
      set_seq = law.seq-set_seq;
      set_rpc_error = λ t e. law.seq-set_res t (some (err (RpcError.rpc e)));
      set_custom_error = λ t e i v. law.seq-set_res t (some (err (custom_error f errors e)));
      set_ok = λ t. law.seq-set_res t (some (ok tt));
      decode_resp = λ t bs. grind (arith, law.seq-set_resp);
      reserve_resp_blob = λ t n r e. grind (arith, e, law.seq-reserve);
      fill_resp_blob = λ t bs. grind (arith, law.seq-fill);
    }

    -- How an error of the service may be sent so that it is read back: as a number, or as a text that
    -- is not the name of an error of the framework.
    pub data Readable (e : E) : Type 0 where
      as_number :
          (n : ℕ) → errors.encode e ≡ Error.num n → errors.decode (inl n) ≡ ok e → Readable e
      as_text :
          (s : List ℕ)
          → errors.encode e ≡ Error.buf s
          → errors.decode (inr s) ≡ ok e
          → from_str s ≡ err tt
          → Readable e
      as_static :
          (s : List ℕ)
          → errors.encode e ≡ Error.static s
          → errors.decode (inr s) ≡ ok e
          → from_str s ≡ err tt
          → Readable e

    custom-set :
        (t : S) (x : EncodedErr)
        → get_result f (set_custom_error f errors t x 0 0) ≡ err (custom_error f errors x)
    unfolding get_result set_custom_error
    custom-set t x = rw (get_result, law.res-set_res t (some (err (custom_error f errors x)))) refl

    number-set :
        (t : S) (n : ℕ) (e : E)
        → errors.decode (inl n) ≡ ok e
        → get_result f (error_set (client_task f errors req_codec resp_codec) t (Error.num n))
          ≡ err (user e)
    unfolding client_task custom_error decoded_error
    number-set t n e d = custom-set t (Error.num n) ∙ ground (arith, d)

    text-custom :
        (t : S) (s : List ℕ)
        → from_str s ≡ err tt
        → error_set (client_task f errors req_codec resp_codec) t (Error.buf s)
          ≡ set_custom_error f errors t (Error.buf s) 0 0
    unfolding client_task
    text-custom t s n = ground (arith, n)

    text-set :
        (t : S) (s : List ℕ) (e : E)
        → from_str s ≡ err tt
        → errors.decode (inr s) ≡ ok e
        → get_result f (error_set (client_task f errors req_codec resp_codec) t (Error.buf s))
          ≡ err (user e)
    unfolding custom_error decoded_error
    text-set t s e n d =
        ap (get_result f) (text-custom t s n) ∙ custom-set t (Error.buf s) ∙ ground (arith, d)

    -- An error of the service that its codec sends as a number, or as a text (static or not) that names no
    -- error of the framework, and reads back: once it is set on the task that waits, `get_result` gives just this error to the user.
    pub get_result-error_set :
        (t : S) (e : E)
        → Readable e
        → get_result f (error_set (client_task f errors req_codec resp_codec) t (errors.encode e))
          ≡ err (user e)
    get_result-error_set t e (as_number n h d) = rw h (number-set t n e d)
    get_result-error_set t e (as_text s h d n) = rw h (text-set t s e n d)
    get_result-error_set t e (as_static s h d n) = rw h (text-set t s e n d)

reserve-seq :
    {T : ℕ → Type 0} (inner : (i : ℕ) → ClientTask (T i)) (arms : ℕ → Option RpcAction)
    → ((i : ℕ) → KeepsSeq (inner i))
    → (i : ℕ) (x : T i) (n : ℤ) (r : Reserved (Enum inner arms))
    → enum_reserve inner arms (i, x) n ≡ some r
    → (inner r.task.0).seq r.task.1 ≡ (inner i).seq x
unfolding enum_reserve
reserve-seq {T} inner arms k i x n r e = split ((inner i).reserve_resp_blob x n) refl e
  where
    lent : Reserved (T i) → Reserved (Enum inner arms)
    lent q = record { task = (i, q.task); room = q.room }

    split :
        (o : Option (Reserved (T i)))
        → (inner i).reserve_resp_blob x n ≡ o
        → (elim o [ none ↦ none | some q ↦ some (lent q) ]) ≡ some r
        → (inner r.task.0).seq r.task.1 ≡ (inner i).seq x
    split none h e = ground (arith, e)
    split (some q) h e =
        subst (λ y. (inner y.task.0).seq y.task.1 ≡ (inner i).seq x) (some-injective (lent q) r e)
          ((k i).reserve_resp_blob x n q h)

-- The code that is generated for an enum keeps the numbers of its tasks, if that of every variant does.
client_task_enum-KeepsSeq :
    {T : ℕ → Type 0} (inner : (i : ℕ) → ClientTask (T i)) (arms : ℕ → Option RpcAction)
    → ((i : ℕ) → KeepsSeq (inner i))
    → KeepsSeq (client_task_enum inner arms)
unfolding client_task_enum enum_decode enum_reserve
client_task_enum-KeepsSeq inner arms k = record {
  set_seq = λ t n. (k t.0).set_seq t.1 n;
  set_rpc_error = λ t e. (k t.0).set_rpc_error t.1 e;
  set_custom_error = λ t e i v. (k t.0).set_custom_error t.1 e i v;
  set_ok = λ t. (k t.0).set_ok t.1;
  decode_resp = λ t bs. (k t.0).decode_resp t.1 bs;
  reserve_resp_blob = λ t n r e. reserve-seq inner arms k t.0 t.1 n r e;
  fill_resp_blob = λ t bs. (k t.0).fill_resp_blob t.1 bs;
}
