-- ===== src/Api/Wire.antt =====
-- src/server/task.rs, stream/src/proto.rs and transport/tcp/src/client.rs: an answer of an API on the wire.
pub mod Call
use razor_rpc.Prelude.{
  ℕ, ◌+◌, ◌^◌, ◌<◌, ◌≡◌, ◌≢◌, ◌∙◌, refl, sym, ap, Bool, true, false, List, [], ◌∷◌, ◌++◌, Option,
  none, some, Result, ok, err, panic, ◌⊎◌, inl, inr, All, length, ltb, if◌then◌else◌, arith,
  append-nil, ◌>>=◌,
}
use razor_rpc.Prelude.Int.{ℤ, pos}
use razor_rpc.Layout.{ByteOrder}
use razor_rpc.Error.{EncodedErr, num, static, buf, as_bytes, RpcError, user}
use razor_rpc.Error
use razor_rpc.Proto.Response
use razor_rpc.Proto.Response.{Response, encode_error}
use razor_rpc.Timer.{Timer}
use razor_rpc.Timer.Order.{tasks, lookup_seq, erase_seq}
use razor_rpc.Tcp.Stream.{blob_bytes}
use razor_rpc.Tcp.Client.{read_resp}
use razor_rpc.Tcp.Client.ErrorLaws.{Awaited, Fits, error_set, read_resp-encode_error}
use razor_rpc.Tcp.Client.ReadLaws.{TakesMsg, read_resp-encode}
use razor_rpc.Api.{ApiClientReq, api_task}
use razor_rpc.Proto.{str}
use razor_rpc.Proto.Request
use razor_rpc.Proto.Request.{Request}
use razor_rpc.Proto.Request.Laws.{Writes}
use razor_rpc.Tcp.Server.{RpcSvrReq, read_req}
use razor_rpc.Tcp.Server.ReadLaws.{Arrives, read_req-encode}
use razor_rpc.Api.Calls.{received_task}
use razor_rpc.Api.Server.{ApiServerReq, ApiServerResp, api_resp, set_result, set_error}
use razor_rpc.Api.Service.{ServiceStatic, Method, answered, service, mux_service, inline_dispatch}
use razor_rpc.Api.Service.Laws.{added, inline_dispatch-served}
use razor_rpc.Api.Remote.{exchange_answer, IsFaithful, got_answer}

-- An answer that fits the header: a message, or an error.
abbrev pub Sendable : ApiServerResp → Type 0
Sendable a =
    ((bs : List ℕ) × (a.msg ≡ some bs) × (a.res ≡ some (ok tt)) × (length bs < 2 ^ 32))
    ⊎ ((e : EncodedErr) × (a.res ≡ some (err e)) × Fits e)

-- The task when its message has been decoded.
taken : ApiClientReq → List ℕ → ApiClientReq
taken t bs = if ltb 0 (length bs) then (api_task.decode_resp t bs).task else t

taken-TakesMsg : (t : ApiClientReq) (bs : List ℕ) → TakesMsg api_task t bs (taken t bs)
unfolding taken api_task
taken-TakesMsg t [] = refl
taken-TakesMsg t (x ∷ xs) = ground arith

module _ (z : ByteOrder) (alloc : ℤ → Bool) (room : List ℕ) (timer : Timer ApiClientReq) where
  -- What the wire does with an answer: its one task is handed over, as `exchange_answer` says.
  abbrev pub Delivers : ApiClientReq → ApiServerResp → List ℕ → Type 0
  Delivers t a rest =
      (p : Response) × (u : ApiClientReq) × (Response.encode z api_resp room a ≡ ok p)
      × let x = read_resp api_task alloc z false timer (p.buf ++ (blob_bytes p.blob ++ rest)) in
        (x.errors ++ x.dones ≡ u ∷ [])
        × (x.rest ≡ rest)
        × (tasks x.timer ≡ erase_seq api_task t.seq (tasks timer))
        × (exchange_answer t (ok a) ≡ some u)

  response_encode_err :
      (a : ApiServerResp) (e : EncodedErr) (bs : List ℕ)
      → a.res ≡ some (err e)
      → encode_error z room a.seq e ≡ ok bs
      → Response.encode z api_resp room a ≡ ok (record { seq = a.seq; buf = bs; blob = none })
  unfolding Response.encode api_resp
  response_encode_err a e bs h k = ground (arith, h, k)

  answer_parts :
      (t : ApiClientReq) (a : ApiServerResp) (bs : List ℕ)
      → a.seq ≡ t.seq
      → a.msg ≡ some bs
      → a.res ≡ some (ok tt)
      → api_resp.encode_resp a room ≡ record {
        seq = t.seq;
        buf = room ++ bs;
        res = ok (record { msg_len = length bs; blob = none });
      }
  unfolding api_resp
  answer_parts t a bs h k r = ground (arith, h, k, r)

  exchange_ok :
      (t : ApiClientReq) (a : ApiServerResp) (bs : List ℕ)
      → a.msg ≡ some bs
      → a.res ≡ some (ok tt)
      → exchange_answer t (ok a) ≡ some (api_task.set_ok (taken t bs))
  unfolding taken api_resp
  exchange_ok t a bs h k = ground (arith, h, k)

  exchange_err :
      (t : ApiClientReq) (a : ApiServerResp) (e : EncodedErr)
      → a.res ≡ some (err e)
      → exchange_answer t (ok a) ≡ some (error_set api_task t e)
  unfolding api_resp
  exchange_err t a e h = ground (arith, h)

  pub delivers :
      (t : ApiClientReq) (a : ApiServerResp) (rest : List ℕ)
      → length room ≡ 20
      → a.seq ≡ t.seq
      → t.seq < 2 ^ 64
      → Awaited api_task alloc timer t.seq
      → lookup_seq api_task t.seq (tasks timer) ≡ some t
      → Sendable a
      → Delivers t a rest
  delivers t a rest l es h w found (inl (bs, em, er, k)) =
      let parts : api_resp.encode_resp a room ≡ record {
        seq = t.seq;
        buf = room ++ bs;
        res = ok (record { msg_len = length bs; blob = none });
      } =
        answer_parts t a bs es em er in
      let (q, eq, (errors, dones, r, poll, kept)) =
        read_resp-encode api_task alloc z api_resp room a t.seq bs none timer t t (taken t bs) rest
          l parts h k (omega arith) w found refl (taken-TakesMsg t bs) in
      (
        q,
        api_task.set_ok (taken t bs),
        eq,
        (rw (errors, dones) refl, r, kept, exchange_ok t a bs em er),
      )
  delivers t a rest l es h w found (inr (e, er, k)) =
      let (bs, eb, (errors, dones, r, poll, kept)) =
        read_resp-encode_error api_task alloc z room t.seq e timer t rest l h k w found in
      (
        record { seq = a.seq; buf = bs; blob = none },
        error_set api_task t e,
        response_encode_err a e bs er (rw es eb),
        (rw (errors, dones) refl, r, kept, exchange_err t a e er),
      )
