-- ===== src/Api/Wire/Call.antt =====
-- src, stream/src and transport/tcp/src: a call of an API, byte by byte.
use razor_rpc.Prelude.{
  ℕ, ◌^◌, ◌<◌, ◌≡◌, ◌≢◌, ◌∙◌, refl, sym, ap, Bool, true, false, List, [], ◌∷◌, ◌++◌, none, some,
  Result, ok, err, panic, inl, inr, All, length, arith,
}
use razor_rpc.Prelude.Int.{ℤ, pos}
use razor_rpc.Layout.{ByteOrder}
use razor_rpc.Error.{EncodedErr, num, static, buf, as_bytes, RpcError, user}
use razor_rpc.Error
use razor_rpc.Proto.Response
use razor_rpc.Proto.Response.{Response, encode_error}
use razor_rpc.Timer.{Timer}
use razor_rpc.Timer.Order.{tasks, lookup_seq, erase_seq}
use razor_rpc.Tcp.Stream.{blob_bytes}
use razor_rpc.Tcp.Client.{read_resp}
use razor_rpc.Tcp.Client.ErrorLaws.{Awaited, Fits}
use razor_rpc.Api.{ApiClientReq, api_task}
use razor_rpc.Proto.{str}
use razor_rpc.Proto.Request
use razor_rpc.Proto.Request.{Request}
use razor_rpc.Proto.Request.Laws.{Writes}
use razor_rpc.Tcp.Server.{RpcSvrReq, read_req}
use razor_rpc.Tcp.Server.ReadLaws.{Arrives, read_req-encode}
use razor_rpc.Api.Calls.{received_task}
use razor_rpc.Api.Server.{ApiServerReq, ApiServerResp, api_resp, set_result, set_error}
use razor_rpc.Api.Service.{ServiceStatic, Method, answered, service, mux_service, inline_dispatch}
use razor_rpc.Api.Service.Laws.{added, inline_dispatch-served}
use razor_rpc.Api.Remote.{exchange_answer, IsFaithful, got_answer}
use razor_rpc.Api.Wire.{Sendable, delivers}

-- What a method gives can be sent back.
abbrev pub Answerable : (m : Method) → Result (RpcError m.Err) m.Resp → Type 0
Answerable m (ok p) = (bs : List ℕ) × (m.resp_codec.encode p ≡ ok bs) × (length bs < 2 ^ 32)
Answerable m (err (user e)) = Fits (m.err_codec.encode e)
Answerable m (err (RpcError.rpc e)) = Unit
Answerable m panic = ⊥

rpc-Fits : (e : Error.RpcIntErr) → Fits (Error.rpc e)
unfolding as_bytes
rpc-Fits Error.unreachable = omega arith
rpc-Fits _ = omega arith

answered-Sendable :
    (m : Method) (q : ApiServerReq) (r : Result (RpcError m.Err) m.Resp)
    → Answerable m r
    → (a : ApiServerResp) × (answered m q r ≡ ok a) × (a.seq ≡ q.seq) × Sendable a
unfolding answered set_result set_error
answered-Sendable m q (ok p) (bs, e, l) = (
  set_result q (m.resp_codec.encode p),
  refl,
  ground (arith, e),
  inl (bs, ground (arith, e), ground (arith, e), l),
)
answered-Sendable m q (err (user e)) h =
    (set_error m.err_codec q (user e), refl, refl, inr (m.err_codec.encode e, refl, h))
answered-Sendable m q (err (RpcError.rpc e)) h =
    (set_error m.err_codec q (RpcError.rpc e), refl, refl, inr (Error.rpc e, refl, rpc-Fits e))
answered-Sendable m q panic h = absurd h

Answerable-panic : (m : Method) (r : Result (RpcError m.Err) m.Resp) → Answerable m r → r ≢ panic
Answerable-panic m (ok p) h = λ e. ground (arith, e)
Answerable-panic m (err e) h = λ e. ground (arith, e)
Answerable-panic m panic h = absurd h

module _ (z : ByteOrder) (alloc : ℤ → Bool) (req_room resp_room : List ℕ) (client_id : ℕ)
    (m : Method) (default : m.Resp) (f : IsFaithful m) where
  -- A task's way: its request is written and read, dispatched and answered, the answer is written and read, and the task
  -- that comes back gives the caller `r`. `reqs` and `resps` are what stands behind in the two streams.
  abbrev pub Travels :
      ServiceStatic
      → Timer ApiClientReq
      → ApiClientReq
      → List ℕ
      → List ℕ
      → Result (RpcError m.Err) m.Resp
      → Type 0
  Travels mux timer t reqs resps r =
      (sent : Request) × (got : RpcSvrReq) × (a : ApiServerResp) × (p : Response)
      × (u : ApiClientReq) × (Request.encode z api_task req_room client_id t ≡ ok sent)
      × (read_req z alloc false (sent.buf ++ (blob_bytes sent.blob ++ reqs))
          ≡ ok (record { req = got; rest = reqs }))
      × (inline_dispatch mux got ≡ ok a)
      × (Response.encode z api_resp resp_room a ≡ ok p)
      × let x = read_resp api_task alloc z false timer (p.buf ++ (blob_bytes p.blob ++ resps)) in
        (x.errors ++ x.dones ≡ u ∷ [])
        × (x.rest ≡ resps)
        × (tasks x.timer ≡ erase_seq api_task t.seq (tasks timer))
        × (received_task m.resp_codec default m.err_codec (some u) ≡ r)

  api_task-Writes : (t : ApiClientReq) (bs : List ℕ) → t.req_msg ≡ some bs → Writes z api_task t bs
  unfolding api_task
  api_task-Writes t bs h out = ground (arith, h)

  -- A call over a connection, byte by byte: what the client writes for the task, the server reads,
  -- dispatches and answers; what it writes, the client reads; one task is handed over, and its caller
  -- gets what the method gives. Both streams stand behind what was read, and the timer keeps its other
  -- tasks. It holds if the task awaits its response; its action is UTF-8 text, the service's name, in
  -- which there is no dot, a dot and the method's name; the service is the last one of this name that
  -- was added to the mux, and the method its first of this name; the codecs read back what they write;
  -- the numbers, the message and the answer fit the headers; the allocation for a blob of no bytes
  -- succeeds; and the method does not panic.
  pub wire_call :
      (older newer : List ServiceStatic) (name : List ℕ) (before after : List Method)
      (timer : Timer ApiClientReq) (t : ApiClientReq) (arg : m.Arg) (bs reqs resps : List ℕ)
      → All (λ x. x ≢ 46) name
      → All (λ s. s.service_name ≢ name) newer
      → All (λ k. k.method_name ≢ m.method_name) before
      → t.action ≡ name ++ (46 ∷ m.method_name)
      → t.req_msg ≡ some bs
      → m.arg_codec.encode arg ≡ ok bs
      → Answerable m (m.call arg)
      → Arrives (str t.action)
      → length req_room ≡ 32
      → length resp_room ≡ 20
      → client_id < 2 ^ 64
      → t.seq < 2 ^ 64
      → length bs < 2 ^ 32
      → alloc (pos 0) ≡ true
      → Awaited api_task alloc timer t.seq
      → lookup_seq api_task t.seq (tasks timer) ≡ some t
      → Travels
          (mux_service (added (newer ++ (service name (before ++ (m ∷ after)) ∷ older))))
          timer
          t
          reqs
          resps
          (m.call arg)
  unfolding api_task
  wire_call older newer name before after timer t arg bs reqs resps hd hs hm ea eq eb fit arr l32
        l20 hc ht hl al w found =
      let got : RpcSvrReq = record { seq = t.seq; action = str t.action; msg = bs; blob = none } in
      let q : ApiServerReq = record {
        seq = t.seq;
        service = name;
        method = m.method_name;
        req = some bs;
      } in
      let (sent, es, er) =
        read_req-encode z alloc api_task req_room client_id t bs reqs l32 (api_task-Writes t bs eq)
          arr hc ht hl (omega arith) al in
      let served =
        inline_dispatch-served older newer name before after m got arg hd hs hm (ap str ea)
          (f.args arg bs eb) in
      let (a, ed, ew, sa) = answered-Sendable m q (m.call arg) fit in
      let (p, u, ep, (one, r, kept, ex)) =
        delivers z alloc resp_room timer t a resps l20 ew ht w found sa in
      let back = got_answer m default f t q (m.call arg) (Answerable-panic m (m.call arg) fit) in
      (
        sent,
        got,
        a,
        p,
        u,
        es,
        er,
        served ∙ ed,
        ep,
        (
          one,
          r,
          kept,
          ap (received_task m.resp_codec default m.err_codec)
                (sym ex ∙ ap (exchange_answer t) (sym ed))
              ∙ back,
        ),
      )
