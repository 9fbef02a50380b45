-- ===== src/Server/Pipeline.antt =====
-- stream/src/client/stream.rs and stream/src/server/server.rs: requests that a client writes one behind the other.
use razor_rpc.Prelude.{
  ℕ, suc, ◌^◌, ◌<◌, ◌≡◌, refl, ap, ◌∙◌, Bool, true, List, [], ◌∷◌, ◌++◌, map, ok, err, length, All,
}
use razor_rpc.Prelude.Int.{ℤ, pos}
use razor_rpc.Layout.{ByteOrder}
use razor_rpc.Task.{ClientTask}
use razor_rpc.Proto.Request
use razor_rpc.Proto.Request.{Request, blob_size}
use razor_rpc.Proto.Request.Laws.{Writes}
use razor_rpc.Tcp.Stream.{blob_bytes}
use razor_rpc.Tcp.Server.{RpcSvrReq}
use razor_rpc.Tcp.Server.ReadLaws.{Arrives, received_blob, read_req-encode}
use razor_rpc.Server.{Channels, RespNoti, Answer}
use razor_rpc.Server.Dispatch.{Dispatch}
use razor_rpc.Server.Loop.{reader_run}
use razor_rpc.Server.Turns.{answered, AnswersAtOnce, Arriving, no_more, next, reader_run-answers}

module _ {T : Type 0} (c : ClientTask T) (z : ByteOrder) (alloc : ℤ → Bool) (room : List ℕ)
    (client_id : ℕ) where
  -- That `s` is what the client writes for these tasks, one behind the other, and then `rest`.
  pub data Written : List T → List ℕ → List ℕ → Type 0 where
    all_written : {rest : List ℕ} → Written [] rest rest
    then_written :
        {t : T} {ts : List T} {s rest : List ℕ} (q : Request)
        → Request.encode z c room client_id t ≡ ok q
        → Written ts s rest
        → Written (t ∷ ts) (q.buf ++ (blob_bytes q.blob ++ s)) rest

  -- A task that fits its header, and whose action arrives as it was sent.
  pub record Ready (t : T) : Type 0 where
    pub msg : List ℕ
    pub writes : Writes z c t msg
    pub action : Arrives (c.get_action t)
    pub seq_fits : c.seq t < 2 ^ 64
    pub msg_fits : length msg < 2 ^ 32
    pub blob_fits : blob_size (c.get_req_blob t) < 2 ^ 31
    pub room_for_blob : alloc (pos (blob_size (c.get_req_blob t))) ≡ true

  module _ (twenty : length room ≡ 32) (fits : client_id < 2 ^ 64) where
    -- Written requests arrive, in their order.
    Written-Arriving :
        (ts : List T) (rest : List ℕ)
        → All Ready ts
        → (s : List ℕ) × Written ts s rest
          × (reqs : List RpcSvrReq) × Arriving z alloc s reqs rest
          × (map (λ q. q.seq) reqs ≡ map c.seq ts)
          × (length reqs ≡ length ts)
    Written-Arriving [] rest h = (rest, all_written, [], no_more, refl, refl)
    Written-Arriving (t ∷ ts) rest (h, hs) =
        let (s, w, reqs, a, e, l) = Written-Arriving ts rest hs in
        let (q, eq, r) =
          read_req-encode z alloc c room client_id t h.msg s twenty h.writes h.action fits
            h.seq_fits h.msg_fits h.blob_fits h.room_for_blob in
        let req : RpcSvrReq = record {
          seq = c.seq t;
          action = c.get_action t;
          msg = h.msg;
          blob = received_blob (c.get_req_blob t);
        } in
        (
          q.buf ++ (blob_bytes q.blob ++ s),
          then_written q eq w,
          req ∷ reqs,
          next r a,
          rw e refl,
          ap suc l,
        )

    -- If each task is ready, the dispatcher answers each request at once or refuses it, and the writer is there: what the client writes for the
    -- tasks, one behind the other, a reader that is stopped behind them has answered with exactly one answer for each task,
    -- by its number and in their order, and it has read no more.
    pub pipelined :
        {R : Type 0} (number : R → ℕ) (d : Dispatch R) (noti : RespNoti) (ts : List T)
        (cs : Channels R) (rest : List ℕ)
        → ((req : RpcSvrReq) (ds : Channels R)
            → (ds noti.channel).has_writer ≡ true
            → AnswersAtOnce number d req noti ds)
        → (cs noti.channel).has_writer ≡ true
        → All Ready ts
        → (s : List ℕ) × Written ts s rest
          × let r = reader_run d noti z alloc (length ts) cs s in
            (out : List (Answer R)) × (map (answered number) out ≡ map c.seq ts)
            × ((r.channels noti.channel).answers ≡ (cs noti.channel).answers ++ out)
            × (r.rest ≡ rest)
            × (r.res ≡ err tt)
    pipelined number d noti ts cs rest h w fit =
        let (s, written, reqs, a, e, l) = Written-Arriving ts rest fit in
        let (out, n, p, others, x, y) =
          reader_run-answers number d z alloc noti reqs cs s rest h w a in
        (s, written, rw (← l) (out, n ∙ e, p, x, y))
