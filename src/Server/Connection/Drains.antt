-- ===== src/Server/Connection/Drains.antt =====
-- stream/src/server/server.rs: what a connection's writer comes to when the reader leaves it the time.
use razor_rpc.Prelude.{
  ℕ, ◌≡◌, ◌≢◌, ◌⊎◌, inl, inr, refl, sym, ap, subst, ◌∙◌, Bool, true, List, [], ◌∷◌, ◌++◌, map,
  arith, append-nil,
}
use razor_rpc.Prelude.Int.{ℤ}
use razor_rpc.Layout.{ByteOrder}
use razor_rpc.Task.{ServerTaskEncode}
use razor_rpc.Tcp.Stream.{Writer, IsWriter}
use razor_rpc.Tcp.Server.{RpcSvrReq}
use razor_rpc.Server.{Channels, RespNoti, Answer}
use razor_rpc.Server.Dispatch.{Dispatch}
use razor_rpc.Server.Loop.{ServerTransport, tcp_server, flush_resp}
use razor_rpc.Server.Turns.{answered, AnswersAtOnce, Arriving}
use razor_rpc.Server.Batches.{Bytes, one, Wrote, NeverFails, process_succeeds}
use razor_rpc.Server.Connection.{
  Connection, waiting, draining, closed, failed, received, waits, Open, writes, flushes, Runs,
  starts, goes_on,
}
use razor_rpc.Server.Connection.Laws.{received_lem, Serving, Runs-Serving}

module _ {R W : Type 0} (number : R → ℕ) (d : Dispatch R) (noti : RespNoti) (z : ByteOrder)
    (alloc : ℤ → Bool) (w : Writer W) (law : IsWriter w) (shutdown : W → W) (c : ServerTaskEncode R)
    (room : List ℕ) where
  abbrev server : ServerTransport R W
  server = tcp_server z w shutdown c room

  abbrev pending : Connection R W → List (Answer R)
  pending k = waits d noti z alloc server k

  -- That a connection can go on to where every request that was read is answered on the wire, and flushed.
  abbrev pub AllAnswered : Connection R W → Connection R W → Type 0
  AllAnswered k e =
      (g : Connection R W) × Runs d noti z alloc server e g
      × (reqs : List RpcSvrReq) × Arriving z alloc k.unread reqs e.unread
      × (gone : List (Answer R)) × (map (answered number) gone ≡ map (λ q. q.seq) reqs)
      × Wrote z w law shutdown c room k.wire g.wire gone
      × ((g.writing ≡ waiting) ⊎ (g.writing ≡ closed))

  module _ (quiet : (u : W) → w.sent (shutdown u) ≡ w.sent u)
      (at_once : (req : RpcSvrReq) (ds : Channels R)
        → (ds noti.channel).has_writer ≡ true
        → AnswersAtOnce number d req noti ds) where
    -- The writer can empty its channel.
    empties :
        (f : NeverFails z w law shutdown c room) (k e : Connection R W) (xs : List (Answer R))
        (out : List ℕ)
        → Runs d noti z alloc server k e
        → Open d noti z alloc server e
        → pending e ≡ xs
        → Bytes z c room xs out
        → (g : Connection R W) × Runs d noti z alloc server k g
          × (g.unread ≡ e.unread)
          × (pending g ≡ [])
          × (g.writing ≡ waiting)
    unfolding tcp_server flush_resp
    empties f k e [] out r (inl o) h b = (e, r, refl, h, o)
    empties f k e [] out r (inr o) h b =
        let (v, p) = f.1 e.wire in
        (record e { wire = v; writing = waiting }, goes_on r (flushes v o h p), refl, h, refl)
    empties f k e (x ∷ xs) _ r y h (one o rest a b) =
        let (v, p) = process_succeeds z w law shutdown c room f e.wire x o a in
        let e1 : Connection R W = record e {
          channels = received e.channels noti xs;
          wire = v;
          writing = draining;
        } in
        empties f k e1 xs rest (goes_on r (writes x xs v y h p)) (inr refl)
          (received_lem e.channels noti xs).0 b

    Runs-trans :
        {k e g : Connection R W}
        → Runs d noti z alloc server k e
        → Runs d noti z alloc server e g
        → Runs d noti z alloc server k g
    Runs-trans r starts = r
    Runs-trans r (goes_on q st) = goes_on (Runs-trans r q) st

    numbers-gone :
        (gone p : List (Answer R)) (reqs : List RpcSvrReq)
        → map (answered number) (gone ++ p) ≡ map (λ q. q.seq) reqs
        → p ≡ []
        → map (answered number) gone ≡ map (λ q. q.seq) reqs
    numbers-gone gone p reqs h e =
        ap (map (answered number)) (sym (append-nil gone) ∙ ap (λ q. gone ++ q) (sym e)) ∙ h

    -- A run to a state in which the writer has not failed.
    serving :
        (k e : Connection R W)
        → pending k ≡ []
        → (k.channels noti.channel).has_writer ≡ true
        → k.writing ≡ waiting
        → Runs d noti z alloc server k e
        → e.writing ≢ failed
        → Serving number d noti z alloc w law shutdown c room k e
    serving k e h v o r n =
        elim (Runs-Serving number d noti z alloc w law shutdown c room quiet at_once k e h v o r) [
          | inl w ↦ absurd (n w)
          | inr s ↦ s
        ]

    waiting-ne-failed : (k : Connection R W) → k.writing ≡ waiting → k.writing ≢ failed
    waiting-ne-failed k h e = ground (arith, h, e)

    -- A writer keeps what it documents, shutting down sends nothing, the dispatcher answers each request
    -- at once or refuses it, and no write and no flush of the stream fails. If the writer has not ended
    -- by an answer that cannot be encoded, and what the channel holds can be encoded, then every state
    -- that a connection goes through from one with an empty channel and a waiting writer, in whatever
    -- order its reader and its writer have moved, can go on to one where each request that was read has
    -- been answered on the wire, once and in order, and flushed.
    pub conn_answers :
        (f : NeverFails z w law shutdown c room) (k e : Connection R W) (out : List ℕ)
        → pending k ≡ []
        → (k.channels noti.channel).has_writer ≡ true
        → k.writing ≡ waiting
        → Runs d noti z alloc server k e
        → e.writing ≢ failed
        → Bytes z c room (pending e) out
        → AllAnswered k e
    conn_answers f k e out h v o r n b =
        let s = serving k e h v o r n in
        elim s.kept [
          | inl y ↦
              let (g, r1, u, p, q) = empties f e e (pending e) out starts y refl b in
              let t = serving k g h v o (Runs-trans r r1) (waiting-ne-failed g q) in
              (
                g,
                r1,
                t.reqs,
                subst (Arriving z alloc k.unread t.reqs) u t.arrived,
                t.gone,
                numbers-gone t.gone (pending g) t.reqs t.numbered p,
                t.wrote,
                inl q,
              )
          | inr (y, p, q) ↦ (
            e,
            starts,
            s.reqs,
            s.arrived,
            s.gone,
            numbers-gone s.gone (pending e) s.reqs s.numbered p,
            s.wrote,
            inr y,
          )
        ]
