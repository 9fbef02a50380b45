-- ===== src/Server/Connection/Laws.antt =====
-- stream/src/server/server.rs: what a connection has answered, in any order of its reader's and its writer's steps.
use razor_rpc.Prelude.{
  ℕ, ◌≡◌, ◌⊎◌, inl, inr, refl, sym, ap, ◌∙◌, Bool, true, false, List, [], ◌∷◌, ◌++◌, map,
  map-append, ok, arith, append_assoc, append-nil,
}
use razor_rpc.Prelude.Int.{ℤ}
use razor_rpc.Layout.{ByteOrder}
use razor_rpc.Task.{ServerTaskEncode}
use razor_rpc.Tcp.Stream.{Writer, IsWriter}
use razor_rpc.Tcp.Server.{RpcSvrReq, read_req}
use razor_rpc.Server.{Channels, RespNoti, Answer}
use razor_rpc.Server.Dispatch.{Dispatch}
use razor_rpc.Server.Loop.{
  ServerTransport, reader_turn, process, tcp_server, flush_resp, close_conn,
}
use razor_rpc.Server.Turns.{answered, AnswersAtOnce, Arriving, no_more, next, turn_lem}
use razor_rpc.Server.Batches.{none_left, Wrote, Wrote-append, process-sent, close_conn-sent}
use razor_rpc.Server.Connection.{
  Connection, waiting, draining, closed, failed, write_fails, flush_fails, received, gone_writer,
  waits, Open, Step, reads, fails, stops, writes, flushes, closes, Runs, starts, goes_on,
}

gone_writer_lem :
    {R : Type 0} (cs : Channels R) (noti : RespNoti)
    → (gone_writer cs noti noti.channel).answers ≡ (cs noti.channel).answers
unfolding gone_writer
gone_writer_lem cs noti = ground arith

pub received_lem :
    {R : Type 0} (cs : Channels R) (noti : RespNoti) (left : List (Answer R))
    → ((received cs noti left noti.channel).answers ≡ left)
      × ((received cs noti left noti.channel).has_writer ≡ (cs noti.channel).has_writer)
unfolding received
received_lem cs noti left = (ground arith, ground arith)

module _ (z : ByteOrder) (alloc : ℤ → Bool) where
  Arriving-snoc :
      (s s1 rest : List ℕ) (reqs : List RpcSvrReq) (req : RpcSvrReq)
      → Arriving z alloc s reqs s1
      → read_req z alloc false s1 ≡ ok (record { req = req; rest = rest })
      → Arriving z alloc s (reqs ++ (req ∷ [])) rest
  Arriving-snoc s s1 rest [] req no_more e = next e no_more
  Arriving-snoc s s1 rest (q ∷ qs) req (next {s1 = u} a k) e =
      next a (Arriving-snoc u s1 rest qs req k e)

module _ {R W : Type 0} (number : R → ℕ) (d : Dispatch R) (noti : RespNoti) (z : ByteOrder)
    (alloc : ℤ → Bool) (w : Writer W) (law : IsWriter w) (shutdown : W → W) (c : ServerTaskEncode R)
    (room : List ℕ) where
  abbrev server : ServerTransport R W
  server = tcp_server z w shutdown c room

  abbrev pending : Connection R W → List (Answer R)
  pending k = waits d noti z alloc server k

  -- Where a connection stands: `reqs` have been read, the answers `gone` sent, and the answers to the requests are
  -- those that are gone and then those in the channel.
  pub record Serving (k e : Connection R W) : Type 0 where
    pub reqs : List RpcSvrReq
    pub gone : List (Answer R)
    pub arrived : Arriving z alloc k.unread reqs e.unread
    pub wrote : Wrote z w law shutdown c room k.wire e.wire gone
    pub numbered : map (answered number) (gone ++ pending e) ≡ map (λ q. q.seq) reqs
    pub writer : (e.reading ≡ false) ⊎ ((e.channels noti.channel).has_writer ≡ true)
    pub kept :
        Open d noti z alloc server e
        ⊎ ((e.writing ≡ closed) × (pending e ≡ []) × (e.reading ≡ false))

  numbers-snoc :
      (gone p : List (Answer R)) (a : Answer R) (reqs : List RpcSvrReq) (req : RpcSvrReq)
      → map (answered number) (gone ++ p) ≡ map (λ q. q.seq) reqs
      → answered number a ≡ req.seq
      → map (answered number) (gone ++ (p ++ (a ∷ []))) ≡ map (λ q. q.seq) (reqs ++ (req ∷ []))
  numbers-snoc gone p a reqs req h e =
      rw
        (
          ← append_assoc gone p (a ∷ []),
          map-append (answered number) (gone ++ p) (a ∷ []),
          map-append (λ (q : RpcSvrReq). q.seq) reqs (req ∷ []),
          h,
          e,
        )
        refl

  flush_sent : (s v : W) → server.flush_resp s ≡ ok v → w.sent v ≡ w.sent s
  unfolding tcp_server flush_resp
  flush_sent s v h = law.flush-sent s v h

  start-Serving :
      (k : Connection R W)
      → pending k ≡ []
      → (k.channels noti.channel).has_writer ≡ true
      → k.writing ≡ waiting
      → Serving k k
  start-Serving k h v o = record {
    reqs = [];
    gone = [];
    arrived = no_more;
    wrote = ([], none_left, sym (append-nil (w.sent k.wire)));
    numbered = rw h refl;
    writer = inr v;
    kept = inl (inl o);
  }

  module _ (quiet : (u : W) → w.sent (shutdown u) ≡ w.sent u)
      (at_once : (req : RpcSvrReq) (ds : Channels R)
        → (ds noti.channel).has_writer ≡ true
        → AnswersAtOnce number d req noti ds) where
    reader-writer :
        (k e : Connection R W)
        → Serving k e
        → e.reading ≡ true
        → (e.channels noti.channel).has_writer ≡ true
    reader-writer k e s y = ground (arith, s.writer, y)

    reader-Open :
        (k e : Connection R W) → Serving k e → e.reading ≡ true → Open d noti z alloc server e
    reader-Open k e s y = elim s.kept [ inl o ↦ o | inr (c, p, r) ↦ ground (arith, y, r) ]

    reads-Serving :
        (k e : Connection R W) (req : RpcSvrReq) (rest : List ℕ)
        → Serving k e
        → (e.channels noti.channel).has_writer ≡ true
        → e.reading ≡ true
        → read_req z alloc false e.unread ≡ ok (record { req = req; rest = rest })
        → Serving k
            (record e { channels = (reader_turn d noti e.channels req).channels; unread = rest })
    reads-Serving k e req rest s v y h =
        let (a, n, ok_turn, sends) =
          turn_lem number d noti e.channels req v (at_once req e.channels v) in
        record {
          reqs = s.reqs ++ (req ∷ []);
          gone = s.gone;
          arrived = Arriving-snoc z alloc k.unread e.unread rest s.reqs req s.arrived h;
          wrote = s.wrote;
          numbered = rw sends.sent (numbers-snoc s.gone (pending e) a s.reqs req s.numbered n);
          writer = inr (sends.writer ∙ v);
          kept = inl (reader-Open k e s y);
        }

    writes-Serving :
        (k e : Connection R W) (x : Answer R) (left : List (Answer R)) (v : W)
        → Serving k e
        → pending e ≡ x ∷ left
        → process server e.wire x ≡ ok v
        → Serving k
            (record e { channels = received e.channels noti left; wire = v; writing = draining })
    writes-Serving k e x left v s h o = record {
      reqs = s.reqs;
      gone = s.gone ++ (x ∷ []);
      arrived = s.arrived;
      wrote =
          Wrote-append z w law shutdown c room k.wire e.wire v s.gone (x ∷ []) s.wrote
            (process-sent z w law shutdown c room e.wire v x o);
      numbered =
          ap (λ p. map (answered number) ((s.gone ++ (x ∷ [])) ++ p))
            (received_lem e.channels noti left).0
          ∙ rw (append_assoc s.gone (x ∷ []) left, ← h) s.numbered;
      writer = elim s.writer [
        | inl r ↦ inl r
        | inr q ↦ inr ((received_lem e.channels noti left).1 ∙ q)
      ];
      kept = inl (inr refl);
    }

    step-Serving :
        (k e f : Connection R W)
        → Serving k e
        → Step d noti z alloc server e f
        → (f.writing ≡ failed) ⊎ Serving k f
    unfolding tcp_server close_conn
    step-Serving k e _ s (reads req rest y h o) =
        inr (reads-Serving k e req rest s (reader-writer k e s y) y h)
    step-Serving k e _ s (fails req rest y h o) =
        let (a, n, ok_turn, sends) =
          turn_lem number d noti e.channels req (reader-writer k e s y)
            (at_once req e.channels (reader-writer k e s y)) in
        ground (arith, ok_turn, o)
    step-Serving k e _ s (stops b er h) = inr (record {
      reqs = s.reqs;
      gone = s.gone;
      arrived = s.arrived;
      wrote = s.wrote;
      numbered = s.numbered;
      writer = inl refl;
      kept = elim s.kept [ inl o ↦ inl o | inr (c, p, r) ↦ inr (c, p, refl) ];
    })
    step-Serving k e _ s (writes x left v y h o) = inr (writes-Serving k e x left v s h o)
    step-Serving k e _ s (write_fails x left v y h o) = inl refl
    step-Serving k e _ s (flush_fails v g h o) = inl refl
    step-Serving k e _ s (flushes v g h o) = inr (record {
      reqs = s.reqs;
      gone = s.gone;
      arrived = s.arrived;
      wrote = (s.wrote.0, s.wrote.1, flush_sent e.wire v o ∙ s.wrote.2);
      numbered = s.numbered;
      writer = s.writer;
      kept = inl (inl refl);
    })
    step-Serving k e _ s (closes y h r) = inr (record {
      reqs = s.reqs;
      gone = s.gone;
      arrived = s.arrived;
      wrote =
          (s.wrote.0, s.wrote.1, close_conn-sent z w law shutdown c room quiet e.wire ∙ s.wrote.2);
      numbered =
          ap (λ p. map (answered number) (s.gone ++ p)) (gone_writer_lem e.channels noti)
          ∙ s.numbered;
      writer = inl r;
      kept = inr (refl, gone_writer_lem e.channels noti ∙ h, r);
    })

    -- A writer that has failed stays so.
    step-failed :
        (e f : Connection R W)
        → Step d noti z alloc server e f
        → e.writing ≡ failed
        → f.writing ≡ failed
    step-failed e _ (reads req rest y h o) w = w
    step-failed e _ (fails req rest y h o) w = w
    step-failed e _ (stops b er h) w = w
    step-failed e _ (writes x left v y h o) w = ground (arith, w, y)
    step-failed e _ (write_fails x left v y h o) w = refl
    step-failed e _ (flush_fails v g h o) w = refl
    step-failed e _ (flushes v g h o) w = ground (arith, w, g)
    step-failed e _ (closes y h r) w = ground (arith, w, y)

    -- A writer keeps what it documents, shutting down sends nothing, and the dispatcher answers each
    -- request at once or refuses it. Then in every state that a connection goes through from one with
    -- an empty channel and a waiting writer, in whatever order its reader and its writer move, unless
    -- the writer has ended by a write or a flush that failed: what has been sent is one answer for each
    -- of the first requests that were read, in their order, the channel holds the answers to the others
    -- in theirs, and while the reader reads, the writer is there and has not ended.
    pub Runs-Serving :
        (k e : Connection R W)
        → pending k ≡ []
        → (k.channels noti.channel).has_writer ≡ true
        → k.writing ≡ waiting
        → Runs d noti z alloc server k e
        → (e.writing ≡ failed) ⊎ Serving k e
    Runs-Serving k _ h v o starts = inr (start-Serving k h v o)
    Runs-Serving k f h v o (goes_on {e = e} r st) = elim (Runs-Serving k e h v o r) [
      | inl w ↦ inl (step-failed e f st w)
      | inr s ↦ step-Serving k e f s st
    ]
