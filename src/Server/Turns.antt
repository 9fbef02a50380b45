-- ===== src/Server/Turns.antt =====
-- stream/src/server/server.rs: a reader whose dispatcher answers at once answers every request.
use razor_rpc.Prelude.{
  ℕ, suc, ◌≡◌, refl, sym, ◌∙◌, Bool, true, false, List, [], ◌∷◌, ◌++◌, map, Option, none, some, ok,
  err, arith, length, append_assoc, append-nil, inl, inr, ◌⊎◌, Bool-cases,
}
use razor_rpc.Prelude.Int.{ℤ}
use razor_rpc.Layout.{ByteOrder}
use razor_rpc.Error.{RpcIntErr}
use razor_rpc.Error
use razor_rpc.Tcp.Server.{RpcSvrReq, read_req}
use razor_rpc.Server.{Channels, RespNoti, Answer, task, quick, push, send_err}
use razor_rpc.Server.Dispatch.{Dispatch}
use razor_rpc.Server.Loop.{is_ping, send_quick_resp, reader_turn, reader_run}
use razor_rpc.Server.Answers.{Sends, Sends-push}

-- The number that an answer is for, by that of a task.
abbrev pub answered : {R : Type 0} → (R → ℕ) → Answer R → ℕ
answered number (task x) = number x
answered number (quick seq e) = seq

module _ (z : ByteOrder) (alloc : ℤ → Bool) where
  -- That a stream starts with these requests, and what is behind them.
  pub data Arriving : List ℕ → List RpcSvrReq → List ℕ → Type 0 where
    no_more : {s : List ℕ} → Arriving s [] s
    next :
        {s s1 rest : List ℕ} {req : RpcSvrReq} {reqs : List RpcSvrReq}
        → read_req z alloc false s ≡ ok (record { req = req; rest = s1 })
        → Arriving s1 reqs rest
        → Arriving s (req ∷ reqs) rest

module _ {R : Type 0} (number : R → ℕ) (d : Dispatch R) where
  -- A dispatcher that answers a request by its number before it returns, or returns an error and
  -- leaves the channels as they are.
  pub data AnswersAtOnce (req : RpcSvrReq) (noti : RespNoti) (cs : Channels R) : Type 0 where
    answers :
        (x : R)
        → number x ≡ req.seq
        → (d.dispatch_req req noti cs).res ≡ ok tt
        → Sends cs (d.dispatch_req req noti cs).channels noti (task x)
        → AnswersAtOnce req noti cs
    refuses :
        (d.dispatch_req req noti cs).res ≡ err tt
        → (d.dispatch_req req noti cs).channels ≡ cs
        → AnswersAtOnce req noti cs

  send_quick_lem :
      (noti : RespNoti) (cs : Channels R) (seq : ℕ) (e : Option RpcIntErr)
      → (cs noti.channel).has_writer ≡ true
      → send_quick_resp d noti cs seq e
        ≡ record { channels = push cs noti (quick seq e); res = ok tt }
  unfolding send_quick_resp send_err
  send_quick_lem noti cs seq e w = ground (arith, w)

  -- What a turn comes to: it succeeds with one answer of this number.
  abbrev pub Turns : RespNoti → Channels R → RpcSvrReq → Type 0
  Turns noti cs req =
      (a : Answer R) × (answered number a ≡ req.seq)
      × ((reader_turn d noti cs req).res ≡ ok tt)
      × Sends cs (reader_turn d noti cs req).channels noti a

  turn-ping :
      (noti : RespNoti) (cs : Channels R) (req : RpcSvrReq)
      → is_ping req ≡ true
      → reader_turn d noti cs req ≡ send_quick_resp d noti cs req.seq none
  unfolding reader_turn
  turn-ping noti cs req p = rw p refl

  turn-answers :
      (noti : RespNoti) (cs : Channels R) (req : RpcSvrReq)
      → is_ping req ≡ false
      → (d.dispatch_req req noti cs).res ≡ ok tt
      → reader_turn d noti cs req
        ≡ record { channels = (d.dispatch_req req noti cs).channels; res = ok tt }
  unfolding reader_turn
  turn-answers noti cs req p e = rw (p, e) refl

  turn-refuses :
      (noti : RespNoti) (cs : Channels R) (req : RpcSvrReq)
      → is_ping req ≡ false
      → (d.dispatch_req req noti cs).res ≡ err tt
      → reader_turn d noti cs req
        ≡ send_quick_resp d noti (d.dispatch_req req noti cs).channels req.seq (some Error.decode)
  unfolding reader_turn
  turn-refuses noti cs req p e = rw (p, e) refl

  pub turn_lem :
      (noti : RespNoti) (cs : Channels R) (req : RpcSvrReq)
      → (cs noti.channel).has_writer ≡ true
      → AnswersAtOnce req noti cs
      → Turns noti cs req
  turn_lem noti cs req w h = split (Bool-cases (is_ping req)) h
    where
      split :
          (is_ping req ≡ true) ⊎ (is_ping req ≡ false)
          → AnswersAtOnce req noti cs
          → Turns noti cs req
      split (inl p) h =
          rw (turn-ping noti cs req p, send_quick_lem noti cs req.seq none w)
            (quick req.seq none, refl, refl, Sends-push cs noti (quick req.seq none))
      split (inr p) (answers x n e s) = rw (turn-answers noti cs req p e) (task x, n, refl, s)
      split (inr p) (refuses e k) =
          let a : Answer R = quick req.seq (some Error.decode) in
          rw (turn-refuses noti cs req p e, k, send_quick_lem noti cs req.seq (some Error.decode) w)
            (a, refl, refl, Sends-push cs noti a)

  module _ (z : ByteOrder) (alloc : ℤ → Bool) where
    run-next :
        (noti : RespNoti) (n : ℕ) (cs cs1 : Channels R) (s s1 : List ℕ) (req : RpcSvrReq)
        → read_req z alloc false s ≡ ok (record { req = req; rest = s1 })
        → (reader_turn d noti cs req).res ≡ ok tt
        → (reader_turn d noti cs req).channels ≡ cs1
        → reader_run d noti z alloc (suc n) cs s ≡ reader_run d noti z alloc n cs1 s1
    unfolding reader_run
    run-next noti n cs cs1 s s1 req e t k = ground (arith, e, t, k)

    run-end :
        (noti : RespNoti) (cs : Channels R) (s : List ℕ)
        → reader_run d noti z alloc 0 cs s ≡ record { channels = cs; rest = s; res = err tt }
    unfolding reader_run read_req
    run-end noti cs s = refl

    chain : {A : Type 0} {P : Type 0} {x y w : A} → P ⊎ (x ≡ y) → P ⊎ (y ≡ w) → P ⊎ (x ≡ w)
    chain (inl p) k = inl p
    chain (inr e) (inl p) = inl p
    chain (inr e) (inr k) = inr (e ∙ k)

    -- If the dispatcher answers each request at once or refuses it, and the writer is there, a reader
    -- that is stopped behind the requests on its stream has put exactly one answer for each of them on
    -- its channel, in their order, pings and refused requests included, and none on another channel.
    pub reader_run-answers :
        (noti : RespNoti) (reqs : List RpcSvrReq) (cs : Channels R) (s rest : List ℕ)
        → ((req : RpcSvrReq) (ds : Channels R)
            → (ds noti.channel).has_writer ≡ true
            → AnswersAtOnce req noti ds)
        → (cs noti.channel).has_writer ≡ true
        → Arriving z alloc s reqs rest
        → let r = reader_run d noti z alloc (length reqs) cs s in
          (out : List (Answer R)) × (map (answered number) out ≡ map (λ q. q.seq) reqs)
          × ((r.channels noti.channel).answers ≡ (cs noti.channel).answers ++ out)
          × ((i : ℕ) → (i ≡ noti.channel) ⊎ (r.channels i ≡ cs i))
          × (r.rest ≡ rest)
          × (r.res ≡ err tt)
    reader_run-answers noti [] cs s _ h w no_more =
        rw (run-end noti cs s)
          ([], refl, sym (append-nil (cs noti.channel).answers), (λ i. inr refl), refl, refl)
    reader_run-answers noti (req ∷ reqs) cs s rest h w (next {s1 = s1} e k) =
        let (a, n, t, sends) = turn_lem noti cs req w (h req cs w) in
        let cs1 = (reader_turn d noti cs req).channels in
        let (out, m, p, o, x, y) =
          reader_run-answers noti reqs cs1 s1 rest h (sends.writer ∙ w) k in
        rw (run-next noti (length reqs) cs cs1 s s1 req e t refl) (
          a ∷ out,
          cc,
          p ∙ rw sends.sent (append_assoc (cs noti.channel).answers (a ∷ []) out),
          (λ i. chain (o i) (sends.others i)),
          x,
          y,
        )
