-- ===== src/Server/Graceful/Recover.antt =====
-- stream/src/server/graceful.rs: a restarted program takes over the sockets of its parent.
use razor_rpc.Prelude.{
  length, ℕ, ◌^◌, ◌<◌, ◌≡◌, ◌≢◌, ◌∙◌, refl, sym, ap, true, false, List, [], ◌∷◌, ◌++◌, map,
  append-nil, append_assoc, ok, panic, All, arith,
}
use razor_rpc.Prelude.Int.{ℤ, pos}
use razor_rpc.Server.Decimal.{to_string, split, join, split_first, parse_i32}
use razor_rpc.Server.Decimal.Laws.{parse_i32-to_string, to_string-no_comma, split-join}
use razor_rpc.Server.Graceful.{
  GracefulServer, parse_fds, text, check_recover, new, Listening, new_listener, recover_listener,
  Child, child_of, sort_fds,
}

-- The descriptors of sockets, as text.
abbrev pub fd_texts : List ℕ → List (List ℕ)
fd_texts fds = map (λ n. to_string (pos n)) fds

parse_fds-fd_texts :
    (fds : List ℕ) → All (λ n. n < 2 ^ 31) fds → parse_fds (fd_texts fds) ≡ ok (map pos fds)
unfolding parse_fds
parse_fds-fd_texts [] h = refl
parse_fds-fd_texts (n ∷ ns) h = ground (arith, parse_i32-to_string n h.0, parse_fds-fd_texts ns h.1)

no_commas : (fds : List ℕ) → All (λ w. All (λ c. c ≢ 44) w) (fd_texts fds)
no_commas [] = tt
no_commas (n ∷ ns) = (to_string-no_comma n, no_commas ns)

split_fds : (n : ℕ) (ns : List ℕ) → split 44 (join 44 (fd_texts (n ∷ ns))) ≡ fd_texts (n ∷ ns)
split_fds n ns = split-join 44 (to_string (pos n)) (fd_texts ns) (no_commas (n ∷ ns))

module _ {L Io : Type 0} (l : Listening L Io) where
  -- Calls of `new_listener` for addresses, one after the other.
  abbrev pub listen_all : List (List ℕ) → GracefulServer → GracefulServer
  listen_all [] g = g
  listen_all (a ∷ rest) g = listen_all rest (new_listener l a g).0

  abbrev pub Adopts : Type 0
  Adopts = (addr : List ℕ) (fd : ℤ) → (x : L) × (l.try_from_raw_fd addr fd ≡ ok x)

  new_listener-adopt :
      (addr : List ℕ) (n : ℕ) (rest : List ℤ) (g : GracefulServer)
      → Adopts
      → g.recover_listen_fds ≡ pos n ∷ rest
      → (new_listener l addr g).0 ≡ record g {
        listen_fds = g.listen_fds ++ to_string (pos n) ∷ [];
        recover_listen_fds = rest;
      }
  unfolding new_listener recover_listener
  new_listener-adopt addr n rest g h e = let (x, k) = h addr (pos n) in ground (arith, e, k)

  listen_all_lem :
      (addrs : List (List ℕ)) (fds : List ℕ) (g : GracefulServer)
      → Adopts
      → length addrs ≡ length fds
      → g.recover_listen_fds ≡ map pos fds
      → ((listen_all addrs g).listen_fds ≡ g.listen_fds ++ fd_texts fds)
        × ((listen_all addrs g).recover_listen_fds ≡ [])
  listen_all_lem [] [] g h e r = (sym (append-nil g.listen_fds), r)
  listen_all_lem [] (n ∷ ns) g h e r = absurd (omega arith)
  listen_all_lem (a ∷ rest) [] g h e r = absurd (omega arith)
  listen_all_lem (a ∷ rest) (n ∷ ns) g h e r =
      let step = new_listener-adopt a n (map pos ns) g h r in
      let next : GracefulServer = record g {
        listen_fds = g.listen_fds ++ to_string (pos n) ∷ [];
        recover_listen_fds = map pos ns;
      } in
      let (same, none_left) = listen_all_lem rest ns next h (omega arith) refl in
      (
        ap (λ (x : GracefulServer). (listen_all rest x).listen_fds) step
            ∙ same
            ∙ append_assoc g.listen_fds (to_string (pos n) ∷ []) (fd_texts ns),
        ap (λ (x : GracefulServer). (listen_all rest x).recover_listen_fds) step ∙ none_left,
      )

check_recover-text :
    (n : ℕ) (ns : List ℕ) (g : GracefulServer)
    → All (λ k. k < 2 ^ 31) (n ∷ ns)
    → g.recover_listen_fds ≡ []
    → check_recover (text (join 44 (fd_texts (n ∷ ns)))) g
      ≡ ok (record g { recover_listen_fds = map pos (n ∷ ns); recovered = true })
unfolding check_recover
check_recover-text n ns g h e = ground (arith, split_fds n ns, parse_fds-fd_texts (n ∷ ns) h, e)

abbrev started : ℕ → List ℤ → GracefulServer
started timeout signals = record {
  listen_fds = [];
  recovered = false;
  recover_listen_fds = [];
  restart_timeout = timeout;
  close_signals = signals;
}

new-text :
    (n : ℕ) (ns : List ℕ) (timeout : ℕ) (signals : List ℤ)
    → All (λ k. k < 2 ^ 31) (n ∷ ns)
    → new timeout signals (text (join 44 (fd_texts (n ∷ ns))))
      ≡ ok (record (started timeout signals) {
        recover_listen_fds = map pos (n ∷ ns);
        recovered = true;
      })
unfolding new
new-text n ns timeout signals h = check_recover-text n ns (started timeout signals) h refl

-- The program that a server with at least one socket starts anew, if it asks for as many listeners and
-- each descriptor can be taken over: it knows that it was restarted, has the sockets of its parent, in the order
-- in which it asks for them, and none is left over.
pub restarted-takes_over :
    {L Io : Type 0} (l : Listening L Io) (parent : GracefulServer) (n : ℕ) (ns : List ℕ)
    (addrs : List (List ℕ)) (timeout : ℕ) (signals : List ℤ)
    → Adopts l
    → parent.listen_fds ≡ fd_texts (n ∷ ns)
    → All (λ k. k < 2 ^ 31) (n ∷ ns)
    → length addrs ≡ length (n ∷ ns)
    → (c : Child) × (g : GracefulServer) × (child_of parent ≡ ok c)
      × (new timeout signals c.env ≡ ok g)
      × (g.recovered ≡ true)
      × ((listen_all l addrs g).listen_fds ≡ parent.listen_fds)
      × ((listen_all l addrs g).recover_listen_fds ≡ [])
unfolding child_of
restarted-takes_over l parent n ns addrs timeout signals a e h k =
    let g : GracefulServer = record (started timeout signals) {
      recover_listen_fds = map pos (n ∷ ns);
      recovered = true;
    } in
    let (same, none_left) = listen_all_lem l addrs (n ∷ ns) g a k refl in
    (
      record {
        env = text (join 44 (fd_texts (n ∷ ns)));
        preserved_fds = sort_fds (map pos (n ∷ ns));
      },
      g,
      ground (arith, e, parse_fds-fd_texts (n ∷ ns) h),
      new-text n ns timeout signals h,
      refl,
      same ∙ sym e,
      none_left,
    )

-- A server that listens on no socket of its own can be restarted, but the program that it starts panics: it
-- reads a number out of the empty text.
pub restarted-empty :
    (parent : GracefulServer) (timeout : ℕ) (signals : List ℤ)
    → parent.listen_fds ≡ []
    → (c : Child) × (child_of parent ≡ ok c) × (new timeout signals c.env ≡ panic)
unfolding child_of new check_recover parse_fds split join split_first parse_i32
restarted-empty parent timeout signals e =
    (record { env = text []; preserved_fds = sort_fds [] }, ground (arith, e), refl)
