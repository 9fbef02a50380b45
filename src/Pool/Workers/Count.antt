-- ===== src/Pool/Workers/Count.antt =====
-- Weights of tasks, and where the workers of a pool hold them.
use razor_rpc.Prelude.{ℕ, ◌+◌, ◌≡◌, refl, List, [], ◌∷◌, ◌++◌, some, arith}
use razor_rpc.Pool.{ConnPool, recv, send_req}
use razor_rpc.Pool.Workers.{Phase, got, sending, forwarding, Worker}

module _ {T : Type 0} (f : T → ℕ) where
  abbrev pub total : List T → ℕ
  total [] = 0
  total (x ∷ xs) = f x + total xs

  -- The task that a worker has in hand.
  abbrev pub in_hand : Phase T → ℕ
  in_hand (got task) = f task
  in_hand (sending task) = f task
  in_hand (forwarding task) = f task
  in_hand _ = 0

  abbrev pub held : List (Worker T) → ℕ
  held [] = 0
  held (w ∷ ws) = in_hand w.phase + held ws

  pub total-append : (xs ys : List T) → total (xs ++ ys) ≡ total xs + total ys
  total-append [] ys = omega arith
  total-append (x ∷ xs) ys = omega (arith, total-append xs ys)

  pub held-append : (xs ys : List (Worker T)) → held (xs ++ ys) ≡ held xs + held ys
  held-append [] ys = omega arith
  held-append (x ∷ xs) ys = omega (arith, held-append xs ys)

  pub total-recv :
      (p q : ConnPool T) (task : T)
      → recv p ≡ some (task, q)
      → total p.channel ≡ f task + total q.channel
  unfolding recv
  total-recv p q task h = split p.channel refl
    where
      split : (xs : List T) → p.channel ≡ xs → total p.channel ≡ f task + total q.channel
      split [] e = ground (arith, h, e)
      split (x ∷ xs) e = ground (arith, h, e)

  pub total-send_req :
      (p q : ConnPool T) (task : T)
      → send_req p task ≡ some q
      → total q.channel ≡ total p.channel + f task
  unfolding send_req
  total-send_req p q task h = ground (arith, h, total-append p.channel (task ∷ []))
