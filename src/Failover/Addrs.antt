-- ===== src/Failover/Addrs.antt =====
-- stream/src/client/failover.rs: adding one address, and exchanging all of them.
use razor_rpc.Prelude.{
  ℕ, zero, suc, ◌^◌, ◌<◌, ◌≢◌, ◌≡◌, refl, List, [], ◌∷◌, Option, none, some, map, get_elem?,
  bytes_eq_sound, bytes_eq_refl, arith, ap,
}
use razor_rpc.Pool.{ConnPool, get_addr, spawn, size_of_channel}
use razor_rpc.Pool
use razor_rpc.Failover.{
  FailoverTask, FailoverPool, Added, next_ver, get_by_addr, get_or_add_addr, map_of, map_remove,
  build_pools, update_addrs, new_pool,
}

module _ {T : Type 0} where
  -- The address of the pool at a place.
  abbrev pub addr_at : List (ConnPool (FailoverTask T)) → ℕ → Option (List ℕ)
  addr_at pools i = elim (get_elem? pools i) [ none ↦ none | some p ↦ some (get_addr p) ]

  get_by_addr-some :
      (pools : List (ConnPool (FailoverTask T))) (addr : List ℕ) (i : ℕ)
      → get_by_addr pools addr ≡ some i
      → addr_at pools i ≡ some addr
  unfolding get_by_addr
  get_by_addr-some [] addr i e = absurd (ground (arith, e))
  get_by_addr-some (p ∷ ps) addr zero e = ground (arith, bytes_eq_sound (get_addr p) addr, e)
  get_by_addr-some (p ∷ ps) addr (suc i) e = ground (arith, get_by_addr-some ps addr i, e)

  new_addr : (f : FailoverPool T) (addr : List ℕ) → get_addr (new_pool f addr) ≡ addr
  unfolding new_pool Pool.new spawn
  new_addr f addr = refl

  get_by_addr_head :
      (p : ConnPool (FailoverTask T)) (ps : List (ConnPool (FailoverTask T))) (addr : List ℕ)
      → get_addr p ≡ addr
      → get_by_addr (p ∷ ps) addr ≡ some 0
  unfolding get_by_addr
  get_by_addr_head p ps addr e = ground (arith, e, bytes_eq_refl addr)

  -- The pools with a new one at the front.
  abbrev extended : FailoverPool T → List ℕ → Added T
  extended f addr = record {
    pool = record f {
      cluster = record { pools = new_pool f addr ∷ f.cluster.pools; ver = next_ver f.cluster.ver };
    };
    index = 0;
    ver = next_ver f.cluster.ver;
  }

  added_none :
      (f : FailoverPool T) (addr : List ℕ)
      → get_by_addr f.cluster.pools addr ≡ none
      → get_or_add_addr f addr ≡ extended f addr
  unfolding get_or_add_addr
  added_none f addr e = ground (arith, e)

  added_some :
      (f : FailoverPool T) (addr : List ℕ) (i : ℕ)
      → get_by_addr f.cluster.pools addr ≡ some i
      → get_or_add_addr f addr ≡ record { pool = f; index = i; ver = f.cluster.ver }
  unfolding get_or_add_addr
  added_some f addr i e = ground (arith, e)

  -- The place that `get_or_add_addr` returns is that of the address, in the cluster that it leaves;
  -- and asking again gives the same place and changes nothing.
  get_or_add_addr_lem :
      (f : FailoverPool T) (addr : List ℕ)
      → let a = get_or_add_addr f addr in
        (addr_at a.pool.cluster.pools a.index ≡ some addr)
        × (a.ver ≡ a.pool.cluster.ver)
        × (get_or_add_addr a.pool addr ≡ a)
  get_or_add_addr_lem f addr = split (get_by_addr f.cluster.pools addr) refl
    where
      split :
          (r : Option ℕ)
          → get_by_addr f.cluster.pools addr ≡ r
          → let a = get_or_add_addr f addr in
            (addr_at a.pool.cluster.pools a.index ≡ some addr)
            × (a.ver ≡ a.pool.cluster.ver)
            × (get_or_add_addr a.pool addr ≡ a)
      split none e =
          let found = get_by_addr_head (new_pool f addr) f.cluster.pools addr (new_addr f addr) in
          rw (added_none f addr e)
            (ap some (new_addr f addr), refl, added_some (extended f addr).pool addr 0 found)
      split (some i) e =
          rw (added_some f addr i e)
            (get_by_addr-some f.cluster.pools addr i e, refl, added_some f addr i e)

  map_remove_addr :
      (addr : List ℕ) (m : List (ConnPool (FailoverTask T))) (p : ConnPool (FailoverTask T))
      → (map_remove addr m).found ≡ some p
      → get_addr p ≡ addr
  unfolding map_remove
  map_remove_addr addr [] p e = absurd (ground (arith, e))
  map_remove_addr addr (q ∷ m) p e =
      ground (arith, bytes_eq_sound (get_addr q) addr, map_remove_addr addr m p, e)

  build_cons :
      (f : FailoverPool T) (addr : List ℕ) (addrs : List (List ℕ))
      (m : List (ConnPool (FailoverTask T)))
      → map get_addr (build_pools f addrs (map_remove addr m).rest) ≡ addrs
      → map get_addr (build_pools f (addr ∷ addrs) m) ≡ addr ∷ addrs
  unfolding build_pools
  build_cons f addr addrs m h = split (map_remove addr m).found refl
    where
      split :
          (r : Option (ConnPool (FailoverTask T)))
          → (map_remove addr m).found ≡ r
          → map get_addr (build_pools f (addr ∷ addrs) m) ≡ addr ∷ addrs
      split none e = ground (arith, e, h, new_addr f addr)
      split (some p) e = ground (arith, e, h, map_remove_addr addr m p e)

  build_addrs :
      (f : FailoverPool T) (addrs : List (List ℕ)) (m : List (ConnPool (FailoverTask T)))
      → map get_addr (build_pools f addrs m) ≡ addrs
  unfolding build_pools
  build_addrs f [] m = refl
  build_addrs f (addr ∷ addrs) m =
      build_cons f addr addrs m (build_addrs f addrs (map_remove addr m).rest)

  -- After `update_addrs`, from a version that fits a u64, the pools are those of the given addresses, in the given order, and the
  -- version is another one.
  update_addrs_lem :
      (f : FailoverPool T) (addrs : List (List ℕ))
      → f.cluster.ver < 2 ^ 64
      → let c = (update_addrs f addrs).cluster in
        (map get_addr c.pools ≡ addrs) × (c.ver ≢ f.cluster.ver)
  unfolding update_addrs
  update_addrs_lem f addrs h = (build_addrs f addrs (map_of f.cluster.pools []), omega arith)
