-- ===== src/Buffer.antt =====
-- stream/src/buffer.rs: `AllocateBuf::reserve` for its four types. A buffer is its length and its
-- capacity; its bytes are of no account. `grown` is the capacity that `Vec::reserve` of the standard
-- library chooses, and `alloc` says whether `Buffer::alloc` of the package io_buffer succeeds.
use razor_rpc.Prelude.{
  ℕ, ◌+◌, ◌-◌, ◌^◌, ◌<◌, ◌≤◌, ◌≡◌, refl, Bool, Option, none, some, Result, ok, err, panic, ◌>>=◌,
  ltb, leb, ◌==◌, if◌then◌else◌, arith, inl, inr, ◌⊎◌,
}
use razor_rpc.Prelude.Int.{ℤ, pos, as_usize}

pub record Buf : Type 0 where
  pub len : ℕ
  pub capacity : ℕ

-- `isize::MAX`
abbrev pub isize_max : ℕ
isize_max = 2 ^ 63 - 1

-- `set_len`, which is undefined behaviour beyond the capacity: the error.
unfoldable pub set_len : Buf → ℕ → Result (Unit {0}) Buf
set_len b n = if leb n b.capacity then ok (record b { len = n }) else err tt

module _ (grown : ℕ → ℕ → ℕ) where
  -- `Vec::reserve`, by the standard library: it does nothing if the capacity is enough for `extra`
  -- elements behind the length, and panics if no capacity is.
  unfoldable pub vec_reserve : Buf → ℕ → Result (Unit {0}) Buf
  vec_reserve b extra =
      if leb (b.len + extra) b.capacity
      then ok b
      else if ltb isize_max (b.len + extra)
      then panic
      else ok (record b { capacity = grown b.capacity (b.len + extra) })

  -- `if self.capacity() < blob_len { self.reserve(blob_len - self.capacity()) }`
  make_room : Buf → ℕ → Result (Unit {0}) Buf
  make_room b n = if ltb b.capacity n then vec_reserve b (n - b.capacity) else ok b

  -- `impl AllocateBuf for Vec<u8>`
  unfoldable pub reserve_vec : Buf → ℤ → Result (Unit {0}) Buf
  unfolding make_room
  reserve_vec b blob_len =
      let n = as_usize blob_len in if b.len == n then ok b else make_room b n >>= λ c. set_len c n

  -- `Vec::with_capacity`
  with_capacity : ℕ → Result (Unit {0}) Buf
  with_capacity n = if ltb isize_max n then panic else ok (record { len = 0; capacity = grown 0 n })

  -- `impl AllocateBuf for Option<Vec<u8>>`
  unfoldable pub reserve_option_vec : Option Buf → ℤ → Result (Unit {0}) Buf
  unfolding with_capacity
  reserve_option_vec (some b) blob_len = reserve_vec b blob_len
  reserve_option_vec none blob_len =
      with_capacity (as_usize blob_len) >>= λ v. set_len v (as_usize blob_len)

-- `impl AllocateBuf for io_buffer::Buffer`; `none` refuses.
unfoldable pub reserve_buffer : Buf → ℤ → Option Buf
reserve_buffer b blob_len =
    let n = as_usize blob_len in
    if b.len == n then some b else if ltb b.capacity n then none else some (record b { len = n })

-- `impl AllocateBuf for Option<io_buffer::Buffer>`: what it holds afterwards, if it lends a slice.
unfoldable pub reserve_option_buffer : (ℤ → Bool) → Option Buf → ℤ → Option Buf
reserve_option_buffer alloc (some b) blob_len = reserve_buffer b blob_len
reserve_option_buffer alloc none blob_len =
    if alloc blob_len
    then some (record { len = as_usize blob_len; capacity = as_usize blob_len })
    else none

-- What the standard library documents of the capacity that it chooses.
abbrev pub Grows : (ℕ → ℕ → ℕ) → Type 0
Grows grown = (c n : ℕ) → n ≤ grown c n

le_or_gt : (a b : ℕ) → (a ≤ b) ⊎ (b < a)
le_or_gt a b = ground arith

module _ (grown : ℕ → ℕ → ℕ) where
  -- If the chosen capacities are no smaller than what is asked: a vector that is full, or whose
  -- capacity is large enough, lends just the blob's length, within its capacity.
  reserve_vec_fits :
      (b : Buf) (n : ℕ)
      → Grows grown
      → b.len ≤ b.capacity
      → n < 2 ^ 31
      → (b.len ≡ b.capacity) ⊎ (n ≤ b.capacity)
      → (c : Buf) × (reserve_vec grown b (pos n) ≡ ok c) × (c.len ≡ n) × (n ≤ c.capacity)
  unfolding reserve_vec vec_reserve set_len
  reserve_vec_fits b n g h k (inl full) = elim (le_or_gt n b.capacity) [
    | inl le ↦ (record b { len = n }, ground arith, refl, le)
    | inr gt ↦
        let room = g b.capacity n in
        (record { len = n; capacity = grown b.capacity n }, ground arith, refl, room)
  ]
  reserve_vec_fits b n g h k (inr le) = (record b { len = n }, ground arith, refl, le)

  -- A vector whose capacity is too small, but by no more than its free part, gets a length beyond its
  -- capacity, whatever capacities are chosen.
  pub reserve_vec_overruns :
      (b : Buf) (n : ℕ)
      → n < 2 ^ 31
      → b.len ≤ b.capacity
      → b.capacity < n
      → n - b.capacity ≤ b.capacity - b.len
      → reserve_vec grown b (pos n) ≡ err tt
  unfolding reserve_vec vec_reserve set_len
  reserve_vec_overruns b n h k lt free = ground arith
