-- ===== src/Tcp/Stream.antt =====
-- transport/tcp/src: what both ends ask of the buffered stream of the packages orb and io_buffer.
-- A stream to read from is the list of the bytes that arrive before the peer closes or the time of
-- `io_with_timeout!` runs out: a read that wants more of them fails.
use razor_rpc.Prelude.{
  ℕ, ◌≡◌, List, [], ◌++◌, Option, none, some, Result, ok, err, ltb, length, take, drop,
  length-append, take-append, drop-append, if◌then◌else◌, arith,
}

-- The bytes that a read gives, and the stream behind them.
pub record Read : Type 0 where
  pub got : List ℕ
  pub rest : List ℕ

-- `reader.read_exact(buf)` with a buffer of `n` bytes.
unfoldable pub read_exact {κ} : {E : Type κ} → E → ℕ → List ℕ → Result E Read
read_exact e n s =
    if ltb (length s) n then err e else ok (record { got = take n s; rest = drop n s })

pub read_exact-append {κ} :
    {E : Type κ} (e : E) (n : ℕ) (xs ys : List ℕ)
    → length xs ≡ n
    → read_exact e n (xs ++ ys) ≡ ok (record { got = xs; rest = ys })
unfolding read_exact
read_exact-append e n xs ys h =
    rw (take-append n xs ys h, drop-append n xs ys h) (ground (arith, length-append xs ys))

-- A writer: `write_all` and `flush` may fail; `sent` is what has been written so far.
pub record Writer (W : Type 0) : Type 0 where
  pub write_all : W → List ℕ → Result (Unit {0}) W
  pub flush : W → Result (Unit {0}) W
  pub sent : W → List ℕ

-- What the package documents: a call that succeeds has taken all bytes, in order.
pub record IsWriter {W : Type 0} (w : Writer W) : Type 0 where
  pub write_all-sent : (s t : W) (bs : List ℕ) → w.write_all s bs ≡ ok t → w.sent t ≡ w.sent s ++ bs
  pub flush-sent : (s t : W) → w.flush s ≡ ok t → w.sent t ≡ w.sent s

-- `if let Some(blob) = ... { writer.write_all(blob) }`
unfoldable pub write_blob : {W : Type 0} → Writer W → W → Option (List ℕ) → Result (Unit {0}) W
write_blob w s none = ok s
write_blob w s (some b) = w.write_all s b

abbrev pub blob_bytes : Option (List ℕ) → List ℕ
blob_bytes none = []
blob_bytes (some b) = b
