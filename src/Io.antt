-- ===== src/Io.antt =====
-- The byte streams that the program reads and writes through tokio (`AsyncReadExt`,
-- `AsyncWriteExt`), as interfaces: what is under way is a list of bytes, and the laws are the
-- documented behaviour of `read_exact`, `write_all` and `flush`. A read may only fail where too few
-- bytes come before the end of the stream; a write may fail at any time.
use sentinel_video_receiver.Prelude.{
  ℕ, ◌≤◌, ◌<◌, ◌≡◌, refl, ◌∙◌, ap, arith, ◌++◌, length, length-append, take, drop, take-append,
  drop-append, Bytes, Outcome, ok, err, if◌then◌else◌, ltb, le→ltb, lt→ltb,
}

pub record Reader : Type 1 where
  pub State : Type 0
  pub Error : Type 0
  -- The bytes that come before the end of the stream.
  pub pending : State → Bytes
  pub read_exact : State → ℕ → Outcome Error (Bytes × State)
  pub read_exact_full :
      (s : State) (n : ℕ)
      → n ≤ length (pending s)
      → (s' : State) × (read_exact s n ≡ ok (take n (pending s), s'))
        × (pending s' ≡ drop n (pending s))
  pub read_exact_short :
      (s : State) (n : ℕ) → length (pending s) < n → (e : Error) × (read_exact s n ≡ err e)

pub record Writer : Type 1 where
  pub State : Type 0
  pub Error : Type 0
  -- The bytes handed over so far.
  pub written : State → Bytes
  pub write_all : State → Bytes → Outcome Error State
  pub flush : State → Outcome Error State
  pub write_all-ok :
      (s : State) (bytes : Bytes) {s' : State}
      → write_all s bytes ≡ ok s'
      → written s' ≡ written s ++ bytes
  pub flush-ok : (s : State) {s' : State} → flush s ≡ ok s' → written s' ≡ written s

-- A read that finds what it wants in front of what is pending.
pub read_prefix :
    (r : Reader) (s : r.State) (xs rest : Bytes)
    → r.pending s ≡ xs ++ rest
    → (s' : r.State) × (r.read_exact s (length xs) ≡ ok (xs, s')) × (r.pending s' ≡ rest)
read_prefix r s xs rest h =
    let room : length xs ≤ length (r.pending s) =
      omega (arith, ap length h, length-append xs rest) in
    let (s', read, left) = r.read_exact_full s (length xs) room in
    (
      s',
      read ∙ rw (h, take-append (length xs) xs rest refl),
      left ∙ rw (h, drop-append (length xs) xs rest refl),
    )

-- A stream of known bytes, and a sink that never fails: the laws can be met.
pub data Eof : Type 0 where
  unexpected_eof : Eof

unfoldable pub list_read : Bytes → ℕ → Outcome Eof (Bytes × Bytes)
list_read s n = if ltb (length s) n then err unexpected_eof else ok (take n s, drop n s)

pub list_read_full :
    (s : Bytes) (n : ℕ)
    → n ≤ length s
    → (s' : Bytes) × (list_read s n ≡ ok (take n s, s')) × (s' ≡ drop n s)
unfolding list_read
list_read_full s n h = (drop n s, rw (le→ltb n (length s) h), refl)

pub list_read_short : (s : Bytes) (n : ℕ) → length s < n → (e : Eof) × (list_read s n ≡ err e)
unfolding list_read
list_read_short s n h = (unexpected_eof, rw (lt→ltb (length s) n h))

abbrev pub list_reader : Reader
list_reader = record {
  State = Bytes;
  Error = Eof;
  pending = λ s. s;
  read_exact = list_read;
  read_exact_full = list_read_full;
  read_exact_short = list_read_short;
}

unfoldable pub list_write : Bytes → Bytes → Outcome Eof Bytes
list_write s bytes = ok (s ++ bytes)

pub list_write-ok : (s bytes : Bytes) {s' : Bytes} → list_write s bytes ≡ ok s' → s' ≡ s ++ bytes
unfolding list_write
list_write-ok s bytes h = cc

unfoldable pub list_flush : Bytes → Outcome Eof Bytes
list_flush s = ok s

pub list_flush-ok : (s : Bytes) {s' : Bytes} → list_flush s ≡ ok s' → s' ≡ s
unfolding list_flush
list_flush-ok s h = cc

abbrev pub list_writer : Writer
list_writer = record {
  State = Bytes;
  Error = Eof;
  written = λ s. s;
  write_all = list_write;
  flush = list_flush;
  write_all-ok = list_write-ok;
  flush-ok = list_flush-ok;
}
