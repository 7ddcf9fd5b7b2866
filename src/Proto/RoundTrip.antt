-- ===== src/Proto/RoundTrip.antt =====
-- What `write_msg` sends, `read_msg` reads.
use sentinel_video_receiver.Prelude.{
  ℕ, ◌≤◌, ◌<◌, ◌≡◌, refl, sym, ap, ◌∙◌, [], ◌∷◌, ◌++◌, arith, length, take, append_assoc, word16,
  word32, be16_lem, be32_lem, Safe, ◌⊎◌, Bool-cases, inl, inr, length-take, dec_lt, be16, be32,
  le→ltb, lt→ltb, Bytes, Outcome, ok, err, map_err, append-cancel, ok-bind, map_err-eq-ok, bail_if,
  ltb, not, is_empty, if◌then◌else◌,
}
use sentinel_video_receiver.Io.{Reader, Writer, read_prefix}
use sentinel_video_receiver.Proto.{
  Msg, MsgError, io, payload_too_large, max_len, header_bytes, write_msg, read_msg, encode_gap,
  decode_gap,
}

pub record Fits (m : Msg) : Type 0 where
  pub msg_type_fits : m.msg_type < 65536
  pub stream_id_fits : m.stream_id < 4294967296
  pub payload_fits : length m.payload ≤ max_len

module _ (w : Writer) where
  pub write_msg-ok :
      (s : w.State) (m : Msg) {s' : w.State}
      → write_msg w s m ≡ ok s'
      → (w.written s' ≡ w.written s ++ (header_bytes m ++ m.payload)) × (length m.payload ≤ max_len)
  unfolding write_msg
  write_msg-ok s m {s'} h =
      let (_, h, small) = ok-bind _ (bail_if (ltb max_len (length m.payload)) _) h in
      let (s1, h, sent) = ok-bind _ (map_err io (w.write_all s (header_bytes m))) h in
      let first = w.write_all-ok s (header_bytes m) (map_err-eq-ok io _ sent) in
      (rest s1 first m.payload h, ground arith)
    where
      rest :
          (s1 : w.State)
          → w.written s1 ≡ w.written s ++ header_bytes m
          → (p : Bytes)
          → (if not (is_empty p) then map_err io (w.write_all s1 p) else ok s1) ≡ ok s'
          → w.written s' ≡ w.written s ++ (header_bytes m ++ p)
      rest s1 e [] h = let same : s1 ≡ s' = cc in rw (← same) e
      rest s1 e (b ∷ bs) h =
          w.write_all-ok s1 (b ∷ bs) (map_err-eq-ok io _ h)
          ∙ ap (λ (l : Bytes). l ++ (b ∷ bs)) e
          ∙ append_assoc (w.written s) (header_bytes m) (b ∷ bs)

module _ (r : Reader) where
  payload_step :
      (s : r.State) (p rest : Bytes)
      → r.pending s ≡ p ++ rest
      → (s' : r.State) × ((if ltb 0 (length p)
            then map_err {F = MsgError r.Error} io (r.read_exact s (length p))
            else ok ([], s))
          ≡ ok (p, s'))
        × (r.pending s' ≡ rest)
  payload_step s [] rest h = (s, refl, h)
  payload_step s (b ∷ bs) rest h =
      let (s', read, left) = read_prefix r s (b ∷ bs) rest h in
      (s', rw (lt→ltb 0 (length (b ∷ bs)) (omega arith), read), left)

  pub read_msg-header_bytes :
      (s : r.State) (m : Msg) (rest : Bytes)
      → Fits m
      → r.pending s ≡ header_bytes m ++ (m.payload ++ rest)
      → (s' : r.State) × (read_msg r s ≡ ok (m, s')) × (r.pending s' ≡ rest)
  unfolding read_msg header_bytes be16 be32
  read_msg-header_bytes s m rest f h =
      let (s1, first, left) = read_prefix r s (header_bytes m) (m.payload ++ rest) h in
      let (s', read, left') = payload_step s1 m.payload rest left in
      let msg_type : word16 (header_bytes m) 6 ≡ m.msg_type = omega arith in
      let stream_id : word32 (header_bytes m) 8 ≡ m.stream_id = omega arith in
      let len : word32 (header_bytes m) 12 ≡ length m.payload = omega arith in
      (s', rw (first, msg_type, stream_id, len, le→ltb _ _ f.payload_fits, read), left')

-- Let `write_msg` succeed with a message whose fields fit their words, and let the bytes that it
-- appended to the stream, with any bytes behind them, be what a reader has pending. Then `read_msg`
-- succeeds, returns the message, and leaves exactly the bytes behind.
pub read_msg-write_msg :
    (w : Writer) (r : Reader) (s : w.State) (t : r.State) (m : Msg) (sent rest : Bytes)
    {s' : w.State}
    → m.msg_type < 65536
    → m.stream_id < 4294967296
    → write_msg w s m ≡ ok s'
    → w.written s' ≡ w.written s ++ sent
    → r.pending t ≡ sent ++ rest
    → (t' : r.State) × (read_msg r t ≡ ok (m, t')) × (r.pending t' ≡ rest)
read_msg-write_msg w r s t m sent rest a b h e p =
    let (appended, small) = write_msg-ok w s m h in
    let same = append-cancel (w.written s) sent (header_bytes m ++ m.payload) (sym e ∙ appended) in
    read_msg-header_bytes r t m rest
      (record { msg_type_fits = a; stream_id_fits = b; payload_fits = small })
      (p ∙ rw same (append_assoc (header_bytes m) m.payload rest))

-- A payload over the limit is refused before anything is written.
pub write_msg_too_large :
    (w : Writer) (s : w.State) (m : Msg)
    → max_len < length m.payload
    → write_msg w s m ≡ err (payload_too_large (length m.payload))
unfolding write_msg
write_msg_too_large w s m h = rw (lt→ltb max_len (length m.payload) h)

-- `decode_gap` reads back the two sequence numbers that `encode_gap` wrote.
pub decode_gap-encode_gap :
    (a b : ℕ) → a < 65536 → b < 65536 → decode_gap (encode_gap a b) ≡ ok (a, b)
unfolding decode_gap encode_gap be16
decode_gap-encode_gap a b h k = ground arith

-- The second read of `read_msg`.
payload_cases :
    (r : Reader) (n : ℕ) (s : r.State)
    → let m : Outcome (MsgError r.Error) (Bytes × r.State) =
        if ltb 0 n then map_err io (r.read_exact s n) else ok ([], s) in
      ((q : Bytes × r.State) × (m ≡ ok q)) ⊎ ((e : MsgError r.Error) × (m ≡ err e))
payload_cases r n s = elim (Bool-cases (ltb 0 n)) [
  | inr no_bytes ↦ inl (([], s), rw no_bytes)
  | inl some_bytes ↦ elim (dec_lt (length (r.pending s)) n) [
    | yes short ↦
        let (e, failed) = r.read_exact_short s n short in inr (io e, rw (some_bytes, failed))
    | no long ↦
        let (s', read, _) = r.read_exact_full s n (omega arith) in
        inl ((take n (r.pending s), s'), rw (some_bytes, read))
  ]
]

-- Whatever a reader holds, `read_msg` indexes no byte outside the header that it has read: it
-- returns a message or an error value.
pub read_msg-Safe : (r : Reader) (s : r.State) → Safe (read_msg r s)
unfolding read_msg
read_msg-Safe r s = elim (dec_lt (length (r.pending s)) 16) [
  | yes short ↦ let (e, failed) = r.read_exact_short s 16 short in rw failed tt
  | no long ↦
      let (s', read, _) = r.read_exact_full s 16 (omega arith) in
      let header = take 16 (r.pending s) in
      let size : length header ≡ 16 = omega (arith, length-take 16 (r.pending s)) in
      rw
        (
          read,
          be32_lem {E = MsgError r.Error} header 0 (omega arith),
          be16_lem {E = MsgError r.Error} header 4 (omega arith),
          be16_lem {E = MsgError r.Error} header 6 (omega arith),
          be32_lem {E = MsgError r.Error} header 8 (omega arith),
          be32_lem {E = MsgError r.Error} header 12 (omega arith),
        )
        (ground (arith, payload_cases r (word32 header 12) s'))
]
