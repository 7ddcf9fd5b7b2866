-- ===== src/Uplink/Records.antt =====
-- What `write_record` sends, `read_record` reads.
use sentinel_video_receiver.Prelude.{
  ◌≤◌, ◌≡◌, refl, sym, ap, ◌∙◌, [], ◌∷◌, ◌++◌, arith, length, append_assoc, append-nil,
  append-cancel, word32, be32, index, le→ltb, lt→ltb, Bytes, ok, map_err, ok-bind, map_err-eq-ok,
  bail_if, ltb, not, is_empty, if◌then◌else◌,
}
use sentinel_video_receiver.Io.{Reader, Writer, read_prefix}
use sentinel_video_receiver.Uplink.{
  Record, RecordError, io, max_payload, header_bytes, read_record, write_record,
}

module _ (w : Writer) where
  body_lem :
      (s : w.State) (p : Bytes) {s' : w.State}
      → (if not (is_empty p) then map_err {F = RecordError w.Error} io (w.write_all s p) else ok s)
        ≡ ok s'
      → w.written s' ≡ w.written s ++ p
  body_lem s [] {s'} h =
      let same : s' ≡ s = cc in ap w.written same ∙ sym (append-nil (w.written s))
  body_lem s (b ∷ bs) h = w.write_all-ok s (b ∷ bs) (map_err-eq-ok io _ h)

  -- When `write_record` succeeds, it has sent the header and the payload, once each.
  pub write_record-ok :
      (s : w.State) (rec : Record) {s' : w.State}
      → write_record w s rec ≡ ok s'
      → (w.written s' ≡ w.written s ++ (header_bytes rec ++ rec.payload))
        × (length rec.payload ≤ max_payload)
  unfolding write_record
  write_record-ok s rec {s'} h =
      let (_, h, small) = ok-bind _ (bail_if (ltb max_payload (length rec.payload)) _) h in
      let (s₁, h, sent) = ok-bind _ (map_err io (w.write_all s (header_bytes rec))) h in
      let first = w.write_all-ok s (header_bytes rec) (map_err-eq-ok io _ sent) in
      let (s₂, h, body) =
        ok-bind _
          (if not (is_empty rec.payload) then map_err io (w.write_all s₁ rec.payload) else ok s₁)
          h in
      let second = body_lem s₁ rec.payload body in
      let flushed = w.flush-ok s₂ (map_err-eq-ok io _ h) in
      (
        flushed
            ∙ second
            ∙ ap (λ (l : Bytes). l ++ rec.payload) first
            ∙ append_assoc (w.written s) (header_bytes rec) rec.payload,
        ground arith,
      )

module _ (r : Reader) where
  payload_lem :
      (s : r.State) (p rest : Bytes)
      → r.pending s ≡ p ++ rest
      → (s' : r.State) × ((if ltb 0 (length p)
            then map_err {F = RecordError r.Error} io (r.read_exact s (length p))
            else ok ([], s))
          ≡ ok (p, s'))
        × (r.pending s' ≡ rest)
  payload_lem s [] rest h = (s, refl, h)
  payload_lem s (b ∷ bs) rest h =
      let (s', read, left) = read_prefix r s (b ∷ bs) rest h in
      (s', rw (lt→ltb 0 (length (b ∷ bs)) (omega arith), read) refl, left)

  pub read_record-header_bytes :
      (s : r.State) (rec : Record) (rest : Bytes)
      → length rec.payload ≤ max_payload
      → r.pending s ≡ header_bytes rec ++ (rec.payload ++ rest)
      → (s' : r.State) × (read_record r s ≡ ok (rec, s')) × (r.pending s' ≡ rest)
  unfolding read_record be32 index
  read_record-header_bytes s rec rest f h =
      let (s₁, first, left) = read_prefix r s (header_bytes rec) (rec.payload ++ rest) h in
      let (s', read, left') = payload_lem s₁ rec.payload rest left in
      let len : word32 (header_bytes rec) 2 ≡ length rec.payload = omega (arith, f) in
      (s', rw (first, len, le→ltb _ _ f, read) refl, left')

-- Let `write_record` succeed, and let a reader have pending what it sent, with any bytes behind. Then
-- `read_record` returns the record and leaves exactly the bytes behind it.
pub read_record-write_record :
    (w : Writer) (r : Reader) (s : w.State) (t : r.State) (rec : Record) (rest : Bytes)
    {s' : w.State}
    → write_record w s rec ≡ ok s'
    → w.written s ++ r.pending t ≡ w.written s' ++ rest
    → (t' : r.State) × (read_record r t ≡ ok (rec, t')) × (r.pending t' ≡ rest)
read_record-write_record w r s t rec rest {s'} h p =
    let (sent, small) = write_record-ok w s rec h in
    read_record-header_bytes r t rec rest small (
      append-cancel (w.written s) (r.pending t) (header_bytes rec ++ (rec.payload ++ rest)) (
        p
        ∙ ap (λ (l : Bytes). l ++ rest) sent
        ∙ append_assoc (w.written s) (header_bytes rec ++ rec.payload) rest
        ∙ ap (λ (l : Bytes). w.written s ++ l) (append_assoc (header_bytes rec) rec.payload rest)))
