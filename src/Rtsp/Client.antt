-- ===== src/Rtsp/Client.antt =====
-- The client is a byte stream itself: what is left over, and then its stream.
use sentinel_video_receiver.Prelude.{
  ℕ, zero, suc, ◌-◌, min, ◌≤◌, ◌<◌, ◌≡◌, refl, sym, ap, ◌∙◌, arith, [], ◌∷◌, ◌++◌, append-nil,
  lt→ltb, le→ltb, dec_lt, length, length-append, length-take, take, drop, Bytes, ok, err,
}
use sentinel_video_receiver.Io.{Reader}
use sentinel_video_receiver.Rtsp.{RtspClient, leftover_loop, read_exact_bytes}

take_sum :
    (n k : ℕ) (xs ys : Bytes) → k ≡ n - length xs → take n (xs ++ ys) ≡ take n xs ++ take k ys
take_sum zero k [] ys h = let none_left : k ≡ 0 = omega (arith, h) in rw none_left refl
take_sum zero k (x ∷ xs) ys h = let none_left : k ≡ 0 = omega (arith, h) in rw none_left refl
take_sum (suc n) k [] ys h = let all_left : k ≡ suc n = omega (arith, h) in rw all_left refl
take_sum (suc n) k (x ∷ xs) ys h = ap (◌∷◌ x) (take_sum n k xs ys (omega (arith, h)))

drop_sum :
    (n k : ℕ) (xs ys : Bytes) → k ≡ n - length xs → drop n (xs ++ ys) ≡ drop n xs ++ drop k ys
drop_sum zero k [] ys h = let none_left : k ≡ 0 = omega (arith, h) in rw none_left refl
drop_sum zero k (x ∷ xs) ys h = let none_left : k ≡ 0 = omega (arith, h) in rw none_left refl
drop_sum (suc n) k [] ys h = let all_left : k ≡ suc n = omega (arith, h) in rw all_left refl
drop_sum (suc n) k (x ∷ xs) ys h = drop_sum n k xs ys (omega (arith, h))

stop_full :
    (fuel n : ℕ) (out left : Bytes) → n ≤ length out → leftover_loop fuel n out left ≡ (out, left)
unfolding leftover_loop
stop_full zero n out left h = refl
stop_full (suc fuel) n out left h = ground (arith, h)

stop_empty : (fuel n : ℕ) (out : Bytes) → leftover_loop fuel n out [] ≡ (out, [])
unfolding leftover_loop
stop_empty zero n out = refl
stop_empty (suc fuel) n out = ground arith

short_lem : (n : ℕ) (xs : Bytes) → length xs ≤ n → (take n xs ≡ xs) × (drop n xs ≡ [])
short_lem zero [] h = (refl, refl)
short_lem zero (x ∷ xs) h = absurd (omega (arith, h))
short_lem (suc n) [] h = (refl, refl)
short_lem (suc n) (x ∷ xs) h = let (t, d) = short_lem n xs (omega (arith, h)) in (ap (◌∷◌ x) t, d)

-- One round is enough.
leftover_loop_lem :
    (fuel n : ℕ) (left : Bytes) → leftover_loop (suc fuel) n [] left ≡ (take n left, drop n left)
unfolding leftover_loop
leftover_loop_lem fuel zero left = refl
leftover_loop_lem fuel (suc n) [] = ground arith
leftover_loop_lem fuel (suc n) (b ∷ left) =
    let all = b ∷ left in
    elim (dec_lt (length all) (suc n)) [
      | yes short ↦
          let t_lem : min (suc n - 0) (length all) ≡ length all = omega (arith, short) in
          let (taken, left_lem) = short_lem (length all) all (omega arith) in
          let (taken', left_lem') = short_lem (suc n) all (omega (arith, short)) in
          ground (arith, t_lem, taken, left_lem, taken', left_lem', stop_empty fuel (suc n) all)
      | no long ↦
          let t_lem : min (suc n - 0) (length all) ≡ suc n = omega (arith, long) in
          ground (
            arith,
            t_lem,
            stop_full fuel (suc n) (take (suc n) all) (drop (suc n) all)
                (omega (arith, long, length-take (suc n) all)),
          )
    ]

module _ (r : Reader) where
  abbrev pub client_pending : RtspClient r → Bytes
  client_pending c = c.leftover ++ r.pending c.stream

  -- What is read is what is left over, and then what comes from the stream.
  pub read_exact_bytes_full :
      (c : RtspClient r) (n : ℕ)
      → n ≤ length (client_pending c)
      → (c' : RtspClient r) × (read_exact_bytes r c n ≡ ok (take n (client_pending c), c'))
        × (client_pending c' ≡ drop n (client_pending c))
  unfolding read_exact_bytes
  read_exact_bytes_full c n h =
      let left = c.leftover in
      let p = r.pending c.stream in
      let loop = leftover_loop_lem n n left in
      let total = length-append left p in
      elim (dec_lt (length left) n) [
        | yes short ↦
            let k = n - length left in
            let (taken, none_left) = short_lem n left (omega (arith, short)) in
            let (s', read, rest) = r.read_exact_full c.stream k (omega (arith, h, total)) in
            let got : take n (left ++ p) ≡ left ++ take k p =
              take_sum n k left p refl ∙ ap (λ (l : Bytes). l ++ take k p) taken in
            let gone : drop n (left ++ p) ≡ drop k p =
              drop_sum n k left p refl ∙ ap (λ (l : Bytes). l ++ drop k p) none_left in
            (
              record { stream = s'; leftover = [] },
              rw (loop, taken, none_left, lt→ltb (length left) n short, read, got) refl,
              rest ∙ sym gone,
            )
        | no long ↦
            let size : length (take n left) ≡ n = omega (arith, long, length-take n left) in
            let got : take n (left ++ p) ≡ take n left =
              take_sum n 0 left p (omega (arith, long)) ∙ append-nil (take n left) in
            (
              record { stream = c.stream; leftover = drop n left },
              rw (loop, le→ltb n (length (take n left)) (omega (arith, size)), got) refl,
              sym (drop_sum n 0 left p (omega (arith, long))),
            )
      ]

  pub read_exact_bytes_short :
      (c : RtspClient r) (n : ℕ)
      → length (client_pending c) < n
      → (e : r.Error) × (read_exact_bytes r c n ≡ err e)
  unfolding read_exact_bytes
  read_exact_bytes_short c n h =
      let left = c.leftover in
      let p = r.pending c.stream in
      let total = length-append left p in
      let (taken, none_left) = short_lem n left (omega (arith, h, total)) in
      let (e, failed) = r.read_exact_short c.stream (n - length left) (omega (arith, h, total)) in
      (
        e,
        rw
            (
              leftover_loop_lem n n left,
              taken,
              none_left,
              lt→ltb (length left) n (omega (arith, h, total)),
              failed,
            )
            refl,
      )

-- `RtspClient` as a stream.
abbrev pub client_reader : Reader → Reader
client_reader r = record {
  State = RtspClient r;
  Error = r.Error;
  pending = client_pending r;
  read_exact = read_exact_bytes r;
  read_exact_full = read_exact_bytes_full r;
  read_exact_short = read_exact_bytes_short r;
}
