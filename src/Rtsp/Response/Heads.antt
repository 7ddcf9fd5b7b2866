-- ===== src/Rtsp/Response/Heads.antt =====
-- The end of the head of a response, which sentinel_rtp_cam/src/rtsp/rtsp.rs looks for in what it has read.
use sentinel_video_receiver.Prelude.{
  ℕ, ◌≤◌, ◌<◌, ◌≡◌, refl, ap, arith, true, Option-cases, inl, inr, none, some, [], ◌∷◌, ◌++◌,
  if◌then◌else◌, length, length-append, take, drop, Bytes,
}
use sentinel_video_receiver.Rtsp.Response.{onto_head, ends_head, split_head}

pub split_head-cons :
    (b : ℕ) (bs : Bytes)
    → split_head (b ∷ bs)
      ≡ (if ends_head b bs then some (b ∷ take 3 bs, drop 3 bs) else onto_head b (split_head bs))
unfolding split_head
split_head-cons b bs = refl

pub split_head_nil : split_head [] ≡ none
unfolding split_head
split_head_nil = refl

-- The end of a head, with more bytes behind it.
ends_head-append :
    (a : ℕ) (bs ys : Bytes)
    → ends_head a bs ≡ true
    → (ends_head a (bs ++ ys) ≡ true)
      × (take 3 (bs ++ ys) ≡ take 3 bs)
      × (drop 3 (bs ++ ys) ≡ drop 3 bs ++ ys)
      × (length (take 3 bs) ≡ 3)
      × (bs ≡ take 3 bs ++ drop 3 bs)
ends_head-append a [] ys h = cc
ends_head-append a (b ∷ []) ys h = cc
ends_head-append a (b ∷ (c ∷ [])) ys h = cc
ends_head-append a (b ∷ (c ∷ (d ∷ bs))) ys h = (h, refl, refl, refl, refl)

ends_head_long : (a : ℕ) (bs ys : Bytes) → 3 ≤ length bs → ends_head a (bs ++ ys) ≡ ends_head a bs
ends_head_long a [] ys h = absurd (omega arith)
ends_head_long a (b ∷ []) ys h = absurd (omega arith)
ends_head_long a (b ∷ (c ∷ [])) ys h = absurd (omega arith)
ends_head_long a (b ∷ (c ∷ (d ∷ bs))) ys h = refl

-- A head has four bytes or more.
pub length-head :
    (xs head rest : Bytes)
    → split_head xs ≡ some (head, rest)
    → (4 ≤ length head) × (xs ≡ head ++ rest)
length-head [] head rest h = let n = split_head_nil in cc
length-head (a ∷ bs) head rest h =
    let rule = split_head-cons a bs in
    elim (Option-cases (split_head bs)) [
      | inl n ↦ ground (arith, h, n, rule, ends_head-append a bs [])
      | inr ((head', rest'), e) ↦
          ground (arith, h, e, rule, ends_head-append a bs [], length-head bs head' rest' e)
    ]

-- A head that is found stays where it is when more bytes come behind it.
pub split_head-append :
    (xs ys head rest : Bytes)
    → split_head xs ≡ some (head, rest)
    → split_head (xs ++ ys) ≡ some (head, rest ++ ys)
split_head-append [] ys head rest h = let n = split_head_nil in cc
split_head-append (a ∷ bs) ys head rest h =
    let rule = split_head-cons a bs in
    let rule' = split_head-cons a (bs ++ ys) in
    elim (Option-cases (split_head bs)) [
      | inl n ↦ ground (arith, h, n, rule, rule', ends_head-append a bs ys)
      | inr ((head', rest'), e) ↦
          let (le, whole) = length-head bs head' rest' e in
          let long : 3 ≤ length bs =
            omega (arith, le, ap length whole, length-append head' rest') in
          ground (
            arith,
            h,
            e,
            rule,
            rule',
            ends_head-append a bs ys,
            ends_head_long a bs ys long,
            split_head-append bs ys head' rest' e,
          )
    ]

-- A head is not found before all of it is there.
pub split_head-none :
    (xs ys head rest : Bytes)
    → split_head xs ≡ none
    → split_head (xs ++ ys) ≡ some (head, rest)
    → length xs < length head
split_head-none [] ys head rest h k = omega (arith, (length-head ys head rest k).0)
split_head-none (a ∷ bs) ys head rest h k =
    let rule = split_head-cons a bs in
    let rule' = split_head-cons a (bs ++ ys) in
    elim (Option-cases (split_head (bs ++ ys))) [
      | inl n ↦
          ground
            (arith, h, k, n, rule, rule', ends_head-append a (bs ++ ys) [], ends_head_long a bs ys)
      | inr ((head', rest'), e) ↦ ground (
        arith,
        h,
        k,
        e,
        rule,
        rule',
        ends_head-append a (bs ++ ys) [],
        ends_head_long a bs ys,
        λ (n : split_head bs ≡ none). split_head-none bs ys head' rest' n e,
      )
    ]
