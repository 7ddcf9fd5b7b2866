-- ===== src/Rtsp/Response/Chunks.antt =====
-- How sentinel_rtp_cam/src/rtsp/rtsp.rs reads a response out of the chunks in which it arrives.
use sentinel_video_receiver.Prelude.{
  ℕ, zero, suc, ◌+◌, ◌*◌, ◌≤◌, ◌<◌, ◌≡◌, refl, sym, ap, ◌∙◌, arith, false, Option-cases, inl, inr,
  none, some, List, [], ◌∷◌, ◌++◌, append_assoc, append-nil, ltb, if◌then◌else◌, lt→ltb, length,
  length-append, take, take-append, take-length, is_empty, ok, Bytes, Text,
}
use sentinel_video_receiver.Clip.Writer.Content.{concat}
use sentinel_video_receiver.Rtsp.Response.{
  Connection, split_head, read_head, read_body, parse_head, content_len_of, head_fuel,
  read_response,
}
use sentinel_video_receiver.Rtsp.Response.Heads.{
  split_head_nil, length-head, split_head-append, split_head-none,
}

-- The chunks as what the reads return, with what comes behind them.
abbrev pub arriving : List Bytes → Connection → Connection
arriving [] later = later
arriving (chunk ∷ chunks) later = some chunk ∷ arriving chunks later

abbrev pub AllFilled : List Bytes → Type 0
AllFilled [] = Unit
AllFilled (chunk ∷ chunks) = (is_empty chunk ≡ false) × AllFilled chunks

length_filled : (chunk : Bytes) → is_empty chunk ≡ false → 1 ≤ length chunk
length_filled [] h = cc
length_filled (b ∷ bs) h = omega arith

read_head_lem :
    (fuel : ℕ) (read : Bytes) (chunks : List Bytes) (later : Connection) (head body : Bytes)
    → AllFilled chunks
    → split_head read ≡ none
    → split_head (read ++ concat chunks) ≡ some (head, body)
    → length head ≤ 64 * 1024
    → length head < length read + fuel
    → (rest : Bytes) × (left : List Bytes) × (read_head fuel read (arriving chunks later)
        ≡ ok ((head, rest), arriving left later))
      × (rest ++ concat left ≡ body)
      × AllFilled left
unfolding read_head
read_head_lem zero read chunks later head body filled n h le fuel =
    absurd (omega (arith, split_head-none read (concat chunks) head body n h))
read_head_lem (suc fuel) read [] later head body filled n h le enough =
    absurd (ground (arith, n, h, append-nil read))
read_head_lem (suc fuel) read (chunk ∷ chunks) later head body (filled, all) n h le enough =
    let read' = read ++ chunk in
    let h' : split_head (read' ++ concat chunks) ≡ some (head, body) =
      ap split_head (append_assoc read chunk (concat chunks)) ∙ h in
    elim (Option-cases (split_head read')) [
      | inl n' ↦
          let short = split_head-none read' (concat chunks) head body n' h' in
          let longer = length-append read chunk in
          let (rest, left, e, whole, all') =
            read_head_lem fuel read' chunks later head body all n' h' le
              (omega (arith, longer, length_filled chunk filled)) in
          (rest, left, ground (arith, filled, n', short, le, e), whole, all')
      | inr ((head', rest), e) ↦
          let found = split_head-append read' (concat chunks) head' rest e in
          (rest, chunks, ground (arith, filled, e, found, h'), ground (arith, found, h'), all)
    ]

read_body_enough :
    (fuel n : ℕ) (body : Bytes) (conn : Connection)
    → n ≤ length body
    → read_body (suc fuel) n body conn ≡ ok (take n body, conn)
unfolding read_body
read_body_enough fuel n body [] h = ground (arith, h)
read_body_enough fuel n body (none ∷ conn) h = ground (arith, h)
read_body_enough fuel n body (some chunk ∷ conn) h = ground (arith, h)

read_body_more :
    (fuel n : ℕ) (body chunk : Bytes) (conn : Connection)
    → length body < n
    → is_empty chunk ≡ false
    → read_body (suc fuel) n body (some chunk ∷ conn) ≡ read_body fuel n (body ++ chunk) conn
unfolding read_body
read_body_more fuel n body chunk conn h filled = ground (arith, h, filled)

read_body_lem :
    (fuel n : ℕ) (body : Bytes) (chunks : List Bytes) (later : Connection)
    → AllFilled chunks
    → length (body ++ concat chunks) ≡ n
    → n < length body + fuel
    → read_body fuel n body (arriving chunks later) ≡ ok (body ++ concat chunks, later)
read_body_lem zero n body chunks later filled h enough =
    absurd (omega (arith, h, length-append body (concat chunks)))
read_body_lem (suc fuel) n body [] later filled h enough =
    let whole = append-nil body in
    let n_lem : n ≡ length body = sym h ∙ ap length whole in
    rw (whole, n_lem)
      (read_body_enough fuel (length body) body later (omega arith)
        ∙ ap (λ (b : Bytes). ok (b, later)) (take-length body))
read_body_lem (suc fuel) n body (chunk ∷ chunks) later (filled, all) h enough =
    let long = length-append body (chunk ++ concat chunks) in
    let longer = length-append chunk (concat chunks) in
    let least = length_filled chunk filled in
    let whole = append_assoc body chunk (concat chunks) in
    let rest =
      read_body_lem fuel n (body ++ chunk) chunks later all (ap length whole ∙ h)
        (omega (arith, enough, length-append body chunk, least)) in
    read_body_more fuel n body chunk (arriving chunks later) (omega (arith, h, long, longer, least))
      filled
    ∙ rest
    ∙ ap (λ (b : Bytes). ok (b, later)) whole

nothing_left :
    (rest : Bytes) (left : List Bytes) → AllFilled left → rest ++ concat left ≡ [] → left ≡ []
nothing_left rest [] filled h = refl
nothing_left [] ([] ∷ left) (filled, all) h = cc
nothing_left [] ((b ∷ chunk) ∷ left) filled h = cc
nothing_left (b ∷ rest) (chunk ∷ left) filled h = cc

-- What is read behind a head, for a body of the length that the head says.
read_rest_lem :
    (rest body : Bytes) (left : List Bytes) (later : Connection)
    → AllFilled left
    → rest ++ concat left ≡ body
    → (if ltb 0 (length body)
        then read_body (suc (length body)) (length body) rest (arriving left later)
        else ok ([], arriving left later))
      ≡ ok (body, later)
read_rest_lem rest [] left later filled h = rw (nothing_left rest left filled h) refl
read_rest_lem rest (b ∷ body) left later filled h =
    rw (lt→ltb 0 (length (b ∷ body)) (omega arith)) (
      read_body_lem (suc (length (b ∷ body))) (length (b ∷ body)) rest left later filled
        (ap length h) (omega arith)
      ∙ ap (λ (b : Bytes). ok (b, later)) h)

-- The same of a body that was read with the head, and more behind it.
read_extra_lem :
    (body extra : Bytes) (later : Connection)
    → (if ltb 0 (length body)
        then read_body (suc (length body)) (length body) (body ++ extra) later
        else ok ([], later))
      ≡ ok (body, later)
read_extra_lem [] extra later = refl
read_extra_lem (b ∷ body) extra later = rw (lt→ltb 0 (length (b ∷ body)) (omega arith)) (
    read_body_enough (length (b ∷ body)) (length (b ∷ body)) ((b ∷ body) ++ extra) later
      (omega (arith, length-append (b ∷ body) extra))
    ∙ ap (λ (b : Bytes). ok (b, later)) (take-append (length (b ∷ body)) (b ∷ body) extra refl))

read_head_first :
    (fuel : ℕ) (head rest : Bytes) (later : Connection)
    → split_head (head ++ rest) ≡ some (head, rest)
    → read_head (suc fuel) [] (some (head ++ rest) ∷ later) ≡ ok ((head, rest), later)
unfolding read_head
read_head_first fuel [] rest later h = absurd (omega (arith, (length-head rest [] rest h).0))
read_head_first fuel (b ∷ head) rest later h = ground (arith, h)

-- A response whose head is at most 64 KiB, and says the length of its body, is read back as it was sent
-- however the connection cuts it into chunks, none of them empty; what comes behind the last chunk
-- stays on the connection.
pub read_response-arriving :
    (lossy : Bytes → Text) (chunks : List Bytes) (later : Connection) (head body : Bytes)
    (status : ℕ) (headers : List (Text × Text))
    → AllFilled chunks
    → concat chunks ≡ head ++ body
    → split_head (head ++ body) ≡ some (head, body)
    → length head ≤ 64 * 1024
    → parse_head (lossy head) ≡ ok (status, headers)
    → content_len_of headers ≡ length body
    → read_response lossy (arriving chunks later)
      ≡ ok (record { status = status; headers = headers; body = body }, later)
unfolding read_response
read_response-arriving lossy chunks later head body status headers filled whole h le parsed len =
    let (rest, left, e, body_lem, all) =
      read_head_lem head_fuel [] chunks later head body filled split_head_nil (rw whole h) le
        (omega (arith, le)) in
    rw (e, parsed, len, read_rest_lem rest body left later all body_lem) refl

-- When bytes come behind a response in its last chunk, here its only one, they are gone: the response
-- is returned, and what stays on the connection begins behind that chunk.
pub read_response_extra :
    (lossy : Bytes → Text) (extra : Bytes) (later : Connection) (head body : Bytes) (status : ℕ)
    (headers : List (Text × Text))
    → split_head (head ++ body) ≡ some (head, body)
    → parse_head (lossy head) ≡ ok (status, headers)
    → content_len_of headers ≡ length body
    → read_response lossy (some (head ++ (body ++ extra)) ∷ later)
      ≡ ok (record { status = status; headers = headers; body = body }, later)
unfolding read_response
read_response_extra lossy extra later head body status headers h parsed len =
    let found : split_head (head ++ (body ++ extra)) ≡ some (head, body ++ extra) =
      ap split_head (sym (append_assoc head body extra))
      ∙ split_head-append (head ++ body) extra head body h in
    rw
      (
        read_head_first (suc (64 * 1024)) head (body ++ extra) later found,
        parsed,
        len,
        read_extra_lem body extra later,
      )
      refl
