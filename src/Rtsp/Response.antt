-- ===== src/Rtsp/Response.antt =====
-- `RtspClient::request` and `read_response` of sentinel_rtp_cam/src/rtsp/rtsp.rs. A connection is what its
-- reads return, in order: `none` is an error, no bytes or no further read is its end. `lossy` is
-- `String::from_utf8_lossy`.
pub mod Heads
pub mod Chunks
use sentinel_video_receiver.Prelude.{
  ℕ, zero, suc, ◌+◌, ◌*◌, ◌%◌, ◌^◌, Bool, true, false, ◌&&◌, Option, none, some, List, [], ◌∷◌,
  ◌++◌, ltb, ◌==◌, if◌then◌else◌, length, take, drop, is_empty, Outcome, ok, err, panic, ◌>>=◌,
  Bytes, Text,
}
use sentinel_video_receiver.Live.Playlist.{decimal}
use sentinel_video_receiver.Texts.{
  trim, split, split_crlf, split_once, split_whitespace, parse_unsigned, same_ignoring_case,
  u16_max, usize_max,
}

pub record RtspResponse : Type 0 where
  pub status : ℕ
  pub headers : List (Text × Text)
  pub body : Bytes

pub data ResponseError : Type 0 where
  io closed headers_too_large missing_status_line closed_in_body : ResponseError

abbrev pub Connection : Type 0
Connection = List (Option Bytes)

-- `header_get`, and `header_value` of the receivers.
unfoldable pub header_get : Text → List (Text × Text) → Option Text
header_get key [] = none
header_get key ((k, v) ∷ headers) =
    let rest = header_get key headers in if same_ignoring_case k key then some v else rest

abbrev pub onto_head : ℕ → Option (Bytes × Bytes) → Option (Bytes × Bytes)
onto_head b none = none
onto_head b (some (head, rest)) = some (b ∷ head, rest)

abbrev pub ends_head : ℕ → Bytes → Bool
ends_head a (b ∷ (c ∷ (d ∷ rest))) = (a == 13) && ((b == 10) && ((c == 13) && (d == 10)))
ends_head a _ = false

-- `windows(4).position(..)` and `split_at`: the bytes up to the first "\r\n\r\n", with it.
unfoldable pub split_head : Bytes → Option (Bytes × Bytes)
split_head [] = none
split_head (b ∷ bs) =
    let later = split_head bs in
    if ends_head b bs then some (b ∷ take 3 bs, drop 3 bs) else onto_head b later

-- The first `loop`: the head, what was read behind it, and the connection.
unfoldable pub read_head :
    ℕ → Bytes → Connection → Outcome ResponseError ((Bytes × Bytes) × Connection)
read_head zero head conn = panic
read_head (suc fuel) head [] = err closed
read_head (suc fuel) head (none ∷ conn) = err io
read_head (suc fuel) head (some chunk ∷ conn) =
    let head' = head ++ chunk in
    let more = read_head fuel head' conn in
    if is_empty chunk then err closed else elim (split_head head') [
      | some split ↦ ok (split, conn)
      | none ↦ if ltb (64 * 1024) (length head') then err headers_too_large else more
    ]

-- The `while` of the body, and `truncate`.
unfoldable pub read_body : ℕ → ℕ → Bytes → Connection → Outcome ResponseError (Bytes × Connection)
read_body zero content_len body conn = panic
read_body (suc fuel) content_len body [] =
    if ltb (length body) content_len then err closed_in_body else ok (take content_len body, [])
read_body (suc fuel) content_len body (none ∷ conn) =
    if ltb (length body) content_len then err io else ok (take content_len body, none ∷ conn)
read_body (suc fuel) content_len body (some chunk ∷ conn) =
    let more = read_body fuel content_len (body ++ chunk) conn in
    if ltb (length body) content_len
    then (if is_empty chunk then err closed_in_body else more)
    else ok (take content_len body, some chunk ∷ conn)

unfoldable pub not_empty : List Text → List Text
not_empty [] = []
not_empty (line ∷ lines) = let rest = not_empty lines in if is_empty line then rest else line ∷ rest

abbrev or_zero : Option ℕ → ℕ
or_zero none = 0
or_zero (some n) = n

-- `parts.next().unwrap_or("0").parse().unwrap_or(0)`, of the second part.
abbrev status_of : List Text → ℕ
status_of (proto ∷ (status ∷ parts)) = or_zero (parse_unsigned u16_max status)
status_of _ = 0

abbrev onto_headers : Option (Text × Text) → List (Text × Text) → List (Text × Text)
onto_headers none headers = headers
onto_headers (some (k, v)) headers = (trim k, trim v) ∷ headers

unfoldable pub parse_headers : List Text → List (Text × Text)
parse_headers [] = []
parse_headers (line ∷ lines) = onto_headers (split_once b':' line) (parse_headers lines)

-- The status and the headers of a head.
unfoldable pub parse_head : Text → Outcome ResponseError (ℕ × List (Text × Text))
parse_head head = elim (not_empty (split_crlf head)) [
  | [] ↦ err missing_status_line
  | status_line ∷ lines ↦ ok (status_of (split_whitespace status_line), parse_headers lines)
]

-- "Content-Length"
abbrev pub content_length : Text
content_length =
    b'C' ∷ b'o' ∷ b'n' ∷ b't' ∷ b'e' ∷ b'n' ∷ b't' ∷ b'-' ∷ b'L' ∷ b'e' ∷ b'n' ∷ b'g' ∷ b't' ∷ b'h'
    ∷ []

abbrev parse_len : Option Text → ℕ
parse_len none = 0
parse_len (some v) = or_zero (parse_unsigned usize_max v)

unfoldable pub content_len_of : List (Text × Text) → ℕ
content_len_of headers = parse_len (header_get content_length headers)

-- The rounds that are enough for a head: each takes a byte or more.
abbrev pub head_fuel : ℕ
head_fuel = suc (suc (64 * 1024))

module _ (lossy : Bytes → Text) where
  unfoldable pub read_response : Connection → Outcome ResponseError (RtspResponse × Connection)
  read_response conn = do
    ((head, rest), conn) ← read_head head_fuel [] conn
    (status, headers) ← parse_head (lossy head)
    let content_len = content_len_of headers
    (body, conn) ←
        (if ltb 0 content_len
          then read_body (suc content_len) content_len rest conn
          else ok ([], conn))
    ok (record { status = status; headers = headers; body = body }, conn)

-- The variables of a client that its requests use. `cseq` is a u32.
pub record Session : Type 0 where
  pub cseq : ℕ
  pub session : Option Text

-- "\r\n" and ": "
abbrev crlf : Text
crlf = 13 ∷ 10 ∷ []

abbrev colon : Text
colon = b':' ∷ 32 ∷ []

unfoldable pub header_lines : List (Text × Text) → Text
header_lines [] = []
header_lines ((k, v) ∷ headers) = k ++ (colon ++ (v ++ (crlf ++ header_lines headers)))

abbrev session_line : Option Text → List (Text × Text)
session_line none = []
session_line (some id) = ((b'S' ∷ b'e' ∷ b's' ∷ b's' ∷ b'i' ∷ b'o' ∷ b'n' ∷ []), id) ∷ []

abbrev length_line : Option Bytes → List (Text × Text)
length_line none = []
length_line (some body) = (content_length, decimal (length body)) ∷ []

-- The head of a request, and the client behind it.
unfoldable pub request_head :
    Session → Text → Text → List (Text × Text) → Option Bytes → Text × Session
request_head c method url extra_headers body = (
  method
      ++ (32
          ∷ (url
              ++ ((32 ∷ b'R' ∷ b'T' ∷ b'S' ∷ b'P' ∷ b'/' ∷ b'1' ∷ b'.' ∷ b'0' ∷ [])
                  ++ (crlf
                      ++ (header_lines (((b'C' ∷ b'S' ∷ b'e' ∷ b'q' ∷ []), decimal c.cseq) ∷ [])
                          ++ (header_lines (session_line c.session)
                              ++ (header_lines extra_headers
                                  ++ (header_lines (length_line body) ++ crlf)))))))),
  record c { cseq = (c.cseq + 1) % 2 ^ 32 },
)

abbrev first_part : List Text → Option Text
first_part [] = none
first_part (part ∷ parts) = some part

abbrev set_session : Session → Option Text → Session
set_session c none = c
set_session c (some sess) = record c { session = first_part (split b';' sess) }

unfoldable pub set_session_from : RtspResponse → Session → Session
set_session_from resp c =
    set_session c (header_get (b'S' ∷ b'e' ∷ b's' ∷ b's' ∷ b'i' ∷ b'o' ∷ b'n' ∷ []) resp.headers)
