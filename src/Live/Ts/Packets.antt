-- ===== src/Live/Ts/Packets.antt =====
-- What the packets of `packetize_ts` carry.
use sentinel_video_receiver.Prelude.{
  ℕ, zero, suc, ◌+◌, ◌-◌, ◌*◌, ◌/◌, ◌%◌, min, ◌≤◌, ◌<◌, ◌≡◌, refl, subst, arith, Bool, false, List,
  [], ◌∷◌, ◌++◌, ◌==◌, if◌then◌else◌, get_or, length, length-append, length-replicate, length-take,
  length-drop, take, drop, drop-append, take-append-drop, Bytes,
}
use sentinel_video_receiver.Live.Ts.{
  ts_packet_size, adaptation_field, ts_packet, next_counter, packetize_loop, packetize_ts,
}

-- A packet as ISO/IEC 13818-1, 2.4.3.2 reads it.
abbrev pub payload_of : Bytes → Bytes
payload_of packet =
    if get_or packet 3 0 / 32 % 2 == 1 then drop (5 + get_or packet 4 0) packet else drop 4 packet

abbrev pub pid_of : Bytes → ℕ
pid_of packet = get_or packet 1 0 % 32 * 256 + get_or packet 2 0

abbrev pub starts_unit : Bytes → Bool
starts_unit packet = get_or packet 1 0 / 64 % 2 == 1

-- Well-formed packets of one PID, with the counter of the first one and whether it starts a unit; the
-- counters go up by one, modulo 16.
abbrev pub Stream : ℕ → ℕ → Bool → List Bytes → Type 0
Stream pid counter start [] = Unit
Stream pid counter start (p ∷ ps) =
    (length p ≡ ts_packet_size)
    × (get_or p 0 0 ≡ 71)
    × (pid_of p ≡ pid)
    × (starts_unit p ≡ start)
    × (get_or p 3 0 % 16 ≡ counter % 16)
    × Stream pid ((counter + 1) % 16) false ps

abbrev pub payloads : List Bytes → Bytes
payloads [] = []
payloads (p ∷ ps) = payload_of p ++ payloads ps

length-adaptation_field : (n : ℕ) → n < 184 → length (adaptation_field n) ≡ 184 - n
unfolding adaptation_field
length-adaptation_field n h = ground (arith, length-replicate {A = ℕ} (183 - n - 1) 255)

ts_packet_lem :
    (pid counter : ℕ) (start : Bool) (chunk : Bytes)
    → length chunk ≤ 184
    → pid < 8192
    → let p = ts_packet pid counter start chunk in
      (length p ≡ ts_packet_size)
      × (get_or p 0 0 ≡ 71)
      × (pid_of p ≡ pid)
      × (starts_unit p ≡ start)
      × (get_or p 3 0 % 16 ≡ counter % 16)
unfolding ts_packet
ts_packet_lem pid counter start chunk h k = ground (
  arith,
  length-adaptation_field (length chunk),
  length-append (adaptation_field (length chunk)) chunk,
)

drop_field :
    (chunk : Bytes) (k : ℕ)
    → length chunk < 184
    → k ≡ 184 - length chunk
    → drop k (adaptation_field (length chunk) ++ chunk) ≡ chunk
drop_field chunk k h q =
    drop-append k (adaptation_field (length chunk)) chunk
      (omega (arith, length-adaptation_field (length chunk) h, q))

head_lem :
    (chunk : Bytes) → get_or (adaptation_field (length chunk) ++ chunk) 0 0 ≡ 183 - length chunk
unfolding adaptation_field
head_lem chunk = ground arith

payload_of-ts_packet :
    (pid counter : ℕ) (start : Bool) (chunk : Bytes)
    → length chunk ≤ 184
    → payload_of (ts_packet pid counter start chunk) ≡ chunk
unfolding ts_packet
payload_of-ts_packet pid counter start chunk h = ground (
  arith,
  head_lem chunk,
  drop_field chunk (suc (get_or (adaptation_field (length chunk) ++ chunk) 0 0)),
)

-- Enough rounds: one for each byte would do.
payloads-packetize_loop :
    (fuel pid counter : ℕ) (start : Bool) (payload : Bytes)
    → length payload ≤ fuel
    → payloads (packetize_loop fuel pid counter start payload).0 ≡ payload
unfolding packetize_loop
payloads-packetize_loop zero pid counter start [] h = refl
payloads-packetize_loop zero pid counter start (b ∷ payload) h = absurd (omega (arith, h))
payloads-packetize_loop (suc fuel) pid counter start payload h =
    let n = min (length payload) 184 in
    ground (
      arith,
      h,
      length-take n payload,
      length-drop n payload,
      payload_of-ts_packet pid counter start (take n payload),
      payloads-packetize_loop fuel pid (next_counter counter) false (drop n payload),
      take-append-drop n payload,
    )

next_counter_lem : (counter : ℕ) → next_counter counter ≡ (counter + 1) % 16
next_counter_lem counter = omega arith

packetize_loop-Stream :
    (fuel pid counter : ℕ) (start : Bool) (payload : Bytes)
    → pid < 8192
    → Stream pid counter start (packetize_loop fuel pid counter start payload).0
unfolding packetize_loop
packetize_loop-Stream zero pid counter start payload h = tt
packetize_loop-Stream (suc fuel) pid counter start payload h =
    let n = min (length payload) 184 in
    let rest = packetize_loop fuel pid (next_counter counter) false (drop n payload) in
    let rest_lem : Stream pid ((counter + 1) % 16) false rest.0 =
      subst (λ (c : ℕ). Stream pid c false rest.0) (next_counter_lem counter)
        (packetize_loop-Stream fuel pid (next_counter counter) false (drop n payload) h) in
    ground
      (arith, h, rest_lem, length-take n payload, ts_packet_lem pid counter start (take n payload))

-- The packets of a payload carry that payload, each byte once and in order.
pub payloads-packetize_ts :
    (pid : ℕ) (payload : Bytes) (counter : ℕ) (start : Bool)
    → payloads (packetize_ts pid payload counter start).0 ≡ payload
unfolding packetize_ts
payloads-packetize_ts pid payload counter start =
    payloads-packetize_loop (length payload) pid counter start payload (omega arith)

-- The packets are 188 bytes each, with the sync byte, the given PID (13 bits) and continuity counters
-- that go up by one modulo 16 from the given one on; only the first is marked as the start of a unit,
-- if that was asked for.
pub packetize_ts-Stream :
    (pid : ℕ) (payload : Bytes) (counter : ℕ) (start : Bool)
    → pid < 8192
    → Stream pid counter start (packetize_ts pid payload counter start).0
unfolding packetize_ts
packetize_ts-Stream pid payload counter start h =
    packetize_loop-Stream (length payload) pid counter start payload h
