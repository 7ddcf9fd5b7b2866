-- ===== src/Rtsp/Receiver/Starts.antt =====
-- What the receivers of sentinel_rtp_cam/src/rtsp send, for any packets.
use sentinel_video_receiver.Prelude.{
  ℕ, ◌+◌, ◌%◌, ◌≡◌, inl, inr, refl, sym, subst, Bool, true, false, if◌then◌else◌, Option, none,
  some, List, [], ◌∷◌, ◌++◌, append_assoc, Outcome, ok, err, panic, Bytes,
}
use sentinel_video_receiver.Rtp
use sentinel_video_receiver.Rtp.{RtpPacket, ParseError}
use sentinel_video_receiver.H264.Depacketizer.{Nals, push_rtp_payload}
use sentinel_video_receiver.H264.SyncGate
use sentinel_video_receiver.H264.SyncGate.{H264SyncGate, push_nal}
use sentinel_video_receiver.H264.SyncGate.Start.{
  IsValid, Slices, done, group, Start, nothing, start, push_nal-Slices, push_nal_shut,
  push_nal-IsValid, step, step-IsValid, discontinuity,
}
use sentinel_video_receiver.Live.Stream.Messages.{gated, out_of_sequence}
use sentinel_video_receiver.Rtsp.{InterleavedFrame, rtp, rtcp, unknown}
use sentinel_video_receiver.Rtsp.Receiver.{
  Receiver, on_parsed, on_frame, on_frames, restart, on_pushed, on_packet,
}

-- What may follow from a gate that is open, or shut.
abbrev pub Follows : Bool → List Bytes → Type 0
Follows true nals = Slices nals
Follows false nals = Start nals

-- The NALs sent between two states of a gate.
abbrev Emits : Bool → Bool → List Bytes → Type 0
Emits before after out = (rest : List Bytes) → Follows after rest → Follows before (out ++ rest)

-- A gate that waits for an IDR slice, and holds parameter sets of their types.
pub record Gated (g : H264SyncGate) : Type 0 where
  pub valid_lem : IsValid g
  pub require_lem : g.require_idr_sync ≡ true

Emits-append :
    (a b c : Bool) (xs ys : List Bytes) → Emits a b xs → Emits b c ys → Emits a c (xs ++ ys)
Emits-append a b c xs ys e₁ e₂ rest h =
    subst (Follows a) (sym (append_assoc xs ys rest)) (e₁ (ys ++ rest) (e₂ rest h))

push_nal-Emits :
    (g : H264SyncGate) (nal : Bytes) (synced : Bool)
    → g.synced ≡ synced
    → Gated g
    → Emits synced (push_nal g nal).0.synced (push_nal g nal).1 × Gated (push_nal g nal).0
push_nal-Emits g nal true s v =
    let (_, s', r') = push_nal-Slices g nal v.valid_lem v.require_lem s done in
    (
      λ rest h.
          (push_nal-Slices g nal v.valid_lem v.require_lem s (subst (λ b. Follows b rest) s' h)).0,
      record { valid_lem = push_nal-IsValid g nal v.valid_lem; require_lem = r' },
    )
push_nal-Emits g nal false s v =
    let (r', split) = push_nal_shut g nal v.valid_lem s v.require_lem in
    (
      λ rest h. elim split [
        | inl (out, shut) ↦ rw out (subst (λ b. Follows b rest) shut h)
        | inr (opens, opened) ↦ opens rest (subst (λ b. Follows b rest) opened h)
      ],
      record { valid_lem = push_nal-IsValid g nal v.valid_lem; require_lem = r' },
    )

gated-Emits :
    (before : Bool) (nals : List Bytes) (g : H264SyncGate) (out : List Bytes)
    → Emits before g.synced out
    → Gated g
    → let (g', out') = gated nals (g, out) in Emits before g'.synced out' × Gated g'
gated-Emits before [] g out e v = (e, v)
gated-Emits before (nal ∷ nals) g out e v =
    let (g', passed) = push_nal g nal in
    let (e', v') = push_nal-Emits g nal g.synced refl v in
    gated-Emits before nals g' (out ++ passed)
      (Emits-append before g.synced g'.synced out passed e e') v'

Start-Slices : (nals : List Bytes) → Start nals → Slices nals
Start-Slices nals nothing = done
Start-Slices nals (start h k i rest) = group h k i rest

pub Start-Follows : (synced : Bool) (nals : List Bytes) → Start nals → Follows synced nals
Start-Follows true nals h = Start-Slices nals h
Start-Follows false nals h = h

pub reset_synced : (g : H264SyncGate) → Gated g → (SyncGate.reset g).synced ≡ false
unfolding SyncGate.reset
reset_synced g v = rw v.require_lem refl

reset-Gated : (g : H264SyncGate) → Gated g → Gated (SyncGate.reset g)
unfolding SyncGate.reset
reset-Gated g v = record {
  valid_lem = unfold step in step-IsValid g discontinuity tt v.valid_lem;
  require_lem = v.require_lem;
}

-- What a call sends, and the receiver that it leaves.
abbrev Sends : Receiver → Receiver × List Bytes → Type 0
Sends r (r', out) = Emits r.gate.synced r'.gate.synced out × Gated r'.gate

restart-Sends :
    (expected_seq : Option ℕ) (r : Receiver) → Gated r.gate → Sends r (restart expected_seq r, [])
unfolding restart
restart-Sends expected_seq r v = (
  λ rest h.
      Start-Follows r.gate.synced rest (subst (λ b. Follows b rest) (reset_synced r.gate v) h),
  reset-Gated r.gate v,
)

on_pushed-Sends : (r : Receiver) (pushed : Nals) → Gated r.gate → Sends r (on_pushed r pushed)
on_pushed-Sends r (ok nals) v = gated-Emits r.gate.synced nals r.gate [] (λ rest h. h) v
on_pushed-Sends r (err e) v = restart-Sends none r v
on_pushed-Sends r panic v = restart-Sends none r v

on_packet-Sends : (r : Receiver) (pkt : RtpPacket) → Gated r.gate → Sends r (on_packet r pkt)
unfolding on_packet
on_packet-Sends r pkt v =
    let next = some ((pkt.sequence_number + 1) % 65536) in
    let (dep, pushed) = push_rtp_payload r.dep pkt.payload in
    let r' : Receiver = record r { dep = dep; expected_seq = next } in
    elim (out_of_sequence pkt.sequence_number r.expected_seq)
      as (λ b. Sends r (if b then (restart next r, []) else on_pushed r' pushed)) [
        | true ↦ restart-Sends next r v
        | false ↦ on_pushed-Sends r' pushed v
      ]

on_parsed-Sends :
    (r : Receiver) (parsed : Outcome ParseError RtpPacket)
    → Gated r.gate
    → Sends r (on_parsed r parsed)
on_parsed-Sends r (ok pkt) v = on_packet-Sends r pkt v
on_parsed-Sends r (err e) v = restart-Sends none r v
on_parsed-Sends r panic v = restart-Sends none r v

pub on_frame-Sends :
    (r : Receiver) (frame : InterleavedFrame) → Gated r.gate → Sends r (on_frame r frame)
unfolding on_frame
on_frame-Sends r (rtp bytes) v = on_parsed-Sends r (Rtp.parse bytes) v
on_frame-Sends r (rtcp bytes) v = (λ rest h. h, v)
on_frame-Sends r (unknown channel bytes) v = (λ rest h. h, v)

pub on_frames-Sends :
    (r : Receiver) (frames : List InterleavedFrame) → Gated r.gate → Sends r (on_frames r frames)
unfolding on_frames
on_frames-Sends r [] v = (λ rest h. h, v)
on_frames-Sends r (frame ∷ frames) v =
    let (r', out) = on_frame r frame in
    let (e, v') = on_frame-Sends r frame v in
    let (r'', more) = on_frames r' frames in
    let (e', v'') = on_frames-Sends r' frames v' in
    (Emits-append r.gate.synced r'.gate.synced r''.gate.synced out more e e', v'')
