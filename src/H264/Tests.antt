-- ===== src/H264/Tests.antt =====
-- The unit tests of core/h264_depacketize.rs and core/h264_sync.rs, and instances.
use sentinel_video_receiver.Prelude.{
  ℕ, ◌≡◌, refl, arith, true, false, none, some, List, [], ◌∷◌, ◌++◌, map, Bytes, Safe, index, slice,
  be16, ok, err,
}
use sentinel_video_receiver.H264.Nal.{
  annexb_start, nal_type_from_annexb, annexb_from_raw_nal, nal_type-annexb,
}
use sentinel_video_receiver.H264.Depacketizer.{
  H264Depacketizer, continuation_without_start, stap_a_loop, handle_stap_a, fu_a_fragment,
  fu_a_header, handle_fu_a, push_rtp_payload,
}
use sentinel_video_receiver.H264.Depacketizer.Safety.{push_rtp_payload-Safe}
use sentinel_video_receiver.H264.Depacketizer.StapA.{
  aggregate, Sized, annexb, push_rtp_payload-aggregate,
}
use sentinel_video_receiver.H264.Depacketizer.StapAConverse.{push_rtp_payload-ok_aggregate}
use sentinel_video_receiver.H264.Depacketizer.FuA.{fragments, push_all, push_all-fragments}
use sentinel_video_receiver.H264.SyncGate.{reset, new}
use sentinel_video_receiver.H264.SyncGate.Start
use sentinel_video_receiver.H264.SyncGate.Start.{
  Call, Start, push, discontinuity, step, run, push_all-reset-Start,
}

program : Unit {0}
unfolding stap_a_loop handle_stap_a fu_a_fragment fu_a_header handle_fu_a push_rtp_payload index
    slice be16
program = tt

abbrev idle : H264Depacketizer
idle = record { fu_active = false; fu_buf = [] }

-- `stap_a_unpacking`
abbrev two_nals : List Bytes
two_nals = (0x67 ∷ 0x11 ∷ 0x22 ∷ []) ∷ (0x68 ∷ 0x33 ∷ []) ∷ []

stap_a_unpacking :
    push_rtp_payload idle (24 ∷ aggregate two_nals) ≡ (idle, ok (map annexb two_nals))
unfolding program
stap_a_unpacking = refl

-- `fu_a_continuation_without_start_is_error`
fu_a_continuation_without_start :
    push_rtp_payload idle (0x7C ∷ 0x05 ∷ 0xAA ∷ []) ≡ (idle, err continuation_without_start)
unfolding program
fu_a_continuation_without_start = refl

push_rtp_payload-Safe_example : Safe (push_rtp_payload idle (24 ∷ 0 ∷ [])).1
push_rtp_payload-Safe_example = push_rtp_payload-Safe idle (24 ∷ 0 ∷ [])

push_rtp_payload-aggregate_example :
    push_rtp_payload idle (24 ∷ aggregate two_nals) ≡ (idle, ok (map annexb two_nals))
push_rtp_payload-aggregate_example = push_rtp_payload-aggregate idle 24 two_nals refl (omega arith)

push_rtp_payload-ok_aggregate_example :
    (ns : List Bytes) × Sized ns
    × (aggregate two_nals ≡ aggregate ns)
    × (map annexb two_nals ≡ map annexb ns)
unfolding program
push_rtp_payload-ok_aggregate_example =
    push_rtp_payload-ok_aggregate idle 24 (aggregate two_nals) refl (omega arith) refl

-- `fu_a_reassembly`
push_all-fragments_example :
    push_all idle (fragments 0x65 (0xAA ∷ 0xBB ∷ []) ((0x01 ∷ []) ∷ []) (0xCC ∷ []))
    ≡ (idle, ok ((annexb_start ++ (0x65 ∷ 0xAA ∷ 0xBB ∷ 0x01 ∷ 0xCC ∷ [])) ∷ []))
push_all-fragments_example =
    push_all-fragments idle 0x65 (0xAA ∷ 0xBB ∷ []) ((0x01 ∷ []) ∷ []) (0xCC ∷ []) (omega arith)

nal_type-annexb_example :
    (nal_type_from_annexb (annexb_from_raw_nal (0x67 ∷ 0x64 ∷ [])) ≡ some 7)
    × (nal_type_from_annexb (annexb_from_raw_nal []) ≡ none)
nal_type-annexb_example = nal_type-annexb 0x67 (0x64 ∷ [])

abbrev nal : ℕ → Bytes
nal header = annexb_start ++ (header ∷ [])

push_all-reset-Start_example :
    Start
      (Start.push_all
        (reset (run (new true) (push (nal 7) ∷ discontinuity ∷ [])))
        (nal 1 ∷ nal 8 ∷ nal 5 ∷ nal 1 ∷ [])).1
push_all-reset-Start_example =
    push_all-reset-Start (push (nal 7) ∷ discontinuity ∷ []) (nal 1 ∷ nal 8 ∷ nal 5 ∷ nal 1 ∷ [])
      (tt, (tt, tt))
