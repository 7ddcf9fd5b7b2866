-- ===== src/H264/SyncGate/Start.antt =====
-- What leaves the gate over any sequence of NALs.
use sentinel_video_receiver.Prelude.{
  ℕ, ◌≡◌, ◌≢◌, ◌∙◌, ◌⊎◌, inl, inr, refl, arith, Bool, true, false, Option, none, some, List, [],
  ◌∷◌, ◌++◌, Bytes,
}
use sentinel_video_receiver.H264.Nal.{nal_type_from_annexb}
use sentinel_video_receiver.H264.SyncGate.{H264SyncGate, new, reset, set_sprop_param_sets, push_nal}

-- What the camera session calls.
pub data Call : Type 0 where
  push : Bytes → Call
  discontinuity : Call
  sprop : Bytes → Bytes → Call

unfoldable pub step : H264SyncGate → Call → H264SyncGate × List Bytes
unfolding push_nal reset set_sprop_param_sets
step g (push nal) = push_nal g nal
step g discontinuity = (reset g, [])
step g (sprop sps pps) = (set_sprop_param_sets g sps pps, [])

-- Out-of-band parameter sets are of the right types.
abbrev pub IsTyped : Call → Type 0
IsTyped (push nal) = Unit
IsTyped discontinuity = Unit
IsTyped (sprop sps pps) = (nal_type_from_annexb sps ≡ some 7) × (nal_type_from_annexb pps ≡ some 8)

abbrev pub HasType : ℕ → Option Bytes → Type 0
HasType t none = Unit
HasType t (some nal) = nal_type_from_annexb nal ≡ some t

-- The parameter sets that the gate holds are parameter sets, and an open gate either never asked
-- for a sync point or holds both.
pub record IsValid (g : H264SyncGate) : Type 0 where
  pub sps_typed : HasType 7 g.last_sps
  pub pps_typed : HasType 8 g.last_pps
  pub both : g.synced ≡ true → g.require_idr_sync ≡ true → (g.last_sps ≢ none) × (g.last_pps ≢ none)

pub new-IsValid : (r : Bool) → IsValid (new r)
unfolding new
new-IsValid r = ground arith

pub step-IsValid : (g : H264SyncGate) (c : Call) → IsTyped c → IsValid g → IsValid (step g c).0
unfolding step
step-IsValid g (push nal) t v = ground arith
step-IsValid g discontinuity t v = ground arith
step-IsValid g (sprop sps pps) t v = ground arith

-- A run of NALs in which every IDR slice stands right behind an SPS and a PPS, and parameter sets
-- stand nowhere else.
pub data Slices : List Bytes → Type 0 where
  done : Slices []
  group :
      {sps pps idr : Bytes} {rest : List Bytes}
      → nal_type_from_annexb sps ≡ some 7
      → nal_type_from_annexb pps ≡ some 8
      → nal_type_from_annexb idr ≡ some 5
      → Slices rest
      → Slices (sps ∷ pps ∷ idr ∷ rest)
  other :
      {nal : Bytes} {rest : List Bytes} (t : ℕ)
      → nal_type_from_annexb nal ≡ some t
      → t ≢ 5
      → t ≢ 7
      → t ≢ 8
      → Slices rest
      → Slices (nal ∷ rest)

-- Nothing, or such a run that begins with the SPS, the PPS and an IDR slice.
pub data Start : List Bytes → Type 0 where
  nothing : Start []
  start :
      {sps pps idr : Bytes} {rest : List Bytes}
      → nal_type_from_annexb sps ≡ some 7
      → nal_type_from_annexb pps ≡ some 8
      → nal_type_from_annexb idr ≡ some 5
      → Slices rest
      → Start (sps ∷ pps ∷ idr ∷ rest)

-- The NALs one after the other, and all that leaves the gate.
pub push_all : H264SyncGate → List Bytes → H264SyncGate × List Bytes
push_all g [] = (g, [])
push_all g (nal ∷ nals) =
    let (g', out) = push_nal g nal in let (g'', more) = push_all g' nals in (g'', out ++ more)

pub push_nal-Slices :
    (g : H264SyncGate) (nal : Bytes) {rest : List Bytes}
    → IsValid g
    → g.require_idr_sync ≡ true
    → g.synced ≡ true
    → Slices rest
    → Slices ((push_nal g nal).1 ++ rest)
      × ((push_nal g nal).0.synced ≡ true)
      × ((push_nal g nal).0.require_idr_sync ≡ true)
unfolding push_nal
push_nal-Slices g nal v r s rest = grind (arith, group, other)

pub push_nal-IsValid : (g : H264SyncGate) (nal : Bytes) → IsValid g → IsValid (push_nal g nal).0
push_nal-IsValid g nal v = unfold step in step-IsValid g (push nal) tt v

push_all-Slices :
    (g : H264SyncGate) (nals : List Bytes)
    → IsValid g
    → g.require_idr_sync ≡ true
    → g.synced ≡ true
    → Slices (push_all g nals).1
unfolding push_all
push_all-Slices g [] v r s = done
push_all-Slices g (nal ∷ nals) v r s =
    let (_, s', r') = push_nal-Slices g nal v r s done in
    let later = push_all-Slices (push_nal g nal).0 nals (push_nal-IsValid g nal v) r' s' in
    (push_nal-Slices g nal v r s later).0

-- A NAL at a shut gate leaves it shut and lets nothing out, or opens it with an IDR slice behind
-- its parameter sets.
pub push_nal_shut :
    (g : H264SyncGate) (nal : Bytes)
    → IsValid g
    → g.synced ≡ false
    → g.require_idr_sync ≡ true
    → ((push_nal g nal).0.require_idr_sync ≡ true)
      × (((push_nal g nal).1 ≡ []) × ((push_nal g nal).0.synced ≡ false)
          ⊎ ((rest : List Bytes) → Slices rest → Start ((push_nal g nal).1 ++ rest))
            × ((push_nal g nal).0.synced ≡ true))
unfolding push_nal
push_nal_shut g nal v s r = grind (arith, start)

push_all-Start :
    (g : H264SyncGate) (nals : List Bytes)
    → IsValid g
    → g.synced ≡ false
    → g.require_idr_sync ≡ true
    → Start (push_all g nals).1
unfolding push_all
push_all-Start g [] v s r = nothing
push_all-Start g (nal ∷ nals) v s r =
    let (r', split) = push_nal_shut g nal v s r in
    let v' = push_nal-IsValid g nal v in
    elim split [
      | inl (out, shut) ↦ rw out (push_all-Start (push_nal g nal).0 nals v' shut r')
      | inr (opens, opened) ↦ opens _ (push_all-Slices (push_nal g nal).0 nals v' r' opened)
    ]

-- Every call, in any order.
pub run : H264SyncGate → List Call → H264SyncGate
run g [] = g
run g (c ∷ cs) = run (step g c).0 cs

abbrev pub AllTyped : List Call → Type 0
AllTyped [] = Unit
AllTyped (c ∷ cs) = IsTyped c × AllTyped cs

run-IsValid : (g : H264SyncGate) (cs : List Call) → AllTyped cs → IsValid g → IsValid (run g cs)
unfolding run
run-IsValid g [] t v = v
run-IsValid g (c ∷ cs) (t, ts) v = run-IsValid (step g c).0 cs ts (step-IsValid g c t v)

step_require : (g : H264SyncGate) (c : Call) → (step g c).0.require_idr_sync ≡ g.require_idr_sync
unfolding step
step_require g (push nal) = ground arith
step_require g discontinuity = refl
step_require g (sprop sps pps) = refl

run_require : (g : H264SyncGate) (cs : List Call) → (run g cs).require_idr_sync ≡ g.require_idr_sync
unfolding run
run_require g [] = refl
run_require g (c ∷ cs) = run_require (step g c).0 cs ∙ step_require g c

-- After any history of NALs, discontinuities and out-of-band parameter sets of the right types, a
-- gate made with `new(true)` and then reset lets nothing out until an IDR slice arrives with an SPS
-- and a PPS known: what leaves it for any further NALs is empty, or begins with an SPS, a PPS and
-- an IDR slice, and each later IDR slice stands right behind an SPS and a PPS too.
pub push_all-reset-Start :
    (history : List Call) (nals : List Bytes)
    → AllTyped history
    → Start (push_all (reset (run (new true) history)) nals).1
unfolding step
push_all-reset-Start history nals t =
    let g = run (new true) history in
    let v = run-IsValid (new true) history t (new-IsValid true) in
    let r : g.require_idr_sync ≡ true = run_require (new true) history ∙ unfold new in refl in
    push_all-Start (reset g) nals (step-IsValid g discontinuity tt v) (rw r) r
