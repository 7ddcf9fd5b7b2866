-- ===== src/Server/Stream/Invariant.antt =====
-- What holds of the variables of `run_stream` in sentinel_rtp_cam/src/server_pipeline.rs, in any order
-- of its rounds.
use sentinel_video_receiver.Prelude.{
  ℕ, ◌≤◌, ◌≡◌, refl, sym, ap, ◌∙◌, arith, Bool, true, false, ◌||◌, Option, none, some, List, [],
  ◌∷◌, ◌++◌, append-nil, Bytes,
}
use sentinel_video_receiver.H264.Nal.{nal_type_from_annexb}
use sentinel_video_receiver.H264.SyncGate.Start.{HasType}
use sentinel_video_receiver.Live.Stream.{has_idr, is_some, is_idr}
use sentinel_video_receiver.Server.Stream.{
  AccessUnit, StreamState, Found, note_nal, scan_nals, drop_input,
}
use sentinel_video_receiver.Server.Stream.History.{
  Entry, lost, entered, Admissible, in_sync, in_order, History, History-later, History-shut,
  History-push,
}
use sentinel_video_receiver.Server.Stream.Messages.{
  Reads, lose_input, on_gap, on_error, on_motion, admit, push_ring,
}

-- Parameter sets kept are of their types, and are known in sync; the ring has its history. While a
-- clip is pending there is no clip under way, and there is a snapshot just then.
pub record WellFormed (now ring_secs : ℕ) (log : List Entry) (p : StreamState) : Type 0 where
  pub sps_lem : HasType 7 p.sps
  pub pps_lem : HasType 8 p.pps
  pub synced_lem : p.synced ≡ true → (is_some p.sps ≡ true) × (is_some p.pps ≡ true)
  pub history_lem : History now ring_secs p.synced p.ring log
  pub pending_lem : p.clip_pending ≡ true → is_some p.clip ≡ false
  pub snapshot_lem : is_some p.pending_ring_snapshot ≡ p.clip_pending

-- One NAL, of the type that it has.
note_nal_lem :
    (t : Option ℕ) (nal : Bytes) (found : Found)
    → nal_type_from_annexb nal ≡ t
    → HasType 7 found.sps
    → HasType 8 found.pps
    → let found' = note_nal t nal found in
      HasType 7 found'.sps
      × HasType 8 found'.pps
      × (found'.has_idr ≡ found.has_idr || is_idr t)
      × (is_some found.sps ≡ true → is_some found'.sps ≡ true)
      × (is_some found.pps ≡ true → is_some found'.pps ≡ true)
unfolding is_idr
note_nal_lem none nal found e h k = ground (arith, h, k)
note_nal_lem (some t) nal found e h k = ground (arith, h, k, e)

or_assoc : (a b c : Bool) → (a || b) || c ≡ a || (b || c)
or_assoc true b c = refl
or_assoc false b c = refl

pub scan_nals_lem :
    (nals : List Bytes) (found : Found)
    → HasType 7 found.sps
    → HasType 8 found.pps
    → let found' = scan_nals nals found in
      HasType 7 found'.sps
      × HasType 8 found'.pps
      × (found'.has_idr ≡ found.has_idr || has_idr nals)
      × (is_some found.sps ≡ true → is_some found'.sps ≡ true)
      × (is_some found.pps ≡ true → is_some found'.pps ≡ true)
unfolding scan_nals has_idr
scan_nals_lem [] found h k = ground arith
scan_nals_lem (nal ∷ nals) found h k =
    let t = nal_type_from_annexb nal in
    let (h', k', idr, keep_sps, keep_pps) = note_nal_lem t nal found refl h k in
    let (h₁, k₁, idr₁, keep_sps₁, keep_pps₁) = scan_nals_lem nals (note_nal t nal found) h' k' in
    (
      h₁,
      k₁,
      idr₁
          ∙ ap (λ (b : Bool). b || has_idr nals) idr
          ∙ or_assoc found.has_idr (is_idr t) (has_idr nals),
      (λ e. keep_sps₁ (keep_sps e)),
      (λ e. keep_pps₁ (keep_pps e)),
    )

pub admit-Admissible :
    (synced : Bool) (au : AccessUnit) (sps pps : Option Bytes) {au' : AccessUnit}
    → HasType 7 sps
    → HasType 8 pps
    → au.has_idr ≡ has_idr au.nals
    → admit synced au sps pps ≡ some au'
    → Admissible synced au'
      × (au'.ts ≡ au.ts)
      × (synced ≡ false → (is_some sps ≡ true) × (is_some pps ≡ true))
unfolding admit
admit-Admissible true au sps pps h k e a = (in_sync, ground (arith, a), λ e. absurd (ground arith))
admit-Admissible false au (some sps) (some pps) {au'} h k e a =
    let opens : au.has_idr ≡ true → Admissible false (record au { nals = sps ∷ pps ∷ au.nals }) =
      λ i. in_order (record {
        sps = sps;
        pps = pps;
        nals = au.nals;
        nals_lem = refl;
        sps_lem = h;
        pps_lem = k;
        idr_lem = sym e ∙ i;
      }) in
    ground (arith, a, opens)
admit-Admissible false au (some sps) none h k e a = cc
admit-Admissible false au none pps h k e a = cc

module _ (now ring_secs : ℕ) (log : List Entry) where
  pub WellFormed-drop :
      (p : StreamState)
      → WellFormed now ring_secs log p
      → WellFormed now ring_secs (log ++ (lost ∷ [])) (drop_input p)
  unfolding drop_input
  WellFormed-drop p w = record {
    sps_lem = w.sps_lem;
    pps_lem = w.pps_lem;
    synced_lem = λ e. absurd (ground arith);
    history_lem = History-shut log w.history_lem;
    pending_lem = w.pending_lem;
    snapshot_lem = w.snapshot_lem;
  }

  pub WellFormed-lose :
      (p : StreamState)
      → WellFormed now ring_secs log p
      → WellFormed now ring_secs (log ++ (lost ∷ [])) (lose_input p)
  unfolding lose_input
  WellFormed-lose p w = ground (arith, WellFormed-drop p w)

  pub on_error-WellFormed :
      (reads : Reads) (p : StreamState)
      → WellFormed now ring_secs log p
      → WellFormed now ring_secs (log ++ (lost ∷ [])) (on_error reads p)
  unfolding on_error
  on_error-WellFormed reads p w = WellFormed-lose _ (ground (arith, w))

  pub on_gap-WellFormed :
      (reads : Reads) (p : StreamState)
      → WellFormed now ring_secs log p
      → WellFormed now ring_secs (log ++ (lost ∷ [])) (on_gap reads p)
  unfolding on_gap
  on_gap-WellFormed reads p w = WellFormed-lose _ (ground (arith, w))

  pub on_motion-WellFormed :
      (reads : Reads) (rule : _) (active : Bool) (p : StreamState)
      → WellFormed now ring_secs log p
      → WellFormed now ring_secs log (on_motion reads rule active p)
  unfolding on_motion
  on_motion-WellFormed reads rule active p w = ground (arith, w)

  -- The state of `on_marker` when a unit is made.
  pub push_ring-WellFormed :
      (reads : Reads) (au : AccessUnit) (p : StreamState)
      → now ≤ au.ts
      → au.ts ≤ reads.pruned_at
      → Admissible p.synced au
      → (p.synced ≡ false → (is_some p.sps ≡ true) × (is_some p.pps ≡ true))
      → WellFormed now ring_secs log p
      → WellFormed reads.pruned_at ring_secs
          (log ++ (entered reads.pruned_at au ∷ []))
          (push_ring reads ring_secs au p)
  unfolding push_ring
  push_ring-WellFormed reads au p le le' a known w = record {
    sps_lem = w.sps_lem;
    pps_lem = w.pps_lem;
    synced_lem = λ e. ground (arith, known, w.synced_lem);
    history_lem =
        History-push p.synced now reads.pruned_at ring_secs p.ring au log le le' a w.history_lem;
    pending_lem = w.pending_lem;
    snapshot_lem = w.snapshot_lem;
  }

  pub WellFormed-later :
      (u : ℕ) (p : StreamState)
      → now ≤ u
      → WellFormed now ring_secs log p
      → WellFormed u ring_secs log p
  WellFormed-later u p h w = record {
    sps_lem = w.sps_lem;
    pps_lem = w.pps_lem;
    synced_lem = w.synced_lem;
    history_lem = History-later h w.history_lem;
    pending_lem = w.pending_lem;
    snapshot_lem = w.snapshot_lem;
  }

  -- Nothing befell the stream.
  pub WellFormed-quiet :
      (u : ℕ) (p : StreamState)
      → now ≤ u
      → WellFormed now ring_secs log p
      → WellFormed u ring_secs (log ++ []) p
  WellFormed-quiet u p h w = rw (append-nil log) (WellFormed-later u p h w)
