-- ===== src/Server/Stream/History.antt =====
-- What enters the ring of `run_stream` in sentinel_rtp_cam/src/server_pipeline.rs, and what is left of it.
use sentinel_video_receiver.Prelude.{
  ℕ, ◌≤◌, ◌≡◌, refl, ap, arith, Bool, true, false, some, List, [], ◌∷◌, ◌++◌, append-nil, Bytes,
  sym, ◌∙◌,
}
use sentinel_video_receiver.H264.Nal.{nal_type_from_annexb}
use sentinel_video_receiver.Clip.Recorder.{seconds}
use sentinel_video_receiver.Live.Stream.{has_idr}
use sentinel_video_receiver.Server.Stream.{AccessUnit, prune_ring}
use sentinel_video_receiver.Server.Stream.Ring.{AllFrom, AllUpTo, Sorted, young, prune_ring-young}

-- The NALs of a unit that can be decoded from its start: an SPS, a PPS, and an IDR slice behind them.
pub record Decodable (au : AccessUnit) : Type 0 where
  pub sps : Bytes
  pub pps : Bytes
  pub nals : List Bytes
  pub nals_lem : au.nals ≡ sps ∷ pps ∷ nals
  pub sps_lem : nal_type_from_annexb sps ≡ some 7
  pub pps_lem : nal_type_from_annexb pps ≡ some 8
  pub idr_lem : has_idr nals ≡ true

-- What befell the stream, in order: its sync was lost, or a unit entered the ring, which was pruned at
-- an instant.
pub data Entry : Type 0 where
  lost : Entry
  entered : ℕ → AccessUnit → Entry

-- The units that entered.
abbrev pub units : List Entry → List AccessUnit
units [] = []
units (lost ∷ log) = units log
units (entered at au ∷ log) = au ∷ units log

-- The last pruning.
abbrev pub last_pruned : ℕ → List Entry → ℕ
last_pruned at [] = at
last_pruned at (lost ∷ log) = last_pruned at log
last_pruned at (entered now au ∷ log) = last_pruned now log

-- Whether the stream is in sync afterwards.
abbrev pub in_sync_after : Bool → List Entry → Bool
in_sync_after synced [] = synced
in_sync_after synced (lost ∷ log) = in_sync_after false log
in_sync_after synced (entered at au ∷ log) = in_sync_after true log

-- Each unit that enters out of sync can be decoded from its start.
abbrev pub Gated : Bool → List Entry → Type 0
Gated synced [] = Unit
Gated synced (lost ∷ log) = Gated false log
Gated synced (entered at au ∷ log) = (synced ≡ false → Decodable au) × Gated true log

-- The ring is what is young enough, as of the last pruning, of the units that entered; these came in the
-- order of their times, and the first one after each loss of sync can be decoded.
pub record History (now ring_secs : ℕ) (synced : Bool) (ring : List AccessUnit) (log : List Entry)
    : Type 0 where
  pub ring_lem : ring ≡ young (last_pruned 0 log) (seconds ring_secs) (units log)
  pub synced_lem : synced ≡ in_sync_after false log
  pub gated_lem : Gated false log
  pub sorted_lem : Sorted (units log)
  pub up_to_lem : AllUpTo now (units log)
  pub pruned_lem : last_pruned 0 log ≤ now

units-append : (log more : List Entry) → units (log ++ more) ≡ units log ++ units more
units-append [] more = refl
units-append (lost ∷ log) more = units-append log more
units-append (entered at au ∷ log) more = ap (◌∷◌ au) (units-append log more)

last_pruned-append :
    (at : ℕ) (log more : List Entry)
    → last_pruned at (log ++ more) ≡ last_pruned (last_pruned at log) more
last_pruned-append at [] more = refl
last_pruned-append at (lost ∷ log) more = last_pruned-append at log more
last_pruned-append at (entered now au ∷ log) more = last_pruned-append now log more

in_sync_after-append :
    (synced : Bool) (log more : List Entry)
    → in_sync_after synced (log ++ more) ≡ in_sync_after (in_sync_after synced log) more
in_sync_after-append synced [] more = refl
in_sync_after-append synced (lost ∷ log) more = in_sync_after-append false log more
in_sync_after-append synced (entered now au ∷ log) more = in_sync_after-append true log more

Gated-append :
    (synced : Bool) (log more : List Entry)
    → Gated synced log
    → Gated (in_sync_after synced log) more
    → Gated synced (log ++ more)
Gated-append synced [] more h k = k
Gated-append synced (lost ∷ log) more h k = Gated-append false log more h k
Gated-append synced (entered now au ∷ log) more (d, h) k = (d, Gated-append true log more h k)

AllUpTo-later : (t u : ℕ) (aus : List AccessUnit) → t ≤ u → AllUpTo t aus → AllUpTo u aus
AllUpTo-later t u [] h all = tt
AllUpTo-later t u (au ∷ aus) h (le, all) = (omega arith, AllUpTo-later t u aus h all)

AllUpTo-append :
    (t : ℕ) (aus : List AccessUnit) (au : AccessUnit)
    → AllUpTo t aus
    → au.ts ≤ t
    → AllUpTo t (aus ++ (au ∷ []))
AllUpTo-append t [] au all h = (h, tt)
AllUpTo-append t (a ∷ aus) au (le, all) h = (le, AllUpTo-append t aus au all h)

AllFrom-append :
    (t : ℕ) (aus : List AccessUnit) (au : AccessUnit)
    → AllFrom t aus
    → t ≤ au.ts
    → AllFrom t (aus ++ (au ∷ []))
AllFrom-append t [] au all h = (h, tt)
AllFrom-append t (a ∷ aus) au (le, all) h = (le, AllFrom-append t aus au all h)

Sorted-append :
    (aus : List AccessUnit) (au : AccessUnit)
    → AllUpTo au.ts aus
    → Sorted aus
    → Sorted (aus ++ (au ∷ []))
Sorted-append [] au all sorted = (tt, tt)
Sorted-append (a ∷ aus) au (le, all) (from, sorted) =
    (AllFrom-append a.ts aus au from le, Sorted-append aus au all sorted)

-- Units that were dropped as too old would be so later too.
young-young :
    (t now keep : ℕ) (aus more : List AccessUnit)
    → t ≤ now
    → young now keep (young t keep aus ++ more) ≡ young now keep (aus ++ more)
young-young t now keep [] more h = refl
young-young t now keep (au ∷ aus) more h = ground (arith, h, young-young t now keep aus more h)

AllFrom-young :
    (t now keep : ℕ) (aus : List AccessUnit) → AllFrom t aus → AllFrom t (young now keep aus)
AllFrom-young t now keep [] all = tt
AllFrom-young t now keep (au ∷ aus) (le, all) = ground (arith, le, AllFrom-young t now keep aus all)

Sorted-young : (now keep : ℕ) (aus : List AccessUnit) → Sorted aus → Sorted (young now keep aus)
Sorted-young now keep [] sorted = tt
Sorted-young now keep (au ∷ aus) (from, sorted) =
    ground (arith, Sorted-young now keep aus sorted, AllFrom-young au.ts now keep aus from)

AllUpTo-young :
    (t now keep : ℕ) (aus : List AccessUnit) → AllUpTo t aus → AllUpTo t (young now keep aus)
AllUpTo-young t now keep [] all = tt
AllUpTo-young t now keep (au ∷ aus) (le, all) = ground (arith, le, AllUpTo-young t now keep aus all)

pub History-later :
    {t u ring_secs : ℕ} {synced : Bool} {ring : List AccessUnit} {log : List Entry}
    → t ≤ u
    → History t ring_secs synced ring log
    → History u ring_secs synced ring log
History-later h history = record {
  ring_lem = history.ring_lem;
  synced_lem = history.synced_lem;
  gated_lem = history.gated_lem;
  sorted_lem = history.sorted_lem;
  up_to_lem = AllUpTo-later _ _ _ h history.up_to_lem;
  pruned_lem = omega (arith, history.pruned_lem);
}

pub History-shut :
    {t ring_secs : ℕ} {synced : Bool} {ring : List AccessUnit} (log : List Entry)
    → History t ring_secs synced ring log
    → History t ring_secs false ring (log ++ (lost ∷ []))
History-shut log history = record {
  ring_lem =
      history.ring_lem
      ∙ rw
          (
            last_pruned-append 0 log (lost ∷ []),
            units-append log (lost ∷ []),
            append-nil (units log),
          )
          refl;
  synced_lem = sym (in_sync_after-append false log (lost ∷ []));
  gated_lem = Gated-append false log (lost ∷ []) history.gated_lem tt;
  sorted_lem = rw (units-append log (lost ∷ []), append-nil (units log)) history.sorted_lem;
  up_to_lem = rw (units-append log (lost ∷ []), append-nil (units log)) history.up_to_lem;
  pruned_lem = rw (last_pruned-append 0 log (lost ∷ [])) history.pruned_lem;
}

-- A unit that the gate admits.
pub data Admissible : Bool → AccessUnit → Type 0 where
  in_sync : {au : AccessUnit} → Admissible true au
  in_order : {au : AccessUnit} → Decodable au → Admissible false au

Admissible-Decodable :
    {synced : Bool} {au : AccessUnit} → Admissible synced au → synced ≡ false → Decodable au
Admissible-Decodable in_sync e = absurd (ground (arith, e))
Admissible-Decodable (in_order d) e = d

pub History-push :
    (synced : Bool) (t now ring_secs : ℕ) (ring : List AccessUnit) (au : AccessUnit)
    (log : List Entry)
    → t ≤ au.ts
    → au.ts ≤ now
    → Admissible synced au
    → History t ring_secs synced ring log
    → History now ring_secs true
        (prune_ring now ring_secs (ring ++ (au ∷ [])))
        (log ++ (entered now au ∷ []))
History-push synced t now ring_secs ring au log h le admissible history =
    let more = entered now au ∷ [] in
    let at = last_pruned 0 log in
    let keep = seconds ring_secs in
    let old = young at keep (units log) in
    let up_to = AllUpTo-later t au.ts (units log) h history.up_to_lem in
    let sorted : Sorted (ring ++ (au ∷ [])) = rw history.ring_lem (
      Sorted-append old au (AllUpTo-young au.ts at keep (units log) up_to)
        (Sorted-young at keep (units log) history.sorted_lem)) in
    let kept : young now keep (ring ++ (au ∷ [])) ≡ young now keep (units log ++ (au ∷ [])) =
      rw history.ring_lem
        (young-young at now keep (units log) (au ∷ []) (omega (arith, history.pruned_lem))) in
    record {
      ring_lem =
          prune_ring-young now ring_secs (ring ++ (au ∷ [])) sorted
          ∙ kept
          ∙ rw (last_pruned-append 0 log more, units-append log more) refl;
      synced_lem = sym (in_sync_after-append false log more);
      gated_lem =
          Gated-append false log more history.gated_lem
            ((λ e. Admissible-Decodable admissible (history.synced_lem ∙ e)), tt);
      sorted_lem =
          rw (units-append log more) (Sorted-append (units log) au up_to history.sorted_lem);
      up_to_lem = rw (units-append log more) (
          AllUpTo-append now (units log) au
            (AllUpTo-later t now (units log) (omega arith) history.up_to_lem) le);
      pruned_lem = rw (last_pruned-append 0 log more) (omega arith);
    }
