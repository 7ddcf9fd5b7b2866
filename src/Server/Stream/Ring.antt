-- ===== src/Server/Stream/Ring.antt =====
-- What `prune_ring` of sentinel_rtp_cam/src/server_pipeline.rs leaves of the ring.
use sentinel_video_receiver.Prelude.{
  ℕ, ◌-◌, ◌≤◌, ◌≡◌, refl, arith, List, [], ◌∷◌, leb, if◌then◌else◌,
}
use sentinel_video_receiver.Clip.Recorder.{seconds}
use sentinel_video_receiver.Server.Stream.{AccessUnit, prune_front, prune_ring}

-- Every unit is of an instant or later, and of an instant or earlier.
abbrev pub AllFrom : ℕ → List AccessUnit → Type 0
AllFrom t [] = Unit
AllFrom t (au ∷ aus) = (t ≤ au.ts) × AllFrom t aus

abbrev pub AllUpTo : ℕ → List AccessUnit → Type 0
AllUpTo t [] = Unit
AllUpTo t (au ∷ aus) = (au.ts ≤ t) × AllUpTo t aus

-- The units are in the order of their times.
abbrev pub Sorted : List AccessUnit → Type 0
Sorted [] = Unit
Sorted (au ∷ aus) = AllFrom au.ts aus × Sorted aus

-- The units that are not older than a duration.
abbrev pub young : ℕ → ℕ → List AccessUnit → List AccessUnit
young now keep [] = []
young now keep (au ∷ aus) =
    let rest = young now keep aus in if leb (now - au.ts) keep then au ∷ rest else rest

young_all :
    (now keep t : ℕ) (aus : List AccessUnit)
    → now - t ≤ keep
    → AllFrom t aus
    → young now keep aus ≡ aus
young_all now keep t [] h all = refl
young_all now keep t (au ∷ aus) h (from, all) = ground (arith, young_all now keep t aus h all)

prune_front-young :
    (now keep : ℕ) (ring : List AccessUnit)
    → Sorted ring
    → prune_front now keep ring ≡ young now keep ring
unfolding prune_front
prune_front-young now keep [] sorted = refl
prune_front-young now keep (au ∷ aus) (all, sorted) =
    ground (arith, prune_front-young now keep aus sorted, young_all now keep au.ts aus)

-- On a ring whose units are in the order of their times, popping at the front until a unit is young
-- enough leaves exactly the units that are at most `ring_secs` old.
pub prune_ring-young :
    (now ring_secs : ℕ) (ring : List AccessUnit)
    → Sorted ring
    → prune_ring now ring_secs ring ≡ young now (seconds ring_secs) ring
unfolding prune_ring
prune_ring-young now ring_secs ring sorted = prune_front-young now (seconds ring_secs) ring sorted
