-- ===== src/H264/SyncGate.antt =====
-- sentinel_rtp_cam/src/core/h264_sync.rs: the gate that holds NALs back until a decodable start.
pub mod Start
use sentinel_video_receiver.Prelude.{
  ℕ, Bool, true, false, not, Option, none, some, List, [], ◌∷◌, ◌++◌, ◌==◌, if◌then◌else◌, Bytes,
}
use sentinel_video_receiver.H264.Nal.{nal_type_from_annexb}

pub record H264SyncGate : Type 0 where
  pub require_idr_sync : Bool
  pub synced : Bool
  pub last_sps : Option Bytes
  pub last_pps : Option Bytes

unfoldable pub new : Bool → H264SyncGate
new require_idr_sync = record {
  require_idr_sync = require_idr_sync;
  synced = not require_idr_sync;
  last_sps = none;
  last_pps = none;
}

unfoldable pub reset : H264SyncGate → H264SyncGate
reset g = record g { synced = not g.require_idr_sync }

unfoldable pub set_sprop_param_sets : H264SyncGate → Bytes → Bytes → H264SyncGate
set_sprop_param_sets g sps pps = record g { last_sps = some sps; last_pps = some pps }

-- `if let (Some(sps), Some(pps)) = (last_sps, last_pps)`, as the parameter sets in a list.
abbrev param_sets : Option Bytes → Option Bytes → Option (List Bytes)
param_sets (some sps) (some pps) = some (sps ∷ pps ∷ [])
param_sets (some sps) none = none
param_sets none pps = none

-- An IDR slice while the gate is shut.
abbrev unsynced_idr : H264SyncGate → Bytes → Option (List Bytes) → H264SyncGate × List Bytes
unsynced_idr g nal (some sets) = (record g { synced = true }, sets ++ (nal ∷ []))
unsynced_idr g nal none = (g, [])

-- An IDR slice while the gate is open.
abbrev synced_idr : Bytes → Option (List Bytes) → List Bytes
synced_idr nal (some sets) = sets ++ (nal ∷ [])
synced_idr nal none = nal ∷ []

abbrev push_typed : H264SyncGate → Bytes → Option ℕ → H264SyncGate × List Bytes
push_typed g nal none = (g, [])
push_typed g nal (some nt) =
    if nt == 7
    then (record g { last_sps = some nal }, [])
    else if nt == 8
    then (record g { last_pps = some nal }, [])
    else if not g.synced
    then (if nt == 5 then unsynced_idr g nal (param_sets g.last_sps g.last_pps) else (g, []))
    else if nt == 5
    then (g, synced_idr nal (param_sets g.last_sps g.last_pps))
    else (g, nal ∷ [])

unfoldable pub push_nal : H264SyncGate → Bytes → H264SyncGate × List Bytes
push_nal g nal = push_typed g nal (nal_type_from_annexb nal)
