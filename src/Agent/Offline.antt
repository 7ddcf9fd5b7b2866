-- ===== src/Agent/Offline.antt =====
-- `OfflineTracker` of sentinel_rtp_cam/src/bin/agent_forward.rs. Instants and durations are
-- nanoseconds; `duration_since` stops at zero.
use sentinel_video_receiver.Prelude.{
  ℕ, ◌-◌, arith, Bool, true, false, not, ◌&&◌, ◌||◌, Option, none, some, List, [], ◌∷◌, ◌++◌, leb,
  if◌then◌else◌, length,
}

pub data OfflineTransition : Type 0 where
  offline online : OfflineTransition

pub record OfflineTracker : Type 0 where
  pub offline_timeout : ℕ
  pub retry_outage : ℕ
  pub retry_count : ℕ
  pub retry_window : ℕ
  pub outage_starts : List ℕ
  pub outage_started_at : Option ℕ
  pub offline : Bool

unfoldable pub new : ℕ → ℕ → ℕ → ℕ → OfflineTracker
new offline_timeout retry_outage retry_count retry_window = record {
  offline_timeout = offline_timeout;
  retry_outage = retry_outage;
  retry_count = retry_count;
  retry_window = retry_window;
  outage_starts = [];
  outage_started_at = none;
  offline = false;
}

abbrev start_or : ℕ → Option ℕ → Option ℕ
start_or now none = some now
start_or now (some started) = some started

unfoldable pub on_outage_started : ℕ → OfflineTracker → OfflineTracker
on_outage_started now t = record t { outage_started_at = start_or now t.outage_started_at }

-- `retain` with `duration_since(started) <= retry_window`.
unfoldable pub retain_recent : ℕ → ℕ → List ℕ → List ℕ
retain_recent now retry_window [] = []
retain_recent now retry_window (started ∷ starts) =
    let rest = retain_recent now retry_window starts in
    if leb (now - started) retry_window then started ∷ rest else rest

unfoldable pub prune : ℕ → OfflineTracker → OfflineTracker
prune now t = record t { outage_starts = retain_recent now t.retry_window t.outage_starts }

-- The starts with the outage that ended, if it was long.
abbrev ended_outage : ℕ → ℕ → Option ℕ → List ℕ → List ℕ
ended_outage now retry_outage none starts = starts
ended_outage now retry_outage (some started) starts =
    if leb retry_outage (now - started) then starts ++ (started ∷ []) else starts

unfoldable pub on_outage_recovered : ℕ → OfflineTracker → OfflineTracker × Option OfflineTransition
on_outage_recovered now t =
    let t' = prune now (record t {
      outage_started_at = none;
      outage_starts = ended_outage now t.retry_outage t.outage_started_at t.outage_starts;
    }) in
    if t'.offline then (record t' { offline = false }, some online) else (t', none)

abbrev pub lasts : ℕ → ℕ → Option ℕ → Bool
lasts now timeout none = false
lasts now timeout (some started) = leb timeout (now - started)

unfoldable pub evaluate : ℕ → OfflineTracker → OfflineTracker × Option OfflineTransition
evaluate now t =
    let t' = prune now t in
    let continuous = lasts now t'.offline_timeout t'.outage_started_at in
    let burst = leb t'.retry_count (length t'.outage_starts) in
    if (continuous || burst) && not t'.offline
    then (record t' { offline = true }, some offline)
    else (t', none)

pub data OfflineEvent : Type 0 where
  outage_started outage_recovered evaluated : ℕ → OfflineEvent

unfoldable pub step : OfflineEvent → OfflineTracker → OfflineTracker × Option OfflineTransition
step (outage_started now) t = (on_outage_started now t, none)
step (outage_recovered now) t = on_outage_recovered now t
step (evaluated now) t = evaluate now t

abbrev reported : Option OfflineTransition → List OfflineTransition → List OfflineTransition
reported none rest = rest
reported (some transition) rest = transition ∷ rest

-- The transitions that a sequence of calls reports.
unfoldable pub transitions : List OfflineEvent → OfflineTracker → List OfflineTransition
transitions [] t = []
transitions (event ∷ events) t =
    let (t', transition) = step event t in reported transition (transitions events t')

-- Transitions that alternate; the flag is whether the camera is offline before them.
abbrev pub Alternate : Bool → List OfflineTransition → Type 0
Alternate is_offline [] = Unit
Alternate true (online ∷ ts) = Alternate false ts
Alternate true (offline ∷ ts) = ⊥
Alternate false (offline ∷ ts) = Alternate true ts
Alternate false (online ∷ ts) = ⊥

step_lem :
    (event : OfflineEvent) (t : OfflineTracker) (rest : List OfflineTransition)
    → Alternate (step event t).0.offline rest
    → Alternate t.offline (reported (step event t).1 rest)
unfolding step on_outage_started on_outage_recovered evaluate prune
step_lem (outage_started now) t rest h = h
step_lem (outage_recovered now) t rest h = ground (arith, h)
step_lem (evaluated now) t rest h = ground (arith, h)

transitions-Alternate :
    (events : List OfflineEvent) (t : OfflineTracker) → Alternate t.offline (transitions events t)
unfolding transitions
transitions-Alternate [] t = tt
transitions-Alternate (event ∷ events) t =
    let t' = (step event t).0 in
    step_lem event t (transitions events t') (transitions-Alternate events t')

-- Whatever a new tracker is told, and at whatever times, the transitions that it reports are in turn
-- offline and online, the first one offline.
pub transitions-new-Alternate :
    (offline_timeout retry_outage retry_count retry_window : ℕ) (events : List OfflineEvent)
    → Alternate false
        (transitions events (new offline_timeout retry_outage retry_count retry_window))
unfolding new
transitions-new-Alternate a b c d events = transitions-Alternate events (new a b c d)
