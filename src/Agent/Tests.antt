-- ===== src/Agent/Tests.antt =====
-- The unit tests of `OfflineTracker` and of the retries, and instances.
use sentinel_video_receiver.Prelude.{
  ℕ, zero, suc, ◌*◌, ◌^◌, min, ◌≡◌, refl, arith, false, List, [], ◌∷◌, text_same,
}
use sentinel_video_receiver.Agent.Offline
use sentinel_video_receiver.Agent.Offline.{
  OfflineEvent, OfflineTransition, offline, online, outage_started, outage_recovered, evaluated,
  new, transitions, Alternate, transitions-new-Alternate,
}
use sentinel_video_receiver.Agent.Retry.{
  RetryCfg, Answer, response, retryable_status, ok, err, default, is_retryable_status, contains,
  is_retryable_reqwest_err, exp_backoff, is_retryable, error_of, returned, attempts, retry_request,
  retry_request-returned, retry_request-exhausted, exp_backoff-min,
}

program : Unit {0}
unfolding text_same Offline.new Offline.on_outage_started Offline.retain_recent Offline.prune
    Offline.on_outage_recovered Offline.evaluate Offline.step Offline.transitions
    is_retryable_status contains is_retryable_reqwest_err exp_backoff is_retryable error_of returned
    attempts retry_request
program = tt

-- A long outage, reported once, and its end.
abbrev outage : List OfflineEvent
outage =
    outage_started 0
    ∷ evaluated 5
    ∷ evaluated 10
    ∷ evaluated 20
    ∷ outage_recovered 30
    ∷ evaluated 31
    ∷ []

outage_reported : transitions outage (new 10 3 2 100) ≡ offline ∷ online ∷ []
unfolding program
outage_reported = refl

-- Two short outages within the window.
burst_reported :
    transitions
      (outage_started 0
        ∷ outage_recovered 4
        ∷ evaluated 5
        ∷ outage_started 6
        ∷ outage_recovered 10
        ∷ evaluated 11
        ∷ [])
      (new 10 3 2 100)
    ≡ offline ∷ []
unfolding program
burst_reported = refl

transitions-new-Alternate_example : Alternate false (offline ∷ online ∷ [])
unfolding program
transitions-new-Alternate_example = transitions-new-Alternate 10 3 2 100 outage

-- Two answers 503, then 200.
abbrev third_time : ℕ → Answer
third_time zero = response 503
third_time (suc zero) = response 503
third_time (suc (suc k)) = response 200

retry_request-returned_example :
    retry_request default third_time ≡ (200000000 ∷ 400000000 ∷ [], ok 200)
unfolding program
retry_request-returned_example =
    retry_request-returned default third_time 2 (omega arith) (refl, (refl, tt)) refl

abbrev twice : RetryCfg
twice = record { max_attempts = 2; base_delay = 200; max_delay = 300 }

retry_request-exhausted_example :
    retry_request twice third_time ≡ (200 ∷ 300 ∷ [], err (retryable_status 503))
unfolding program
retry_request-exhausted_example = retry_request-exhausted twice third_time 1 refl (refl, (refl, tt))

exp_backoff-min_example :
    exp_backoff 3 200000000 3000000000 ≡ min (200000000 * 2 ^ min 3 20) 3000000000
exp_backoff-min_example = exp_backoff-min 3 200000000 3000000000 (omega arith)
