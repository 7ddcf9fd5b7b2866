-- ===== src/Motion/Latch/Period.antt =====
-- The latch as one state machine for each camera and rule.
use sentinel_video_receiver.Prelude.{
  ℕ, ◌+◌, ◌≡◌, refl, arith, Bool, leb, ◌&&◌, true, false, Option, none, some, List, [], ◌∷◌,
  if◌then◌else◌, Text, pair_same, pair_same_iff, pair_key, get, get-insert, get-remove, Bool-cases,
  inl, inr, ap, ◌∙◌, sym,
}
use sentinel_video_receiver.Motion.Event.{MotionEvent}
use sentinel_video_receiver.Motion.Latch.{
  EndedMotion, LatchKey, MotionEventIdLatch, key_of, in_grace, normalize,
}

-- What the latch knows of one key: no motion yet, a motion under way with its event id, or one that
-- ended at a time.
pub data Phase : Type 0 where
  quiet : Phase
  moving : Text → Phase
  stopped : Text → ℕ → Phase

-- Not before a time, and at most `grace` later.
abbrev pub at_most_after : ℕ → ℕ → ℕ → Bool
at_most_after grace at ts = leb at ts && leb ts (at + grace)

-- The specification: one event of this key. The result is the event id to send on.
abbrev pub phase_start : ℕ → MotionEvent → Phase → Phase × Text
phase_start grace event quiet = (moving event.event_id, event.event_id)
phase_start grace event (moving event_id) = (moving event_id, event_id)
phase_start grace event (stopped event_id at) =
    let id = if at_most_after grace at event.ts then event_id else event.event_id in (moving id, id)

abbrev pub phase_end : MotionEvent → Phase → Phase × Text
phase_end event (moving event_id) = (stopped event_id event.ts, event_id)
phase_end event quiet = (stopped event.event_id event.ts, event.event_id)
phase_end event (stopped _ _) = (stopped event.event_id event.ts, event.event_id)

abbrev pub phase_step : ℕ → MotionEvent → Phase → Phase × Text
phase_step grace event p = if event.active then phase_start grace event p else phase_end event p

abbrev view : Option Text → Option EndedMotion → Phase
view (some event_id) ended = moving event_id
view none (some ended) = stopped ended.event_id ended.ended_at
view none none = quiet

abbrev pub phase : LatchKey → MotionEventIdLatch → Phase
phase key latch = view (get key latch.active) (get key latch.ended)

in_grace-at_most_after : (grace at ts : ℕ) → in_grace grace at ts ≡ at_most_after grace at ts
in_grace-at_most_after grace at ts = ground arith

-- The latch implements the specification, key by key: one event makes its own key take the step of
-- the specification and leaves every other key as it was; the event that is sent on has the event id of
-- the specification, and its camera, rule, flag and time are unchanged; the grace window stays.
pub normalize-phase_step :
    (latch : MotionEventIdLatch) (event : MotionEvent) (key : LatchKey)
    → let (latch', event') = normalize latch event in
      let step = phase_step latch.grace_window event (phase (key_of event) latch) in
      (phase key latch' ≡ (if pair_same (key_of event) key then step.0 else phase key latch))
      × (event' ≡ record event { event_id = step.1 })
      × (latch'.grace_window ≡ latch.grace_window)
unfolding normalize
normalize-phase_step latch event key =
    grind (arith, pair_same_iff (key_of event) key, get-insert, get-remove, in_grace-at_most_after)

pub run : MotionEventIdLatch → List MotionEvent → MotionEventIdLatch × List MotionEvent
run latch [] = (latch, [])
run latch (event ∷ events) =
    let (latch', event') = normalize latch event in
    let (latch'', events') = run latch' events in (latch'', event' ∷ events')

-- No event of the list ends the motion of this key.
abbrev pub NoEnd : LatchKey → List MotionEvent → Type 0
NoEnd key [] = Unit
NoEnd key (event ∷ events) =
    (pair_same (key_of event) key ≡ true → event.active ≡ true) × NoEnd key events

-- Every event of this key has this event id.
abbrev pub HasId : LatchKey → Text → List MotionEvent → Type 0
HasId key id [] = Unit
HasId key id (event ∷ events) =
    (pair_same (key_of event) key ≡ true → event.event_id ≡ id) × HasId key id events

normalize-moving :
    (latch : MotionEventIdLatch) (event : MotionEvent) (key : LatchKey) (id : Text)
    → phase key latch ≡ moving id
    → (pair_same (key_of event) key ≡ true → event.active ≡ true)
    → (phase key (normalize latch event).0 ≡ moving id)
      × (pair_same (key_of event) key ≡ true → (normalize latch event).1.event_id ≡ id)
      × (key_of (normalize latch event).1 ≡ key_of event)
normalize-moving latch event key id p h =
    let (next, sent, _) = normalize-phase_step latch event key in
    elim (Bool-cases (pair_same (key_of event) key)) [
      | inl same ↦
          let here : phase (key_of event) latch ≡ moving id =
            ap (λ k. phase k latch) ((pair_same_iff (key_of event) key).0 same) ∙ p in
          let step : phase_step latch.grace_window event (phase (key_of event) latch)
              ≡ (moving id, id) =
            rw (here, h same) in
          (
            next ∙ rw same (ap (λ s. s.0) step),
            λ _. ap (λ e. e.event_id) sent ∙ ap (λ s. s.1) step,
            ap key_of sent,
          )
      | inr apart ↦ (next ∙ rw apart p, λ same. cc, ap key_of sent)
    ]

run-moving :
    (latch : MotionEventIdLatch) (events : List MotionEvent) (key : LatchKey) (id : Text)
    → phase key latch ≡ moving id
    → NoEnd key events
    → (phase key (run latch events).0 ≡ moving id) × HasId key id (run latch events).1
unfolding run
run-moving latch [] key id p h = (p, tt)
run-moving latch (event ∷ events) key id p (h, hs) =
    let (p', sent, k) = normalize-moving latch event key id p h in
    let (last, rest) = run-moving (normalize latch event).0 events key id p' hs in
    (last, (λ same. sent (ap (λ k. pair_same k key) (sym k) ∙ same), rest))

phase_start-moving :
    (grace : ℕ) (event : MotionEvent) (p : Phase)
    → (phase_start grace event p).0 ≡ moving (phase_start grace event p).1
phase_start-moving grace event quiet = refl
phase_start-moving grace event (moving id) = refl
phase_start-moving grace event (stopped id at) = refl

normalize-start :
    (latch : MotionEventIdLatch) (start : MotionEvent)
    → start.active ≡ true
    → phase (key_of start) (normalize latch start).0 ≡ moving (normalize latch start).1.event_id
normalize-start latch start h =
    let (next, sent, _) = normalize-phase_step latch start (key_of start) in
    let p = phase (key_of start) latch in
    let step : phase_step latch.grace_window start p ≡ phase_start latch.grace_window start p =
      rw h in
    next
    ∙ rw ((pair_same_iff (key_of start) (key_of start)).1 refl) (
        ap (λ s. s.0) step
        ∙ phase_start-moving latch.grace_window start p
        ∙ ap moving (sym (ap (λ e. e.event_id) sent ∙ ap (λ s. s.1) step)))

-- One event id for a whole motion: after a start of a camera and rule, whatever the latch held, and
-- with any further events among which none ends this motion (repeated starts, other cameras and
-- rules), every event of this camera and rule is sent on with the id of that start as it was sent
-- on, and so is the end that follows.
pub run-HasId :
    (latch : MotionEventIdLatch) (start : MotionEvent) (events : List MotionEvent)
    (end : MotionEvent)
    → start.active ≡ true
    → NoEnd (key_of start) events
    → end.active ≡ false
    → key_of end ≡ key_of start
    → let id = (normalize latch start).1.event_id in
      let (latch', sent) = run (normalize latch start).0 events in
      HasId (key_of start) id sent × ((normalize latch' end).1.event_id ≡ id)
run-HasId latch start events end h hs e k =
    let id = (normalize latch start).1.event_id in
    let latch₁ = (normalize latch start).0 in
    let (last, sent) =
      run-moving latch₁ events (key_of start) id (normalize-start latch start h) hs in
    let latch' = (run latch₁ events).0 in
    let here : phase (key_of end) latch' ≡ moving id = ap (λ k. phase k latch') k ∙ last in
    let (_, out, _) = normalize-phase_step latch' end (key_of end) in
    (sent, ap (λ e. e.event_id) out ∙ rw (here, e))
