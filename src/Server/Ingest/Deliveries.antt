-- ===== src/Server/Ingest/Deliveries.antt =====
-- What becomes of a message in sentinel_rtp_cam/src/bin/server_ingest.rs, and of a stream that is evicted.
use sentinel_video_receiver.Prelude.{
  ℕ, ◌≤◌, ◌≡◌, ◌∙◌, ◌⊎◌, inl, inr, refl, arith, Bool, true, false, Option, none, some, List, [],
  ◌∷◌, ◌++◌, length, get, get-insert, get-remove, number_key, dec_lt, lt→ltb, le→ltb,
}
use sentinel_video_receiver.Server.Stream.{StreamMsg}
use sentinel_video_receiver.Server.Ingest.{
  Others, reopen, Channel, Task, Shared, capacity, is_open, create_stream, ensure_stream,
  try_send_stream_msg, evict_stream_if_same_sender, recreate, send_or_recreate_stream_msg, clean_up,
}
use sentinel_video_receiver.Server.Ingest.Routes.{Steps}
use sentinel_video_receiver.Server.Ingest.Endings.{Ended, Steps-is_open}
use sentinel_video_receiver.Server.Ingest.Ready.{
  Ready, create_stream_lem, channel_open_lem, ensure_stream-Ready,
}

-- Sending on an open channel leaves the table as it is, and queues the message if there is room.
try_send_open :
    (tx : ℕ) (msg : StreamMsg) (w : Shared) (queue : List StreamMsg)
    → get tx w.channels ≡ some (record { queue = queue; is_open = true })
    → let (w', back) = try_send_stream_msg tx msg w in
      (back ≡ none)
      × (w'.streams ≡ w.streams)
      × ((get tx w'.channels ≡ some (record { queue = queue ++ (msg ∷ []); is_open = true }))
          ⊎ ((w' ≡ w) × (capacity ≤ length queue)))
unfolding try_send_stream_msg
try_send_open tx msg w queue c =
    let channel : Channel = record { queue = queue ++ (msg ∷ []); is_open = true } in
    let stored = get-insert tx tx channel w.channels in
    elim (dec_lt (length queue) capacity) [
      | yes room ↦
          rw (c, lt→ltb (length queue) capacity room) (refl, refl, inl (ground (arith, stored)))
      | no no_room ↦
          rw (c, le→ltb capacity (length queue) (omega (arith, no_room)))
            (refl, refl, inr (refl, omega (arith, no_room)))
    ]

try_send_closed :
    (tx : ℕ) (msg : StreamMsg) (w : Shared) (channel : Option Channel)
    → get tx w.channels ≡ channel
    → is_open w tx ≡ false
    → try_send_stream_msg tx msg w ≡ (w, some msg)
unfolding try_send_stream_msg is_open
try_send_closed tx msg w none e o = ground (arith, e, o)
try_send_closed tx msg w (some c) e o = ground (arith, e, o)

-- A message for a stream is to be sent on a channel.
module _ (others : Others) (stream_id tx : ℕ) (msg : StreamMsg) (w : Shared) where
  -- The state after the stream was asked for again, and the channel that this gave.
  abbrev pub reopened : Shared × ℕ
  reopened = reopen others stream_id tx w

  -- The channel was asked for again: that was closed, and this is the one that the table then had for
  -- the stream, open.
  pub record Fresh (rx : ℕ) : Type 0 where
    pub closed_lem : is_open w tx ≡ false
    pub fresh_lem : rx ≡ reopened.1
    pub ready_lem : Ready stream_id rx reopened.0

  -- What becomes of the message: it is last in the queue of the channel, which is open; or that queue
  -- was full; or the channel was closed, and the pipeline of the one that was asked for in its place
  -- ended before the message was sent on that.
  pub data Fate (w' : Shared) : Type 0 where
    queued :
        (rx : ℕ) (queue : List StreamMsg)
        → get rx w'.channels ≡ some (record { queue = queue ++ (msg ∷ []); is_open = true })
        → (rx ≡ tx) ⊎ Fresh rx
        → Fate w'
    full :
        (rx : ℕ) (queue : List StreamMsg)
        → get rx w'.channels ≡ some (record { queue = queue; is_open = true })
        → capacity ≤ length queue
        → (rx ≡ tx) ⊎ Fresh rx
        → Fate w'
    pipeline_ended :
        Fresh reopened.1 → Ended reopened.1 reopened.0 (others.before_send reopened.0) → Fate w'

  -- Sending on an open channel that is for the stream.
  try_send-Fate :
      (rx : ℕ) (u : Shared)
      → is_open u rx ≡ true
      → (rx ≡ tx) ⊎ Fresh rx
      → Fate (try_send_stream_msg rx msg u).0
  try_send-Fate rx u o for =
      let (queue, c) = channel_open_lem rx u (get rx u.channels) refl o in
      let (_, _, sent) = try_send_open rx msg u queue c in
      elim sent [
        | inl stored ↦ queued rx queue stored for
        | inr (same, le) ↦ full rx queue (rw same c) le for
      ]

  reopened-Fresh : is_open w tx ≡ false → Fresh reopened.1
  unfolding reopen
  reopened-Fresh o = record {
    closed_lem = o;
    fresh_lem = refl;
    ready_lem =
        ensure_stream-Ready stream_id none
          (others.before_ensure (evict_stream_if_same_sender stream_id tx (others.before_evict w)));
  }

  Fresh-is_open : {rx : ℕ} → Fresh rx → is_open reopened.0 rx ≡ true
  unfolding is_open
  Fresh-is_open fresh = rw fresh.ready_lem.channel_lem refl

  send_back :
      (is_open' : Bool)
      → ((u : Shared) → Steps u (others.before_send u))
      → is_open w tx ≡ is_open'
      → let (w', back) = try_send_stream_msg tx msg w in Fate (recreate others stream_id tx w' back)
  send_back true steps o =
      let (queue, c) = channel_open_lem tx w (get tx w.channels) refl o in
      let (back, _, _) = try_send_open tx msg w queue c in rw back (try_send-Fate tx w o (inl refl))
  send_back false steps o =
      let closed = try_send_closed tx msg w (get tx w.channels) refl o in
      let fresh = reopened-Fresh o in
      rw closed (elim (Steps-is_open reopened.1 (steps reopened.0) (Fresh-is_open fresh)) [
        | inl o' ↦ try_send-Fate reopened.1 (others.before_send reopened.0) o' (inr fresh)
        | inr ended ↦ pipeline_ended fresh ended
      ])

-- Whatever the state of the table and its channels is when a message is to be sent for a stream on a
-- channel, and whatever other connections and tasks do in between: afterwards the message is last in
-- the queue of an open channel, or it was dropped because that queue was full. The channel is that one
-- or, only if that one is closed, the one that the stream is given when it is asked for again, which the
-- table has then. The message is lost otherwise only if a pipeline that reads this fresh channel ends
-- between the two.
pub send_or_recreate-Fate :
    (others : Others) (stream_id tx : ℕ) (msg : StreamMsg) (w : Shared)
    → ((u : Shared) → Steps u (others.before_send u))
    → Fate others stream_id tx msg w (send_or_recreate_stream_msg others stream_id tx msg w)
unfolding send_or_recreate_stream_msg
send_or_recreate-Fate others stream_id tx msg w steps =
    send_back others stream_id tx msg w (is_open w tx) steps refl

evict_lem :
    (stream_id tx generation : ℕ) (w : Shared)
    → get stream_id w.streams ≡ some (record { tx = tx; generation = generation })
    → get stream_id (evict_stream_if_same_sender stream_id tx w).streams ≡ none
unfolding evict_stream_if_same_sender
evict_lem stream_id tx generation w h = ground (arith, h, get-remove stream_id stream_id w.streams)

ensure_absent :
    (stream_id : ℕ) (w : Shared)
    → get stream_id w.streams ≡ none
    → ensure_stream stream_id none w ≡ create_stream stream_id none w
unfolding ensure_stream
ensure_absent stream_id w h = rw h refl

clean_up_lem :
    (task : Task) (w : Shared) (tx : ℕ)
    → get task.stream_id w.streams ≡ some (record { tx = tx; generation = task.generation })
    → (get task.stream_id (clean_up task w).streams ≡ none)
      × ((clean_up task w).channels ≡ w.channels)
unfolding clean_up
clean_up_lem task w tx h = ground (arith, h, get-remove task.stream_id task.stream_id w.streams)

-- A stream's first pipeline has ended, and its task has not cleaned up yet. When a connection finds
-- the channel closed, evicts the stream and starts it anew, the new pipeline has the generation of the
-- old one; so when the old task cleans up then, the table loses the new pipeline, whose channel is
-- open.
pub clean_up-evicted :
    (w : Shared) (task : Task)
    → get task.stream_id w.streams ≡ some (record { tx = task.rx; generation = 1 })
    → task.generation ≡ 1
    → let evicted = evict_stream_if_same_sender task.stream_id task.rx w in
      let (w', tx) = ensure_stream task.stream_id none evicted in
      (get task.stream_id w'.streams ≡ some (record { tx = tx; generation = 1 }))
      × (get task.stream_id (clean_up task w').streams ≡ none)
      × (is_open (clean_up task w') tx ≡ true)
unfolding is_open
clean_up-evicted w task h one =
    let evicted = evict_stream_if_same_sender task.stream_id task.rx w in
    let absent = evict_lem task.stream_id task.rx 1 w h in
    let (handle, channel) = create_stream_lem task.stream_id none evicted in
    let (w', tx) = create_stream task.stream_id none evicted in
    let known : get task.stream_id w'.streams ≡ some (record { tx = tx; generation = 1 }) =
      handle ∙ rw absent refl in
    let (gone, same) = clean_up_lem task w' tx (rw one known) in
    rw (ensure_absent task.stream_id evicted absent) (known, gone, rw (same, channel) refl)
