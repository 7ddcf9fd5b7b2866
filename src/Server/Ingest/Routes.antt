-- ===== src/Server/Ingest/Routes.antt =====
-- Connections and tasks of sentinel_rtp_cam/src/bin/server_ingest.rs side by side: each section of code
-- under the lock of the table, each send and each end of a pipeline is a step, in any order.
use mathlib.Core.List.{Memᴰ}
use sentinel_video_receiver.Prelude.{
  ℕ, ◌≡◌, refl, ◌⊎◌, inl, inr, Bool-cases, get-insert, get-remove, ◌∙◌, arith, true, false, Option,
  none, some, [], Bytes, get, remove, number_key, if◌then◌else◌, ◌==◌,
}
use sentinel_video_receiver.Server.Stream.{StreamMsg}
use sentinel_video_receiver.Server.Ingest.{
  StreamHandle, Channel, Task, Shared, nothing_shared, is_open, generation_after, create_stream,
  reuse_stream, ensure_stream, send_to, try_send_stream_msg, evict_handle,
  evict_stream_if_same_sender, end_pipeline, clean_handle, clean_up, close,
}
use sentinel_video_receiver.Server.Ingest.Readers.{
  Serves, Routed, RoutedIn, Routed-remove, create_stream-Routed,
}

pub data Step : Shared → Shared → Type 0 where
  ensures :
      {w : Shared} (stream_id : ℕ) (seed : Option (Bytes × Bytes))
      → Step w (ensure_stream stream_id seed w).0
  sends : {w : Shared} (tx : ℕ) (msg : StreamMsg) → Step w (try_send_stream_msg tx msg w).0
  evicts : {w : Shared} (stream_id tx : ℕ) → Step w (evict_stream_if_same_sender stream_id tx w)
  ends : {w : Shared} (task : Task) → Memᴰ task w.tasks → Step w (end_pipeline task w)
  cleans :
      {w : Shared} (task : Task)
      → Memᴰ task w.tasks
      → is_open w task.rx ≡ false
      → Step w (clean_up task w)

pub data Steps : Shared → Shared → Type 0 where
  done : {w : Shared} → Steps w w
  more : {w w' w'' : Shared} → Step w w' → Steps w' w'' → Steps w w''

pub data Reach : Shared → Type 0 where
  start : Reach nothing_shared
  after : {w' : Shared} (w : Shared) → Reach w → Step w w' → Reach w'

reuse_stream-Routed :
    (stream_id : ℕ) (seed : Option (Bytes × Bytes)) (w : Shared) (found : Option StreamHandle)
    → RoutedIn w
    → RoutedIn (reuse_stream stream_id seed w found).0
reuse_stream-Routed stream_id seed w none r = create_stream-Routed stream_id seed w r
reuse_stream-Routed stream_id seed w (some handle) r =
    elim (is_open w handle.tx)
      as (λ b. RoutedIn (if b then (w, handle.tx) else create_stream stream_id seed w).0) [
        | true ↦ r
        | false ↦ create_stream-Routed stream_id seed w r
      ]

send_to-Routed :
    (tx : ℕ) (msg : StreamMsg) (w : Shared) (channel : Option Channel)
    → RoutedIn w
    → RoutedIn (send_to tx msg w channel).0
send_to-Routed tx msg w none r = r
send_to-Routed tx msg w (some c) r = ground (arith, r)

evict_handle-Routed :
    (stream_id tx : ℕ) (w : Shared) (found : Option StreamHandle)
    → RoutedIn w
    → RoutedIn (evict_handle stream_id tx w found)
evict_handle-Routed stream_id tx w none r = r
evict_handle-Routed stream_id tx w (some handle) r =
    elim (handle.tx == tx)
      as (λ b. RoutedIn (if b then record w { streams = remove stream_id w.streams } else w)) [
        | true ↦ Routed-remove stream_id w.streams w.tasks w.next_channel r
        | false ↦ r
      ]

clean_handle-Routed :
    (task : Task) (w : Shared) (found : Option StreamHandle)
    → RoutedIn w
    → RoutedIn (clean_handle task w found)
clean_handle-Routed task w none r = r
clean_handle-Routed task w (some handle) r =
    elim (handle.generation == task.generation)
      as (λ b. RoutedIn (if b then record w { streams = remove task.stream_id w.streams } else w)) [
        | true ↦ Routed-remove task.stream_id w.streams w.tasks w.next_channel r
        | false ↦ r
      ]

close-Routed :
    (rx : ℕ) (w : Shared) (channel : Option Channel) → RoutedIn w → RoutedIn (close channel rx w)
close-Routed rx w none r = r
close-Routed rx w (some c) r = r

Step-Routed : {w w' : Shared} → Step w w' → RoutedIn w → RoutedIn w'
unfolding ensure_stream try_send_stream_msg evict_stream_if_same_sender end_pipeline clean_up
Step-Routed (ensures {w} stream_id seed) r =
    reuse_stream-Routed stream_id seed w (get stream_id w.streams) r
Step-Routed (sends {w} tx msg) r = send_to-Routed tx msg w (get tx w.channels) r
Step-Routed (evicts {w} stream_id tx) r =
    evict_handle-Routed stream_id tx w (get stream_id w.streams) r
Step-Routed (ends {w} task m) r = close-Routed task.rx w (get task.rx w.channels) r
Step-Routed (cleans {w} task m closed) r =
    clean_handle-Routed task w (get task.stream_id w.streams) r

nothing-Routed : Routed [] [] 0
unfolding get
nothing-Routed = record {
  serves_lem = λ stream_id handle e. absurd (ground (arith, e));
  below_lem = tt;
}

Reach-Routed : {w : Shared} → Reach w → RoutedIn w
Reach-Routed start = nothing-Routed
Reach-Routed (after w reach step) = Step-Routed step (Reach-Routed reach)

-- What a step has to be to take a handle out of the table: a stream is asked for whose channel is closed;
-- or a connection evicts the stream with that very channel; or a task of the stream that has the
-- generation of the handle cleans up.
abbrev pub MayRemove : ℕ → StreamHandle → {w w' : Shared} → Step w w' → Type 0
MayRemove stream_id handle (ensures {w} id seed) = (id ≡ stream_id) × (is_open w handle.tx ≡ false)
MayRemove stream_id handle (sends tx msg) = ⊥
MayRemove stream_id handle (evicts id tx) = (id ≡ stream_id) × (tx ≡ handle.tx)
MayRemove stream_id handle (ends task m) = ⊥
MayRemove stream_id handle (cleans task m closed) =
    (task.stream_id ≡ stream_id) × (task.generation ≡ handle.generation)

streams-create_stream :
    (id other : ℕ) (seed : Option (Bytes × Bytes)) (w : Shared)
    → (id == other) ≡ false
    → get other (create_stream id seed w).0.streams ≡ get other w.streams
unfolding create_stream
streams-create_stream id other seed w different =
    let handle : StreamHandle = record {
      tx = w.next_channel;
      generation = generation_after (get id w.streams);
    } in
    ground (arith, different, get-insert id other handle w.streams)

streams-reuse_stream :
    (id other : ℕ) (seed : Option (Bytes × Bytes)) (w : Shared) (found : Option StreamHandle)
    → (id == other) ≡ false
    → get other (reuse_stream id seed w found).0.streams ≡ get other w.streams
streams-reuse_stream id other seed w none different =
    streams-create_stream id other seed w different
streams-reuse_stream id other seed w (some h) different =
    ground (arith, streams-create_stream id other seed w different)

ensures-MayRemove :
    (id stream_id : ℕ) (seed : Option (Bytes × Bytes)) (handle : StreamHandle) (w : Shared)
    → get stream_id w.streams ≡ some handle
    → (get stream_id (ensure_stream id seed w).0.streams ≡ some handle)
      ⊎ ((id ≡ stream_id) × (is_open w handle.tx ≡ false))
unfolding ensure_stream
ensures-MayRemove id stream_id seed handle w e = elim (Bool-cases (id == stream_id)) [
  | inl same ↦
      let i : id ≡ stream_id = ground (arith, same) in
      elim (Bool-cases (is_open w handle.tx)) [ inl o ↦ inl (rw (i, e, o) e) | inr c ↦ inr (i, c) ]
  | inr different ↦ inl (streams-reuse_stream id stream_id seed w (get id w.streams) different ∙ e)
]

evicts-MayRemove :
    (id tx stream_id : ℕ) (handle : StreamHandle) (w : Shared) (found : Option StreamHandle)
    → get stream_id w.streams ≡ some handle
    → get id w.streams ≡ found
    → (get stream_id (evict_handle id tx w found).streams ≡ some handle)
      ⊎ ((id ≡ stream_id) × (tx ≡ handle.tx))
evicts-MayRemove id tx stream_id handle w none e h = inl e
evicts-MayRemove id tx stream_id handle w (some found) e h =
    ground (arith, e, h, get-remove id stream_id w.streams)

cleans-MayRemove :
    (task : Task) (stream_id : ℕ) (handle : StreamHandle) (w : Shared) (found : Option StreamHandle)
    → get stream_id w.streams ≡ some handle
    → get task.stream_id w.streams ≡ found
    → (get stream_id (clean_handle task w found).streams ≡ some handle)
      ⊎ ((task.stream_id ≡ stream_id) × (task.generation ≡ handle.generation))
cleans-MayRemove task stream_id handle w none e h = inl e
cleans-MayRemove task stream_id handle w (some found) e h =
    ground (arith, e, h, get-remove task.stream_id stream_id w.streams)

streams-send_to :
    (tx : ℕ) (msg : StreamMsg) (w : Shared) (channel : Option Channel)
    → (send_to tx msg w channel).0.streams ≡ w.streams
streams-send_to tx msg w none = refl
streams-send_to tx msg w (some c) = ground arith

streams-close :
    (rx : ℕ) (w : Shared) (channel : Option Channel) → (close channel rx w).streams ≡ w.streams
streams-close rx w none = refl
streams-close rx w (some c) = refl

Step-MayRemove :
    (stream_id : ℕ) (handle : StreamHandle) {w w' : Shared} (step : Step w w')
    → get stream_id w.streams ≡ some handle
    → (get stream_id w'.streams ≡ some handle) ⊎ MayRemove stream_id handle step
unfolding try_send_stream_msg evict_stream_if_same_sender end_pipeline clean_up
Step-MayRemove stream_id handle (ensures {w} id seed) e =
    ensures-MayRemove id stream_id seed handle w e
Step-MayRemove stream_id handle (sends {w} tx msg) e =
    inl (rw (streams-send_to tx msg w (get tx w.channels)) e)
Step-MayRemove stream_id handle (evicts {w} id tx) e =
    evicts-MayRemove id tx stream_id handle w (get id w.streams) e refl
Step-MayRemove stream_id handle (ends {w} task m) e =
    inl (rw (streams-close task.rx w (get task.rx w.channels)) e)
Step-MayRemove stream_id handle (cleans {w} task m closed) e =
    cleans-MayRemove task stream_id handle w (get task.stream_id w.streams) e refl

-- In every order of the steps of connections and tasks, from an empty table on: the channel that the
-- table has for a stream has exactly one reader, the pipeline of a task that was started for that stream
-- with the generation that the table has; and no step takes it out of the table, unless the stream is
-- asked for when that channel is closed, a connection evicts the stream with that very channel, or a
-- task of that stream and that generation cleans up.
pub streams-Reach :
    (w w' : Shared) (stream_id : ℕ) (handle : StreamHandle)
    → Reach w
    → (step : Step w w') → get stream_id w.streams ≡ some handle
    → Serves stream_id handle w.tasks
      × ((get stream_id w'.streams ≡ some handle) ⊎ MayRemove stream_id handle step)
streams-Reach w w' stream_id handle reach step e =
    (((Reach-Routed reach).serves_lem stream_id handle e).0, Step-MayRemove stream_id handle step e)
