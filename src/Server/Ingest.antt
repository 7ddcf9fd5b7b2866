-- ===== src/Server/Ingest.antt =====
-- The table of streams in sentinel_rtp_cam/src/bin/server_ingest.rs, with the channels and pipeline tasks
-- that it starts. A channel has a number; `same_channel` compares these. A counter that only log lines
-- read is left out.
pub mod Ready
pub mod Readers
pub mod Routes
pub mod Endings
pub mod Deliveries
pub mod Connection
pub mod Steps
mod Tests
use sentinel_video_receiver.Prelude.{
  ℕ, suc, ◌+◌, Bool, true, false, not, Option, none, some, List, [], ◌∷◌, ◌++◌, ltb, ◌==◌,
  if◌then◌else◌, length, Bytes, get, insert, remove, number_key,
}
use sentinel_video_receiver.Live.Stream.{saturating_suc}
use sentinel_video_receiver.Server.Stream.{StreamMsg}

pub record StreamHandle : Type 0 where
  pub tx : ℕ
  pub generation : ℕ

-- A channel is closed when its receiver is gone.
pub record Channel : Type 0 where
  pub queue : List StreamMsg
  pub is_open : Bool

pub record Task : Type 0 where
  pub stream_id : ℕ
  pub generation : ℕ
  pub rx : ℕ
  pub seed : Option (Bytes × Bytes)

-- What connections and tasks share; channels get the numbers 0, 1, 2, ...
pub record Shared : Type 0 where
  pub streams : List (ℕ × StreamHandle)
  pub channels : List (ℕ × Channel)
  pub tasks : List Task
  pub next_channel : ℕ

abbrev pub nothing_shared : Shared
nothing_shared = record { streams = []; channels = []; tasks = []; next_channel = 0 }

abbrev pub capacity : ℕ
capacity = 4096

abbrev channel_open : Option Channel → Bool
channel_open none = false
channel_open (some c) = c.is_open

unfoldable pub is_open : Shared → ℕ → Bool
is_open w tx = channel_open (get tx w.channels)

abbrev pub generation_after : Option StreamHandle → ℕ
generation_after none = 1
generation_after (some handle) = saturating_suc handle.generation

-- From `let generation` on.
unfoldable pub create_stream : ℕ → Option (Bytes × Bytes) → Shared → Shared × ℕ
create_stream stream_id seed w =
    let tx = w.next_channel in
    let generation = generation_after (get stream_id w.streams) in
    (
      record {
        streams = insert stream_id (record { tx = tx; generation = generation }) w.streams;
        channels = insert tx (record { queue = []; is_open = true }) w.channels;
        tasks =
            record { stream_id = stream_id; generation = generation; rx = tx; seed = seed }
            ∷ w.tasks;
        next_channel = suc tx;
      },
      tx,
    )

abbrev pub reuse_stream : ℕ → Option (Bytes × Bytes) → Shared → Option StreamHandle → Shared × ℕ
reuse_stream stream_id seed w none = create_stream stream_id seed w
reuse_stream stream_id seed w (some handle) =
    if is_open w handle.tx then (w, handle.tx) else create_stream stream_id seed w

unfoldable pub ensure_stream : ℕ → Option (Bytes × Bytes) → Shared → Shared × ℕ
ensure_stream stream_id seed w = reuse_stream stream_id seed w (get stream_id w.streams)

abbrev pub send_to : ℕ → StreamMsg → Shared → Option Channel → Shared × Option StreamMsg
send_to tx msg w none = (w, some msg)
send_to tx msg w (some c) =
    if c.is_open
    then (if ltb (length c.queue) capacity
        then (
          record w { channels = insert tx (record c { queue = c.queue ++ (msg ∷ []) }) w.channels },
          none,
        )
        else (w, none))
    else (w, some msg)

-- The message comes back when the channel is closed, and is dropped when it is full.
unfoldable pub try_send_stream_msg : ℕ → StreamMsg → Shared → Shared × Option StreamMsg
try_send_stream_msg tx msg w = send_to tx msg w (get tx w.channels)

abbrev pub evict_handle : ℕ → ℕ → Shared → Option StreamHandle → Shared
evict_handle stream_id tx w none = w
evict_handle stream_id tx w (some handle) =
    if handle.tx == tx then record w { streams = remove stream_id w.streams } else w

unfoldable pub evict_stream_if_same_sender : ℕ → ℕ → Shared → Shared
evict_stream_if_same_sender stream_id tx w = evict_handle stream_id tx w (get stream_id w.streams)

-- What other connections and tasks do between the calls of `send_or_recreate_stream_msg`.
pub record Others : Type 0 where
  pub before_evict : Shared → Shared
  pub before_ensure : Shared → Shared
  pub before_send : Shared → Shared

abbrev pub nothing_between : Others
nothing_between = record { before_evict = λ w. w; before_ensure = λ w. w; before_send = λ w. w }

-- The channel of a stream that is asked for again, behind its eviction.
unfoldable pub reopen : Others → ℕ → ℕ → Shared → Shared × ℕ
reopen others stream_id tx w =
    ensure_stream stream_id none
      (others.before_ensure (evict_stream_if_same_sender stream_id tx (others.before_evict w)))

abbrev pub recreate : Others → ℕ → ℕ → Shared → Option StreamMsg → Shared
recreate others stream_id tx w none = w
recreate others stream_id tx w (some msg) =
    let (w', fresh_tx) = reopen others stream_id tx w in
    (try_send_stream_msg fresh_tx msg (others.before_send w')).0

unfoldable pub send_or_recreate_stream_msg : Others → ℕ → ℕ → StreamMsg → Shared → Shared
send_or_recreate_stream_msg others stream_id tx msg w =
    let (w', back) = try_send_stream_msg tx msg w in recreate others stream_id tx w' back

abbrev pub close : Option Channel → ℕ → Shared → Shared
close none rx w = w
close (some c) rx w = record w { channels = insert rx (record c { is_open = false }) w.channels }

-- A pipeline ends: its receiver is gone.
unfoldable pub end_pipeline : Task → Shared → Shared
end_pipeline task w = close (get task.rx w.channels) task.rx w

abbrev pub clean_handle : Task → Shared → Option StreamHandle → Shared
clean_handle task w none = w
clean_handle task w (some handle) =
    if handle.generation == task.generation
    then record w { streams = remove task.stream_id w.streams }
    else w

-- What the task does behind its pipeline.
unfoldable pub clean_up : Task → Shared → Shared
clean_up task w = clean_handle task w (get task.stream_id w.streams)
