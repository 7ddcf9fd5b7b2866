-- ===== src/Server/Ingest/Endings.antt =====
-- How a channel of sentinel_rtp_cam/src/bin/server_ingest.rs gets closed.
use mathlib.Core.List.{Memᴰ}
use sentinel_video_receiver.Prelude.{
  ℕ, ◌≡◌, arith, ◌⊎◌, inl, inr, Bool-cases, true, false, Option, none, some, [], ◌∷◌, ◌++◌, Bytes,
  get, get-insert, number_key, ◌==◌,
}
use sentinel_video_receiver.Server.Stream.{StreamMsg}
use sentinel_video_receiver.Server.Ingest.{
  StreamHandle, Channel, Task, Shared, is_open, create_stream, reuse_stream, ensure_stream, send_to,
  try_send_stream_msg, evict_handle, evict_stream_if_same_sender, close, end_pipeline, clean_handle,
  clean_up,
}
use sentinel_video_receiver.Server.Ingest.Routes.{
  Step, ensures, sends, evicts, ends, cleans, Steps, done, more,
}

-- On the way from one state to another, a pipeline that reads the channel ended.
pub record Ended (rx : ℕ) (w w' : Shared) : Type 0 where
  pub task : Task
  pub at : Shared
  pub before_lem : Steps w at
  pub listed_lem : Memᴰ task at.tasks
  pub reads_lem : task.rx ≡ rx
  pub after_lem : Steps (end_pipeline task at) w'

is_open-create_stream :
    (id rx : ℕ) (seed : Option (Bytes × Bytes)) (w : Shared)
    → is_open w rx ≡ true
    → is_open (create_stream id seed w).0 rx ≡ true
unfolding create_stream is_open
is_open-create_stream id rx seed w o =
    let channel : Channel = record { queue = []; is_open = true } in
    ground (arith, o, get-insert w.next_channel rx channel w.channels)

is_open-reuse_stream :
    (id rx : ℕ) (seed : Option (Bytes × Bytes)) (w : Shared) (found : Option StreamHandle)
    → is_open w rx ≡ true
    → is_open (reuse_stream id seed w found).0 rx ≡ true
is_open-reuse_stream id rx seed w none o = is_open-create_stream id rx seed w o
is_open-reuse_stream id rx seed w (some h) o =
    ground (arith, o, is_open-create_stream id rx seed w o)

is_open-send_to :
    (tx rx : ℕ) (msg : StreamMsg) (w : Shared) (channel : Option Channel)
    → is_open w rx ≡ true
    → is_open (send_to tx msg w channel).0 rx ≡ true
unfolding is_open
is_open-send_to tx rx msg w none o = o
is_open-send_to tx rx msg w (some c) o =
    let channel : Channel = record c { queue = c.queue ++ (msg ∷ []) } in
    ground (arith, o, get-insert tx rx channel w.channels)

is_open-evict_handle :
    (id tx rx : ℕ) (w : Shared) (found : Option StreamHandle)
    → is_open w rx ≡ true
    → is_open (evict_handle id tx w found) rx ≡ true
unfolding is_open
is_open-evict_handle id tx rx w none o = o
is_open-evict_handle id tx rx w (some h) o = ground (arith, o)

is_open-clean_handle :
    (task : Task) (rx : ℕ) (w : Shared) (found : Option StreamHandle)
    → is_open w rx ≡ true
    → is_open (clean_handle task w found) rx ≡ true
unfolding is_open
is_open-clean_handle task rx w none o = o
is_open-clean_handle task rx w (some h) o = ground (arith, o)

is_open-close :
    (rx other : ℕ) (w : Shared) (channel : Option Channel)
    → (other == rx) ≡ false
    → is_open w rx ≡ true
    → is_open (close channel other w) rx ≡ true
unfolding is_open
is_open-close rx other w none different o = o
is_open-close rx other w (some c) different o =
    let channel : Channel = record c { is_open = false } in
    ground (arith, o, different, get-insert other rx channel w.channels)

is_open-end_pipeline :
    (task : Task) (rx : ℕ) (w : Shared)
    → (task.rx == rx) ≡ false
    → is_open w rx ≡ true
    → is_open (end_pipeline task w) rx ≡ true
unfolding end_pipeline
is_open-end_pipeline task rx w different o =
    is_open-close rx task.rx w (get task.rx w.channels) different o

Step-is_open :
    (rx : ℕ) {w w' w'' : Shared}
    → Step w w'
    → Steps w' w''
    → is_open w rx ≡ true
    → (is_open w' rx ≡ true) ⊎ Ended rx w w''
unfolding ensure_stream try_send_stream_msg evict_stream_if_same_sender clean_up
Step-is_open rx (ensures {w} id seed) rest o =
    inl (is_open-reuse_stream id rx seed w (get id w.streams) o)
Step-is_open rx (sends {w} tx msg) rest o = inl (is_open-send_to tx rx msg w (get tx w.channels) o)
Step-is_open rx (evicts {w} id tx) rest o =
    inl (is_open-evict_handle id tx rx w (get id w.streams) o)
Step-is_open rx (cleans {w} task m closed) rest o =
    inl (is_open-clean_handle task rx w (get task.stream_id w.streams) o)
Step-is_open rx (ends {w} task m) rest o = elim (Bool-cases (task.rx == rx)) [
  | inl same ↦ inr (record {
    task = task;
    at = w;
    before_lem = done;
    listed_lem = m;
    reads_lem = ground (arith, same);
    after_lem = rest;
  })
  | inr different ↦ inl (is_open-end_pipeline task rx w different o)
]

Ended-more : (rx : ℕ) {w w' w'' : Shared} → Step w w' → Ended rx w' w'' → Ended rx w w''
Ended-more rx step e = record {
  task = e.task;
  at = e.at;
  before_lem = more step e.before_lem;
  listed_lem = e.listed_lem;
  reads_lem = e.reads_lem;
  after_lem = e.after_lem;
}

-- An open channel stays open while no pipeline that reads it ends.
pub Steps-is_open :
    (rx : ℕ) {w w' : Shared}
    → Steps w w'
    → is_open w rx ≡ true
    → (is_open w' rx ≡ true) ⊎ Ended rx w w'
Steps-is_open rx done o = inl o
Steps-is_open rx (more step steps) o = elim (Step-is_open rx step steps o) [
  | inr ended ↦ inr ended
  | inl o' ↦ elim (Steps-is_open rx steps o') [
    | inl o'' ↦ inl o''
    | inr ended ↦ inr (Ended-more rx step ended)
  ]
]
