-- ===== src/Server/Ingest/Ready.antt =====
-- The channels that `ensure_stream` of sentinel_rtp_cam/src/bin/server_ingest.rs returns.
use sentinel_video_receiver.Prelude.{
  ℕ, ◌≡◌, refl, arith, Bool, true, false, Option, none, some, List, [], Bytes, get, get-insert,
  number_key,
}
use sentinel_video_receiver.Server.Stream.{StreamMsg}
use sentinel_video_receiver.Server.Ingest.{
  StreamHandle, Channel, Shared, is_open, generation_after, create_stream, reuse_stream,
  ensure_stream,
}

pub create_stream_lem :
    (stream_id : ℕ) (seed : Option (Bytes × Bytes)) (w : Shared)
    → let (w', tx) = create_stream stream_id seed w in
      (get stream_id w'.streams
        ≡ some (record { tx = tx; generation = generation_after (get stream_id w.streams) }))
      × (get tx w'.channels ≡ some (record { queue = []; is_open = true }))
unfolding create_stream
create_stream_lem stream_id seed w =
    let handle : StreamHandle = record {
      tx = w.next_channel;
      generation = generation_after (get stream_id w.streams);
    } in
    let channel : Channel = record { queue = []; is_open = true } in
    ground (
      arith,
      get-insert stream_id stream_id handle w.streams,
      get-insert w.next_channel w.next_channel channel w.channels,
    )

-- The table has the channel for the stream, which is open.
pub record Ready (stream_id tx : ℕ) (w : Shared) : Type 0 where
  pub generation : ℕ
  pub queue : List StreamMsg
  pub handle_lem : get stream_id w.streams ≡ some (record { tx = tx; generation = generation })
  pub channel_lem : get tx w.channels ≡ some (record { queue = queue; is_open = true })

create_stream-Ready :
    (stream_id : ℕ) (seed : Option (Bytes × Bytes)) (w : Shared)
    → let (w', tx) = create_stream stream_id seed w in Ready stream_id tx w'
create_stream-Ready stream_id seed w =
    let (h, c) = create_stream_lem stream_id seed w in
    record {
      generation = generation_after (get stream_id w.streams);
      queue = [];
      handle_lem = h;
      channel_lem = c;
    }

pub channel_open_lem :
    (tx : ℕ) (w : Shared) (channel : Option Channel)
    → get tx w.channels ≡ channel
    → is_open w tx ≡ true
    → (queue : List StreamMsg) × (get tx w.channels
        ≡ some (record { queue = queue; is_open = true }))
unfolding is_open
channel_open_lem tx w none e h = absurd (ground (arith, e, h))
channel_open_lem tx w (some c) e h = (c.queue, ground (arith, e, h))

reuse_stream-Ready :
    (stream_id : ℕ) (seed : Option (Bytes × Bytes)) (w : Shared) (handle : StreamHandle)
    (is_open' : Bool)
    → get stream_id w.streams ≡ some handle
    → is_open w handle.tx ≡ is_open'
    → let (w', tx) = reuse_stream stream_id seed w (some handle) in Ready stream_id tx w'
reuse_stream-Ready stream_id seed w handle true h o =
    let (queue, c) = channel_open_lem handle.tx w (get handle.tx w.channels) refl o in
    rw o (record { generation = handle.generation; queue = queue; handle_lem = h; channel_lem = c })
reuse_stream-Ready stream_id seed w handle false h o = rw o (create_stream-Ready stream_id seed w)

ensure-Ready :
    (stream_id : ℕ) (seed : Option (Bytes × Bytes)) (w : Shared) (found : Option StreamHandle)
    → get stream_id w.streams ≡ found
    → let (w', tx) = reuse_stream stream_id seed w found in Ready stream_id tx w'
ensure-Ready stream_id seed w none h = create_stream-Ready stream_id seed w
ensure-Ready stream_id seed w (some handle) h =
    reuse_stream-Ready stream_id seed w handle (is_open w handle.tx) h refl

-- The stream that is asked for has an open channel in the table afterwards, which is returned.
pub ensure_stream-Ready :
    (stream_id : ℕ) (seed : Option (Bytes × Bytes)) (w : Shared)
    → let (w', tx) = ensure_stream stream_id seed w in Ready stream_id tx w'
unfolding ensure_stream
ensure_stream-Ready stream_id seed w = ensure-Ready stream_id seed w (get stream_id w.streams) refl
