-- ===== src/Server/Ingest/Steps.antt =====
-- `handle_conn` of sentinel_rtp_cam/src/bin/server_ingest.rs as steps on the table of streams.
use sentinel_video_receiver.Prelude.{
  ℕ, Option, none, some, List, [], ◌∷◌, Outcome, ok, err, panic, Bytes, Text,
}
use sentinel_video_receiver.Proto.{Msg}
use sentinel_video_receiver.Server.Stream.{StreamMsg}
use sentinel_video_receiver.Server.Ingest.{
  Shared, nothing_between, reopen, ensure_stream, try_send_stream_msg, evict_stream_if_same_sender,
  recreate, send_or_recreate_stream_msg,
}
use sentinel_video_receiver.Server.Ingest.Connection.{
  Json, HelloStream, HelloPayload, HelloError, start_streams, stream_msg_of, forward, on_msg,
  on_msgs, serve,
}
use sentinel_video_receiver.Server.Ingest.Routes.{Reach, after, ensures, sends, evicts}

-- What a whole connection does is made of these steps.
recreate-Reach :
    (stream_id tx : ℕ) (w : Shared) (back : Option StreamMsg)
    → Reach w
    → Reach (recreate nothing_between stream_id tx w back)
unfolding reopen
recreate-Reach stream_id tx w none reach = reach
recreate-Reach stream_id tx w (some msg) reach =
    let w₁ = evict_stream_if_same_sender stream_id tx w in
    let (w₂, fresh_tx) = ensure_stream stream_id none w₁ in
    after w₂ (after w₁ (after w reach (evicts stream_id tx)) (ensures stream_id none))
      (sends fresh_tx msg)

forward-Reach :
    (json : Json) (stream_id tx : ℕ) (w : Shared) (msg : Option StreamMsg)
    → Reach w
    → Reach (forward json stream_id (w, tx) msg)
unfolding send_or_recreate_stream_msg
forward-Reach json stream_id tx w none reach = reach
forward-Reach json stream_id tx w (some msg) reach =
    let (w', back) = try_send_stream_msg tx msg w in
    recreate-Reach stream_id tx w' back (after w reach (sends tx msg))

on_msgs-Reach : (json : Json) (msgs : List Msg) (w : Shared) → Reach w → Reach (on_msgs json msgs w)
unfolding on_msgs on_msg
on_msgs-Reach json [] w reach = reach
on_msgs-Reach json (msg ∷ msgs) w reach =
    let (w', tx) = ensure_stream msg.stream_id none w in
    on_msgs-Reach json msgs _ (
      forward-Reach json msg.stream_id tx w' (stream_msg_of json msg)
        (after w reach (ensures msg.stream_id none)))

start_streams-Reach :
    (base64 : Text → Option Bytes) (streams : List HelloStream) (w : Shared)
    → Reach w
    → Reach (start_streams base64 streams w)
unfolding start_streams
start_streams-Reach base64 [] w reach = reach
start_streams-Reach base64 (s ∷ streams) w reach =
    start_streams-Reach base64 streams _ (after w reach (ensures s.stream_id _))

pub handle_conn-Reach :
    (json : Json) (base64 : Text → Option Bytes) (msgs : List Msg) (w : Shared)
    (checked : Outcome HelloError HelloPayload)
    → Reach w
    → Reach (serve json base64 msgs w checked).0
handle_conn-Reach json base64 msgs w (ok hello) reach =
    on_msgs-Reach json msgs _ (start_streams-Reach base64 hello.streams w reach)
handle_conn-Reach json base64 msgs w (err e) reach = reach
handle_conn-Reach json base64 msgs w panic reach = reach
