-- ===== src/Server/Ingest/Tests.antt =====
-- The table of streams, on examples.
use mathlib.Core.List.{Memᴰ}
use sentinel_video_receiver.Prelude.{
  ◌≡◌, refl, ◌⊎◌, List, [], ◌∷◌, false, true, none, some, get, insert, remove, number_key,
}
use sentinel_video_receiver.Server.Stream.{gap}
use sentinel_video_receiver.Server.Ingest.{
  StreamHandle, Task, Shared, Others, nothing_between, reopen, nothing_shared, is_open,
  create_stream, ensure_stream, try_send_stream_msg, evict_stream_if_same_sender,
  send_or_recreate_stream_msg, end_pipeline, clean_up,
}
use sentinel_video_receiver.Server.Ingest.Deliveries.{Fate, send_or_recreate-Fate, clean_up-evicted}
use sentinel_video_receiver.Server.Ingest.Routes.{
  Step, ensures, ends, cleans, Steps, done, more, start, after, MayRemove, streams-Reach,
}
use sentinel_video_receiver.Server.Ingest.Readers.{Serves}

program : Unit {0}
unfolding get insert remove is_open create_stream ensure_stream try_send_stream_msg
    evict_stream_if_same_sender reopen send_or_recreate_stream_msg end_pipeline clean_up
program = tt

abbrev pipeline : Task
pipeline = record { stream_id = 7; generation = 1; rx = 0; seed = none }

-- One stream, whose pipeline has ended.
abbrev ended : Shared
ended = end_pipeline pipeline (ensure_stream 7 none nothing_shared).0

-- The pipeline that was started last ends.
abbrev end_last : List Task → Shared → Shared
end_last [] w = w
end_last (task ∷ tasks) w = end_pipeline task w

end_last-Steps : (tasks : List Task) (w : Shared) → w.tasks ≡ tasks → Steps w (end_last tasks w)
end_last-Steps [] w e = done
end_last-Steps (task ∷ tasks) w e = more (ends task (rw e (Memᴰ.head refl))) done

abbrev ending : Others
ending = record nothing_between { before_send = λ w. end_last w.tasks w }

send_or_recreate-Fate_example :
    Fate ending 7 0 (gap 1 3) ended (send_or_recreate_stream_msg ending 7 0 (gap 1 3) ended)
send_or_recreate-Fate_example =
    send_or_recreate-Fate ending 7 0 (gap 1 3) ended (λ w. end_last-Steps w.tasks w refl)

-- The message is in no queue then; with nothing in between it is.
message_lost :
    get 1 (send_or_recreate_stream_msg ending 7 0 (gap 1 3) ended).channels
    ≡ some (record { queue = []; is_open = false })
unfolding program
message_lost = refl

message_queued :
    get 1 (send_or_recreate_stream_msg nothing_between 7 0 (gap 1 3) ended).channels
    ≡ some (record { queue = gap 1 3 ∷ []; is_open = true })
unfolding program
message_queued = refl

clean_up-evicted_example :
    let evicted = evict_stream_if_same_sender 7 0 ended in
    let (w', tx) = ensure_stream 7 none evicted in
    (get 7 w'.streams ≡ some (record { tx = tx; generation = 1 }))
    × (get 7 (clean_up pipeline w').streams ≡ none)
    × (is_open (clean_up pipeline w') tx ≡ true)
unfolding program
clean_up-evicted_example = clean_up-evicted ended pipeline refl refl

abbrev first : Shared
first = (ensure_stream 7 none nothing_shared).0

abbrev first_handle : StreamHandle
first_handle = record { tx = 0; generation = 1 }

-- The stream's pipeline has ended, and its task cleans up.
abbrev cleaned : Step ended (clean_up pipeline ended)
unfolding program
cleaned = cleans pipeline (Memᴰ.head refl) refl

streams-Reach_example :
    Serves 7 first_handle ended.tasks
    × ((get 7 (clean_up pipeline ended).streams ≡ some first_handle)
        ⊎ MayRemove 7 first_handle cleaned)
unfolding program
streams-Reach_example =
    streams-Reach ended (clean_up pipeline ended) 7 first_handle
      (after first (after nothing_shared start (ensures 7 none)) (ends pipeline (Memᴰ.head refl)))
      cleaned refl
