-- ===== src/Server/Ingest/Readers.antt =====
-- Which task of sentinel_rtp_cam/src/bin/server_ingest.rs reads the channel of which stream.
use sentinel_video_receiver.Prelude.{
  ℕ, suc, ◌<◌, ◌≡◌, refl, sym, ◌∙◌, arith, Option, some, List, [], ◌∷◌, if◌then◌else◌, Bytes, get,
  insert, remove, get-insert, get-remove, number_key, ◌==◌, Bool-cases, inl, inr,
}
use sentinel_video_receiver.Server.Ingest.{
  StreamHandle, Task, Shared, generation_after, create_stream,
}

-- The tasks whose pipeline reads a channel.
abbrev pub readers : ℕ → List Task → List Task
readers tx [] = []
readers tx (task ∷ tasks) =
    let rest = readers tx tasks in if task.rx == tx then task ∷ rest else rest

-- The channel of a handle has one reader, which was started for the stream with the generation that the
-- handle has.
pub record Serves (stream_id : ℕ) (handle : StreamHandle) (tasks : List Task) : Type 0 where
  pub task : Task
  pub only_lem : readers handle.tx tasks ≡ task ∷ []
  pub stream_lem : task.stream_id ≡ stream_id
  pub generation_lem : task.generation ≡ handle.generation

abbrev pub AllBelow : ℕ → List Task → Type 0
AllBelow next [] = Unit
AllBelow next (task ∷ tasks) = (task.rx < next) × AllBelow next tasks

pub record Routed (streams : List (ℕ × StreamHandle)) (tasks : List Task) (next_channel : ℕ)
    : Type 0 where
  pub serves_lem :
      (stream_id : ℕ) (handle : StreamHandle)
      → get stream_id streams ≡ some handle
      → Serves stream_id handle tasks × (handle.tx < next_channel)
  pub below_lem : AllBelow next_channel tasks

abbrev pub RoutedIn : Shared → Type 0
RoutedIn w = Routed w.streams w.tasks w.next_channel

pub Routed-remove :
    (stream_id : ℕ) (streams : List (ℕ × StreamHandle)) (tasks : List Task) (next_channel : ℕ)
    → Routed streams tasks next_channel
    → Routed (remove stream_id streams) tasks next_channel
Routed-remove stream_id streams tasks next_channel r = record {
  serves_lem = λ other handle e.
      r.serves_lem other handle (ground (arith, e, get-remove stream_id other streams));
  below_lem = r.below_lem;
}

AllBelow-suc : (next : ℕ) (tasks : List Task) → AllBelow next tasks → AllBelow (suc next) tasks
AllBelow-suc next [] all = tt
AllBelow-suc next (task ∷ tasks) (lt, all) = (omega arith, AllBelow-suc next tasks all)

-- A channel that is new has no reader.
readers_new : (next : ℕ) (tasks : List Task) → AllBelow next tasks → readers next tasks ≡ []
readers_new next [] all = refl
readers_new next (task ∷ tasks) (lt, all) = ground (arith, lt, readers_new next tasks all)

Serves-more :
    (stream_id next : ℕ) (handle : StreamHandle) (task : Task) (tasks : List Task)
    → task.rx ≡ next
    → Serves stream_id handle tasks × (handle.tx < next)
    → Serves stream_id handle (task ∷ tasks)
Serves-more stream_id next handle task tasks e (s, lt) = record {
  task = s.task;
  only_lem = ground (arith, e, lt, s.only_lem);
  stream_lem = s.stream_lem;
  generation_lem = s.generation_lem;
}

Serves-insert :
    (stream_id other next : ℕ) (handle h : StreamHandle) (task : Task)
    (streams : List (ℕ × StreamHandle)) (tasks : List Task)
    → Routed streams tasks next
    → task ≡ record task { stream_id = stream_id; generation = handle.generation; rx = next }
    → handle.tx ≡ next
    → get other (insert stream_id handle streams) ≡ some h
    → Serves other h (task ∷ tasks) × (h.tx < suc next)
Serves-insert stream_id other next handle h task streams tasks r t x e =
    let found = sym (get-insert stream_id other handle streams) ∙ e in
    let none_yet = readers_new next tasks r.below_lem in
    elim (Bool-cases (stream_id == other)) [
      | inl same ↦ (
        record {
          task = task;
          only_lem = ground (arith, t, x, same, found, none_yet);
          stream_lem = ground (arith, t, same);
          generation_lem = ground (arith, t, same, found);
        },
        ground (arith, x, same, found),
      )
      | inr different ↦
          let served = r.serves_lem other h (ground (arith, different, found)) in
          (Serves-more other next h task tasks (ground (arith, t)) served, omega (arith, served.1))
    ]

pub create_stream-Routed :
    (stream_id : ℕ) (seed : Option (Bytes × Bytes)) (w : Shared)
    → RoutedIn w
    → RoutedIn (create_stream stream_id seed w).0
unfolding create_stream
create_stream-Routed stream_id seed w r =
    let generation = generation_after (get stream_id w.streams) in
    let handle : StreamHandle = record { tx = w.next_channel; generation = generation } in
    let task : Task = record {
      stream_id = stream_id;
      generation = generation;
      rx = w.next_channel;
      seed = seed;
    } in
    record {
      serves_lem = λ other h e.
          Serves-insert stream_id other w.next_channel handle h task w.streams w.tasks r refl refl
            e;
      below_lem = (omega arith, AllBelow-suc w.next_channel w.tasks r.below_lem);
    }
