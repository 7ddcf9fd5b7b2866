-- ===== src/Clip/Writer.antt =====
-- `ClipWriter` of sentinel_rtp_cam/src/core/clip_writer.rs, over the files of Clip.Files. A method
-- returns the state of the files, the new writer and its error, if any.
pub mod Content
pub mod Retry
use sentinel_video_receiver.Prelude.{
  ℕ, ◌+◌, ◌*◌, max, Bool, true, false, not, Option, none, some, List, [], ◌∷◌, ◌++◌, leb,
  if◌then◌else◌, length, is_empty, Bytes, Text,
}
use sentinel_video_receiver.Clip.Files.{ClipFiles, and_then}

pub record ClipWriter : Type 0 where
  pub part_path : Text
  pub final_path : Text
  pub pending : Bytes
  pub max_pending_bytes : ℕ
  pub written_bytes : ℕ  -- u64

unfoldable pub new_writer : Text → Text → ℕ → ClipWriter
new_writer part_path final_path max_pending_bytes = record {
  part_path = part_path;
  final_path = final_path;
  pending = [];
  max_pending_bytes = max max_pending_bytes (16 * 1024);
  written_bytes = 0;
}

unfoldable pub total_bytes : ClipWriter → ℕ
total_bytes w = w.written_bytes + length w.pending

module _ (f : ClipFiles) where
  open f use {State, Error}

  -- `ClipWriter::create`: the writer, or the error of the file.
  unfoldable pub create : State → Text → Text → ℕ → (State × ClipWriter) × Option Error
  unfolding new_writer
  create s part_path final_path max_pending_bytes =
      let (s', e) = f.create s part_path in
      ((s', new_writer part_path final_path max_pending_bytes), e)

  -- `if !self.pending.is_empty()` and its block.
  unfoldable pub write_pending : State × ClipWriter → (State × ClipWriter) × Option Error
  write_pending (s, w) =
      if not (is_empty w.pending)
      then (let (s', e) = f.write_all s w.part_path w.pending in
          elim e [
            | none ↦ (
              (s', record w { pending = []; written_bytes = w.written_bytes + length w.pending }),
              none,
            )
            | some e ↦ ((s', w), some e)
          ])
      else ((s, w), none)

  unfoldable pub flush_pending : Bool → State × ClipWriter → (State × ClipWriter) × Option Error
  flush_pending do_flush sw = and_then (write_pending sw) λ (s, w).
      if do_flush then (let (s', e) = f.flush s w.part_path in ((s', w), e)) else ((s, w), none)

  unfoldable pub write_nal : Bytes → State × ClipWriter → (State × ClipWriter) × Option Error
  write_nal nal (s, w) =
      let w' = record w { pending = w.pending ++ nal } in
      if leb w'.max_pending_bytes (length w'.pending)
      then flush_pending false (s, w')
      else ((s, w'), none)

  unfoldable pub flush : State × ClipWriter → (State × ClipWriter) × Option Error
  flush = flush_pending true

  unfoldable pub finalize : State × ClipWriter → (State × ClipWriter) × Option Error
  finalize sw =
      and_then (flush_pending true sw)
        λ (s, w). let (s', e) = f.rename s w.part_path w.final_path in ((s', w), e)
