-- ===== src/Clip/Writer/Content.antt =====
-- What a clip file holds.
use sentinel_video_receiver.Prelude.{
  ℕ, ◌≡◌, refl, sym, ap, ◌∙◌, arith, Bool, true, false, Option, none, some, List, [], ◌∷◌, ◌++◌,
  append_assoc, append-nil, length, length-append, Bytes, Text,
}
use sentinel_video_receiver.Clip.Files.{ClipFiles, and_then}
use sentinel_video_receiver.Clip.Writer.{
  ClipWriter, create, write_pending, flush_pending, write_nal, finalize,
}

abbrev pub concat : List Bytes → Bytes
concat [] = []
concat (n ∷ ns) = n ++ concat ns

module _ (f : ClipFiles) where
  open f use {State, Error}

  -- The bytes given to the writer are those that the file's writer took and those still pending,
  -- and their number is `total_bytes`.
  pub record Holds (data' : Bytes) (s : State) (w : ClipWriter) : Type 0 where
    pub bytes_lem : f.taken s w.part_path ++ w.pending ≡ data'
    pub written_lem : w.written_bytes ≡ length (f.taken s w.part_path)

  write_pending-Holds :
      (given : Bytes) (s : State) (w : ClipWriter)
      → Holds given s w
      → (write_pending f (s, w)).1 ≡ none
      → let (s', w') = (write_pending f (s, w)).0 in
        Holds given s' w'
        × (w'.pending ≡ [])
        × (w'.part_path ≡ w.part_path)
        × (w'.final_path ≡ w.final_path)
  unfolding write_pending
  write_pending-Holds given s w h e = ground (
    arith,
    f.write_all-taken s w.part_path w.pending,
    length-append (f.taken s w.part_path) w.pending,
    append-nil (f.taken s w.part_path ++ w.pending),
  )

  flush_pending-Holds :
      (do_flush : Bool) (given : Bytes) (s : State) (w : ClipWriter)
      → Holds given s w
      → (flush_pending f do_flush (s, w)).1 ≡ none
      → let (s', w') = (flush_pending f do_flush (s, w)).0 in
        Holds given s' w'
        × (do_flush ≡ true → f.content s' w.part_path ≡ some given)
        × (w'.part_path ≡ w.part_path)
        × (w'.final_path ≡ w.final_path)
  unfolding flush_pending
  flush_pending-Holds do_flush given s w h e =
      let (s', w') = (write_pending f (s, w)).0 in
      ground (
        arith,
        write_pending-Holds given s w h,
        f.flush-content s' w'.part_path,
        append-nil (f.taken s' w'.part_path),
      )

  -- The writer holds the bytes given before and those of the NAL, whether it wrote them out or not.
  pub write_nal-Holds :
      (given nal : Bytes) (s : State) (w : ClipWriter)
      → Holds given s w
      → (write_nal f nal (s, w)).1 ≡ none
      → let (s', w') = (write_nal f nal (s, w)).0 in
        Holds (given ++ nal) s' w' × (w'.part_path ≡ w.part_path) × (w'.final_path ≡ w.final_path)
  unfolding write_nal
  write_nal-Holds given nal s w h e =
      let w₁ : ClipWriter = record w { pending = w.pending ++ nal } in
      let h₁ : Holds (given ++ nal) s w₁ = record {
        bytes_lem =
            sym (append_assoc (f.taken s w.part_path) w.pending nal)
            ∙ ap (λ (l : Bytes). l ++ nal) h.bytes_lem;
        written_lem = h.written_lem;
      } in
      ground (arith, flush_pending-Holds false (given ++ nal) s w₁ h₁)

  finalize-Holds :
      (given : Bytes) (s : State) (w : ClipWriter)
      → Holds given s w
      → (finalize f (s, w)).1 ≡ none
      → f.content (finalize f (s, w)).0.0 w.final_path ≡ some given
  unfolding finalize
  finalize-Holds given s w h e =
      let (s', w') = (flush_pending f true (s, w)).0 in
      ground (
        arith,
        flush_pending-Holds true given s w h,
        f.rename-content s' w'.part_path w'.final_path,
      )

  pub create-Holds :
      (s : State) (part final : Text) (n : ℕ)
      → (create f s part final n).1 ≡ none
      → let (s', w) = (create f s part final n).0 in Holds [] s' w × (w.final_path ≡ final)
  unfolding create
  create-Holds s part final n e = ground (arith, f.create-taken s part)

  -- `write_nal` for each NAL, up to the first error.
  unfoldable pub write_nals : List Bytes → State × ClipWriter → (State × ClipWriter) × Option Error
  write_nals [] sw = (sw, none)
  write_nals (n ∷ ns) sw = and_then (write_nal f n sw) (write_nals ns)

  -- A whole clip: created, filled and finalized, up to the first error.
  unfoldable pub write_clip :
      State → Text → Text → ℕ → List Bytes → (State × ClipWriter) × Option Error
  write_clip s part final n nals =
      and_then (create f s part final n) λ sw. and_then (write_nals nals sw) (finalize f)

  pub write_nals-Holds :
      (nals : List Bytes) (given : Bytes) (s : State) (w : ClipWriter)
      → Holds given s w
      → (write_nals nals (s, w)).1 ≡ none
      → let (s', w') = (write_nals nals (s, w)).0 in
        Holds (given ++ concat nals) s' w' × (w'.final_path ≡ w.final_path)
  unfolding write_nals
  write_nals-Holds [] given s w h e = (rw append-nil h, refl)
  write_nals-Holds (n ∷ ns) given s w h e =
      let (s₁, w₁) = (write_nal f n (s, w)).0 in
      ground (
        arith,
        write_nal-Holds given n s w h,
        write_nals-Holds ns (given ++ n) s₁ w₁,
        append_assoc given n (concat ns),
      )

-- A clip that is created, given any NALs and finalized with no error of the files on the way is, under
-- its final name, exactly the NALs one after the other, however they were batched.
pub content-write_clip :
    (f : ClipFiles) (s : f.State) (part final : Text) (n : ℕ) (nals : List Bytes)
    → (write_clip f s part final n nals).1 ≡ none
    → f.content (write_clip f s part final n nals).0.0 final ≡ some (concat nals)
unfolding write_clip
content-write_clip f s part final n nals e =
    let (s₁, w₁) = (create f s part final n).0 in
    let (s₂, w₂) = (write_nals f nals (s₁, w₁)).0 in
    ground (
      arith,
      create-Holds f s part final n,
      write_nals-Holds f nals [] s₁ w₁,
      finalize-Holds f (concat nals) s₂ w₂,
    )
