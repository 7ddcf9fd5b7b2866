-- ===== src/Server/Stream/Prerolls.antt =====
-- The units that a clip of `run_stream` in sentinel_rtp_cam/src/server_pipeline.rs gets from the ring.
use sentinel_video_receiver.Prelude.{
  ◌≡◌, refl, sym, ap, ◌∙◌, arith, true, false, Option, none, List, [], ◌∷◌, ◌++◌, append_assoc,
  append-nil, if◌then◌else◌, Bytes,
}
use sentinel_video_receiver.Clip.Files.{ClipFiles}
use sentinel_video_receiver.Clip.Writer
use sentinel_video_receiver.Clip.Writer.{ClipWriter}
use sentinel_video_receiver.Clip.Writer.Content.{
  Holds, concat, write_nals, write_nal-Holds, write_nals-Holds,
}
use sentinel_video_receiver.Server.Stream.{AccessUnit}
use sentinel_video_receiver.Server.Stream.Clips.{
  Preroll, param_sets, write_preroll_unit, write_preroll,
}

-- The NALs of units, one after the other.
abbrev pub all_nals : List AccessUnit → List Bytes
all_nals [] = []
all_nals (au ∷ aus) = au.nals ++ all_nals aus

-- What a snapshot gives a clip: nothing in front of the first unit with an IDR slice, and the
-- parameter sets in front of that.
abbrev pub preroll_nals : Option Bytes → Option Bytes → List AccessUnit → List Bytes
preroll_nals sps pps [] = []
preroll_nals sps pps (au ∷ aus) =
    if au.has_idr then param_sets sps pps ++ (au.nals ++ all_nals aus) else preroll_nals sps pps aus

pub concat-append : (ms ns : List Bytes) → concat (ms ++ ns) ≡ concat ms ++ concat ns
concat-append [] ns = refl
concat-append (m ∷ ms) ns =
    ap (◌++◌ m) (concat-append ms ns) ∙ sym (append_assoc m (concat ms) (concat ns))

module _ (f : ClipFiles) where
  write_preroll_unit-Holds :
      (nals : List Bytes) (given : Bytes) (pre : Preroll) (s : f.State) (w : ClipWriter)
      → Holds f given s w
      → (write_preroll_unit f nals pre (s, w)).1 ≡ none
      → let (((s', w'), pre'), e) = write_preroll_unit f nals pre (s, w) in
        Holds f (given ++ concat nals) s' w' × (pre'.found ≡ pre.found)
  unfolding write_preroll_unit
  write_preroll_unit-Holds [] given pre s w h e = (rw append-nil h, refl)
  write_preroll_unit-Holds (nal ∷ nals) given pre s w h e =
      let (s₁, w₁) = (Writer.write_nal f nal (s, w)).0 in
      let pre₁ : Preroll = record pre { wrote_any = true } in
      ground (
        arith,
        e,
        write_nal-Holds f given nal s w h,
        write_preroll_unit-Holds nals (given ++ nal) pre₁ s₁ w₁,
        append_assoc given nal (concat nals),
      )

  write_preroll_found :
      (sps pps : Option Bytes) (aus : List AccessUnit) (given : Bytes) (pre : Preroll) (s : f.State)
      (w : ClipWriter)
      → pre.found ≡ true
      → Holds f given s w
      → (write_preroll f sps pps aus pre (s, w)).1 ≡ none
      → let ((s', w'), pre') = (write_preroll f sps pps aus pre (s, w)).0 in
        Holds f (given ++ concat (all_nals aus)) s' w'
  unfolding write_preroll
  write_preroll_found sps pps [] given pre s w found h e = rw append-nil h
  write_preroll_found sps pps (au ∷ aus) given pre s w found h e =
      let ((s₁, w₁), pre₁) = (write_preroll_unit f au.nals pre (s, w)).0 in
      ground (
        arith,
        e,
        found,
        write_preroll_unit-Holds au.nals given pre s w h,
        write_preroll_found sps pps aus (given ++ concat au.nals) pre₁ s₁ w₁,
        append_assoc given (concat au.nals) (concat (all_nals aus)),
        concat-append au.nals (all_nals aus),
      )

  pub write_preroll_lem :
      (sps pps : Option Bytes) (aus : List AccessUnit) (given : Bytes) (pre : Preroll) (s : f.State)
      (w : ClipWriter)
      → pre.found ≡ false
      → Holds f given s w
      → (write_preroll f sps pps aus pre (s, w)).1 ≡ none
      → let ((s', w'), pre') = (write_preroll f sps pps aus pre (s, w)).0 in
        Holds f (given ++ concat (preroll_nals sps pps aus)) s' w'
  unfolding write_preroll
  write_preroll_lem sps pps [] given pre s w found h e = rw append-nil h
  write_preroll_lem sps pps (au ∷ aus) given pre s w found h e =
      let sets = param_sets sps pps in
      let (s₀, w₀) = (write_nals f sets (s, w)).0 in
      let pre₀ : Preroll = record pre { found = true } in
      let ((s₁, w₁), pre₁) = (write_preroll_unit f au.nals pre₀ (s₀, w₀)).0 in
      let given₀ = given ++ concat sets in
      ground (
        arith,
        e,
        found,
        write_preroll_lem sps pps aus given pre s w found h,
        write_nals-Holds f sets given s w h,
        write_preroll_unit-Holds au.nals given₀ pre₀ s₀ w₀,
        write_preroll_found sps pps aus (given₀ ++ concat au.nals) pre₁ s₁ w₁,
        append_assoc given₀ (concat au.nals) (concat (all_nals aus)),
        append_assoc given (concat sets) (concat (au.nals ++ all_nals aus)),
        concat-append au.nals (all_nals aus),
        concat-append sets (au.nals ++ all_nals aus),
      )
