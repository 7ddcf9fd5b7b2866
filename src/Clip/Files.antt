-- ===== src/Clip/Files.antt =====
-- The files that the clip and live code reaches through tokio::fs, as an interface with laws: what a
-- `BufWriter` on a path has taken, what the file of a name holds, and how the calls change that.
-- Each call returns the new state and its error, if any.
use sentinel_video_receiver.Prelude.{ℕ, ◌≡◌, Option, none, some, List, [], ◌++◌, Bytes, Text}

pub record ClipFiles : Type 1 where
  pub State : Type 0
  pub Error : Type 0
  -- What the writer on a path has taken since it was created.
  pub taken : State → Text → Bytes
  -- What the file of a name holds, if there is one.
  pub content : State → Text → Option Bytes
  pub create_dir_all : State → Text → State × Option Error
  pub create : State → Text → State × Option Error
  pub write_all : State → Text → Bytes → State × Option Error
  pub flush : State → Text → State × Option Error
  pub rename : State → Text → Text → State × Option Error
  pub remove_file : State → Text → State × Option Error
  -- `tokio::fs::write` of a whole file.
  pub write : State → Text → Bytes → State × Option Error
  -- The paths of a directory's entries; `none` is an error.
  pub read_dir : State → Text → Option (List Text)
  -- Modification time and length; `none` is an error.
  pub metadata : State → Text → Option (ℕ × ℕ)
  pub create-taken : (s : State) (p : Text) → (create s p).1 ≡ none → taken (create s p).0 p ≡ []
  pub write_all-taken :
      (s : State) (p : Text) (bytes : Bytes)
      → (write_all s p bytes).1 ≡ none
      → taken (write_all s p bytes).0 p ≡ taken s p ++ bytes
  pub flush-content :
      (s : State) (p : Text)
      → (flush s p).1 ≡ none
      → (content (flush s p).0 p ≡ some (taken s p)) × (taken (flush s p).0 p ≡ taken s p)
  pub rename-content :
      (s : State) (p q : Text) → (rename s p q).1 ≡ none → content (rename s p q).0 q ≡ content s p

-- `?` between calls on a state.
abbrev pub and_then {ℓ κ} :
    {S : Type ℓ} {E : Type κ} → S × Option E → (S → S × Option E) → S × Option E
and_then (s, none) f = f s
and_then (s, some e) f = (s, some e)
