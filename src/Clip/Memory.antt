-- ===== src/Clip/Memory.antt =====
-- An implementation of the files in memory, which never fails: what each writer has taken, and what
-- each file holds.
use sentinel_video_receiver.Prelude.{
  ℕ, ◌≡◌, refl, arith, Option, none, some, [], ◌++◌, if◌then◌else◌, length, Bytes, Text, text_same,
  text_same_iff, Bool, true, false,
}
use sentinel_video_receiver.Clip.Files.{ClipFiles}

abbrev pub Memory : Type 0
Memory = (Text → Bytes) × (Text → Option Bytes)

abbrev pub at {ℓ} : {A : Type ℓ} → Text → A → (Text → A) → Text → A
at p a g q = if text_same p q then a else g q

pub at_lem {ℓ} : {A : Type ℓ} (p : Text) (a : A) (g : Text → A) → at p a g p ≡ a
at_lem p a g = ground (arith, text_same_iff p p)

abbrev size_of : Option Bytes → Option (ℕ × ℕ)
size_of none = none
size_of (some bytes) = some (0, length bytes)

-- Files that never fail.
abbrev pub memory_files : ClipFiles
memory_files = record {
  State = Memory;
  Error = Unit;
  taken = λ s. s.0;
  content = λ s. s.1;
  create_dir_all = λ s p. (s, none);
  create = λ s p. ((at p [] s.0, at p (some []) s.1), none);
  write_all = λ s p bytes. ((at p (s.0 p ++ bytes) s.0, s.1), none);
  flush = λ s p. ((s.0, at p (some (s.0 p)) s.1), none);
  rename = λ s p q. ((s.0, at q (s.1 p) s.1), none);
  remove_file = λ s p. ((s.0, at p none s.1), none);
  write = λ s p bytes. ((s.0, at p (some bytes) s.1), none);
  read_dir = λ s p. some [];
  metadata = λ s p. size_of (s.1 p);
  create-taken = λ s p h. at_lem p [] s.0;
  write_all-taken = λ s p bytes h. at_lem p (s.0 p ++ bytes) s.0;
  flush-content = λ s p h. (at_lem p (some (s.0 p)) s.1, refl);
  rename-content = λ s p q h. at_lem q (s.1 p) s.1;
}

abbrev pub no_files : Memory
no_files = ((λ _. []), (λ _. none))

-- Files in memory of which the next write fails, if the flag is set.
abbrev pub fail_once : Bool → Memory → Text → Bytes → (Bool × Memory) × Option (Unit {0})
fail_once true m p bytes = ((false, m), some tt)
fail_once false m p bytes = ((false, (memory_files.write_all m p bytes).0), none)

pub fail_once-taken :
    (flag : Bool) (m : Memory) (p : Text) (bytes : Bytes)
    → (fail_once flag m p bytes).1 ≡ none
    → (fail_once flag m p bytes).0.1.0 p ≡ m.0 p ++ bytes
fail_once-taken true m p bytes h = cc
fail_once-taken false m p bytes h = at_lem p (m.0 p ++ bytes) m.0

abbrev pub flaky_files : ClipFiles
flaky_files = record {
  State = Bool × Memory;
  Error = Unit;
  taken = λ s. s.1.0;
  content = λ s. s.1.1;
  create_dir_all = λ s p. (s, none);
  create = λ s p. ((s.0, (memory_files.create s.1 p).0), none);
  write_all = λ s. fail_once s.0 s.1;
  flush = λ s p. ((s.0, (memory_files.flush s.1 p).0), none);
  rename = λ s p q. ((s.0, (memory_files.rename s.1 p q).0), none);
  remove_file = λ s p. ((s.0, (memory_files.remove_file s.1 p).0), none);
  write = λ s p bytes. ((s.0, (memory_files.write s.1 p bytes).0), none);
  read_dir = λ s p. some [];
  metadata = λ s. memory_files.metadata s.1;
  create-taken = λ s p h. at_lem p [] s.1.0;
  write_all-taken = λ s. fail_once-taken s.0 s.1;
  flush-content = λ s p h. (at_lem p (some (s.1.0 p)) s.1.1, refl);
  rename-content = λ s p q h. at_lem q (s.1.1 p) s.1.1;
}
