-- ===== src/Prelude/Maps.antt =====
-- Texts as lists of code points, and `HashMap` as an association list with one entry for a key.
use Prim.Native.Nat.{ℕ}
use mathlib.Core.Path.{◌≡◌}
use mathlib.Core.Logic.{◌↔◌}
use mathlib.Core.Bool.{Bool, true, false, ◌&&◌, ◌||◌}
use mathlib.Core.Option.{Option, none, some}
use mathlib.Core.List.{List, [], ◌∷◌}
use native.Mathlib.Omega.{arith}
use sentinel_video_receiver.Prelude.Tests.{ltb, ◌==◌, if◌then◌else◌, ==_iff}

-- What a map asks of its keys (`Eq`).
pub record Key {ℓ} (K : Type ℓ) : Type ℓ where
  pub same : K → K → Bool
  pub same_iff : (a b : K) → (same a b ≡ true) ↔ (a ≡ b)

abbrev pub Text : Type 0
Text = List ℕ

unfoldable pub text_same : Text → Text → Bool
text_same [] [] = true
text_same (a ∷ as') (b ∷ bs) = (a == b) && text_same as' bs
text_same _ _ = false

pub text_same_iff : (a b : Text) → (text_same a b ≡ true) ↔ (a ≡ b)
unfolding text_same
text_same_iff (x ∷ a) (y ∷ b) = ground (arith, text_same_iff a b)
text_same_iff _ _ = ground arith

-- The order of `String`.
unfoldable pub text_lt : Text → Text → Bool
text_lt [] [] = false
text_lt [] (b ∷ bs) = true
text_lt (a ∷ as') [] = false
text_lt (a ∷ as') (b ∷ bs) = ltb a b || ((a == b) && text_lt as' bs)

instance abbrev pub text_key : Key Text
text_key = record { same = text_same; same_iff = text_same_iff }

instance abbrev pub number_key : Key ℕ
number_key = record { same = λ a b. a == b; same_iff = ==_iff }

unfoldable pub pair_same : Text × Text → Text × Text → Bool
pair_same (a, b) (c, d) = text_same a c && text_same b d

pub pair_same_iff : (p q : Text × Text) → (pair_same p q ≡ true) ↔ (p ≡ q)
unfolding pair_same
pair_same_iff (a, b) (c, d) = ground (arith, text_same_iff a c, text_same_iff b d)

instance abbrev pub pair_key : Key (Text × Text)
pair_key = record { same = pair_same; same_iff = pair_same_iff }

module _ {ℓ κ} {K : Type ℓ} {V : Type κ} ⦃key : Key K⦄ where
  unfoldable pub get : K → List (K × V) → Option V
  get k [] = none
  get k ((j, v) ∷ m) = if key.same j k then some v else get k m

  unfoldable pub remove : K → List (K × V) → List (K × V)
  remove k [] = []
  remove k ((j, v) ∷ m) = let rest = remove k m in if key.same j k then rest else (j, v) ∷ rest

  unfoldable pub insert : K → V → List (K × V) → List (K × V)
  insert k v m = (k, v) ∷ remove k m

  -- `retain`.
  unfoldable pub retain : (K → V → Bool) → List (K × V) → List (K × V)
  retain keep [] = []
  retain keep ((j, v) ∷ m) = let rest = retain keep m in if keep j v then (j, v) ∷ rest else rest

  pub get-remove :
      (k j : K) (m : List (K × V)) → get j (remove k m) ≡ (if key.same k j then none else get j m)
  unfolding get remove
  get-remove k j [] = ground arith
  get-remove k j ((i, w) ∷ m) =
      ground (arith, key.same_iff k j, key.same_iff i k, key.same_iff i j, get-remove k j m)

  pub get-insert :
      (k j : K) (v : V) (m : List (K × V))
      → get j (insert k v m) ≡ (if key.same k j then some v else get j m)
  unfolding get insert
  get-insert k j v m = ground (arith, get-remove k j m)
