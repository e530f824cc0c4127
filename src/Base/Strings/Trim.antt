-- ===== src/Base/Strings/Trim.antt =====
-- Trimming a text a second time changes nothing.
use Prim.Native.Nat.{ℕ}
use mathlib.Core.Path.{◌≡◌, refl, ap, ◌∙◌}
use mathlib.Core.Logic.{inl, inr}
use mathlib.Core.Bool.{false}
use mathlib.Core.List.{List, [], ◌∷◌, ◌++◌, reverse, reverse-cons, reverse-reverse, reverse-append}
use opencord_server.Base.Test.{Bool-cases}
use opencord_server.Base.Strings.Words.{is_whitespace, trim_start, trim_end, trim}

-- A text that does not begin with white space.
abbrev StartsDark : List ℕ → Type 0
StartsDark [] = Unit
StartsDark (c ∷ s) = is_whitespace c ≡ false

trim_start-StartsDark : (s : List ℕ) → StartsDark (trim_start s)
unfolding trim_start
trim_start-StartsDark [] = tt
trim_start-StartsDark (c ∷ s) = elim (Bool-cases (is_whitespace c)) [
  | inl white ↦ rw white (trim_start-StartsDark s)
  | inr dark ↦ rw dark dark
]

StartsDark-trim_start : (s : List ℕ) → StartsDark s → trim_start s ≡ s
unfolding trim_start
StartsDark-trim_start [] h = refl
StartsDark-trim_start (c ∷ s) h = rw h

-- Cutting white space at the front of a text with one more letter behind.
trim_start-concat :
    (s : List ℕ) (c : ℕ)
    → is_whitespace c ≡ false
    → trim_start (s ++ c ∷ []) ≡ trim_start s ++ c ∷ []
unfolding trim_start
trim_start-concat [] c h = rw h
trim_start-concat (d ∷ s) c h = elim (Bool-cases (is_whitespace d)) [
  | inl white ↦ rw white (trim_start-concat s c h)
  | inr dark ↦ rw dark
]

trim_end-StartsDark : (s : List ℕ) → StartsDark s → StartsDark (trim_end s)
unfolding trim_end
trim_end-StartsDark [] h = tt
trim_end-StartsDark (c ∷ s) h =
    rw
      (
        reverse-cons c s,
        trim_start-concat (reverse s) c h,
        reverse-append (trim_start (reverse s)) (c ∷ []),
      )
      h

trim_end_idem : (s : List ℕ) → trim_end (trim_end s) ≡ trim_end s
unfolding trim_end
trim_end_idem s =
    ap (λ t. reverse (trim_start t)) (reverse-reverse (trim_start (reverse s)))
    ∙ ap reverse (StartsDark-trim_start _ (trim_start-StartsDark (reverse s)))

pub trim_idem : (s : List ℕ) → trim (trim s) ≡ trim s
unfolding trim
trim_idem s =
    ap trim_end (StartsDark-trim_start _ (trim_end-StartsDark _ (trim_start-StartsDark s)))
    ∙ trim_end_idem (trim_start s)
