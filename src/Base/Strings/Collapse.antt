-- ===== src/Base/Strings/Collapse.antt =====
-- Collapsing the white space of a text is idempotent: the words of the collapsed text are the
-- words of the text.
use Prim.Native.Nat.{ℕ}
use mathlib.Core.Path.{◌≡◌, refl, ap, ◌∙◌, sym}
use mathlib.Core.Logic.{inl, inr}
use mathlib.Core.Bool.{true, false}
use mathlib.Core.List.{List, [], ◌∷◌, ◌++◌, append_assoc, append-nil}
use opencord_server.Base.Test.{Bool-cases}
use opencord_server.Base.Strings.Words.{
  is_whitespace, flush, words_from, split_whitespace, join_words, collapse,
}

-- A word is not empty and holds no white space.
abbrev NoSpace : List ℕ → Type 0
NoSpace [] = Unit
NoSpace (c ∷ s) = (is_whitespace c ≡ false) × NoSpace s

abbrev IsWord : List ℕ → Type 0
IsWord [] = ⊥
IsWord (c ∷ s) = NoSpace (c ∷ s)

abbrev AreWords : List (List ℕ) → Type 0
AreWords [] = Unit
AreWords (w ∷ ws) = IsWord w × AreWords ws

NoSpace-concat : (w : List ℕ) (c : ℕ) → NoSpace w → is_whitespace c ≡ false → NoSpace (w ++ c ∷ [])
NoSpace-concat [] c h e = (e, tt)
NoSpace-concat (d ∷ w) c (p, h) e = (p, NoSpace-concat w c h e)

flush-AreWords : (w : List ℕ) (ws : List (List ℕ)) → NoSpace w → AreWords ws → AreWords (flush w ws)
flush-AreWords [] ws h k = k
flush-AreWords (c ∷ w) ws h k = (h, k)

words_from-AreWords : (w s : List ℕ) → NoSpace w → AreWords (words_from w s)
unfolding words_from
words_from-AreWords w [] h = flush-AreWords w [] h tt
words_from-AreWords w (c ∷ s) h = elim (Bool-cases (is_whitespace c)) [
  | inl e ↦ rw e (flush-AreWords w (words_from [] s) h (words_from-AreWords [] s tt))
  | inr e ↦ rw e (words_from-AreWords (w ++ c ∷ []) s (NoSpace-concat w c h e))
]

-- Reading the letters of a word moves them into the current word.
words_from-word : (u w s : List ℕ) → NoSpace w → words_from u (w ++ s) ≡ words_from (u ++ w) s
unfolding words_from
words_from-word u [] s h = ap (λ t. words_from t s) (sym (append-nil u))
words_from-word u (c ∷ w) s (p, h) =
    rw p
      (words_from-word (u ++ c ∷ []) w s h ∙ ap (λ t. words_from t s) (append_assoc u (c ∷ []) w))

space : is_whitespace 0x20 ≡ true
unfolding is_whitespace
space = refl

flush-word : (w : List ℕ) (ws : List (List ℕ)) → IsWord w → flush w ws ≡ w ∷ ws
flush-word [] ws h = absurd h
flush-word (c ∷ w) ws h = refl

IsWord-NoSpace : (w : List ℕ) → IsWord w → NoSpace w
IsWord-NoSpace [] h = absurd h
IsWord-NoSpace (c ∷ w) h = h

words_from-space : (w s : List ℕ) → words_from w (0x20 ∷ s) ≡ flush w (words_from [] s)
unfolding words_from
words_from-space w s = rw space

words_from-join_words : (ws : List (List ℕ)) → AreWords ws → words_from [] (join_words ws) ≡ ws
unfolding join_words
words_from-join_words [] h = unfold words_from in refl
words_from-join_words (w ∷ []) (p, h) =
    ap (words_from []) (sym (append-nil w))
    ∙ words_from-word [] w [] (IsWord-NoSpace w p)
    ∙ unfold words_from in flush-word w [] p
words_from-join_words (w ∷ v ∷ ws) (p, h) =
    words_from-word [] w (0x20 ∷ join_words (v ∷ ws)) (IsWord-NoSpace w p)
    ∙ words_from-space w (join_words (v ∷ ws))
    ∙ flush-word w (words_from [] (join_words (v ∷ ws))) p
    ∙ ap (λ t. w ∷ t) (words_from-join_words (v ∷ ws) h)

pub collapse_idem : (s : List ℕ) → collapse (collapse s) ≡ collapse s
unfolding collapse split_whitespace
collapse_idem s =
    ap join_words (words_from-join_words (words_from [] s) (words_from-AreWords [] s tt))
