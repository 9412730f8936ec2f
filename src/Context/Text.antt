-- ===== src/Context/Text.antt =====
-- context/composer.py: `_clean` and the lines of the block. A text is its code points.
use Prim.Native.Char.{code}
use Prim.Native.String.{String}
use conversational_memory_sy.Prelude.{
  ℕ, ◌+◌, ◌*◌, ◌≡◌, refl, ap, ◌∙◌, Bool, true, false, ◌&&◌, ◌||◌, List, [], ◌∷◌, ◌++◌, arith, leb,
  ◌==◌, length, count_if, All, Bool-cases, inl, inr,
}

abbrev pub Text : Type 0
Text = List ℕ

abbrev pub codes : String → Text
codes String.[] = []
codes (String.◌∷◌ c s) = code c ∷ codes s

-- What `str.split()` separates at.
abbrev pub is_space : ℕ → Bool
is_space c =
    (leb 9 c && leb c 13)
    || (leb 28 c && leb c 32)
    || c == 133
    || c == 160
    || c == 5760
    || (leb 8192 c && leb c 8202)
    || c == 8232
    || c == 8233
    || c == 8239
    || c == 8287
    || c == 12288

abbrev flush : Text → List Text → List Text
flush [] words = words
flush (c ∷ cs) words = (c ∷ cs) ∷ words

-- `str.split()`, with the word read so far
split_from : Text → Text → List Text
split_from word [] = flush word []
split_from word (c ∷ cs) = elim (is_space c) [
  | true ↦ flush word (split_from [] cs)
  | false ↦ split_from (word ++ c ∷ []) cs
]

-- `sep.join(words)`
unfoldable pub join : Text → List Text → Text
join sep [] = []
join sep (word ∷ []) = word
join sep (word ∷ rest) = word ++ (sep ++ join sep rest)

-- `_clean`
unfoldable pub clean : Text → Text
unfolding split_from join
clean content = join (codes " ") (split_from [] content)

abbrev pub newlines : Text → ℕ
newlines = count_if (λ c. c == 10)

pub newlines-append : (xs ys : Text) → newlines (xs ++ ys) ≡ newlines xs + newlines ys
newlines-append [] ys = omega arith
newlines-append (x ∷ xs) ys = ground (arith, newlines-append xs ys)

abbrev Flat : Text → Type 0
Flat word = newlines word ≡ 0

flush-Flat :
    (word : Text) (words : List Text) → Flat word → All Flat words → All Flat (flush word words)
flush-Flat [] words h hs = hs
flush-Flat (c ∷ cs) words h hs = (h, hs)

split_from-Flat : (word content : Text) → Flat word → All Flat (split_from word content)
unfolding split_from
split_from-Flat word [] h = flush-Flat word [] h tt
split_from-Flat word (c ∷ cs) h = elim (Bool-cases (is_space c)) [
  | inl space ↦ rw (space, All) (flush-Flat word (split_from [] cs) h (split_from-Flat [] cs refl))
  | inr letter ↦
      rw (letter, All)
        (split_from-Flat (word ++ c ∷ []) cs (newlines-append word (c ∷ []) ∙ ground arith))
]

-- Joining flat words writes the separator's line breaks once between any two.
pub newlines-join :
    (sep word : Text) (words : List Text)
    → Flat word
    → All Flat words
    → newlines (join sep (word ∷ words)) ≡ length words * newlines sep
unfolding join
newlines-join sep word [] h hs = omega (arith, h)
newlines-join sep word (next ∷ words) h (k, ks) =
    newlines-append word (sep ++ join sep (next ∷ words))
    ∙ (ap (λ n. newlines word + n) (newlines-append sep (join sep (next ∷ words)))
        ∙ omega (arith, h, newlines-join sep next words k ks))

join-Flat : (words : List Text) → All Flat words → newlines (join (codes " ") words) ≡ 0
unfolding join
join-Flat [] h = refl
join-Flat (word ∷ words) (h, hs) = newlines-join (codes " ") word words h hs ∙ omega arith

-- A cleaned memory holds no line break, whatever the stored text was.
pub newlines-clean : (content : Text) → newlines (clean content) ≡ 0
unfolding clean
newlines-clean content = join-Flat (split_from [] content) (split_from-Flat [] content refl)
