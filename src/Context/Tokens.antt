-- ===== src/Context/Tokens.antt =====
-- context/tokens.py: the token count and the tokenizer that it uses. tiktoken's two functions are
-- parameters. The log lines and the warning flag are not modelled.
use conversational_memory_sy.Prelude.{
  ℕ, ◌+◌, ◌/◌, ◌%◌, ◌≤◌, ◌≡◌, ◌≢◌, refl, ap, Bool, true, false, ◌&&◌, Option, none, some, List, [],
  ◌∷◌, ◌++◌, arith, leb, ltb, ◌==◌, if◌then◌else◌, length, length-append, All,
}
use conversational_memory_sy.Context.Text.{Text, codes, join}

-- The UTF-8 bytes of a code point; a lone surrogate has none, and `encode` raises.
abbrev utf8_char : ℕ → Option (List ℕ)
utf8_char c =
    if ltb c 128
    then some (c ∷ [])
    else if ltb c 2048
    then some ((192 + c / 64) ∷ (128 + c % 64) ∷ [])
    else if leb 55296 c && leb c 57343
    then none
    else if ltb c 65536
    then some ((224 + c / 4096) ∷ (128 + c / 64 % 64) ∷ (128 + c % 64) ∷ [])
    else some
        ((240 + c / 262144) ∷ (128 + c / 4096 % 64) ∷ (128 + c / 64 % 64) ∷ (128 + c % 64) ∷ [])

abbrev append_bytes : Option (List ℕ) → Option (List ℕ) → Option (List ℕ)
append_bytes (some xs) (some ys) = some (xs ++ ys)
append_bytes _ _ = none

-- `text.encode("utf-8")`
unfoldable pub utf8 : Text → Option (List ℕ)
utf8 [] = some []
utf8 (c ∷ cs) = append_bytes (utf8_char c) (utf8 cs)

abbrev measure : Option (List ℕ) → Option ℕ
measure none = none
measure (some bytes) = some (length bytes)

-- `estimate_tokens`; `none` is the exception of `encode`
unfoldable pub estimate_tokens : Text → Option ℕ
estimate_tokens text = measure (utf8 text)

-- `count_tokens` of a text or of `None`; the tokenizer is the number of tokens of a text
unfoldable pub count_tokens : Option (Text → ℕ) → Option Text → Option ℕ
unfolding estimate_tokens utf8
count_tokens encoding none = some 0
count_tokens encoding (some []) = some 0
count_tokens (some encode) (some (c ∷ cs)) = some (encode (c ∷ cs))
count_tokens none (some (c ∷ cs)) = estimate_tokens (c ∷ cs)

-- A byte-pair tokenizer cuts the bytes of a text into pieces, none of them empty.
abbrev pub flatten : List (List ℕ) → List ℕ
flatten [] = []
flatten (piece ∷ pieces) = piece ++ flatten pieces

pieces-le :
    (pieces : List (List ℕ)) → All (λ p. p ≢ []) pieces → length pieces ≤ length (flatten pieces)
pieces-le [] h = omega arith
pieces-le ([] ∷ pieces) (h, hs) = absurd (h refl)
pieces-le ((b ∷ bs) ∷ pieces) (h, hs) =
    omega (arith, pieces-le pieces hs, length-append {0} bs (flatten pieces))

no_bytes : (bytes : List ℕ) → utf8 [] ≡ some bytes → length bytes ≡ 0
unfolding utf8
no_bytes [] e = refl
no_bytes (b ∷ bs) e = cc

-- With no tokenizer, the count of a text with UTF-8 bytes is at least the number of pieces that
-- are not empty of any way to cut these bytes.
pub estimate_never_under_counts :
    (text : Text) (bytes : List ℕ) (pieces : List (List ℕ))
    → utf8 text ≡ some bytes
    → flatten pieces ≡ bytes
    → All (λ p. p ≢ []) pieces
    → (n : ℕ) × (count_tokens none (some text) ≡ some n) × (length pieces ≤ n)
unfolding count_tokens
estimate_never_under_counts [] bytes pieces e f h =
    (0, refl, omega (arith, pieces-le pieces h, ap {B = ℕ} length f, no_bytes bytes e))
estimate_never_under_counts (c ∷ cs) bytes pieces e f h =
    (length bytes, ap measure e, omega (arith, pieces-le pieces h, ap {B = ℕ} length f))

abbrev pub same_text : Text → Text → Bool
same_text [] [] = true
same_text (a ∷ as') (b ∷ bs) = a == b && same_text as' bs
same_text _ _ = false

same_text_refl : (t : Text) → same_text t t ≡ true
same_text_refl [] = refl
same_text_refl (a ∷ t) = ground (arith, same_text_refl t)

-- `text.split("/")`, with the part read so far
unfoldable pub split_slash : Text → Text → List Text
split_slash part [] = part ∷ []
split_slash part (c ∷ cs) = elim (c == 47) [
  | true ↦ part ∷ split_slash [] cs
  | false ↦ split_slash (part ++ c ∷ []) cs
]

abbrev or_fallback {ℓ} : {Name : Type ℓ} → Name → Option Name → Name
or_fallback fallback none = fallback
or_fallback fallback (some name) = name

-- `_ENCODING_CACHE`: for a model that was seen, what was loaded for it, `None` included.
abbrev pub Cache : Type 0 → Type 0
Cache Encoding = Text → Option (Option Encoding)

abbrev remember : {Encoding : Type 0} → Cache Encoding → Text → Option Encoding → Cache Encoding
remember cache model encoding other = if same_text model other then some encoding else cache other

module _ {Name : Type 0} (known : Text → Option Name) where
  -- one round of the loop; an empty candidate is passed over
  abbrev known_or : Text → Option Name → Option Name
  known_or [] rest = rest
  known_or (c ∷ cs) rest = elim (known (c ∷ cs)) [ some name ↦ some name | none ↦ rest ]

  unfoldable pub first_known : List Text → Option Name
  first_known [] = none
  first_known (part ∷ parts) = known_or (join (codes "/") (part ∷ parts)) (first_known parts)

  -- `encoding_name_for_model`; `known` is `tiktoken.encoding_for_model`
  unfoldable pub encoding_name_for_model : Text → Option Name
  unfolding first_known split_slash
  encoding_name_for_model model = first_known (split_slash [] model)

  module _ {Encoding : Type 0} (fallback : Name) where
    -- `encoding_for` a resolved model; `load` is `tiktoken.get_encoding`, `none` its exception
    unfoldable pub encoding_for :
        (Name → Option Encoding) → Cache Encoding → Text → Option Encoding × Cache Encoding
    encoding_for load cache model = elim (cache model) [
      | some encoding ↦ (encoding, cache)
      | none ↦
          let encoding = load (or_fallback fallback (encoding_name_for_model model)) in
          (encoding, remember cache model encoding)
    ]

    -- The encoding of a model is chosen once: asking again has the same result and the same
    -- cache, whatever the loader answers later.
    pub encoding_for_stable :
        (load later : Name → Option Encoding) (cache : Cache Encoding) (model : Text)
        → let (encoding, cache') = encoding_for load cache model in
          encoding_for later cache' model ≡ (encoding, cache')
    unfolding encoding_for
    encoding_for_stable load later cache model = ground (arith, same_text_refl model)
