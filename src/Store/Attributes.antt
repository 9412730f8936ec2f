-- ===== src/Store/Attributes.antt =====
-- capture/attributes.py: the registry of attribute slots. `str.lower` is a parameter.
use conversational_memory_sy.Prelude.{
  ℕ, Bool, false, ◌||◌, Option, none, some, List, [], ◌∷◌, ◌++◌, ◌==◌, if◌then◌else◌, map,
}
use conversational_memory_sy.Context.Text.{Text, codes, is_space}
use conversational_memory_sy.Context.Tokens.{same_text}

-- `SINGLE_VALUED`
abbrev single_valued : List Text
single_valued =
    codes "default_programming_language"
    ∷ codes "preferred_response_language"
    ∷ codes "preferred_response_format"
    ∷ codes "preferred_code_comment_style"
    ∷ codes "employer"
    ∷ codes "job_title"
    ∷ codes "city_of_residence"
    ∷ codes "timezone"
    ∷ codes "preferred_name"
    ∷ []

-- `MULTI_VALUED`
abbrev multi_valued : List Text
multi_valued =
    codes "food_preference"
    ∷ codes "dietary_restriction"
    ∷ codes "hobby"
    ∷ codes "programming_language_known"
    ∷ codes "allergy"
    ∷ codes "skill"
    ∷ []

member : Text → List Text → Bool
member t [] = false
member t (u ∷ us) = same_text t u || member t us

abbrev without_trailing : ℕ → Text → Text
without_trailing c [] = if is_space c then [] else c ∷ []
without_trailing c (d ∷ rest) = c ∷ d ∷ rest

rstrip : Text → Text
rstrip [] = []
rstrip (c ∷ cs) = without_trailing c (rstrip cs)

lstrip : Text → Text
lstrip [] = []
lstrip (c ∷ cs) = let rest = lstrip cs in if is_space c then rest else c ∷ cs

-- `str.strip()`
unfoldable pub strip : Text → Text
unfolding lstrip rstrip
strip text = rstrip (lstrip text)

-- `.replace(" ", "_").replace("-", "_")` on a character
abbrev slot_character : ℕ → ℕ
slot_character c = if c == 32 || c == 45 then 95 else c

-- `normalise_attribute`; `none` is a value that is no string
unfoldable pub normalise_attribute : (lower : Text → Text) → Option Text → Option Text
unfolding strip member
normalise_attribute lower none = none
normalise_attribute lower (some raw) =
    let cleaned = map slot_character (lower (strip raw)) in
    if member cleaned (single_valued ++ multi_valued) then some cleaned else none

-- `is_single_valued`
unfoldable pub is_single_valued : Option Text → Bool
unfolding member
is_single_valued none = false
is_single_valued (some attribute) = member attribute single_valued
