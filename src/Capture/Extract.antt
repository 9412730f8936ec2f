-- ===== src/Capture/Extract.antt =====
-- capture/extract.py and graphs/capture_state.py: a turn and the candidates that the model proposes
-- for it. What `parse_extraction` makes of the model's text is a parameter, and so is `str.lower`.
use conversational_memory_sy.Prelude.{
  ℕ, Bool, true, false, Option, none, some, List, [], ◌∷◌, ◌++◌, take, if◌then◌else◌,
}
use conversational_memory_sy.Context.Text.{Text, codes}
use conversational_memory_sy.Context.Tokens.{same_text}
use conversational_memory_sy.Store.{Origin, assistant_note, reflection, stated}
use conversational_memory_sy.Store.Attributes.{strip, normalise_attribute}
use conversational_memory_sy.Store.Memories.{Candidate}

-- `Turn`
pub record Turn : Type 0 where
  pub user : Option Text
  pub assistant : Option Text

-- A JSON value but `null`, as the code sees it: a string, or another by its truth and its `str()`.
pub data Value : Type 0 where
  string : Text → Value
  other : (truthy : Bool) → (shown : Text) → Value

-- An element of the array. The fields are those that `.get` is asked for; `none` is absent or `null`.
pub data Item : Type 0 where
  plain : Text → Item
  object : (text fact content source attribute : Option Value) → Item
  neither : Item

-- What `complete` comes to, with `json.loads` behind it.
pub data Reply : Type 0 where
  provider_error unparseable : Reply
  proposed : List Item → Reply

abbrev part : Text → Text → List Text
part label [] = []
part label (c ∷ cs) = (label ++ c ∷ cs) ∷ []

abbrev stripped : Option Text → Text
stripped none = []
stripped (some text) = strip text

-- `"\n".join(parts)`
abbrev lines : List Text → Text
lines [] = []
lines (p ∷ []) = p
lines (p ∷ q ∷ parts) = p ++ 10 ∷ lines (q ∷ parts)

-- `turn_text`
unfoldable pub turn_text : Turn → Text
unfolding strip
turn_text turn = lines (
    part (codes "User: ") (stripped turn.user)
    ++ part (codes "Assistant: ") (stripped turn.assistant))

abbrev pub is_true : Value → Bool
is_true (string []) = false
is_true (string (_ ∷ _)) = true
is_true (other truthy shown) = truthy

abbrev pub shown : Value → Text
shown (string text) = text
shown (other truthy text) = text

-- `value or rest`
abbrev pub or_else : Option Value → Text → Text
or_else none rest = rest
or_else (some value) rest = if is_true value then shown value else rest

abbrev pub as_string : Option Value → Option Text
as_string (some (string text)) = some text
as_string _ = none

abbrev pub origin : Text → Origin
origin source =
    if same_text source (codes "assistant_note")
    then assistant_note
    else if same_text source (codes "reflection")
    then reflection
    else stated (some source)

-- `str(source).strip() or "user_statement"`
abbrev pub source_or_default : Text → Text
source_or_default [] = codes "user_statement"
source_or_default (c ∷ cs) = c ∷ cs

module _ {W E : Type 0} (lower : Text → Text) where
  -- the end of the loop's body: nothing for an empty text
  abbrev pub candidate : Text → Text → Option Text → List (Candidate W E)
  candidate [] source attribute = []
  candidate (c ∷ cs) source attribute =
      record {
        text = c ∷ cs;
        source = origin source;
        attribute = attribute;
        embedding = none;
        importance = none;
        confidence = none;
        similarity = none;
      }
      ∷ []

  -- the body of the loop of `_coerce_candidates`
  unfoldable pub coerce : Item → List (Candidate W E)
  unfolding strip normalise_attribute
  coerce (plain text) = candidate (strip text) (codes "user_statement") none
  coerce (object text fact content source attribute) =
      candidate (strip (or_else text (or_else fact (or_else content []))))
        (source_or_default (strip (or_else source (codes "user_statement"))))
        (normalise_attribute lower (as_string attribute))
  coerce neither = []

  -- `_coerce_candidates`
  unfoldable pub coerce_candidates : List Item → List (Candidate W E)
  unfolding coerce
  coerce_candidates [] = []
  coerce_candidates (item ∷ items) = coerce item ++ coerce_candidates items

  abbrev pub candidates_of : Reply → List (Candidate W E)
  candidates_of provider_error = []
  candidates_of unparseable = []
  candidates_of (proposed items) = coerce_candidates items

  abbrev pub ask : (Text → Reply) → (cap : ℕ) → Text → List (Candidate W E)
  ask complete cap [] = []
  ask complete cap (c ∷ cs) = take cap (candidates_of (complete (c ∷ cs)))

  -- `extract_candidates`; the text of a turn has no white space round it, so it is blank if empty
  unfoldable pub extract_candidates :
      (complete : Text → Reply) → (cap : ℕ) → Turn → List (Candidate W E)
  unfolding turn_text coerce_candidates
  extract_candidates complete cap turn = ask complete cap (turn_text turn)
