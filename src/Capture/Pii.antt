-- ===== src/Capture/Pii.antt =====
-- capture/pii.py: the redaction. Presidio's analyzer and anonymizer are a parameter, which may fail.
use conversational_memory_sy.Prelude.{
  ◌≡◌, refl, Bool-cases, inl, inr, true, Option, none, some, List, [], ◌∷◌, map, if◌then◌else◌,
}
use conversational_memory_sy.Context.Text.{Text, codes}
use conversational_memory_sy.Retrieve.Hybrid.{is_blank}
use conversational_memory_sy.Store.Memories.{Candidate}

-- `none` is an exception; `F` is what Presidio reports of an entity.
pub record Presidio (F : Type 0) : Type 0 where
  pub analyze : Text → Option (List F)
  pub anonymize : Text → List F → Option Text

abbrev pub unscannable : Text
unscannable = codes "[REDACTED_UNSCANNABLE]"

module _ {F : Type 0} (presidio : Presidio F) where
  open presidio use {analyze, anonymize}

  abbrev pub anonymized : Option Text → Text
  anonymized none = unscannable
  anonymized (some text) = text

  abbrev pub analyzed : Text → Option (List F) → Text
  analyzed text none = unscannable
  analyzed text (some []) = text
  analyzed text (some (f ∷ found)) = anonymized (anonymize text (f ∷ found))

  -- `redact`, without the entity types
  unfoldable pub redact : Text → Text
  redact text = if is_blank text then text else analyzed text (analyze text)

  -- `redact_candidate`
  abbrev pub redact_candidate : {W E : Type 0} → Candidate W E → Candidate W E
  redact_candidate c = record c { text = redact c.text }

  -- `pii_node`
  unfoldable pub pii_node : {W E : Type 0} → List (Candidate W E) → List (Candidate W E)
  unfolding redact
  pii_node = map redact_candidate

  -- What may be stored: a text in which Presidio found nothing, what it made of one in which it did,
  -- or no text at all.
  pub data IsScrubbed : Text → Type 0 where
    blank : {text : Text} → is_blank text ≡ true → IsScrubbed text
    nothing_found : {text : Text} → analyze text ≡ some [] → IsScrubbed text
    replaced :
        {text : Text} (raw : Text) (f : F) (found : List F)
        → analyze raw ≡ some (f ∷ found)
        → anonymize raw (f ∷ found) ≡ some text
        → IsScrubbed text
    withheld : IsScrubbed unscannable

  anonymized-IsScrubbed :
      (raw : Text) (f : F) (found : List F) (answer : Option Text)
      → analyze raw ≡ some (f ∷ found)
      → anonymize raw (f ∷ found) ≡ answer
      → IsScrubbed (anonymized answer)
  anonymized-IsScrubbed raw f found none h k = withheld
  anonymized-IsScrubbed raw f found (some text) h k = replaced raw f found h k

  analyzed-IsScrubbed :
      (text : Text) (answer : Option (List F))
      → analyze text ≡ answer
      → IsScrubbed (analyzed text answer)
  analyzed-IsScrubbed text none h = withheld
  analyzed-IsScrubbed text (some []) h = nothing_found h
  analyzed-IsScrubbed text (some (f ∷ found)) h =
      anonymized-IsScrubbed text f found (anonymize text (f ∷ found)) h refl

  pub redact-IsScrubbed : (text : Text) → IsScrubbed (redact text)
  unfolding redact
  redact-IsScrubbed text = elim (Bool-cases (is_blank text)) [
    | inl empty ↦ rw (empty) (blank empty)
    | inr full ↦ rw (full) (analyzed-IsScrubbed text (analyze text) refl)
  ]
