-- ===== src/Llm.antt =====
-- llm/config.py: the retry of a rate-limited call, and `complete`, `stream` and `embed` around it. The
-- provider is what its calls come to, one after the other; delays are whole units of time, of which a
-- second has `second`. The environment and the names of models are left out.
pub mod Retry
pub mod Streams
pub mod Vectors
mod Examples
use conversational_memory_sy.Prelude.{
  ℕ, zero, suc, ◌+◌, ◌*◌, ◌^◌, ◌/◌, min, max, Bool, true, false, ◌||◌, Option, none, some, List, [],
  ◌∷◌, ◌==◌, ltb, map, if◌then◌else◌,
}
use conversational_memory_sy.Prelude.Sorting.{sort}
use conversational_memory_sy.Context.Text.{Text, codes}
use conversational_memory_sy.Context.Tokens.{same_text}
use conversational_memory_sy.Respond.{Completion, ended, raised, yields}

-- An exception of the provider: the name of its class, `status_code`, its text, and the wait that
-- `_retry_after_seconds` reads from it.
pub record Failure : Type 0 where
  pub class_name : Text
  pub status_code : Option ℕ
  pub text : Text
  pub retry_after : Option ℕ

-- What a call comes to.
pub data Attempt (A : Type 0) : Type 0 where
  returned : A → Attempt A
  failed : Failure → Attempt A

-- What `_with_rate_limit_retry` comes to: a value, an exception of the provider, or its RuntimeError.
pub data Retried (A : Type 0) : Type 0 where
  returned : A → Retried A
  reraised : Failure → Retried A
  exhausted : Retried A

-- `needle in text`
abbrev begins : Text → Text → Bool
begins [] text = true
begins (c ∷ cs) [] = false
begins (c ∷ cs) (d ∷ ds) = let rest = begins cs ds in if c == d then rest else false

unfoldable pub occurs : Text → Text → Bool
occurs needle [] = begins needle []
occurs needle (c ∷ cs) = begins needle (c ∷ cs) || occurs needle cs

abbrev is_429 : Option ℕ → Bool
is_429 none = false
is_429 (some code) = code == 429

-- `_is_rate_limit`
unfoldable pub is_rate_limit : (lower : Text → Text) → Failure → Bool
unfolding occurs
is_rate_limit lower e =
    (same_text e.class_name (codes "RateLimitError")
      || same_text e.class_name (codes "APIStatusError"))
    || is_429 e.status_code
    || occurs (codes "429") (lower e.text)
    || occurs (codes "rate limit") (lower e.text)
    || occurs (codes "rate_limit") (lower e.text)

-- LLM_RATE_LIMIT_BASE_DELAY, LLM_RATE_LIMIT_MAX_DELAY and a second, in units of time
pub record Delays : Type 0 where
  pub base : ℕ
  pub ceiling : ℕ
  pub second : ℕ

abbrev pub backoff : Delays → (attempt : ℕ) → Option ℕ → ℕ
backoff d attempt (some requested) = min requested d.ceiling
backoff d attempt none = min (d.base * 2 ^ attempt) d.ceiling

-- the bound of the jitter
abbrev pub most_jitter : Delays → (delay : ℕ) → ℕ
most_jitter d delay = min d.second (delay / 4)

-- the delay with its jitter: a random number up to the bound, here that of the attempt, cut off
abbrev pub delay_of : Delays → (random : ℕ → ℕ) → (attempt : ℕ) → Failure → ℕ
delay_of d random attempt e =
    let delay = backoff d attempt e.retry_after in
    delay + min (random attempt) (most_jitter d delay)

-- A run of the retry: the delays that it slept, and what it came to.
pub record Outcome (A : Type 0) : Type 0 where
  pub slept : List ℕ
  pub result : Retried A

abbrev pub ending : {A : Type 0} → Retried A → Outcome A
ending result = record { slept = []; result = result }

abbrev pub after : {A : Type 0} → ℕ → Outcome A → Outcome A
after delay o = record o { slept = delay ∷ o.slept }

module _ (lower : Text → Text) (d : Delays) (random : ℕ → ℕ) {A : Type 0}
    (operation : (attempt : ℕ) → Attempt A) where
  -- one round: a value or another error ends it, and so does the last attempt
  abbrev pub settle : Attempt A → (attempt remaining : ℕ) → Outcome A → Outcome A
  settle (returned a) attempt remaining later = ending (returned a)
  settle (failed e) attempt zero later =
      ending (if is_rate_limit lower e then exhausted else reraised e)
  settle (failed e) attempt (suc remaining) later =
      if is_rate_limit lower e
      then after (delay_of d random attempt e) later
      else ending (reraised e)

  -- the loop, with one attempt more than those that remain
  unfoldable pub retry_from : (remaining attempt : ℕ) → Outcome A
  unfolding is_rate_limit
  retry_from zero attempt = settle (operation attempt) attempt zero (ending exhausted)
  retry_from (suc remaining) attempt =
      let later = retry_from remaining (suc attempt) in
      settle (operation attempt) attempt (suc remaining) later

  -- `range(max(1, attempts))`
  abbrev pub retry_total : (total : ℕ) → Outcome A
  retry_total zero = retry_from 0 0
  retry_total (suc remaining) = retry_from remaining 0

  -- `_with_rate_limit_retry`, with the number of attempts resolved and cut off at 0
  unfoldable pub with_rate_limit_retry : (attempts : ℕ) → Outcome A
  unfolding retry_from
  with_rate_limit_retry attempts = retry_total attempts

-- `content or ""`
abbrev pub content_of : Retried (Option Text) → Option Text
content_of (returned none) = some []
content_of (returned (some text)) = some text
content_of (reraised e) = none
content_of exhausted = none

-- `MIN_MAX_TOKENS`
abbrev pub min_max_tokens : ℕ
min_max_tokens = 512

-- the budget of `complete` and `stream`, with the maximum resolved
abbrev pub budget : ℕ → ℕ
budget max_tokens = max min_max_tokens max_tokens

-- A chunk of the provider's stream: no choices or no delta, or the content of the delta.
pub data Chunk : Type 0 where
  empty : Chunk
  delta : Option Text → Chunk

-- Iterating the provider's stream: chunks, then its end or an exception.
pub data Chunks : Type 0 where
  closed broken : Chunks
  then_chunk : Chunk → Chunks → Chunks

-- the loop of `stream`
unfoldable pub pieces : Chunks → Completion
pieces closed = ended
pieces broken = raised
pieces (then_chunk empty rest) = pieces rest
pieces (then_chunk (delta none) rest) = pieces rest
pieces (then_chunk (delta (some [])) rest) = pieces rest
pieces (then_chunk (delta (some (c ∷ cs))) rest) = yields (c ∷ cs) (pieces rest)

abbrev pub iterated : Retried Chunks → Completion
unfolding pieces
iterated (returned chunks) = pieces chunks
iterated (reraised e) = raised
iterated exhausted = raised

-- An item of an embedding response, with its `index`.
pub record Item (E : Type 0) : Type 0 where
  pub index : Option ℕ
  pub embedding : E

abbrev pub index_of : {E : Type 0} → Item E → ℕ
index_of item = elim item.index [ none ↦ 0 | some i ↦ i ]

-- `sorted(response.data, key=...)`
abbrev pub earlier : {E : Type 0} → Item E → Item E → Bool
earlier a b = ltb (index_of a) (index_of b)

abbrev pub vectors_of : {E : Type 0} → Retried (List (Item E)) → Option (List E)
vectors_of (returned items) = some (map (λ item. item.embedding) (sort earlier items))
vectors_of (reraised e) = none
vectors_of exhausted = none

module _ (lower : Text → Text) (d : Delays) (random : ℕ → ℕ) where
  -- `complete`, by what the provider answers to the budget; `none` is an exception
  unfoldable pub complete :
      (provider : (max_tokens attempt : ℕ) → Attempt (Option Text))
      → (attempts max_tokens : ℕ) → Option Text
  unfolding with_rate_limit_retry
  complete provider attempts max_tokens =
      content_of
        (with_rate_limit_retry lower d random (provider (budget max_tokens)) attempts).result

  -- `stream`
  unfoldable pub stream :
      (provider : (max_tokens attempt : ℕ) → Attempt Chunks)
      → (attempts max_tokens : ℕ) → Completion
  unfolding with_rate_limit_retry iterated
  stream provider attempts max_tokens =
      iterated (with_rate_limit_retry lower d random (provider (budget max_tokens)) attempts).result

  -- `embed`; no call is made for an empty batch
  unfoldable pub embed :
      {E : Type 0}
      → (provider : List Text → (attempt : ℕ) → Attempt (List (Item E))) → (attempts : ℕ)
      → (batch : List Text) → Option (List E)
  unfolding with_rate_limit_retry
  embed provider attempts [] = some []
  embed provider attempts (text ∷ texts) =
      vectors_of (with_rate_limit_retry lower d random (provider (text ∷ texts)) attempts).result
