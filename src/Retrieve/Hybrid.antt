-- ===== src/Retrieve/Hybrid.antt =====
-- retrieve/hybrid.py: both paths, their normalised scores and the merge by memory id. Floats are a
-- parameter, the paths are what awaiting them comes to; the clock and the log lines are left out.
pub mod Ids
pub mod Degraded
mod Examples
use conversational_memory_sy.Prelude.{
  ℕ, ◌+◌, ◌≡◌, Bool, true, false, not, ◌&&◌, ◌||◌, Option, none, some, List, [], ◌∷◌, ◌++◌, map,
  max, ltb, ◌==◌, if◌then◌else◌, length,
}
use conversational_memory_sy.Prelude.ByScore.{by_score}
use conversational_memory_sy.Prelude.Scores.{Scores}
use conversational_memory_sy.Prelude.Sorting.{sort}
use conversational_memory_sy.Context.Text.{Text, is_space}
use conversational_memory_sy.Retrieve.{Source, semantic, keyword, same_source, HybridResult}
use conversational_memory_sy.Retrieve.Features.{Floats, min_of, max_of}

-- `RetrievalCandidate`: `path_scores` is a dict in the order of insertion, `raw` is the raw score
-- that its path gave it, `metadata` is a dict whose update is a parameter.
pub record RetrievalCandidate (W M : Type 0) : Type 0 where
  pub memory_id : ℕ
  pub content : Text
  pub score : W
  pub path : Source
  pub paths : List Source
  pub path_scores : List (Source × W)
  pub raw_path_scores : List (Source × W)
  pub metadata : M

-- What awaiting a path under its timeout comes to.
pub data Attempt (C : Type 0) : Type 0 where
  returned : List C → Attempt C
  timed_out raised : Attempt C

-- The entry of `degraded`, without its text.
pub data Failure : Type 0 where
  timeout error : Failure

abbrev pub has_path : Source → List Source → Bool
has_path p [] = false
has_path p (q ∷ paths) = same_source p q || has_path p paths

-- `existing.paths |= candidate.paths`
abbrev pub add_paths : List Source → List Source → List Source
add_paths paths [] = paths
add_paths paths (p ∷ others) =
    add_paths (if has_path p paths then paths else paths ++ p ∷ []) others

module _ {V : Type 0} where
  -- `d.get(key)`
  abbrev pub value_at : Source → List (Source × V) → Option V
  value_at p [] = none
  value_at p ((q, v) ∷ rest) =
      let later = value_at p rest in if same_source p q then some v else later

  -- `d[key] = v`
  abbrev pub store_at : Source → V → List (Source × V) → List (Source × V)
  store_at p v [] = (p, v) ∷ []
  store_at p v ((q, w) ∷ rest) =
      let later = store_at p v rest in if same_source p q then (q, v) ∷ rest else (q, w) ∷ later

  -- `d.update(other)`
  abbrev pub update_with : List (Source × V) → List (Source × V) → List (Source × V)
  update_with d [] = d
  update_with d ((p, v) ∷ other) = update_with (store_at p v d) other

  abbrev pub value_or : V → Option V → V
  value_or default none = default
  value_or default (some v) = v

-- `text.strip()` is empty
abbrev pub is_blank : Text → Bool
is_blank [] = true
is_blank (c ∷ cs) = is_space c && is_blank cs

module _ {C : Type 0} where
  -- `_run_path`: the candidates, and the entry for `degraded`
  abbrev pub run_path : Source → Attempt C → List C × List (Source × Failure)
  run_path p (returned candidates) = (candidates, [])
  run_path p timed_out = ([], (p, timeout) ∷ [])
  run_path p raised = ([], (p, error) ∷ [])

  -- `1 if cands`, of `contributing`
  abbrev pub contributes : List C → ℕ
  contributes [] = 0
  contributes (_ ∷ _) = 1

module _ {W M : Type 0} (floats : Floats W) (ts_rank_reference : W)
    (merge_metadata : M → M → M) where
  open floats use {zero_, one_, lt, add, div}

  -- the body of the loop of `_normalize` on a raw score
  unfoldable pub normalized : Source → W → W
  normalized semantic raw = max_of floats zero_ (min_of floats one_ raw)
  normalized keyword raw = if lt zero_ raw then div raw (add raw ts_rank_reference) else zero_

  -- the body of the loop of `_normalize`; each path sets the raw score of its candidates
  abbrev pub normalize_one : Source → RetrievalCandidate W M → RetrievalCandidate W M
  normalize_one p c =
      let value = normalized p (value_or zero_ (value_at p c.raw_path_scores)) in
      record c { path_scores = store_at p value c.path_scores; score = value }

  abbrev pub normalize : Source → List (RetrievalCandidate W M) → List (RetrievalCandidate W M)
  normalize p = map (normalize_one p)

  -- what the second path adds to a candidate of the same id
  abbrev pub absorb : RetrievalCandidate W M → RetrievalCandidate W M → RetrievalCandidate W M
  absorb existing c = record existing {
    paths = add_paths existing.paths c.paths;
    path_scores = update_with existing.path_scores c.path_scores;
    raw_path_scores = update_with existing.raw_path_scores c.raw_path_scores;
    metadata = merge_metadata existing.metadata c.metadata;
  }

  -- the dict `merged`, in the order of insertion
  unfoldable pub merge_one :
      List (RetrievalCandidate W M) → RetrievalCandidate W M → List (RetrievalCandidate W M)
  merge_one [] c = c ∷ []
  merge_one (existing ∷ merged) c =
      let rest = merge_one merged c in
      if existing.memory_id == c.memory_id then absorb existing c ∷ merged else existing ∷ rest

  unfoldable pub merge_all :
      List (RetrievalCandidate W M) → List (RetrievalCandidate W M) → List (RetrievalCandidate W M)
  unfolding merge_one
  merge_all merged [] = merged
  merge_all merged (c ∷ candidates) = merge_all (merge_one merged c) candidates

  -- `max(path_scores, key=path_scores.get)`: the first of the greatest
  abbrev pub strongest : Source → W → List (Source × W) → Source
  strongest p best [] = p
  strongest p best ((q, v) ∷ rest) =
      strongest (if lt best v then q else p) (if lt best v then v else best) rest

  abbrev pub strongest_path : Source → List (Source × W) → Source
  strongest_path p [] = p
  strongest_path p ((q, v) ∷ rest) = strongest q v rest

  module _ {K : Type 0} (scores : Scores K) (as_key : W → K) (of_int : ℕ → W) where
    -- the loop that sets the merged score and the path
    abbrev pub scored : ℕ → RetrievalCandidate W M → RetrievalCandidate W M
    scored divisor c =
        let total =
          add (add zero_ (value_or zero_ (value_at semantic c.path_scores)))
            (value_or zero_ (value_at keyword c.path_scores)) in
        record c { score = div total (of_int divisor); path = strongest_path c.path c.path_scores }

    -- the order of `sorted`: by `(-score, memory_id)`; the scores as floats that are no NaN
    unfoldable pub before : RetrievalCandidate W M → RetrievalCandidate W M → Bool
    before = by_score scores (λ c. as_key c.score) (λ c. c.memory_id)

    -- `_merge`
    unfoldable pub merge :
        List (RetrievalCandidate W M)
        → List (RetrievalCandidate W M)
        → List (RetrievalCandidate W M)
    unfolding merge_all before
    merge semantic_cands keyword_cands =
        let divisor = max 1 (contributes semantic_cands + contributes keyword_cands) in
        sort before (map (scored divisor) (merge_all (merge_all [] semantic_cands) keyword_cands))

    abbrev pub counts : ℕ → ℕ → List (Source × ℕ)
    counts s k = (semantic, s) ∷ (keyword, k) ∷ []

    -- `hybrid_search`
    unfoldable pub hybrid_search :
        Text
        → (semantic_path keyword_path : Attempt (RetrievalCandidate W M))
        → HybridResult (RetrievalCandidate W M) Failure
    unfolding merge normalized
    hybrid_search text semantic_path keyword_path =
        let (s, s_degraded) = run_path semantic semantic_path in
        let (k, k_degraded) = run_path keyword keyword_path in
        if is_blank text
        then record { candidates = []; degraded = []; path_counts = counts 0 0 }
        else record {
          candidates = merge (normalize semantic s) (normalize keyword k);
          degraded = s_degraded ++ k_degraded;
          path_counts = counts (length s) (length k);
        }
