-- ===== src/Retrieve.antt =====
-- retrieve/types.py, and the modules of the read path below it.
pub mod Examples
pub mod Guarded
pub mod Features
pub mod Ranking
pub mod Hybrid
use conversational_memory_sy.Prelude.{ℕ, Bool, true, false, not, List, [], ◌∷◌, map}

-- `Path`
pub data Source : Type 0 where
  semantic keyword : Source

abbrev pub same_source : Source → Source → Bool
same_source semantic semantic = true
same_source keyword keyword = true
same_source _ _ = false

-- `HybridResult` over the candidates' type: `degraded` and `path_counts` are dicts, in the order
-- of insertion; the elapsed time is left out.
pub record HybridResult (C R : Type 0) : Type 0 where
  pub candidates : List C
  pub degraded : List (Source × R)
  pub path_counts : List (Source × ℕ)
