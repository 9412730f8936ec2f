-- ===== src/Store.antt =====
-- store/: the `memories` table and the audit trail. A table is the list of its rows, an UPDATE maps
-- over it, an INSERT appends; ids are uuids as numbers, drawn from a supply of fresh ones. The row
-- level security of store/migrations/0004_rls.sql is `visible`.
pub mod Examples
pub mod Attributes
pub mod Updates
pub mod Audit
pub mod Memories
pub mod Invalidate
pub mod Migrate
pub mod Persist
use conversational_memory_sy.Prelude.{
  ℕ, suc, ◌+◌, ◌≡◌, Bool, true, false, not, ◌&&◌, ◌||◌, Option, none, some, List, [], ◌∷◌, ◌++◌,
  map, ◌==◌, if◌then◌else◌, keep,
}
use conversational_memory_sy.Context.Text.{Text}

-- `source`: the two values that the code tests for, or any other text or NULL
pub data Origin : Type 0 where
  assistant_note reflection : Origin
  stated : Option Text → Origin

-- A row of `memories`; `W` are floats, `E` embeddings.
pub record Row (W E : Type 0) : Type 0 where
  pub id : ℕ
  pub subject_id : ℕ
  pub actor_id : ℕ
  pub content : Text
  pub embedding : Option E
  pub source : Origin
  pub importance : Option W
  pub confidence : Option W
  pub attribute : Option Text
  pub weight : W
  pub reinforcement_count : ℕ
  pub created_at : ℕ
  pub updated_at : ℕ
  pub last_accessed_at : ℕ
  pub deleted_at : Option ℕ
  pub superseded_at : Option ℕ
  pub superseded_by : Option ℕ
  pub stale_at : Option ℕ
  pub consolidated_at : Option ℕ
  pub consolidated_into : Option ℕ
  pub archived_at : Option ℕ
  pub decay_run_id : Option ℕ

-- The identity that `store.db.session` sets, and the policies on `memories` compare.
pub record Session : Type 0 where
  pub subject_id : ℕ
  pub actor_id : ℕ

abbrev pub is_null {ℓ} : {A : Type ℓ} → Option A → Bool
is_null none = true
is_null (some _) = false

module _ {W E : Type 0} where
  -- memories_select_own, memories_update_own
  abbrev pub visible : Session → Row W E → Bool
  visible s r = r.subject_id == s.subject_id && r.actor_id == s.actor_id

  -- UPDATE ... WHERE
  abbrev pub update_where : (Row W E → Bool) → (Row W E → Row W E) → List (Row W E) → List (Row W E)
  update_where test change [] = []
  update_where test change (r ∷ rows) =
      (if test r then change r else r) ∷ update_where test change rows
