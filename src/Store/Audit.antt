-- ===== src/Store/Audit.antt =====
-- store/audit.py: the audit rows and the guard against writing one twice in a transaction. The
-- metadata is its `outcome`; ids and times of audit rows are left out.
pub mod Once
pub mod Reads
use conversational_memory_sy.Prelude.{
  ℕ, suc, ◌+◌, ◌≡◌, refl, Bool, true, false, not, ◌&&◌, ◌||◌, Option, none, some, List, [], ◌∷◌,
  ◌++◌, map, ◌==◌, if◌then◌else◌, length, arith, count_if, Bool-cases, inl, inr,
}

-- `ACTIONS`
pub data Action : Type 0 where
  write read delete update export : Action

abbrev pub same_action : Action → Action → Bool
same_action write write = true
same_action read read = true
same_action delete delete = true
same_action update update = true
same_action export export = true
same_action _ _ = false

pub data Outcome : Type 0 where
  insert reinforce superseded stale soft_deleted edited surfaced consolidated freed : Outcome

-- A row of `audit_log`.
pub record AuditRow : Type 0 where
  pub subject_id : ℕ
  pub actor_id : ℕ
  pub memory_id : Option ℕ
  pub action : Action
  pub outcome : Outcome

abbrev pub same_id : Option ℕ → Option ℕ → Bool
same_id none none = true
same_id (some a) (some b) = a == b
same_id _ _ = false

-- The trail, and the keys seen in the running transaction; `none` if its id could not be read.
pub record Trail : Type 0 where
  pub rows : List AuditRow
  pub seen : Option (List (Action × Option ℕ))

unfoldable pub has_key : Action → Option ℕ → List (Action × Option ℕ) → Bool
has_key action memory [] = false
has_key action memory ((a, m) ∷ keys) =
    (same_action a action && same_id m memory) || has_key action memory keys

abbrev pub repeated : Action → Option ℕ → Option (List (Action × Option ℕ)) → Bool
repeated action memory none = false
repeated action memory (some keys) = has_key action memory keys

abbrev pub noted :
    Action → Option ℕ → Option (List (Action × Option ℕ)) → Option (List (Action × Option ℕ))
noted action memory none = none
noted action memory (some keys) = some ((action, memory) ∷ keys)

-- `write_audit`; the flag says whether a row was written
unfoldable pub write_audit : Trail → AuditRow → (allow_repeat : Bool) → Trail × Bool
unfolding has_key
write_audit trail row allow_repeat =
    if repeated row.action row.memory_id trail.seen && not allow_repeat then (trail, false) else (
      record { rows = trail.rows ++ row ∷ []; seen = noted row.action row.memory_id trail.seen },
      true,
    )

-- `write_audit_many`, for one action
unfoldable pub write_audit_many : Trail → (ℕ → AuditRow) → List ℕ → Trail × List ℕ
unfolding write_audit
write_audit_many trail entry [] = (trail, [])
write_audit_many trail entry (m ∷ ms) =
    let (trail', written) = write_audit trail (entry m) false in
    let (final, ids) = write_audit_many trail' entry ms in (final, if written then m ∷ ids else ids)

-- The key of an audit row, and how many rows of a trail have it.
abbrev pub rows_of : Action → Option ℕ → List AuditRow → ℕ
rows_of action memory =
    count_if (λ row. same_action row.action action && same_id row.memory_id memory)
