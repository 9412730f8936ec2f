-- ===== src/Store/Audit/Once.antt =====
-- store/audit.py: what the guard of `write_audit` lets in when a transaction audits many memories.
use conversational_memory_sy.Prelude.{
  ℕ, ◌+◌, ◌≡◌, refl, ap, sym, subst, ◌∙◌, Bool, true, false, ◌&&◌, ◌||◌, Option, some, List, [],
  ◌∷◌, ◌++◌, ◌==◌, if◌then◌else◌, arith, Bool-cases, inl, inr, ==→eq,
}
use conversational_memory_sy.Store.Updates.{count-append}
use conversational_memory_sy.Store.Audit.{
  Action, write, read, delete, update, export, same_action, same_id, AuditRow, has_key, write_audit,
  write_audit_many, rows_of,
}

same_action_refl : (a : Action) → same_action a a ≡ true
same_action_refl write = refl
same_action_refl read = refl
same_action_refl delete = refl
same_action_refl update = refl
same_action_refl export = refl

abbrev pub among : ℕ → List ℕ → Bool
among m [] = false
among m (x ∷ xs) = x == m || among m xs

module _ (entry : ℕ → AuditRow) (a : Action) (entry-action : (m : ℕ) → (entry m).action ≡ a)
    (entry-memory : (m : ℕ) → (entry m).memory_id ≡ some m) where
  -- the rows that the guard still lets in for a memory
  abbrev owed : ℕ → List ℕ → List (Action × Option ℕ) → ℕ
  owed m ms keys = if has_key a (some m) keys then 0 else (if among m ms then 1 else 0)

  rows_of-entry :
      (m x : ℕ) (rows : List AuditRow)
      → rows_of a (some m) (rows ++ entry x ∷ [])
        ≡ rows_of a (some m) rows + (if x == m then 1 else 0)
  rows_of-entry m x rows =
      count-append (λ r. same_action r.action a && same_id r.memory_id (some m)) rows (entry x ∷ [])
      ∙ rw (entry-action x, entry-memory x) (ground (arith, same_action_refl a))

  write-known :
      (x : ℕ) (rows : List AuditRow) (keys : List (Action × Option ℕ))
      → has_key a (some x) keys ≡ true
      → (write_audit (record { rows = rows; seen = some keys }) (entry x) false).0
        ≡ record { rows = rows; seen = some keys }
  unfolding write_audit
  write-known x rows keys known = rw (entry-action x, entry-memory x, known)

  write-new :
      (x : ℕ) (rows : List AuditRow) (keys : List (Action × Option ℕ))
      → has_key a (some x) keys ≡ false
      → (write_audit (record { rows = rows; seen = some keys }) (entry x) false).0
        ≡ record { rows = rows ++ entry x ∷ []; seen = some ((a, some x) ∷ keys) }
  unfolding write_audit
  write-new x rows keys new = rw (entry-action x, entry-memory x, new)

  owed-known :
      (m x : ℕ) (xs : List ℕ) (keys : List (Action × Option ℕ))
      → has_key a (some x) keys ≡ true
      → owed m xs keys ≡ owed m (x ∷ xs) keys
  owed-known m x xs keys known = elim (Bool-cases (x == m)) [
    | inl same ↦
        let seen = subst (λ n. has_key a (some n) keys ≡ true) (==→eq x m same) known in rw (seen)
    | inr other ↦ rw (other)
  ]

  owed-new :
      (m x : ℕ) (xs : List ℕ) (keys : List (Action × Option ℕ))
      → has_key a (some x) keys ≡ false
      → (if x == m then 1 else 0) + owed m xs ((a, some x) ∷ keys) ≡ owed m (x ∷ xs) keys
  unfolding has_key
  owed-new m x xs keys new = elim (Bool-cases (x == m)) [
    | inl same ↦
        let fresh = subst (λ n. has_key a (some n) keys ≡ false) (==→eq x m same) new in
        ground (arith, same, fresh, same_action_refl a)
    | inr other ↦ ground (arith, other, same_action_refl a)
  ]

  -- In a transaction whose id can be read, auditing memories without `allow_repeat` adds exactly
  -- one row for a memory that is among them and has none yet, and none for any other, whatever
  -- repetitions the list has.
  pub audited_once :
      (m : ℕ) (ms : List ℕ) (rows : List AuditRow) (keys : List (Action × Option ℕ))
      → rows_of a
          (some m)
          (write_audit_many (record { rows = rows; seen = some keys }) entry ms).0.rows
        ≡ rows_of a (some m) rows + owed m ms keys
  unfolding write_audit_many has_key
  audited_once m [] rows keys = ground arith
  audited_once m (x ∷ xs) rows keys = elim (Bool-cases (has_key a (some x) keys)) [
    | inl known ↦
        subst
          (λ t.
            rows_of a (some m) (write_audit_many t entry xs).0.rows
            ≡ rows_of a (some m) rows + owed m (x ∷ xs) keys)
          (sym (write-known x rows keys known))
          (audited_once m xs rows keys
            ∙ ap (λ n. rows_of a (some m) rows + n) (owed-known m x xs keys known))
    | inr new ↦
        subst
          (λ t.
            rows_of a (some m) (write_audit_many t entry xs).0.rows
            ≡ rows_of a (some m) rows + owed m (x ∷ xs) keys)
          (sym (write-new x rows keys new))
          (audited_once m xs (rows ++ entry x ∷ []) ((a, some x) ∷ keys)
            ∙ omega (arith, rows_of-entry m x rows, owed-new m x xs keys new))
  ]
