-- ===== src/Store/Audit/Reads.antt =====
-- store/audit.py: `record_read_audit`, which logs the memories that reached a prompt in a
-- transaction of its own, and `count_actions`. Ids are uuids, so none is empty.
use conversational_memory_sy.Prelude.{
  ℕ, ◌+◌, ◌≡◌, refl, sym, ap, ◌∙◌, Bool, true, false, ◌&&◌, Option, none, some, List, [], ◌∷◌, ◌++◌,
  append_assoc, append-nil, ◌==◌, if◌then◌else◌, length, arith, count_if, All, Bool-cases, inl, inr,
  length-append,
}
use conversational_memory_sy.Store.{Session}
use conversational_memory_sy.Store.Audit.{
  Action, read, Outcome, AuditRow, Trail, same_action, has_key, repeated, write_audit,
  write_audit_many, rows_of,
}
use conversational_memory_sy.Store.Audit.Once.{among, audited_once}

-- What becomes of the transaction: it commits, with its id known to the guard or not, or it fails
-- somewhere and is rolled back.
pub data Transaction : Type 0 where
  committed : (identified : Bool) → Transaction
  failed : Transaction

abbrev pub read_row : Session → ℕ → AuditRow
read_row s m = record {
  subject_id = s.subject_id;
  actor_id = s.actor_id;
  memory_id = some m;
  action = read;
  outcome = Outcome.surfaced;
}

-- the guard of a transaction that has just begun
abbrev pub begun : Bool → List AuditRow → Trail
begun identified rows = record { rows = rows; seen = if identified then some [] else none }

-- `record_read_audit`, with the number that it returns
unfoldable pub record_read_audit :
    Session → List ℕ → Transaction → List AuditRow → List AuditRow × ℕ
unfolding write_audit_many
record_read_audit s [] transaction rows = (rows, 0)
record_read_audit s (m ∷ ms) failed rows = (rows, 0)
record_read_audit s (m ∷ ms) (committed identified) rows =
    let (trail, written) = write_audit_many (begun identified rows) (read_row s) (m ∷ ms) in
    (trail.rows, length written)

-- `count_actions`; an action without rows has no entry
abbrev entry_of : ℕ → Option ℕ
entry_of n = if n == 0 then none else some n

unfoldable pub count_actions : List AuditRow → (subject : ℕ) → Action → Option ℕ
count_actions rows subject action =
    entry_of (count_if (λ r. r.subject_id == subject && same_action r.action action) rows)

-- What a transaction may have added: the rows that are due to the memories of the identity.
abbrev pub IsReadOf : Session → AuditRow → Type 0
IsReadOf s r = (m : ℕ) × (r ≡ read_row s m)

abbrev pub Appends : Session → List AuditRow → List AuditRow → ℕ → Type 0
Appends s rows final n =
    (added : List AuditRow) × (final ≡ rows ++ added) × (length added ≡ n) × All (IsReadOf s) added

module _ (s : Session) where
  write_audit-one :
      (trail : Trail) (m : ℕ)
      → Appends s trail.rows
          (write_audit trail (read_row s m) false).0.rows
          (if (write_audit trail (read_row s m) false).1 then 1 else 0)
  unfolding write_audit
  write_audit-one trail m = elim (Bool-cases (repeated read (some m) trail.seen)) [
    | inl known ↦ rw (known) ([], sym (append-nil trail.rows), refl, tt)
    | inr new ↦ rw (new) (read_row s m ∷ [], refl, refl, ((m, refl), tt))
  ]

  All-append :
      (xs ys : List AuditRow)
      → All (IsReadOf s) xs
      → All (IsReadOf s) ys
      → All (IsReadOf s) (xs ++ ys)
  All-append [] ys h k = k
  All-append (x ∷ xs) ys (h, hs) k = (h, All-append xs ys hs k)

  Appends-trans :
      (rows middle final : List AuditRow) (m n : ℕ)
      → Appends s rows middle m
      → Appends s middle final n
      → Appends s rows final (m + n)
  Appends-trans rows middle final m n (xs, e, k, h) (ys, f, l, g) = (
    xs ++ ys,
    f ∙ (ap (λ t. t ++ ys) e ∙ append_assoc rows xs ys),
    omega (arith, length-append xs ys, k, l),
    All-append xs ys h g,
  )

  length-written :
      (b : Bool) (m : ℕ) (ids : List ℕ)
      → length (if b then m ∷ ids else ids) ≡ (if b then 1 else 0) + length ids
  length-written true m ids = omega arith
  length-written false m ids = omega arith

  write_audit_many-Appends :
      (trail : Trail) (ms : List ℕ)
      → Appends s trail.rows
          (write_audit_many trail (read_row s) ms).0.rows
          (length (write_audit_many trail (read_row s) ms).1)
  unfolding write_audit_many
  write_audit_many-Appends trail [] = ([], sym (append-nil trail.rows), refl, tt)
  write_audit_many-Appends trail (m ∷ ms) =
      let (trail', written) = write_audit trail (read_row s m) false in
      let (final, ids) = write_audit_many trail' (read_row s) ms in
      rw (length-written written m ids) (
        Appends-trans trail.rows trail'.rows final.rows (if written then 1 else 0) (length ids)
          (write_audit-one trail m) (write_audit_many-Appends trail' ms))

  -- Logging the memories of a prompt, whatever becomes of the transaction, never takes a row of the
  -- trail away: it appends as many rows as it reports, each a `read` of a memory by the caller.
  pub record_read_audit-Appends :
      (ids : List ℕ) (transaction : Transaction) (rows : List AuditRow)
      → Appends s rows
          (record_read_audit s ids transaction rows).0
          (record_read_audit s ids transaction rows).1
  unfolding record_read_audit
  record_read_audit-Appends [] transaction rows = ([], sym (append-nil rows), refl, tt)
  record_read_audit-Appends (m ∷ ms) failed rows = ([], sym (append-nil rows), refl, tt)
  record_read_audit-Appends (m ∷ ms) (committed identified) rows =
      write_audit_many-Appends (begun identified rows) (m ∷ ms)

  -- If its transaction commits, with an id that can be read, every memory of the prompt has one more
  -- `read` row, however often it is listed, and no other memory has.
  pub reads_once :
      (m : ℕ) (ids : List ℕ) (rows : List AuditRow)
      → rows_of read (some m) (record_read_audit s ids (committed true) rows).0
        ≡ rows_of read (some m) rows + (if among m ids then 1 else 0)
  unfolding record_read_audit has_key
  reads_once m [] rows = ground arith
  reads_once m (x ∷ xs) rows =
      audited_once (read_row s) read (λ n. refl) (λ n. refl) m (x ∷ xs) rows []
