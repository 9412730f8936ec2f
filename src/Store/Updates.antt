-- ===== src/Store/Updates.antt =====
-- What an UPDATE of a table leaves alone.
use conversational_memory_sy.Prelude.{
  ℕ, ◌+◌, ◌≡◌, refl, Bool, true, false, List, [], ◌∷◌, ◌++◌, keep, count_if, Bool-cases, inl, inr,
  arith, ◌==◌, eq→==,
}
use conversational_memory_sy.Store.{Row, update_where, Session, visible}

module _ {ℓ} {A : Type ℓ} (p : A → Bool) where
  pub keep-append : (xs ys : List A) → keep p (xs ++ ys) ≡ keep p xs ++ keep p ys
  keep-append [] ys = refl
  keep-append (x ∷ xs) ys = elim (Bool-cases (p x)) [
    | inl taken ↦ ground (arith, taken, keep-append xs ys)
    | inr left ↦ ground (arith, left, keep-append xs ys)
  ]

  pub count-append : (xs ys : List A) → count_if p (xs ++ ys) ≡ count_if p xs + count_if p ys
  count-append [] ys = omega arith
  count-append (x ∷ xs) ys = ground (arith, count-append xs ys)

  -- a row that fails the test is not kept
  pub keep-drop : (xs : List A) (x : A) → p x ≡ false → keep p (xs ++ x ∷ []) ≡ keep p xs
  keep-drop [] x h = rw (h)
  keep-drop (y ∷ xs) x h = elim (Bool-cases (p y)) [
    | inl taken ↦ ground (arith, taken, keep-drop xs x h)
    | inr other ↦ ground (arith, other, keep-drop xs x h)
  ]

module _ {W E : Type 0} (p test : Row W E → Bool) (change : Row W E → Row W E) where
  pub keep-update_where :
      ((r : Row W E) → test r ≡ true → p r ≡ false)
      → ((r : Row W E) → p (change r) ≡ p r)
      → (rows : List (Row W E)) → keep p (update_where test change rows) ≡ keep p rows
  keep-update_where apart same [] = refl
  keep-update_where apart same (r ∷ rows) = elim (Bool-cases (test r)) [
    | inl hit ↦ ground (arith, hit, same r, apart r hit, keep-update_where apart same rows)
    | inr miss ↦ elim (Bool-cases (p r)) [
      | inl taken ↦ ground (arith, miss, taken, keep-update_where apart same rows)
      | inr left ↦ ground (arith, miss, left, keep-update_where apart same rows)
    ]
  ]

  pub count-update_where :
      ((r : Row W E) → test r ≡ true → p (change r) ≡ p r)
      → (rows : List (Row W E)) → count_if p (update_where test change rows) ≡ count_if p rows
  count-update_where same [] = refl
  count-update_where same (r ∷ rows) = elim (Bool-cases (test r)) [
    | inl hit ↦ ground (arith, hit, same r hit, count-update_where same rows)
    | inr miss ↦ ground (arith, miss, count-update_where same rows)
  ]

-- a session sees the rows it writes
pub own_row : (a : ℕ) → (a == a) ≡ true
own_row a = eq→== a a refl

pub visible_own :
    {W E : Type 0} (s : Session) (r : Row W E)
    → r.subject_id ≡ s.subject_id
    → r.actor_id ≡ s.actor_id
    → visible s r ≡ true
visible_own s r h k = ground (arith, h, k)
