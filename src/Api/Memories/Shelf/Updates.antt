-- ===== src/Api/Memories/Shelf/Updates.antt =====
-- api/memories.py: the checks and the UPDATEs, read on the shelf.
use conversational_memory_sy.Prelude.{
  ℕ, ◌≡◌, refl, ap, sym, ◌∙◌, true, false, ◌&&◌, Option, none, some, List, [], ◌∷◌, ◌==◌, keep,
  arith, Bool-cases, inl, inr, ==→eq,
}
use conversational_memory_sy.Context.Text.{Text}
use conversational_memory_sy.Store.{Row, Session, is_null, visible, update_where}
use conversational_memory_sy.Store.Memories.{Tables}
use conversational_memory_sy.Store.Invalidate.{
  invalidate_summaries_for, goes_stale_any, folded_into_any, stale_any_row,
}
use conversational_memory_sy.Api.Memories.{
  not_found, Checked, owned, denied, find_row, check_row, ensure_owned, is_target, is_any,
}
use conversational_memory_sy.Api.Memories.Shelf.{
  same_session, put, live_content, shelf, Keeps, shelf-same, shelf-target, shelf-others,
}

same_session-eq : (s s' : Session) → same_session s s' ≡ true → s' ≡ s
same_session-eq s s' h =
    let subjects = ==→eq s.subject_id s'.subject_id (ground (arith, h)) in
    let actors = ==→eq s.actor_id s'.actor_id (ground (arith, h)) in
    sym (λ i. record { subject_id = subjects i; actor_id = actors i })

module _ {W E : Type 0} where
  -- what the session finds, it sees
  find_row-by :
      (P : Option (Row W E) → Type 0) (s : Session) (id : ℕ)
      → P none
      → ((r : Row W E) → (r.subject_id == s.subject_id) ≡ true → P (some r))
      → (rows : List (Row W E)) → P (find_row (visible s) id rows)
  find_row-by P s id absent present [] = absent
  find_row-by P s id absent present (r ∷ rows) = elim (Bool-cases (visible s r && r.id == id)) [
    | inl here ↦ rw (here) (present r (ground (arith, here)))
    | inr apart ↦ rw (apart) (find_row-by P s id absent present rows)
  ]

  -- the ownership check passes exactly the memories on the shelf
  pub ensure_owned-by :
      (P : Checked (Row W E) → Option Text → Type 0) (s : Session) (id : ℕ) (rows : List (Row W E))
      → P (denied not_found) none
      → ((r : Row W E) → P (owned r) (some r.content))
      → P (ensure_owned (visible s) id s.subject_id rows) (shelf rows s id)
  unfolding ensure_owned shelf
  ensure_owned-by P s id rows refused passed =
      find_row-by (λ found. P (check_row s.subject_id found) (live_content found)) s id refused
        (λ r own. elim (Bool-cases (is_null r.deleted_at)) [
          | inl live ↦ rw (own, live) (passed r)
          | inr dead ↦ rw (own, dead) refused
        ])
        rows

  -- a memory on the shelf is a target
  pub target-shelf :
      (s : Session) (id : ℕ) (rows : List (Row W E))
      → is_null (shelf rows s id) ≡ false
      → is_any (keep (is_target s id) rows) ≡ true
  unfolding shelf
  target-shelf s id [] h = sym h
  target-shelf s id (r ∷ rows) h = elim (Bool-cases (is_target s id r)) [
    | inl hit ↦ ground (arith, hit)
    | inr miss ↦ elim (Bool-cases (visible s r && r.id == id)) [
      | inl here ↦
          let dead : is_null r.deleted_at ≡ false = ground (arith, miss, here) in
          ground (arith, here, dead, h)
      | inr apart ↦ ground (arith, miss, target-shelf s id rows (ground (arith, apart, h)))
    ]
  ]

  pub shelf-put :
      (s : Session) (id : ℕ) (change : Row W E → Row W E) (value : Option Text)
      → Keeps change
      → ((r : Row W E) → is_target s id r ≡ true → live_content (some (change r)) ≡ value)
      → (rows : List (Row W E)) → is_null (shelf rows s id) ≡ false
      → shelf (update_where (is_target s id) change rows) ≡ put s id value (shelf rows)
  shelf-put s id change value keeps gives rows found = λ i. λ s' j. pointwise s' j i
    where
      pointwise :
          (s' : Session) (j : ℕ)
          → shelf (update_where (is_target s id) change rows) s' j
            ≡ put s id value (shelf rows) s' j
      pointwise s' j = elim (Bool-cases (same_session s s' && id == j)) [
        | inr other ↦ rw (other) (shelf-others s id change keeps rows s' j other)
        | inl same ↦
            let session = same_session-eq s s' (ground (arith, same)) in
            let number = sym (==→eq id j (ground (arith, same))) in
            let there : is_null (shelf rows s' j) ≡ false =
              ap (λ x. is_null (shelf rows x j)) session
              ∙ ap (λ n. is_null (shelf rows s n)) number
              ∙ found in
            rw (same) (shelf-target s id change value keeps gives rows s' j same ∙ rw (there) refl)
      ]

  pub shelf-invalidate :
      (now : ℕ) (s : Session) (source : ℕ) (db : Tables W E)
      → shelf (invalidate_summaries_for now s source db).rows ≡ shelf db.rows
  unfolding invalidate_summaries_for
  shelf-invalidate now s source db = λ i. λ s' j.
      shelf-same (goes_stale_any s (folded_into_any s source db.rows)) (stale_any_row now)
        (λ r s'' k. refl) (λ r. refl) db.rows s' j i
