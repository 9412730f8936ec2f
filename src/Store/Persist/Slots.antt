-- ===== src/Store/Persist/Slots.antt =====
-- A single-valued slot of an owner: how many live values it holds.
use conversational_memory_sy.Prelude.{
  ℕ, ◌≡◌, ◌≤◌, refl, ap, sym, subst, Bool, true, false, ◌&&◌, List, [], ◌∷◌, keep, count_if, length,
  Bool-cases, inl, inr, arith, ◌∙◌, Option, none, some, ◌==◌, ==→eq,
}
use conversational_memory_sy.Context.Text.{Text}
use conversational_memory_sy.Context.Tokens.{same_text}
use conversational_memory_sy.Store.{Row, Session, visible, update_where}
use conversational_memory_sy.Store.Updates.{count-update_where, count-append, own_row}
use conversational_memory_sy.Store.Memories.{
  Backend, Candidate, Tables, goes_stale, stale_row, mark_summary_stale, folded_into, is_superseded,
  superseded_row, retire_all, supersede_slot, new_row, insert_memory, fills, is_live,
}
use conversational_memory_sy.Store.Persist.{retire_slot}
use conversational_memory_sy.Store.Attributes.{is_single_valued}

same_text→≡ : (a b : Text) → same_text a b ≡ true → a ≡ b
same_text→≡ [] [] h = refl
same_text→≡ [] (b ∷ bs) h = ground (arith, h)
same_text→≡ (a ∷ as') [] h = ground (arith, h)
same_text→≡ (a ∷ as') (b ∷ bs) h = elim (Bool-cases (a == b)) [
  | inl same ↦ rw (==→eq a b same, same_text→≡ as' bs (ground (arith, h, same)))
  | inr other ↦ ground (arith, h, other)
]

fills-apart :
    (a b : Text) (o : Option Text) → same_text a b ≡ false → fills b o ≡ true → fills a o ≡ false
fills-apart a b none other h = refl
fills-apart a b (some c) other h = subst (λ t. same_text a t ≡ false) (same_text→≡ b c h) other

pub length-keep {ℓ} : {A : Type ℓ} (p : A → Bool) (xs : List A) → length (keep p xs) ≡ count_if p xs
length-keep p [] = refl
length-keep p (x ∷ xs) = elim (Bool-cases (p x)) [
  | inl hit ↦ ground (arith, hit, length-keep p xs)
  | inr miss ↦ ground (arith, miss, length-keep p xs)
]

module _ {W E : Type 0} (backend : Backend W E) (s : Session) (a : Text) where
  -- a live value of the slot that the session sees
  abbrev pub holds_slot : Row W E → Bool
  holds_slot r = visible s r && is_live backend s r && fills a r.attribute

  abbrev pub values : List (Row W E) → ℕ
  values = count_if holds_slot

  retire_all-values :
      (retired : List (Row W E)) (db : Tables W E)
      → values (retire_all backend s retired db).rows ≡ values db.rows
  unfolding mark_summary_stale
  retire_all-values [] db = refl
  retire_all-values (r ∷ retired) db =
      let summary = folded_into backend s r.id db.rows in
      retire_all-values retired _
      ∙ count-update_where holds_slot (goes_stale backend s summary) (stale_row backend s)
          (λ x h. refl) db.rows

  -- superseding another slot
  supersede-other :
      (b : Text) (id : ℕ) (r : Row W E)
      → same_text a b ≡ false
      → is_superseded backend s b id r ≡ true
      → holds_slot (superseded_row backend s id r) ≡ holds_slot r
  supersede-other b id r other h =
      let apart = fills-apart a b r.attribute other (ground (arith, h)) in ground (arith, apart)

  -- superseding this slot leaves the new value only
  supersede-same :
      (id : ℕ) (rows : List (Row W E))
      → values (update_where (is_superseded backend s a id) (superseded_row backend s id) rows)
        ≤ count_if (λ r. r.id == id) rows
  supersede-same id [] = omega arith
  supersede-same id (r ∷ rows) = elim (Bool-cases (is_superseded backend s a id r)) [
    | inl hit ↦ ground (arith, hit, supersede-same id rows)
    | inr miss ↦ ground (arith, miss, supersede-same id rows)
  ]

  module _ (limit : W) where
    others_fresh : (rows : List (Row W E)) → count_if (λ r. r.id == backend.new_id rows) rows ≡ 0
    others_fresh rows =
        sym (length-keep (λ r. r.id == backend.new_id rows) rows)
        ∙ ap length (backend.new_id-IsFresh rows)

    abbrev pub with_row : Candidate W E → Option Text → Tables W E → Tables W E
    with_row c attribute db = record {
      rows = insert_memory backend s (backend.new_id db.rows) c attribute db.rows;
      trail = db.trail;
    }

    -- a row that does not fill the slot
    insert-values :
        (c : Candidate W E) (attribute : Option Text) (db : Tables W E)
        → fills a attribute ≡ false
        → values (with_row c attribute db).rows ≡ values db.rows
    insert-values c attribute db other =
        count-append holds_slot db.rows
          (new_row backend s (backend.new_id db.rows) c attribute ∷ [])
        ∙ ground (arith, other)

    supersede-values :
        (id : ℕ) (db : Tables W E)
        → values (supersede_slot backend s a id db).0.rows ≤ count_if (λ r. r.id == id) db.rows
    unfolding supersede_slot
    supersede-values id db =
        let retired = keep (is_superseded backend s a id) db.rows in
        let kept = retire_all-values retired (record {
          rows = update_where (is_superseded backend s a id) (superseded_row backend s id) db.rows;
          trail = db.trail;
        }) in
        omega (arith, kept, supersede-same id db.rows)

    supersede_other-values :
        (b : Text) (id : ℕ) (db : Tables W E)
        → same_text a b ≡ false
        → values (supersede_slot backend s b id db).0.rows ≡ values db.rows
    unfolding supersede_slot
    supersede_other-values b id db other =
        retire_all-values (keep (is_superseded backend s b id) db.rows) (record {
          rows = update_where (is_superseded backend s b id) (superseded_row backend s id) db.rows;
          trail = db.trail;
        })
        ∙ count-update_where holds_slot (is_superseded backend s b id) (superseded_row backend s id)
            (λ r. supersede-other b id r other) db.rows

    one_new :
        (c : Candidate W E) (attribute : Option Text) (db : Tables W E)
        → count_if (λ r. r.id == backend.new_id db.rows) (with_row c attribute db).rows ≡ 1
    one_new c attribute db =
        count-append (λ r. r.id == backend.new_id db.rows) db.rows
          (new_row backend s (backend.new_id db.rows) c attribute ∷ [])
        ∙ ground (arith, others_fresh db.rows, own_row (backend.new_id db.rows))

    pub retire_slot-values :
        (c : Candidate W E) (attribute : Option Text) (db : Tables W E)
        → is_single_valued (some a) ≡ true
        → values db.rows ≤ 1
        → values
            (retire_slot backend s limit attribute
              (backend.new_id db.rows)
              (with_row c attribute db)).0.rows
          ≤ 1
    retire_slot-values c none db single h = omega (arith, insert-values c none db refl, h)
    retire_slot-values c (some b) db single h = elim (Bool-cases (same_text a b)) [
      | inl same ↦
          subst
            (λ t.
              values
                (retire_slot backend s limit (some t) (backend.new_id db.rows)
                  (with_row c (some t) db)).0.rows
              ≤ 1)
            (same_text→≡ a b same)
            (rw (single) (
              omega (
                arith,
                supersede-values (backend.new_id db.rows) (with_row c (some a) db),
                one_new c (some a) db,
              )))
      | inr other ↦ elim (Bool-cases (is_single_valued (some b))) [
        | inl replaces ↦ rw (replaces) (
            omega (
              arith,
              supersede_other-values b (backend.new_id db.rows) (with_row c (some b) db) other,
              insert-values c (some b) db other,
              h,
            ))
        | inr adds ↦ rw (adds) (omega (arith, insert-values c (some b) db other, h))
      ]
    ]
