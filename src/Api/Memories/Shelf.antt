-- ===== src/Api/Memories/Shelf.antt =====
-- api/memories.py against what its clients see: a shelf, on which each identity has its memories.
pub mod Updates
pub mod Refines
use conversational_memory_sy.Prelude.{
  ℕ, ◌≡◌, refl, ap, sym, ◌∙◌, Bool, true, false, ◌&&◌, Option, none, some, List, [], ◌∷◌, ◌==◌,
  if◌then◌else◌, arith, Bool-cases, inl, inr,
}
use conversational_memory_sy.Context.Text.{Text}
use conversational_memory_sy.Store.{Row, Session, is_null, visible, update_where}
use conversational_memory_sy.Store.Attributes.{strip}
use conversational_memory_sy.Api.Memories.{
  Answer, done, not_found, unprocessable, bad_gateway, crashed, Embedded, vector, no_vector,
  embed_raised, find_row, is_target,
}
use conversational_memory_sy.Api.Memories.Requests.{Request, to_delete, to_patch, Arrival}

-- the content of each live memory, by the identity that it belongs to and its id
abbrev pub Shelf : Type 0
Shelf = Session → ℕ → Option Text

abbrev pub same_session : Session → Session → Bool
same_session s s' = s.subject_id == s'.subject_id && s.actor_id == s'.actor_id

abbrev pub put : Session → ℕ → Option Text → Shelf → Shelf
put s id value shelf s' j = if same_session s s' && id == j then value else shelf s' j

-- What a request promises: an erased memory is gone, an edited one has the new text, nothing else moves.
abbrev pub promised_delete : Session → ℕ → Option Text → Shelf → Shelf × Answer
promised_delete s id none shelf = (shelf, not_found)
promised_delete s id (some _) shelf = (put s id none shelf, done)

abbrev pub promised_patch :
    {E : Type 0} → Session → ℕ → Text → Embedded E → Option Text → Shelf → Shelf × Answer
promised_patch s id [] embedded found shelf = (shelf, unprocessable)
promised_patch s id (c ∷ cs) embedded none shelf = (shelf, not_found)
promised_patch s id (c ∷ cs) (vector _) (some _) shelf = (put s id (some (c ∷ cs)) shelf, done)
promised_patch s id (c ∷ cs) no_vector (some _) shelf = (shelf, bad_gateway)
promised_patch s id (c ∷ cs) embed_raised (some _) shelf = (shelf, crashed)

unfoldable pub promised : {E : Type 0} → Session → ℕ → Request E → Shelf → Shelf × Answer
unfolding strip
promised s id to_delete shelf = promised_delete s id (shelf s id) shelf
promised s id (to_patch content embedded) shelf =
    promised_patch s id (strip content) embedded (shelf s id) shelf

unfoldable pub promised_all : {E : Type 0} → List (Arrival E) → Shelf → Shelf × List Answer
unfolding promised
promised_all [] shelf = (shelf, [])
promised_all (a ∷ arrivals) shelf =
    let (next, answer) = promised a.session a.id a.request shelf in
    let (final, answers) = promised_all arrivals next in (final, answer ∷ answers)

module _ {W E : Type 0} where
  abbrev pub live_content : Option (Row W E) → Option Text
  live_content none = none
  live_content (some r) = if is_null r.deleted_at then some r.content else none

  -- the shelf that a table is
  unfoldable pub shelf : List (Row W E) → Shelf
  shelf rows s j = live_content (find_row (visible s) j rows)

  -- a change that leaves a row where it is
  abbrev pub Keeps : (Row W E → Row W E) → Type 0
  Keeps change =
      (r : Row W E) (s : Session) (j : ℕ)
      → (visible s (change r) && (change r).id == j) ≡ (visible s r && r.id == j)

  -- an UPDATE that changes no text and erases nothing
  pub shelf-same :
      (test : Row W E → Bool) (change : Row W E → Row W E)
      → Keeps change
      → ((r : Row W E) → live_content (some (change r)) ≡ live_content (some r))
      → (rows : List (Row W E)) (s : Session) (j : ℕ)
      → shelf (update_where test change rows) s j ≡ shelf rows s j
  unfolding shelf
  shelf-same test change keeps same [] s j = refl
  shelf-same test change keeps same (r ∷ rows) s j =
      let rest = shelf-same test change keeps same rows s j in
      elim (Bool-cases (test r)) [
        | inr miss ↦ elim (Bool-cases (visible s r && r.id == j)) [
          | inl here ↦ rw (miss, here) refl
          | inr apart ↦ rw (miss, apart) rest
        ]
        | inl hit ↦ elim (Bool-cases (visible s r && r.id == j)) [
          | inl here ↦ rw (hit, keeps r s j, here) (same r)
          | inr apart ↦ rw (hit, keeps r s j, apart) rest
        ]
      ]

  -- an UPDATE of the target
  pub shelf-target :
      (s : Session) (id : ℕ) (change : Row W E → Row W E) (value : Option Text)
      → Keeps change
      → ((r : Row W E) → is_target s id r ≡ true → live_content (some (change r)) ≡ value)
      → (rows : List (Row W E)) (s' : Session) (j : ℕ) → (same_session s s' && id == j) ≡ true
      → shelf (update_where (is_target s id) change rows) s' j
        ≡ (if is_null (shelf rows s' j) then none else value)
  unfolding shelf
  shelf-target s id change value keeps gives [] s' j same = refl
  shelf-target s id change value keeps gives (r ∷ rows) s' j same =
      let rest = shelf-target s id change value keeps gives rows s' j same in
      elim (Bool-cases (visible s' r && r.id == j)) [
        | inr apart ↦ elim (Bool-cases (is_target s id r)) [
          | inl hit ↦ rw (hit, keeps r s' j, apart) rest
          | inr miss ↦ rw (miss, apart) rest
        ]
        | inl here ↦ elim (Bool-cases (is_null r.deleted_at)) [
          | inl live ↦
              let hit : is_target s id r ≡ true = ground (arith, same, here, live) in
              rw (hit, keeps r s' j, here, live) (gives r hit)
          | inr dead ↦
              let miss : is_target s id r ≡ false = ground (arith, dead) in
              rw (miss, here, dead) refl
        ]
      ]

  pub shelf-others :
      (s : Session) (id : ℕ) (change : Row W E → Row W E)
      → Keeps change
      → (rows : List (Row W E)) (s' : Session) (j : ℕ) → (same_session s s' && id == j) ≡ false
      → shelf (update_where (is_target s id) change rows) s' j ≡ shelf rows s' j
  unfolding shelf
  shelf-others s id change keeps [] s' j other = refl
  shelf-others s id change keeps (r ∷ rows) s' j other =
      let rest = shelf-others s id change keeps rows s' j other in
      elim (Bool-cases (visible s' r && r.id == j)) [
        | inl here ↦
            let miss : is_target s id r ≡ false = ground (arith, other, here) in
            rw (miss, here) refl
        | inr apart ↦ elim (Bool-cases (is_target s id r)) [
          | inl hit ↦ rw (hit, keeps r s' j, apart) rest
          | inr miss ↦ rw (miss, apart) rest
        ]
      ]
