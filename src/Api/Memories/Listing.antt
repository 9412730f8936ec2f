-- ===== src/Api/Memories/Listing.antt =====
-- api/memories.py: the pages of the curated list.
use native.Mathlib.Nat.{suc-mul}
use conversational_memory_sy.Prelude.{
  ℕ, zero, suc, ◌+◌, ◌*◌, ◌≤◌, ◌≡◌, sym, subst, append_assoc, append-nil, ap, ◌∙◌, List, [], ◌++◌,
  keep, take, drop, arith, drop-drop, drop_all, take-append-drop,
}
use conversational_memory_sy.Prelude.Perms.{Permᴰ, length-perm}
use conversational_memory_sy.Prelude.Sorting.{IsSorted, IsWeakOrder, sort-perm, sort-IsSorted}
use conversational_memory_sy.Store.{Row, Session}
use conversational_memory_sy.Api.Memories.{list_my_memories, listing, is_listed, newer}

offsets : (offset n limit : ℕ) → offset + suc n * limit ≡ offset + limit + n * limit
offsets offset n limit = omega (arith, suc-mul n limit)

-- the newest first, and at the same time the smaller id
module _ {W E : Type 0} where
  newer-IsWeakOrder : IsWeakOrder (newer {W = W} {E = E})
  newer-IsWeakOrder = record {
    asymm = λ a b h. ground (arith, h);
    ge_trans = λ a b c h k. ground (arith, h, k);
  }

  -- a client that asks for one page after the other
  abbrev pub pages : Session → (limit : ℕ) → (count offset : ℕ) → List (Row W E) → List (Row W E)
  pages s limit zero offset rows = []
  pages s limit (suc n) offset rows =
      (list_my_memories s limit offset rows).0 ++ pages s limit n (offset + limit) rows

  pages-listing :
      (s : Session) (limit count offset : ℕ) (rows : List (Row W E))
      → pages s limit count offset rows ++ drop (offset + count * limit) (listing s rows)
        ≡ drop offset (listing s rows)
  unfolding list_my_memories
  pages-listing s limit zero offset rows = ap (λ k. drop k (listing s rows)) (omega arith)
  pages-listing s limit (suc n) offset rows =
      let all = listing s rows in
      let rest = pages s limit n (offset + limit) rows in
      let here = take limit (drop offset all) in
      append_assoc here rest (drop (offset + suc n * limit) all)
      ∙ ap (λ k. here ++ (rest ++ drop k all)) (offsets offset n limit)
      ∙ ap (λ ys. here ++ ys)
          (pages-listing s limit n (offset + limit) rows ∙ sym (drop-drop offset limit all))
      ∙ take-append-drop limit (drop offset all)

  -- A client that asks for page after page of a table that does not change, as many as cover the
  -- total that the header gives, puts together a rearrangement of the live rows that the session
  -- sees, no row twice and none left out, sorted by time of creation, the newest first, then by
  -- id.
  pub pages_all :
      (s : Session) (limit count : ℕ) (rows : List (Row W E))
      → (list_my_memories s limit 0 rows).1 ≤ count * limit
      → IsSorted newer (pages s limit count 0 rows)
        × Permᴰ (pages s limit count 0 rows) (keep (is_listed s) rows)
  unfolding list_my_memories
  pages_all s limit count rows enough =
      let mine = keep (is_listed s) rows in
      let total = length-perm (sort-perm newer mine) in
      let end = drop_all (0 + count * limit) (listing s rows) (omega (arith, total, enough)) in
      let whole =
        sym (append-nil (pages s limit count 0 rows))
        ∙ ap (λ ys. pages s limit count 0 rows ++ ys) (sym end)
        ∙ pages-listing s limit count 0 rows in
      (
        subst (IsSorted newer) (sym whole) (sort-IsSorted newer newer-IsWeakOrder mine),
        subst (λ ys. Permᴰ ys mine) (sym whole) (sort-perm newer mine),
      )
