-- ===== src/Prelude/Sorting.antt =====
-- Python's `sorted`: stable insertion into a sorted list, for a strict weak order `before`.
use conversational_memory_sy.Prelude.Tests.{if◌then◌else◌, Bool-cases}
use conversational_memory_sy.Prelude.Lists.{All, take, drop}
use conversational_memory_sy.Prelude.Perms.{Permᴰ, perm_refl, perm_sym, perm-All, All-map}
use Prim.Native.Nat.{ℕ, zero, suc}
use mathlib.Core.Path.{◌≡◌, refl, subst, ◌∙◌}
use mathlib.Core.Logic.{◌⊎◌, inl, inr}
use mathlib.Core.Bool.{Bool, true, false}
use mathlib.Core.List.{List, [], ◌∷◌}
use native.Mathlib.Omega.{arith}

All-drop : {A : Type 0} (P : A → Type 0) (k : ℕ) (xs : List A) → All P xs → All P (drop k xs)
All-drop P zero xs h = h
All-drop P (suc k) [] h = tt
All-drop P (suc k) (x ∷ xs) (h, hs) = All-drop P k xs hs

module _ {A : Type 0} (before : A → A → Bool) where
  pub insert : A → List A → List A
  insert x [] = x ∷ []
  insert x (y ∷ ys) = if before y x then y ∷ insert x ys else x ∷ y ∷ ys

  unfoldable pub sort : List A → List A
  unfolding insert
  sort [] = []
  sort (x ∷ xs) = insert x (sort xs)

  -- no later element comes before an earlier one
  abbrev pub IsSorted : List A → Type 0
  IsSorted [] = Unit
  IsSorted (x ∷ xs) = All (λ y. before y x ≡ false) xs × IsSorted xs

  insert-perm : (x : A) (ys : List A) → Permᴰ (insert x ys) (x ∷ ys)
  unfolding insert
  insert-perm x [] = perm_refl (x ∷ [])
  insert-perm x (y ∷ ys) = elim (Bool-cases (before y x)) [
    | inl less ↦ rw less (Permᴰ.trans (Permᴰ.cons refl (insert-perm x ys)) (Permᴰ.swap refl refl))
    | inr more ↦ rw more (perm_refl (x ∷ y ∷ ys))
  ]

  pub sort-perm : (xs : List A) → Permᴰ (sort xs) xs
  unfolding sort
  sort-perm [] = Permᴰ.nil
  sort-perm (x ∷ xs) = Permᴰ.trans (insert-perm x (sort xs)) (Permᴰ.cons refl (sort-perm xs))

  -- the law of a strict weak order
  pub record IsWeakOrder : Type 0 where
    pub asymm : (a b : A) → before a b ≡ true → before b a ≡ false
    pub ge_trans : (a b c : A) → before a b ≡ false → before b c ≡ false → before a c ≡ false

  -- which of two comes first is decided
  abbrev pub Differ : A → A → Type 0
  Differ a b = (before a b ≡ true) ⊎ (before b a ≡ true)

  module _ (order : IsWeakOrder) where
    insert-IsSorted : (x : A) (ys : List A) → IsSorted ys → IsSorted (insert x ys)
    unfolding insert
    insert-IsSorted x [] h = (tt, tt)
    insert-IsSorted x (y ∷ ys) (h, hs) = elim (Bool-cases (before y x)) [
      | inl less ↦ rw less (
        perm-All (λ z. before z y ≡ false) (perm_sym (insert-perm x ys)) (order.asymm y x less, h),
        insert-IsSorted x ys hs,
      )
      | inr more ↦ rw more ((more, All-map _ _ ys (λ z k. order.ge_trans z y x k more) h), (h, hs))
    ]

    pub sort-IsSorted : (xs : List A) → IsSorted (sort xs)
    unfolding sort
    sort-IsSorted [] = tt
    sort-IsSorted (x ∷ xs) = insert-IsSorted x (sort xs) (sort-IsSorted xs)

    insert-insert :
        (x y : A) (zs : List A) → Differ x y → insert x (insert y zs) ≡ insert y (insert x zs)
    unfolding insert
    insert-insert x y [] d = ground (arith, order.asymm x y, order.asymm y x)
    insert-insert x y (z ∷ zs) d = ground (
      arith,
      insert-insert x y zs d,
      order.asymm x y,
      order.asymm y x,
      order.ge_trans z y x,
      order.ge_trans z x y,
    )

  insert-least : (x : A) (ys : List A) → All (λ y. before y x ≡ false) ys → insert x ys ≡ x ∷ ys
  unfolding insert
  insert-least x [] h = refl
  insert-least x (y ∷ ys) (h, hs) = rw (h) refl

  pub sort_sorted : (xs : List A) → IsSorted xs → sort xs ≡ xs
  unfolding sort
  sort_sorted [] h = refl
  sort_sorted (x ∷ xs) (h, hs) = rw (sort_sorted xs hs) (insert-least x xs h)

  -- every two elements differ
  abbrev pub AllDiffer : List A → Type 0
  AllDiffer [] = Unit
  AllDiffer (x ∷ xs) = All (Differ x) xs × AllDiffer xs

  Differ-sym : (a b : A) → Differ a b → Differ b a
  Differ-sym a b (inl h) = inr h
  Differ-sym a b (inr h) = inl h

  perm-AllDiffer : {xs ys : List A} → Permᴰ xs ys → AllDiffer xs → AllDiffer ys
  perm-AllDiffer Permᴰ.nil h = h
  perm-AllDiffer (Permᴰ.cons {b = b} {l₁ = xs} e p) (h, hs) =
      (perm-All (Differ b) p (subst (λ a. All (Differ a) xs) e h), perm-AllDiffer p hs)
  perm-AllDiffer (Permᴰ.swap {a = a} {b = b} {b' = b'} {l = l} e f) ((d, h), (k, hs)) = (
    (
      subst (λ u. Differ u b') f (subst (λ u. Differ b u) e (Differ-sym a b d)),
      subst (λ u. All (Differ u) l) f k,
    ),
    (subst (λ u. All (Differ u) l) e h, hs),
  )
  perm-AllDiffer (Permᴰ.trans p q) h = perm-AllDiffer q (perm-AllDiffer p h)

  -- Where every two elements differ the result does not depend on the order of the input.
  pub sort_unique : IsWeakOrder → {xs ys : List A} → Permᴰ xs ys → AllDiffer xs → sort xs ≡ sort ys
  unfolding sort
  sort_unique order Permᴰ.nil h = refl
  sort_unique order (Permᴰ.cons e p) (h, hs) = cc (e, sort_unique order p hs)
  sort_unique order (Permᴰ.swap {a = a} {b = b} {l = l} e f) ((d, h), hs) =
      cc (e, f, insert-insert order a b (sort l) d)
  sort_unique order (Permᴰ.trans p q) h =
      sort_unique order p h ∙ sort_unique order q (perm-AllDiffer p h)

  -- of a sorted list, nothing behind the first `k` comes before one of these
  pub take-before-drop :
      (k : ℕ) (xs : List A)
      → IsSorted xs
      → All (λ s. All (λ d. before d s ≡ false) (drop k xs)) (take k xs)
  take-before-drop zero xs h = tt
  take-before-drop (suc k) [] h = tt
  take-before-drop (suc k) (x ∷ xs) (h, hs) = (All-drop _ k xs h, take-before-drop k xs hs)
