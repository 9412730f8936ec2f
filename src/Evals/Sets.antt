-- ===== src/Evals/Sets.antt =====
-- evals/metrics.py: sets as lists without repetitions, and the size of an intersection.
use conversational_memory_sy.Prelude.{
  ℕ, ◌+◌, ◌≤◌, ◌≡◌, refl, sym, ap, Bool, true, false, ◌||◌, List, [], ◌∷◌, ◌==◌, count_if, length,
  if◌then◌else◌, arith, Bool-cases, inl, inr, subst, ==→eq,
}
use conversational_memory_sy.Evals.{is_in, as_set, common}

abbrev pub IsDistinct : List ℕ → Type 0
IsDistinct [] = Unit
IsDistinct (x ∷ xs) = (is_in xs x ≡ false) × IsDistinct xs

pub as_set-IsDistinct : (xs : List ℕ) → IsDistinct (as_set xs)
unfolding as_set
as_set-IsDistinct [] = tt
as_set-IsDistinct (x ∷ xs) = elim (Bool-cases (is_in (as_set xs) x)) [
  | inl known ↦ rw (known) (as_set-IsDistinct xs)
  | inr new ↦ rw (new) (new, as_set-IsDistinct xs)
]

pub is_in-as_set : (xs : List ℕ) (y : ℕ) → is_in (as_set xs) y ≡ is_in xs y
unfolding as_set
is_in-as_set [] y = refl
is_in-as_set (x ∷ xs) y = elim (Bool-cases (is_in (as_set xs) x)) [
  | inl known ↦ elim (Bool-cases (x == y)) [
    | inl same ↦
        let seen = subst (λ n. is_in (as_set xs) n ≡ true) (==→eq x y same) known in
        rw (known, same) seen
    | inr other ↦ rw (known, other) (is_in-as_set xs y)
  ]
  | inr new ↦ rw (new) (ap (λ b. x == y || b) (is_in-as_set xs y))
]

count_if-le : (p : ℕ → Bool) (xs : List ℕ) → count_if p xs ≤ length xs
count_if-le p [] = omega arith
count_if-le p (x ∷ xs) = ground (arith, count_if-le p xs)

-- how often a number stands in a list without repetitions
count-same :
    (x : ℕ) (ys : List ℕ)
    → IsDistinct ys
    → count_if (λ y. x == y) ys ≡ (if is_in ys x then 1 else 0)
count-same x [] d = refl
count-same x (y ∷ ys) (new, d) = elim (Bool-cases (x == y)) [
  | inl same ↦
      let absent = subst (λ n. is_in ys n ≡ false) (sym (==→eq x y same)) new in
      ground (arith, same, absent, count-same x ys d)
  | inr other ↦ ground (arith, other, count-same x ys d)
]

-- a number that is not among the others is counted apart
count-cons :
    (x : ℕ) (xs ys : List ℕ)
    → is_in xs x ≡ false
    → count_if (is_in (x ∷ xs)) ys ≡ count_if (λ y. x == y) ys + common ys xs
count-cons x xs [] new = omega arith
count-cons x xs (y ∷ ys) new = elim (Bool-cases (x == y)) [
  | inl same ↦
      let absent = subst (λ n. is_in xs n ≡ false) (==→eq x y same) new in
      ground (arith, same, absent, count-cons x xs ys new)
  | inr other ↦ ground (arith, other, count-cons x xs ys new)
]

common-nil : (ys : List ℕ) → common ys [] ≡ 0
common-nil [] = refl
common-nil (y ∷ ys) = common-nil ys

-- The size of an intersection does not depend on the side that it is counted on.
pub common-sym : (xs ys : List ℕ) → IsDistinct xs → IsDistinct ys → common xs ys ≡ common ys xs
common-sym [] ys d e = sym (common-nil ys)
common-sym (x ∷ xs) ys (new, d) e =
    let apart = count-cons x xs ys new in
    let once = count-same x ys e in
    let rest = common-sym xs ys d e in
    elim (Bool-cases (is_in ys x)) [
      | inl both ↦ ground (arith, both, apart, once, rest)
      | inr one ↦ ground (arith, one, apart, once, rest)
    ]

pub common-le : (xs ys : List ℕ) → common xs ys ≤ length xs
common-le xs ys = count_if-le (is_in ys) xs

-- of two sets, the intersection is no larger than either
pub common-le_other : (xs ys : List ℕ) → common (as_set xs) (as_set ys) ≤ length (as_set ys)
common-le_other xs ys =
    let swapped =
      common-sym (as_set xs) (as_set ys) (as_set-IsDistinct xs) (as_set-IsDistinct ys) in
    omega (arith, swapped, common-le (as_set ys) (as_set xs))
