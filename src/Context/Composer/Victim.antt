-- ===== src/Context/Composer/Victim.antt =====
-- context/composer.py: the memory that the drop loop takes out.
use conversational_memory_sy.Prelude.Perms.{Permᴰ, perm_refl}
use conversational_memory_sy.Prelude.{
  ℕ, zero, suc, ◌+◌, ◌≤◌, ◌≡◌, refl, ap, subst, ◌∙◌, true, false, ◌⊎◌, inl, inr, Option, none, some,
  List, [], ◌∷◌, arith, length, All, Bool-cases,
}
use conversational_memory_sy.Prelude.Scores.{Scores}
use conversational_memory_sy.Context.Composer.{
  RankedCandidate, pair_lt, max_pair, last_of, pop, lowest, tied, pop_lowest,
}

-- the element at an index
abbrev pub get_elem? {ℓ} : {A : Type ℓ} → List A → ℕ → Option A
get_elem? [] i = none
get_elem? (x ∷ xs) zero = some x
get_elem? (x ∷ xs) (suc i) = get_elem? xs i

All-of_get :
    {A : Type 0} (P : A → Type 0) (xs : List A)
    → ((k : ℕ) (y : A) → get_elem? xs k ≡ some y → P y)
    → All P xs
All-of_get P [] h = tt
All-of_get P (x ∷ xs) h = (h 0 x refl, All-of_get P xs λ k y e. h (suc k) y e)

-- an index in range is popped, and the rest with the element is a rearrangement of the list
pop-get_elem? :
    {A : Type 0} (xs : List A) (i : ℕ) (v : A)
    → get_elem? xs i ≡ some v
    → (rest : List A) × (pop i xs ≡ some (v, rest))
      × Permᴰ (v ∷ rest) xs
      × (length xs ≡ suc (length rest))
pop-get_elem? [] i v h = cc
pop-get_elem? (x ∷ xs) zero v h = (
  xs,
  ground arith,
  subst (λ y. Permᴰ (y ∷ xs) (x ∷ xs)) (ground arith) (perm_refl (x ∷ xs)),
  refl,
)
pop-get_elem? (x ∷ xs) (suc i) v h =
    let (rest, popped, perm, len) = pop-get_elem? xs i v h in
    (x ∷ rest, ground arith, Permᴰ.trans (Permᴰ.swap refl refl) (Permᴰ.cons refl perm), ap suc len)

max_pair-ge : (best : ℕ × ℕ) (ps : List (ℕ × ℕ)) → best.0 ≤ (max_pair best ps).0
max_pair-ge best [] = omega arith
max_pair-ge best (p ∷ ps) = ground (arith, max_pair-ge p ps, max_pair-ge best ps)

max_pair-bound :
    (best : ℕ × ℕ) (ps : List (ℕ × ℕ)) (j : ℕ) (p : ℕ × ℕ)
    → get_elem? ps j ≡ some p
    → p.0 ≤ (max_pair best ps).0
max_pair-bound best [] j p h = cc
max_pair-bound best (q ∷ ps) zero p h = ground (arith, max_pair-ge q ps, max_pair-ge best ps)
max_pair-bound best (q ∷ ps) (suc j) p h =
    ground (arith, max_pair-bound q ps j p h, max_pair-bound best ps j p h)

max_pair-top :
    (best : ℕ × ℕ) (ps : List (ℕ × ℕ)) (j : ℕ) (p : ℕ × ℕ)
    → get_elem? (best ∷ ps) j ≡ some p
    → p.0 ≤ (max_pair best ps).0
max_pair-top best ps zero p h = ground (arith, max_pair-ge best ps)
max_pair-top best ps (suc j) p h = max_pair-bound best ps j p h

-- the largest pair is one of them
max_pair-attained :
    (best : ℕ × ℕ) (ps : List (ℕ × ℕ))
    → (j : ℕ) × (get_elem? (best ∷ ps) j ≡ some (max_pair best ps))
max_pair-attained best [] = (0, refl)
max_pair-attained best (p ∷ ps) = elim (Bool-cases (pair_lt best p)) [
  | inl more ↦ let (j, e) = max_pair-attained p ps in (suc j, rw more e)
  | inr less ↦ let (j, e) = max_pair-attained best ps in beyond j (rw less e)
]
  where
    beyond :
        (j : ℕ)
        → get_elem? (best ∷ ps) j ≡ some (max_pair best (p ∷ ps))
        → (j : ℕ) × (get_elem? (best ∷ p ∷ ps) j ≡ some (max_pair best (p ∷ ps)))
    beyond zero e = (0, e)
    beyond (suc j) e = (suc (suc j), e)

module _ {W : Type 0} (scores : Scores W) where
  open scores use {lt, eq, lt_asymm, ge_trans, eq→ge, ge→eq}

  ge_refl : (a : W) → lt a a ≡ false
  ge_refl a = elim (Bool-cases (lt a a)) [ inl h ↦ lt_asymm a a h | inr h ↦ h ]

  -- `v` is a memory to drop before `y`: its score is no higher, and at equal scores its id is last.
  pub record IsWorse (v y : RankedCandidate W) : Type 0 where
    pub no_higher : lt y.score v.score ≡ false
    pub last_id : eq y.score v.score ≡ true → y.memory_id ≤ v.memory_id

  lowest-ge :
      (low : W) (items : List (RankedCandidate W)) → lt low (lowest scores low items) ≡ false
  lowest-ge low [] = ge_refl low
  lowest-ge low (item ∷ items) = elim (Bool-cases (lt item.score low)) [
    | inl less ↦
        rw less
          (ge_trans low item.score _ (lt_asymm item.score low less) (lowest-ge item.score items))
    | inr more ↦ rw more (lowest-ge low items)
  ]

  lowest-bound :
      (low : W) (items : List (RankedCandidate W)) (k : ℕ) (y : RankedCandidate W)
      → get_elem? items k ≡ some y
      → lt y.score (lowest scores low items) ≡ false
  lowest-bound low [] k y h = cc
  lowest-bound low (item ∷ items) zero y h = elim (Bool-cases (lt item.score low)) [
    | inl less ↦ rw less (ground (arith, lowest-ge item.score items))
    | inr more ↦ rw more (
        ground
          (arith, ge_trans item.score low (lowest scores low items) more (lowest-ge low items)))
  ]
  lowest-bound low (item ∷ items) (suc k) y h = elim (Bool-cases (lt item.score low)) [
    | inl less ↦ rw less (lowest-bound item.score items k y h)
    | inr more ↦ rw more (lowest-bound low items k y h)
  ]

  -- the lowest score is the first one or that of an item
  lowest-attained :
      (low : W) (items : List (RankedCandidate W))
      → (lowest scores low items ≡ low)
        ⊎ ((k : ℕ) × (v : RankedCandidate W) × (get_elem? items k ≡ some v)
            × (lowest scores low items ≡ v.score))
  lowest-attained low [] = inl refl
  lowest-attained low (item ∷ items) = elim (Bool-cases (lt item.score low)) [
    | inl less ↦ elim (lowest-attained item.score items) [
      | inl e ↦ inr (0, item, refl, rw less e)
      | inr (k, v, g, e) ↦ inr (suc k, v, g, rw less e)
    ]
    | inr more ↦ elim (lowest-attained low items) [
      | inl e ↦ inl (rw more e)
      | inr (k, v, g, e) ↦ inr (suc k, v, g, rw more e)
    ]
  ]

  tied_complete :
      (low : W) (i : ℕ) (items : List (RankedCandidate W)) (k : ℕ) (y : RankedCandidate W)
      → get_elem? items k ≡ some y
      → eq y.score low ≡ true
      → (j : ℕ) × (get_elem? (tied scores low i items) j ≡ some (y.memory_id, i + k))
  tied_complete low i [] k y h e = cc
  tied_complete low i (item ∷ items) zero y h e = (0, ground arith)
  tied_complete low i (item ∷ items) (suc k) y h e =
      let (j, g) = tied_complete low (suc i) items k y h e in
      elim (Bool-cases (eq item.score low)) [
        | inl same ↦ (suc j, rw same (g ∙ ground arith))
        | inr other ↦ (j, rw other (g ∙ ground arith))
      ]

  tied_sound :
      (low : W) (i : ℕ) (items : List (RankedCandidate W)) (j : ℕ) (p : ℕ × ℕ)
      → get_elem? (tied scores low i items) j ≡ some p
      → (k : ℕ) × (y : RankedCandidate W) × (get_elem? items k ≡ some y)
        × (eq y.score low ≡ true)
        × (p ≡ (y.memory_id, i + k))
  tied_sound low i [] j p h = cc
  tied_sound low i (item ∷ items) zero p h = elim (Bool-cases (eq item.score low)) [
    | inl same ↦ (0, item, refl, same, ground arith)
    | inr other ↦
        let (k, y, g, e, q) = tied_sound low (suc i) items zero p (ground arith) in
        (suc k, y, g, e, q ∙ ground arith)
  ]
  tied_sound low i (item ∷ items) (suc j) p h = elim (Bool-cases (eq item.score low)) [
    | inl same ↦
        let (k, y, g, e, q) = tied_sound low (suc i) items j p (ground arith) in
        (suc k, y, g, e, q ∙ ground arith)
    | inr other ↦
        let (k, y, g, e, q) = tied_sound low (suc i) items (suc j) p (ground arith) in
        (suc k, y, g, e, q ∙ ground arith)
  ]

  -- the pairs that tie for the lowest score are not empty, and the largest is an item's
  last_of-tied :
      (low : W) (items : List (RankedCandidate W)) (k : ℕ) (v : RankedCandidate W)
      → get_elem? items k ≡ some v
      → eq v.score low ≡ true
      → (i : ℕ) × (u : RankedCandidate W) × (last_of (tied scores low 0 items) ≡ some i)
        × (get_elem? items i ≡ some u)
        × (eq u.score low ≡ true)
        × ((j : ℕ) (y : RankedCandidate W)
            → get_elem? items j ≡ some y
            → eq y.score low ≡ true
            → y.memory_id ≤ u.memory_id)
  last_of-tied low items k v h e = go (tied scores low 0 items) refl
    where
      go :
          (ps : List (ℕ × ℕ))
          → tied scores low 0 items ≡ ps
          → (i : ℕ) × (u : RankedCandidate W) × (last_of (tied scores low 0 items) ≡ some i)
            × (get_elem? items i ≡ some u)
            × (eq u.score low ≡ true)
            × ((j : ℕ) (y : RankedCandidate W)
                → get_elem? items j ≡ some y
                → eq y.score low ≡ true
                → y.memory_id ≤ u.memory_id)
      go [] q = let (j, g) = tied_complete low 0 items k v h e in cc (rw q at g)
      go (p ∷ ps) q =
          let (j, g) = max_pair-attained p ps in
          let (i, u, at, same, pair) = tied_sound low 0 items j (max_pair p ps) (rw q g) in
          let top =
            λ (l : ℕ) (y : RankedCandidate W) (hy : get_elem? items l ≡ some y)
                (ey : eq y.score low ≡ true).
              let (m, b) = tied_complete low 0 items l y hy ey in
              max_pair-top p ps m (y.memory_id, 0 + l) (rw q at b) in
          (
            i,
            u,
            rw q (ground arith),
            at,
            same,
            λ l y hy ey. omega (arith, top l y hy ey, ap (λ (t : ℕ × ℕ). t.0) pair),
          )

  lowest_of_some :
      (item : RankedCandidate W) (items : List (RankedCandidate W))
      → let low = lowest scores item.score items in
        (k : ℕ) × (v : RankedCandidate W) × (get_elem? (item ∷ items) k ≡ some v)
        × (eq v.score low ≡ true)
  lowest_of_some item items = elim (lowest-attained item.score items) [
    | inl e ↦ (0, item, refl, rw e (ge→eq _ _ (ge_refl _) (ge_refl _)))
    | inr (k, v, g, e) ↦ (suc k, v, g, rw e (ge→eq _ _ (ge_refl _) (ge_refl _)))
  ]

  low_below :
      (item : RankedCandidate W) (items : List (RankedCandidate W)) (k : ℕ) (y : RankedCandidate W)
      → get_elem? (item ∷ items) k ≡ some y
      → lt y.score (lowest scores item.score items) ≡ false
  low_below item items zero y h = ground (arith, lowest-ge item.score items)
  low_below item items (suc k) y h = lowest-bound item.score items k y h

  IsWorse-of_lowest :
      (low : W) (u y : RankedCandidate W)
      → eq u.score low ≡ true
      → lt y.score low ≡ false
      → (eq y.score low ≡ true → y.memory_id ≤ u.memory_id)
      → IsWorse u y
  IsWorse-of_lowest low u y same above last =
      let (ul, lu) = eq→ge u.score low same in
      record {
        no_higher = ge_trans y.score low u.score above lu;
        last_id = λ e.
            let (yu, uy) = eq→ge y.score u.score e in
            last (ge→eq _ _ above (ge_trans low u.score y.score lu uy));
      }

  -- From a list that is not empty the drop loop takes out one memory and keeps all others; every
  -- memory of the list scores at least as high as it, and one that scores the same has an id no
  -- later.
  pub pop_lowest-IsWorse :
      (item : RankedCandidate W) (items : List (RankedCandidate W))
      → (victim : RankedCandidate W) × (rest : List (RankedCandidate W)) × (pop_lowest scores
            (item ∷ items)
          ≡ some (victim, rest))
        × Permᴰ (victim ∷ rest) (item ∷ items)
        × (length (item ∷ items) ≡ suc (length rest))
        × All (IsWorse victim) (item ∷ items)
  unfolding pop_lowest
  pop_lowest-IsWorse item items =
      let (k, v, g, e) = lowest_of_some item items in
      let (i, u, index, at, same, top) =
        last_of-tied (lowest scores item.score items) (item ∷ items) k v g e in
      let (rest, popped, perm, len) = pop-get_elem? (item ∷ items) i u at in
      (
        u,
        rest,
        ground arith,
        perm,
        len,
        All-of_get (IsWorse u) (item ∷ items) λ l y hy.
            IsWorse-of_lowest (lowest scores item.score items) u y same
              (low_below item items l y hy) (top l y hy),
      )
