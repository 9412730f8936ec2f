-- ===== src/Prelude/Options.antt =====
-- Calls that may raise, as options: the `do` block, a loop that collects results, and that the order
-- of the loop only shows in the order of the results.
use mathlib.Core.Path.{refl, subst}
use mathlib.Core.Option.{Option, none, some}
use mathlib.Core.List.{List, [], ◌∷◌}
use conversational_memory_sy.Prelude.Perms.{Permᴰ, perm_refl}

infixl 5 ◌>>=◌
abbrev pub ◌>>=◌ {ℓ κ} : {A : Type ℓ} {B : Type κ} → Option A → (A → Option B) → Option B
none >>= f = none
some a >>= f = f a

-- the results of the calls, unless one raises
abbrev pub sequence {ℓ} : {A : Type ℓ} → List (Option A) → Option (List A)
sequence [] = some []
sequence (o ∷ os) = do a ← o; rest ← sequence os; some (a ∷ rest)

module _ {A : Type 0} where
  -- both are nothing, or the lists are rearrangements of each other
  abbrev pub SameOf : Option (List A) → Option (List A) → Type 0
  SameOf none none = Unit
  SameOf (some xs) (some ys) = Permᴰ xs ys
  SameOf _ _ = ⊥

  SameOf-refl : (o : Option (List A)) → SameOf o o
  SameOf-refl none = tt
  SameOf-refl (some xs) = perm_refl xs

  SameOf-trans : (o p q : Option (List A)) → SameOf o p → SameOf p q → SameOf o q
  SameOf-trans none none q h k = k
  SameOf-trans none (some _) q h k = absurd h
  SameOf-trans (some _) none q h k = absurd h
  SameOf-trans (some _) (some _) none h k = absurd k
  SameOf-trans (some _) (some _) (some _) h k = Permᴰ.trans h k

  abbrev add_to : A → Option (List A) → Option (List A)
  add_to a o = o >>= λ rest. some (a ∷ rest)

  SameOf-add : (a : A) (o p : Option (List A)) → SameOf o p → SameOf (add_to a o) (add_to a p)
  SameOf-add a none none h = tt
  SameOf-add a none (some _) h = absurd h
  SameOf-add a (some _) none h = absurd h
  SameOf-add a (some _) (some _) h = Permᴰ.cons refl h

  SameOf-swap :
      (a b : A) (o : Option (List A)) → SameOf (add_to a (add_to b o)) (add_to b (add_to a o))
  SameOf-swap a b none = tt
  SameOf-swap a b (some xs) = Permᴰ.swap refl refl

  sequence-cons :
      (o : Option A) (os ps : List (Option A))
      → SameOf (sequence os) (sequence ps)
      → SameOf (sequence (o ∷ os)) (sequence (o ∷ ps))
  sequence-cons none os ps h = tt
  sequence-cons (some a) os ps h = SameOf-add a (sequence os) (sequence ps) h

  sequence-swap :
      (o p : Option A) (os : List (Option A))
      → SameOf (sequence (o ∷ p ∷ os)) (sequence (p ∷ o ∷ os))
  sequence-swap none none os = tt
  sequence-swap none (some b) os = tt
  sequence-swap (some a) none os = tt
  sequence-swap (some a) (some b) os = SameOf-swap a b (sequence os)

  pub sequence-perm : {os ps : List (Option A)} → Permᴰ os ps → SameOf (sequence os) (sequence ps)
  sequence-perm Permᴰ.nil = Permᴰ.nil
  sequence-perm (Permᴰ.cons {a = a} {l₁ = os} {l₂ = ps} e p) =
      subst (λ x. SameOf (sequence (a ∷ os)) (sequence (x ∷ ps))) e
        (sequence-cons a os ps (sequence-perm p))
  sequence-perm (Permᴰ.swap {a = a} {b = b} {b' = b'} {l = os} e f) =
      subst (λ x. SameOf (sequence (a ∷ b ∷ os)) (sequence (x ∷ b' ∷ os))) f
        (subst (λ y. SameOf (sequence (a ∷ b ∷ os)) (sequence (b ∷ y ∷ os))) e
          (sequence-swap a b os))
  sequence-perm (Permᴰ.trans {l₁ = os} {l₂ = ps} {l₃ = qs} p q) =
      SameOf-trans (sequence os) (sequence ps) (sequence qs) (sequence-perm p) (sequence-perm q)
