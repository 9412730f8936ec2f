-- ===== src/Prelude/Perms.antt =====
-- Rearrangements of lists, as derivations, and what they keep.
use conversational_memory_sy.Prelude.Lists.{length, All, count_if}
use mathlib.Core.Bool.{Bool}
use native.Mathlib.Omega.{arith}
use Prim.Native.Nat.{suc}
use mathlib.Core.Path.{◌≡◌, refl, sym, subst, ap, ◌∙◌}
use mathlib.Core.List.{List, [], ◌∷◌, ◌++◌, map}
pub use mathlib.Core.List.{Permᴰ, Perm}

module _ {ℓ} {A : Type ℓ} where
  pub perm_refl : (xs : List A) → Permᴰ xs xs
  perm_refl [] = Permᴰ.nil
  perm_refl (x ∷ xs) = Permᴰ.cons refl (perm_refl xs)

  pub perm_sym : {xs ys : List A} → Permᴰ xs ys → Permᴰ ys xs
  perm_sym Permᴰ.nil = Permᴰ.nil
  perm_sym (Permᴰ.cons e p) = Permᴰ.cons (sym e) (perm_sym p)
  perm_sym (Permᴰ.swap e f) = Permᴰ.swap (sym f) (sym e)
  perm_sym (Permᴰ.trans p q) = Permᴰ.trans (perm_sym q) (perm_sym p)

  pub perm-All {κ} : (P : A → Type κ) {xs ys : List A} → Permᴰ xs ys → All P xs → All P ys
  perm-All P Permᴰ.nil h = h
  perm-All P (Permᴰ.cons e p) (h, hs) = (subst P e h, perm-All P p hs)
  perm-All P (Permᴰ.swap e f) (h, (k, hs)) = (subst P f k, (subst P e h, hs))
  perm-All P (Permᴰ.trans p q) h = perm-All P q (perm-All P p h)

  pub perm-append_left : (zs : List A) {xs ys : List A} → Permᴰ xs ys → Permᴰ (zs ++ xs) (zs ++ ys)
  perm-append_left [] p = p
  perm-append_left (z ∷ zs) p = Permᴰ.cons refl (perm-append_left zs p)

  -- an element moves to the front
  pub perm_middle : (x : A) (xs ys : List A) → Permᴰ (xs ++ x ∷ ys) (x ∷ (xs ++ ys))
  perm_middle x [] ys = perm_refl (x ∷ ys)
  perm_middle x (y ∷ xs) ys =
      Permᴰ.trans (Permᴰ.cons refl (perm_middle x xs ys)) (Permᴰ.swap refl refl)

  pub length-perm : {xs ys : List A} → Permᴰ xs ys → length xs ≡ length ys
  length-perm Permᴰ.nil = refl
  length-perm (Permᴰ.cons e p) = ap suc (length-perm p)
  length-perm (Permᴰ.swap e f) = refl
  length-perm (Permᴰ.trans p q) = length-perm p ∙ length-perm q

  pub All-append {κ} : (P : A → Type κ) (xs ys : List A) → All P xs → All P ys → All P (xs ++ ys)
  All-append P [] ys h k = k
  All-append P (x ∷ xs) ys (h, hs) k = (h, All-append P xs ys hs k)

  pub All-map {κ μ} :
      (P : A → Type κ) (Q : A → Type μ) (xs : List A) → ((x : A) → P x → Q x) → All P xs → All Q xs
  All-map P Q [] f h = tt
  All-map P Q (x ∷ xs) f (h, hs) = (f x h, All-map P Q xs f hs)

module _ {A B : Type 0} (f : A → B) where
  pub length-map : (xs : List A) → length (map f xs) ≡ length xs
  length-map [] = refl
  length-map (x ∷ xs) = ap suc (length-map xs)

  pub perm-map : {xs ys : List A} → Permᴰ xs ys → Permᴰ (map f xs) (map f ys)
  perm-map Permᴰ.nil = Permᴰ.nil
  perm-map (Permᴰ.cons e p) = Permᴰ.cons (ap f e) (perm-map p)
  perm-map (Permᴰ.swap e g) = Permᴰ.swap (ap f e) (ap f g)
  perm-map (Permᴰ.trans p q) = Permᴰ.trans (perm-map p) (perm-map q)

module _ {A : Type 0} (p : A → Bool) where
  pub count-Perm : {xs ys : List A} → Permᴰ xs ys → count_if p xs ≡ count_if p ys
  count-Perm Permᴰ.nil = refl
  count-Perm (Permᴰ.cons e h) = rw (e) (ground (arith, count-Perm h))
  count-Perm (Permᴰ.swap e f) = rw (e, f) (ground arith)
  count-Perm (Permᴰ.trans h k) = count-Perm h ∙ count-Perm k
