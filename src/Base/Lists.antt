-- ===== src/Base/Lists.antt =====
-- Lists measured and indexed by native numbers, and predicates on their elements.
use Prim.Native.Nat.{ℕ, zero, suc, ◌+◌}
use pgvolvra.Base.Tests.{Bool-cases}
use mathlib.Core.Logic.{◌⊎◌, ◌↔◌, inl, inr}
use mathlib.Core.Path.{◌≡◌, refl}
use mathlib.Core.Bool.{Bool, true, false}
use mathlib.Core.List.{List, [], ◌∷◌, ◌++◌, map}
use mathlib.Core.Option.{Option, none, some}
use native.Mathlib.Omega.{arith}

module _ {ℓ} {A : Type ℓ} where
  abbrev pub length : List A → ℕ
  length [] = 0
  length (x ∷ xs) = suc (length xs)

  abbrev pub take : ℕ → List A → List A
  take zero xs = []
  take (suc n) [] = []
  take (suc n) (x ∷ xs) = x ∷ take n xs

  pub length-append : (xs ys : List A) → length (xs ++ ys) ≡ length xs + length ys
  length-append [] ys = omega arith
  length-append (x ∷ xs) ys = omega (arith, length-append xs ys)

  -- The last element, as `xs[len(xs)-1]` under a test of the length.
  abbrev pub last? : List A → Option A
  last? [] = none
  last? (x ∷ []) = some x
  last? (x ∷ y ∷ xs) = last? (y ∷ xs)

  pub last?-append_one : (xs : List A) (x : A) → last? (xs ++ x ∷ []) ≡ some x
  last?-append_one [] x = refl
  last?-append_one (y ∷ []) x = refl
  last?-append_one (y ∷ z ∷ xs) x = last?-append_one (z ∷ xs) x

  abbrev pub any : (A → Bool) → List A → Bool
  any p [] = false
  any p (x ∷ xs) = elim (p x) [ true ↦ true | false ↦ any p xs ]

module _ {ℓ} {A : Type ℓ} (f : A → Bool) where
  pub any-append :
      (xs ys : List A) → any f (xs ++ ys) ≡ false → (any f xs ≡ false) × (any f ys ≡ false)
  any-append [] ys h = (refl, h)
  any-append (x ∷ xs) ys h = elim (Bool-cases (f x)) [
    | inl e ↦ absurd (ground (arith, h, e))
    | inr e ↦ let (l, r) = any-append xs ys (ground (arith, h, e)) in (ground (arith, e, l), r)
  ]

  pub append-any : (xs ys : List A) → any f xs ≡ false → any f ys ≡ false → any f (xs ++ ys) ≡ false
  append-any [] ys l r = r
  append-any (x ∷ xs) ys l r = ground (arith, l, r, append-any xs ys)

  pub any-last : (xs : List A) (x : A) → f x ≡ true → any f (xs ++ x ∷ []) ≡ true
  any-last [] x h = ground (arith, h)
  any-last (y ∷ xs) x h = ground (arith, any-last xs x h)

-- A predicate by recursion, which the tactics read and build as tuples.
module _ {ℓ κ} {A : Type ℓ} where
  abbrev pub All : (A → Type κ) → List A → Type κ
  All P [] = Unit
  All P (x ∷ xs) = P x × All P xs

  pub All-append : (P : A → Type κ) (xs ys : List A) → All P xs → All P ys → All P (xs ++ ys)
  All-append P [] ys hx hy = hy
  All-append P (x ∷ xs) ys hx hy = (hx.0, All-append P xs ys hx.1 hy)

  pub All-split : (P : A → Type κ) (xs ys : List A) → All P (xs ++ ys) → All P xs × All P ys
  All-split P [] ys h = (tt, h)
  All-split P (x ∷ xs) ys h = let (l, r) = All-split P xs ys h.1 in ((h.0, l), r)

module _ {ℓ κ μ} {A : Type ℓ} where
  pub All-map :
      {P : A → Type κ} {Q : A → Type μ} (f : (a : A) → P a → Q a) (xs : List A)
      → All P xs
      → All Q xs
  All-map f [] h = tt
  All-map f (x ∷ xs) h = (f x h.0, All-map f xs h.1)

pub length-map {ℓ κ} :
    {A : Type ℓ} {B : Type κ} (f : A → B) (xs : List A) → length (map f xs) ≡ length xs
length-map f [] = refl
length-map f (x ∷ xs) = omega (arith, length-map f xs)

-- The predicate holds of one of the elements.
abbrev pub AnyOf {ℓ} : {A : Type ℓ} → (A → Type 0) → List A → Type 0
AnyOf P [] = ⊥
AnyOf P (x ∷ xs) = P x ⊎ AnyOf P xs

either_iff :
    (b rest : Bool) (P Q : Type 0)
    → (b ≡ true) ↔ P
    → (rest ≡ true) ↔ Q
    → (elim b as (λ _. Bool) [ true ↦ true | false ↦ rest ] ≡ true) ↔ (P ⊎ Q)
either_iff true rest P Q h k = ((λ _. inl (h.0 refl)), λ _. refl)
either_iff false rest P Q h k = (
  (λ e. inr (k.0 e)),
  λ a. elim a [ inl here ↦ absurd (ground (arith, h.1 here)) | inr later ↦ k.1 later ],
)

pub any_iff {ℓ} :
    {A : Type ℓ} (f : A → Bool) (P : A → Type 0)
    → ((x : A) → (f x ≡ true) ↔ P x)
    → (xs : List A) → (any f xs ≡ true) ↔ AnyOf P xs
any_iff f P h [] = ((λ e. absurd (ground (arith, e))), λ a. absurd a)
any_iff f P h (x ∷ xs) = either_iff (f x) (any f xs) (P x) (AnyOf P xs) (h x) (any_iff f P h xs)
