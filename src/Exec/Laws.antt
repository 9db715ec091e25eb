-- ===== src/Exec/Laws.antt =====
-- What holds after an action: one assertion if it succeeds, another if it fails.
use pgvolvra.Base.{ap, arith, refl, ◌≡◌, Bool, true, false, if◌then◌else◌}
use pgvolvra.Exec.{and_then, attempted, throw, Error, Outcome, ok, err, Exec, ◌>>=◌, proceed, pure}

module _ {S A : Type 0} where
  -- The assertion `Q` on a success, `E` on an error.
  abbrev pub After : (A → S → Type 0) → (S → Type 0) → Outcome A × S → Type 0
  After Q E (ok a, s) = Q a s
  After Q E (err e, s) = E s

  -- From a state with `P`, the action ends with `Q` or with `E`.
  pub record Triple (P : S → Type 0) (m : Exec S A) (Q : A → S → Type 0) (E : S → Type 0)
      : Type 0 where
    pub at : (s : S) → P s → After Q E (m s)

  pub After-weaken :
      {Q R : A → S → Type 0} {E F : S → Type 0}
      → ((a : A) (s : S) → Q a s → R a s)
      → ((s : S) → E s → F s)
      → (x : Outcome A × S) → After Q E x
      → After R F x
  After-weaken f g (ok a, s) h = f a s h
  After-weaken f g (err e, s) h = g s h

  pub Triple-weaken :
      {P Q' : S → Type 0} {Q R : A → S → Type 0} {E F : S → Type 0} (m : Exec S A)
      → Triple P m Q E
      → ((s : S) → Q' s → P s)
      → ((a : A) (s : S) → Q a s → R a s)
      → ((s : S) → E s → F s)
      → Triple Q' m R F
  Triple-weaken m t pre post fail = record {
    at = λ s h. After-weaken post fail (m s) (t.at s (pre s h));
  }

module _ {S A B : Type 0} where
  After-proceed :
      (Q : A → S → Type 0) (R : B → S → Type 0) (E : S → Type 0) (f : A → Exec S B)
      → ((a : A) (s : S) → Q a s → After R E (f a s))
      → (x : Outcome A × S) → After Q E x
      → After R E (proceed x f)
  After-proceed Q R E f t (ok a, s) h = t a s h
  After-proceed Q R E f t (err e, s) h = h

  pub Triple-bind :
      {P : S → Type 0} {Q : A → S → Type 0} {R : B → S → Type 0} {E : S → Type 0} (m : Exec S A)
      (f : A → Exec S B)
      → Triple P m Q E
      → ((a : A) → Triple (Q a) (f a) R E)
      → Triple P (m >>= f) R E
  Triple-bind {Q} {R} {E} m f tm tf = record {
    at = λ s h. After-proceed Q R E f (λ a s' k. (tf a).at s' k) (m s) (tm.at s h);
  }

module _ {S A : Type 0} {E : S → Type 0} where
  pub Triple-pure :
      {P : S → Type 0} {Q : A → S → Type 0} (a : A)
      → ((s : S) → P s → Q a s)
      → Triple P (pure a) Q E
  Triple-pure a f = record { at = f }

  pub Triple-if :
      {P : S → Type 0} {Q : A → S → Type 0} (b : Bool) (m n : Exec S A)
      → Triple P m Q E
      → Triple P n Q E
      → Triple P (if b then m else n) Q E
  Triple-if true m n tm tn = tm
  Triple-if false m n tm tn = tn

module _ {S A : Type 0} (Q : A → S → Type 0) (E : S → Type 0) where
  pub After-if :
      (b : Bool) (x y : Outcome A × S)
      → (b ≡ true → After Q E x)
      → (b ≡ false → After Q E y)
      → After Q E (if b then x else y)
  After-if true x y hx hy = hx refl
  After-if false x y hx hy = hy refl

module _ {S A : Type 0} {P : S → Type 0} {Q : A → S → Type 0} {E : S → Type 0} (m : Exec S A) where
  -- A fact that the action does not touch.
  pub Triple-given : (F : Type 0) → (F → Triple P m Q E) → Triple (λ s. F × P s) m Q E
  Triple-given F t = record { at = λ s h. (t h.0).at s h.1 }

module _ {S : Type 0} (P : S → Type 0) where
  -- A test that throws.
  pub Triple-check :
      (b : Bool) (e : Error) → Triple P (if b then pure tt else throw e) (λ _ s. (b ≡ true) × P s) P
  Triple-check true e = record { at = λ s h. (refl, h) }
  Triple-check false e = record { at = λ s h. h }

module _ {S A : Type 0} {P : S → Type 0} {Q : A → S → Type 0} {E F : S → Type 0} where
  -- An error that is looked at becomes a result.
  pub Triple-attempted :
      (m : Exec S A) → Triple P m Q E → Triple P (attempted m) (λ r s. After Q E (r, s)) F
  Triple-attempted m t = record { at = t.at }

module _ {S A : Type 0} where
  pub After-both :
      (Q R : A → S → Type 0) (E F : S → Type 0) (x : Outcome A × S)
      → After Q E x
      → After R F x
      → After (λ a s. Q a s × R a s) (λ s. E s × F s) x
  After-both Q R E F (ok a, s) h k = (h, k)
  After-both Q R E F (err e, s) h k = (h, k)

  -- What holds after success and error alike.
  pub After-same : (P : S → Type 0) (x : Outcome A × S) → After {S = S} {A = A} (λ _. P) P x → P x.1
  After-same P (ok a, s) h = h
  After-same P (err e, s) h = h

  -- Two triples of an action.
  pub Triple-both :
      {P P' : S → Type 0} {Q R : A → S → Type 0} {E F : S → Type 0} (m : Exec S A)
      → Triple P m Q E
      → Triple P' m R F
      → Triple (λ s. P s × P' s) m (λ a s. Q a s × R a s) (λ s. E s × F s)
  Triple-both {Q} {R} {E} {F} m t u = record {
    at = λ s h. After-both Q R E F (m s) (t.at s h.0) (u.at s h.1);
  }

  After-any : (x : Outcome A × S) → After {S = S} (λ _ _. Unit {0}) (λ _. Unit {0}) x
  After-any (ok a, s) = tt
  After-any (err e, s) = tt

  pub Triple-any : (m : Exec S A) → Triple (λ _. Unit {0}) m (λ _ _. Unit {0}) (λ _. Unit {0})
  Triple-any m = record { at = λ s h. After-any (m s) }

result {ℓ} : {A : Type ℓ} → A → Outcome A → A
result a (ok b) = b
result a (err _) = a

pub ok-injective {ℓ} : {A : Type ℓ} (a b : A) → ok a ≡ ok b → a ≡ b
unfolding result
ok-injective a b e = ap (result a) e

-- What succeeds as a whole succeeded at first.
pub and_then-ok {ℓ κ} :
    {A : Type ℓ} {B : Type κ} (r : Outcome A) (f : A → Outcome B) (b : B)
    → and_then r f ≡ ok b
    → (a : A) × (r ≡ ok a) × (f a ≡ ok b)
and_then-ok (ok a) f b e = (a, refl, e)
and_then-ok (err x) f b e = absurd (ground (arith, e))
