-- ===== src/Base/Exec.antt =====
-- Methods that change a state and may fail: what was changed before the failure stays changed.

use mathlib.Core.Path.{◌≡◌, refl, ◌∙◌, ap, sym}
use fullstackhex.Base.Errors.{Result, ok, err}

abbrev pub Exec {ℓ} : Type ℓ → Type 0 → Type ℓ → Type ℓ
Exec S E A = S → Result E A × S

module _ {ℓ} {S A : Type ℓ} {E : Type 0} where
  abbrev pub pure : A → Exec S E A
  pure a s = (ok a, s)

  abbrev pub throw : E → Exec S E A
  throw e s = (err e, s)

  abbrev pub lift : Result E A → Exec S E A
  lift r s = (r, s)

  abbrev pub gets : (S → A) → Exec S E A
  gets f s = (ok (f s), s)

module _ {ℓ} {S A B : Type ℓ} {E : Type 0} where
  abbrev pub continue : Result E A × S → (A → Exec S E B) → Result E B × S
  continue (ok a, s) f = f a s
  continue (err e, s) f = (err e, s)

  infixl 5 ◌>>=◌ ◌>>◌
  abbrev pub ◌>>=◌ : Exec S E A → (A → Exec S E B) → Exec S E B
  ◌>>=◌ m f s = continue (m s) f

  abbrev pub ◌>>◌ : Exec S E A → Exec S E B → Exec S E B
  m >> k = m >>= λ _. k

  pub continue-keeps {κ} :
      {C : Type κ} (part : S → C) (r : Result E A × S) (f : A → Exec S E B)
      → ((a : A) (s : S) → part (f a s).1 ≡ part s)
      → part (continue r f).1 ≡ part r.1
  continue-keeps part (ok a, u) f h = h a u
  continue-keeps part (err x, u) f h = refl

  continue-ok :
      (r : Result E A × S) (f : A → Exec S E B) (t : S) (b : B)
      → continue r f ≡ (ok b, t)
      → (a : A) × (u : S) × (r ≡ (ok a, u)) × (f a u ≡ (ok b, t))
  continue-ok (ok a, u) f t b h = (a, u, refl, h)
  continue-ok (err x, u) f t b h = cc h

  -- A sequence that returns has run both of its parts.
  pub bind-ok :
      (m : Exec S E A) (f : A → Exec S E B) (s t : S) (b : B)
      → (m >>= f) s ≡ (ok b, t)
      → (a : A) × (u : S) × (m s ≡ (ok a, u)) × (f a u ≡ (ok b, t))
  bind-ok m f s t b h = continue-ok (m s) f t b h

  -- The same for a goal, so that a chain of steps stays small.
  pub bind-elim {κ} :
      (Goal : Type κ) (m : Exec S E A) (f : A → Exec S E B) (s t : S) (b : B)
      → (m >>= f) s ≡ (ok b, t)
      → ((a : A) (u : S) → m s ≡ (ok a, u) → f a u ≡ (ok b, t) → Goal)
      → Goal
  bind-elim Goal m f s t b h step = let (a, u, e, k) = bind-ok m f s t b h in step a u e k

  continue-cases {κ} :
      (Goal : Type κ) (q : Result E A × S) (f : A → Exec S E B) (r : Result E B) (t : S)
      → continue q f ≡ (r, t)
      → ((x : E) → q ≡ (err x, t) → r ≡ err x → Goal)
      → ((a : A) (u : S) → q ≡ (ok a, u) → f a u ≡ (r, t) → Goal)
      → Goal
  continue-cases Goal (ok a, u) f r t h fails goes = goes a u refl h
  continue-cases Goal (err x, u) f r t h fails goes =
      fails x (ap (λ y. (err x, y.1)) h) (sym (ap (λ y. y.0) h))

  -- A sequence that ends in any way: its first part has failed, or it has run the second.
  pub bind-cases {κ} :
      (Goal : Type κ) (m : Exec S E A) (f : A → Exec S E B) (s t : S) (r : Result E B)
      → (m >>= f) s ≡ (r, t)
      → ((x : E) → m s ≡ (err x, t) → r ≡ err x → Goal)
      → ((a : A) (u : S) → m s ≡ (ok a, u) → f a u ≡ (r, t) → Goal)
      → Goal
  bind-cases Goal m f s t r h fails goes = continue-cases Goal (m s) f r t h fails goes

  -- A part of the state that both parts of a sequence keep.
  pub bind-keeps {κ} :
      {C : Type κ} (part : S → C) (m : Exec S E A) (f : A → Exec S E B)
      → ((s : S) → part (m s).1 ≡ part s)
      → ((a : A) (s : S) → part (f a s).1 ≡ part s)
      → (s : S) → part ((m >>= f) s).1 ≡ part s
  bind-keeps part m f hm hf s = continue-keeps part (m s) f hf ∙ hm s
