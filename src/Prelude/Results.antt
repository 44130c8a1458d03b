-- ===== src/Prelude/Results.antt =====
-- What raises in the source returns a result: the value, or the error that was raised.
use mathlib.Core.Bool.{Bool, true, false}
use mathlib.Core.Path.{◌≡◌, refl}
use mathlib.Core.Logic.{◌↔◌}
use mathlib.Core.List.{List, [], ◌∷◌}
use qualityci.Prelude.Lists.{All}

pub data Result {ℓ κ} (E : Type ℓ) (A : Type κ) : Type (ℓ ⊔ κ) where
  ok : A → Result E A
  err : E → Result E A

module _ {ℓ κ μ} {E : Type ℓ} {A : Type κ} {B : Type μ} where
  infixl 5 ◌>>=◌ ◌>>◌
  abbrev pub ◌>>=◌ : Result E A → (A → Result E B) → Result E B
  ok a >>= f = f a
  err e >>= f = err e

  abbrev pub ◌>>◌ : Result E A → Result E B → Result E B
  ok a >> k = k
  err e >> k = err e

-- `if test: raise error`
abbrev pub raise_if {ℓ} : {E : Type ℓ} → Bool → E → Result E (Unit {0})
raise_if true e = err e
raise_if false e = ok tt

module _ {ℓ κ} {E : Type ℓ} {B : Type κ} where
  -- A check followed by more gives a value exactly when the check raises nothing and the rest gives
  -- the value.
  pub >>-eq-ok :
      (check : Result E (Unit {0})) (rest : Result E B) {b : B}
      → ((check >> rest) ≡ ok b) ↔ ((check ≡ ok tt) × (rest ≡ ok b))
  >>-eq-ok (ok tt) rest = (λ h. (refl, h), λ h. h.1)
  >>-eq-ok (err e) rest = (λ h. cc, λ h. cc (h.0))

  -- So too for a test that raises.
  pub raise_if-eq-ok :
      (test : Bool) (e : E) (rest : Result E B) {b : B}
      → ((raise_if test e >> rest) ≡ ok b) ↔ ((test ≡ false) × (rest ≡ ok b))
  raise_if-eq-ok true e rest = (λ h. cc, λ h. cc (h.0))
  raise_if-eq-ok false e rest = (λ h. (refl, h), λ h. h.1)

module _ {ℓ κ μ} {E : Type ℓ} {A : Type κ} {B : Type μ} where
  -- A step followed by more gives a value only if the step gives one and the rest of it the value.
  pub >>=-eq-ok :
      {value : B} (step : Result E A) (rest : A → Result E B)
      → (step >>= rest) ≡ ok value
      → (found : A) × (step ≡ ok found) × (rest found ≡ ok value)
  >>=-eq-ok (err raised) rest h = cc
  >>=-eq-ok (ok found) rest h = (found, refl, h)

pub ok_inj {ℓ κ} : {E : Type ℓ} {A : Type κ} {a b : A} → ◌≡◌ {A = Result E A} (ok a) (ok b) → a ≡ b
ok_inj h = cc

-- The errors of one part as errors of another.
abbrev pub on_error {ℓ κ μ} :
    {E : Type ℓ} {F : Type κ} {A : Type μ} → (E → F) → Result E A → Result F A
on_error f (ok a) = ok a
on_error f (err e) = err (f e)

pub on_error-eq-ok {ℓ κ μ} :
    {E : Type ℓ} {F : Type κ} {A : Type μ} (f : E → F) (m : Result E A) {a : A}
    → on_error f m ≡ ok a
    → m ≡ ok a
on_error-eq-ok f (ok b) h = cc
on_error-eq-ok f (err e) h = cc

module _ {κ} {E : Type 0} {A : Type κ} where
  -- `for x in xs: check(x)`
  unfoldable pub each : (A → Result E (Unit {0})) → List A → Result E (Unit {0})
  each check [] = ok tt
  each check (x ∷ xs) = check x >> each check xs

  -- The loop raises nothing exactly when no round raises.
  pub each-eq-ok :
      (check : A → Result E (Unit {0})) (xs : List A)
      → (each check xs ≡ ok tt) ↔ All (λ x. check x ≡ ok tt) xs
  unfolding each
  each-eq-ok check [] = (λ h. tt, λ h. refl)
  each-eq-ok check (x ∷ xs) =
      let ih = each-eq-ok check xs in
      let both = >>-eq-ok (check x) (each check xs) in
      (λ h. ((both.0 h).0, ih.0 (both.0 h).1), λ h. both.1 (h.0, ih.1 h.1))
