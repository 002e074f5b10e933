-- ===== src/Common/Cases.antt =====
-- Case analysis on a test or an option inside a property: the value is split and the equation kept.
use mathlib.Core.Path.{◌≡◌, refl}
use mathlib.Core.Bool.{Bool, true, false}
use mathlib.Core.Option.{Option, none, some}
use u.Common.Tests.{if◌then◌else◌}
use u.Common.Status.{Result, ok, err}
use Prim.Native.Nat.{ℕ}

module _ {ℓ κ} {R : Type ℓ} (P : R → Type κ) where
  pub if_case : (b : Bool) (x y : R) → (b ≡ true → P x) → (b ≡ false → P y) → P (if b then x else y)
  if_case true x y hx hy = hx refl
  if_case false x y hx hy = hy refl

  pub option_case {μ} :
      {A : Type μ} (o : Option A) (x : R) (f : A → R)
      → (o ≡ none → P x)
      → ((a : A) → o ≡ some a → P (f a))
      → P (elim o [ none ↦ x | some a ↦ f a ])
  option_case none x f hx hf = hx refl
  option_case (some a) x f hx hf = hf a refl

  pub result_case {μ} :
      {A : Type μ} (r : Result A) (f : ℕ → R) (g : A → R)
      → ((e : ℕ) → r ≡ err e → P (f e))
      → ((a : A) → r ≡ ok a → P (g a))
      → P (elim r [ err e ↦ f e | ok a ↦ g a ])
  result_case (err e) f g hf hg = hf e refl
  result_case (ok a) f g hf hg = hg a refl

module _ {ℓ} {R : Type ℓ} where
  pub if_true : {b : Bool} (x y : R) → b ≡ true → (if b then x else y) ≡ x
  if_true x y e = rw e

  pub if_false : {b : Bool} (x y : R) → b ≡ false → (if b then x else y) ≡ y
  if_false x y e = rw e

  pub option_none {μ} :
      {A : Type μ} {o : Option A} (x : R) (f : A → R)
      → o ≡ none
      → elim o [ none ↦ x | some a ↦ f a ] ≡ x
  option_none x f e = rw e

  pub option_some {μ} :
      {A : Type μ} {o : Option A} (x : R) (f : A → R) {a : A}
      → o ≡ some a
      → elim o [ none ↦ x | some a ↦ f a ] ≡ f a
  option_some x f e = rw e

  pub result_ok {μ} :
      {A : Type μ} {r : Result A} (f : ℕ → R) (g : A → R) {a : A}
      → r ≡ ok a
      → elim r [ err e ↦ f e | ok a ↦ g a ] ≡ g a
  result_ok f g e = rw e
