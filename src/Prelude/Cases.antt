-- ===== src/Prelude/Cases.antt =====
-- A predicate on the result of a test, from what each branch gives.
use mathlib.Core.Path.{◌≡◌, refl}
use mathlib.Core.Bool.{Bool, true, false, not}
use mathlib.Core.Option.{Option, none, some}
use bit_cord.Prelude.Tests.{if◌then◌else◌}

pub if_cases :
    {A : Type 0} (P : A → Type 0) (b : Bool) (x y : A)
    → (b ≡ true → P x)
    → (b ≡ false → P y)
    → P (if b then x else y)
if_cases P true x y h k = h refl
if_cases P false x y h k = k refl

pub not_cases :
    {A : Type 0} (P : A → Type 0) (b : Bool) (x y : A)
    → (b ≡ false → P x)
    → (b ≡ true → P y)
    → P (if not b then x else y)
not_cases P true x y h k = k refl
not_cases P false x y h k = h refl

pub elim_cases :
    {A B : Type 0} (P : B → Type 0) (o : Option A) (x : B) (f : A → B)
    → (o ≡ none → P x)
    → ((a : A) → o ≡ some a → P (f a))
    → P (elim o as (λ _. B) [ none ↦ x | some a ↦ f a ])
elim_cases P none x f h k = h refl
elim_cases P (some a) x f h k = k a refl
