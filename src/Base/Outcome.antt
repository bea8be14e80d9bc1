-- ===== src/Base/Outcome.antt =====
-- Code that may raise: a value or the exception.
use mathlib.Core.Path.{◌≡◌, refl, subst}
use mathlib.Core.Logic.{◌⊎◌, inl, inr}
use mathlib.Core.Bool.{Bool, true, false}

pub data Result {ℓ} (E A : Type ℓ) : Type ℓ where
  ok : A → Result E A
  err : E → Result E A

infixl 5 ◌>>=◌ ◌>>◌
abbrev pub ◌>>=◌ {ℓ} : {E A B : Type ℓ} → Result E A → (A → Result E B) → Result E B
ok value >>= next = next value
err raised >>= next = err raised

abbrev pub ◌>>◌ {ℓ} : {E B : Type ℓ} → Result E (Unit {ℓ}) → Result E B → Result E B
first >> next = first >>= λ _. next

-- Inversion of a chain that returned.
pub >>=-eq-ok {ℓ} :
    {E A B : Type ℓ} (first : Result E A) (next : A → Result E B) {result : B}
    → (first >>= next) ≡ ok result
    → (value : A) × (first ≡ ok value) × (next value ≡ ok result)
>>=-eq-ok (ok value) next e = (value, refl, e)
>>=-eq-ok (err raised) next e = cc

pub >>=-eq-err {ℓ} :
    {E A B : Type ℓ} (first : Result E A) (next : A → Result E B) {e : E}
    → (first >>= next) ≡ err e
    → (first ≡ err e) ⊎ ((value : A) × (first ≡ ok value) × (next value ≡ err e))
>>=-eq-err (ok value) next h = inr (value, refl, h)
>>=-eq-err (err raised) next h = inl (cc h)

-- `if not b: raise e`
abbrev pub guard {ℓ} : {E : Type ℓ} → Bool → E → Result E (Unit {ℓ})
guard true e = ok tt
guard false e = err e

-- What holds of the value, when there is one.
abbrev pub Ensures {ℓ κ} : {E A : Type ℓ} → (A → Type κ) → Result E A → Type κ
Ensures P (ok a) = P a
Ensures P (err e) = Unit

pub Ensures-bind {ℓ κ} :
    {E A B : Type ℓ} (P : B → Type κ) (m : Result E A) (f : A → Result E B)
    → ((a : A) → m ≡ ok a → Ensures P (f a))
    → Ensures P (m >>= f)
Ensures-bind P (ok a) f h = h a refl
Ensures-bind P (err e) f h = tt

pub Ensures-each {ℓ κ} :
    {E A : Type ℓ} (P : A → Type κ) (m : Result E A) → ((a : A) → m ≡ ok a → P a) → Ensures P m
Ensures-each P (ok a) h = h a refl
Ensures-each P (err e) h = tt

pub Ensures-guard {ℓ κ} :
    {E B : Type ℓ} (P : B → Type κ) (b : Bool) (e : E) (m : Result E B)
    → (b ≡ true → Ensures P m)
    → Ensures P (guard b e >> m)
Ensures-guard P true e m h = h refl
Ensures-guard P false e m h = tt

pub Ensures-ok {ℓ κ} :
    {E A : Type ℓ} (P : A → Type κ) (m : Result E A) (a : A) → m ≡ ok a → Ensures P m → P a
Ensures-ok {E = E} P (ok b) a e h = subst (λ (m : Result E _). Ensures P m) e h
Ensures-ok P (err x) a e h = cc

pub Ensures-weaken {ℓ κ} :
    {E A : Type ℓ} (P Q : A → Type κ)
    → ((a : A) → P a → Q a)
    → (m : Result E A) → Ensures P m
    → Ensures Q m
Ensures-weaken P Q step (ok a) h = step a h
Ensures-weaken P Q step (err e) h = tt
