-- ===== src/Prelude/Results.antt =====
-- `Result` with its chaining by `?`.
use mathlib.Core.Path.{◌≡◌, refl}
use mathlib.Core.Logic.{◌⊎◌, inl, inr}
use mathlib.Core.Option.{Option, none, some}

pub data Result {ℓ κ} (E : Type ℓ) (A : Type κ) : Type (ℓ ⊔ κ) where
  ok : A → Result E A
  err : E → Result E A

-- The operator `?`, on an outcome and on what is done with its value.
module _ {ℓ κ μ} {Error : Type ℓ} {From : Type κ} {To : Type μ} where
  infixl 5 ◌>>=◌
  abbrev pub ◌>>=◌ : Result Error From → (From → Result Error To) → Result Error To
  err reason >>= next = err reason
  ok value >>= next = next value

  pub >>=-eq-ok :
      (outcome : Result Error From) (next : From → Result Error To) {last : To}
      → (outcome >>= next) ≡ ok last
      → (value : From) × (outcome ≡ ok value) × (next value ≡ ok last)
  >>=-eq-ok (err reason) next reached = cc
  >>=-eq-ok (ok value) next reached = (value, refl, reached)

-- The same, where the value is the unit.
module _ {ℓ κ} {Error : Type ℓ} {To : Type κ} where
  infixl 5 ◌>>◌
  abbrev pub ◌>>◌ : Result Error (Unit {0}) → Result Error To → Result Error To
  check >> result = check >>= λ passed. result

-- `map_err`, and the `From` conversion that `?` makes.
abbrev pub map_err {ℓ κ μ} :
    {E : Type ℓ} {F : Type κ} {A : Type μ} → (E → F) → Result E A → Result F A
map_err f (ok a) = ok a
map_err f (err e) = err (f e)

-- `ok_or`
abbrev pub ok_or {ℓ κ} : {E : Type ℓ} {A : Type κ} → E → Option A → Result E A
ok_or e none = err e
ok_or e (some a) = ok a

pub Result-cases {ℓ κ} :
    {E : Type ℓ} {A : Type κ} (r : Result E A) → ((a : A) × (r ≡ ok a)) ⊎ ((e : E) × (r ≡ err e))
Result-cases (ok a) = inl (a, refl)
Result-cases (err e) = inr (e, refl)

pub ok-injective {ℓ κ} :
    {E : Type ℓ} {A : Type κ} {a b : A} → ◌≡◌ {A = Result E A} (ok a) (ok b) → a ≡ b
ok-injective h = cc

pub ok_or-ok {ℓ κ} :
    {E : Type ℓ} {A : Type κ} (e : E) (o : Option A) {a : A} → ok_or e o ≡ ok a → o ≡ some a
ok_or-ok e none h = cc
ok_or-ok e (some b) h = cc

pub map_err-ok {ℓ κ μ} :
    {E : Type ℓ} {F : Type κ} {A : Type μ} (f : E → F) (r : Result E A) {a : A}
    → map_err f r ≡ ok a
    → r ≡ ok a
map_err-ok f (ok b) h = cc
map_err-ok f (err e) h = cc
