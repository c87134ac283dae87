-- ===== src/Core/Status.antt =====
-- src/core/status.h. A function that returns a `Status` and fills an output parameter returns a
-- `Result`; the texts of the messages are left out.
use vicold_hybrid_ai.Base.{Bool, true, false, ◌≡◌, refl, subst, ◌⊎◌, inl, inr}

pub data StatusCode : Type 0 where
  invalid_argument out_of_memory not_implemented internal_error : StatusCode
  invalid_device unsupported_d_type file_not_found invalid_model : StatusCode
  backend_error unknown : StatusCode

pub data Result {ℓ} (A : Type ℓ) : Type ℓ where
  ok : A → Result A
  err : StatusCode → Result A

infixl 5 ◌>>=◌ ◌>>◌
abbrev pub ◌>>=◌ {ℓ κ} : {A : Type ℓ} {B : Type κ} → Result A → (A → Result B) → Result B
ok a >>= f = f a
err e >>= f = err e

abbrev pub ◌>>◌ {ℓ κ} : {A : Type ℓ} {B : Type κ} → Result A → Result B → Result B
m >> k = m >>= λ _. k

-- `if (!test) return Status(code, ...)`
abbrev pub require : Bool → StatusCode → Result (Unit {0})
require true code = ok tt
require false code = err code

abbrev pub is_ok {ℓ} : {A : Type ℓ} → Result A → Bool
is_ok (ok a) = true
is_ok (err e) = false

-- A successful chain is taken apart, its parts handed on as variables.
pub >>=-elim {ℓ κ μ} :
    {A : Type ℓ} {B : Type κ} {R : Type μ} (m : Result A) (f : A → Result B) {b : B}
    → (m >>= f) ≡ ok b
    → ((a : A) → m ≡ ok a → f a ≡ ok b → R)
    → R
>>=-elim (ok a) f h k = k a refl h
>>=-elim (err e) f h k = absurd (cc)

pub require-elim {ℓ κ} :
    {B : Type ℓ} {R : Type κ} (t : Bool) (code : StatusCode) (k : Result B) {b : B}
    → (require t code >> k) ≡ ok b
    → (t ≡ true → k ≡ ok b → R)
    → R
require-elim true code k h f = f refl h
require-elim false code k h f = absurd (cc)

pub ok-injective {ℓ} : {A : Type ℓ} {a b : A} → ◌≡◌ {A = Result A} (ok a) (ok b) → a ≡ b
ok-injective h = cc

pub Result-cases {ℓ} :
    {A : Type ℓ} (r : Result A) → ((a : A) × (r ≡ ok a)) ⊎ ((e : StatusCode) × (r ≡ err e))
Result-cases (ok a) = inl (a, refl)
Result-cases (err e) = inr (e, refl)

-- What a success gives has a property.
abbrev pub Ensures {ℓ κ} : {A : Type ℓ} → (A → Type κ) → Result A → Type κ
Ensures P (ok a) = P a
Ensures P (err code) = Unit

pub Ensures-bind {ℓ κ μ} :
    {A : Type ℓ} {B : Type κ} (P : B → Type μ) (m : Result A) (f : A → Result B)
    → ((a : A) → m ≡ ok a → Ensures P (f a))
    → Ensures P (m >>= f)
Ensures-bind P (ok a) f k = k a refl
Ensures-bind P (err code) f k = tt

pub Ensures-require {κ μ} :
    {B : Type κ} (P : B → Type μ) (t : Bool) (code : StatusCode) (k : Result B)
    → (t ≡ true → Ensures P k)
    → Ensures P (require t code >> k)
Ensures-require P true code k f = f refl
Ensures-require P false code k f = tt

pub Ensures-path {ℓ κ} :
    {A : Type ℓ} (P : A → Type κ) (m : Result A) (a : A) → Ensures P m → m ≡ ok a → P a
Ensures-path P (ok b) a h e = subst P (ok-injective e) h
Ensures-path P (err code) a h e = absurd (cc)

-- A step whose result has a property is followed by one that may use it.
pub Ensures-then {ℓ κ ν μ} :
    {A : Type ℓ} {B : Type κ} (Q : A → Type ν) (P : B → Type μ) (m : Result A) (f : A → Result B)
    → Ensures Q m
    → ((a : A) → Q a → Ensures P (f a))
    → Ensures P (m >>= f)
Ensures-then Q P (ok a) f q k = k a q
Ensures-then Q P (err code) f q k = tt

pub Ensures-of {ℓ κ} :
    {A : Type ℓ} (P : A → Type κ) (m : Result A) → ((a : A) → m ≡ ok a → P a) → Ensures P m
Ensures-of P (ok a) h = h a refl
Ensures-of P (err code) h = tt

pub Ensures-imp {ℓ κ μ} :
    {A : Type ℓ} (Q : A → Type κ) (P : A → Type μ) (m : Result A)
    → Ensures Q m
    → ((a : A) → Q a → Ensures P (ok a))
    → Ensures P m
Ensures-imp Q P (ok a) q f = f a q
Ensures-imp Q P (err code) q f = tt
