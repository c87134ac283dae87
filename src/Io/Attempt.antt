-- ===== src/Io/Attempt.antt =====
-- The outcome of a call in src/io: a Status and its result, or an exception of the JSON library that
-- the call does not catch.
use vicold_hybrid_ai.Base.{Bool, true, false, Option, none, some, ◌≡◌, refl, subst}
use vicold_hybrid_ai.Core.{StatusCode}

pub data Attempt {ℓ} (A : Type ℓ) : Type ℓ where
  done : A → Attempt A
  failed : StatusCode → Attempt A
  thrown : Attempt A

infixl 5 ◌>>=◌ ◌>>◌
abbrev pub ◌>>=◌ {ℓ κ} : {A : Type ℓ} {B : Type κ} → Attempt A → (A → Attempt B) → Attempt B
done a >>= f = f a
failed code >>= f = failed code
thrown >>= f = thrown

abbrev pub ◌>>◌ {ℓ κ} : {A : Type ℓ} {B : Type κ} → Attempt A → Attempt B → Attempt B
m >> k = m >>= λ _. k

abbrev pub check : Bool → StatusCode → Attempt (Unit {0})
check true code = done tt
check false code = failed code

abbrev pub or_failed {ℓ} : {A : Type ℓ} → StatusCode → Option A → Attempt A
or_failed code (some a) = done a
or_failed code none = failed code

abbrev pub or_thrown {ℓ} : {A : Type ℓ} → Option A → Attempt A
or_thrown (some a) = done a
or_thrown none = thrown

done-injective {ℓ} : {A : Type ℓ} (a b : A) → ◌≡◌ {A = Attempt A} (done a) (done b) → a ≡ b
done-injective a b h = cc

-- What a success gives has a property.
abbrev pub Ensures {ℓ κ} : {A : Type ℓ} → (A → Type κ) → Attempt A → Type κ
Ensures P (done a) = P a
Ensures P (failed code) = Unit
Ensures P thrown = Unit

pub Ensures-bind {ℓ κ μ} :
    {A : Type ℓ} {B : Type κ} (P : B → Type μ) (m : Attempt A) (f : A → Attempt B)
    → ((a : A) → m ≡ done a → Ensures P (f a))
    → Ensures P (m >>= f)
Ensures-bind P (done a) f k = k a refl
Ensures-bind P (failed code) f k = tt
Ensures-bind P thrown f k = tt

pub Ensures-check {κ μ} :
    {B : Type κ} (P : B → Type μ) (t : Bool) (code : StatusCode) (k : Attempt B)
    → (t ≡ true → Ensures P k)
    → Ensures P (check t code >> k)
Ensures-check P true code k f = f refl
Ensures-check P false code k f = tt

pub Ensures-path {ℓ κ} :
    {A : Type ℓ} (P : A → Type κ) (m : Attempt A) (a : A) → Ensures P m → m ≡ done a → P a
Ensures-path P (done b) a h e = subst P (done-injective b a e) h
Ensures-path P (failed code) a h e = absurd (cc)
Ensures-path P thrown a h e = absurd (cc)

pub or_failed-path {ℓ} :
    {A : Type ℓ} (code : StatusCode) (o : Option A) (a : A) → or_failed code o ≡ done a → o ≡ some a
or_failed-path code (some b) a h = cc
or_failed-path code none a h = absurd (cc)
