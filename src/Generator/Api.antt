-- ===== src/Generator/Api.antt =====
-- include/hybrid.h: the status, the options and the result of `Generator::generate`, and the proposal
-- width of src/generator.cc. The texts of the messages and the times are left out.
use vicold_hybrid_ai.Base.{
  ℕ, ◌-◌, ◌%◌, ◌≤◌, ◌<◌, ◌≡◌, refl, ap, ◌⊎◌, inl, inr, Bool, true, false, ◌||◌, ◌&&◌, Option, none,
  some, List, [], ◌∷◌, ◌==◌, leb, ltb, if◌then◌else◌, value, size_mod, ℤ, pos, negsuc, arith,
}
use mathlib.Core.Option.{map}

pub data ApiStatusCode : Type 0 where
  invalid_argument out_of_memory internal_error invalid_device : ApiStatusCode
  file_not_found invalid_model backend_error not_implemented unknown : ApiStatusCode

pub data ApiResult {ℓ} (A : Type ℓ) : Type ℓ where
  done : A → ApiResult A
  failed : ApiStatusCode → ApiResult A

pub record GenerationOptions : Type 0 where
  pub prompt : List ℕ
  pub max_new_tokens : ℤ
  pub use_chat_template : Bool
  pub enable_thinking : Bool
  pub enable_speculative_mtp : Bool

pub record GenerationResult : Type 0 where
  pub token_ids : List ℕ
  pub text : List ℕ
  pub prompt_tokens : ℕ
  pub mtp_proposed_tokens : ℕ
  pub mtp_accepted_tokens : ℕ
  pub mtp_fallback_steps : ℕ
  pub speculative_rounds : ℕ
  pub mtp_rejected_tokens : ℕ
  pub mtp_correction_tokens : ℕ
  pub speculative_replay_tokens : ℕ
  pub speculative_mtp_recovery_tokens : ℕ
  pub speculative_max_proposal_width : ℕ
  pub speculative_mtp_cache_clone_count : ℕ
  pub speculative_target_cache_clone_count : ℕ

-- The number of tokens that is asked for, if it is above 0.
abbrev pub positive : ℤ → Option ℕ
positive (pos n) = if n == 0 then none else some n
positive (negsuc n) = none

-- `std::strtoul` in base 10, where it reads the whole text. No digit counts as 0.
abbrev is_space : ℕ → Bool
is_space c = (c == 32) || (leb 9 c && leb c 13)

abbrev skip_spaces : List ℕ → List ℕ
skip_spaces [] = []
skip_spaces (c ∷ cs) = if is_space c then skip_spaces cs else c ∷ cs

abbrev saturate : Bool → ℕ → ℕ
saturate negative v =
    if leb size_mod v then size_mod - 1 else if negative then (size_mod - v) % size_mod else v

abbrev signed_value : Bool → List ℕ → Option ℕ
signed_value negative text = map (saturate negative) (value 0 text)

abbrev after_sign : List ℕ → Option ℕ
after_sign [] = signed_value false []
after_sign (c ∷ cs) =
    if c == 45
    then signed_value true cs
    else if c == 43
    then signed_value false cs
    else signed_value false (c ∷ cs)

abbrev pub strtoul : List ℕ → Option ℕ
strtoul text = after_sign (skip_spaces text)

abbrev pub default_width : ℕ
default_width = 8

abbrev pub max_width : ℕ
max_width = 16

abbrev pub accepted_width : Option ℕ → ℕ
accepted_width none = default_width
accepted_width (some parsed) =
    if (parsed == 0) || ltb max_width parsed then default_width else parsed

-- The argument is the variable HYBRIDAI_SPECULATIVE_WIDTH of the environment.
abbrev pub speculative_proposal_width : Option (List ℕ) → ℕ
speculative_proposal_width none = default_width
speculative_proposal_width (some text) = accepted_width (strtoul text)

infixl 5 ◌>>=◌ ◌>>◌
abbrev pub ◌>>=◌ {ℓ κ} : {A : Type ℓ} {B : Type κ} → ApiResult A → (A → ApiResult B) → ApiResult B
done a >>= f = f a
failed code >>= f = failed code

abbrev pub ◌>>◌ {ℓ κ} : {A : Type ℓ} {B : Type κ} → ApiResult A → ApiResult B → ApiResult B
m >> k = m >>= λ _. k

-- `if (!test) return {code, ...}`
abbrev pub require : Bool → ApiStatusCode → ApiResult (Unit {0})
require true code = done tt
require false code = failed code

abbrev pub or_failed {ℓ} : {A : Type ℓ} → Option A → ApiStatusCode → ApiResult A
or_failed (some a) code = done a
or_failed none code = failed code

-- Whatever the environment holds, a round proposes at least one token and at most `max_width`.
pub speculative_proposal_width-bounds :
    (variable : Option (List ℕ))
    → (0 < speculative_proposal_width variable) × (speculative_proposal_width variable ≤ max_width)
speculative_proposal_width-bounds none = (omega arith, omega arith)
speculative_proposal_width-bounds (some text) = accepted_width-bounds (strtoul text)
  where
    accepted_width-bounds :
        (parsed : Option ℕ) → (0 < accepted_width parsed) × (accepted_width parsed ≤ max_width)
    accepted_width-bounds none = (omega arith, omega arith)
    accepted_width-bounds (some parsed) = ground arith

pub require-elim {ℓ κ} :
    {B : Type ℓ} {R : Type κ} (t : Bool) (code : ApiStatusCode) (k : ApiResult B) {b : B}
    → (require t code >> k) ≡ done b
    → (t ≡ true → k ≡ done b → R)
    → R
require-elim true code k h f = f refl h
require-elim false code k h f = absurd (cc)

pub or_failed-elim {ℓ κ μ} :
    {A : Type ℓ} {B : Type κ} {R : Type μ} (o : Option A) (code : ApiStatusCode)
    (f : A → ApiResult B) {b : B}
    → (or_failed o code >>= f) ≡ done b
    → ((a : A) → o ≡ some a → f a ≡ done b → R)
    → R
or_failed-elim (some a) code f h k = k a refl h
or_failed-elim none code f h k = absurd (cc)

pub >>=-elim {ℓ κ μ} :
    {A : Type ℓ} {B : Type κ} {R : Type μ} (m : ApiResult A) (f : A → ApiResult B) {b : B}
    → (m >>= f) ≡ done b
    → ((a : A) → m ≡ done a → f a ≡ done b → R)
    → R
>>=-elim (done a) f h k = k a refl h
>>=-elim (failed code) f h k = absurd (cc)

pub done-injective {ℓ} : {A : Type ℓ} {a b : A} → ◌≡◌ {A = ApiResult A} (done a) (done b) → a ≡ b
done-injective h = cc

pub or_failed-done {ℓ} :
    {A : Type ℓ} (o : Option A) (code : ApiStatusCode) {a : A}
    → or_failed o code ≡ done a
    → o ≡ some a
or_failed-done (some a) code h = ap some (done-injective h)
or_failed-done none code h = absurd (cc)

pub failed-injective {ℓ} :
    {A : Type ℓ} {c d : ApiStatusCode} → ◌≡◌ {A = ApiResult A} (failed c) (failed d) → c ≡ d
failed-injective h = cc

pub ApiResult-cases {ℓ} :
    {A : Type ℓ} (r : ApiResult A)
    → ((a : A) × (r ≡ done a)) ⊎ ((code : ApiStatusCode) × (r ≡ failed code))
ApiResult-cases (done a) = inl (a, refl)
ApiResult-cases (failed code) = inr (code, refl)
