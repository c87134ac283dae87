-- ===== src/Base/Text.antt =====
-- Texts as lists of bytes, with the parts of `std::string` and `std::to_string` that the program uses.
use Prim.Native.Nat.{ℕ, zero, suc, ◌+◌, ◌-◌, ◌*◌, ◌/◌, ◌%◌, ◌<◌}
use Prim.Native.Char.{code}
use Prim.Native.String.{String}
use mathlib.Core.Path.{◌≡◌, refl, ap, ap₂}
use mathlib.Core.Logic.{inl, inr}
use mathlib.Core.Bool.{Bool, true, false, ◌&&◌}
use mathlib.Core.List.{List, [], ◌∷◌, ◌++◌}
use mathlib.Core.Option.{Option, none, some, map}
use native.Mathlib.Omega.{arith}
use vicold_hybrid_ai.Base.Tests.{
  ◌==◌, ltb, leb, if◌then◌else◌, ◌>>=◌, ==_self, ==_iff, both, Bool-cases,
}
use vicold_hybrid_ai.Base.Lists.{length, drop, length-append, All, All-append}

-- The code points of a literal: its bytes, if it is ASCII.
abbrev pub codes : String → List ℕ
codes String.[] = []
codes (String.◌∷◌ c s) = code c ∷ codes s

abbrev pub starts_with : List ℕ → List ℕ → Bool
starts_with [] s = true
starts_with (p ∷ ps) [] = false
starts_with (p ∷ ps) (c ∷ cs) = (p == c) && starts_with ps cs

abbrev pub same_text : List ℕ → List ℕ → Bool
same_text [] [] = true
same_text (x ∷ xs) (y ∷ ys) = (x == y) && same_text xs ys
same_text _ _ = false

-- `s.size() >= suffix.size() && s.substr(s.size() - suffix.size()) == suffix`
abbrev pub ends_with : List ℕ → List ℕ → Bool
ends_with suffix s =
    leb (length suffix) (length s) && same_text (drop (length s - length suffix) s) suffix

-- The index of the first occurrence.
abbrev pub find_byte : ℕ → List ℕ → Option ℕ
find_byte b [] = none
find_byte b (c ∷ cs) = if b == c then some 0 else map suc (find_byte b cs)

-- `std::to_string` of a number that is not negative.
unfoldable pub digits : ℕ → ℕ → List ℕ
digits zero n = []
digits (suc fuel) n =
    let rest = digits fuel (n / 10) in (if ltb n 10 then [] else rest) ++ (48 + n % 10) ∷ []

abbrev pub decimal : ℕ → List ℕ
decimal n = digits (suc n) n

abbrev pub is_digit : ℕ → Bool
is_digit c = leb 48 c && leb c 57

-- The value of digits after `acc`, if there is no other byte.
abbrev pub value : ℕ → List ℕ → Option ℕ
value acc [] = some acc
value acc (c ∷ cs) = if is_digit c then value (acc * 10 + (c - 48)) cs else none

pub starts_with-append : (p s : List ℕ) → starts_with p (p ++ s) ≡ true
starts_with-append [] s = refl
starts_with-append (x ∷ p) s = rw (starts_with, ==_self x) (starts_with-append p s)

pub drop-append : (p s : List ℕ) → drop (length p) (p ++ s) ≡ s
drop-append [] s = refl
drop-append (x ∷ p) s = drop-append p s

pub same_text_self : (s : List ℕ) → same_text s s ≡ true
same_text_self [] = refl
same_text_self (x ∷ s) = rw (same_text, ==_self x) (same_text_self s)

pub ends_with-append : (s suffix : List ℕ) → ends_with suffix (s ++ suffix) ≡ true
ends_with-append s suffix =
    let size : leb (length suffix) (length (s ++ suffix)) ≡ true =
      ground (arith, length-append s suffix) in
    let at : length (s ++ suffix) - length suffix ≡ length s =
      omega (arith, length-append s suffix) in
    rw (size, at, drop-append s suffix) (same_text_self suffix)

value-append :
    (acc : ℕ) (xs ys : List ℕ) → value acc (xs ++ ys) ≡ (value acc xs >>= λ v. value v ys)
value-append acc [] ys = refl
value-append acc (x ∷ xs) ys = elim (Bool-cases (is_digit x)) [
  | inl digit ↦ rw digit (value-append (acc * 10 + (x - 48)) xs ys)
  | inr other ↦ rw other refl
]

last_digit : (n : ℕ) → is_digit (48 + n % 10) ≡ true
last_digit n = ground arith

value-digits : (fuel n : ℕ) → n < fuel → value 0 (digits fuel n) ≡ some n
unfolding digits
value-digits zero n lt = absurd (omega arith)
value-digits (suc fuel) n lt = elim (Bool-cases (ltb n 10)) [
  | inl small ↦ rw (digits, small) (rw (last_digit n) (ap some (ground arith)))
  | inr large ↦
      let rest : value 0 (digits fuel (n / 10)) ≡ some (n / 10) =
        value-digits fuel (n / 10) (ground arith) in
      rw (digits, large, value-append 0 (digits fuel (n / 10)) ((48 + n % 10) ∷ []), rest)
        (rw (last_digit n) (ap some (omega arith)))
]

pub value-decimal : (n : ℕ) → value 0 (decimal n) ≡ some n
value-decimal n = value-digits (suc n) n (omega arith)

pub digits-IsDigit : (fuel n : ℕ) → All (λ c. is_digit c ≡ true) (digits fuel n)
unfolding digits
digits-IsDigit zero n = tt
digits-IsDigit (suc fuel) n = elim (Bool-cases (ltb n 10)) [
  | inl small ↦ rw (digits, small) (last_digit n, tt)
  | inr large ↦
      rw (digits, large)
        (All-append (λ c. is_digit c ≡ true) (digits fuel (n / 10)) ((48 + n % 10) ∷ [])
          (digits-IsDigit fuel (n / 10)) (last_digit n, tt))
]

pub find_byte-append :
    (b : ℕ) (xs ys : List ℕ)
    → All (λ c. is_digit c ≡ true) xs
    → is_digit b ≡ false
    → find_byte b (xs ++ b ∷ ys) ≡ some (length xs)
find_byte-append b [] ys _ other = rw (find_byte, ==_self b) refl
find_byte-append b (x ∷ xs) ys (d, ds) other =
    let apart : (b == x) ≡ false = ground arith in
    rw (apart, find_byte-append b xs ys ds other) refl

pub decimal-nonempty : (n : ℕ) → 0 < length (decimal n)
unfolding digits
decimal-nonempty n =
    omega (arith, length-append (if ltb n 10 then [] else digits n (n / 10)) ((48 + n % 10) ∷ []))

pub same_text-path : (xs ys : List ℕ) → same_text xs ys ≡ true → xs ≡ ys
same_text-path [] [] h = refl
same_text-path [] (y ∷ ys) h = absurd (cc)
same_text-path (x ∷ xs) [] h = absurd (cc)
same_text-path (x ∷ xs) (y ∷ ys) h =
    let (here, rest) = both (x == y) (same_text xs ys) h in
    ap₂ (λ a b. a ∷ b) ((==_iff x y).0 here) (same_text-path xs ys rest)
