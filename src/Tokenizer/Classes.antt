-- ===== src/Tokenizer/Classes.antt =====
-- src/tokenizer/unicode_utils.cc: the classes of code points.
pub mod Tables
use vicold_hybrid_ai.Base.{
  or_true, ℕ, zero, suc, ◌≤◌, ◌≡◌, refl, subst, Bool, true, false, ◌&&◌, ◌||◌, not, some, List, [],
  ◌∷◌, get_elem?, ltb, leb, ◌==◌, if◌then◌else◌, arith, ap, ==_self, ◌∙◌, sym,
}
use mathlib.Core.Option.{some-injective}

pub record Range : Type 0 where
  pub first : ℕ
  pub last : ℕ
  pub kind : ℕ

abbrev pub letters : ℕ → ℕ → Range
letters first last = record { first = first; last = last; kind = 1 }

abbrev pub numbers : ℕ → ℕ → Range
numbers first last = record { first = first; last = last; kind = 2 }

abbrev marks : ℕ → ℕ → Range
marks first last = record { first = first; last = last; kind = 3 }

abbrev pub k_ranges : List Range
k_ranges =
    letters 65 90
    ∷ letters 97 122
    ∷ letters 192 214
    ∷ letters 216 246
    ∷ letters 248 255
    ∷ letters 256 591
    ∷ letters 592 687
    ∷ letters 880 1023
    ∷ letters 1024 1279
    ∷ letters 1280 1327
    ∷ letters 1328 1423
    ∷ letters 1424 1535
    ∷ letters 1536 1791
    ∷ marks 768 879
    ∷ marks 6832 6911
    ∷ marks 7616 7679
    ∷ letters 2304 2431
    ∷ letters 2432 2559
    ∷ letters 2944 3071
    ∷ letters 3072 3199
    ∷ letters 3200 3327
    ∷ letters 3584 3711
    ∷ letters 3712 3839
    ∷ letters 3840 4095
    ∷ letters 4256 4351
    ∷ letters 4352 4607
    ∷ letters 13312 19903
    ∷ letters 19968 40959
    ∷ letters 131072 173791
    ∷ letters 173824 177983
    ∷ letters 177984 178207
    ∷ letters 178208 183983
    ∷ letters 183984 191471
    ∷ letters 63744 64255
    ∷ letters 194560 195103
    ∷ letters 44032 55215
    ∷ letters 12352 12447
    ∷ letters 12448 12543
    ∷ letters 12784 12799
    ∷ letters 12544 12591
    ∷ letters 12704 12735
    ∷ letters 40960 42127
    ∷ letters 5024 5119
    ∷ letters 4608 4991
    ∷ numbers 48 57
    ∷ numbers 1632 1641
    ∷ numbers 1776 1785
    ∷ numbers 1984 1993
    ∷ numbers 2406 2415
    ∷ numbers 2534 2543
    ∷ numbers 2918 2927
    ∷ numbers 3046 3055
    ∷ numbers 3174 3183
    ∷ numbers 3302 3311
    ∷ numbers 3430 3439
    ∷ numbers 3664 3673
    ∷ numbers 3792 3801
    ∷ numbers 3872 3881
    ∷ numbers 65296 65305
    ∷ []

abbrev pub k_whitespace : List ℕ
k_whitespace =
    9 ∷ 10 ∷ 11 ∷ 12 ∷ 13 ∷ 32 ∷ 133 ∷ 160 ∷ 5760 ∷ 8192 ∷ 8193 ∷ 8194 ∷ 8195 ∷ 8196 ∷ 8197 ∷ 8198
    ∷ 8199 ∷ 8200 ∷ 8201 ∷ 8202 ∷ 8232 ∷ 8233 ∷ 8239 ∷ 8287 ∷ 12288 ∷ 6158 ∷ []

abbrev pub is_within : Range → ℕ → ℕ → Bool
is_within r cp kind = (r.kind == kind) && leb r.first cp && leb cp r.last

-- The scans of the two tables.
abbrev pub scan_ranges : List Range → ℕ → ℕ → Bool
scan_ranges [] cp kind = false
scan_ranges (r ∷ rs) cp kind = is_within r cp kind || scan_ranges rs cp kind

abbrev pub scan_whitespace : List ℕ → ℕ → Bool
scan_whitespace [] cp = false
scan_whitespace (w ∷ ws) cp = (cp == w) || scan_whitespace ws cp

unfoldable pub is_in_ranges : ℕ → ℕ → Bool
is_in_ranges cp kind = scan_ranges k_ranges cp kind

unfoldable pub is_whitespace_cpt : ℕ → Bool
is_whitespace_cpt cp = scan_whitespace k_whitespace cp

pub record CodepointFlags : Type 0 where
  pub is_defined : Bool
  pub is_whitespace : Bool
  pub is_letter : Bool
  pub is_number : Bool
  pub is_mark : Bool

abbrev pub defined : ℕ → Bool
defined cp = ltb cp 1114112 && (ltb cp 55296 || ltb 57343 cp)

abbrev pub no_class : ℕ → CodepointFlags
no_class cp = record {
  is_defined = defined cp;
  is_whitespace = false;
  is_letter = false;
  is_number = false;
  is_mark = false;
}

unfoldable pub codepoint_flags : ℕ → CodepointFlags
codepoint_flags cp =
    if is_whitespace_cpt cp
    then record (no_class cp) { is_whitespace = true }
    else if is_in_ranges cp 1
    then record (no_class cp) { is_letter = true }
    else if is_in_ranges cp 2
    then record (no_class cp) { is_number = true }
    else if is_in_ranges cp 3
    then record (no_class cp) { is_mark = true }
    else no_class cp

-- The class of a code point, from the tables alone: white space first, then letters, numbers and marks.
abbrev pub HasClass : Bool → Bool → Bool → Bool → ℕ → CodepointFlags → Type 0
HasClass white letter number mark cp f =
    (f.is_defined ≡ defined cp)
    × (f.is_whitespace ≡ white)
    × (f.is_letter ≡ (not white && letter))
    × (f.is_number ≡ (not white && not letter && number))
    × (f.is_mark ≡ (not white && not letter && not number && mark))

abbrev pub IsClassified : ℕ → CodepointFlags → Type 0
IsClassified cp f =
    HasClass (is_whitespace_cpt cp) (is_in_ranges cp 1) (is_in_ranges cp 2) (is_in_ranges cp 3) cp f

first_class :
    (white letter number mark : Bool) (cp : ℕ)
    → HasClass white letter number mark cp (
        if white
        then record (no_class cp) { is_whitespace = true }
        else if letter
        then record (no_class cp) { is_letter = true }
        else if number
        then record (no_class cp) { is_number = true }
        else if mark
        then record (no_class cp) { is_mark = true }
        else no_class cp)
first_class true letter number mark cp = (refl, refl, refl, refl, refl)
first_class false true number mark cp = (refl, refl, refl, refl, refl)
first_class false false true mark cp = (refl, refl, refl, refl, refl)
first_class false false false true cp = (refl, refl, refl, refl, refl)
first_class false false false false cp = (refl, refl, refl, refl, refl)

-- Every code point is in one class at most, the first whose table holds it, and the flag of a defined
-- code point does not depend on the class.
pub codepoint_flags-IsClassified : (cp : ℕ) → IsClassified cp (codepoint_flags cp)
unfolding codepoint_flags
codepoint_flags-IsClassified cp =
    first_class (is_whitespace_cpt cp) (is_in_ranges cp 1) (is_in_ranges cp 2) (is_in_ranges cp 3)
      cp

within :
    (r : Range) (cp : ℕ) (rs : List Range)
    → r.first ≤ cp
    → cp ≤ r.last
    → scan_ranges (r ∷ rs) cp r.kind ≡ true
within r cp rs lo hi = ground (arith, ==_self r.kind)

scan_ranges-found :
    (rs : List Range) (i : ℕ) (r : Range) (cp : ℕ)
    → get_elem? rs i ≡ some r
    → r.first ≤ cp
    → cp ≤ r.last
    → scan_ranges rs cp r.kind ≡ true
scan_ranges-found [] i r cp e lo hi = absurd (cc)
scan_ranges-found (x ∷ rs) zero r cp e lo hi =
    subst (λ (y : Range). scan_ranges (y ∷ rs) cp r.kind ≡ true) (sym (some-injective x r e))
      (within r cp rs lo hi)
scan_ranges-found (x ∷ rs) (suc i) r cp e lo hi =
    rw (scan_ranges-found rs i r cp e lo hi) (or_true (is_within x cp r.kind))

pub is_in_ranges-found :
    (i : ℕ) (r : Range) (cp kind : ℕ)
    → get_elem? k_ranges i ≡ some r
    → r.kind ≡ kind
    → r.first ≤ cp
    → cp ≤ r.last
    → is_in_ranges cp kind ≡ true
unfolding is_in_ranges
is_in_ranges-found i r cp kind e k lo hi =
    subst (λ k. scan_ranges k_ranges cp k ≡ true) k (scan_ranges-found k_ranges i r cp e lo hi)

letters_first : (white number : Bool) → (not white && not true && number) ≡ false
letters_first true number = refl
letters_first false number = refl

-- A range of numbers that lies in a range of letters is never reached: its code points are in the table
-- of numbers, and no code point of it is classified as a number.
pub codepoint_flags-shadowed :
    (i j : ℕ) (number letter : Range) (cp : ℕ)
    → get_elem? k_ranges i ≡ some number
    → number.kind ≡ 2
    → get_elem? k_ranges j ≡ some letter
    → letter.kind ≡ 1
    → letter.first ≤ number.first
    → number.last ≤ letter.last
    → number.first ≤ cp
    → cp ≤ number.last
    → (is_in_ranges cp 2 ≡ true) × ((codepoint_flags cp).is_number ≡ false)
codepoint_flags-shadowed i j number letter cp ei ki ej kj lo hi above below =
    let is_letter = is_in_ranges-found j letter cp 1 ej kj (omega arith) (omega arith) in
    let (_, _, _, n, _) = codepoint_flags-IsClassified cp in
    (
      is_in_ranges-found i number cp 2 ei ki above below,
      n
          ∙ ap (λ l. not (is_whitespace_cpt cp) && not l && is_in_ranges cp 2) is_letter
          ∙ letters_first (is_whitespace_cpt cp) (is_in_ranges cp 2),
    )
