-- ===== src/Tokenizer/Classes/Tables.antt =====
-- src/tokenizer/unicode_utils.cc: what the flags of a code point say of the tables.
use mathlib.Core.Option.{some-injective}
use vicold_hybrid_ai.Base.{
  or_true, ℕ, zero, suc, ◌≤◌, ◌<◌, ◌≡◌, ◌⊎◌, ◌↔◌, inl, inr, refl, sym, ap, Bool, true, false, ◌&&◌,
  ◌||◌, not, both, some, List, [], ◌∷◌, get_elem?, ltb, leb, ◌==◌, ==_iff, ==_self, arith, ◌∙◌,
}
use vicold_hybrid_ai.Tokenizer.Classes.{
  Range, k_ranges, k_whitespace, is_within, scan_ranges, scan_whitespace, is_in_ranges,
  is_whitespace_cpt, CodepointFlags, codepoint_flags, is_in_ranges-found,
  codepoint_flags-IsClassified,
}

-- A range of a kind in the table holds the code point, its ends included.
abbrev pub InTable : ℕ → ℕ → Type 0
InTable kind cp =
    (i : ℕ) × (r : Range) × (get_elem? k_ranges i ≡ some r)
    × (r.kind ≡ kind)
    × (r.first ≤ cp)
    × (cp ≤ r.last)

abbrev pub IsWhite : ℕ → Type 0
IsWhite cp = (i : ℕ) × (get_elem? k_whitespace i ≡ some cp)

-- The flags that a code point is to have: of its classes the first, in the order of white space, letters,
-- numbers and marks; and it is defined below 0x110000, but for surrogates.
pub record HasFlags (cp : ℕ) (f : CodepointFlags) : Type 0 where
  pub is_defined : (f.is_defined ≡ true) ↔ ((cp < 1114112) × ((cp < 55296) ⊎ (57343 < cp)))
  pub white : (f.is_whitespace ≡ true) ↔ IsWhite cp
  pub letter : (f.is_letter ≡ true) ↔ ((IsWhite cp → ⊥) × InTable 1 cp)
  pub number : (f.is_number ≡ true) ↔ ((IsWhite cp → ⊥) × ((InTable 1 cp → ⊥) × InTable 2 cp))
  pub mark :
      (f.is_mark ≡ true)
      ↔ ((IsWhite cp → ⊥) × ((InTable 1 cp → ⊥) × ((InTable 2 cp → ⊥) × InTable 3 cp)))

either : (a b : Bool) → (a || b) ≡ true → (a ≡ true) ⊎ (b ≡ true)
either true b h = inl refl
either false b h = inr h

scan_whitespace-listed :
    (ws : List ℕ) (cp : ℕ) → scan_whitespace ws cp ≡ true → (i : ℕ) × (get_elem? ws i ≡ some cp)
scan_whitespace-listed [] cp h = absurd (cc)
scan_whitespace-listed (w ∷ ws) cp h = elim (either (cp == w) (scan_whitespace ws cp) h) [
  | inl same ↦ (zero, ap some (sym ((==_iff cp w).0 same)))
  | inr later ↦ (let (i, e) = scan_whitespace-listed ws cp later in (suc i, e))
]

listed-scan_whitespace :
    (ws : List ℕ) (i cp : ℕ) → get_elem? ws i ≡ some cp → scan_whitespace ws cp ≡ true
listed-scan_whitespace [] i cp e = absurd (cc)
listed-scan_whitespace (w ∷ ws) zero cp e = rw (some-injective w cp e, ==_self cp) refl
listed-scan_whitespace (w ∷ ws) (suc i) cp e =
    rw (listed-scan_whitespace ws i cp e) (or_true (cp == w))

is_whitespace_cpt-IsWhite : (cp : ℕ) → (is_whitespace_cpt cp ≡ true) ↔ IsWhite cp
unfolding is_whitespace_cpt
is_whitespace_cpt-IsWhite cp =
    (scan_whitespace-listed k_whitespace cp, λ w. listed-scan_whitespace k_whitespace w.0 cp w.1)

is_within-bounds :
    (r : Range) (cp kind : ℕ)
    → is_within r cp kind ≡ true
    → (r.kind ≡ kind) × (r.first ≤ cp) × (cp ≤ r.last)
is_within-bounds r cp kind h =
    let (kept, below) = both (r.kind == kind && leb r.first cp) (leb cp r.last) h in
    let (same, above) = both (r.kind == kind) (leb r.first cp) kept in
    ((==_iff r.kind kind).0 same, ground arith, ground arith)

scan_ranges-listed :
    (rs : List Range) (cp kind : ℕ)
    → scan_ranges rs cp kind ≡ true
    → (i : ℕ) × (r : Range) × (get_elem? rs i ≡ some r)
      × (r.kind ≡ kind)
      × (r.first ≤ cp)
      × (cp ≤ r.last)
scan_ranges-listed [] cp kind h = absurd (cc)
scan_ranges-listed (r ∷ rs) cp kind h =
    elim (either (is_within r cp kind) (scan_ranges rs cp kind) h) [
      | inl here ↦
          (let (same, lo, hi) = is_within-bounds r cp kind here in (zero, r, refl, same, lo, hi))
      | inr later ↦
          (let (i, s, e, same, lo, hi) = scan_ranges-listed rs cp kind later in
            (suc i, s, e, same, lo, hi))
    ]

is_in_ranges-InTable : (cp kind : ℕ) → (is_in_ranges cp kind ≡ true) ↔ InTable kind cp
unfolding is_in_ranges
is_in_ranges-InTable cp kind = (
  scan_ranges-listed k_ranges cp kind,
  λ (i, r, e, same, lo, hi). is_in_ranges-found i r cp kind e same lo hi,
)

-- A test after one that fails.
not_and_iff :
    {P Q : Type 0} (a b : Bool)
    → (a ≡ true) ↔ P
    → (b ≡ true) ↔ Q
    → ((not a && b) ≡ true) ↔ ((P → ⊥) × Q)
not_and_iff true b p q = ((λ h. absurd (cc)), λ (n, _). absurd (n (p.0 refl)))
not_and_iff false b p q = ((λ h. ((λ x. let e = p.1 x in absurd (cc)), q.0 h)), λ (_, x). q.1 x)

and_assoc : (a b c : Bool) → ((a && b) && c) ≡ (a && (b && c))
and_assoc true b c = refl
and_assoc false b c = refl

path_iff : {P : Type 0} (a b : Bool) → a ≡ b → (b ≡ true) ↔ P → (a ≡ true) ↔ P
path_iff a b e p = rw e p

defined_iff :
    (cp : ℕ)
    → ((ltb cp 1114112 && (ltb cp 55296 || ltb 57343 cp)) ≡ true)
      ↔ ((cp < 1114112) × ((cp < 55296) ⊎ (57343 < cp)))
defined_iff cp = (
  (λ h.
      let (below, apart) = both (ltb cp 1114112) (ltb cp 55296 || ltb 57343 cp) h in
      (
        ground arith,
        elim (either (ltb cp 55296) (ltb 57343 cp) apart) [
          | inl low ↦ inl (ground arith)
          | inr high ↦ inr (ground arith)
        ],
      )),
  λ (below, apart). elim apart [ inl low ↦ ground arith | inr high ↦ ground arith ],
)

-- A code point is of the first class of white space, letters, numbers and marks of which a table entry
-- or a range, its ends included, holds it, and of no other; it is defined if it is below 0x110000 and no
-- surrogate.
pub codepoint_flags-HasFlags : (cp : ℕ) → HasFlags cp (codepoint_flags cp)
codepoint_flags-HasFlags cp =
    let f = codepoint_flags cp in
    let (d, w, l, n, m) = codepoint_flags-IsClassified cp in
    let white = is_whitespace_cpt-IsWhite cp in
    let letter = is_in_ranges-InTable cp 1 in
    let number = is_in_ranges-InTable cp 2 in
    let mark = is_in_ranges-InTable cp 3 in
    let a = is_whitespace_cpt cp in
    let b = is_in_ranges cp 1 in
    let c = is_in_ranges cp 2 in
    let e = is_in_ranges cp 3 in
    let late = not_and_iff c e number mark in
    record {
      is_defined = path_iff f.is_defined _ d (defined_iff cp);
      white = path_iff f.is_whitespace a w white;
      letter = path_iff f.is_letter (not a && b) l (not_and_iff a b white letter);
      number =
          path_iff f.is_number (not a && (not b && c)) (n ∙ and_assoc (not a) (not b) c)
            (not_and_iff a (not b && c) white (not_and_iff b c letter number));
      mark =
          path_iff f.is_mark (not a && (not b && (not c && e)))
            (m ∙ and_assoc (not a && not b) (not c) e ∙ and_assoc (not a) (not b) (not c && e))
            (not_and_iff a (not b && (not c && e)) white (not_and_iff b (not c && e) letter late));
    }
