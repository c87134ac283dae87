-- ===== src/Tokenizer/Utf8/Turns.antt =====
-- src/tokenizer/unicode_utils.cc: the outer loop of the decoder ends.
use vicold_hybrid_ai.Base.{
  ℕ, zero, suc, ◌-◌, ◌≤◌, ◌≡◌, refl, ap, subst, ◌&&◌, List, [], ◌∷◌, ◌++◌, length, length-drop,
  drop, leb, ◌==◌, arith, if-elim,
}
use vicold_hybrid_ai.Tokenizer.Utf8.{
  sequence_length, continue_sequence, first_bits, next_codepoint, decode_fuel, utf8_to_codepoints,
}

-- A run of the outer loop that ends at the end of the text, in so many turns at most: each turn takes
-- its leading byte and up to 3 bytes behind it, and gives what next_codepoint finds, one code point at
-- most. Where bytes are left and no turn is, there is no such run.
abbrev pub Turns : ℕ → List ℕ → List ℕ → Type 0
Turns zero [] out = out ≡ []
Turns zero (c ∷ s) out = ⊥
Turns (suc n) [] out = out ≡ []
Turns (suc n) (c ∷ s) out =
    (taken : ℕ) × (others : List ℕ) × (taken ≤ 3)
    × ((next_codepoint c s).1 ≡ drop taken s)
    × (length (next_codepoint c s).0 ≤ 1)
    × (out ≡ (next_codepoint c s).0 ++ others)
    × Turns n (drop taken s) others

sequence_length-le : (c : ℕ) → sequence_length c ≤ 4
unfolding sequence_length
sequence_length-le c = ground arith

next_codepoint-taken :
    (c : ℕ) (s : List ℕ)
    → (taken : ℕ) × (taken ≤ 3)
      × ((next_codepoint c s).1 ≡ drop taken s)
      × (length (next_codepoint c s).0 ≤ 1)
unfolding next_codepoint
next_codepoint-taken c s =
    let len = sequence_length c in
    let P : List ℕ × List ℕ → Type 0 =
      λ r. (taken : ℕ) × (taken ≤ 3) × (r.1 ≡ drop taken s) × (length r.0 ≤ 1) in
    if-elim P (len == 1 && leb 128 c) (λ _. (0, omega arith, refl, omega arith))
      λ _.
        let cp = continue_sequence (len - 1) s (first_bits len c) in
        (
          len - 1,
          omega (arith, sequence_length-le c),
          refl,
          if-elim (λ (xs : List ℕ). length xs ≤ 1) (cp == 0) (λ _. omega arith) λ _. omega arith,
        )

decode_fuel-Turns : (n : ℕ) (s : List ℕ) → length s ≤ n → Turns n s (decode_fuel n s)
unfolding decode_fuel
decode_fuel-Turns zero [] le = refl
decode_fuel-Turns zero (c ∷ s) le = absurd (omega arith)
decode_fuel-Turns (suc n) [] le = refl
decode_fuel-Turns (suc n) (c ∷ s) le =
    let next = next_codepoint c s in
    let (taken, small, same, one) = next_codepoint-taken c s in
    (
      taken,
      decode_fuel n next.1,
      small,
      same,
      one,
      refl,
      subst (λ t. Turns n t (decode_fuel n next.1)) same
          (decode_fuel-Turns n next.1 (omega (arith, ap length same, length-drop taken s))),
    )

-- The decoder ends on every text, valid or not, within a turn for each byte: each turn takes a byte at
-- least and 4 at most, and adds what it finds, one code point at most, until no byte is left.
pub utf8_to_codepoints-Turns : (s : List ℕ) → Turns (length s) s (utf8_to_codepoints s)
utf8_to_codepoints-Turns s = decode_fuel-Turns (length s) s (omega arith)
