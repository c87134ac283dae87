-- ===== src/Tokenizer/Pieces.antt =====
-- src/tokenizer/qwen_tokenizer.cc: `pre_tokenize`. A turn of its loop starts behind the last piece, so
-- that the code points from `pos` are the state of the loop, and a turn is the length of a piece.
use vicold_hybrid_ai.Base.{
  ℕ, zero, suc, ◌+◌, ◌-◌, ◌<◌, ◌≤◌, ◌≡◌, refl, ap, sym, ◌∙◌, Bool, false, ◌&&◌, ◌||◌, not, List, [],
  ◌∷◌, ◌++◌, length, length-drop, length-take, take, drop, take-append-drop, concat, map, is_empty,
  ltb, leb, ◌==◌, if◌then◌else◌, if-elim, arith, All, append_assoc,
}
use vicold_hybrid_ai.Tokenizer.Utf8.{
  utf8_to_codepoints, codepoints_to_utf8, utf8-roundtrip, encode, IsCodepoint,
}
use vicold_hybrid_ai.Tokenizer.Classes.{CodepointFlags, codepoint_flags}

-- The flags at a position, all false behind the end.
abbrev pub flags_at : List ℕ → CodepointFlags
flags_at [] = record {
  is_defined = false;
  is_whitespace = false;
  is_letter = false;
  is_number = false;
  is_mark = false;
}
flags_at (c ∷ s) = codepoint_flags c

abbrev pub lower : ℕ → ℕ
lower c = if leb b'A' c && leb c b'Z' then c - b'A' + b'a' else c

-- The contraction behind an apostrophe, as the length with the apostrophe, or 0.
abbrev pub long_contraction : ℕ → List ℕ → ℕ
long_contraction a [] = 0
long_contraction a (b ∷ s) =
    if (a == b'r' && lower b == b'e')
      || (a == b'v' && lower b == b'e')
      || (a == b'l' && lower b == b'l')
    then 3
    else 0

abbrev pub contraction : List ℕ → ℕ
contraction [] = 0
contraction (a ∷ s) =
    if lower a == b's' || lower a == b't' || lower a == b'm' || lower a == b'd'
    then 2
    else long_contraction (lower a) s

abbrev pub contraction_at : ℕ → List ℕ → ℕ
contraction_at c s = if c == b'\'' then contraction s else 0

-- How many code points in front pass a test.
abbrev pub run : (ℕ → Bool) → List ℕ → ℕ
run test [] = 0
run test (c ∷ s) = let rest = run test s in if test c then suc rest else 0

abbrev pub is_word : CodepointFlags → Bool
is_word f = f.is_letter || f.is_mark

abbrev pub is_word_cpt : ℕ → Bool
is_word_cpt c = is_word (codepoint_flags c)

abbrev pub is_newline : ℕ → Bool
is_newline c = c == 13 || c == 10

abbrev pub word_at : ℕ → List ℕ → ℕ
word_at c s =
    if not (is_newline c)
      && not (codepoint_flags c).is_number
      && (is_word (codepoint_flags c) || is_word (flags_at s))
    then suc (run is_word_cpt s)
    else 0

abbrev pub is_symbol : CodepointFlags → Bool
is_symbol f =
    not f.is_whitespace && not f.is_letter && not f.is_mark && not f.is_number && f.is_defined

abbrev pub is_symbol_cpt : ℕ → Bool
is_symbol_cpt c = is_symbol (codepoint_flags c)

-- Symbols, behind a space or not, and the line ends behind them.
abbrev pub symbols_end : ℕ → List ℕ → ℕ
symbols_end c s = if c == 32 then suc (run is_symbol_cpt s) else run is_symbol_cpt (c ∷ s)

abbrev pub symbols_at : ℕ → List ℕ → ℕ
symbols_at c s =
    if is_symbol (if c == 32 then flags_at s else codepoint_flags c)
    then symbols_end c s + run is_newline (drop (symbols_end c s) (c ∷ s))
    else 0

abbrev pub is_white_cpt : ℕ → Bool
is_white_cpt c = (codepoint_flags c).is_whitespace

-- The position behind the last line end of the white space in front, or 0.
abbrev pub last_newline : List ℕ → ℕ
last_newline [] = 0
last_newline (c ∷ s) =
    let rest = last_newline s in
    if is_white_cpt c then (if ltb 0 rest then suc rest else if is_newline c then 1 else 0) else 0

-- White space up to its last line end, or all but its last before another code point, or all of it;
-- or else a single code point.
abbrev pub white_at : List ℕ → ℕ
white_at s =
    let count = run is_white_cpt s in
    if ltb 0 (last_newline s)
    then last_newline s
    else if ltb 1 count && ltb count (length s)
    then count - 1
    else if ltb 0 count
    then count
    else 1

-- The first alternative that matches.
unfoldable pub piece_length : ℕ → List ℕ → ℕ
piece_length c s =
    if ltb 0 (contraction_at c s)
    then contraction_at c s
    else if ltb 0 (word_at c s)
    then word_at c s
    else if (codepoint_flags c).is_number
    then 1
    else if ltb 0 (symbols_at c s)
    then symbols_at c s
    else white_at (c ∷ s)

unfoldable pub pieces : ℕ → List ℕ → List (List ℕ)
unfolding piece_length
pieces zero s = []
pieces (suc fuel) [] = []
pieces (suc fuel) (c ∷ s) =
    let count = piece_length c s in take count (c ∷ s) ∷ pieces fuel (drop count (c ∷ s))

-- The pieces of a text that has these code points.
unfoldable pub pieces_of : List ℕ → List ℕ → List (List ℕ)
unfolding pieces
pieces_of cpts text =
    let result = map codepoints_to_utf8 (pieces (length cpts) cpts) in
    if is_empty cpts
    then []
    else if is_empty result && not (is_empty text)
    then text ∷ []
    else result

unfoldable pub pre_tokenize : List ℕ → List (List ℕ)
unfolding pieces_of
pre_tokenize text = pieces_of (utf8_to_codepoints text) text

run_within : (test : ℕ → Bool) (s : List ℕ) → run test s ≤ length s
run_within test [] = omega arith
run_within test (c ∷ s) = ground (arith, run_within test s)

last_newline_within : (s : List ℕ) → last_newline s ≤ run is_white_cpt s
last_newline_within [] = omega arith
last_newline_within (c ∷ s) = ground (arith, last_newline_within s)

abbrev pub IsPiece : List ℕ → ℕ → Type 0
IsPiece s count = (0 < count) × (count ≤ length s)

white_at-IsPiece : (c : ℕ) (s : List ℕ) → IsPiece (c ∷ s) (white_at (c ∷ s))
white_at-IsPiece c s =
    let a = last_newline_within (c ∷ s) in
    let b = run_within is_white_cpt (c ∷ s) in
    let P = IsPiece (c ∷ s) in
    if-elim P (ltb 0 (last_newline (c ∷ s))) (λ h. (ground arith, omega (arith, a, b)))
      λ _.
        if-elim P
          (ltb 1 (run is_white_cpt (c ∷ s)) && ltb (run is_white_cpt (c ∷ s)) (length (c ∷ s)))
          (λ h. (ground arith, omega (arith, b)))
          λ _.
            if-elim P (ltb 0 (run is_white_cpt (c ∷ s))) (λ h. (ground arith, b))
              λ _. (omega arith, omega arith)

contraction_at_within : (c : ℕ) (s : List ℕ) → contraction_at c s ≤ suc (length s)
contraction_at_within c [] = ground arith
contraction_at_within c (a ∷ []) = ground arith
contraction_at_within c (a ∷ b ∷ s) = ground arith

symbols_end_within : (c : ℕ) (s : List ℕ) → symbols_end c s ≤ suc (length s)
symbols_end_within c s =
    if-elim (λ n. n ≤ suc (length s)) (c == 32) (λ _. omega (arith, run_within is_symbol_cpt s))
      λ _. run_within is_symbol_cpt (c ∷ s)

symbols_at_within : (c : ℕ) (s : List ℕ) → symbols_at c s ≤ suc (length s)
symbols_at_within c s =
    let end = symbols_end c s in
    if-elim (λ n. n ≤ suc (length s))
      (is_symbol (if c == 32 then flags_at s else codepoint_flags c))
      (λ _. omega (
        arith,
        symbols_end_within c s,
        run_within is_newline (drop end (c ∷ s)),
        length-drop end (c ∷ s),
      ))
      λ _. omega arith

word_at_within : (c : ℕ) (s : List ℕ) → word_at c s ≤ suc (length s)
word_at_within c s =
    if-elim (λ n. n ≤ suc (length s))
      (not (is_newline c)
        && not (codepoint_flags c).is_number
        && (is_word (codepoint_flags c) || is_word (flags_at s)))
      (λ _. omega (arith, run_within is_word_cpt s)) λ _. omega arith

-- A turn takes one code point at least, and none beyond the end.
piece_length-IsPiece : (c : ℕ) (s : List ℕ) → IsPiece (c ∷ s) (piece_length c s)
unfolding piece_length
piece_length-IsPiece c s =
    let P = IsPiece (c ∷ s) in
    if-elim P (ltb 0 (contraction_at c s)) (λ h. (ground arith, contraction_at_within c s))
      λ _.
        if-elim P (ltb 0 (word_at c s)) (λ h. (ground arith, word_at_within c s))
          λ _.
            if-elim P (codepoint_flags c).is_number (λ _. (omega arith, omega arith))
              λ _.
                if-elim P (ltb 0 (symbols_at c s)) (λ h. (ground arith, symbols_at_within c s))
                  λ _. white_at-IsPiece c s

pieces-concat : (fuel : ℕ) (s : List ℕ) → length s ≤ fuel → concat (pieces fuel s) ≡ s
unfolding pieces
pieces-concat zero [] le = refl
pieces-concat zero (c ∷ s) le = absurd (omega arith)
pieces-concat (suc fuel) [] le = refl
pieces-concat (suc fuel) (c ∷ s) le =
    let count = piece_length c s in
    let (some_one, within) = piece_length-IsPiece c s in
    ap (λ t. take count (c ∷ s) ++ t)
      (pieces-concat fuel (drop count (c ∷ s)) (omega (arith, length-drop count (c ∷ s))))
    ∙ take-append-drop count (c ∷ s)

pieces-nonempty : (fuel : ℕ) (s : List ℕ) → All (λ p. 0 < length p) (pieces fuel s)
unfolding pieces
pieces-nonempty zero s = tt
pieces-nonempty (suc fuel) [] = tt
pieces-nonempty (suc fuel) (c ∷ s) =
    let count = piece_length c s in
    let (some_one, within) = piece_length-IsPiece c s in
    (omega (arith, length-take count (c ∷ s)), pieces-nonempty fuel (drop count (c ∷ s)))

pub codepoints_to_utf8-append :
    (xs ys : List ℕ)
    → codepoints_to_utf8 (xs ++ ys) ≡ codepoints_to_utf8 xs ++ codepoints_to_utf8 ys
codepoints_to_utf8-append [] ys = refl
codepoints_to_utf8-append (x ∷ xs) ys =
    ap (λ t. encode x ++ t) (codepoints_to_utf8-append xs ys)
    ∙ sym (append_assoc (encode x) (codepoints_to_utf8 xs) (codepoints_to_utf8 ys))

concat-utf8 :
    (xss : List (List ℕ)) → concat (map codepoints_to_utf8 xss) ≡ codepoints_to_utf8 (concat xss)
concat-utf8 [] = refl
concat-utf8 (xs ∷ xss) =
    ap (λ t. codepoints_to_utf8 xs ++ t) (concat-utf8 xss)
    ∙ sym (codepoints_to_utf8-append xs (concat xss))

pieces_of-concat : (cpts text : List ℕ) → concat (pieces_of cpts text) ≡ codepoints_to_utf8 cpts
unfolding pieces_of
pieces_of-concat [] text = refl
pieces_of-concat (c ∷ cps) text =
    concat-utf8 (pieces (suc (length cps)) (c ∷ cps))
    ∙ ap codepoints_to_utf8 (pieces-concat (suc (length cps)) (c ∷ cps) (omega arith))

-- The pieces of any text make up the valid part of it: what its code points encode.
pub pre_tokenize-concat :
    (text : List ℕ) → concat (pre_tokenize text) ≡ codepoints_to_utf8 (utf8_to_codepoints text)
unfolding pre_tokenize
pre_tokenize-concat text = pieces_of-concat (utf8_to_codepoints text) text

-- The pieces of a text of code points, none of them U+0000 or beyond Unicode, make up the text again.
pub pre_tokenize-whole :
    (cps : List ℕ)
    → All IsCodepoint cps
    → concat (pre_tokenize (codepoints_to_utf8 cps)) ≡ codepoints_to_utf8 cps
pre_tokenize-whole cps all =
    pre_tokenize-concat (codepoints_to_utf8 cps) ∙ ap codepoints_to_utf8 (utf8-roundtrip cps all)

-- The loop ends within a turn for each code point: the pieces are not empty and make up the code
-- points.
pub pieces-cover :
    (s : List ℕ)
    → (concat (pieces (length s) s) ≡ s) × All (λ p. 0 < length p) (pieces (length s) s)
pieces-cover s = (pieces-concat (length s) s (omega arith), pieces-nonempty (length s) s)
