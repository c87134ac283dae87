-- ===== src/Tokenizer/Utf8.antt =====
-- src/tokenizer/unicode_utils.cc: UTF-8. A text is a list of bytes. The bit operations of the source
-- are written as arithmetic: `x >> 6` is `x / 64`, `x & 0x3F` is `x % 64`, and `0x80 | y` with y below
-- 64 is `128 + y`.
pub mod Turns
use vicold_hybrid_ai.Base.{
  ℕ, zero, suc, ◌+◌, ◌-◌, ◌*◌, ◌/◌, ◌%◌, ◌^◌, ◌<◌, ◌≤◌, ◌≡◌, refl, ap, ◌∙◌, true, false, ◌&&◌, List,
  [], ◌∷◌, ◌++◌, length, length-append, length-drop, drop, leb, ◌==◌, if◌then◌else◌, arith, All,
  if-elim,
}

-- `(c & 0x80) == 0`, `(c & 0xE0) == 0xC0`, and so on: the leading bits.
unfoldable pub sequence_length : ℕ → ℕ
sequence_length c =
    if c / 128 == 0
    then 1
    else if c / 32 == 6
    then 2
    else if c / 16 == 14
    then 3
    else if c / 8 == 30
    then 4
    else 1

-- The loop over `j`: at most `count` bytes more, of those that are there. A byte that continues no
-- sequence sets the code point to 0.
unfoldable pub continue_sequence : ℕ → List ℕ → ℕ → ℕ
continue_sequence zero s cp = cp
continue_sequence (suc count) [] cp = cp
continue_sequence (suc count) (n ∷ s) cp =
    let rest = continue_sequence count s ((cp * 64) % 2 ^ 32 + n % 64) in
    if n / 64 == 2 then rest else 0

-- `cp = c & (0xFF >> len)`, and `c` itself where the length is 1.
unfoldable pub first_bits : ℕ → ℕ → ℕ
first_bits len c = if len == 1 then c else c % 2 ^ (8 - len)

-- One turn of the outer loop: the code points found, and the bytes to go on with.
unfoldable pub next_codepoint : ℕ → List ℕ → List ℕ × List ℕ
unfolding sequence_length continue_sequence first_bits
next_codepoint c s =
    let len = sequence_length c in
    if len == 1 && leb 128 c
    then ([], s)
    else (let cp = continue_sequence (len - 1) s (first_bits len c) in
        (if cp == 0 then [] else cp ∷ [], drop (len - 1) s))

unfoldable pub decode_fuel : ℕ → List ℕ → List ℕ
unfolding next_codepoint
decode_fuel zero s = []
decode_fuel (suc fuel) [] = []
decode_fuel (suc fuel) (c ∷ s) =
    let (found, rest) = next_codepoint c s in found ++ decode_fuel fuel rest

-- The outer loop takes a byte at least in every turn.
abbrev pub utf8_to_codepoints : List ℕ → List ℕ
utf8_to_codepoints s = decode_fuel (length s) s

unfoldable pub encode : ℕ → List ℕ
encode cp =
    if leb cp 127
    then cp ∷ []
    else if leb cp 2047
    then (192 + cp / 64) ∷ (128 + cp % 64) ∷ []
    else if leb cp 65535
    then (224 + cp / 4096) ∷ (128 + cp / 64 % 64) ∷ (128 + cp % 64) ∷ []
    else (240 + cp / 262144 % 16)
      ∷ (128 + cp / 4096 % 64)
      ∷ (128 + cp / 64 % 64)
      ∷ (128 + cp % 64)
      ∷ []

abbrev pub codepoints_to_utf8 : List ℕ → List ℕ
codepoints_to_utf8 [] = []
codepoints_to_utf8 (cp ∷ cps) = encode cp ++ codepoints_to_utf8 cps

-- A code point of Unicode, but U+0000, which the decoder drops.
abbrev pub IsCodepoint : ℕ → Type 0
IsCodepoint cp = (0 < cp) × (cp < 1114112)

next-one : (c : ℕ) (s : List ℕ) → 0 < c → c < 128 → next_codepoint c s ≡ (c ∷ [], s)
unfolding next_codepoint sequence_length first_bits continue_sequence
next-one c s pos small =
    let a : (c / 128 == 0) ≡ true = ground arith in
    let b : leb 128 c ≡ false = ground arith in
    let d : (c == 0) ≡ false = ground arith in rw (next_codepoint, sequence_length, a, b, d) refl

-- The leading bytes, and the bytes that go on.
length-two : (q : ℕ) → q < 32 → sequence_length (192 + q) ≡ 2
unfolding sequence_length
length-two q lt = ground arith

length-three : (q : ℕ) → q < 16 → sequence_length (224 + q) ≡ 3
unfolding sequence_length
length-three q lt = ground arith

length-four : (q : ℕ) → q < 8 → sequence_length (240 + q) ≡ 4
unfolding sequence_length
length-four q lt = ground arith

continues : (y : ℕ) → ((128 + y % 64) / 64 == 2) ≡ true
continues y = ground arith

next-two :
    (cp : ℕ) (s : List ℕ)
    → 127 < cp
    → cp ≤ 2047
    → next_codepoint (192 + cp / 64) ((128 + cp % 64) ∷ s) ≡ (cp ∷ [], s)
unfolding next_codepoint first_bits continue_sequence
next-two cp s above below =
    let whole : ((192 + cp / 64) % 64 * 64) % 2 ^ 32 + (128 + cp % 64) % 64 ≡ cp = omega arith in
    let d : (cp == 0) ≡ false = ground arith in
    rw (next_codepoint, length-two (cp / 64) (omega arith), continues cp, whole, d) refl

next-three :
    (cp : ℕ) (s : List ℕ)
    → 2047 < cp
    → cp ≤ 65535
    → next_codepoint (224 + cp / 4096) ((128 + cp / 64 % 64) ∷ (128 + cp % 64) ∷ s) ≡ (cp ∷ [], s)
unfolding next_codepoint first_bits continue_sequence
next-three cp s above below =
    let high : ((224 + cp / 4096) % 32 * 64) % 2 ^ 32 + (128 + cp / 64 % 64) % 64 ≡ cp / 64 =
      omega arith in
    let whole : ((cp / 64) * 64) % 2 ^ 32 + (128 + cp % 64) % 64 ≡ cp = omega arith in
    let d : (cp == 0) ≡ false = ground arith in
    rw
      (
        next_codepoint,
        length-three (cp / 4096) (omega arith),
        continues (cp / 64),
        continues cp,
        high,
        whole,
        d,
      )
      refl

next-four :
    (cp : ℕ) (s : List ℕ)
    → 65535 < cp
    → cp < 1114112
    → next_codepoint
        (240 + cp / 262144 % 16)
        ((128 + cp / 4096 % 64) ∷ (128 + cp / 64 % 64) ∷ (128 + cp % 64) ∷ s)
      ≡ (cp ∷ [], s)
unfolding next_codepoint first_bits continue_sequence
next-four cp s above below =
    let top : ((240 + cp / 262144 % 16) % 16 * 64) % 2 ^ 32 + (128 + cp / 4096 % 64) % 64
        ≡ cp / 4096 =
      omega arith in
    let high : ((cp / 4096) * 64) % 2 ^ 32 + (128 + cp / 64 % 64) % 64 ≡ cp / 64 = omega arith in
    let whole : ((cp / 64) * 64) % 2 ^ 32 + (128 + cp % 64) % 64 ≡ cp = omega arith in
    let d : (cp == 0) ≡ false = ground arith in
    rw
      (
        next_codepoint,
        length-four (cp / 262144 % 16) (omega arith),
        continues (cp / 4096),
        continues (cp / 64),
        continues cp,
        top,
        high,
        whole,
        d,
      )
      refl

decode_turn :
    (fuel cp c : ℕ) (t s : List ℕ)
    → next_codepoint c t ≡ (cp ∷ [], s)
    → decode_fuel (suc fuel) (c ∷ t) ≡ cp ∷ decode_fuel fuel s
unfolding decode_fuel
decode_turn fuel cp c t s e = ap (λ r. r.0 ++ decode_fuel fuel r.1) e

-- One code point is decoded in one turn.
decode_fuel-encode :
    (fuel cp : ℕ) (s : List ℕ)
    → IsCodepoint cp
    → decode_fuel (suc fuel) (encode cp ++ s) ≡ cp ∷ decode_fuel fuel s
unfolding decode_fuel encode
decode_fuel-encode fuel cp s (pos, below) =
    let P : List ℕ → Type 0 = λ e. decode_fuel (suc fuel) (e ++ s) ≡ cp ∷ decode_fuel fuel s in
    if-elim P (leb cp 127) (λ h. decode_turn fuel cp cp s s (next-one cp s pos (ground arith)))
      λ h1.
        if-elim P (leb cp 2047)
          (λ h.
            decode_turn fuel cp (192 + cp / 64) ((128 + cp % 64) ∷ s) s
              (next-two cp s (ground arith) (ground arith)))
          λ h2.
            if-elim P (leb cp 65535)
              (λ h.
                decode_turn fuel cp (224 + cp / 4096) ((128 + cp / 64 % 64) ∷ (128 + cp % 64) ∷ s) s
                  (next-three cp s (ground arith) (ground arith)))
              λ h3.
                decode_turn fuel cp (240 + cp / 262144 % 16)
                  ((128 + cp / 4096 % 64) ∷ (128 + cp / 64 % 64) ∷ (128 + cp % 64) ∷ s) s
                  (next-four cp s (ground arith) below)

decode_fuel-codepoints :
    (cps : List ℕ) (fuel : ℕ)
    → All IsCodepoint cps
    → length cps ≤ fuel
    → decode_fuel fuel (codepoints_to_utf8 cps) ≡ cps
unfolding decode_fuel
decode_fuel-codepoints [] zero _ enough = refl
decode_fuel-codepoints [] (suc fuel) _ enough = refl
decode_fuel-codepoints (cp ∷ cps) zero _ enough = absurd (omega arith)
decode_fuel-codepoints (cp ∷ cps) (suc fuel) (c, cs) enough =
    decode_fuel-encode fuel cp (codepoints_to_utf8 cps) c
    ∙ ap (◌∷◌ cp) (decode_fuel-codepoints cps fuel cs (omega arith))

encode_some : (cp : ℕ) → 0 < length (encode cp)
unfolding encode
encode_some cp = ground arith

length-codepoints_to_utf8 : (cps : List ℕ) → length cps ≤ length (codepoints_to_utf8 cps)
length-codepoints_to_utf8 [] = omega arith
length-codepoints_to_utf8 (cp ∷ cps) = omega (
  arith,
  encode_some cp,
  length-append (encode cp) (codepoints_to_utf8 cps),
  length-codepoints_to_utf8 cps,
)

-- What is encoded is decoded to the same code points, where none is U+0000 or beyond Unicode.
pub utf8-roundtrip :
    (cps : List ℕ) → All IsCodepoint cps → utf8_to_codepoints (codepoints_to_utf8 cps) ≡ cps
utf8-roundtrip cps all =
    decode_fuel-codepoints cps (length (codepoints_to_utf8 cps)) all (length-codepoints_to_utf8 cps)
