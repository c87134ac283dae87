-- ===== src/Tokenizer/Bytes.antt =====
-- src/tokenizer/qwen_tokenizer.cc: the alphabet of bytes, `byte_encode`, and the way back in `decode`.
use vicold_hybrid_ai.Base.{
  ℕ, zero, suc, ◌+◌, ◌-◌, ◌<◌, ◌≡◌, refl, ap, sym, ◌∙◌, subst, Bool, true, false, ◌&&◌, ◌||◌,
  Option, none, some, List, [], ◌∷◌, ◌++◌, ltb, ◌==◌, ==_iff, if◌then◌else◌, arith, All, append-nil,
  both, Bool-cases, inl, inr,
}
use vicold_hybrid_ai.Tokenizer.Utf8.{
  utf8_to_codepoints, codepoints_to_utf8, encode, utf8-roundtrip, IsCodepoint,
}

-- `count` numbers from `first`.
abbrev pub range : ℕ → ℕ → List ℕ
range first zero = []
range first (suc count) = first ∷ range (suc first) count

abbrev pub mem : ℕ → List ℕ → Bool
mem x [] = false
mem x (y ∷ ys) = (x == y) || mem x ys

abbrev pub without : List ℕ → List ℕ → List ℕ
without used [] = []
without used (b ∷ bs) = let rest = without used bs in if mem b used then rest else b ∷ rest

-- From `!` to `~`, and the two ranges of Latin-1; then the other bytes.
abbrev pub printable : List ℕ
printable = range 33 94 ++ range 161 12 ++ range 174 82

abbrev pub byte_list : List ℕ
byte_list = printable ++ without printable (range 0 256)

-- The byte at index `i` of the list.
abbrev pub code_of : ℕ → ℕ → ℕ
code_of i b = if ltb i 188 then b else 256 + (i - 188)

abbrev pub pairs_from : ℕ → List ℕ → List (ℕ × ℕ)
pairs_from i [] = []
pairs_from i (b ∷ bs) = (b, code_of i b) ∷ pairs_from (suc i) bs

-- A map as a list of pairs; no key comes twice.
abbrev pub lookup : ℕ → List (ℕ × ℕ) → Option ℕ
lookup k [] = none
lookup k ((j, v) ∷ m) = if k == j then some v else lookup k m

abbrev pub swapped : List (ℕ × ℕ) → List (ℕ × ℕ)
swapped [] = []
swapped ((a, b) ∷ m) = (b, a) ∷ swapped m

unfoldable pub bytes_to_unicode : List (ℕ × ℕ)
bytes_to_unicode = pairs_from 0 byte_list

unfoldable pub unicode_to_bytes : List (ℕ × ℕ)
unfolding bytes_to_unicode
unicode_to_bytes = swapped bytes_to_unicode

abbrev pub encode_found : Option ℕ → List ℕ
encode_found none = []
encode_found (some cp) = codepoints_to_utf8 (cp ∷ [])

unfoldable pub byte_encode : List ℕ → List ℕ
byte_encode [] = []
byte_encode (b ∷ bs) = encode_found (lookup b bytes_to_unicode) ++ byte_encode bs

abbrev pub found : Option ℕ → List ℕ
found none = []
found (some b) = b ∷ []

-- The bytes of a token in `decode`.
abbrev pub bytes_of_codepoints : List ℕ → List ℕ
bytes_of_codepoints [] = []
bytes_of_codepoints (c ∷ cs) = found (lookup c unicode_to_bytes) ++ bytes_of_codepoints cs

unfoldable pub token_bytes : List ℕ → List ℕ
token_bytes token = bytes_of_codepoints (utf8_to_codepoints token)

-- A test of every number below a bound.
abbrev all_below : ℕ → (ℕ → Bool) → Bool
all_below zero test = true
all_below (suc n) test = test n && all_below n test

all_below-each : (n : ℕ) (test : ℕ → Bool) (k : ℕ) → all_below n test ≡ true → k < n → test k ≡ true
all_below-each zero test k h lt = absurd (omega arith)
all_below-each (suc n) test k h lt = elim (Bool-cases (k == n)) [
  | inl same ↦
      subst (λ i. test i ≡ true) (sym ((==_iff k n).0 same)) (both (test n) (all_below n test) h).0
  | inr other ↦ all_below-each n test k (both (test n) (all_below n test) h).1 (ground arith)
]

abbrev returns : ℕ → Option ℕ → Bool
returns b none = false
returns b (some c) = b == c

abbrev maps_back : ℕ → Option ℕ → Bool
maps_back b none = false
maps_back b (some cp) = ltb 0 cp && ltb cp 1114112 && returns b (lookup cp unicode_to_bytes)

abbrev is_invertible : ℕ → Bool
is_invertible b = maps_back b (lookup b bytes_to_unicode)

every_byte : all_below 256 is_invertible ≡ true
unfolding bytes_to_unicode unicode_to_bytes
every_byte = refl

returns-same : (b : ℕ) (o : Option ℕ) → returns b o ≡ true → o ≡ some b
returns-same b none h = absurd (cc)
returns-same b (some c) h = ap some (sym ((==_iff b c).0 h))

maps_back-inverse :
    (b : ℕ) (o : Option ℕ)
    → maps_back b o ≡ true
    → (cp : ℕ) × (o ≡ some cp) × IsCodepoint cp × (lookup cp unicode_to_bytes ≡ some b)
maps_back-inverse b none h = absurd (cc)
maps_back-inverse b (some cp) h =
    let (valid, back) =
      both (ltb 0 cp && ltb cp 1114112) (returns b (lookup cp unicode_to_bytes)) h in
    let (pos, below) = both (ltb 0 cp) (ltb cp 1114112) valid in
    (cp, refl, (ground arith, ground arith), returns-same b (lookup cp unicode_to_bytes) back)

-- Every byte has a code point in the alphabet, none of them U+0000, and is the byte of that code point.
pub alphabet-inverse :
    (b : ℕ)
    → b < 256
    → (cp : ℕ) × (lookup b bytes_to_unicode ≡ some cp)
      × IsCodepoint cp
      × (lookup cp unicode_to_bytes ≡ some b)
alphabet-inverse b lt =
    maps_back-inverse b (lookup b bytes_to_unicode)
      (all_below-each 256 is_invertible b every_byte lt)

pub byte_encode-codepoints :
    (bs : List ℕ)
    → All (λ b. b < 256) bs
    → (cps : List ℕ) × (byte_encode bs ≡ codepoints_to_utf8 cps)
      × All IsCodepoint cps
      × (bytes_of_codepoints cps ≡ bs)
unfolding byte_encode
byte_encode-codepoints [] _ = ([], refl, tt, refl)
byte_encode-codepoints (b ∷ bs) (lt, lts) =
    let (cp, e, valid, back) = alphabet-inverse b lt in
    let (cps, es, valids, backs) = byte_encode-codepoints bs lts in
    (
      cp ∷ cps,
      ap (λ o. encode_found o ++ byte_encode bs) e
          ∙ ap (λ t. codepoints_to_utf8 (cp ∷ []) ++ t) es
          ∙ ap (λ t. t ++ codepoints_to_utf8 cps) (append-nil (encode cp)),
      (valid, valids),
      ap (λ o. found o ++ bytes_of_codepoints cps) back ∙ ap (◌∷◌ b) backs,
    )

-- What `byte_encode` writes for the bytes of a text, `decode` reads back as the same bytes.
pub token_bytes-byte_encode :
    (bs : List ℕ) → All (λ b. b < 256) bs → token_bytes (byte_encode bs) ≡ bs
unfolding token_bytes
token_bytes-byte_encode bs bytes =
    let (cps, e, valid, back) = byte_encode-codepoints bs bytes in
    ap token_bytes e ∙ ap bytes_of_codepoints (utf8-roundtrip cps valid) ∙ back
