-- ===== src/Tokenizer/Tests.antt =====
-- Concrete texts and code points of src/tokenizer.
use vicold_hybrid_ai.Base.{
  ℕ, ◌≡◌, refl, true, false, Option, some, none, List, [], ◌∷◌, ◌++◌, All, arith, codes, concat,
  map, same_text, if◌then◌else◌, if-elim, zero, suc, ap, sym, subst, ◌==◌, get_elem?,
  same_text-path,
}
use vicold_hybrid_ai.Tokenizer.Utf8.{
  next_codepoint, sequence_length, first_bits, continue_sequence, encode, codepoints_to_utf8,
  utf8_to_codepoints, decode_fuel, utf8-roundtrip, IsCodepoint,
}
use vicold_hybrid_ai.Tokenizer.Classes.{
  numbers, letters, is_whitespace_cpt, is_in_ranges, codepoint_flags, codepoint_flags-shadowed,
}
use vicold_hybrid_ai.Tokenizer.Pieces.{
  piece_length, pieces, pieces_of, pre_tokenize, pre_tokenize-whole,
}
use vicold_hybrid_ai.Tokenizer.Bpe.{bpe, IsMerged, bpe-total}
use vicold_hybrid_ai.Tokenizer.Bytes.{
  byte_encode, bytes_to_unicode, token_bytes, token_bytes-byte_encode,
}
use mathlib.Core.Option.{some-injective}
use vicold_hybrid_ai.Tokenizer.Codec.{QwenTokenizer, AddedTokenInfo, encode_text, decode_ids}
use vicold_hybrid_ai.Tokenizer.Codec.Roundtrip.{IsConsistent, IsReadable, decode_ids-encode_text}
use vicold_hybrid_ai.Tokenizer.Utf8.Turns.{Turns, utf8_to_codepoints-Turns}
use vicold_hybrid_ai.Tokenizer.Segments.Longest.{IsLongest, best_match-IsLongest}
use vicold_hybrid_ai.Tokenizer.Classes.Tables.{HasFlags, codepoint_flags-HasFlags}
use vicold_hybrid_ai.Tokenizer.Segments.{
  best_match, split_loop, split_special_tokens, split_special_tokens-whole,
}

-- A code point of each length.
abbrev four_codepoints : List ℕ
four_codepoints = 65 ∷ 233 ∷ 8364 ∷ 128512 ∷ []

utf8-roundtrip_example : utf8_to_codepoints (codepoints_to_utf8 four_codepoints) ≡ four_codepoints
utf8-roundtrip_example = utf8-roundtrip four_codepoints (
  (omega arith, omega arith),
  ((omega arith, omega arith), ((omega arith, omega arith), ((omega arith, omega arith), tt))),
)

-- A sequence that is cut off, and a byte that starts none.
utf8_to_codepoints-Turns_example :
    Turns 3 (226 ∷ 130 ∷ 255 ∷ []) (utf8_to_codepoints (226 ∷ 130 ∷ 255 ∷ []))
utf8_to_codepoints-Turns_example = utf8_to_codepoints-Turns (226 ∷ 130 ∷ 255 ∷ [])

-- The last letter of the Latin alphabet ends a range.
codepoint_flags-HasFlags_example : HasFlags 122 (codepoint_flags 122)
codepoint_flags-HasFlags_example = codepoint_flags-HasFlags 122

-- The digit 4 of Devanagari.
codepoint_flags-shadowed_example :
    (is_in_ranges 2410 2 ≡ true) × ((codepoint_flags 2410).is_number ≡ false)
codepoint_flags-shadowed_example =
    codepoint_flags-shadowed 48 16 (numbers 2406 2415) (letters 2304 2431) 2410 refl refl refl refl
      (omega arith) (omega arith) (omega arith) (omega arith)

-- "it's 7" in code points.
abbrev small_text : List ℕ
small_text = codes "it's 7"

small_text-valid : All IsCodepoint small_text
small_text-valid = (
  (omega arith, omega arith),
  (
    (omega arith, omega arith),
    (
      (omega arith, omega arith),
      ((omega arith, omega arith), ((omega arith, omega arith), ((omega arith, omega arith), tt))),
    ),
  ),
)

pre_tokenize-whole_example :
    concat (pre_tokenize (codepoints_to_utf8 small_text)) ≡ codepoints_to_utf8 small_text
pre_tokenize-whole_example = pre_tokenize-whole small_text small_text-valid

-- The contraction, the space alone before a digit, and the digit.
small_pieces : pieces 6 small_text ≡ codes "it" ∷ codes "'s" ∷ codes " " ∷ codes "7" ∷ []
unfolding pieces piece_length codepoint_flags is_in_ranges is_whitespace_cpt
small_pieces = refl

-- `a` and `b` make a pair.
abbrev some_merges : List ℕ → List ℕ → Option ℕ
some_merges a b = if same_text (a ++ b) (codes "ab") then some 0 else none

bpe-total_example :
    (ts : List (List ℕ)) × (bpe some_merges (codes "cab") ≡ some ts)
    × (concat ts ≡ codepoints_to_utf8 (utf8_to_codepoints (codes "cab")))
    × IsMerged some_merges ts
bpe-total_example = bpe-total some_merges (codes "cab")

token_bytes-byte_encode_example :
    token_bytes (byte_encode (0 ∷ 32 ∷ 65 ∷ 255 ∷ [])) ≡ 0 ∷ 32 ∷ 65 ∷ 255 ∷ []
token_bytes-byte_encode_example =
    token_bytes-byte_encode (0 ∷ 32 ∷ 65 ∷ 255 ∷ [])
      (omega arith, (omega arith, (omega arith, (omega arith, tt))))

abbrev two_added : List (List ℕ × ℕ)
two_added = (codes "<a>", 7) ∷ (codes "<a>b", 8) ∷ []

best_match-IsLongest_example :
    IsLongest two_added (codes "<a>bc") (best_match two_added (codes "<a>bc") ([], none))
best_match-IsLongest_example = best_match-IsLongest two_added (codes "<a>bc")

split_special_tokens-whole_example :
    concat (map (λ s. s.text) (split_special_tokens two_added (codes "x<a>bc"))) ≡ codes "x<a>bc"
split_special_tokens-whole_example = split_special_tokens-whole two_added (codes "x<a>bc")

-- A vocabulary of one token, and one added token.
abbrev small_tokenizer : QwenTokenizer
small_tokenizer = record {
  vocab = λ t. if same_text t (codes "a") then some 0 else none;
  id_to_token = codes "a" ∷ [];
  merges = λ _ _. none;
  added_tokens = (codes "<s>", 5) ∷ [];
  id_to_added_token =
      λ id. if id == 5 then some (record { content = codes "<s>"; special = true }) else none;
}

small_tokenizer-IsConsistent : IsConsistent small_tokenizer
small_tokenizer-IsConsistent = record { vocab_id = vocab_id; added_id = added_id }
  where
    vocab_id :
        (t : List ℕ) (id : ℕ)
        → small_tokenizer.vocab t ≡ some id
        → (get_elem? small_tokenizer.id_to_token id ≡ some t)
          × (small_tokenizer.id_to_added_token id ≡ none)
    vocab_id t id =
        if-elim
          (λ (o : Option ℕ).
            o ≡ some id
            → (get_elem? small_tokenizer.id_to_token id ≡ some t)
              × (small_tokenizer.id_to_added_token id ≡ none))
          (same_text t (codes "a"))
          (λ same e.
            subst
              (λ n.
                (get_elem? small_tokenizer.id_to_token n ≡ some t)
                × (small_tokenizer.id_to_added_token n ≡ none))
              (some-injective 0 id e) (ap some (sym (same_text-path t (codes "a") same)), refl))
          λ _ e. absurd (cc)

    added_id :
        (i : ℕ) (t : List ℕ) (id : ℕ)
        → get_elem? small_tokenizer.added_tokens i ≡ some (t, id)
        → (info : AddedTokenInfo) × (small_tokenizer.id_to_added_token id ≡ some info)
          × (info.content ≡ t)
    added_id zero t id e =
        subst
          (λ (p : List ℕ × ℕ).
            (info : AddedTokenInfo) × (small_tokenizer.id_to_added_token p.1 ≡ some info)
            × (info.content ≡ p.0))
          (some-injective (codes "<s>", 5) (t, id) e)
          (record { content = codes "<s>"; special = true }, refl, refl)
    added_id (suc i) t id e = absurd (cc)

small-IsCovered :
    (ts : List (List ℕ))
    → bpe small_tokenizer.merges (byte_encode (codes "a")) ≡ some ts
    → All (λ t. (id : ℕ) × (small_tokenizer.vocab t ≡ some id)) ts
unfolding bpe byte_encode bytes_to_unicode decode_fuel next_codepoint sequence_length first_bits
    continue_sequence encode
small-IsCovered ts e =
    subst (All (λ t. (id : ℕ) × (small_tokenizer.vocab t ≡ some id)))
      (some-injective (codes "a" ∷ []) ts e) ((0, refl), tt)

-- An added token and an ordinary "a".
small-IsReadable :
    All
      (λ s. s.is_special ≡ false → IsReadable small_tokenizer s.text)
      (split_special_tokens small_tokenizer.added_tokens (codes "<s>a"))
unfolding split_loop best_match pre_tokenize pieces_of pieces piece_length codepoint_flags
    is_in_ranges is_whitespace_cpt decode_fuel next_codepoint sequence_length first_bits
    continue_sequence encode
small-IsReadable =
    ((λ h. absurd (cc)), ((λ _. ((omega arith, tt), refl, (small-IsCovered, tt))), tt))

decode_ids-encode_text_example :
    (ids : List ℕ) × (encode_text small_tokenizer (codes "<s>a") ≡ some ids)
    × (decode_ids small_tokenizer ids false ≡ codes "<s>a")
decode_ids-encode_text_example =
    decode_ids-encode_text small_tokenizer (codes "<s>a") small_tokenizer-IsConsistent
      small-IsReadable
