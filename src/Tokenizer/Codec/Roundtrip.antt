-- ===== src/Tokenizer/Codec/Roundtrip.antt =====
-- src/tokenizer/qwen_tokenizer.cc: `decode` gives back the text that `encode` takes.
use vicold_hybrid_ai.Base.{
  ℕ, ◌<◌, ◌≡◌, refl, ap, sym, ◌∙◌, subst, false, Option, none, some, List, [], ◌∷◌, ◌++◌, concat,
  map, get_elem?, All, append_assoc, append-nil, Option-cases, Bool-cases, inl, inr, ◌>>=◌,
  if◌then◌else◌,
}
use vicold_hybrid_ai.Tokenizer.Utf8.{utf8_to_codepoints, codepoints_to_utf8}
use vicold_hybrid_ai.Tokenizer.Pieces.{pre_tokenize, pre_tokenize-concat}
use vicold_hybrid_ai.Tokenizer.Bpe.{bpe, bpe-total}
use vicold_hybrid_ai.Tokenizer.Bytes.{byte_encode, token_bytes}
use vicold_hybrid_ai.Tokenizer.Segments.{Segment, split_special_tokens, split_special_tokens-whole}
use vicold_hybrid_ai.Tokenizer.Codec.{
  QwenTokenizer, AddedTokenInfo, push_id, ids_of, encode_piece, encode_pieces, encode_plain,
  encode_segment, encode_segments, special_id, encode_text, vocab_bytes, decode_loop, decode_ids,
}
use vicold_hybrid_ai.Tokenizer.Codec.Bytewise.{bpe-bytes, byte_encode-valid}
use vicold_hybrid_ai.Tokenizer.Codec.Listed.{IsListed, split_special_tokens-IsListed}

-- The maps of the tokenizer fit each other: ids of the vocabulary are found in its table and belong to
-- no added token, and ids of added tokens lead to their texts.
pub record IsConsistent (q : QwenTokenizer) : Type 0 where
  pub vocab_id :
      (t : List ℕ) (id : ℕ)
      → q.vocab t ≡ some id
      → (get_elem? q.id_to_token id ≡ some t) × (q.id_to_added_token id ≡ none)
  pub added_id :
      (i : ℕ) (t : List ℕ) (id : ℕ)
      → get_elem? q.added_tokens i ≡ some (t, id)
      → (info : AddedTokenInfo) × (q.id_to_added_token id ≡ some info) × (info.content ≡ t)

-- The vocabulary has every token that the merges make of a piece.
abbrev pub IsCovered : QwenTokenizer → List ℕ → Type 0
IsCovered q piece =
    (ts : List (List ℕ))
    → bpe q.merges (byte_encode piece) ≡ some ts
    → All (λ t. (id : ℕ) × (q.vocab t ≡ some id)) ts

-- An ordinary text of bytes in valid UTF-8, whose pieces the vocabulary covers.
abbrev pub IsReadable : QwenTokenizer → List ℕ → Type 0
IsReadable q text =
    All (λ b. b < 256) text
    × (codepoints_to_utf8 (utf8_to_codepoints text) ≡ text)
    × All (IsCovered q) (pre_tokenize text)

abbrev shows : QwenTokenizer → ℕ → Option AddedTokenInfo → List ℕ
shows q id none = vocab_bytes q (get_elem? q.id_to_token id)
shows q id (some info) = info.content

abbrev reads : QwenTokenizer → ℕ → List ℕ
reads q id = shows q id (q.id_to_added_token id)

abbrev all_read : QwenTokenizer → List ℕ → List ℕ
all_read q ids = concat (map (reads q) ids)

decode_loop-reads :
    (q : QwenTokenizer) (ids output bytes : List ℕ)
    → decode_loop q false ids output bytes ≡ (output ++ bytes) ++ all_read q ids
unfolding decode_loop
decode_loop-reads q [] output bytes = sym (append-nil (output ++ bytes))
decode_loop-reads q (id ∷ ids) output bytes = elim (Option-cases (q.id_to_added_token id)) [
  | inl e ↦
      let token = vocab_bytes q (get_elem? q.id_to_token id) in
      rw (decode_loop, e)
        (decode_loop-reads q ids output (bytes ++ token)
          ∙ ap (λ t. t ++ all_read q ids) (sym (append_assoc output bytes token))
          ∙ append_assoc (output ++ bytes) token (all_read q ids))
  | inr (info, e) ↦
      rw (decode_loop, e)
        (decode_loop-reads q ids ((output ++ bytes) ++ info.content) []
          ∙ ap (λ t. t ++ all_read q ids) (append-nil ((output ++ bytes) ++ info.content))
          ∙ append_assoc (output ++ bytes) info.content (all_read q ids))
]

all_read-append :
    (q : QwenTokenizer) (xs ys : List ℕ) → all_read q (xs ++ ys) ≡ all_read q xs ++ all_read q ys
all_read-append q [] ys = refl
all_read-append q (x ∷ xs) ys =
    ap (λ t. reads q x ++ t) (all_read-append q xs ys)
    ∙ sym (append_assoc (reads q x) (all_read q xs) (all_read q ys))

ids_of-read :
    (q : QwenTokenizer) (ts : List (List ℕ))
    → IsConsistent q
    → All (λ t. (id : ℕ) × (q.vocab t ≡ some id)) ts
    → all_read q (ids_of q.vocab ts) ≡ concat (map token_bytes ts)
ids_of-read q [] c _ = refl
ids_of-read q (t ∷ ts) c ((id, e), all) =
    let (table, plain) = c.vocab_id t id e in
    ap (λ o. all_read q (push_id o (ids_of q.vocab ts))) e
    ∙ ap (λ o. shows q id o ++ all_read q (ids_of q.vocab ts)) plain
    ∙ ap (λ o. vocab_bytes q o ++ all_read q (ids_of q.vocab ts)) table
    ∙ ap (λ x. token_bytes t ++ x) (ids_of-read q ts c all)

encode_piece-read :
    (q : QwenTokenizer) (piece : List ℕ)
    → IsConsistent q
    → All (λ b. b < 256) piece
    → IsCovered q piece
    → (ids : List ℕ) × (encode_piece q piece ≡ some ids) × (all_read q ids ≡ piece)
encode_piece-read q piece c bytes covered =
    let (ts, e, same, _) = bpe-total q.merges (byte_encode piece) in
    (
      ids_of q.vocab ts,
      ap (λ o. o >>= λ tokens. some (ids_of q.vocab tokens)) e,
      ids_of-read q ts c (covered ts e)
          ∙ bpe-bytes q.merges piece ts bytes e (same ∙ byte_encode-valid piece bytes),
    )

All-split :
    (xs ys : List ℕ) → All (λ b. b < 256) (xs ++ ys) → All (λ b. b < 256) xs × All (λ b. b < 256) ys
All-split [] ys all = (tt, all)
All-split (x ∷ xs) ys (h, all) = let (a, b) = All-split xs ys all in ((h, a), b)

encode_pieces-read :
    (q : QwenTokenizer) (ps : List (List ℕ))
    → IsConsistent q
    → All (λ b. b < 256) (concat ps)
    → All (IsCovered q) ps
    → (ids : List ℕ) × (encode_pieces q ps ≡ some ids) × (all_read q ids ≡ concat ps)
encode_pieces-read q [] c _ _ = ([], refl, refl)
encode_pieces-read q (p ∷ ps) c bytes (covered, all) =
    let (here, behind) = All-split p (concat ps) bytes in
    let (ids, e, read) = encode_piece-read q p c here covered in
    let (rest, f, reads_on) = encode_pieces-read q ps c behind all in
    (
      ids ++ rest,
      rw (e, f) refl,
      all_read-append q ids rest ∙ ap (λ t. t ++ all_read q rest) read ∙ ap (λ t. p ++ t) reads_on,
    )

encode_plain-read :
    (q : QwenTokenizer) (text : List ℕ)
    → IsConsistent q
    → IsReadable q text
    → (ids : List ℕ) × (encode_plain q text ≡ some ids) × (all_read q ids ≡ text)
encode_plain-read q text c (bytes, valid, covered) =
    let same = pre_tokenize-concat text ∙ valid in
    let (ids, e, read) =
      encode_pieces-read q (pre_tokenize text) c (subst (All (λ b. b < 256)) (sym same) bytes)
        covered in
    (ids, e, read ∙ same)

encode_segment-read :
    (q : QwenTokenizer) (s : Segment)
    → IsConsistent q
    → IsListed q.added_tokens s
    → (s.is_special ≡ false → IsReadable q s.text)
    → (ids : List ℕ) × (encode_segment q s ≡ some ids) × (all_read q ids ≡ s.text)
encode_segment-read q s c listed readable = elim (Bool-cases s.is_special) [
  | inl special ↦
      let (i, id, own, e) = listed special in
      let (info, added, same) = c.added_id i s.text id e in
      (
        id ∷ [],
        ap (λ b. if b then some (special_id q s.id) else encode_plain q s.text) special
            ∙ ap (λ o. some (special_id q o)) own,
        ap (λ o. shows q id o ++ []) added ∙ append-nil info.content ∙ same,
      )
  | inr ordinary ↦
      let (ids, e, read) = encode_plain-read q s.text c (readable ordinary) in
      (
        ids,
        ap (λ b. if b then some (special_id q s.id) else encode_plain q s.text) ordinary ∙ e,
        read,
      )
]

encode_segments-read :
    (q : QwenTokenizer) (ss : List Segment)
    → IsConsistent q
    → All (IsListed q.added_tokens) ss
    → All (λ s. s.is_special ≡ false → IsReadable q s.text) ss
    → (ids : List ℕ) × (encode_segments q ss ≡ some ids)
      × (all_read q ids ≡ concat (map (λ s. s.text) ss))
encode_segments-read q [] c _ _ = ([], refl, refl)
encode_segments-read q (s ∷ ss) c (listed, all) (readable, others) =
    let (ids, e, read) = encode_segment-read q s c listed readable in
    let (rest, f, reads_on) = encode_segments-read q ss c all others in
    (
      ids ++ rest,
      ap (λ o. o >>= λ xs. (encode_segments q ss >>= λ ys. some (xs ++ ys))) e
          ∙ ap (λ o. o >>= λ ys. some (ids ++ ys)) f,
      all_read-append q ids rest
          ∙ ap (λ t. t ++ all_read q rest) read
          ∙ ap (λ t. s.text ++ t) reads_on,
    )

-- For a tokenizer whose maps fit each other, and a text whose ordinary segments are bytes of valid
-- UTF-8 without U+0000 and whose pieces the vocabulary covers, encoding succeeds, and decoding without
-- skipping special tokens gives the text back.
pub decode_ids-encode_text :
    (q : QwenTokenizer) (text : List ℕ)
    → IsConsistent q
    → All
        (λ s. s.is_special ≡ false → IsReadable q s.text)
        (split_special_tokens q.added_tokens text)
    → (ids : List ℕ) × (encode_text q text ≡ some ids) × (decode_ids q ids false ≡ text)
unfolding encode_text
decode_ids-encode_text q text c readable =
    let segments = split_special_tokens q.added_tokens text in
    let (ids, e, read) =
      encode_segments-read q segments c (split_special_tokens-IsListed q.added_tokens text)
        readable in
    (ids, e, decode_loop-reads q ids [] [] ∙ read ∙ split_special_tokens-whole q.added_tokens text)
