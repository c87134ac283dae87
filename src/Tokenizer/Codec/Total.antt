-- ===== src/Tokenizer/Codec/Total.antt =====
-- src/tokenizer/qwen_tokenizer.cc: `encode` answers on every text.
use vicold_hybrid_ai.Base.{ℕ, ◌≡◌, refl, some, List, [], ◌∷◌, ◌++◌, Bool-cases, inl, inr}
use vicold_hybrid_ai.Tokenizer.Pieces.{pre_tokenize}
use vicold_hybrid_ai.Tokenizer.Bpe.{bpe-total}
use vicold_hybrid_ai.Tokenizer.Bytes.{byte_encode}
use vicold_hybrid_ai.Tokenizer.Segments.{Segment, split_special_tokens}
use vicold_hybrid_ai.Tokenizer.Codec.{
  QwenTokenizer, encode_text, encode_pieces, encode_segments, encode_segment, ids_of, special_id,
}

module _ (q : QwenTokenizer) where
  encode_pieces_total : (ps : List (List ℕ)) → (ids : List ℕ) × (encode_pieces q ps ≡ some ids)
  encode_pieces_total [] = ([], refl)
  encode_pieces_total (p ∷ ps) =
      let (tokens, e, _, _) = bpe-total q.merges (byte_encode p) in
      let (rest, r) = encode_pieces_total ps in (ids_of q.vocab tokens ++ rest, rw (e, r) refl)

  encode_segment_total : (s : Segment) → (ids : List ℕ) × (encode_segment q s ≡ some ids)
  encode_segment_total s = elim (Bool-cases s.is_special) [
    | inl special ↦ (special_id q s.id, rw special refl)
    | inr plain ↦ let (ids, e) = encode_pieces_total (pre_tokenize s.text) in (ids, rw plain e)
  ]

  encode_segments_total : (ss : List Segment) → (ids : List ℕ) × (encode_segments q ss ≡ some ids)
  encode_segments_total [] = ([], refl)
  encode_segments_total (s ∷ ss) =
      let (ids, e) = encode_segment_total s in
      let (rest, r) = encode_segments_total ss in (ids ++ rest, rw (e, r) refl)

  pub encode_text_total : (text : List ℕ) → (ids : List ℕ) × (encode_text q text ≡ some ids)
  unfolding encode_text
  encode_text_total text = encode_segments_total (split_special_tokens q.added_tokens text)
