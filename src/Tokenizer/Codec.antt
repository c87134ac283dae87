-- ===== src/Tokenizer/Codec.antt =====
-- src/tokenizer/qwen_tokenizer.cc: `encode`, `decode` and `build_chat_prompt`, on a tokenizer that is
-- loaded. Ids are natural numbers: the negative ids, which `decode` skips, are left out.
mod Bytewise
mod Listed
pub mod Total
pub mod Roundtrip
use vicold_hybrid_ai.Base.{
  ℕ, Bool, true, false, ◌||◌, not, Option, none, some, List, [], ◌∷◌, ◌++◌, get_elem?, concat,
  if◌then◌else◌, ◌>>=◌, codes,
}
use vicold_hybrid_ai.Tokenizer.Pieces.{pre_tokenize}
use vicold_hybrid_ai.Tokenizer.Bpe.{bpe}
use vicold_hybrid_ai.Tokenizer.Bytes.{byte_encode, token_bytes}
use vicold_hybrid_ai.Tokenizer.Segments.{Segment, split_special_tokens}

pub record AddedTokenInfo : Type 0 where
  pub content : List ℕ
  pub special : Bool

-- What `load` fills. The maps are functions; `merges` gives the rank of a pair.
pub record QwenTokenizer : Type 0 where
  pub vocab : List ℕ → Option ℕ
  pub id_to_token : List (List ℕ)
  pub merges : List ℕ → List ℕ → Option ℕ
  pub added_tokens : List (List ℕ × ℕ)
  pub id_to_added_token : ℕ → Option AddedTokenInfo

abbrev pub push_id : Option ℕ → List ℕ → List ℕ
push_id none ids = ids
push_id (some id) ids = id ∷ ids

-- A token that the vocabulary does not have is left out.
abbrev pub ids_of : (List ℕ → Option ℕ) → List (List ℕ) → List ℕ
ids_of vocab [] = []
ids_of vocab (t ∷ ts) = push_id (vocab t) (ids_of vocab ts)

module _ (q : QwenTokenizer) where
  abbrev pub encode_piece : List ℕ → Option (List ℕ)
  encode_piece piece = bpe q.merges (byte_encode piece) >>= λ tokens. some (ids_of q.vocab tokens)

  abbrev pub encode_pieces : List (List ℕ) → Option (List ℕ)
  encode_pieces [] = some []
  encode_pieces (p ∷ ps) =
      encode_piece p >>= λ ids. (encode_pieces ps >>= λ rest. some (ids ++ rest))

  abbrev pub encode_plain : List ℕ → Option (List ℕ)
  encode_plain text = encode_pieces (pre_tokenize text)

  abbrev pub special_id : Option ℕ → List ℕ
  special_id none = []
  special_id (some id) = id ∷ []

  abbrev pub encode_segment : Segment → Option (List ℕ)
  encode_segment s = if s.is_special then some (special_id s.id) else encode_plain s.text

  abbrev pub encode_segments : List Segment → Option (List ℕ)
  encode_segments [] = some []
  encode_segments (s ∷ ss) =
      encode_segment s >>= λ ids. (encode_segments ss >>= λ rest. some (ids ++ rest))

  -- `none` would mean that the fuel of `bpe` ran out, which it does not.
  unfoldable pub encode_text : List ℕ → Option (List ℕ)
  encode_text text = encode_segments (split_special_tokens q.added_tokens text)

  abbrev pub shown : Bool → AddedTokenInfo → List ℕ
  shown skip info = if not skip || not info.special then info.content else []

  abbrev pub vocab_bytes : Option (List ℕ) → List ℕ
  vocab_bytes none = []
  vocab_bytes (some token) = token_bytes token

  -- The loop, with the output and the bytes that are not flushed. An id beyond the table adds nothing.
  unfoldable pub decode_loop : Bool → List ℕ → List ℕ → List ℕ → List ℕ
  decode_loop skip [] output bytes = output ++ bytes
  decode_loop skip (id ∷ ids) output bytes = elim (q.id_to_added_token id) [
    | some info ↦ decode_loop skip ids ((output ++ bytes) ++ shown skip info) []
    | none ↦ decode_loop skip ids output (bytes ++ vocab_bytes (get_elem? q.id_to_token id))
  ]

  abbrev pub decode_ids : List ℕ → Bool → List ℕ
  decode_ids ids skip = decode_loop skip ids [] []

abbrev pub message_text : List ℕ × List ℕ → List ℕ
message_text (role, content) =
    codes "<|im_start|>" ++ role ++ codes "\n" ++ content ++ codes "<|im_end|>\n"

abbrev pub messages_text : List (List ℕ × List ℕ) → List ℕ
messages_text [] = []
messages_text (m ∷ ms) = message_text m ++ messages_text ms

unfoldable pub build_chat_prompt : List (List ℕ × List ℕ) → Bool → Bool → List ℕ
build_chat_prompt messages add_generation_prompt enable_thinking =
    messages_text messages
    ++ (if add_generation_prompt
        then codes "<|im_start|>assistant\n"
          ++ (if enable_thinking then codes "<think>\n" else codes "<think>\n\n</think>\n\n")
        else [])
