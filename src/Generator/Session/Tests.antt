-- ===== src/Generator/Session/Tests.antt =====
-- Runs of `Generator::generate` (src/generator.cc).
use vicold_hybrid_ai.Base.{
  ℕ, zero, suc, ◌+◌, ◌<◌, ◌≡◌, refl, Bool, true, false, none, some, List, [], ◌∷◌, length, codes,
  pos, same_text, if◌then◌else◌, arith,
}
use vicold_hybrid_ai.Tokenizer.Utf8.{
  next_codepoint, sequence_length, first_bits, continue_sequence, encode, decode_fuel,
}
use vicold_hybrid_ai.Tokenizer.Classes.{is_whitespace_cpt, is_in_ranges, codepoint_flags}
use vicold_hybrid_ai.Tokenizer.Pieces.{piece_length, pieces, pieces_of, pre_tokenize}
use vicold_hybrid_ai.Tokenizer.Bpe.{bpe}
use vicold_hybrid_ai.Tokenizer.Bytes.{byte_encode, bytes_to_unicode}
use vicold_hybrid_ai.Tokenizer.Segments.{best_match, split_loop}
use vicold_hybrid_ai.Tokenizer.Codec.{QwenTokenizer, encode_text, decode_loop}
use vicold_hybrid_ai.Generator.Defs.{speculate, accepted_prefix}
use vicold_hybrid_ai.Generator.Probe.{decode_probed}
use vicold_hybrid_ai.Generator.Tests.{counting, counting-IsCausal, counting-IsReliable}
use vicold_hybrid_ai.Generator.Api.{
  GenerationOptions, GenerationResult, done, failed, invalid_argument,
}
use vicold_hybrid_ai.Generator.Session.{Environment, Impl, generate, check_options}
use vicold_hybrid_ai.Generator.Session.Greedy.{IsGreedy, generate-IsGreedy}
use vicold_hybrid_ai.Generator.Session.Total.{generate_total}
use vicold_hybrid_ai.Generator.Session.Failed.{Explains, generate-explained}

-- One letter, and the added token 2.
abbrev letter_tokenizer : QwenTokenizer
letter_tokenizer = record {
  vocab = λ t. if same_text t (codes "a") then some 1 else none;
  id_to_token = [];
  merges = λ a b. none;
  added_tokens = [];
  id_to_added_token = λ id. elim id [
    | suc (suc zero) ↦ some (record { content = codes "two"; special = false })
    | _ ↦ none
  ];
}

abbrev loaded_impl : Impl
loaded_impl = record {
  enable_mtp = true;
  loaded = true;
  eos_token_ids = 9 ∷ [];
  max_position_embeddings = 7;
  mtp_layers = 1;
  tokenizer = letter_tokenizer;
  tokenizer_eos_token_ids = 9 ∷ 20 ∷ [];
}

abbrev probe_rows : List ℕ → List ℕ
probe_rows [] = []
probe_rows (x ∷ xs) = (x + 1) ∷ probe_rows xs

abbrev counting_environment : Environment
counting_environment = record {
  width = some (codes " 4");
  has_backend = true;
  network = λ _. counting;
  probe_forward = λ _ m ids rows. some (m, probe_rows ids);
}

abbrev asks : List ℕ → Bool → GenerationOptions
asks prompt speculative = record {
  prompt = prompt;
  max_new_tokens = pos 6;
  use_chat_template = false;
  enable_thinking = false;
  enable_speculative_mtp = speculative;
}

letter_ids : encode_text letter_tokenizer (codes "a") ≡ some (1 ∷ [])
unfolding encode_text bpe byte_encode bytes_to_unicode decode_fuel next_codepoint sequence_length
    first_bits continue_sequence encode split_loop best_match pre_tokenize pieces_of pieces
    piece_length codepoint_flags is_in_ranges is_whitespace_cpt
letter_ids = refl

-- A round that accepts the first of four candidates, and a round that accepts its one candidate.
abbrev speculated_result : GenerationResult
speculated_result = record {
  token_ids = 2 ∷ 3 ∷ 7 ∷ 8 ∷ 9 ∷ [];
  text = codes "two";
  prompt_tokens = 1;
  mtp_proposed_tokens = 5;
  mtp_accepted_tokens = 2;
  mtp_fallback_steps = 0;
  speculative_rounds = 2;
  mtp_rejected_tokens = 3;
  mtp_correction_tokens = 1;
  speculative_replay_tokens = 3;
  speculative_mtp_recovery_tokens = 1;
  speculative_max_proposal_width = 4;
  speculative_mtp_cache_clone_count = 9;
  speculative_target_cache_clone_count = 2;
}

speculated_run :
    generate counting_environment loaded_impl (asks (codes "a") true) ≡ done speculated_result
unfolding generate check_options speculate accepted_prefix decode_loop
speculated_run = rw letter_ids refl

generate-IsGreedy_example :
    IsGreedy counting_environment loaded_impl (asks (codes "a") true) speculated_result
generate-IsGreedy_example =
    generate-IsGreedy counting_environment loaded_impl (λ _. counting-IsCausal)
      (asks (codes "a") true) speculated_result speculated_run

-- The loop without speculation, whose MTP branch is wrong once.
abbrev probed_result : GenerationResult
probed_result = record {
  token_ids = 2 ∷ 3 ∷ 7 ∷ 8 ∷ 9 ∷ [];
  text = codes "two";
  prompt_tokens = 1;
  mtp_proposed_tokens = 5;
  mtp_accepted_tokens = 4;
  mtp_fallback_steps = 1;
  speculative_rounds = 0;
  mtp_rejected_tokens = 0;
  mtp_correction_tokens = 0;
  speculative_replay_tokens = 0;
  speculative_mtp_recovery_tokens = 0;
  speculative_max_proposal_width = 0;
  speculative_mtp_cache_clone_count = 0;
  speculative_target_cache_clone_count = 0;
}

-- The loop without speculation, whose MTP branch is wrong once.
probed_run : generate counting_environment loaded_impl (asks (codes "a") false) ≡ done probed_result
unfolding generate check_options decode_probed decode_loop
probed_run = rw letter_ids refl

generate_total_example :
    (result : GenerationResult) × (generate counting_environment loaded_impl (asks (codes "a") true)
      ≡ done result)
    × (0 < length result.token_ids)
generate_total_example =
    generate_total counting_environment loaded_impl (asks (codes "a") true) 6 1 []
      (record {
        loaded = refl;
        has_prompt = refl;
        asked = refl;
        with_mtp = λ _. refl;
        encoded = letter_ids;
        in_context = omega arith;
      })
      refl counting-IsReliable (λ m x xs rows e. (m, x + 1, probe_rows xs, refl))

empty_run : generate counting_environment loaded_impl (asks [] false) ≡ failed invalid_argument
unfolding generate check_options
empty_run = refl

generate-explained_example :
    Explains counting_environment loaded_impl (asks [] false) invalid_argument
generate-explained_example =
    generate-explained counting_environment loaded_impl (asks [] false) invalid_argument empty_run
