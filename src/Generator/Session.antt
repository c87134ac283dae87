-- ===== src/Generator/Session.antt =====
-- src/generator.cc, `Generator::generate` from the options to the result: the guards, the prompt and its
-- ids, the choice of the loop, and the answer. The network may depend on the length of the caches, as
-- the forward passes take `max_cache_len`. The
-- pointer to the result is not null.
mod Greedy
mod Total
mod Failed
mod Tests
use vicold_hybrid_ai.Base.{
  ℕ, ◌+◌, Bool, true, false, ◌||◌, ◌&&◌, not, Option, List, [], ◌∷◌, ◌++◌, length, leb, ◌==◌,
  if◌then◌else◌, codes, is_empty,
}
use mathlib.Core.Option.{map}
use vicold_hybrid_ai.Tokenizer.Codec.{QwenTokenizer, encode_text, decode_ids, build_chat_prompt}
use vicold_hybrid_ai.Generator.Network.{Network}
use vicold_hybrid_ai.Generator.Defs.{Counters, no_counts, speculate}
use vicold_hybrid_ai.Generator.Probe.{ProbeCounts, no_probes, decode_probed}
use vicold_hybrid_ai.Generator.Api.{
  ApiResult, done, invalid_argument, invalid_model, backend_error, unknown, GenerationOptions,
  GenerationResult, positive, speculative_proposal_width, ◌>>=◌, ◌>>◌, require, or_failed,
}

-- `Generator::Impl`, as far as `generate` reads it; the caches are reset before they are read.
pub record Impl : Type 0 where
  pub enable_mtp : Bool
  pub loaded : Bool
  pub eos_token_ids : List ℕ
  pub max_position_embeddings : ℕ
  pub mtp_layers : ℕ
  pub tokenizer : QwenTokenizer
  pub tokenizer_eos_token_ids : List ℕ

-- What a run finds around the generator: the variable HYBRIDAI_SPECULATIVE_WIDTH, whether the backend
-- of the last device exists, and, for each length of the caches, the network and the MTP forward of
-- the greedy loop.
pub record Environment : Type 1 where
  pub width : Option (List ℕ)
  pub has_backend : Bool
  pub network : ℕ → Network
  pub probe_forward :
      (len : ℕ)
      → (network len).MtpCache
      → List ℕ
      → List ((network len).Row)
      → Option ((network len).MtpCache × List ((network len).Row))

-- `std::binary_search` in the sorted ids.
abbrev pub contains : List ℕ → ℕ → Bool
contains [] x = false
contains (y ∷ ys) x = (x == y) || contains ys x

abbrev pub is_eos : Impl → ℕ → Bool
is_eos impl = contains (impl.eos_token_ids ++ impl.tokenizer_eos_token_ids)

abbrev pub prompt_text : GenerationOptions → List ℕ
prompt_text options =
    if options.use_chat_template
    then build_chat_prompt ((codes "user", options.prompt) ∷ []) true options.enable_thinking
    else options.prompt

-- The tests in front of the reset. They give the number of tokens that is asked for.
unfoldable pub check_options : Impl → GenerationOptions → ApiResult ℕ
check_options impl options = do
  require impl.loaded invalid_model
  require (not (is_empty options.prompt)) invalid_argument
  max_new ← or_failed (positive options.max_new_tokens) invalid_argument
  require (not options.enable_speculative_mtp || impl.enable_mtp) invalid_argument
  done max_new

abbrev pub speculates : Impl → GenerationOptions → Bool
speculates impl options = options.enable_speculative_mtp && not (impl.mtp_layers == 0)

abbrev pub probes_mtp : Impl → Bool
probes_mtp impl = impl.enable_mtp && not (impl.mtp_layers == 0)

abbrev pub result_of : Impl → ℕ → List ℕ → Counters → ℕ → GenerationResult
result_of impl prompt_tokens tokens counts fallbacks = record {
  token_ids = tokens;
  text = decode_ids impl.tokenizer tokens true;
  prompt_tokens = prompt_tokens;
  mtp_proposed_tokens = counts.proposed;
  mtp_accepted_tokens = counts.accepted;
  mtp_fallback_steps = fallbacks;
  speculative_rounds = counts.rounds;
  mtp_rejected_tokens = counts.rejected;
  mtp_correction_tokens = counts.corrections;
  speculative_replay_tokens = counts.replay_tokens;
  speculative_mtp_recovery_tokens = counts.recovery_tokens;
  speculative_max_proposal_width = counts.max_proposal_width;
  speculative_mtp_cache_clone_count = counts.mtp_clones;
  speculative_target_cache_clone_count = counts.target_clones;
}

module _ (env : Environment) (impl : Impl) where
  abbrev pub run_speculative : ℕ → ℕ → List ℕ → Option GenerationResult
  run_speculative len max_new ids =
      map (λ s. result_of impl (length ids) s.generated s.counts 0)
        (speculate (env.network len) (is_eos impl) max_new (speculative_proposal_width env.width)
          ids)

  abbrev pub probe_result : ℕ → List ℕ × ProbeCounts → GenerationResult
  probe_result prompt_tokens (tokens, counts) =
      result_of impl prompt_tokens tokens
        (record no_counts { proposed = counts.proposed; accepted = counts.accepted })
        counts.fallbacks

  abbrev pub run_greedy : Bool → ℕ → ℕ → List ℕ → Option GenerationResult
  run_greedy copies len max_new ids = map (probe_result (length ids)) (
      decode_probed (env.network len) (is_eos impl) (env.probe_forward len) copies (probes_mtp impl)
        max_new ((env.network len).empty_target) ((env.network len).empty_mtp) ids no_probes)

  abbrev pub run_loop : GenerationOptions → ℕ → ℕ → List ℕ → Option GenerationResult
  run_loop options len max_new ids =
      if speculates impl options
      then run_speculative len max_new ids
      else run_greedy options.enable_speculative_mtp len max_new ids

  unfoldable pub generate : GenerationOptions → ApiResult GenerationResult
  unfolding check_options
  generate options = do
    max_new ← check_options impl options
    ids ← or_failed (encode_text impl.tokenizer (prompt_text options)) unknown
    let max_cache_len = length ids + max_new
    require (leb max_cache_len impl.max_position_embeddings) invalid_argument
    require env.has_backend backend_error
    or_failed (run_loop options max_cache_len max_new ids) backend_error
