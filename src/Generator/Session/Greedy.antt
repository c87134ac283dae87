-- ===== src/Generator/Session/Greedy.antt =====
-- What an answer of `Generator::generate` is (src/generator.cc).
use vicold_hybrid_ai.Base.{
  ℕ, ◌+◌, ◌≤◌, ◌≡◌, refl, true, not, ◌||◌, Option, none, some, List, length, leb, leb→le,
  Bool-cases, inl, inr, subst, is_empty,
}
use mathlib.Core.Option.{map, some-injective}
use vicold_hybrid_ai.Tokenizer.Codec.{encode_text, decode_ids}
use vicold_hybrid_ai.Generator.Network.{IsCausal}
use vicold_hybrid_ai.Generator.Defs.{decode, speculate}
use vicold_hybrid_ai.Generator.Equivalence.{speculate-eq-decode}
use vicold_hybrid_ai.Generator.Probe.{decode_probed, decode_probed-decode, no_probes}
use vicold_hybrid_ai.Generator.Api.{
  done, invalid_argument, invalid_model, backend_error, unknown, GenerationOptions,
  GenerationResult, positive, speculative_proposal_width, require-elim, or_failed-elim,
  done-injective, or_failed-done, >>=-elim,
}
use vicold_hybrid_ai.Generator.Session.{
  Environment, Impl, is_eos, prompt_text, check_options, speculates, run_loop, probes_mtp, generate,
}

map-elim {ℓ κ μ} :
    {A : Type ℓ} {B : Type κ} {R : Type μ} (f : A → B) (o : Option A) {b : B}
    → map f o ≡ some b
    → ((a : A) → o ≡ some a → f a ≡ b → R)
    → R
map-elim f (some a) h k = k a refl (some-injective (f a) _ h)
map-elim f none h k = absurd (cc)

module _ (env : Environment) (impl : Impl) where
  -- The plain greedy loop on the ids of the prompt gives the tokens, whatever the options are.
  pub record IsGreedy (options : GenerationOptions) (result : GenerationResult) : Type 0 where
    pub max_new : ℕ
    pub ids : List ℕ
    pub asked : positive options.max_new_tokens ≡ some max_new
    pub encoded : encode_text impl.tokenizer (prompt_text options) ≡ some ids
    pub in_context : length ids + max_new ≤ impl.max_position_embeddings
    pub greedy :
        decode
          (env.network (length ids + max_new))
          (is_eos impl)
          max_new
          ((env.network (length ids + max_new)).empty_target)
          ids
        ≡ some result.token_ids
    pub shown : result.text ≡ decode_ids impl.tokenizer result.token_ids true
    pub prompt_length : result.prompt_tokens ≡ length ids

  abbrev Answers : ℕ → ℕ → List ℕ → GenerationResult → Type 0
  Answers len max_new ids result =
      (decode (env.network len) (is_eos impl) max_new ((env.network len).empty_target) ids
        ≡ some result.token_ids)
      × (result.text ≡ decode_ids impl.tokenizer result.token_ids true)
      × (result.prompt_tokens ≡ length ids)

  run_loop-Answers :
      (options : GenerationOptions) (len max_new : ℕ) (ids : List ℕ) (result : GenerationResult)
      → IsCausal (env.network len)
      → run_loop env impl options len max_new ids ≡ some result
      → Answers len max_new ids result
  run_loop-Answers options len max_new ids result causal h =
      elim (Bool-cases (speculates impl options)) [
        | inl on ↦
            map-elim _
              (speculate (env.network len) (is_eos impl) max_new
                (speculative_proposal_width env.width) ids)
              (rw on at h)
              λ s found same. subst (Answers len max_new ids) same (
                speculate-eq-decode (env.network len) (is_eos impl) max_new causal
                    (speculative_proposal_width env.width) ids s found,
                refl,
                refl,
              )
        | inr off ↦
            map-elim _
              (decode_probed (env.network len) (is_eos impl) (env.probe_forward len)
                options.enable_speculative_mtp (probes_mtp impl) max_new
                ((env.network len).empty_target) ((env.network len).empty_mtp) ids no_probes)
              (rw off at h)
              λ run found same. subst (Answers len max_new ids) same (
                decode_probed-decode (env.network len) (is_eos impl) (env.probe_forward len) causal
                    options.enable_speculative_mtp (probes_mtp impl) max_new
                    ((env.network len).empty_target) ((env.network len).empty_mtp) ids no_probes
                    run.0 run.1 found,
                refl,
                refl,
              )
      ]

  check_options-asked :
      (options : GenerationOptions) (max_new : ℕ)
      → check_options impl options ≡ done max_new
      → positive options.max_new_tokens ≡ some max_new
  unfolding check_options
  check_options-asked options max_new h = require-elim impl.loaded invalid_model _ h λ _ h1.
      require-elim (not (is_empty options.prompt)) invalid_argument _ h1 λ _ h2.
        or_failed-elim (positive options.max_new_tokens) invalid_argument _ h2 λ n asked h3.
          require-elim (not options.enable_speculative_mtp || impl.enable_mtp) invalid_argument _ h3
            λ _ h4. rw (← done-injective h4) asked

  -- On networks that are causal, an answer of `generate` has, whatever the options choose, the tokens
  -- of the plain greedy loop on the ids of the prompt, their text, and the number of ids of the prompt;
  -- and the prompt with the tokens asked for fits the context of the model.
  pub generate-IsGreedy :
      (causal : (len : ℕ) → IsCausal (env.network len)) (options : GenerationOptions)
      (result : GenerationResult)
      → generate env impl options ≡ done result
      → IsGreedy options result
  unfolding generate
  generate-IsGreedy causal options result h =
      >>=-elim (check_options impl options) _ h λ max_new checked h1.
        or_failed-elim (encode_text impl.tokenizer (prompt_text options)) unknown _ h1
          λ ids encoded h2.
            require-elim (leb (length ids + max_new) impl.max_position_embeddings) invalid_argument
              _ h2
              λ fits h3. require-elim env.has_backend backend_error _ h3 λ _ h4.
                let len = length ids + max_new in
                let (greedy, shown, prompt_length) =
                  run_loop-Answers options len max_new ids result (causal len)
                    (or_failed-done (run_loop env impl options len max_new ids) backend_error h4) in
                record {
                  max_new = max_new;
                  ids = ids;
                  asked = check_options-asked options max_new checked;
                  encoded = encoded;
                  in_context = leb→le len impl.max_position_embeddings fits;
                  greedy = greedy;
                  shown = shown;
                  prompt_length = prompt_length;
                }
