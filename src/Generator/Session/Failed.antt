-- ===== src/Generator/Session/Failed.antt =====
-- What a failure of `Generator::generate` says of the request (src/generator.cc).
use vicold_hybrid_ai.Base.{
  ℕ, ◌+◌, ◌<◌, ◌≡◌, refl, sym, true, false, ◌⊎◌, none, some, List, length, leb, leb→le, ◌≤◌, arith,
  Bool-cases, Option-cases, inl, inr, is_empty, subst,
}
use vicold_hybrid_ai.Tokenizer.Codec.{encode_text}
use vicold_hybrid_ai.Tokenizer.Codec.Total.{encode_text_total}
use vicold_hybrid_ai.Generator.Api.{
  failed, done, ApiResult, ApiStatusCode, invalid_argument, invalid_model, backend_error, unknown,
  out_of_memory, internal_error, invalid_device, file_not_found, not_implemented, GenerationOptions,
  GenerationResult, positive, require, or_failed, ◌>>◌, failed-injective, ApiResult-cases,
}
use vicold_hybrid_ai.Generator.Session.{
  Environment, Impl, prompt_text, check_options, run_loop, generate,
}
use vicold_hybrid_ai.Generator.Session.Total.{IsAccepted}

module _ (env : Environment) (impl : Impl) where
  -- The tests that answer `InvalidArgument`.
  pub data Refused (options : GenerationOptions) : Type 0 where
    no_prompt : is_empty options.prompt ≡ true → Refused options
    no_tokens : positive options.max_new_tokens ≡ none → Refused options
    no_mtp : options.enable_speculative_mtp ≡ true → impl.enable_mtp ≡ false → Refused options
    too_long :
        (max_new : ℕ) (ids : List ℕ)
        → positive options.max_new_tokens ≡ some max_new
        → encode_text impl.tokenizer (prompt_text options) ≡ some ids
        → impl.max_position_embeddings < length ids + max_new
        → Refused options

  -- An accepted request, for which there is no backend or whose loop fails.
  abbrev pub Broken : GenerationOptions → Type 0
  Broken options =
      (max_new : ℕ) × (ids : List ℕ) × IsAccepted impl options max_new ids
      × ((env.has_backend ≡ false)
          ⊎ (run_loop env impl options (length ids + max_new) max_new ids ≡ none))

  abbrev pub Explains : GenerationOptions → ApiStatusCode → Type 0
  Explains options invalid_model = impl.loaded ≡ false
  Explains options invalid_argument = (impl.loaded ≡ true) × Refused options
  Explains options backend_error = Broken options
  Explains options out_of_memory = ⊥
  Explains options internal_error = ⊥
  Explains options invalid_device = ⊥
  Explains options file_not_found = ⊥
  Explains options not_implemented = ⊥
  Explains options unknown = ⊥

  because :
      (options : GenerationOptions) {code c : ApiStatusCode}
      → ◌≡◌ {A = ApiResult GenerationResult} (failed c) (failed code)
      → Explains options c
      → Explains options code
  because options e x = subst (Explains options) (failed-injective e) x

  -- Behind the tests.
  run-explained :
      (options : GenerationOptions) (code : ApiStatusCode) (max_new : ℕ) (ids : List ℕ)
      → IsAccepted impl options max_new ids
      → (require env.has_backend backend_error
          >> or_failed (run_loop env impl options (length ids + max_new) max_new ids) backend_error)
        ≡ failed code
      → Explains options code
  run-explained options code max_new ids ok h = elim (Bool-cases env.has_backend) [
    | inr missing ↦ because options (rw missing at h) (max_new, ids, ok, inl missing)
    | inl found ↦
        elim (Option-cases (run_loop env impl options (length ids + max_new) max_new ids)) [
          | inl fails ↦ because options (rw (found, fails) at h) (max_new, ids, ok, inr fails)
          | inr (result, answers) ↦ absurd (ok-failed (rw (found, answers) at h))
        ]
  ]
    where
      ok-failed :
          {r : GenerationResult} → ◌≡◌ {A = ApiResult GenerationResult} (done r) (failed code) → ⊥
      ok-failed e = cc

  length-explained :
      (options : GenerationOptions) (code : ApiStatusCode) (max_new : ℕ) (ids : List ℕ)
      → (impl.max_position_embeddings < length ids + max_new → Refused options)
      → (length ids + max_new ≤ impl.max_position_embeddings → IsAccepted impl options max_new ids)
      → impl.loaded ≡ true
      → (require (leb (length ids + max_new) impl.max_position_embeddings) invalid_argument
          >> (require env.has_backend backend_error
              >> or_failed
                  (run_loop env impl options (length ids + max_new) max_new ids)
                  backend_error))
        ≡ failed code
      → Explains options code
  length-explained options code max_new ids long fits loaded h =
      elim (Bool-cases (leb (length ids + max_new) impl.max_position_embeddings)) [
        | inr over ↦ because options (rw over at h) (loaded, long (ground arith))
        | inl within ↦
            run-explained options code max_new ids
              (fits (leb→le (length ids + max_new) impl.max_position_embeddings within))
              (rw within at h)
      ]

  abbrev Checked : GenerationOptions → ApiResult ℕ → Type 0
  Checked options (failed code) = Explains options code
  Checked options (done max_new) =
      (impl.loaded ≡ true)
      × (is_empty options.prompt ≡ false)
      × (positive options.max_new_tokens ≡ some max_new)
      × (options.enable_speculative_mtp ≡ true → impl.enable_mtp ≡ true)

  decided :
      (options : GenerationOptions) (r : ApiResult ℕ)
      → check_options impl options ≡ r
      → Checked options r
      → Checked options (check_options impl options)
  decided options r e x = subst (Checked options) (sym e) x

  check_options-Checked :
      (options : GenerationOptions) → Checked options (check_options impl options)
  unfolding check_options
  check_options-Checked options = elim (Bool-cases impl.loaded) [
    | inr unloaded ↦ decided options (failed invalid_model) (rw unloaded refl) unloaded
    | inl loaded ↦ elim (Bool-cases (is_empty options.prompt)) [
      | inl empty ↦
          decided options (failed invalid_argument) (rw (loaded, empty) refl)
            (loaded, no_prompt empty)
      | inr prompt ↦ elim (Option-cases (positive options.max_new_tokens)) [
        | inl unasked ↦
            decided options (failed invalid_argument) (rw (loaded, prompt, unasked) refl)
              (loaded, no_tokens unasked)
        | inr (max_new, asked) ↦ elim (Bool-cases options.enable_speculative_mtp) [
          | inr off ↦
              decided options (done max_new) (rw (loaded, prompt, asked, off) refl)
                (loaded, prompt, asked, λ on. absurd (cc))
          | inl on ↦ elim (Bool-cases impl.enable_mtp) [
            | inr without ↦
                decided options (failed invalid_argument)
                  (rw (loaded, prompt, asked, on, without) refl) (loaded, no_mtp on without)
            | inl with ↦
                decided options (done max_new) (rw (loaded, prompt, asked, on, with) refl)
                  (loaded, prompt, asked, λ _. with)
          ]
        ]
      ]
    ]
  ]

  -- Each failure has the code of its cause: `InvalidModel` only before a model is loaded,
  -- `InvalidArgument` only for a request that one of the tests refuses, `BackendError` only for an
  -- accepted request without a backend or with a failing loop, and no other code at all.
  pub generate-explained :
      (options : GenerationOptions) (code : ApiStatusCode)
      → generate env impl options ≡ failed code
      → Explains options code
  unfolding generate
  generate-explained options code h =
      let checked = check_options-Checked options in
      elim (ApiResult-cases (check_options impl options)) [
        | inr (c, e) ↦ because options (rw e at h) (rw e at checked)
        | inl (max_new, e) ↦
            let (ids, encoded) = encode_text_total impl.tokenizer (prompt_text options) in
            let (loaded, prompt, asked, with_mtp) = rw e at checked in
            length-explained options code max_new ids (too_long max_new ids asked encoded)
              (λ in_context. record {
                loaded = loaded;
                has_prompt = prompt;
                asked = asked;
                with_mtp = with_mtp;
                encoded = encoded;
                in_context = in_context;
              })
              loaded (rw (e, encoded) at h)
      ]
