-- ===== src/Generator/Session/Total.antt =====
-- When `Generator::generate` answers, and what it fails with where it does not (src/generator.cc).
use vicold_hybrid_ai.Base.{
  ℕ, zero, suc, ◌+◌, ◌≤◌, ◌<◌, ◌≡◌, refl, Bool, true, false, Option, none, some, List, [], ◌∷◌,
  length, leb, arith, Bool-cases, inl, inr, is_empty, ℤ, pos, negsuc,
}
use vicold_hybrid_ai.Tokenizer.Codec.{encode_text}
use vicold_hybrid_ai.Generator.Network.{Network, IsReliable}
use vicold_hybrid_ai.Generator.Progress.{speculate_total, last?-some, last?_found}
use vicold_hybrid_ai.Generator.Probe.{
  decode_probed, no_probes, ProbeCounts, active_cache, probe, count_probe, compare_token,
}
use vicold_hybrid_ai.Generator.Api.{
  ApiResult, done, backend_error, GenerationOptions, GenerationResult, positive,
  speculative_proposal_width, or_failed,
}
use vicold_hybrid_ai.Generator.Session.{
  Environment, Impl, is_eos, prompt_text, check_options, speculates, run_loop, probe_result,
  result_of, probes_mtp, generate,
}

-- The MTP forward of the greedy loop answers with a row for each token.
abbrev pub IsReliableProbe :
    (net : Network)
    → (net.MtpCache → List ℕ → List net.Row → Option (net.MtpCache × List net.Row))
    → Type 0
IsReliableProbe net probe_forward =
    (m : net.MtpCache) (x : ℕ) (xs : List ℕ) (rows : List net.Row)
    → length rows ≡ suc (length xs)
    → (m' : net.MtpCache) × (row : net.Row) × (rest : List net.Row) × (probe_forward m (x ∷ xs) rows
        ≡ some (m', row ∷ rest))

module _ (net : Network) (eos : ℕ → Bool)
    (probe_forward : net.MtpCache → List ℕ → List net.Row → Option (net.MtpCache × List net.Row))
    (reliable : IsReliable net) (probes_ok : IsReliableProbe net probe_forward) where
  open net use {TargetCache, MtpCache, Row, target_forward}

  active_cache-total :
      (copies : Bool) (c : TargetCache)
      → (d : TargetCache) × (active_cache net eos probe_forward copies c ≡ some d)
  active_cache-total true c = reliable.cloned_target c
  active_cache-total false c = (c, refl)

  probe-total :
      (probes : Bool) (m : MtpCache) (x : ℕ) (xs : List ℕ) (rows : List Row)
      → length rows ≡ suc (length xs)
      → (r : MtpCache × Option Row) × (probe net eos probe_forward probes m (x ∷ xs) rows ≡ some r)
  probe-total false m x xs rows e = ((m, none), refl)
  probe-total true m x xs rows e =
      let (scratch, cloned) = reliable.cloned_mtp m in
      let (m', row, rest, forward) = probes_ok scratch x xs rows e in
      let (last, found) = last?-some row rest in ((m', some last), rw (cloned, forward, found) refl)

  count_probe-total :
      (row : Option Row) (next : ℕ) (counts : ProbeCounts)
      → (counts' : ProbeCounts) × (count_probe net eos probe_forward row next counts ≡ some counts')
  count_probe-total none next counts = (counts, refl)
  count_probe-total (some row) next counts =
      let (id, predicted) = reliable.predicted row in
      (compare_token id next counts, rw predicted refl)

  -- The loop ends with at least one token where any is asked for, and with no more than that.
  pub decode_probed_total :
      (copies probes : Bool) (left : ℕ) (c : TargetCache) (m : MtpCache) (x : ℕ) (xs : List ℕ)
      (counts : ProbeCounts)
      → (r : List ℕ × ProbeCounts) × (decode_probed net eos probe_forward copies probes left c m
            (x ∷ xs)
            counts
          ≡ some r)
        × (0 < left → 0 < length r.0)
        × (length r.0 ≤ left)
  unfolding decode_probed
  decode_probed_total copies probes zero c m x xs counts =
      (([], counts), refl, λ lt. absurd (omega arith), omega arith)
  decode_probed_total copies probes (suc left) c m x xs counts =
      let (active, a) = active_cache-total copies c in
      let (c', rows, f, size) = reliable.target_row active x xs in
      let (probed, p) = probe-total probes m x xs rows size in
      let (row, l) = last?_found rows (omega arith) in
      let (next, n) = reliable.predicted row in
      let (counted, k) = count_probe-total probed.1 next counts in
      elim (Bool-cases (eos next)) [
        | inl ends ↦
            ((next ∷ [], counted), rw (a, f, p, l, n, k, ends) refl, λ _. omega arith, omega arith)
        | inr goes ↦
            let (r, e, _, short) =
              decode_probed_total copies probes left c' probed.0 next [] counted in
            ((next ∷ r.0, r.1), rw (a, f, p, l, n, k, goes, e) refl, λ _. omega arith, omega arith)
      ]

-- What the tests of `generate` let pass.
pub record IsAccepted (impl : Impl) (options : GenerationOptions) (max_new : ℕ) (ids : List ℕ)
    : Type 0 where
  pub loaded : impl.loaded ≡ true
  pub has_prompt : is_empty options.prompt ≡ false
  pub asked : positive options.max_new_tokens ≡ some max_new
  pub with_mtp : options.enable_speculative_mtp ≡ true → impl.enable_mtp ≡ true
  pub encoded : encode_text impl.tokenizer (prompt_text options) ≡ some ids
  pub in_context : length ids + max_new ≤ impl.max_position_embeddings

module _ (env : Environment) (impl : Impl) where
  abbrev Answers : ApiResult GenerationResult → Type 0
  Answers r = (result : GenerationResult) × (r ≡ done result) × (0 < length result.token_ids)

  run_loop_total :
      (options : GenerationOptions) (len max_new x : ℕ) (xs : List ℕ)
      → IsReliable (env.network len)
      → IsReliableProbe (env.network len) (env.probe_forward len)
      → 0 < max_new
      → Answers (or_failed (run_loop env impl options len max_new (x ∷ xs)) backend_error)
  run_loop_total options len max_new x xs reliable probes_ok lt =
      elim (Bool-cases (speculates impl options)) [
        | inl on ↦
            let (s, e, some_more) =
              speculate_total (env.network len) (is_eos impl) max_new reliable
                (speculative_proposal_width env.width) x xs in
            (result_of impl (length (x ∷ xs)) s.generated s.counts 0, rw (on, e) refl, some_more lt)
        | inr off ↦
            let (r, e, some_more, _) =
              decode_probed_total (env.network len) (is_eos impl) (env.probe_forward len) reliable
                probes_ok options.enable_speculative_mtp (probes_mtp impl) max_new
                ((env.network len).empty_target) ((env.network len).empty_mtp) x xs no_probes in
            (probe_result env impl (length (x ∷ xs)) r, rw (off, e) refl, some_more lt)
      ]

  check_options-IsAccepted :
      (options : GenerationOptions) (max_new : ℕ) (ids : List ℕ)
      → IsAccepted impl options max_new ids
      → check_options impl options ≡ done max_new
  unfolding check_options
  check_options-IsAccepted options max_new ids ok =
      rw (ok.loaded, ok.has_prompt, ok.asked)
        (elim (Bool-cases options.enable_speculative_mtp) [
          | inl on ↦ rw (on, ok.with_mtp on) refl
          | inr off ↦ rw off refl
        ])

  positive-lt : (z : ℤ) (n : ℕ) → positive z ≡ some n → 0 < n
  positive-lt (pos zero) n h = absurd (cc)
  positive-lt (pos (suc k)) n h = ground arith
  positive-lt (negsuc k) n h = absurd (cc)

  leb_of : (a b : ℕ) → a ≤ b → leb a b ≡ true
  leb_of a b h = ground arith

  -- If the tests let the options pass, the last device has its backend, and no operation of the network
  -- or of the device fails, then `generate` answers with at least one token.
  pub generate_total :
      (options : GenerationOptions) (max_new x : ℕ) (xs : List ℕ)
      → IsAccepted impl options max_new (x ∷ xs)
      → env.has_backend ≡ true
      → IsReliable (env.network (length (x ∷ xs) + max_new))
      → IsReliableProbe
          (env.network (length (x ∷ xs) + max_new))
          (env.probe_forward (length (x ∷ xs) + max_new))
      → Answers (generate env impl options)
  unfolding generate
  generate_total options max_new x xs ok backend reliable probes_ok =
      rw
        (
          check_options-IsAccepted options max_new (x ∷ xs) ok,
          ok.encoded,
          leb_of (length (x ∷ xs) + max_new) impl.max_position_embeddings ok.in_context,
          backend,
        )
        (run_loop_total options (length (x ∷ xs) + max_new) max_new x xs reliable probes_ok
          (positive-lt options.max_new_tokens max_new ok.asked))
