-- ===== src/Generator/Probe.antt =====
-- src/generator.cc: the greedy loop of `Generator::generate` with its MTP branches. In each step the
-- options may put the forward of the target on a copy of its caches, and MTP may predict the token of
-- the step, to be counted only.
use vicold_hybrid_ai.Base.{
  ℕ, zero, suc, ◌+◌, ◌≡◌, refl, Bool, true, false, Option, none, some, List, [], ◌∷◌, ◌==◌,
  if◌then◌else◌, ◌>>=◌, >>=-elim, Bool-cases, inl, inr, sym, subst, ap,
}
use mathlib.Core.Option.{some-injective}
use vicold_hybrid_ai.Generator.Network.{Network, IsCausal}
use vicold_hybrid_ai.Generator.Defs.{last?, decode}

-- The counters of the MTP branch.
pub record ProbeCounts : Type 0 where
  pub proposed : ℕ
  pub accepted : ℕ
  pub fallbacks : ℕ

abbrev pub no_probes : ProbeCounts
no_probes = record { proposed = 0; accepted = 0; fallbacks = 0 }

-- `mtp_next == next`
abbrev pub compare_token : ℕ → ℕ → ProbeCounts → ProbeCounts
compare_token mtp_next next counts = record {
  proposed = counts.proposed + 1;
  accepted = if mtp_next == next then counts.accepted + 1 else counts.accepted;
  fallbacks = if mtp_next == next then counts.fallbacks else counts.fallbacks + 1;
}

-- `probe_forward` is `qwen_mtp_forward_reference` on the embeddings of the ids of a step and the hidden
-- rows in front of the final norm, with the logits of `lm_head`.
module _ (net : Network) (is_eos : ℕ → Bool)
    (probe_forward : net.MtpCache
      → List ℕ
      → List net.Row
      → Option (net.MtpCache × List net.Row)) where
  open net use {TargetCache, MtpCache, Row, target_forward, clone_target, clone_mtp, argmax}

  -- The caches that the forward of a step works on.
  abbrev pub active_cache : Bool → TargetCache → Option TargetCache
  active_cache true c = clone_target c
  active_cache false c = some c

  -- The MTP branch in front of the argmax: nothing, or a forward on a copy of its caches.
  abbrev pub probe : Bool → MtpCache → List ℕ → List Row → Option (MtpCache × Option Row)
  probe false m ids rows = some (m, none)
  probe true m ids rows = do
    scratch ← clone_mtp m
    (m', mtp_rows) ← probe_forward scratch ids rows
    row ← last? mtp_rows
    some (m', some row)

  -- Behind the argmax of the target.
  abbrev pub count_probe : Option Row → ℕ → ProbeCounts → Option ProbeCounts
  count_probe none next counts = some counts
  count_probe (some row) next counts = do
    mtp_next ← argmax row
    some (compare_token mtp_next next counts)

  unfoldable pub decode_probed :
      Bool
      → Bool
      → ℕ
      → TargetCache
      → MtpCache
      → List ℕ
      → ProbeCounts
      → Option (List ℕ × ProbeCounts)
  decode_probed copies probes zero c m ids counts = some ([], counts)
  decode_probed copies probes (suc left) c m ids counts = do
    active ← active_cache copies c
    (c', rows) ← target_forward active ids
    (m', mtp_row) ← probe probes m ids rows
    row ← last? rows
    next ← argmax row
    counts' ← count_probe mtp_row next counts
    elim (is_eos next) [
      | true ↦ some (next ∷ [], counts')
      | false ↦ decode_probed copies probes left c' m' (next ∷ []) counts' >>= λ rest.
          some (next ∷ rest.0, rest.1)
    ]

  active_cache-same :
      IsCausal net → (copies : Bool) (c d : TargetCache) → active_cache copies c ≡ some d → d ≡ c
  active_cache-same causal true c d h = causal.clone_target_same c d h
  active_cache-same causal false c d h = sym (some-injective c d h)

  -- The MTP branches change no token: whenever the loop with them succeeds, the loop without them does,
  -- with the same tokens.
  pub decode_probed-decode :
      IsCausal net
      → (copies probes : Bool) (left : ℕ) (c : TargetCache) (m : MtpCache) (ids : List ℕ)
        (counts : ProbeCounts)
      → (tokens : List ℕ) (counts' : ProbeCounts)
      → decode_probed copies probes left c m ids counts ≡ some (tokens, counts')
      → decode net is_eos left c ids ≡ some tokens
  unfolding decode_probed decode
  decode_probed-decode causal copies probes zero c m ids counts tokens counts' h = cc
  decode_probed-decode causal copies probes (suc left) c m ids counts tokens counts' h =
      >>=-elim (active_cache copies c) _ h λ active a h1.
        >>=-elim (target_forward active ids) _ h1 λ after f h2.
          >>=-elim (probe probes m ids after.1) _ h2 λ probed _ h3.
            >>=-elim (last? after.1) _ h3 λ row l h4. >>=-elim (argmax row) _ h4 λ next p h5.
              >>=-elim (count_probe probed.1 next counts) _ h5 λ counted _ h6.
                let f' : target_forward c ids ≡ some after =
                  subst (λ x. target_forward x ids ≡ some after)
                    (active_cache-same causal copies c active a) f in
                elim (Bool-cases (is_eos next)) [
                  | inl ends ↦
                      let same = ap (λ r. r.0) (some-injective _ _ (rw ends at h6)) in
                      rw (decode, f', l, p, ends, same) refl
                  | inr goes ↦
                      >>=-elim
                        (decode_probed copies probes left after.0 probed.0 (next ∷ []) counted) _
                        (rw goes at h6)
                        λ rest found h7.
                          let same : next ∷ rest.0 ≡ tokens =
                            ap (λ r. r.0) (some-injective _ _ h7) in
                          rw
                            (
                              decode,
                              f',
                              l,
                              p,
                              goes,
                              decode_probed-decode causal copies probes left after.0 probed.0
                                  (next ∷ []) counted rest.0 rest.1 found,
                              same,
                            )
                            refl
                ]
