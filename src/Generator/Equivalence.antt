-- ===== src/Generator/Equivalence.antt =====
-- Speculative decoding (src/generator.cc) against the greedy loop.
use vicold_hybrid_ai.Base.{
  ℕ, zero, suc, ◌+◌, ◌-◌, ◌≤◌, ◌<◌, ◌≡◌, refl, Bool, true, false, Option, some, List, [], ◌∷◌, ◌++◌,
  length, get_elem?, take, leb, >>=-elim, guard-elim, arith, Bool-cases, inl, inr, length-append,
  append_assoc, append-nil, ◌||◌, ◌==◌, length-take, min, subst, ◌⊎◌, ◌∙◌, ap, sym, ltb,
}
use mathlib.Core.Option.{some-injective}
use vicold_hybrid_ai.Generator.Network.{Network, IsCausal}
use vicold_hybrid_ai.Generator.Defs.{
  Loop, Proposal, Outcome, stop, continue, last?, ends_in_eos, accepted_prefix, decode, propose,
  end_round, accept_all, recover, replay, reject, verify, counted, speculate_round, round,
  speculative_loop, resume, pair_up, start, speculate,
}
use vicold_hybrid_ai.Generator.Causal.{
  room, room_lem, emit, EosLast, decode-emit, emit_full, emit_last, propose-EosLast, emit-cons,
  emit-accepted, emit-rejected,
}

last?-append {ℓ} :
    {A : Type ℓ} (xs : List A) (y : A) (ys : List A) → last? (xs ++ y ∷ ys) ≡ last? (y ∷ ys)
last?-append [] y ys = refl
last?-append (x ∷ []) y ys = refl
last?-append (x ∷ z ∷ xs) y ys = last?-append (z ∷ xs) y ys

pub accepted_prefix-le : (ps cs : List ℕ) → accepted_prefix ps cs ≤ length cs
unfolding accepted_prefix
accepted_prefix-le [] cs = omega arith
accepted_prefix-le (p ∷ ps) [] = omega arith
accepted_prefix-le (p ∷ ps) (c ∷ cs) = ground (arith, accepted_prefix-le ps cs)

module _ (net : Network) (is_eos : ℕ → Bool) (max_new : ℕ) where
  open net use {TargetCache, MtpCache, Row, target_forward, argmax, argmax_rows}

  abbrev left_of : Loop net → ℕ
  left_of s = max_new - length s.generated

  -- What the greedy loop does from where the speculative loop stands.
  abbrev ahead : Loop net → Option (List ℕ)
  ahead s = emit net is_eos (left_of s) s.target s.next_target

  -- A round appends tokens of the greedy loop. It stops where the greedy loop stops, and otherwise
  -- stands where the greedy loop goes on.
  abbrev Follows : Loop net → Outcome net → Type 0
  Follows s (stop s') = (ts : List ℕ) × (s'.generated ≡ s.generated ++ ts) × (ahead s ≡ some ts)
  Follows s (continue s') =
      (ts : List ℕ) × (s'.generated ≡ s.generated ++ ts)
      × ((us : List ℕ) → ahead s' ≡ some us → ahead s ≡ some (ts ++ us))

  shorter : (s : Loop net) (ts : List ℕ) → ahead s ≡ some (ts ++ []) → ahead s ≡ some ts
  shorter s ts h = rw (append-nil ts) at h

  end_round-Follows :
      (s s' : Loop net) (ts : List ℕ)
      → s'.generated ≡ s.generated ++ ts
      → ((us : List ℕ)
          → (ends_in_eos net is_eos (last? s'.generated) ≡ true → us ≡ [])
          → (ends_in_eos net is_eos (last? s'.generated) ≡ false → ahead s' ≡ some us)
          → ahead s ≡ some (ts ++ us))
      → Follows s (end_round net is_eos max_new s')
  unfolding end_round
  end_round-Follows s s' ts g h = elim (Bool-cases (leb max_new (length s'.generated))) [
    | inl full ↦
        rw full
          (ts, g, shorter s ts (h [] (λ _. refl) (λ _. emit_full net is_eos _ _ _ (ground arith))))
    | inr room_left ↦ elim (Bool-cases (ends_in_eos net is_eos (last? s'.generated))) [
      | inl e ↦ rw (room_left, e) (ts, g, shorter s ts (h [] (λ _. refl) (λ n. cc)))
      | inr e ↦ rw (room_left, e) (ts, g, λ us a. h us (λ y. cc) (λ _. a))
    ]
  ]

  module _ (laws : IsCausal net) where
    accept_all-Follows :
        (s : Loop net) (p : Proposal net) (verified : TargetCache) (rows : List Row)
        (predictions : List ℕ) (o : Outcome net)
        → target_forward s.target (s.next_target ∷ p.candidates) ≡ some (verified, rows)
        → argmax_rows rows ≡ some predictions
        → length predictions ≡ suc (length p.candidates)
        → accepted_prefix predictions p.candidates ≡ length p.candidates
        → is_eos s.next_target ≡ false
        → EosLast net is_eos p.candidates
        → length s.generated + suc (length p.candidates) ≤ max_new
        → accept_all net is_eos max_new s p verified rows predictions ≡ some o
        → Follows s o
    unfolding accept_all
    accept_all-Follows s p verified rows predictions o f a len acc n e fits h =
        >>=-elim (last? predictions) _ h λ z lz h1. subst (Follows s) (some-injective _ _ h1) (
          end_round-Follows s _ (s.next_target ∷ p.candidates) refl λ us stops goes.
            let xs = s.next_target ∷ p.candidates in
            let left = max_new - length (s.generated ++ xs) in
            let same = last?-append s.generated s.next_target p.candidates in
            subst (λ m. emit net is_eos m s.target s.next_target ≡ some (xs ++ us))
              (omega (arith, room_lem p.candidates left, length-append s.generated xs))
              (emit-accepted net is_eos laws p.candidates s.target verified s.next_target z rows
                predictions left us f a len acc lz n e (rw same at stops) (rw same at goes)))

    module _ (s : Loop net) (p : Proposal net) (k y : ℕ) (verified replayed : TargetCache)
        (rows again : List Row) (predictions : List ℕ)
        (f : target_forward s.target (s.next_target ∷ p.candidates) ≡ some (verified, rows))
        (a : argmax_rows rows ≡ some predictions)
        (acc : accepted_prefix predictions p.candidates ≡ k) (lt : k < length p.candidates)
        (gy : get_elem? predictions k ≡ some y)
        (r : target_forward s.target ((s.next_target ∷ take k p.candidates) ++ y ∷ [])
          ≡ some (replayed, again))
        (n : is_eos s.next_target ≡ false) (e : EosLast net is_eos p.candidates)
        (fits : length s.generated + suc (length p.candidates) ≤ max_new) where
      kept : List ℕ
      kept = s.next_target ∷ take k p.candidates

      length-kept : length (s.generated ++ kept) ≡ length s.generated + suc k
      unfolding kept
      length-kept = omega (arith, length-append s.generated kept, length-take k p.candidates)

      length-out : length ((s.generated ++ kept) ++ y ∷ []) ≡ length s.generated + suc k + 1
      unfolding kept
      length-out = omega (arith, length-kept, length-append (s.generated ++ kept) (y ∷ []))

      to_ahead :
          (left : ℕ) (us : List ℕ)
          → left ≡ left_of s - suc k
          → emit net is_eos (room kept left) s.target s.next_target ≡ some (kept ++ us)
          → ahead s ≡ some (kept ++ us)
      unfolding kept
      to_ahead left us same h =
          subst (λ m. emit net is_eos m s.target s.next_target ≡ some (kept ++ us))
            (omega (arith, room_lem (take k p.candidates) left, length-take k p.candidates)) h

      -- The greedy loop behind the correction goes on from the replayed cache.
      ahead-replayed :
          (z : ℕ) (row : Row) (us : List ℕ)
          → is_eos y ≡ false
          → last? again ≡ some row
          → argmax row ≡ some z
          → emit net is_eos (left_of s - suc k - 1) replayed z ≡ some us
          → ahead s ≡ some ((kept ++ y ∷ []) ++ us)
      unfolding kept
      ahead-replayed z row us goes lr az h =
          let (c', row', f', l', go) =
            emit-rejected net is_eos laws p.candidates k s.target verified s.next_target y rows
              predictions replayed again f a acc lt gy r n e in
          let left = left_of s - suc k - 1 in
          rw (append_assoc kept (y ∷ []) us) (
            to_ahead (suc left) (y ∷ us) (omega arith) (
              go (suc left) (y ∷ us)
                (emit-cons net is_eos left c' replayed y row' z us goes f' (cc) h)))

      -- Where the greedy loop ends with the correction.
      ahead-corrected :
          ((left_of s - suc k ≡ 1) ⊎ (is_eos y ≡ true)) → ahead s ≡ some (kept ++ y ∷ [])
      unfolding kept
      ahead-corrected h =
          let (c', row, f', l', go) =
            emit-rejected net is_eos laws p.candidates k s.target verified s.next_target y rows
              predictions replayed again f a acc lt gy r n e in
          to_ahead (left_of s - suc k) (y ∷ []) refl (
            go (left_of s - suc k) (y ∷ [])
              (emit_last net is_eos (left_of s - suc k) c' y (omega arith) h))

      replay-Follows :
          (first : MtpCache) (o : Outcome net)
          → replay net is_eos max_new s p first k y replayed again ≡ some o
          → Follows s o
      unfolding replay recover kept
      replay-Follows first o h =
          let out = (s.generated ++ kept) ++ y ∷ [] in
          let short : ltb (length (s.generated ++ kept)) max_new ≡ true =
            ground (arith, length-kept) in
          let grown = append_assoc s.generated kept (y ∷ []) in
          let h0 = rw short at h in
          elim (Bool-cases (leb max_new (length out) || is_eos y)) [
            | inl stops ↦
                subst (Follows s) (some-injective _ _ (rw stops at h0))
                  (kept ++ y ∷ [], grown, ahead-corrected (ground (arith, length-out)))
            | inr goes ↦ >>=-elim (get_elem? (first ∷ p.checkpoints) k) _ (rw goes at h0) λ c _ h1.
                >>=-elim (get_elem? again (k + 2 - 2)) _ h1 λ input _ h2.
                  >>=-elim (net.copy_row input) _ h2 λ copy _ h3.
                    >>=-elim (net.mtp_forward c ((y, copy) ∷ [])) _ h3 λ mtp _ h4.
                      >>=-elim (last? again) _ h4 λ row lr h5. >>=-elim (argmax row) _ h5 λ z az h6.
                        >>=-elim (net.copy_row row) _ h6 λ hidden _ h7.
                          subst (Follows s) (some-injective _ _ h7) (
                            end_round-Follows s _ (kept ++ y ∷ []) grown λ us _ more.
                              let no_eos : is_eos y ≡ false = ground arith in
                              ahead-replayed z row us no_eos lr az (
                                subst (λ m. emit net is_eos m replayed z ≡ some us)
                                  (omega (arith, length-out))
                                  (more (rw (last?-append (s.generated ++ kept) y []) no_eos))))
          ]

    verify-Follows :
        (s : Loop net) (p : Proposal net) (first : MtpCache) (o : Outcome net)
        → is_eos s.next_target ≡ false
        → EosLast net is_eos p.candidates
        → length s.generated + suc (length p.candidates) ≤ max_new
        → verify net is_eos max_new s p first ≡ some o
        → Follows s o
    unfolding verify reject
    verify-Follows s p first o n e fits h =
        >>=-elim (net.clone_target s.target) _ h λ copy cloned h1.
          >>=-elim (target_forward copy (s.next_target ∷ p.candidates)) _ h1 λ after f h2.
            guard-elim (net.settled after.1) _ h2 λ _ h3.
              >>=-elim (argmax_rows after.1) _ h3 λ predictions a h4.
                guard-elim (length predictions == suc (length p.candidates)) _ h4 λ sized h5.
                  let k = accepted_prefix predictions p.candidates in
                  let same = laws.clone_target_same s.target copy cloned in
                  let f' = rw same at f in
                  elim (Bool-cases (k == length p.candidates)) [
                    | inl all ↦
                        accept_all-Follows s p after.0 after.1 predictions o f' a (ground arith)
                          (ground arith) n e fits (rw all at h5)
                    | inr some_left ↦
                        >>=-elim (get_elem? predictions k) _ (rw some_left at h5) λ y gy h6.
                          >>=-elim
                            (target_forward s.target
                              ((s.next_target ∷ take k p.candidates) ++ y ∷ []))
                            _ h6
                            λ redone r h7.
                              replay-Follows s p k y after.0 redone.0 after.1 redone.1 predictions
                                f' a refl
                                (ground (arith, accepted_prefix-le predictions p.candidates)) gy r n
                                e fits first o h7
                  ]

    round-Follows :
        (width : ℕ) (s : Loop net) (o : Outcome net)
        → length s.generated < max_new
        → round net is_eos max_new width s ≡ some o
        → Follows s o
    unfolding round speculate_round
    round-Follows width s o fits h =
        elim (Bool-cases (is_eos s.next_target || max_new - length s.generated == 1)) [
          | inl last ↦ subst (Follows s) (some-injective _ _ (rw last at h)) (
            s.next_target ∷ [],
            refl,
            emit_last net is_eos (left_of s) s.target s.next_target (omega arith) (ground arith),
          )
          | inr more ↦
              let count = min width (max_new - length s.generated - 1) in
              >>=-elim (net.clone_mtp s.mtp) _ (rw more at h) λ scratch _ h1.
                >>=-elim (net.clone_mtp s.mtp) _ h1 λ first _ h2.
                  >>=-elim (propose net is_eos count scratch s.next_target s.target_hidden) _ h2
                    λ p found h3.
                      let (e, short, _) =
                        propose-EosLast net is_eos count scratch s.next_target s.target_hidden p
                          found in
                      verify-Follows (counted net is_eos count s p) p first o (ground arith) e
                        (omega arith) h3
        ]

    abbrev Reaches : Loop net → Loop net → Type 0
    Reaches s s' = (ts : List ℕ) × (s'.generated ≡ s.generated ++ ts) × (ahead s ≡ some ts)

    resume-Reaches :
        (again : Loop net → Option (Loop net)) (s s' : Loop net) (o : Outcome net)
        → ((t : Loop net) → again t ≡ some s' → Reaches t s')
        → Follows s o
        → resume net is_eos again o ≡ some s'
        → Reaches s s'
    resume-Reaches again s s' (stop t) rest f h = rw (← some-injective _ _ h) f
    resume-Reaches again s s' (continue t) rest (ts, g, k) h =
        let (us, g', a) = rest t h in
        (ts ++ us, rw (g', g) (append_assoc s.generated ts us), k us a)

    speculative_loop-Reaches :
        (fuel width : ℕ) (s s' : Loop net)
        → speculative_loop net is_eos fuel max_new width s ≡ some s'
        → Reaches s s'
    unfolding speculative_loop
    speculative_loop-Reaches zero width s s' h = absurd (cc)
    speculative_loop-Reaches (suc fuel) width s s' h =
        elim (Bool-cases (ltb (length s.generated) max_new)) [
          | inl room_left ↦
              >>=-elim (round net is_eos max_new width s) _ (rw (speculative_loop, room_left) at h)
                λ o e h1.
                  resume-Reaches (speculative_loop net is_eos fuel max_new width) s s' o
                    (λ t. speculative_loop-Reaches fuel width t s')
                    (round-Follows width s o (ground arith) e) h1
          | inr full ↦
              let same = some-injective _ _ (rw (speculative_loop, full) at h) in
              rw (← same) (
                [],
                sym (append-nil s.generated),
                emit_full net is_eos (left_of s) s.target s.next_target (ground arith),
              )
        ]

    -- Speculative decoding returns just the tokens of the greedy loop: if a run with any proposals of
    -- the MTP head and any proposal width succeeds, then the loop without MTP succeeds on the same
    -- prompt and appends the same tokens.
    pub speculate-eq-decode :
        (width : ℕ) (prompt : List ℕ) (s : Loop net)
        → speculate net is_eos max_new width prompt ≡ some s
        → decode net is_eos max_new net.empty_target prompt ≡ some s.generated
    unfolding speculate
    speculate-eq-decode width prompt s h =
        >>=-elim (target_forward net.empty_target prompt) _ h λ after f h1.
          >>=-elim (last? after.1) _ h1 λ row lr h2. >>=-elim (argmax row) _ h2 λ next a h3.
            >>=-elim (net.copy_row row) _ h3 λ hidden _ h4.
              >>=-elim (net.mtp_forward net.empty_mtp (pair_up prompt after.1)) _ h4 λ mtp _ h5.
                let (ts, g, e) =
                  speculative_loop-Reaches (suc max_new) width
                    (start net is_eos after.0 mtp.0 next hidden) s h5 in
                decode-emit net is_eos max_new net.empty_target after.0 prompt after.1 row next f lr
                  a
                ∙ subst (λ m. emit net is_eos m after.0 next ≡ some ts) (omega arith) e
                ∙ ap some (sym g)
