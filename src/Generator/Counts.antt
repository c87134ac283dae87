-- ===== src/Generator/Counts.antt =====
-- The counters and the length of a speculative run (src/generator.cc).
use mathlib.Core.Option.{some-injective}
use vicold_hybrid_ai.Base.{
  ℕ, zero, suc, ◌+◌, ◌-◌, ◌*◌, ◌≤◌, ◌<◌, ◌≡◌, Bool, true, some, List, [], ◌∷◌, ◌++◌, length,
  get_elem?, take, leb, ltb, ◌||◌, ◌==◌, min, >>=-elim, guard-elim, arith, Bool-cases, inl, inr,
  length-append, length-take, subst, Option,
}
use vicold_hybrid_ai.Generator.Network.{Network}
use vicold_hybrid_ai.Generator.Defs.{
  Loop, Proposal, Outcome, stop, continue, Counters, last?, accepted_prefix, propose, end_round,
  accept_all, recover, replay, reject, verify, counted, speculate_round, round, resume,
  speculative_loop, start, speculate, pair_up,
}
use vicold_hybrid_ai.Generator.Causal.{propose-EosLast}
use vicold_hybrid_ai.Generator.Equivalence.{accepted_prefix-le}

abbrev pub loop_of : {net : Network} → Outcome net → Loop net
loop_of (stop s) = s
loop_of (continue s) = s

-- The sums that hold of the counters between two rounds.
pub record IsCounted (k : Counters) : Type 0 where
  pub shares : k.proposed ≡ k.accepted + k.rejected
  pub clones : k.mtp_clones ≡ k.proposed + 2 * k.rounds
  pub checkpoints : k.target_clones ≡ k.rounds
  pub corrected : k.corrections ≤ k.rounds
  pub recovered : k.recovery_tokens ≤ k.corrections

-- A round that counted and that emitted what it counted, and no more than is asked for.
pub record IsBooked (net : Network) (max_new : ℕ) (s : Loop net) : Type 0 where
  pub sums : IsCounted s.counts
  pub emitted : length s.generated ≡ s.counts.accepted + s.counts.rounds + s.counts.corrections
  pub fits : length s.generated ≤ max_new

module _ (net : Network) (is_eos : ℕ → Bool) (max_new : ℕ) where
  open net use {TargetCache, MtpCache, Row, target_forward, argmax, argmax_rows}

  end_round-loop : (s : Loop net) → loop_of (end_round net is_eos max_new s) ≡ s
  unfolding end_round
  end_round-loop s = ground arith

  module _ (s : Loop net) (p : Proposal net) (count : ℕ) (b : IsBooked net max_new s)
      (fits : length s.generated + suc (length p.candidates) ≤ max_new) where
    accept_all-IsBooked :
        (verified : TargetCache) (rows : List Row) (predictions : List ℕ) (o : Outcome net)
        → accept_all net is_eos max_new (counted net is_eos count s p) p verified rows predictions
          ≡ some o
        → IsBooked net max_new (loop_of o)
    unfolding accept_all
    accept_all-IsBooked verified rows predictions o h = >>=-elim (last? predictions) _ h λ z _ h1.
        subst (λ o. IsBooked net max_new (loop_of o)) (some-injective _ _ h1)
          (rw end_round-loop
            (ground (arith, length-append s.generated (s.next_target ∷ p.candidates))))

    replay-IsBooked :
        (first : MtpCache) (k y : ℕ) (replayed : TargetCache) (again : List Row) (o : Outcome net)
        → k < length p.candidates
        → replay net is_eos max_new (counted net is_eos count s p) p first k y replayed again
          ≡ some o
        → IsBooked net max_new (loop_of o)
    unfolding replay recover
    replay-IsBooked first k y replayed again o lt h =
        let prefix = s.generated ++ s.next_target ∷ take k p.candidates in
        let out = prefix ++ y ∷ [] in
        let size : length prefix ≡ length s.generated + suc k = omega (
          arith,
          length-append s.generated (s.next_target ∷ take k p.candidates),
          length-take k p.candidates,
        ) in
        let grown : length out ≡ length s.generated + suc k + 1 =
          omega (arith, length-append prefix (y ∷ [])) in
        let short : ltb (length prefix) max_new ≡ true = ground arith in
        let h0 = rw short at h in
        elim (Bool-cases (leb max_new (length out) || is_eos y)) [
          | inl stops ↦
              subst (λ o. IsBooked net max_new (loop_of o)) (some-injective _ _ (rw stops at h0))
                (omega arith)
          | inr goes ↦ >>=-elim (get_elem? (first ∷ p.checkpoints) k) _ (rw goes at h0) λ c _ h1.
              >>=-elim (get_elem? again (k + 2 - 2)) _ h1 λ input _ h2.
                >>=-elim (net.copy_row input) _ h2 λ copy _ h3.
                  >>=-elim (net.mtp_forward c ((y, copy) ∷ [])) _ h3 λ mtp _ h4.
                    >>=-elim (last? again) _ h4 λ row lr h5. >>=-elim (argmax row) _ h5 λ z az h6.
                      >>=-elim (net.copy_row row) _ h6 λ hidden _ h7.
                        subst (λ o. IsBooked net max_new (loop_of o)) (some-injective _ _ h7)
                          (rw end_round-loop (omega arith))
        ]

    verify-IsBooked :
        (first : MtpCache) (o : Outcome net)
        → verify net is_eos max_new (counted net is_eos count s p) p first ≡ some o
        → IsBooked net max_new (loop_of o)
    unfolding verify reject
    verify-IsBooked first o h = >>=-elim (net.clone_target s.target) _ h λ copy cloned h1.
        >>=-elim (target_forward copy (s.next_target ∷ p.candidates)) _ h1 λ after f h2.
          guard-elim (net.settled after.1) _ h2 λ _ h3.
            >>=-elim (argmax_rows after.1) _ h3 λ predictions a h4.
              guard-elim (length predictions == suc (length p.candidates)) _ h4 λ sized h5.
                let k = accepted_prefix predictions p.candidates in
                elim (Bool-cases (k == length p.candidates)) [
                  | inl all ↦ accept_all-IsBooked after.0 after.1 predictions o (rw all at h5)
                  | inr some_left ↦
                      >>=-elim (get_elem? predictions k) _ (rw some_left at h5) λ y gy h6.
                        >>=-elim
                          (target_forward s.target
                            ((s.next_target ∷ take k p.candidates) ++ y ∷ []))
                          _ h6
                          λ redone r h7.
                            replay-IsBooked first k y redone.0 redone.1 o
                              (ground (arith, accepted_prefix-le predictions p.candidates)) h7
                ]

  -- The state that a run ends in: booked, but for a last token that no round counts.
  pub record IsFinal (s : Loop net) : Type 0 where
    pub sums : IsCounted s.counts
    pub emitted_ge : s.counts.accepted + s.counts.rounds + s.counts.corrections ≤ length s.generated
    pub emitted_le :
        length s.generated ≤ s.counts.accepted + s.counts.rounds + s.counts.corrections + 1
    pub fits : length s.generated ≤ max_new

  abbrev Books : Outcome net → Type 0
  Books (stop s) = IsFinal s
  Books (continue s) = IsBooked net max_new s

  IsBooked-Books : (o : Outcome net) → IsBooked net max_new (loop_of o) → Books o
  IsBooked-Books (stop s) b = omega arith
  IsBooked-Books (continue s) b = b

  round-Books :
      (width : ℕ) (s : Loop net) (o : Outcome net)
      → length s.generated < max_new
      → IsBooked net max_new s
      → round net is_eos max_new width s ≡ some o
      → Books o
  unfolding round speculate_round
  round-Books width s o fits b h =
      elim (Bool-cases (is_eos s.next_target || max_new - length s.generated == 1)) [
        | inl last ↦
            subst Books (some-injective _ _ (rw last at h))
              (omega (arith, length-append s.generated (s.next_target ∷ [])))
        | inr more ↦
            let count = min width (max_new - length s.generated - 1) in
            >>=-elim (net.clone_mtp s.mtp) _ (rw more at h) λ scratch _ h1.
              >>=-elim (net.clone_mtp s.mtp) _ h1 λ first _ h2.
                >>=-elim (propose net is_eos count scratch s.next_target s.target_hidden) _ h2
                  λ p found h3.
                    let (_, short, _) =
                      propose-EosLast net is_eos count scratch s.next_target s.target_hidden p
                        found in
                    IsBooked-Books o (verify-IsBooked s p count b (omega arith) first o h3)
      ]

  resume-IsFinal :
      (again : Loop net → Option (Loop net)) (s' : Loop net) (o : Outcome net)
      → ((t : Loop net) → IsBooked net max_new t → again t ≡ some s' → IsFinal s')
      → Books o
      → resume net is_eos again o ≡ some s'
      → IsFinal s'
  resume-IsFinal again s' (stop t) rest b h = subst IsFinal (some-injective _ _ h) b
  resume-IsFinal again s' (continue t) rest b h = rest t b h

  speculative_loop-IsFinal :
      (fuel width : ℕ) (s s' : Loop net)
      → IsBooked net max_new s
      → speculative_loop net is_eos fuel max_new width s ≡ some s'
      → IsFinal s'
  unfolding speculative_loop
  speculative_loop-IsFinal zero width s s' b h = absurd (cc)
  speculative_loop-IsFinal (suc fuel) width s s' b h =
      elim (Bool-cases (ltb (length s.generated) max_new)) [
        | inl room_left ↦
            >>=-elim (round net is_eos max_new width s) _ (rw (speculative_loop, room_left) at h)
              λ o e h1.
                resume-IsFinal (speculative_loop net is_eos fuel max_new width) s' o
                  (λ t b'. speculative_loop-IsFinal fuel width t s' b')
                  (round-Books width s o (ground arith) b e) h1
        | inr full ↦
            subst IsFinal (some-injective _ _ (rw (speculative_loop, full) at h)) (omega arith)
      ]

  -- A run never returns more tokens than it is asked for, and its counters add up: every proposed
  -- token is accepted or rejected, each round makes one clone of the target's caches and two of the
  -- MTP caches and one more for each proposed token, and the returned tokens are those accepted, one
  -- for each round, one for each correction, and at most one more at the end.
  pub speculate-IsFinal :
      (width : ℕ) (prompt : List ℕ) (s : Loop net)
      → speculate net is_eos max_new width prompt ≡ some s
      → IsFinal s
  unfolding speculate
  speculate-IsFinal width prompt s h =
      >>=-elim (target_forward net.empty_target prompt) _ h λ after f h1.
        >>=-elim (last? after.1) _ h1 λ row lr h2. >>=-elim (argmax row) _ h2 λ next a h3.
          >>=-elim (net.copy_row row) _ h3 λ hidden _ h4.
            >>=-elim (net.mtp_forward net.empty_mtp (pair_up prompt after.1)) _ h4 λ mtp _ h5.
              speculative_loop-IsFinal (suc max_new) width
                (start net is_eos after.0 mtp.0 next hidden) s (omega arith) h5
