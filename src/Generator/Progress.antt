-- ===== src/Generator/Progress.antt =====
-- The speculative loop ends (src/generator.cc): each round appends a token.
use vicold_hybrid_ai.Base.{
  ℕ, zero, suc, ◌+◌, ◌-◌, ◌≤◌, ◌<◌, ◌≡◌, refl, Bool, true, Option, some, List, [], ◌∷◌, ◌++◌,
  length, get_elem?, take, leb, ltb, ◌||◌, ◌==◌, min, arith, Bool-cases, inl, inr, length-append,
  length-take,
}
use vicold_hybrid_ai.Generator.Network.{Network, IsReliable}
use vicold_hybrid_ai.Generator.Defs.{
  Loop, Proposal, Outcome, stop, continue, last?, ends_in_eos, accepted_prefix, propose, end_round,
  accept_all, recover, replay, replayed_loop, reject, verify, counted, speculate_round, round,
  resume, speculative_loop, start, speculate, pair_up,
}
use vicold_hybrid_ai.Generator.Causal.{propose-EosLast}
use vicold_hybrid_ai.Generator.Equivalence.{accepted_prefix-le}

module _ {ℓ} {A : Type ℓ} where
  pub last?-some : (x : A) (xs : List A) → (y : A) × (last? (x ∷ xs) ≡ some y)
  last?-some x [] = (x, refl)
  last?-some x (z ∷ zs) = last?-some z zs

  pub last?_found : (xs : List A) → 0 < length xs → (y : A) × (last? xs ≡ some y)
  last?_found [] h = absurd (omega arith)
  last?_found (x ∷ xs) h = last?-some x xs

  get_elem?_found : (xs : List A) (i : ℕ) → i < length xs → (y : A) × (get_elem? xs i ≡ some y)
  get_elem?_found [] i h = absurd (omega arith)
  get_elem?_found (x ∷ xs) zero h = (x, refl)
  get_elem?_found (x ∷ xs) (suc i) h = get_elem?_found xs i (omega arith)

module _ (net : Network) (is_eos : ℕ → Bool) (max_new : ℕ) (ok : IsReliable net) where
  open net use {TargetCache, MtpCache, Row, target_forward, argmax, argmax_rows}

  propose_total :
      (count : ℕ) (scratch : MtpCache) (input : ℕ) (row : Row)
      → (p : Proposal net) × (propose net is_eos count scratch input (some row) ≡ some p)
  unfolding propose
  propose_total zero scratch input row =
      (record { candidates = []; scratch = scratch; checkpoints = [] }, refl)
  propose_total (suc count) scratch input row =
      let (scratch', last, rows, f) = ok.mtp_row scratch (input, row) [] in
      let (end, le) = last?-some last rows in
      let (y, ae) = ok.predicted end in
      let (copy, ce) = ok.copied end in
      let (k, ke) = ok.cloned_mtp scratch' in
      let (rest, re) = propose_total count scratch' y copy in
      rw (f, le, ae, ce, ke)
        (elim (Bool-cases (is_eos y)) [ inl e ↦ rw e (_, refl) | inr e ↦ rw (e, re) (_, refl) ])

  -- The loop has a hidden row to propose from.
  abbrev IsReady : Loop net → Type 0
  IsReady s = (row : Row) × (s.target_hidden ≡ some row)

  -- A round appends a token, and goes on only if more are wanted.
  abbrev Advances : Loop net → Outcome net → Type 0
  Advances s (stop s') = length s.generated < length s'.generated
  Advances s (continue s') =
      (length s.generated < length s'.generated) × (length s'.generated < max_new) × IsReady s'

  end_round-Advances :
      (s s' : Loop net)
      → length s.generated < length s'.generated
      → IsReady s'
      → Advances s (end_round net is_eos max_new s')
  unfolding end_round
  end_round-Advances s s' lt r =
      elim (Bool-cases
        (leb max_new (length s'.generated) || ends_in_eos net is_eos (last? s'.generated))) [
          | inl e ↦ rw e lt
          | inr e ↦ rw e (lt, ground arith, r)
        ]

  abbrev Answers : Loop net → Option (Outcome net) → Type 0
  Answers s r = (o : Outcome net) × (r ≡ some o) × Advances s o

  recover-Answers :
      (s s' : Loop net) (p : Proposal net) (first : MtpCache) (k y : ℕ) (replayed : TargetCache)
      (again : List Row)
      → k ≤ length p.checkpoints
      → length again ≡ k + 2
      → length s.generated < length s'.generated
      → Answers s (recover net is_eos max_new s' p first k y replayed again)
  unfolding recover
  recover-Answers s s' p first k y replayed again hk ha grown =
      let (c, ce) = get_elem?_found (first ∷ p.checkpoints) k (omega arith) in
      let (input, ie) = get_elem?_found again (k + 2 - 2) (omega arith) in
      let (copy, pe) = ok.copied input in
      let (mtp, row, rows, me) = ok.mtp_row c (y, copy) [] in
      let (end, ee) = last?_found again (omega arith) in
      let (z, ze) = ok.predicted end in
      let (hidden, he) = ok.copied end in
      rw (ce, ie, pe, me, ee, ze, he) (_, refl, end_round-Advances s _ grown (hidden, refl))

  module _ (s : Loop net) (p : Proposal net) (count : ℕ) where
    accept_all-Answers :
        (verified : TargetCache) (rows : List Row) (predictions : List ℕ)
        → 0 < length rows
        → 0 < length predictions
        → Answers s (
            accept_all net is_eos max_new
              (counted net is_eos count s p)
              p
              verified
              rows
              predictions)
    unfolding accept_all
    accept_all-Answers verified rows predictions hr hp =
        let (z, ze) = last?_found predictions hp in
        let (row, re) = last?_found rows hr in
        let (copy, ce) = ok.copied row in
        rw (ze, re, ce)
          (
            _,
            refl,
            end_round-Advances s _
                (omega (arith, length-append s.generated (s.next_target ∷ p.candidates)))
                (copy, refl),
          )

    replay-Answers :
        (first : MtpCache) (k y : ℕ) (replayed : TargetCache) (again : List Row)
        → k ≤ length p.checkpoints
        → length again ≡ k + 2
        → Answers s
            (replay net is_eos max_new (counted net is_eos count s p) p first k y replayed again)
    unfolding replay
    replay-Answers first k y replayed again hk ha =
        let prefix = s.generated ++ s.next_target ∷ take k p.candidates in
        let s' = replayed_loop net is_eos max_new (counted net is_eos count s p) p k y replayed in
        let grown : length s.generated < length s'.generated = ground (
          arith,
          length-append s.generated (s.next_target ∷ take k p.candidates),
          length-append prefix (y ∷ []),
        ) in
        elim (Bool-cases (leb max_new (length s'.generated) || is_eos y)) [
          | inl e ↦ rw e (_, refl, grown)
          | inr e ↦ rw e (recover-Answers s s' p first k y replayed again hk ha grown)
        ]

    verify-Answers :
        (first : MtpCache)
        → length p.checkpoints ≡ length p.candidates
        → Answers s (verify net is_eos max_new (counted net is_eos count s p) p first)
    unfolding verify reject
    verify-Answers first saved =
        let (copy, ce) = ok.cloned_target s.target in
        let (verified, rows, fe, size) = ok.target_row copy s.next_target p.candidates in
        let (ids, ie, many) = ok.all_predicted rows in
        let k = accepted_prefix ids p.candidates in
        let sized : (length ids == suc (length p.candidates)) ≡ true = ground arith in
        rw (ce, fe, ok.is_settled rows, ie, sized)
          (elim (Bool-cases (k == length p.candidates)) [
            | inl all ↦ rw all (accept_all-Answers verified rows ids (omega arith) (omega arith))
            | inr some_left ↦
                let lt : k < length p.candidates =
                  ground (arith, accepted_prefix-le ids p.candidates) in
                let (y, ye) = get_elem?_found ids k (omega arith) in
                let (replayed, again, re, long) =
                  ok.target_row s.target s.next_target (take k p.candidates ++ y ∷ []) in
                rw (some_left, ye, re)
                  (replay-Answers first k y replayed again (omega arith) (
                    omega (
                      arith,
                      length-append (take k p.candidates) (y ∷ []),
                      length-take k p.candidates,
                    )))
          ])

  round-Answers :
      (width : ℕ) (s : Loop net) → IsReady s → Answers s (round net is_eos max_new width s)
  unfolding round speculate_round
  round-Answers width s (row, re) =
      elim (Bool-cases (is_eos s.next_target || max_new - length s.generated == 1)) [
        | inl last ↦
            rw last (_, refl, omega (arith, length-append s.generated (s.next_target ∷ [])))
        | inr more ↦
            let count = min width (max_new - length s.generated - 1) in
            let (scratch, se) = ok.cloned_mtp s.mtp in
            let (p, pe) = propose_total count scratch s.next_target row in
            let (_, _, saved) =
              propose-EosLast net is_eos count scratch s.next_target (some row) p pe in
            let pe' : propose net is_eos count scratch s.next_target s.target_hidden ≡ some p =
              rw re pe in
            rw (more, se, pe') (verify-Answers s p count scratch saved)
      ]

  abbrev Ends : Loop net → Option (Loop net) → Type 0
  Ends s r =
      (s' : Loop net) × (r ≡ some s')
      × (length s.generated ≤ length s'.generated)
      × (length s.generated < max_new → length s.generated < length s'.generated)

  resume-Ends :
      (again : Loop net → Option (Loop net)) (s : Loop net) (o : Outcome net)
      → Advances s o
      → ((t : Loop net)
          → length s.generated < length t.generated
          → length t.generated < max_new
          → IsReady t
          → Ends t (again t))
      → Ends s (resume net is_eos again o)
  resume-Ends again s (stop t) adv rest = (t, refl, omega arith, λ _. adv)
  resume-Ends again s (continue t) (grown, room_left, ready) rest =
      let (s', e, longer, _) = rest t grown room_left ready in
      (s', e, omega arith, λ _. omega arith)

  speculative_loop-Ends :
      (fuel width : ℕ) (s : Loop net)
      → IsReady s
      → length s.generated ≤ max_new
      → max_new < fuel + length s.generated
      → Ends s (speculative_loop net is_eos fuel max_new width s)
  unfolding speculative_loop
  speculative_loop-Ends zero width s r le enough = absurd (omega arith)
  speculative_loop-Ends (suc fuel) width s r le enough =
      elim (Bool-cases (ltb (length s.generated) max_new)) [
        | inl room_left ↦
            let (o, oe, adv) = round-Answers width s r in
            rw (speculative_loop, room_left, oe)
              (resume-Ends (speculative_loop net is_eos fuel max_new width) s o adv
                λ t grown lt ready.
                  speculative_loop-Ends fuel width t ready (omega arith) (omega arith))
        | inr full ↦ rw (speculative_loop, full) (s, refl, omega arith, λ lt. ground arith)
      ]

  prefill_total :
      (width x : ℕ) (xs : List ℕ) (target : TargetCache) (rows : List Row)
      → target_forward net.empty_target (x ∷ xs) ≡ some (target, rows)
      → 0 < length rows
      → (s : Loop net) × (speculate net is_eos max_new width (x ∷ xs) ≡ some s)
        × (0 < max_new → 0 < length s.generated)
  unfolding speculate
  prefill_total width x xs target [] fe h = absurd (omega arith)
  prefill_total width x xs target (r ∷ rows) fe h =
      let (row, le) = last?-some r rows in
      let (next, ae) = ok.predicted row in
      let (hidden, he) = ok.copied row in
      let (mtp, _, _, me) = ok.mtp_row net.empty_mtp (x, r) (pair_up xs rows) in
      let (s, e, _, some_more) =
        speculative_loop-Ends (suc max_new) width (start net is_eos target mtp next hidden)
          (hidden, refl) (omega arith) (omega arith) in
      (s, rw (fe, le, ae, he, me) e, some_more)

  -- If no operation fails, a run on a prompt of at least one token ends within its fuel, one round for
  -- each wanted token and one more, with at least one token where any are wanted.
  pub speculate_total :
      (width x : ℕ) (xs : List ℕ)
      → (s : Loop net) × (speculate net is_eos max_new width (x ∷ xs) ≡ some s)
        × (0 < max_new → 0 < length s.generated)
  speculate_total width x xs =
      let (target, rows, fe, size) = ok.target_row net.empty_target x xs in
      prefill_total width x xs target rows fe (omega arith)
