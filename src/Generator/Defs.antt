-- ===== src/Generator/Defs.antt =====
-- The two loops of `Generator::generate` (src/generator.cc), over a network.
use vicold_hybrid_ai.Base.{
  ℕ, zero, suc, ◌+◌, ◌-◌, min, max, Bool, true, false, ◌||◌, Option, none, some, List, [], ◌∷◌,
  ◌++◌, length, get_elem?, take, ltb, leb, ◌==◌, if◌then◌else◌, ◌>>=◌, ◌>>◌, guard,
}
use vicold_hybrid_ai.Generator.Network.{Network}

-- The `mtp_…` and `speculative_…` counters of a run.
pub record Counters : Type 0 where
  pub proposed : ℕ
  pub accepted : ℕ
  pub rejected : ℕ
  pub corrections : ℕ
  pub replay_tokens : ℕ
  pub recovery_tokens : ℕ
  pub max_proposal_width : ℕ
  pub mtp_clones : ℕ
  pub target_clones : ℕ
  pub rounds : ℕ

abbrev pub no_counts : Counters
no_counts = record {
  proposed = 0;
  accepted = 0;
  rejected = 0;
  corrections = 0;
  replay_tokens = 0;
  recovery_tokens = 0;
  max_proposal_width = 0;
  mtp_clones = 0;
  target_clones = 0;
  rounds = 0;
}

abbrev pub last? {ℓ} : {A : Type ℓ} → List A → Option A
last? [] = none
last? (x ∷ []) = some x
last? (x ∷ y ∷ ys) = last? (y ∷ ys)

-- How many candidates, from the first, the target predicts too.
unfoldable pub accepted_prefix : List ℕ → List ℕ → ℕ
accepted_prefix (p ∷ ps) (c ∷ cs) = if p == c then suc (accepted_prefix ps cs) else 0
accepted_prefix _ _ = 0

abbrev pub pair_up {ℓ} : {A : Type ℓ} → List ℕ → List A → List (ℕ × A)
pair_up (x ∷ xs) (r ∷ rs) = (x, r) ∷ pair_up xs rs
pair_up _ _ = []

module _ (net : Network) where
  open net use {TargetCache, MtpCache, Row}

  -- The variables of the speculative loop. `generated` starts behind the prompt.
  pub record Loop : Type 0 where
    pub target : TargetCache
    pub mtp : MtpCache
    pub next_target : ℕ
    pub target_hidden : Option Row
    pub generated : List ℕ
    pub counts : Counters

  pub record Proposal : Type 0 where
    pub candidates : List ℕ
    pub scratch : MtpCache
    pub checkpoints : List MtpCache

  pub data Outcome : Type 0 where
    stop : Loop → Outcome
    continue : Loop → Outcome

-- `is_eos` is `std::binary_search` in the sorted end-of-sequence ids.
module _ (net : Network) (is_eos : ℕ → Bool) where
  open net use {
    TargetCache, MtpCache, Row, target_forward, mtp_forward, clone_mtp, clone_target, copy_row,
    argmax, argmax_rows, settled,
  }

  -- The loop over `step` without MTP. It returns the tokens that it appends.
  unfoldable pub decode : ℕ → TargetCache → List ℕ → Option (List ℕ)
  decode zero c ids = some []
  decode (suc left) c ids = do
    (c', rows) ← target_forward c ids
    row ← last? rows
    next ← argmax row
    elim (is_eos next) [
      | true ↦ some (next ∷ [])
      | false ↦ decode left c' (next ∷ []) >>= λ rest. some (next ∷ rest)
    ]

  -- MTP proposes at most `left` more tokens, each from the one before it.
  unfoldable pub propose : ℕ → MtpCache → ℕ → Option Row → Option (Proposal net)
  propose zero scratch input hidden =
      some (record { candidates = []; scratch = scratch; checkpoints = [] })
  propose (suc left) scratch input hidden = do
    row ← hidden
    (scratch', rows) ← mtp_forward scratch ((input, row) ∷ [])
    last ← last? rows
    candidate ← argmax last
    copy ← copy_row last
    checkpoint ← clone_mtp scratch'
    elim (is_eos candidate) [
      | true ↦ some (record {
        candidates = candidate ∷ [];
        scratch = scratch';
        checkpoints = checkpoint ∷ [];
      })
      | false ↦ propose left scratch' candidate (some copy) >>= λ rest. some (record {
        candidates = candidate ∷ rest.candidates;
        scratch = rest.scratch;
        checkpoints = checkpoint ∷ rest.checkpoints;
      })
    ]

  abbrev pub ends_in_eos : Option ℕ → Bool
  ends_in_eos none = false
  ends_in_eos (some t) = is_eos t

  -- The test at the end of a round.
  unfoldable pub end_round : ℕ → Loop net → Outcome net
  end_round max_new s =
      if leb max_new (length s.generated) || ends_in_eos (last? s.generated)
      then stop s
      else continue s

  -- Every candidate was predicted: the verification caches and the scratch caches are kept.
  unfoldable pub accept_all :
      ℕ → Loop net → Proposal net → TargetCache → List Row → List ℕ → Option (Outcome net)
  unfolding end_round
  accept_all max_new s p verified rows predictions = do
    next ← last? predictions
    some (
        end_round max_new (record s {
          target = verified;
          mtp = p.scratch;
          next_target = next;
          target_hidden = last? rows >>= copy_row;
          generated = s.generated ++ s.next_target ∷ p.candidates;
          counts = record s.counts { accepted = s.counts.accepted + length p.candidates };
        }))

  -- After the replay: the MTP cache goes back to the accepted prefix and takes the correction in.
  unfoldable pub recover :
      ℕ → Loop net → Proposal net → MtpCache → ℕ → ℕ → TargetCache → List Row → Option (Outcome net)
  unfolding end_round
  recover max_new s p first accepted correction replayed rows = do
    checkpoint ← get_elem? (first ∷ p.checkpoints) accepted
    -- row `replay_ids.size() - 2`
    input_row ← get_elem? rows (accepted + 2 - 2)
    input_hidden ← copy_row input_row
    (mtp', _) ← mtp_forward checkpoint ((correction, input_hidden) ∷ [])
    row ← last? rows
    next ← argmax row
    hidden ← copy_row row
    some (
        end_round max_new (record s {
          target = replayed;
          mtp = mtp';
          next_target = next;
          target_hidden = some hidden;
          counts = record s.counts { recovery_tokens = s.counts.recovery_tokens + 1 };
        }))

  -- The accepted prefix and the correction, appended as far as tokens are still wanted.
  abbrev pub appended : ℕ → Loop net → Proposal net → ℕ → ℕ → List ℕ
  appended max_new s p accepted correction =
      let prefix = s.generated ++ s.next_target ∷ take accepted p.candidates in
      if ltb (length prefix) max_new then prefix ++ correction ∷ [] else prefix

  abbrev pub replayed_loop : ℕ → Loop net → Proposal net → ℕ → ℕ → TargetCache → Loop net
  replayed_loop max_new s p accepted correction replayed = record s {
    generated = appended max_new s p accepted correction;
    target = replayed;
    counts = record s.counts {
      accepted = s.counts.accepted + accepted;
      rejected = s.counts.rejected + (length p.candidates - accepted);
      corrections = s.counts.corrections + 1;
      replay_tokens = s.counts.replay_tokens + (accepted + 2);
    };
  }

  -- After the forward of the replay.
  unfoldable pub replay :
      ℕ → Loop net → Proposal net → MtpCache → ℕ → ℕ → TargetCache → List Row → Option (Outcome net)
  unfolding recover
  replay max_new s p first accepted correction replayed rows =
      let s' = replayed_loop max_new s p accepted correction replayed in
      if leb max_new (length s'.generated) || is_eos correction
      then some (stop s')
      else recover max_new s' p first accepted correction replayed rows

  -- A candidate was not predicted: the accepted prefix and the target's correction are replayed on
  -- the committed caches.
  unfoldable pub reject : ℕ → Loop net → Proposal net → MtpCache → List ℕ → ℕ → Option (Outcome net)
  unfolding replay
  reject max_new s p first predictions accepted = do
    correction ← get_elem? predictions accepted
    (replayed, rows) ←
        target_forward s.target ((s.next_target ∷ take accepted p.candidates) ++ correction ∷ [])
    replay max_new s p first accepted correction replayed rows

  abbrev pub counted : ℕ → Loop net → Proposal net → Loop net
  counted count s p = record s {
    counts = record s.counts {
      proposed = s.counts.proposed + length p.candidates;
      max_proposal_width = max s.counts.max_proposal_width count;
      mtp_clones = s.counts.mtp_clones + (length p.candidates + 2);
      target_clones = s.counts.target_clones + 1;
      rounds = s.counts.rounds + 1;
    };
  }

  -- Verification of a proposal in one forward of the target on a checkpoint of its caches.
  unfoldable pub verify : ℕ → Loop net → Proposal net → MtpCache → Option (Outcome net)
  unfolding accept_all reject
  verify max_new s p first = do
    verification ← clone_target s.target
    (verified, rows) ← target_forward verification (s.next_target ∷ p.candidates)
    guard (settled rows)
    predictions ← argmax_rows rows
    guard (length predictions == suc (length p.candidates))
    let accepted = accepted_prefix predictions p.candidates
    if accepted == length p.candidates
        then accept_all max_new s p verified rows predictions
        else reject max_new s p first predictions accepted

  unfoldable pub speculate_round : ℕ → ℕ → Loop net → Option (Outcome net)
  unfolding propose verify
  speculate_round max_new count s = do
    scratch ← clone_mtp s.mtp
    first ← clone_mtp s.mtp
    p ← propose count scratch s.next_target s.target_hidden
    verify max_new (counted count s p) p first

  -- The body of the `while` loop: the last token alone, or propose, verify, and accept or replay.
  unfoldable pub round : ℕ → ℕ → Loop net → Option (Outcome net)
  unfolding speculate_round
  round max_new width s =
      let remaining = max_new - length s.generated in
      if is_eos s.next_target || remaining == 1
      then some (stop (record s { generated = s.generated ++ s.next_target ∷ [] }))
      else speculate_round max_new (min width (remaining - 1)) s

  abbrev pub resume : (Loop net → Option (Loop net)) → Outcome net → Option (Loop net)
  resume again (stop s) = some s
  resume again (continue s) = again s

  -- The `while` loop. Out of fuel it is `none`, as a failing round is.
  unfoldable pub speculative_loop : ℕ → ℕ → ℕ → Loop net → Option (Loop net)
  unfolding round
  speculative_loop zero max_new width s = none
  speculative_loop (suc fuel) max_new width s = elim (ltb (length s.generated) max_new) [
    | false ↦ some s
    | true ↦ round max_new width s >>= resume (speculative_loop fuel max_new width)
  ]

  -- The variables behind the prefill.
  abbrev pub start : TargetCache → MtpCache → ℕ → Row → Loop net
  start target mtp next hidden = record {
    target = target;
    mtp = mtp;
    next_target = next;
    target_hidden = some hidden;
    generated = [];
    counts = no_counts;
  }

  -- The prefill of both caches, and then the loop, with a round of fuel for each token and one more.
  unfoldable pub speculate : ℕ → ℕ → List ℕ → Option (Loop net)
  unfolding speculative_loop
  speculate max_new width prompt = do
    (target, rows) ← target_forward net.empty_target prompt
    row ← last? rows
    next ← argmax row
    hidden ← copy_row row
    (mtp, _) ← mtp_forward net.empty_mtp (pair_up prompt rows)
    speculative_loop (suc max_new) max_new width (start target mtp next hidden)
