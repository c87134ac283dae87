-- ===== src/Generator/Tests.antt =====
-- A small network that meets the assumptions, and the theorems at runs of it.
use vicold_hybrid_ai.Base.{
  ℕ, suc, ◌+◌, ◌<◌, ◌≡◌, refl, ap, Bool, true, some, List, [], ◌∷◌, map, length, ◌==◌,
  if◌then◌else◌,
}
use vicold_hybrid_ai.Generator.Network.{Network, IsCausal, IsReliable}
use vicold_hybrid_ai.Generator.Defs.{Loop, decode, speculate, accepted_prefix}
use vicold_hybrid_ai.Generator.Equivalence.{speculate-eq-decode}
use vicold_hybrid_ai.Generator.Counts.{IsFinal, speculate-IsFinal}
use vicold_hybrid_ai.Generator.Progress.{speculate_total}

-- The target counts up and skips from 3 to 7. MTP counts up.
abbrev after_token : ℕ → ℕ
after_token x = if x == 3 then 7 else x + 1

abbrev feed : List ℕ → List ℕ → List ℕ
feed c [] = c
feed c (x ∷ xs) = feed (x ∷ c) xs

abbrev mtp_rows : List (ℕ × ℕ) → List ℕ
mtp_rows [] = []
mtp_rows ((x, _) ∷ ps) = (x + 1) ∷ mtp_rows ps

abbrev pub counting : Network
counting = record {
  TargetCache = List ℕ;
  MtpCache = ℕ;
  Row = ℕ;
  empty_target = [];
  empty_mtp = 0;
  target_forward = λ c ids. some (feed c ids, map after_token ids);
  mtp_forward = λ c ps. some (c + length ps, mtp_rows ps);
  clone_mtp = some;
  clone_target = some;
  copy_row = some;
  argmax = some;
  argmax_rows = some;
  settled = λ _. true;
}

pub counting-IsCausal : IsCausal counting
counting-IsCausal = record {
  causal = λ c x y ys end rows e. (x ∷ c, after_token x, map after_token (y ∷ ys), refl, cc, cc);
  one_row = λ c x end rows e. (after_token x, cc);
  clone_target_same = λ c d e. cc;
  argmax_first = λ row rows ids e. (row, rows, refl, refl, cc);
}

length-tokens : (xs : List ℕ) → length (map after_token xs) ≡ length xs
length-tokens [] = refl
length-tokens (x ∷ xs) = ap suc (length-tokens xs)

pub counting-IsReliable : IsReliable counting
counting-IsReliable = record {
  target_row = λ c x xs. (feed (x ∷ c) xs, map after_token (x ∷ xs), refl, length-tokens (x ∷ xs));
  mtp_row = λ c p ps. (c + length (p ∷ ps), p.0 + 1, mtp_rows ps, refl);
  cloned_mtp = λ c. (c, refl);
  cloned_target = λ c. (c, refl);
  copied = λ row. (row, refl);
  predicted = λ row. (row, refl);
  all_predicted = λ rows. (rows, refl, refl);
  is_settled = λ _. refl;
}

abbrev pub is_nine : ℕ → Bool
is_nine x = x == 9

abbrev outcome : Loop counting
outcome = record {
  target = 9 ∷ 8 ∷ 7 ∷ 3 ∷ 2 ∷ 1 ∷ [];
  mtp = 4;
  next_target = 10;
  target_hidden = some 10;
  generated = 3 ∷ 7 ∷ 8 ∷ 9 ∷ [];
  counts = record {
    proposed = 6;
    accepted = 1;
    rejected = 5;
    corrections = 1;
    replay_tokens = 2;
    recovery_tokens = 1;
    max_proposal_width = 5;
    mtp_clones = 10;
    target_clones = 2;
    rounds = 2;
  };
}

-- A round whose candidates are all refused, and a round that accepts its one candidate.
run : speculate counting is_nine 6 8 (1 ∷ 2 ∷ []) ≡ some outcome
unfolding speculate accepted_prefix
run = refl

speculate-eq-decode_example : decode counting is_nine 6 [] (1 ∷ 2 ∷ []) ≡ some (3 ∷ 7 ∷ 8 ∷ 9 ∷ [])
speculate-eq-decode_example =
    speculate-eq-decode counting is_nine 6 counting-IsCausal 8 (1 ∷ 2 ∷ []) outcome run

speculate-IsFinal_example : IsFinal counting is_nine 6 outcome
speculate-IsFinal_example = speculate-IsFinal counting is_nine 6 8 (1 ∷ 2 ∷ []) outcome run

speculate_total_example :
    (s : Loop counting) × (speculate counting is_nine 6 8 (1 ∷ 2 ∷ []) ≡ some s)
    × (0 < 6 → 0 < length s.generated)
speculate_total_example = speculate_total counting is_nine 6 counting-IsReliable 8 1 (2 ∷ [])
