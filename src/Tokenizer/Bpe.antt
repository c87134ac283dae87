-- ===== src/Tokenizer/Bpe.antt =====
-- src/tokenizer/qwen_tokenizer.cc: `bpe`, the merging of byte pairs.
use vicold_hybrid_ai.Base.{
  ℕ, zero, suc, ◌<◌, ◌≤◌, ◌≡◌, refl, ap, sym, ◌∙◌, subst, false, Option, none, some, List, [], ◌∷◌,
  ◌++◌, length, concat, map, leb, if◌then◌else◌, leb→le, if-elim, arith, append_assoc, append-nil,
  Option-cases, inl, inr,
}
use mathlib.Core.Option.{some-injective}
use vicold_hybrid_ai.Tokenizer.Utf8.{utf8_to_codepoints, codepoints_to_utf8, encode}

same_rank : (rank r : ℕ) → ◌≡◌ {A = Option ℕ} (some rank) (some r) → rank ≤ r
same_rank rank r e = omega (arith, some-injective rank r e)

gt_of : (a b : ℕ) → leb a b ≡ false → b < a
gt_of a b h = ground arith

split-concat :
    (cps : List ℕ) → concat (map (λ c. codepoints_to_utf8 (c ∷ [])) cps) ≡ codepoints_to_utf8 cps
split-concat [] = refl
split-concat (c ∷ cps) = rw (append-nil (encode c), split-concat cps) refl

-- `merges_`: the rank of a pair of tokens.
module _ (merges : List ℕ → List ℕ → Option ℕ) where
  -- The better of a pair's rank and the best one behind it; on equal ranks the first pair is kept.
  abbrev pub better : Option ℕ → Option (ℕ × ℕ) → Option (ℕ × ℕ)
  better none none = none
  better none (some (rank, index)) = some (rank, suc index)
  better (some rank) none = some (rank, 0)
  better (some rank) (some (rank', index)) =
      if leb rank rank' then some (rank, 0) else some (rank', suc index)

  -- The scan over the neighbours: the lowest rank, and the index of its first pair.
  unfoldable pub best_pair : List (List ℕ) → Option (ℕ × ℕ)
  best_pair [] = none
  best_pair (a ∷ []) = none
  best_pair (a ∷ b ∷ ts) = better (merges a b) (best_pair (b ∷ ts))

  abbrev pub merge_at : ℕ → List (List ℕ) → List (List ℕ)
  merge_at zero (a ∷ b ∷ ts) = (a ++ b) ∷ ts
  merge_at (suc i) (a ∷ ts) = a ∷ merge_at i ts
  merge_at _ ts = ts

  unfoldable pub merge_loop : ℕ → List (List ℕ) → Option (List (List ℕ))
  unfolding best_pair
  merge_loop zero ts = none
  merge_loop (suc fuel) ts = elim (best_pair ts) [
    | none ↦ some ts
    | some (rank, index) ↦ merge_loop fuel (merge_at index ts)
  ]

  abbrev pub split_word : List ℕ → List (List ℕ)
  split_word word = map (λ c. codepoints_to_utf8 (c ∷ [])) (utf8_to_codepoints word)

  -- Each turn makes the list shorter by one token.
  unfoldable pub bpe : List ℕ → Option (List (List ℕ))
  unfolding merge_loop
  bpe word =
      let tokens = split_word word in
      if leb (length tokens) 1 then some tokens else merge_loop (suc (length tokens)) tokens

  -- No two neighbours have a rank.
  abbrev pub IsMerged : List (List ℕ) → Type 0
  IsMerged [] = Unit
  IsMerged (a ∷ []) = Unit
  IsMerged (a ∷ b ∷ ts) = (merges a b ≡ none) × IsMerged (b ∷ ts)

  abbrev pub rank_at : ℕ → List (List ℕ) → Option ℕ
  rank_at zero (a ∷ b ∷ ts) = merges a b
  rank_at (suc i) (a ∷ ts) = rank_at i ts
  rank_at _ ts = none

  abbrev pub IsLowest : ℕ → List (List ℕ) → Type 0
  IsLowest rank [] = Unit
  IsLowest rank (a ∷ []) = Unit
  IsLowest rank (a ∷ b ∷ ts) = ((r : ℕ) → merges a b ≡ some r → rank ≤ r) × IsLowest rank (b ∷ ts)

  -- A best pair is one of neighbours that have its rank, and no neighbours have a lower one.
  abbrev pub IsBest : List (List ℕ) → Option (ℕ × ℕ) → Type 0
  IsBest ts none = IsMerged ts
  IsBest ts (some (rank, index)) =
      IsLowest rank ts × (rank_at index ts ≡ some rank) × (suc index < length ts)

  IsLowest-le :
      (low rank : ℕ) (ts : List (List ℕ)) → low ≤ rank → IsLowest rank ts → IsLowest low ts
  IsLowest-le low rank [] le _ = tt
  IsLowest-le low rank (a ∷ []) le _ = tt
  IsLowest-le low rank (a ∷ b ∷ ts) le (h, rest) =
      ((λ r e. omega (arith, h r e)), IsLowest-le low rank (b ∷ ts) le rest)

  IsMerged-IsLowest : (rank : ℕ) (ts : List (List ℕ)) → IsMerged ts → IsLowest rank ts
  IsMerged-IsLowest rank [] _ = tt
  IsMerged-IsLowest rank (a ∷ []) _ = tt
  IsMerged-IsLowest rank (a ∷ b ∷ ts) (e, rest) =
      ((λ r h. absurd (cc)), IsMerged-IsLowest rank (b ∷ ts) rest)

  better-IsBest :
      (a b : List ℕ) (ts : List (List ℕ)) (here : Option ℕ) (rest : Option (ℕ × ℕ))
      → merges a b ≡ here
      → IsBest (b ∷ ts) rest
      → IsBest (a ∷ b ∷ ts) (better here rest)
  better-IsBest a b ts none none e best = (e, best)
  better-IsBest a b ts none (some (rank, index)) e (low, at, lt) =
      (((λ r h. absurd (cc)), low), at, omega arith)
  better-IsBest a b ts (some rank) none e best = (
    ((λ r h. same_rank rank r (sym e ∙ h)), IsMerged-IsLowest rank (b ∷ ts) best),
    e,
    omega arith,
  )
  better-IsBest a b ts (some rank) (some (rank', index)) e (low, at, lt) =
      if-elim (IsBest (a ∷ b ∷ ts)) (leb rank rank')
        (λ h. (
          (
            (λ r h'. same_rank rank r (sym e ∙ h')),
            IsLowest-le rank rank' (b ∷ ts) (leb→le rank rank' h) low,
          ),
          e,
          omega arith,
        ))
        λ h. (
          ((λ r h'. omega (arith, same_rank rank r (sym e ∙ h'), gt_of rank rank' h)), low),
          at,
          omega arith,
        )

  -- The scan finds neighbours of the lowest rank, or that no neighbours have a rank.
  pub best_pair-IsBest : (ts : List (List ℕ)) → IsBest ts (best_pair ts)
  unfolding best_pair
  best_pair-IsBest [] = tt
  best_pair-IsBest (a ∷ []) = tt
  best_pair-IsBest (a ∷ b ∷ ts) =
      better-IsBest a b ts (merges a b) (best_pair (b ∷ ts)) refl (best_pair-IsBest (b ∷ ts))

  merge_at-concat : (i : ℕ) (ts : List (List ℕ)) → concat (merge_at i ts) ≡ concat ts
  merge_at-concat zero [] = refl
  merge_at-concat zero (a ∷ []) = refl
  merge_at-concat zero (a ∷ b ∷ ts) = append_assoc a b (concat ts)
  merge_at-concat (suc i) [] = refl
  merge_at-concat (suc i) (a ∷ ts) = ap (λ t. a ++ t) (merge_at-concat i ts)

  length-merge_at :
      (i : ℕ) (ts : List (List ℕ)) → suc i < length ts → suc (length (merge_at i ts)) ≡ length ts
  length-merge_at i [] lt = absurd (omega arith)
  length-merge_at zero (a ∷ []) lt = absurd (omega arith)
  length-merge_at zero (a ∷ b ∷ ts) lt = refl
  length-merge_at (suc i) (a ∷ ts) lt = ap suc (length-merge_at i ts (omega arith))

  merge_loop-total :
      (fuel : ℕ) (ts : List (List ℕ))
      → length ts < fuel
      → (rs : List (List ℕ)) × (merge_loop fuel ts ≡ some rs)
        × (concat rs ≡ concat ts)
        × IsMerged rs
  unfolding merge_loop
  merge_loop-total zero ts enough = absurd (omega arith)
  merge_loop-total (suc fuel) ts enough = elim (Option-cases (best_pair ts)) [
    | inl e ↦ (ts, rw (merge_loop, e) refl, refl, subst (IsBest ts) e (best_pair-IsBest ts))
    | inr ((rank, index), e) ↦
        let (_, _, lt) = subst (IsBest ts) e (best_pair-IsBest ts) in
        let (rs, ok, same, merged) =
          merge_loop-total fuel (merge_at index ts) (omega (arith, length-merge_at index ts lt)) in
        (rs, rw (merge_loop, e) ok, same ∙ merge_at-concat index ts, merged)
  ]

  short-IsMerged : (ts : List (List ℕ)) → length ts ≤ 1 → IsMerged ts
  short-IsMerged [] _ = tt
  short-IsMerged (a ∷ []) _ = tt
  short-IsMerged (a ∷ b ∷ ts) le = absurd (omega arith)

  -- Byte pair encoding ends on every word, keeps its text, and leaves no neighbours that could be
  -- merged.
  pub bpe-total :
      (word : List ℕ)
      → (ts : List (List ℕ)) × (bpe word ≡ some ts)
        × (concat ts ≡ codepoints_to_utf8 (utf8_to_codepoints word))
        × IsMerged ts
  unfolding bpe
  bpe-total word =
      let tokens = split_word word in
      let whole = split-concat (utf8_to_codepoints word) in
      let P : Option (List (List ℕ)) → Type 0 = λ o.
        (ts : List (List ℕ)) × (o ≡ some ts)
        × (concat ts ≡ codepoints_to_utf8 (utf8_to_codepoints word))
        × IsMerged ts in
      let (rs, ok, same, merged) = merge_loop-total (suc (length tokens)) tokens (omega arith) in
      if-elim P (leb (length tokens) 1)
        (λ short. (tokens, refl, whole, short-IsMerged tokens (leb→le (length tokens) 1 short)))
        λ long. (rs, ok, same ∙ whole, merged)
