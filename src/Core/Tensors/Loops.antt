-- ===== src/Core/Tensors/Loops.antt =====
-- src/core/tensor.cc: the loops for one and two dimensions against the general copy.
use vicold_hybrid_ai.Base.{
  ℕ, zero, suc, ◌+◌, ◌*◌, ◌<◌, ◌≤◌, ◌≡◌, refl, ap, ap₂, sym, ◌∙◌, true, false, List, [], ◌∷◌, ◌++◌,
  ltb, arith,
}
use vicold_hybrid_ai.Core.Tensors.{
  numel, increment, copy_from, copy_indices, positive_dims, line_from, row_from, rows_from,
  host_indices,
}

increment_more : (d i : ℕ) (ds is : List ℕ) → suc i < d → increment (d ∷ ds) (i ∷ is) ≡ suc i ∷ is
unfolding increment
increment_more d i ds is lt =
    let more : ltb (suc i) d ≡ true = ground arith in rw (increment, more) refl

increment_last :
    (d i : ℕ) (ds is : List ℕ) → suc i ≡ d → increment (d ∷ ds) (i ∷ is) ≡ 0 ∷ increment ds is
unfolding increment
increment_last d i ds is same =
    let last : ltb (suc i) d ≡ false = ground arith in rw (increment, last) refl

copy_from-line :
    (d s count i : ℕ)
    → i + count ≤ d
    → copy_from (d ∷ []) (s ∷ []) count (i ∷ []) ≡ line_from s i count
unfolding copy_from line_from
copy_from-line d s zero i le = refl
copy_from-line d s (suc zero) i le = ap (λ x. x ∷ []) (omega arith)
copy_from-line d s (suc (suc count)) i le =
    let next = increment_more d i [] [] (omega arith) in
    ap₂ (λ x xs. x ∷ xs) (omega arith)
      (ap (copy_from (d ∷ []) (s ∷ []) (suc count)) next
        ∙ copy_from-line d s (suc count) (suc i) (omega arith))

copy_from-row :
    (d1 d0 s1 s0 i rest count j total : ℕ)
    → j + suc count ≡ d1
    → total ≡ suc count + rest
    → copy_from (d1 ∷ d0 ∷ []) (s1 ∷ s0 ∷ []) total (j ∷ i ∷ [])
      ≡ row_from s0 s1 i j (suc count)
        ++ copy_from (d1 ∷ d0 ∷ []) (s1 ∷ s0 ∷ []) rest (0 ∷ increment (d0 ∷ []) (i ∷ []))
unfolding copy_from row_from
copy_from-row d1 d0 s1 s0 i rest count j zero same whole = absurd (omega arith)
copy_from-row d1 d0 s1 s0 i rest zero j (suc total) same whole =
    let left : total ≡ rest = omega arith in
    ap₂ (λ x xs. x ∷ xs) (omega arith)
      (ap₂ (copy_from (d1 ∷ d0 ∷ []) (s1 ∷ s0 ∷ [])) left
        (increment_last d1 j (d0 ∷ []) (i ∷ []) (omega arith)))
copy_from-row d1 d0 s1 s0 i rest (suc count) j (suc total) same whole =
    ap₂ (λ x xs. x ∷ xs) (omega arith)
      (ap (copy_from (d1 ∷ d0 ∷ []) (s1 ∷ s0 ∷ []) total)
          (increment_more d1 j (d0 ∷ []) (i ∷ []) (omega arith))
        ∙ copy_from-row d1 d0 s1 s0 i rest count (suc j) total (omega arith) (omega arith))

copy_from-rows :
    (k d0 s1 s0 count i total : ℕ)
    → i + count ≤ d0
    → total ≡ count * suc k
    → copy_from (suc k ∷ d0 ∷ []) (s1 ∷ s0 ∷ []) total (0 ∷ i ∷ [])
      ≡ rows_from (suc k) s0 s1 i count
unfolding copy_from rows_from row_from
copy_from-rows k d0 s1 s0 zero i zero le whole = refl
copy_from-rows k d0 s1 s0 zero i (suc total) le whole = absurd (grind arith)
copy_from-rows k d0 s1 s0 (suc zero) i total le whole =
    copy_from-row (suc k) d0 s1 s0 i 0 k 0 total (omega arith) (grind arith)
copy_from-rows k d0 s1 s0 (suc (suc count)) i total le whole =
    copy_from-row (suc k) d0 s1 s0 i (suc count * suc k) k 0 total (omega arith) (grind arith)
    ∙ ap (λ xs. row_from s0 s1 i 0 (suc k) ++ xs)
        (ap (λ is. copy_from (suc k ∷ d0 ∷ []) (s1 ∷ s0 ∷ []) (suc count * suc k) (0 ∷ is))
            (increment_more d0 i [] [] (omega arith))
          ∙ copy_from-rows k d0 s1 s0 (suc count) (suc i) (suc count * suc k) (omega arith) refl)

-- For dimensions that are not 0, the loops for one and for two dimensions take the same source
-- elements in the same order as the general copy.
pub host_indices-copy_indices :
    (ds ss : List ℕ) → positive_dims ds ≡ true → host_indices ds ss ≡ copy_indices ds ss
host_indices-copy_indices [] ss pos = refl
host_indices-copy_indices (d ∷ []) [] pos = refl
host_indices-copy_indices (d ∷ []) (s ∷ []) pos =
    sym (copy_from-line d s (numel (d ∷ [])) 0 (omega arith))
host_indices-copy_indices (d ∷ []) (s ∷ s' ∷ ss) pos = refl
host_indices-copy_indices (d1 ∷ d0 ∷ []) [] pos = refl
host_indices-copy_indices (d1 ∷ d0 ∷ []) (s ∷ []) pos = refl
host_indices-copy_indices (zero ∷ d0 ∷ []) (s1 ∷ s0 ∷ []) pos = absurd (cc)
host_indices-copy_indices (suc k ∷ d0 ∷ []) (s1 ∷ s0 ∷ []) pos =
    sym (copy_from-rows k d0 s1 s0 d0 0 (numel (suc k ∷ d0 ∷ [])) (omega arith) (grind arith))
host_indices-copy_indices (d1 ∷ d0 ∷ []) (s1 ∷ s0 ∷ s2 ∷ ss) pos = refl
host_indices-copy_indices (d2 ∷ d1 ∷ d0 ∷ ds) ss pos = refl
