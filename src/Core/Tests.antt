-- ===== src/Core/Tests.antt =====
-- Concrete shapes of src/core.
use vicold_hybrid_ai.Base.{arith, ℕ, ◌*◌, ◌+◌, ◌≤◌, ◌≡◌, refl, List, [], ◌∷◌, length, All}
use vicold_hybrid_ai.Core.Tensors.{
  compute_strides, copy_indices, contiguous_indices, host_indices, rows_from, row_from,
}
use vicold_hybrid_ai.Core.Tensors.Loops.{host_indices-copy_indices}
use vicold_hybrid_ai.Core.Tensors.Copies.{
  numbers_from, copy_indices-order, contiguous_indices-within,
}

copy_indices-order_example :
    copy_indices (3 ∷ 2 ∷ []) (compute_strides (3 ∷ 2 ∷ [])) ≡ numbers_from 0 6
copy_indices-order_example = copy_indices-order (3 ∷ 2 ∷ []) refl

-- A transposed matrix of two rows and three columns, in a buffer of 24 bytes.
abbrev transposed : List ℕ
transposed = 0 ∷ 2 ∷ 4 ∷ 1 ∷ 3 ∷ 5 ∷ []

contiguous_indices-within_example : (length transposed ≡ 6) × All (λ x. (x + 1) * 4 ≤ 24) transposed
unfolding contiguous_indices rows_from row_from
contiguous_indices-within_example =
    contiguous_indices-within (3 ∷ 2 ∷ []) (2 ∷ 1 ∷ []) 4 24 transposed (omega arith) (omega arith)
      refl

host_indices-copy_indices_example :
    host_indices (3 ∷ 2 ∷ []) (2 ∷ 1 ∷ []) ≡ copy_indices (3 ∷ 2 ∷ []) (2 ∷ 1 ∷ [])
host_indices-copy_indices_example = host_indices-copy_indices (3 ∷ 2 ∷ []) (2 ∷ 1 ∷ []) refl
