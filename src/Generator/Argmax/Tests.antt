-- ===== src/Generator/Argmax/Tests.antt =====
-- The argmax of two rows of logits (src/generator.cc), on numbers in place of floating-point values.
use vicold_hybrid_ai.Base.{ℕ, ◌≡◌, refl, Bool, true, false, some, none, [], ◌∷◌, ltb, arith}
use vicold_hybrid_ai.Core.{bf16}
use vicold_hybrid_ai.Generator.Argmax.{Logits, argmax_rows_reference, scan, scan_rows}
use vicold_hybrid_ai.Generator.Argmax.First.{IsOrder}
use vicold_hybrid_ai.Generator.Argmax.Rows.{IsRows, argmax_rows_reference-IsRows}

abbrev above : ℕ → ℕ → Bool
above a b = ltb b a

above-IsOrder : IsOrder above
above-IsOrder = record {
  transitive = λ a b c h k. ground arith;
  irreflexive = λ a. ground arith;
  divided = λ a b c h k. ground arith;
}

abbrev two_rows : Logits ℕ above 0
two_rows = record {
  has_buffer = true;
  is_gpu = false;
  dtype = bf16;
  shape = 2 ∷ 3 ∷ [];
  kernel_last_row = none;
  kernel_rows = none;
  values = some (1 ∷ 5 ∷ 5 ∷ 7 ∷ 2 ∷ 7 ∷ []);
}

two_ids : argmax_rows_reference ℕ above 0 two_rows ≡ some (1 ∷ 0 ∷ [])
unfolding argmax_rows_reference scan_rows scan
two_ids = refl

argmax_rows_reference-IsRows_example :
    IsRows ℕ above 0 two_rows 2 3 (1 ∷ 5 ∷ 5 ∷ 7 ∷ 2 ∷ 7 ∷ []) (1 ∷ 0 ∷ [])
argmax_rows_reference-IsRows_example =
    argmax_rows_reference-IsRows ℕ above 0 above-IsOrder two_rows 2 3 (1 ∷ 5 ∷ 5 ∷ 7 ∷ 2 ∷ 7 ∷ [])
      (1 ∷ 0 ∷ []) refl refl refl two_ids
