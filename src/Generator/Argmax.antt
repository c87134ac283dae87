-- ===== src/Generator/Argmax.antt =====
-- src/generator.cc: `argmax_last_row_reference` and `argmax_rows_reference`. A floating-point number is an
-- element of a type with the test `>`, as the arguments say; the pointers are not null, and
-- a matrix of logits has a row at least.
pub mod First
pub mod Rows
mod Tests
use vicold_hybrid_ai.Base.{
  ℕ, zero, suc, ◌+◌, ◌-◌, ◌*◌, Bool, true, false, ◌&&◌, ◌||◌, Option, none, some, List, [], ◌∷◌,
  take, drop, if◌then◌else◌, ◌>>=◌, guard, ◌>>◌,
}
use vicold_hybrid_ai.Core.{DType, fp32, fp16, bf16}

module _ (Float : Type 0) (greater : Float → Float → Bool) (lowest : Float) where
  -- The logits, with what the backend answers about them: the kernels, where they can run, and the
  -- values that are read back to the host.
  pub record Logits : Type 0 where
    pub has_buffer : Bool
    pub is_gpu : Bool
    pub dtype : DType
    pub shape : List ℕ
    pub kernel_last_row : Option ℕ
    pub kernel_rows : Option (List ℕ)
    pub values : Option (List Float)

  -- The loop over the columns, with the greatest value so far and its column.
  unfoldable pub scan : List Float → Float → ℕ → ℕ → ℕ
  scan [] best id result = result
  scan (v ∷ vs) best id result =
      let found = scan vs v (suc id) id in
      let passed = scan vs best (suc id) result in if greater v best then found else passed

  abbrev pub row_values : ℕ → ℕ → List Float → List Float
  row_values row columns host = take columns (drop (row * columns) host)

  abbrev pub is_readable : DType → Bool
  is_readable fp32 = true
  is_readable bf16 = true
  is_readable _ = false

  abbrev pub from_kernel {ℓ} : {A : Type ℓ} → Bool → Option A → Option A → Option A
  from_kernel true (some a) host = some a
  from_kernel _ _ host = host

  -- `initial` is what the result holds before the call.
  abbrev pub last_row_on_host : Logits → ℕ → ℕ → ℕ → Option ℕ
  last_row_on_host l rows columns initial = do
    guard (is_readable l.dtype)
    host ← l.values
    some (scan (row_values (rows - 1) columns host) lowest 0 initial)

  unfoldable pub argmax_last_row_reference : Logits → ℕ → Option ℕ
  argmax_last_row_reference l initial = elim l.shape [
    | rows ∷ columns ∷ [] ↦
        guard l.has_buffer
        >> from_kernel l.is_gpu l.kernel_last_row (last_row_on_host l rows columns initial)
    | _ ↦ none
  ]

  -- The loop over the rows, from `row` on.
  unfoldable pub scan_rows : ℕ → ℕ → ℕ → List Float → List ℕ
  scan_rows row zero columns host = []
  scan_rows row (suc left) columns host =
      scan (row_values row columns host) lowest 0 0 ∷ scan_rows (suc row) left columns host

  abbrev pub rows_on_host : Logits → ℕ → ℕ → Option (List ℕ)
  rows_on_host l rows columns = do
    guard (is_readable l.dtype)
    host ← l.values
    some (scan_rows 0 rows columns host)

  unfoldable pub argmax_rows_reference : Logits → Option (List ℕ)
  argmax_rows_reference l = elim l.shape [
    | rows ∷ columns ∷ [] ↦
        guard l.has_buffer >> from_kernel l.is_gpu l.kernel_rows (rows_on_host l rows columns)
    | _ ↦ none
  ]
