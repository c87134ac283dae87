-- ===== src/Models/Quantized.antt =====
-- src/ops/quantized_weight.cc: the checks of a weight with its scales. A tensor is what the checks read
-- of it, whether it has a buffer, its element type, shape and device, and the kind of memory that the
-- buffer is in. `numel` does not depend on the order of the dimensions.
use native.Mathlib.Nat.{le-div_iff_mul-le, div-mul-le_self}
use vicold_hybrid_ai.Core.Tensors.{numel}
use vicold_hybrid_ai.Base.{
  ℕ, ◌+◌, ◌-◌, ◌/◌, ◌<◌, ◌≤◌, ◌≡◌, refl, sym, subst, Bool, true, false, ◌&&◌, ◌||◌, not, List, [],
  ◌∷◌, length, get_or, ◌==◌, same_text, same_text-path, if◌then◌else◌, arith,
}
use vicold_hybrid_ai.Core.{
  Device, no_device, MemoryType, host, Result, ok, StatusCode, invalid_argument, require,
  require-elim, ◌>>◌, DType, fp32, fp16, bf16, fp8_e4m3,
}

pub record Tensor : Type 0 where
  pub has_buffer : Bool
  pub dtype : DType
  pub shape : List ℕ
  pub device : Device
  pub memory_type : MemoryType

-- `Tensor()`
abbrev pub no_tensor : Tensor
no_tensor = record {
  has_buffer = false;
  dtype = fp32;
  shape = [];
  device = no_device;
  memory_type = host;
}

pub data ScaleLayout : Type 0 where
  no_scales per_tensor per_row per_column block2d : ScaleLayout

pub record QuantizationSpec : Type 0 where
  pub scale_layout : ScaleLayout
  pub block_rows : ℕ
  pub block_columns : ℕ

pub record QuantizedWeight : Type 0 where
  pub values : Tensor
  pub scales : Tensor
  pub quantization : QuantizationSpec

-- `QuantizationSpec{}`
abbrev pub no_quantization : QuantizationSpec
no_quantization = record { scale_layout = no_scales; block_rows = 1; block_columns = 1 }

abbrev pub is_dense : DType → Bool
is_dense fp32 = true
is_dense fp16 = true
is_dense bf16 = true
is_dense _ = false

abbrev pub is_fp8 : DType → Bool
is_fp8 fp8_e4m3 = true
is_fp8 _ = false

abbrev pub is_fp32 : DType → Bool
is_fp32 fp32 = true
is_fp32 _ = false

-- `(n + block - 1) / block`
abbrev pub blocks : ℕ → ℕ → ℕ
blocks n block = (n + block - 1) / block

-- The checks of each layout of scales, on the shape of the values.
abbrev pub check_layout : QuantizedWeight → ScaleLayout → ℕ → ℕ → Result (Unit {0})
check_layout w no_scales rows columns = ok tt
check_layout w per_tensor rows columns = require (numel w.scales.shape == 1) invalid_argument
check_layout w per_row rows columns = require (numel w.scales.shape == rows) invalid_argument
check_layout w per_column rows columns = require (numel w.scales.shape == columns) invalid_argument
check_layout w block2d rows columns = do
  require (not (w.quantization.block_rows == 0 || w.quantization.block_columns == 0))
      invalid_argument
  require
      (same_text w.scales.shape
        (blocks rows w.quantization.block_rows ∷ blocks columns w.quantization.block_columns ∷ []))
      invalid_argument

abbrev pub has_no_scales : ScaleLayout → Bool
has_no_scales no_scales = true
has_no_scales _ = false

abbrev pub check_dense : QuantizedWeight → Result (Unit {0})
check_dense w = do
  require (not w.scales.has_buffer) invalid_argument
  require (is_dense w.values.dtype) invalid_argument

abbrev pub check_scaled : QuantizedWeight → Result (Unit {0})
check_scaled w = do
  require (is_fp8 w.values.dtype) invalid_argument
  require (w.scales.has_buffer && is_fp32 w.scales.dtype) invalid_argument
  require (length w.values.shape == 2) invalid_argument
  check_layout w w.quantization.scale_layout (get_or w.values.shape 0 0) (get_or w.values.shape 1 0)

unfoldable pub validate_weight : QuantizedWeight → Result (Unit {0})
validate_weight w =
    require w.values.has_buffer invalid_argument
    >> (if has_no_scales w.quantization.scale_layout then check_dense w else check_scaled w)

block_index : (n block i : ℕ) → 0 < block → i < n → i / block < blocks n block
block_index n block i some_block below =
    let whole = div-mul-le_self i block in
    let next : i / block + 1 ≤ (n + block - 1) / block =
      (le-div_iff_mul-le some_block).1 (grind (arith, whole)) in
    omega (arith, next)

require-true : (t : Bool) (code : StatusCode) → require t code ≡ ok tt → t ≡ true
require-true true code h = refl
require-true false code h = absurd (cc)

some_block :
    (rows columns : ℕ) → not (rows == 0 || columns == 0) ≡ true → (0 < rows) × (0 < columns)
some_block rows columns h = (ground arith, ground arith)

-- An element at `row` and `column` has a block, and the block an entry in the scales.
abbrev pub HasScale : QuantizedWeight → ℕ → ℕ → Type 0
HasScale w row column =
    (0 < w.quantization.block_rows)
    × (0 < w.quantization.block_columns)
    × (row / w.quantization.block_rows < get_or w.scales.shape 0 0)
    × (column / w.quantization.block_columns < get_or w.scales.shape 1 0)

check_layout-HasScale :
    (w : QuantizedWeight) (rows columns row column : ℕ)
    → check_layout w block2d rows columns ≡ ok tt
    → row < rows
    → column < columns
    → HasScale w row column
check_layout-HasScale w rows columns row column valid in_rows in_columns =
    require-elim (not (w.quantization.block_rows == 0 || w.quantization.block_columns == 0))
      invalid_argument _ valid
      λ blocked rest.
        let expected =
          blocks rows w.quantization.block_rows
          ∷ blocks columns w.quantization.block_columns
          ∷ [] in
        let same : w.scales.shape ≡ expected =
          same_text-path w.scales.shape expected
            (require-true (same_text w.scales.shape expected) invalid_argument rest) in
        let (some_rows, some_columns) =
          some_block w.quantization.block_rows w.quantization.block_columns blocked in
        (
          some_rows,
          some_columns,
          subst (λ s. row / w.quantization.block_rows < get_or s 0 0) (sym same)
              (block_index rows w.quantization.block_rows row some_rows in_rows),
          subst (λ s. column / w.quantization.block_columns < get_or s 1 0) (sym same)
              (block_index columns w.quantization.block_columns column some_columns in_columns),
        )

check_scaled-HasScale :
    (w : QuantizedWeight) (row column : ℕ)
    → w.quantization.scale_layout ≡ block2d
    → check_scaled w ≡ ok tt
    → row < get_or w.values.shape 0 0
    → column < get_or w.values.shape 1 0
    → HasScale w row column
check_scaled-HasScale w row column layout valid in_rows in_columns =
    let rows = get_or w.values.shape 0 0 in
    let columns = get_or w.values.shape 1 0 in
    require-elim (is_fp8 w.values.dtype) invalid_argument _ valid λ _ a.
      require-elim (w.scales.has_buffer && is_fp32 w.scales.dtype) invalid_argument _ a λ _ b.
        require-elim (length w.values.shape == 2) invalid_argument _ b λ _ c.
          check_layout-HasScale w rows columns row column
            (subst (λ l. check_layout w l rows columns ≡ ok tt) layout c) in_rows in_columns

-- Once a weight with scales of blocks has passed the checks, the blocks are not empty, and every
-- element of the weight has an entry of the scales for its block.
pub validate_weight-HasScale :
    (w : QuantizedWeight) (row column : ℕ)
    → w.quantization.scale_layout ≡ block2d
    → validate_weight w ≡ ok tt
    → row < get_or w.values.shape 0 0
    → column < get_or w.values.shape 1 0
    → HasScale w row column
unfolding validate_weight
validate_weight-HasScale w row column layout valid in_rows in_columns =
    require-elim w.values.has_buffer invalid_argument _ valid λ _ checked.
      check_scaled-HasScale w row column layout
        (subst (λ l. (if has_no_scales l then check_dense w else check_scaled w) ≡ ok tt) layout
          checked)
        in_rows in_columns
