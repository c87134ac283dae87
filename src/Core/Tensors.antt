-- ===== src/Core/Tensors.antt =====
-- src/core/shape.h and src/core/tensor.cc: shapes, strides and the copy of `contiguous` on the host.
-- The loops over dimensions run from the last one, so that the functions below take the dimensions,
-- strides and indices with the last one first. Dimensions and strides are not negative. The
-- measure that `contiguous` checks wraps at 2 ^ 64; the numbers of elements and the indices of the
-- copy do not overflow an `int64_t`.
pub mod Copies
pub mod Loops
use native.Mathlib.Nat.{mul-le-mul_right, lt_of_mul-lt-mul_left}
use mathlib.Core.Option.{some-injective}
use vicold_hybrid_ai.Base.{
  size_mod, ℕ, zero, suc, ◌+◌, ◌-◌, ◌*◌, ◌%◌, ◌<◌, ◌≤◌, ◌≡◌, ◌↔◌, refl, ap, ap₂, sym, ◌∙◌, subst,
  Bool, true, false, ◌&&◌, ◌||◌, not, Option, none, some, List, [], ◌∷◌, ◌++◌, ◌++◌, length, ltb,
  leb, ◌==◌, ==_iff, ==_self, if◌then◌else◌, if-elim, arith, All, All-map_imp, is_empty, replicate,
  both, Bool-cases, inl, inr,
}

abbrev pub product : List ℕ → ℕ
product [] = 1
product (d ∷ ds) = d * product ds

-- A shape of no dimension has no element.
abbrev pub numel : List ℕ → ℕ
numel ds = if is_empty ds then 0 else product ds

unfoldable pub strides_from : ℕ → List ℕ → List ℕ
strides_from stride [] = []
strides_from stride (d ∷ ds) = stride ∷ strides_from (stride * d) ds

abbrev pub compute_strides : List ℕ → List ℕ
compute_strides ds = strides_from 1 ds

unfoldable pub check_from : ℕ → List ℕ → List ℕ → Bool
check_from stride (d ∷ ds) (s ∷ ss) =
    let rest = check_from (stride * d) ds ss in if not (s == stride) then false else rest
check_from stride _ _ = true

abbrev pub check_contiguous : List ℕ → List ℕ → Bool
check_contiguous ds ss = check_from 1 ds ss

-- "Increment indices (row-major)"
unfoldable pub increment : List ℕ → List ℕ → List ℕ
increment (d ∷ ds) (i ∷ is) =
    let rest = increment ds is in if ltb (suc i) d then suc i ∷ is else 0 ∷ rest
increment _ is = is

abbrev pub source_index : List ℕ → List ℕ → ℕ
source_index (i ∷ is) (s ∷ ss) = i * s + source_index is ss
source_index _ _ = 0

-- The sum in 64 bits, as the processor wraps it around; C++ leaves an overflow of it undefined.
abbrev pub maximum_source_index : List ℕ → List ℕ → ℕ
maximum_source_index (d ∷ ds) (s ∷ ss) = ((d - 1) * s + maximum_source_index ds ss) % size_mod
maximum_source_index _ _ = 0

-- The source indices of `count` elements, from the given indices on.
unfoldable pub copy_from : List ℕ → List ℕ → ℕ → List ℕ → List ℕ
unfolding increment
copy_from ds ss zero is = []
copy_from ds ss (suc count) is = source_index is ss ∷ copy_from ds ss count (increment ds is)

-- The general copy: the source index of each element of the result.
abbrev pub copy_indices : List ℕ → List ℕ → List ℕ
copy_indices ds ss = copy_from ds ss (numel ds) (replicate (length ds) 0)

-- The loops for one dimension and for two.
unfoldable pub line_from : ℕ → ℕ → ℕ → List ℕ
line_from stride i zero = []
line_from stride i (suc count) = i * stride ∷ line_from stride (suc i) count

unfoldable pub row_from : ℕ → ℕ → ℕ → ℕ → ℕ → List ℕ
row_from s0 s1 i j zero = []
row_from s0 s1 i j (suc count) = (i * s0 + j * s1) ∷ row_from s0 s1 i (suc j) count

unfoldable pub rows_from : ℕ → ℕ → ℕ → ℕ → ℕ → List ℕ
unfolding row_from
rows_from d1 s0 s1 i zero = []
rows_from d1 s0 s1 i (suc count) = row_from s0 s1 i 0 d1 ++ rows_from d1 s0 s1 (suc i) count

abbrev pub host_indices : List ℕ → List ℕ → List ℕ
host_indices (d ∷ []) (s ∷ []) = line_from s 0 (numel (d ∷ []))
host_indices (d1 ∷ d0 ∷ []) (s1 ∷ s0 ∷ []) = rows_from d1 s0 s1 0 d0
host_indices ds ss = copy_indices ds ss

abbrev pub positive_dims : List ℕ → Bool
positive_dims [] = true
positive_dims (d ∷ ds) = ltb 0 d && positive_dims ds

abbrev pub required_source_bytes : List ℕ → List ℕ → ℕ → ℕ
required_source_bytes ds ss elem_size =
    ((maximum_source_index ds ss + 1) % size_mod * elem_size) % size_mod

-- The checks in front of the copy: none of the dimensions is 0, and the bytes up to the last source index
-- are in the buffer, as far as they do not wrap.
unfoldable pub contiguous_indices : List ℕ → List ℕ → ℕ → ℕ → Option (List ℕ)
unfolding copy_from
contiguous_indices ds ss elem_size buffer_size =
    if not (positive_dims ds)
    then none
    else if ltb buffer_size (required_source_bytes ds ss elem_size)
    then none
    else some (host_indices ds ss)

check_step :
    (s stride : ℕ) (rest : Bool)
    → (if not (s == stride) then false else rest) ≡ true
    → (s ≡ stride) × (rest ≡ true)
check_step s stride rest = elim (Bool-cases (s == stride)) [
  | inl same ↦ rw same (λ h. ((==_iff s stride).0 same, h))
  | inr other ↦ rw other (λ h. absurd (cc))
]

if_same :
    (s stride : ℕ) (rest : Bool)
    → s ≡ stride
    → rest ≡ true
    → (if not (s == stride) then false else rest) ≡ true
if_same s stride rest same e = rw (same, ==_self stride, e) refl

check_from_iff :
    (stride : ℕ) (ds ss : List ℕ)
    → length ss ≡ length ds
    → (check_from stride ds ss ≡ true) ↔ (ss ≡ strides_from stride ds)
unfolding check_from strides_from
check_from_iff stride [] [] same = ((λ _. refl), λ _. refl)
check_from_iff stride [] (s ∷ ss) same = absurd (omega arith)
check_from_iff stride (d ∷ ds) [] same = absurd (omega arith)
check_from_iff stride (d ∷ ds) (s ∷ ss) same =
    let (to, from) = check_from_iff (stride * d) ds ss (omega arith) in
    (
      λ h.
          let (here, rest) = check_step s stride (check_from (stride * d) ds ss) h in
          ap₂ (λ x xs. x ∷ xs) here (to rest),
      λ e. if_same s stride (check_from (stride * d) ds ss) (cc) (from (cc)),
    )

-- The strides pass the check exactly if they are those of a fresh tensor of the shape.
pub check_contiguous_iff :
    (ds ss : List ℕ)
    → length ss ≡ length ds
    → (check_contiguous ds ss ≡ true) ↔ (ss ≡ compute_strides ds)
check_contiguous_iff ds ss same = check_from_iff 1 ds ss same
