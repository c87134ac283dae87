-- ===== src/Core/Tensors/Copies.antt =====
-- src/core/tensor.cc: the elements that the copy of `contiguous` takes.
use native.Mathlib.Nat.{mul-le-mul_right, mul-le-mul_left, lt_of_mul-lt-mul_left}
use mathlib.Core.Option.{some-injective}
use vicold_hybrid_ai.Base.{
  ℕ, size_mod, zero, suc, ◌%◌, ◌^◌, ◌+◌, ◌-◌, ◌*◌, ◌<◌, ◌≤◌, ◌≡◌, refl, ap, ap₂, sym, ◌∙◌, subst,
  true, false, not, Option, some, List, [], ◌∷◌, length, ltb, if-elim, arith, All, All-map_imp,
  replicate, both, Bool-cases, inl, inr,
}
use vicold_hybrid_ai.Core.Tensors.Loops.{host_indices-copy_indices}
use vicold_hybrid_ai.Core.Tensors.{
  host_indices, product, numel, strides_from, compute_strides, increment, source_index,
  maximum_source_index, required_source_bytes, copy_from, copy_indices, positive_dims,
  contiguous_indices,
}

-- Indices within the dimensions, and their place in row-major order.
abbrev pub AreWithin : List ℕ → List ℕ → Type 0
AreWithin [] [] = Unit
AreWithin [] (i ∷ is) = ⊥
AreWithin (d ∷ ds) [] = ⊥
AreWithin (d ∷ ds) (i ∷ is) = (i < d) × AreWithin ds is

abbrev pub place : List ℕ → List ℕ → ℕ
place (d ∷ ds) (i ∷ is) = i + d * place ds is
place _ _ = 0

increment-AreWithin : (ds is : List ℕ) → AreWithin ds is → AreWithin ds (increment ds is)
unfolding increment
increment-AreWithin [] [] _ = tt
increment-AreWithin [] (i ∷ is) h = absurd h
increment-AreWithin (d ∷ ds) [] h = absurd h
increment-AreWithin (d ∷ ds) (i ∷ is) (lt, h) =
    if-elim (AreWithin (d ∷ ds)) (ltb (suc i) d) (λ e. (ground arith, h))
      λ _. (omega arith, increment-AreWithin ds is h)

-- The largest source index, where nothing wraps.
abbrev pub last_index : List ℕ → List ℕ → ℕ
last_index (d ∷ ds) (s ∷ ss) = (d - 1) * s + last_index ds ss
last_index _ _ = 0

source_index-within : (ds ss is : List ℕ) → AreWithin ds is → source_index is ss ≤ last_index ds ss
source_index-within [] ss [] _ = omega arith
source_index-within [] ss (i ∷ is) h = absurd h
source_index-within (d ∷ ds) ss [] h = absurd h
source_index-within (d ∷ ds) [] (i ∷ is) h = omega arith
source_index-within (d ∷ ds) (s ∷ ss) (i ∷ is) (lt, h) =
    let rest = source_index-within ds ss is h in
    let le : i ≤ d - 1 = omega arith in grind (arith, rest, mul-le-mul_right s le)

copy_from-within :
    (ds ss : List ℕ) (count : ℕ) (is : List ℕ)
    → AreWithin ds is
    → All (λ x. x ≤ last_index ds ss) (copy_from ds ss count is)
unfolding copy_from
copy_from-within ds ss zero is h = tt
copy_from-within ds ss (suc count) is h = (
  source_index-within ds ss is h,
  copy_from-within ds ss count (increment ds is) (increment-AreWithin ds is h),
)

maximum_source_index-last :
    (ds ss : List ℕ) → last_index ds ss < 2 ^ 64 → maximum_source_index ds ss ≡ last_index ds ss
maximum_source_index-last [] ss small = refl
maximum_source_index-last (d ∷ ds) [] small = refl
maximum_source_index-last (d ∷ ds) (s ∷ ss) small =
    omega (arith, maximum_source_index-last ds ss (omega arith))

required_source_bytes-last :
    (ds ss : List ℕ) (elem_size : ℕ)
    → 0 < elem_size
    → (last_index ds ss + 1) * elem_size < 2 ^ 64
    → required_source_bytes ds ss elem_size ≡ (last_index ds ss + 1) * elem_size
required_source_bytes-last ds ss elem_size some_byte small =
    let count : last_index ds ss + 1 ≤ (last_index ds ss + 1) * elem_size =
      omega (arith, mul-le-mul_left (last_index ds ss + 1) some_byte) in
    let same : (maximum_source_index ds ss + 1) % size_mod ≡ last_index ds ss + 1 =
      omega (arith, maximum_source_index-last ds ss (omega arith)) in
    let whole : (maximum_source_index ds ss + 1) % size_mod * elem_size
        ≡ (last_index ds ss + 1) * elem_size =
      ap (λ n. n * elem_size) same in
    omega arith

increment-place :
    (ds is : List ℕ)
    → AreWithin ds is
    → suc (place ds is) < product ds
    → place ds (increment ds is) ≡ suc (place ds is)
unfolding increment
increment-place [] [] h lt = absurd (omega arith)
increment-place [] (i ∷ is) h lt = absurd h
increment-place (d ∷ ds) [] h lt = absurd h
increment-place (d ∷ ds) (i ∷ is) (below, h) lt = elim (Bool-cases (ltb (suc i) d)) [
  | inl more ↦ rw (increment, more) (omega arith)
  | inr last ↦
      let end : suc i ≡ d = ground arith in
      let carry : suc (place ds is) < product ds =
        lt_of_mul-lt-mul_left d (grind (arith, end, lt)) in
      let next : d * place ds (increment ds is) ≡ d * suc (place ds is) =
        ap (λ n. d * n) (increment-place ds is h carry) in
      let whole : 0 + d * place ds (increment ds is) ≡ suc (i + d * place ds is) =
        grind (arith, next, end) in
      rw (increment, last) whole
]

-- Of a tensor whose strides are those of its shape, an element's source index is its place.
source_index-place :
    (stride : ℕ) (ds is : List ℕ)
    → AreWithin ds is
    → source_index is (strides_from stride ds) ≡ stride * place ds is
unfolding strides_from
source_index-place stride [] [] h = omega arith
source_index-place stride [] (i ∷ is) h = absurd h
source_index-place stride (d ∷ ds) [] h = absurd h
source_index-place stride (d ∷ ds) (i ∷ is) (below, h) =
    grind (arith, source_index-place (stride * d) ds is h)

-- `count` numbers from `first`.
abbrev pub numbers_from : ℕ → ℕ → List ℕ
numbers_from first zero = []
numbers_from first (suc count) = first ∷ numbers_from (suc first) count

copy_from-order :
    (ds : List ℕ) (count : ℕ) (is : List ℕ)
    → AreWithin ds is
    → place ds is + count ≤ product ds
    → copy_from ds (compute_strides ds) count is ≡ numbers_from (place ds is) count
unfolding copy_from
copy_from-order ds zero is h le = refl
copy_from-order ds (suc zero) is h le =
    ap (λ x. x ∷ []) (source_index-place 1 ds is h ∙ omega arith)
copy_from-order ds (suc (suc count)) is h le =
    let next = increment-place ds is h (omega arith) in
    ap₂ (λ x xs. x ∷ xs) (source_index-place 1 ds is h ∙ omega arith)
      (copy_from-order ds (suc count) (increment ds is) (increment-AreWithin ds is h)
          (omega (arith, next))
        ∙ ap (λ n. numbers_from n (suc count)) next)

zero-AreWithin : (ds : List ℕ) → positive_dims ds ≡ true → AreWithin ds (replicate (length ds) 0)
zero-AreWithin [] _ = tt
zero-AreWithin (d ∷ ds) h =
    let (here, rest) = both (ltb 0 d) (positive_dims ds) h in (ground arith, zero-AreWithin ds rest)

zero-place : (ds : List ℕ) → place ds (replicate (length ds) 0) ≡ 0
zero-place [] = refl
zero-place (d ∷ ds) = rw (zero-place ds) (omega arith)

numel-le : (ds : List ℕ) → numel ds ≤ product ds
numel-le [] = omega arith
numel-le (d ∷ ds) = omega arith

length-copy_from :
    (ds ss : List ℕ) (count : ℕ) (is : List ℕ) → length (copy_from ds ss count is) ≡ count
unfolding copy_from
length-copy_from ds ss zero is = refl
length-copy_from ds ss (suc count) is = ap suc (length-copy_from ds ss count (increment ds is))

-- The general copy visits the elements in row-major order: with the strides of the shape itself, its
-- source indices are the numbers from 0 on.
pub copy_indices-order :
    (ds : List ℕ)
    → positive_dims ds ≡ true
    → copy_indices ds (compute_strides ds) ≡ numbers_from 0 (numel ds)
copy_indices-order ds pos =
    copy_from-order ds (numel ds) (replicate (length ds) 0) (zero-AreWithin ds pos)
      (omega (arith, zero-place ds, numel-le ds))
    ∙ ap (λ n. numbers_from n (numel ds)) (zero-place ds)

le_bound : (a b c : ℕ) → a ≤ b → ltb c b ≡ false → a ≤ c
le_bound a b c le h = ground arith

-- The copy of any strides takes one source element for each element of the shape, all of them inside
-- the buffer that the checks have measured, for elements of a byte at least where the bytes up to the
-- last source index are less than 2 ^ 64, so that the measure does not wrap.
pub contiguous_indices-within :
    (ds ss : List ℕ) (elem_size buffer_size : ℕ) (indices : List ℕ)
    → 0 < elem_size
    → (last_index ds ss + 1) * elem_size < 2 ^ 64
    → contiguous_indices ds ss elem_size buffer_size ≡ some indices
    → (length indices ≡ numel ds) × All (λ x. (x + 1) * elem_size ≤ buffer_size) indices
unfolding contiguous_indices
contiguous_indices-within ds ss elem_size buffer_size indices some_byte small =
    let P : Option (List ℕ) → Type 0 = λ o.
      o ≡ some indices
      → (length indices ≡ numel ds) × All (λ x. (x + 1) * elem_size ≤ buffer_size) indices in
    if-elim P (not (positive_dims ds)) (λ _ h. absurd (cc))
      λ pos.
        if-elim P (ltb buffer_size (required_source_bytes ds ss elem_size)) (λ _ h. absurd (cc))
          λ fits h.
            let measured : ltb buffer_size ((last_index ds ss + 1) * elem_size) ≡ false =
              subst (λ n. ltb buffer_size n ≡ false)
                (required_source_bytes-last ds ss elem_size some_byte small) fits in
            subst (λ xs. (length xs ≡ numel ds) × All (λ x. (x + 1) * elem_size ≤ buffer_size) xs)
              (sym (host_indices-copy_indices ds ss (ground arith))
                ∙ some-injective (host_indices ds ss) indices h)
              (
                length-copy_from ds ss (numel ds) (replicate (length ds) 0),
                All-map_imp (λ x. x ≤ last_index ds ss) (λ x. (x + 1) * elem_size ≤ buffer_size)
                    (copy_indices ds ss)
                    (λ x le.
                      le_bound ((x + 1) * elem_size) ((last_index ds ss + 1) * elem_size)
                        buffer_size (mul-le-mul_right elem_size (omega arith)) measured)
                    (copy_from-within ds ss (numel ds) (replicate (length ds) 0)
                      (zero-AreWithin ds (ground arith))),
              )
