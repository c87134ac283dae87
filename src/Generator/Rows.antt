-- ===== src/Generator/Rows.antt =====
-- src/generator.cc: `row_copy` and `last_row_copy`, by which a hidden row is kept. The shape and the bytes
-- are those of a tensor of src/core/tensor.h.
use vicold_hybrid_ai.Base.{
  ℕ, suc, ◌+◌, ◌-◌, ◌*◌, ◌/◌, ◌≤◌, ◌<◌, ◌≡◌, refl, ap, ◌∙◌, Bool, true, ◌&&◌, Option, none, some,
  List, [], ◌∷◌, ◌++◌, length, get_elem?, take, drop, replicate, ltb, ◌>>=◌, ◌>>◌, guard-elim,
  guard, arith, subst, both, length-drop,
}
use native.Mathlib.Nat.{mul-le-mul_right, mul_assoc}
use mathlib.Core.Option.{some-injective}
use vicold_hybrid_ai.Core.{Device, size_of_d_type}
use vicold_hybrid_ai.Ops.Storage.{
  Heap, Buffer, Tensor, Machine, nbytes, contents, same_device, buffer_at,
}
use vicold_hybrid_ai.Ops.Storage.Heap.{get_elem?-append, get_elem?-last, take-take_append}

-- `n` bytes of one buffer over those of another.
abbrev pub splice : ℕ → ℕ → ℕ → Buffer → Buffer → Buffer
splice target_offset source_offset n from to = record to {
  bytes =
      take target_offset to.bytes
      ++ take n (drop source_offset from.bytes)
      ++ drop (target_offset + n) to.bytes;
}

-- `copies n` says whether `copy_to_offset` succeeds with `n` bytes.
module _ (m : Machine) (copies : ℕ → Bool) (device : Device) where
  abbrev pub row_bytes : Tensor → ℕ → ℕ
  row_bytes input width = width * size_of_d_type input.dtype

  -- The copy of row `row` in a new buffer, of as many bytes as a row has.
  abbrev pub copied_row : Heap → Tensor → Buffer → ℕ → ℕ → ℕ → Heap × Tensor
  copied_row h input from rows width row = (
    h
        ++ splice 0 (row * row_bytes input width) (row_bytes input width) from
            (record { memory_type = from.memory_type; bytes = replicate (nbytes input / rows) 0 })
          ∷ [],
    record {
      buffer = some (length h);
      dtype = input.dtype;
      shape = 1 ∷ width ∷ [];
      device = device;
    },
  )

  abbrev pub row_copy_of : Heap → Tensor → Buffer → ℕ → ℕ → ℕ → Option (Heap × Tensor)
  row_copy_of h input from rows width row = do
    guard (ltb row rows && same_device input.device device)
    guard (m.create_buffer device (nbytes input / rows) from.memory_type)
    guard (copies (row_bytes input width))
    some (copied_row h input from rows width row)

  unfoldable pub row_copy : Heap → Tensor → ℕ → Option (Heap × Tensor)
  row_copy h input row = do
    from ← buffer_at h input.buffer
    elim input.shape [ rows ∷ width ∷ [] ↦ row_copy_of h input from rows width row | _ ↦ none ]

  unfoldable pub last_row_copy : Heap → Tensor → Option (Heap × Tensor)
  unfolding row_copy
  last_row_copy h input = elim input.shape [
    | rows ∷ width ∷ [] ↦ guard (ltb 0 rows) >> row_copy h input (rows - 1)
    | _ ↦ none
  ]

-- A row of a matrix lies in its bytes.
row-within :
    (row rows width size n : ℕ)
    → row < rows
    → (rows * (width * 1)) * size ≤ n
    → row * (width * size) + width * size ≤ n
row-within row rows width size n lt le =
    let here : suc row * (width * size) ≤ rows * (width * size) =
      mul-le-mul_right (width * size) lt in
    let flat : (rows * (width * 1)) * size ≡ rows * (width * size) =
      ap (λ w. (rows * w) * size) (omega arith) ∙ mul_assoc rows width size in
    omega (arith, here, flat, le)

lt_of : (a b : ℕ) → ltb a b ≡ true → a < b
lt_of a b h = ground arith

-- A tensor of one row with the bytes of that row, in a new buffer, and nothing else changes.
pub record IsRowCopy (h h' : Heap) (bytes : List ℕ) (start n : ℕ) (r : Tensor) : Type 0 where
  pub fresh : r.buffer ≡ some (length h)
  pub read : contents h' r ≡ some (take n (drop start bytes))
  pub kept : (x : ℕ) (b : Buffer) → get_elem? h x ≡ some b → get_elem? h' x ≡ some b

module _ (m : Machine) (copies : ℕ → Bool) (device : Device) where
  copied_row-IsRowCopy :
      (h : Heap) (input : Tensor) (from : Buffer) (rows width row : ℕ)
      → input.shape ≡ rows ∷ width ∷ []
      → nbytes input ≤ length from.bytes
      → row < rows
      → IsRowCopy h
          ((copied_row m copies device h input from rows width row).0)
          from.bytes
          (row * (width * size_of_d_type input.dtype))
          (width * size_of_d_type input.dtype)
          ((copied_row m copies device h input from rows width row).1)
  copied_row-IsRowCopy h input from rows width row shape large lt =
      let size = size_of_d_type input.dtype in
      let n = width * size in
      let copy =
        splice 0 (row * n) n from
          (record { memory_type = from.memory_type; bytes = replicate (nbytes input / rows) 0 }) in
      let within = row-within row rows width size (length from.bytes) lt (rw shape at large) in
      let same : (1 * (width * 1)) * size ≡ n = ap (λ w. w * size) (omega arith) in
      record {
        fresh = refl;
        read =
            rw (get_elem?-last h copy, same)
              (ap some (
                take-take_append n (drop (row * n) from.bytes) _
                  (omega (arith, length-drop (row * n) from.bytes, within))));
        kept = λ x b f. get_elem?-append h (copy ∷ []) x f;
      }

  -- If `row_copy` succeeds on a matrix whose buffer is large enough, the result is the row.
  pub row_copy-IsRowCopy :
      (h : Heap) (input : Tensor) (p : ℕ) (from : Buffer) (rows width row : ℕ) (h' : Heap)
      (r : Tensor)
      → input.buffer ≡ some p
      → get_elem? h p ≡ some from
      → nbytes input ≤ length from.bytes
      → input.shape ≡ rows ∷ width ∷ []
      → row_copy m copies device h input row ≡ some (h', r)
      → IsRowCopy h h' from.bytes
          (row * (width * size_of_d_type input.dtype))
          (width * size_of_d_type input.dtype)
          r
  unfolding row_copy
  row_copy-IsRowCopy h input p from rows width row h' r owner found large shape e =
      guard-elim (ltb row rows && same_device input.device device) _ (rw (owner, found, shape) at e)
        λ inside e1.
          guard-elim (m.create_buffer device (nbytes input / rows) from.memory_type) _ e1 λ _ e2.
            guard-elim (copies (row_bytes m copies device input width)) _ e2 λ _ e3.
              subst
                (λ (x : Heap × Tensor).
                  IsRowCopy h x.0 from.bytes (row * (width * size_of_d_type input.dtype))
                    (width * size_of_d_type input.dtype) x.1)
                (some-injective _ _ e3)
                (copied_row-IsRowCopy h input from rows width row shape large
                  (lt_of row rows (both (ltb row rows) _ inside).0))
