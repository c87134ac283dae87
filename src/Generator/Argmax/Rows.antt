-- ===== src/Generator/Argmax/Rows.antt =====
-- `argmax_rows_reference` answers row by row, and for the last row as `argmax_last_row_reference` does.
use vicold_hybrid_ai.Base.{
  ℕ, zero, suc, ◌+◌, ◌-◌, ◌<◌, ◌≡◌, refl, ap, Bool, true, false, some, List, [], ◌∷◌, length,
  get_elem?, arith, guard-elim, subst, ◌∙◌, sym,
}
use mathlib.Core.Option.{some-injective}
use vicold_hybrid_ai.Generator.Defs.{last?}
use vicold_hybrid_ai.Generator.Argmax.{
  Logits, scan, row_values, is_readable, argmax_last_row_reference, scan_rows,
  argmax_rows_reference,
}
use vicold_hybrid_ai.Generator.Argmax.First.{IsOrder, IsFirst, HasFinite, scan-IsFirst}

module _ (Float : Type 0) (greater : Float → Float → Bool) (lowest : Float) where
  abbrev values_at : ℕ → ℕ → List Float → List Float
  values_at row columns host = row_values Float greater lowest row columns host

  -- The answers for a matrix of logits, the values of which are `host`.
  pub record IsRows (l : Logits Float greater lowest) (rows columns : ℕ) (host : List Float)
      (ids : List ℕ) : Type 0 where
    pub size : length ids ≡ rows
    pub each :
        (row id : ℕ)
        → get_elem? ids row ≡ some id
        → HasFinite Float greater lowest (values_at row columns host)
        → (top : Float) × IsFirst Float greater lowest (values_at row columns host) id top
    pub last : 0 < rows → argmax_last_row_reference Float greater lowest l 0 ≡ last? ids

  length-scan_rows :
      (row left columns : ℕ) (host : List Float)
      → length (scan_rows Float greater lowest row left columns host) ≡ left
  unfolding scan_rows
  length-scan_rows row zero columns host = refl
  length-scan_rows row (suc left) columns host =
      ap suc (length-scan_rows (suc row) left columns host)

  last-scan_rows :
      (row left columns : ℕ) (host : List Float)
      → last? (scan_rows Float greater lowest row (suc left) columns host)
        ≡ some (scan Float greater lowest (values_at (row + left) columns host) lowest 0 0)
  unfolding scan_rows
  last-scan_rows row zero columns host =
      ap (λ r. some (scan Float greater lowest (values_at r columns host) lowest 0 0)) (omega arith)
  last-scan_rows row (suc left) columns host =
      last-scan_rows (suc row) left columns host
      ∙ ap (λ r. some (scan Float greater lowest (values_at r columns host) lowest 0 0))
          (omega arith)

  scanned_last :
      (rows columns : ℕ) (host : List Float)
      → 0 < rows
      → some (scan Float greater lowest (values_at (rows - 1) columns host) lowest 0 0)
        ≡ last? (scan_rows Float greater lowest 0 rows columns host)
  scanned_last zero columns host lt = absurd (omega arith)
  scanned_last (suc left) columns host lt =
      ap (λ r. some (scan Float greater lowest (values_at r columns host) lowest 0 0)) (omega arith)
      ∙ sym (last-scan_rows 0 left columns host)

  get_elem?-scan_rows :
      (row left columns i id : ℕ) (host : List Float)
      → get_elem? (scan_rows Float greater lowest row left columns host) i ≡ some id
      → scan Float greater lowest (values_at (row + i) columns host) lowest 0 0 ≡ id
  unfolding scan_rows
  get_elem?-scan_rows row zero columns i id host e = absurd (cc)
  get_elem?-scan_rows row (suc left) columns zero id host e =
      ap (λ r. scan Float greater lowest (values_at r columns host) lowest 0 0) (omega arith)
      ∙ some-injective _ id e
  get_elem?-scan_rows row (suc left) columns (suc i) id host e =
      ap (λ r. scan Float greater lowest (values_at r columns host) lowest 0 0) (omega arith)
      ∙ get_elem?-scan_rows (suc row) left columns i id host e

  scanned-IsRows :
      (order : IsOrder greater) (l : Logits Float greater lowest) (rows columns : ℕ)
      (host : List Float)
      → l.has_buffer ≡ true
      → l.is_gpu ≡ false
      → is_readable Float greater lowest l.dtype ≡ true
      → l.shape ≡ rows ∷ columns ∷ []
      → l.values ≡ some host
      → IsRows l rows columns host (scan_rows Float greater lowest 0 rows columns host)
  unfolding argmax_last_row_reference
  scanned-IsRows order l rows columns host buffer cpu readable shape values = record {
    size = length-scan_rows 0 rows columns host;
    each = λ row id e finite.
        subst (λ i. (top : Float) × IsFirst Float greater lowest (values_at row columns host) i top)
          (ap (λ r. scan Float greater lowest (values_at r columns host) lowest 0 0) (omega arith)
            ∙ get_elem?-scan_rows 0 rows columns row id host e)
          (scan-IsFirst Float greater lowest order (values_at row columns host) 0 finite);
    last = λ lt. rw (shape, buffer, cpu, readable, values) (scanned_last rows columns host lt);
  }

  -- On the host, over values that are ordered: there is an answer for each row; it is the first maximum
  -- of the row, if the row has a value above negative infinity; and the last one is that of
  -- `argmax_last_row_reference`, whose result is 0 before the call.
  pub argmax_rows_reference-IsRows :
      (order : IsOrder greater) (l : Logits Float greater lowest) (rows columns : ℕ)
      (host : List Float) (ids : List ℕ)
      → l.is_gpu ≡ false
      → l.shape ≡ rows ∷ columns ∷ []
      → l.values ≡ some host
      → argmax_rows_reference Float greater lowest l ≡ some ids
      → IsRows l rows columns host ids
  unfolding argmax_rows_reference
  argmax_rows_reference-IsRows order l rows columns host ids cpu shape values e =
      guard-elim l.has_buffer _ (rw (shape, cpu) at e) λ buffer e1.
        guard-elim (is_readable Float greater lowest l.dtype) _ e1 λ readable e2.
          subst (IsRows l rows columns host) (some-injective _ ids (rw values at e2))
            (scanned-IsRows order l rows columns host buffer cpu readable shape values)
