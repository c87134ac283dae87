-- ===== src/Models/Names.antt =====
-- src/models/model_weight_schema.cc, and the names that src/models/qwen3_weights.cc builds. Names are
-- lists of bytes.
use vicold_hybrid_ai.Base.{
  ℤ, pos, negsuc, ℕ, zero, suc, ◌-◌, ◌^◌, ◌<◌, ◌≡◌, refl, Bool, true, false, Option, none, some,
  List, [], ◌∷◌, ◌++◌, append_assoc, length, drop, take, leb, is_empty, if◌then◌else◌, arith, codes,
  starts_with, ends_with, find_byte, decimal, value, value-decimal, digits-IsDigit,
  find_byte-append, ends_with-append, All, is_digit, ap, ◌∙◌, ◌==◌, length-append, decimal-nonempty,
  sym, subst,
}
use vicold_hybrid_ai.Core.{Result, ok, err, invalid_argument, invalid_model}

abbrev neg : ℕ → ℤ
neg zero = pos 0
neg (suc n) = negsuc n

abbrev pub checked : Option ℕ → ℕ → (ℕ → ℤ) → Option ℤ
checked none limit sign = none
checked (some v) limit sign = if leb v limit then some (sign v) else none

-- `std::from_chars` into an `int64_t`, where it reads all the bytes: a minus sign or none, one digit at
-- least, and a value in range.
unfoldable pub read_layer : List ℕ → Option ℤ
read_layer [] = none
read_layer (c ∷ cs) =
    if c == b'-'
    then (if is_empty cs then none else checked (value 0 cs) (2 ^ 63) neg)
    else checked (value 0 (c ∷ cs)) (2 ^ 63 - 1) pos

pub record WeightKey : Type 0 where
  pub canonical_name : List ℕ
  pub layer_index : ℤ
  pub is_scale : Bool

abbrev pub prefix : List ℕ
prefix = codes "model.language_model.layers."

abbrev pub scale_suffix : List ℕ
scale_suffix = codes ".weight_scale_inv"

abbrev pub layer_key : List ℕ → Option ℤ → Result WeightKey
layer_key name none = err invalid_model
layer_key name (some layer) =
    ok (record {
      canonical_name = name;
      layer_index = layer;
      is_scale = ends_with scale_suffix name;
    })

-- The name behind the prefix: its first part is the index of the layer.
abbrev pub resolve_layer : List ℕ → List ℕ → Option ℕ → Result WeightKey
resolve_layer name rest none = err invalid_model
resolve_layer name rest (some zero) = err invalid_model
resolve_layer name rest (some (suc end)) = layer_key name (read_layer (take (suc end) rest))

unfoldable pub resolve : List ℕ → Result WeightKey
unfolding read_layer
resolve name =
    if is_empty name
    then err invalid_argument
    else if starts_with prefix name
    then (let rest = drop (length prefix) name in resolve_layer name rest (find_byte b'.' rest))
    else ok (record { canonical_name = name; layer_index = negsuc 0; is_scale = false })

unfoldable pub layer_name : ℕ → List ℕ → List ℕ
layer_name layer_index suffix = prefix ++ decimal layer_index ++ b'.' ∷ suffix

-- `load_quantized`: the name of the scales of a weight.
abbrev pub weight_suffix : List ℕ
weight_suffix = codes ".weight"

unfoldable pub scale_name : List ℕ → Option (List ℕ)
scale_name base_name =
    if ends_with weight_suffix base_name
    then some (take (length base_name - length weight_suffix) base_name ++ scale_suffix)
    else none

read_layer-digits :
    (ds : List ℕ) (v : ℕ)
    → All (λ c. is_digit c ≡ true) ds
    → 0 < length ds
    → value 0 ds ≡ some v
    → v < 2 ^ 63
    → read_layer ds ≡ some (pos v)
unfolding read_layer
read_layer-digits [] v _ nonempty e small = absurd (omega arith)
read_layer-digits (c ∷ cs) v (d, _) nonempty e small =
    let plain : (c == b'-') ≡ false = ground arith in
    let fits : leb v (2 ^ 63 - 1) ≡ true = ground arith in rw (read_layer, plain, e, fits) refl

take-append : (xs ys : List ℕ) → take (length xs) (xs ++ ys) ≡ xs
take-append [] ys = refl
take-append (x ∷ xs) ys = ap (◌∷◌ x) (take-append xs ys)

resolve_layer-digits :
    (name ds ys : List ℕ) (v : ℕ)
    → All (λ c. is_digit c ≡ true) ds
    → 0 < length ds
    → value 0 ds ≡ some v
    → v < 2 ^ 63
    → resolve_layer name (ds ++ ys) (some (length ds)) ≡ layer_key name (some (pos v))
resolve_layer-digits name [] ys v _ nonempty e small = absurd (omega arith)
resolve_layer-digits name (c ∷ cs) ys v all nonempty e small =
    ap (layer_key name)
      (ap read_layer (take-append (c ∷ cs) ys) ∙ read_layer-digits (c ∷ cs) v all nonempty e small)

-- The schema reads the layer back from every name that the loader builds for a layer.
pub resolve-layer_name :
    (layer_index : ℕ) (suffix : List ℕ)
    → layer_index < 2 ^ 63
    → resolve (layer_name layer_index suffix)
      ≡ ok (record {
        canonical_name = layer_name layer_index suffix;
        layer_index = pos layer_index;
        is_scale = ends_with scale_suffix (layer_name layer_index suffix);
      })
unfolding resolve layer_name read_layer
resolve-layer_name layer_index suffix small =
    let ds = decimal layer_index in
    let name = layer_name layer_index suffix in
    let dot = find_byte-append b'.' ds suffix (digits-IsDigit (suc layer_index) layer_index) refl in
    ap (resolve_layer name (ds ++ b'.' ∷ suffix)) dot
    ∙ resolve_layer-digits name ds (b'.' ∷ suffix) layer_index
        (digits-IsDigit (suc layer_index) layer_index) (decimal-nonempty layer_index)
        (value-decimal layer_index) small

layer_name-append :
    (layer_index : ℕ) (xs ys : List ℕ)
    → layer_name layer_index (xs ++ ys) ≡ layer_name layer_index xs ++ ys
unfolding layer_name
layer_name-append layer_index xs ys =
    ap (λ s. prefix ++ s) (sym (append_assoc (decimal layer_index) (b'.' ∷ xs) ys))

scale_name-append :
    (stem : List ℕ) → scale_name (stem ++ weight_suffix) ≡ some (stem ++ scale_suffix)
unfolding scale_name
scale_name-append stem =
    let at : length (stem ++ weight_suffix) - length weight_suffix ≡ length stem =
      omega (arith, length-append stem weight_suffix) in
    rw (scale_name, ends_with-append stem weight_suffix, at, take-append stem weight_suffix) refl

-- The name of the scales of a layer's weight is one of the same layer, and is seen to be of scales.
pub resolve-scale_name :
    (layer_index : ℕ) (stem : List ℕ)
    → layer_index < 2 ^ 63
    → (name : List ℕ) × (scale_name (layer_name layer_index (stem ++ weight_suffix)) ≡ some name)
      × (resolve name
          ≡ ok (record { canonical_name = name; layer_index = pos layer_index; is_scale = true }))
resolve-scale_name layer_index stem small =
    let name = layer_name layer_index (stem ++ scale_suffix) in
    let whole = layer_name-append layer_index stem in
    let ends : ends_with scale_suffix name ≡ true =
      ap (ends_with scale_suffix) (whole scale_suffix)
      ∙ ends_with-append (layer_name layer_index stem) scale_suffix in
    (
      name,
      ap scale_name (whole weight_suffix)
          ∙ scale_name-append (layer_name layer_index stem)
          ∙ ap some (sym (whole scale_suffix)),
      subst
          (λ b.
            resolve name
            ≡ ok (record { canonical_name = name; layer_index = pos layer_index; is_scale = b }))
          ends (resolve-layer_name layer_index (stem ++ scale_suffix) small),
    )
