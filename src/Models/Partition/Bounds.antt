-- ===== src/Models/Partition/Bounds.antt =====
-- src/models/qwen3_weights.cc: what `plan_distributed` gives each device.
use native.Mathlib.Nat.{
  le-div_iff_mul-le, div-lt_iff_lt-mul, div-mul-le_self, lt-div-mul-add, mul-div_cancel,
}
use vicold_hybrid_ai.Base.{
  ℕ, zero, suc, ◌+◌, ◌-◌, ◌*◌, ◌/◌, ◌%◌, ◌<◌, ◌≤◌, ◌≡◌, refl, sym, ap, ◌∙◌, subst, List, [], ◌∷◌,
  map, length, arith, add_size, size_mod,
}
use vicold_hybrid_ai.Core.{Device}
use vicold_hybrid_ai.Models.Partition.{
  DevicePartition, add_layers, partition, partitions, add_front, add_back,
}

-- The partitions hold the layers from `first` to below `end`, one partition after the other, each with
-- `share` layers or one more.
abbrev pub Covers : ℕ → ℕ → ℕ → List DevicePartition → Type 0
Covers share first end [] = first ≡ end
Covers share first end (p ∷ ps) =
    (p.first_layer ≡ first)
    × (first + share ≤ p.last_layer + 1)
    × (p.last_layer + 1 ≤ first + share + 1)
    × Covers share (p.last_layer + 1) end ps

-- The bytes of `count` layers from `layer`, and those of partitions.
abbrev pub layers_total : (ℕ → ℕ) → ℕ → ℕ → ℕ
layers_total bytes_of layer zero = 0
layers_total bytes_of layer (suc count) = bytes_of layer + layers_total bytes_of (suc layer) count

abbrev pub weights_total : List DevicePartition → ℕ
weights_total [] = 0
weights_total (p ∷ ps) = p.weight_bytes + weights_total ps

zero_plus : (n : ℕ) → 0 + n ≡ n
zero_plus n = omega arith

layers_total_split :
    (bytes_of : ℕ → ℕ) (layer m n : ℕ)
    → layers_total bytes_of layer (m + n)
      ≡ layers_total bytes_of layer m + layers_total bytes_of (layer + m) n
layers_total_split bytes_of layer zero n =
    let e : layer + 0 ≡ layer = omega arith in
    omega (
      arith,
      ap (λ l. layers_total bytes_of l n) e,
      ap (λ k. layers_total bytes_of layer k) (zero_plus n),
    )
layers_total_split bytes_of layer (suc m) n =
    let e : suc layer + m ≡ layer + suc m = omega arith in
    let count : suc m + n ≡ suc (m + n) = omega arith in
    omega (
      arith,
      layers_total_split bytes_of (suc layer) m n,
      ap (λ l. layers_total bytes_of l n) e,
      ap (layers_total bytes_of layer) count,
    )

layers_total_between :
    (bytes_of : ℕ → ℕ) (first next end : ℕ)
    → first ≤ next
    → next ≤ end
    → layers_total bytes_of first (end - first)
      ≡ layers_total bytes_of first (next - first) + layers_total bytes_of next (end - next)
layers_total_between bytes_of first next end up below =
    let all : next - first + (end - next) ≡ end - first = omega arith in
    let mid : first + (next - first) ≡ next = omega arith in
    omega (
      arith,
      layers_total_split bytes_of first (next - first) (end - next),
      ap (layers_total bytes_of first) all,
      ap (λ l. layers_total bytes_of l (end - next)) mid,
    )

Covers-le :
    (share first end : ℕ) (ps : List DevicePartition) → Covers share first end ps → first ≤ end
Covers-le share first end [] e = omega arith
Covers-le share first end (p ∷ ps) (_, lo, _, rest) =
    omega (arith, lo, Covers-le share (p.last_layer + 1) end ps rest)

add_layers-total :
    (bytes_of : ℕ → ℕ) (bytes layer count : ℕ)
    → add_layers bytes_of bytes layer count % size_mod
      ≡ (bytes + layers_total bytes_of layer count) % size_mod
unfolding add_layers
add_layers-total bytes_of bytes layer zero = omega arith
add_layers-total bytes_of bytes layer (suc count) =
    omega (arith, add_layers-total bytes_of (add_size bytes (bytes_of layer)) (suc layer) count)

module _ (layer_count device_count : ℕ) (some_device : 0 < device_count)
    (enough : device_count ≤ layer_count) where
  share_pos : 0 < layer_count / device_count
  share_pos = (le-div_iff_mul-le some_device).1 (omega arith)

  step_least :
      (i : ℕ)
      → layer_count * i / device_count + layer_count / device_count
        ≤ layer_count * (i + 1) / device_count
  step_least i =
      let a = div-mul-le_self (layer_count * i) device_count in
      let b = div-mul-le_self layer_count device_count in
      (le-div_iff_mul-le some_device).1 (grind (arith, a, b))

  step_most :
      (i : ℕ)
      → layer_count * (i + 1) / device_count
        ≤ layer_count * i / device_count + layer_count / device_count + 1
  step_most i =
      let a = lt-div-mul-add {a = layer_count * i} some_device in
      let b = lt-div-mul-add {a = layer_count} some_device in
      let c : layer_count * (i + 1) / device_count
          < layer_count * i / device_count + layer_count / device_count + 2 =
        (div-lt_iff_lt-mul some_device).1 (grind (arith, a, b)) in
      omega arith

  pub partitions-Covers :
      (bytes_of : ℕ → ℕ) (i : ℕ) (devices : List Device)
      → i + length devices ≡ device_count
      → Covers
          (layer_count / device_count)
          (layer_count * i / device_count)
          layer_count
          (partitions bytes_of layer_count device_count i devices)
  unfolding partitions partition
  partitions-Covers bytes_of i [] e =
      subst (λ n. layer_count * n / device_count ≡ layer_count) {x = device_count} (omega arith)
        (mul-div_cancel layer_count some_device)
  partitions-Covers bytes_of i (d ∷ ds) e =
      let last : layer_count * (i + 1) / device_count - 1 + 1
          ≡ layer_count * (i + 1) / device_count =
        omega (arith, step_least i, share_pos) in
      let next : layer_count * (i + 1) / device_count ≡ layer_count * (suc i) / device_count =
        ap (λ n. layer_count * n / device_count) (omega arith) in
      (
        refl,
        rw last (step_least i),
        rw last (step_most i),
        subst
            (λ n.
              Covers (layer_count / device_count) n layer_count
                (partitions bytes_of layer_count device_count (suc i) ds))
            (sym next ∙ sym last) (partitions-Covers bytes_of (suc i) ds (omega arith)),
      )

  pub partitions-total :
      (bytes_of : ℕ → ℕ) (i : ℕ) (devices : List Device)
      → i + length devices ≡ device_count
      → weights_total (partitions bytes_of layer_count device_count i devices) % size_mod
        ≡ layers_total bytes_of
            (layer_count * i / device_count)
            (layer_count - layer_count * i / device_count)
          % size_mod
  unfolding partitions partition
  partitions-total bytes_of i [] e =
      let all : layer_count * i / device_count ≡ layer_count =
        subst (λ n. layer_count * n / device_count ≡ layer_count) {x = device_count} (omega arith)
          (mul-div_cancel layer_count some_device) in
      let left : layer_count - layer_count * i / device_count ≡ 0 = omega arith in rw left refl
  partitions-total bytes_of i (d ∷ ds) e =
      let first = layer_count * i / device_count in
      let next = layer_count * (i + 1) / device_count in
      let same : layer_count * (suc i) / device_count ≡ next =
        ap (λ n. layer_count * n / device_count) (omega arith) in
      let rest =
        subst
          (λ n.
            weights_total (partitions bytes_of layer_count device_count (suc i) ds) % size_mod
            ≡ layers_total bytes_of n (layer_count - n) % size_mod)
          same (partitions-total bytes_of (suc i) ds (omega arith)) in
      let own = add_layers-total bytes_of 0 first (next - 1 + 1 - first) in
      let size : next - 1 + 1 - first ≡ next - first = omega (arith, step_least i, share_pos) in
      let below : next ≤ layer_count =
        subst (λ n. n ≤ layer_count) same
          (Covers-le (layer_count / device_count) (layer_count * (suc i) / device_count) layer_count
            (partitions bytes_of layer_count device_count (suc i) ds)
            (partitions-Covers bytes_of (suc i) ds (omega arith))) in
      let up : first ≤ next = omega (arith, step_least i) in
      let split = layers_total_between bytes_of first next layer_count up below in
      let sized : layers_total bytes_of first (next - 1 + 1 - first)
          ≡ layers_total bytes_of first (next - first) =
        ap (layers_total bytes_of first) size in
      omega (arith, own, sized, rest, split)

pub Covers-add_front :
    (share first end bytes : ℕ) (ps : List DevicePartition)
    → Covers share first end ps
    → Covers share first end (add_front bytes ps)
Covers-add_front share first end bytes [] c = c
Covers-add_front share first end bytes (p ∷ ps) c = c

pub Covers-add_back :
    (share first end bytes : ℕ) (ps : List DevicePartition)
    → Covers share first end ps
    → Covers share first end (add_back bytes ps)
Covers-add_back share first end bytes [] c = c
Covers-add_back share first end bytes (p ∷ []) c = c
Covers-add_back share first end bytes (p ∷ q ∷ ps) (e, lo, hi, rest) =
    (e, lo, hi, Covers-add_back share (p.last_layer + 1) end bytes (q ∷ ps) rest)

pub add_back-total :
    (bytes : ℕ) (ps : List DevicePartition)
    → 0 < length ps
    → (weights_total (add_back bytes ps) % size_mod ≡ (weights_total ps + bytes) % size_mod)
      × (map (λ p. p.device) (add_back bytes ps) ≡ map (λ p. p.device) ps)
      × (0 < length (add_back bytes ps))
add_back-total bytes [] some_part = absurd (omega arith)
add_back-total bytes (p ∷ []) some_part = (omega arith, refl, omega arith)
add_back-total bytes (p ∷ q ∷ ps) some_part =
    let (sum, same, _) = add_back-total bytes (q ∷ ps) (omega arith) in
    (omega (arith, sum), ap (◌∷◌ p.device) same, omega arith)

pub partitions-devices :
    (bytes_of : ℕ → ℕ) (layer_count device_count i : ℕ) (devices : List Device)
    → map (λ p. p.device) (partitions bytes_of layer_count device_count i devices) ≡ devices
unfolding partitions partition
partitions-devices bytes_of layer_count device_count i [] = refl
partitions-devices bytes_of layer_count device_count i (d ∷ ds) =
    ap (◌∷◌ d) (partitions-devices bytes_of layer_count device_count (suc i) ds)
