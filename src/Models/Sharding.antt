-- ===== src/Models/Sharding.antt =====
-- src/models/weight_sharding.cc: the placement of a tensor on devices.
use native.Mathlib.Nat.{mod-lt, mod-add-div'}
use vicold_hybrid_ai.Base.{
  ℤ, pos, negsuc, ℕ, zero, suc, ◌+◌, ◌*◌, ◌/◌, ◌%◌, ◌<◌, ◌≡◌, refl, sym, ap, Bool, true, false,
  ◌||◌, ◌&&◌, not, Option, none, some, List, [], ◌∷◌, map, length, get_elem?, ltb, leb, is_empty,
  arith,
}
use vicold_hybrid_ai.Core.{Result, ok, invalid_argument, Device, require, require-elim, ◌>>◌}

pub data WeightPartitionMode : Type 0 where
  replicated layer : WeightPartitionMode

pub record WeightShardingConfig : Type 0 where
  pub mode : WeightPartitionMode
  pub devices : List Device

pub record WeightPlacement : Type 0 where
  pub device : Device
  pub partition_index : ℕ
  pub partition_count : ℕ

abbrev pub needs_two : WeightPartitionMode → Bool
needs_two replicated = false
needs_two layer = true

unfoldable pub validate : WeightShardingConfig → Result (Unit {0})
validate config = do
  require (not (is_empty config.devices)) invalid_argument
  require (not (needs_two config.mode && ltb (length config.devices) 2)) invalid_argument

abbrev pub is_placeable : ℤ → Bool
is_placeable (pos n) = true
is_placeable (negsuc n) = leb n 0

-- Every device gets a copy, entered as partition 0.
abbrev pub replicas : ℕ → List Device → List WeightPlacement
replicas count [] = []
replicas count (d ∷ ds) =
    record { device = d; partition_index = 0; partition_count = count } ∷ replicas count ds

abbrev pub layer_slot : ℤ → ℕ → ℕ
layer_slot (pos n) count = n % count
layer_slot (negsuc n) count = 0

-- `config_.devices[index]`, where the index is in range.
abbrev pub place_at : ℕ → ℕ → Option Device → List WeightPlacement
place_at count index none = []
place_at count index (some d) =
    record { device = d; partition_index = index; partition_count = count } ∷ []

abbrev pub placements : WeightPartitionMode → List Device → ℤ → List WeightPlacement
placements replicated devices layer_index = replicas (length devices) devices
placements layer devices layer_index =
    let slot = layer_slot layer_index (length devices) in
    place_at (length devices) slot (get_elem? devices slot)

unfoldable pub plan : WeightShardingConfig → List ℕ → ℤ → Result (List WeightPlacement)
unfolding validate
plan config tensor_name layer_index =
    validate config
    >> (require (not (is_empty tensor_name || not (is_placeable layer_index))) invalid_argument
        >> ok (placements config.mode config.devices layer_index))

-- The layers go around the devices, whole rounds from the first device on; a tensor of no layer is on
-- the first device.
abbrev pub IsSlot : ℤ → ℕ → ℕ → Type 0
IsSlot (pos n) count i = (i < count) × ((rounds : ℕ) × (n ≡ i + rounds * count))
IsSlot (negsuc _) count i = i ≡ 0

-- A tensor has a copy on every device in order, or one placement on the device of its slot.
abbrev pub IsPlacement : WeightPartitionMode → List Device → ℤ → List WeightPlacement → Type 0
IsPlacement replicated devices layer_index ps =
    ps
    ≡ map (λ d. record { device = d; partition_index = 0; partition_count = length devices })
        devices
IsPlacement layer devices layer_index ps =
    (i : ℕ) × (d : Device) × IsSlot layer_index (length devices) i
    × (get_elem? devices i ≡ some d)
    × (ps ≡ record { device = d; partition_index = i; partition_count = length devices } ∷ [])

replicas-map :
    (count : ℕ) (ds : List Device)
    → replicas count ds
      ≡ map (λ d. record { device = d; partition_index = 0; partition_count = count }) ds
replicas-map count [] = refl
replicas-map count (d ∷ ds) =
    ap (◌∷◌ (record { device = d; partition_index = 0; partition_count = count }))
      (replicas-map count ds)

layer_slot-IsSlot :
    (layer_index : ℤ) (count : ℕ)
    → 0 < count
    → IsSlot layer_index count (layer_slot layer_index count)
layer_slot-IsSlot (pos n) count some_device =
    (mod-lt n some_device, (n / count, sym (mod-add-div' n count)))
layer_slot-IsSlot (negsuc n) count some_device = refl

get_elem?_within :
    (ds : List Device) (i : ℕ) → i < length ds → (d : Device) × (get_elem? ds i ≡ some d)
get_elem?_within [] i lt = absurd (omega arith)
get_elem?_within (d ∷ ds) zero lt = (d, refl)
get_elem?_within (d ∷ ds) (suc i) lt = get_elem?_within ds i (omega arith)

layer_slot_within : (layer_index : ℤ) (count : ℕ) → 0 < count → layer_slot layer_index count < count
layer_slot_within (pos n) count some_device = mod-lt n some_device
layer_slot_within (negsuc n) count some_device = some_device

not_empty : (ds : List Device) → not (is_empty ds) ≡ true → 0 < length ds
not_empty [] h = absurd (cc)
not_empty (d ∷ ds) h = omega arith

placements-IsPlacement :
    (mode : WeightPartitionMode) (devices : List Device) (layer_index : ℤ)
    → 0 < length devices
    → IsPlacement mode devices layer_index (placements mode devices layer_index)
placements-IsPlacement replicated devices layer_index some_device =
    replicas-map (length devices) devices
placements-IsPlacement layer devices layer_index some_device =
    let slot = layer_slot layer_index (length devices) in
    let (d, e) =
      get_elem?_within devices slot (layer_slot_within layer_index (length devices) some_device) in
    (
      slot,
      d,
      layer_slot-IsSlot layer_index (length devices) some_device,
      e,
      ap (place_at (length devices) slot) e,
    )

-- For a valid configuration, a named tensor and an index of at least -1, a plan succeeds: replicated,
-- it is a copy for each device in order, entered as partition 0; by layers, it is one placement, on the
-- device at the index less whole rounds of the devices, or on the first device for a tensor of no layer.
pub plan-IsPlacement :
    (config : WeightShardingConfig) (tensor_name : List ℕ) (layer_index : ℤ)
    → validate config ≡ ok tt
    → is_empty tensor_name ≡ false
    → is_placeable layer_index ≡ true
    → (ps : List WeightPlacement) × (plan config tensor_name layer_index ≡ ok ps)
      × IsPlacement config.mode config.devices layer_index ps
unfolding plan
plan-IsPlacement config tensor_name layer_index valid named placeable =
    let all = placements config.mode config.devices layer_index in
    require-elim (not (is_empty config.devices)) invalid_argument _ valid λ some_device _. (
      all,
      rw (plan, valid, named, placeable) refl,
      placements-IsPlacement config.mode config.devices layer_index
          (not_empty config.devices some_device),
    )
