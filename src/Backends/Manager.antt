-- ===== src/Backends/Manager.antt =====
-- src/core/device_manager.cc: the list of devices, and `select_gpu_devices` of
-- src/models/qwen_reference.cc, which takes the devices of a backend from it.
use Prim.Native.String.{String}
use vicold_hybrid_ai.Base.{
  ℕ, suc, ◌+◌, ◌<◌, ◌≤◌, length, leb, arith, ◌≡◌, refl, Bool, true, false, ◌&&◌, Option, none, some,
  List, [], ◌∷◌, ◌++◌, All, All-append, if◌then◌else◌, Bool-cases, inl, inr, codes, same_text, both,
}
use vicold_hybrid_ai.Core.{Device, cpu_device, is_gpu}

pub record DeviceManager : Type 0 where
  pub devices : List Device
  pub initialized : Bool

-- What the registry answers: the names of the backends, the devices that a backend lists, `none` where it
-- cannot be made, and whether the backend of a device can be made and is available.
pub record Discovery : Type 0 where
  pub backend_names : List String
  pub enumerate_devices : String → Option (List Device)
  pub is_available : Device → Bool

module _ (d : Discovery) where
  abbrev pub available : List Device → List Device
  available [] = []
  available (x ∷ xs) = if d.is_available x then x ∷ available xs else available xs

  abbrev pub listed : Option (List Device) → List Device
  listed none = []
  listed (some xs) = available xs

  -- The loop over the names.
  abbrev pub discovered : List String → List Device
  discovered [] = []
  discovered (name ∷ names) =
      if same_text (codes name) (codes "cpu")
      then discovered names
      else listed (d.enumerate_devices name) ++ discovered names

  unfoldable pub initialize : DeviceManager → DeviceManager
  initialize m =
      if m.initialized
      then m
      else record { devices = cpu_device ∷ discovered d.backend_names; initialized = true }

  -- A manager that has its devices keeps them.
  pub initialize-again : (m : DeviceManager) → initialize (initialize m) ≡ initialize m
  unfolding initialize
  initialize-again m = elim (Bool-cases m.initialized) [
    | inl done ↦ rw done refl
    | inr fresh ↦ rw fresh refl
  ]

  available-All : (xs : List Device) → All (λ x. d.is_available x ≡ true) (available xs)
  available-All [] = tt
  available-All (x ∷ xs) = elim (Bool-cases (d.is_available x)) [
    | inl there ↦ rw there (there, available-All xs)
    | inr not_there ↦ rw not_there (available-All xs)
  ]

  discovered-All : (names : List String) → All (λ x. d.is_available x ≡ true) (discovered names)
  discovered-All [] = tt
  discovered-All (name ∷ names) = elim (Bool-cases (same_text (codes name) (codes "cpu"))) [
    | inl skipped ↦ rw skipped (discovered-All names)
    | inr asked ↦ rw asked (
        All-append (λ x. d.is_available x ≡ true) (listed (d.enumerate_devices name))
          (discovered names) (listed-All (d.enumerate_devices name)) (discovered-All names))
  ]
    where
      listed-All : (o : Option (List Device)) → All (λ x. d.is_available x ≡ true) (listed o)
      listed-All none = tt
      listed-All (some xs) = available-All xs

  -- The first initialization lists the CPU, and behind it devices whose backends are available.
  pub initialize-All :
      (m : DeviceManager)
      → m.initialized ≡ false
      → (rest : List Device) × ((initialize m).devices ≡ cpu_device ∷ rest)
        × All (λ x. d.is_available x ≡ true) rest
  unfolding initialize
  initialize-All m fresh =
      (discovered d.backend_names, rw fresh refl, discovered-All d.backend_names)

abbrev pub first_gpu : List Device → Option Device
first_gpu [] = none
first_gpu (x ∷ xs) = if is_gpu x then some x else first_gpu xs

abbrev pub or_front : List Device → Option Device → Device
or_front xs (some x) = x
or_front [] none = cpu_device
or_front (x ∷ xs) none = x

unfoldable pub default_device : DeviceManager → Device
default_device m = or_front m.devices (first_gpu m.devices)

abbrev pub add_device : Device → DeviceManager → DeviceManager
add_device x m = record m { devices = m.devices ++ x ∷ [] }

abbrev pub matches : String → Device → Bool
matches backend_name x =
    if same_text (codes backend_name) (codes "gpu")
    then is_gpu x
    else same_text (codes x.backend) (codes backend_name)

-- The loop over the devices, with the number of those that are taken.
unfoldable pub select_from : String → ℕ → ℕ → List Device → List Device
select_from backend_name max_devices count [] = []
select_from backend_name max_devices count (x ∷ xs) =
    let next = select_from backend_name max_devices (suc count) xs in
    let passed = select_from backend_name max_devices count xs in
    if is_gpu x && matches backend_name x
    then x ∷ (if leb max_devices (suc count) then [] else next)
    else passed

abbrev pub select_gpu_devices : Discovery → String → ℕ → DeviceManager → List Device
select_gpu_devices d backend_name max_devices m =
    select_from backend_name max_devices 0 ((initialize d m).devices)

abbrev pub IsSelected : String → Device → Type 0
IsSelected backend_name x = (is_gpu x ≡ true) × (matches backend_name x ≡ true)

-- Only GPUs of the backend are taken, and no more than are asked for.
pub select_from-All :
    (backend_name : String) (max_devices count : ℕ) (xs : List Device)
    → count < max_devices
    → All (IsSelected backend_name) (select_from backend_name max_devices count xs)
      × (count + length (select_from backend_name max_devices count xs) ≤ max_devices)
unfolding select_from
select_from-All backend_name max_devices count [] lt = (tt, omega arith)
select_from-All backend_name max_devices count (x ∷ xs) lt =
    elim (Bool-cases (is_gpu x && matches backend_name x)) [
      | inr passed ↦ rw passed (select_from-All backend_name max_devices count xs lt)
      | inl taken ↦
          let one = both (is_gpu x) (matches backend_name x) taken in
          elim (Bool-cases (leb max_devices (suc count))) [
            | inl full ↦ rw (taken, full) ((one, tt), omega arith)
            | inr more ↦
                let (rest, short) =
                  select_from-All backend_name max_devices (suc count) xs (ground arith) in
                rw (taken, more) ((one, rest), omega (arith, short))
          ]
    ]
