-- ===== src/Backends/Registry.antt =====
-- src/backends/backend_registry.cc: the factories of backends by name, and the backends made for
-- devices. F is the type of factories, B that of pointers to backends, and a call of a factory takes
-- and leaves a state W of the outside. The mutex is left out: a call of the registry is one step.
use mathlib.Core.Bool.{true≢false}
use vicold_hybrid_ai.Base.{
  ℕ, ◌≡◌, refl, ap, sym, ◌∙◌, true, false, Option, none, some, List, [], ◌∷◌, ◌++◌, if◌then◌else◌,
  if-elim, Bool-cases, inl, inr, is_empty, starts_with, starts_with-append, same_text, find,
  find_first, find-put, put, same_text-path, decimal, codes,
}
use vicold_hybrid_ai.Core.{Device, DeviceType, cpu, integrated_gpu, discrete_gpu, unknown_device}

unfoldable pub erase_prefix : {V : Type 0} → List ℕ → List (List ℕ × V) → List (List ℕ × V)
erase_prefix p [] = []
erase_prefix p ((j, w) ∷ m) =
    let rest = erase_prefix p m in if starts_with p j then rest else (j, w) ∷ rest

pub record Registry (F B W : Type 0) : Type 0 where
  pub factories : List (List ℕ × F)
  pub backends : List (List ℕ × B)
  pub world : W

abbrev pub device_type_code : DeviceType → ℕ
device_type_code cpu = 0
device_type_code integrated_gpu = 1
device_type_code discrete_gpu = 2
device_type_code unknown_device = 3

abbrev pub colon : List ℕ
colon = 58 ∷ []

abbrev pub key_of : Device → List ℕ
key_of d =
    (codes d.backend ++ colon)
    ++ (decimal d.id ++ colon ++ decimal (device_type_code d.device_type))

unfoldable pub register_backend : {F B W : Type 0} → List ℕ → F → Registry F B W → Registry F B W
register_backend name factory r = record {
  factories = put name factory r.factories;
  backends = erase_prefix (name ++ colon) r.backends;
  world = r.world;
}

module _ {F B W : Type 0} (call : F → Device → W → Option B × W) where
  abbrev pub keep_made : Device → Registry F B W → Option B × W → Option B × Registry F B W
  keep_made d r (none, w) =
      (none, record { factories = r.factories; backends = r.backends; world = w })
  keep_made d r (some b, w) =
      (some b, record { factories = r.factories; backends = (key_of d, b) ∷ r.backends; world = w })

  abbrev pub make : Device → Registry F B W → Option F → Option B × Registry F B W
  make d r none = (none, r)
  make d r (some factory) = keep_made d r (call factory d r.world)

  abbrev pub use_cached : Device → Registry F B W → Option B → Option B × Registry F B W
  use_cached d r (some b) = (some b, r)
  use_cached d r none = make d r (find (codes d.backend) r.factories)

  unfoldable pub get_backend : Device → Registry F B W → Option B × Registry F B W
  unfolding find
  get_backend d r =
      if is_empty (codes d.backend) then (none, r) else use_cached d r (find (key_of d) r.backends)

kept_other :
    (p k j : List ℕ) → starts_with p k ≡ true → starts_with p j ≡ false → same_text k j ≡ false
kept_other p k j h kept = elim (Bool-cases (same_text k j)) [
  | inl same ↦
      let path = same_text-path k j same in
      absurd (true≢false (sym h ∙ ap (starts_with p) path ∙ kept))
  | inr other ↦ other
]

-- A key with the prefix is not found once the prefix is erased, and others stay.
find-erase_prefix :
    {V : Type 0} (p k : List ℕ) (m : List (List ℕ × V))
    → starts_with p k ≡ true
    → find k (erase_prefix p m) ≡ none
unfolding erase_prefix find
find-erase_prefix p k [] h = refl
find-erase_prefix p k ((j, w) ∷ m) h = elim (Bool-cases (starts_with p j)) [
  | inl gone ↦ rw gone (find-erase_prefix p k m h)
  | inr kept ↦ let other = kept_other p k j h kept in rw (kept, other) (find-erase_prefix p k m h)
]

module _ {F B W : Type 0} (call : F → Device → W → Option B × W) where
  get_backend-cached :
      (d : Device) (b : B) (r : Registry F B W)
      → is_empty (codes d.backend) ≡ false
      → find (key_of d) r.backends ≡ some b
      → get_backend call d r ≡ (some b, r)
  unfolding get_backend
  get_backend-cached d b r named h = rw (named, h) refl

  keep_made-again :
      (d : Device) (b : B) (r : Registry F B W) (made : Option B × W)
      → is_empty (codes d.backend) ≡ false
      → (keep_made call d r made).0 ≡ some b
      → get_backend call d (keep_made call d r made).1 ≡ (some b, (keep_made call d r made).1)
  keep_made-again d b r (none, w) named h = absurd (cc)
  keep_made-again d b r (some c, w) named h =
      get_backend-cached d b ((keep_made call d r (some c, w)).1) named
        (find_first (key_of d) c r.backends ∙ h)

  make-again :
      (d : Device) (b : B) (r : Registry F B W) (factory : Option F)
      → is_empty (codes d.backend) ≡ false
      → (make call d r factory).0 ≡ some b
      → get_backend call d (make call d r factory).1 ≡ (some b, (make call d r factory).1)
  make-again d b r none named h = absurd (cc)
  make-again d b r (some factory) named h = keep_made-again d b r (call factory d r.world) named h

  use_cached-again :
      (d : Device) (b : B) (r : Registry F B W) (cached : Option B)
      → find (key_of d) r.backends ≡ cached
      → is_empty (codes d.backend) ≡ false
      → (use_cached call d r cached).0 ≡ some b
      → get_backend call d (use_cached call d r cached).1 ≡ (some b, (use_cached call d r cached).1)
  use_cached-again d b r (some c) found named h = get_backend-cached d b r named (found ∙ h)
  use_cached-again d b r none found named h =
      make-again d b r (find (codes d.backend) r.factories) named h

  -- After a backend is returned for a device, the next call for the device returns the same backend
  -- and leaves the registry as it is.
  pub get_backend-again :
      (d : Device) (b : B) (r : Registry F B W)
      → (get_backend call d r).0 ≡ some b
      → get_backend call d (get_backend call d r).1 ≡ (some b, (get_backend call d r).1)
  unfolding get_backend
  get_backend-again d b r =
      let P : Option B × Registry F B W → Type 0 =
        λ result. result.0 ≡ some b → get_backend call d result.1 ≡ (some b, result.1) in
      if-elim P (is_empty (codes d.backend)) (λ _ h. absurd (cc))
        λ named. use_cached-again d b r (find (key_of d) r.backends) refl named

  keep_made-first :
      (d : Device) (r : Registry F B W) (made : Option B × W) → (keep_made call d r made).0 ≡ made.0
  keep_made-first d r (none, w) = refl
  keep_made-first d r (some b, w) = refl

  -- For a device of a backend with a name, after a factory is registered under the name the registry
  -- returns what that factory makes, whatever was registered or made before.
  pub get_backend-register_backend :
      (d : Device) (factory : F) (r : Registry F B W)
      → is_empty (codes d.backend) ≡ false
      → (get_backend call d (register_backend (codes d.backend) factory r)).0
        ≡ (call factory d r.world).0
  unfolding get_backend register_backend
  get_backend-register_backend d factory r named =
      let name = codes d.backend in
      let gone = find-erase_prefix (name ++ colon) (key_of d) r.backends (
        starts_with-append (name ++ colon)
          (decimal d.id ++ colon ++ decimal (device_type_code d.device_type))) in
      rw (named, gone, find-put name factory r.factories)
        (keep_made-first d (register_backend name factory r) (call factory d r.world))
