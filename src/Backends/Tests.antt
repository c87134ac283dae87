-- ===== src/Backends/Tests.antt =====
-- Concrete registries of src/backends: a factory is a number, and a backend the number of its factory
-- and the calls before.
use vicold_hybrid_ai.Base.{ℕ, suc, ◌≡◌, refl, Option, some, [], codes, find, ◌∷◌}
use vicold_hybrid_ai.Core.{Device, cpu_device}
use vicold_hybrid_ai.Backends.Registry.{
  Registry, register_backend, get_backend, get_backend-again, get_backend-register_backend,
}

abbrev numbered : ℕ → Device → ℕ → Option (ℕ × ℕ) × ℕ
numbered factory d calls = (some (factory, calls), suc calls)

abbrev one_factory : Registry ℕ (ℕ × ℕ) ℕ
one_factory = record { factories = (codes "cpu", 7) ∷ []; backends = []; world = 3 }

get_backend-again_example :
    get_backend numbered cpu_device (get_backend numbered cpu_device one_factory).1
    ≡ (some (7, 3), (get_backend numbered cpu_device one_factory).1)
unfolding get_backend find
get_backend-again_example = get_backend-again numbered cpu_device (7, 3) one_factory refl

get_backend-register_backend_example :
    (get_backend numbered cpu_device
      (register_backend (codes "cpu") 9 (get_backend numbered cpu_device one_factory).1)).0
    ≡ some (9, 4)
unfolding get_backend find
get_backend-register_backend_example =
    get_backend-register_backend numbered cpu_device 9
      (get_backend numbered cpu_device one_factory).1 refl
