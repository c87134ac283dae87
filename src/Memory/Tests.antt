-- ===== src/Memory/Tests.antt =====
-- Concrete runs of src/memory.
use vicold_hybrid_ai.Base.{
  ℕ, ◌<◌, inr, get_or, ◌^◌, ◌*◌, ◌+◌, ◌≤◌, ◌≡◌, refl, true, false, List, [], ◌∷◌, leb,
  if◌then◌else◌, if-elim, arith, subst, some, none,
}
use vicold_hybrid_ai.Core.{Result, ok, err, out_of_memory, ok-injective, Device, discrete_gpu}
use vicold_hybrid_ai.Memory.Buckets.{
  build_loop, build_buckets, build_buckets-IsTable, IsTable, build_loop-zero, bucket_index,
  bucket_index_fits, lower_bound,
}
use vicold_hybrid_ai.Memory.Pool.{
  Pool, Options, Call, allocates, deallocates, releases, new_pool, allocate, deallocate, step, run,
  enter, drop_block, keep_block, release_cache, ActiveBlock,
}
use vicold_hybrid_ai.Memory.Invariant.{
  IsSound, IsHonest, AreLegal, enter-IsSound, held, free_total, active_total, new_pool-IsSound,
  run-IsSound,
}
use vicold_hybrid_ai.Memory.Ownership.{
  IsHit, IsGiven, OnSuccess, allocate-IsGiven, deallocate-allocate,
}
use vicold_hybrid_ai.Memory.Planner.{IsSensible, select_policy, select_policy-IsSensible}

abbrev doubles : ℕ → ℕ
doubles size = size * 2

abbrev three_sizes : List ℕ
three_sizes = 256 ∷ 512 ∷ 1024 ∷ []

abbrev small_options : Options
small_options = record { min_bucket_size = 256; max_bucket_size = 1024; max_pooled_bytes = 4096 }

three_sizes-IsTable : IsTable 1024 three_sizes
three_sizes-IsTable = ((omega arith, (omega arith, (omega arith, tt))), refl, omega arith)

abbrev small_pool : Pool
small_pool = new_pool true small_options three_sizes

-- A backend that has one block to give.
abbrev one_block : ℕ → Result ℕ
one_block size = if leb size 4096 then ok 7 else err out_of_memory

one_block-IsHonest :
    (p : Pool) → held 7 p ≡ 0 → free_total p + active_total p ≤ 4096 → IsHonest p one_block
one_block-IsHonest p fresh few size ptr =
    if-elim (λ r. r ≡ ok ptr → (held ptr p ≡ 0) × (free_total p + active_total p + size < 2 ^ 64))
      (leb size 4096) (λ le e. (subst (λ x. held x p ≡ 0) (ok-injective e) fresh, ground arith))
      λ _ e. absurd (cc)

build_buckets-IsTable_example :
    (sizes : List ℕ) × (build_buckets doubles 1024 1025 256 ≡ some sizes) × IsTable 1024 sizes
build_buckets-IsTable_example =
    build_buckets-IsTable doubles 1024 1025 256 (omega arith) (omega arith) (omega arith)
      (omega arith)

build_loop-zero_example : build_loop doubles 1024 9 0 ≡ none
build_loop-zero_example = build_loop-zero doubles 1024 9 refl

bucket_index_fits_example :
    (bucket_index three_sizes 256 300 < 3)
    × (300 ≤ get_or three_sizes (bucket_index three_sizes 256 300) 0)
    × ((i : ℕ) → i < bucket_index three_sizes 256 300 → get_or three_sizes i 0 < 300)
bucket_index_fits_example =
    bucket_index_fits three_sizes 1024 256 300 three_sizes-IsTable (omega arith)

small_pool-IsSound : IsSound small_pool
small_pool-IsSound = new_pool-IsSound true small_options three_sizes three_sizes-IsTable

abbrev some_calls : List Call
some_calls = allocates one_block 300 ∷ deallocates 7 ∷ releases ∷ allocates one_block 100 ∷ []

some_calls-AreLegal : AreLegal small_pool some_calls
unfolding run step allocate deallocate release_cache enter drop_block keep_block bucket_index
    lower_bound
some_calls-AreLegal =
    let freed = run small_pool (allocates one_block 300 ∷ deallocates 7 ∷ releases ∷ []) in
    (
      one_block-IsHonest small_pool refl (omega arith),
      (tt, (tt, (one_block-IsHonest freed refl (omega arith), tt))),
    )

run-IsSound_example : IsSound (run small_pool some_calls)
run-IsSound_example = run-IsSound small_pool some_calls small_pool-IsSound some_calls-AreLegal

allocate-IsGiven_example : OnSuccess (IsGiven 300 small_pool) (allocate one_block small_pool 300)
allocate-IsGiven_example =
    allocate-IsGiven one_block small_pool 300 small_pool-IsSound
      (one_block-IsHonest small_pool refl (omega arith)) (omega arith)

abbrev block : ActiveBlock
block = record { ptr = 7; bucket = 1; size = 512 }

abbrev busy_pool : Pool
busy_pool = enter small_pool block

deallocate-allocate_example :
    (q : Pool) × (deallocate busy_pool 7 ≡ ok ([], q))
    × IsHit 7 busy_pool (allocate one_block q 300)
unfolding enter bucket_index
deallocate-allocate_example =
    deallocate-allocate one_block busy_pool 300 block
      (enter-IsSound small_pool block small_pool-IsSound refl (omega arith)
        (inr (omega arith, refl)))
      refl (omega arith) (omega arith) (omega arith) refl refl (λ e. absurd (omega arith)) refl refl

abbrev big_device : Device
big_device = record {
  id = 0;
  device_type = discrete_gpu;
  backend = "hip";
  unified_memory_supported = false;
}

select_policy-IsSensible_example : IsSensible big_device 5000 (select_policy big_device 4000 1000)
select_policy-IsSensible_example = select_policy-IsSensible big_device 4000 1000 refl (omega arith)
