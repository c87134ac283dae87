-- ===== src/Memory/Invariant.antt =====
-- src/memory/memory_pool.cc: what every call keeps true of the pool.
mod Blocks
pub use Blocks.*
use vicold_hybrid_ai.Base.{
  ℕ, ◌+◌, ◌^◌, ◌<◌, ◌≡◌, refl, sym, subst, ap, ◌≢◌, ◌⊎◌, inl, inr, List, [], ◌∷◌, get_or, length,
  length-replicate, All, arith, some, none, false, true, Bool, not, ◌||◌, ltb, ◌==◌, if◌then◌else◌,
  if-elim, ◌≤◌, Bool-cases, List-cases, Option-cases,
}
use vicold_hybrid_ai.Core.{Result, ok, err, invalid_argument, Result-cases}
use vicold_hybrid_ai.Memory.Buckets.{IsTable, bucket_index, bucket_index_fits}
use vicold_hybrid_ai.Memory.Pool.{
  Pool, Block, Options, ActiveBlock, Call, allocates, deallocates, releases, direct, new_pool,
  allocate_new, allocate_pooled, allocate, deallocate, release_cache, is_over_limit, after, step,
  run, find,
}
use vicold_hybrid_ai.Memory.Totals.{find-All, total-erase, total-replicate, here, All-replicate}

-- What an allocator documents: a block that it hands out is none that its user holds, and all the
-- blocks lie in the address space.
abbrev pub IsHonest : Pool → (ℕ → Result ℕ) → Type 0
IsHonest p backend =
    (size ptr : ℕ)
    → backend size ≡ ok ptr
    → (held ptr p ≡ 0) × (free_total p + active_total p + size < 2 ^ 64)

abbrev pub IsLegal : Pool → Call → Type 0
IsLegal p (allocates backend size) = IsHonest p backend
IsLegal p (deallocates ptr) = Unit
IsLegal p releases = Unit

-- Each call of a run is legal in the state that it meets.
abbrev pub AreLegal : Pool → List Call → Type 0
AreLegal p [] = Unit
AreLegal p (c ∷ cs) = IsLegal p c × AreLegal (step p c) cs

allocate_new-IsSound :
    (backend : ℕ → Result ℕ) (p : Pool) (bucket size : ℕ)
    → IsSound p
    → IsHonest p backend
    → (bucket ≡ direct)
      ⊎ ((bucket < length p.bucket_sizes) × (size ≡ get_or p.bucket_sizes bucket 0))
    → IsSound (after p (allocate_new backend p bucket size))
unfolding allocate_new
allocate_new-IsSound backend p bucket size s honest fits = elim (Result-cases (backend size)) [
  | inl (ptr, e) ↦
      let (fresh, room) = honest size ptr e in
      rw (allocate_new, e)
        (enter-IsSound p (record { ptr = ptr; bucket = bucket; size = size }) s fresh room fits)
  | inr (code, e) ↦ rw (allocate_new, e) s
]

allocate_pooled-IsSound :
    (backend : ℕ → Result ℕ) (p : Pool) (bucket : ℕ)
    → IsSound p
    → IsHonest p backend
    → bucket < length p.bucket_sizes
    → IsSound (after p (allocate_pooled backend p bucket))
unfolding allocate_pooled
allocate_pooled-IsSound backend p bucket s honest lt =
    elim (List-cases (get_or p.free_blocks bucket [])) [
      | inl e ↦
          rw (allocate_pooled, e)
            (allocate_new-IsSound backend p bucket (get_or p.bucket_sizes bucket 0) s honest
              (inr (lt, refl)))
      | inr (block, rest, e) ↦ rw (allocate_pooled, e) (reuse-IsSound p bucket block rest s lt e)
    ]

-- The branches of `allocate`.
pub allocate-elim {ℓ} :
    (P : Result (ℕ × Pool) → Type ℓ) (backend : ℕ → Result ℕ) (p : Pool) (size : ℕ)
    → (p.has_allocator ≡ false → P (err invalid_argument))
    → (size ≡ 0 → P (ok (0, p)))
    → (0 < size → p.options.max_bucket_size < size → P (allocate_new backend p direct size))
    → (0 < size
        → size ≤ p.options.max_bucket_size
        → P (
            allocate_pooled backend p (bucket_index p.bucket_sizes p.options.min_bucket_size size)))
    → P (allocate backend p size)
unfolding allocate
allocate-elim P backend p size missing nothing over within =
    if-elim P (not p.has_allocator) (λ e. missing (ground arith))
      λ _.
        if-elim P (size == 0) (λ e. nothing (ground arith))
          λ pos.
            if-elim P (ltb p.options.max_bucket_size size)
              (λ lt. over (ground arith) (ground arith)) λ le. within (ground arith) (ground arith)

allocate-IsSound :
    (backend : ℕ → Result ℕ) (p : Pool) (size : ℕ)
    → IsSound p
    → IsHonest p backend
    → IsSound (after p (allocate backend p size))
allocate-IsSound backend p size s honest =
    allocate-elim (λ r. IsSound (after p r)) backend p size (λ _. s) (λ _. s)
      (λ _ _. allocate_new-IsSound backend p direct size s honest (inl refl))
      λ _ le.
        allocate_pooled-IsSound backend p
          (bucket_index p.bucket_sizes p.options.min_bucket_size size) s honest
          (bucket_index_fits p.bucket_sizes p.options.max_bucket_size p.options.min_bucket_size size
            s.table le).0

pooled_fits :
    (p : Pool) (b : ActiveBlock)
    → b.bucket ≢ direct
    → IsFitting p.bucket_sizes b
    → (b.bucket < length p.bucket_sizes) × (b.size ≡ get_or p.bucket_sizes b.bucket 0)
pooled_fits p b other (inl e) = absurd (other e)
pooled_fits p b other (inr fits) = fits

deallocate-IsSound : (p : Pool) (ptr : ℕ) → IsSound p → IsSound (after p (deallocate p ptr))
unfolding deallocate
deallocate-IsSound p ptr s = elim (Bool-cases (ptr == 0)) [
  | inl null ↦ rw (deallocate, null) s
  | inr given ↦ elim (Option-cases (find ptr p.active_blocks)) [
    | inl unknown ↦ rw (deallocate, given, unknown) s
    | inr (b, e) ↦
        let e' : find b.ptr p.active_blocks ≡ some b =
          subst (λ x. find x p.active_blocks ≡ some b)
            (sym (total-erase (λ a. a.size) ptr p.active_blocks b e).0) e in
        elim (Bool-cases (b.bucket == direct || is_over_limit p b.size)) [
          | inl out ↦ simp (deallocate, given, e, out) (drop_block-IsSound p b s e')
          | inr kept ↦
              let (lt, fits) =
                pooled_fits p b (ground arith)
                  (find-All (IsFitting p.bucket_sizes) ptr p.active_blocks b s.fitting e) in
              simp (deallocate, given, e, kept) (keep_block-IsSound p b s e' lt fits (ground arith))
        ]
  ]
]

step-IsSound : (p : Pool) (c : Call) → IsSound p → IsLegal p c → IsSound (step p c)
unfolding step
step-IsSound p (allocates backend size) s legal = allocate-IsSound backend p size s legal
step-IsSound p (deallocates ptr) s legal = deallocate-IsSound p ptr s
step-IsSound p releases s legal = release_cache-IsSound p s

-- A run of calls that starts in a sound pool, with a backend that hands out fresh blocks within the
-- address space, ends in a sound pool: the byte counters are the sums over the blocks, the cached bytes
-- are within the limit, no pointer is held twice, and every block has the size of its bucket.
pub run-IsSound : (p : Pool) (cs : List Call) → IsSound p → AreLegal p cs → IsSound (run p cs)
unfolding run
run-IsSound p [] s legal = s
run-IsSound p (c ∷ cs) s (legal, rest) = run-IsSound (step p c) cs (step-IsSound p c s legal) rest

-- A pool is sound when its constructor returns.
pub new_pool-IsSound :
    (has_allocator : Bool) (options : Options) (sizes : List ℕ)
    → IsTable options.max_bucket_size sizes
    → IsSound (new_pool has_allocator options sizes)
new_pool-IsSound has_allocator options sizes table = record {
  table = table;
  entries = length-replicate (length sizes) [];
  pooled = sym (total-replicate (λ b. b.size) (length sizes));
  active = refl;
  room = omega (arith, total-replicate {A = Block} (λ b. b.size) (length sizes));
  limit = λ pos. omega arith;
  owned = λ x. omega (arith, total-replicate {A = Block} (λ b. here x b.ptr) (length sizes));
  sized = All-replicate (λ i b. b.size ≡ get_or sizes i 0) (length sizes);
  fitting = tt;
}
