-- ===== src/Memory/Ownership.antt =====
-- src/memory/memory_pool.cc: what a user of the pool gets from `allocate` and `deallocate`.
use vicold_hybrid_ai.Base.{
  ℕ, zero, suc, ◌+◌, ◌%◌, ◌^◌, ◌<◌, ◌≤◌, ◌≡◌, ◌≢◌, refl, sym, subst, ap, ◌∙◌, inl, inr, List, [],
  ◌∷◌, ◌++◌, get_or, set, length, All, arith, some, none, false, true, ◌||◌, ◌==◌, ==_self,
  List-cases,
}
use vicold_hybrid_ai.Core.{Result, ok, err, Result-cases}
use vicold_hybrid_ai.Memory.Buckets.{bucket_index, bucket_index_fits}
use vicold_hybrid_ai.Memory.Pool.{
  Pool, Block, ActiveBlock, direct, allocate_new, allocate_pooled, allocate, deallocate, enter,
  reuse, keep_block, is_over_limit, find, put,
}
use vicold_hybrid_ai.Memory.Totals.{here, here_self, total-pop, erase-fresh}
use vicold_hybrid_ai.Memory.Invariant.{IsSound, IsHonest, allocate-elim}

-- The pointer is the user's from now on: it was nobody's before, and its block is large enough.
abbrev pub IsGiven : ℕ → Pool → ℕ × Pool → Type 0
IsGiven size p (ptr, q) =
    (find ptr p.active_blocks ≡ none)
    × ((b : ActiveBlock) × (find ptr q.active_blocks ≡ some b) × (size ≤ b.size))

abbrev pub OnSuccess : (ℕ × Pool → Type 0) → Result (ℕ × Pool) → Type 0
OnSuccess P (ok r) = P r
OnSuccess P (err e) = Unit

find-put : (b : ActiveBlock) (bs : List ActiveBlock) → find b.ptr (put b bs) ≡ some b
find-put b bs = rw (find, ==_self b.ptr) refl

allocate_new-IsGiven :
    (backend : ℕ → Result ℕ) (p : Pool) (bucket size wanted : ℕ)
    → IsHonest p backend
    → wanted ≤ size
    → OnSuccess (IsGiven wanted p) (allocate_new backend p bucket size)
unfolding allocate_new enter
allocate_new-IsGiven backend p bucket size wanted honest le = elim (Result-cases (backend size)) [
  | inl (ptr, e) ↦
      let (fresh, room) = honest size ptr e in
      let b : ActiveBlock = record { ptr = ptr; bucket = bucket; size = size } in
      rw (allocate_new, e)
        ((erase-fresh ptr p.active_blocks (omega arith)).1, (b, find-put b p.active_blocks, le))
  | inr (code, e) ↦ rw (allocate_new, e) tt
]

allocate_pooled-IsGiven :
    (backend : ℕ → Result ℕ) (p : Pool) (bucket wanted : ℕ)
    → IsSound p
    → IsHonest p backend
    → bucket < length p.bucket_sizes
    → wanted ≤ get_or p.bucket_sizes bucket 0
    → OnSuccess (IsGiven wanted p) (allocate_pooled backend p bucket)
unfolding allocate_pooled reuse
allocate_pooled-IsGiven backend p bucket wanted s honest lt le =
    elim (List-cases (get_or p.free_blocks bucket [])) [
      | inl e ↦
          rw (allocate_pooled, e)
            (allocate_new-IsGiven backend p bucket (get_or p.bucket_sizes bucket 0) wanted honest
              le)
      | inr (block, rest, e) ↦
          let fits =
            subst (λ bs. All (λ b. b.size ≡ get_or p.bucket_sizes bucket 0) bs) e
              (s.sized bucket) in
          let inside : bucket < length p.free_blocks = omega (arith, s.entries) in
          let moved =
            total-pop (λ a. here block.ptr a.ptr) p.free_blocks bucket block rest inside e in
          let b : ActiveBlock = record { ptr = block.ptr; bucket = bucket; size = block.size } in
          rw (allocate_pooled, e)
            (
              (erase-fresh block.ptr p.active_blocks
                  (omega (arith, moved, here_self block.ptr, s.owned block.ptr))).1,
              (b, find-put b p.active_blocks, omega (arith, fits.0, le)),
            )
    ]

-- A block that a sound pool gives out is nobody else's, and holds what was asked for.
pub allocate-IsGiven :
    (backend : ℕ → Result ℕ) (p : Pool) (size : ℕ)
    → IsSound p
    → IsHonest p backend
    → 0 < size
    → OnSuccess (IsGiven size p) (allocate backend p size)
allocate-IsGiven backend p size s honest pos =
    allocate-elim (OnSuccess (IsGiven size p)) backend p size (λ _. tt) (λ e. absurd (omega arith))
      (λ _ _. allocate_new-IsGiven backend p direct size size honest (omega arith))
      λ _ le.
        let (lt, fits, _) =
          bucket_index_fits p.bucket_sizes p.options.max_bucket_size p.options.min_bucket_size size
            s.table le in
        allocate_pooled-IsGiven backend p
          (bucket_index p.bucket_sizes p.options.min_bucket_size size) size s honest lt fits

get_or-set :
    (xss : List (List Block)) (i : ℕ) (v : List Block)
    → i < length xss
    → get_or (set xss i v) i [] ≡ v
get_or-set [] i v lt = absurd (omega arith)
get_or-set (xs ∷ xss) zero v lt = refl
get_or-set (xs ∷ xss) (suc i) v lt = get_or-set xss i v (omega arith)

-- What the second `allocate` gives, whatever the backend would answer.
abbrev pub IsHit : ℕ → Pool → Result (ℕ × Pool) → Type 0
IsHit ptr p r = (q : Pool) × (r ≡ ok (ptr, q)) × (q.cache_hits ≡ (p.cache_hits + 1) % 2 ^ 64)

allocate-kept :
    (backend : ℕ → Result ℕ) (p : Pool) (size : ℕ) (b : ActiveBlock)
    → p.has_allocator ≡ true
    → 0 < size
    → size ≤ p.options.max_bucket_size
    → get_or p.free_blocks b.bucket [] ≡ []
    → b.bucket < length p.free_blocks
    → bucket_index p.bucket_sizes p.options.min_bucket_size size ≡ b.bucket
    → IsHit b.ptr p (allocate backend (keep_block p b) size)
unfolding keep_block allocate_pooled reuse
allocate-kept backend p size b present pos le none_free lt at =
    let block : Block = record { ptr = b.ptr; size = b.size; active = false } in
    let cached : get_or (keep_block p b).free_blocks b.bucket [] ≡ block ∷ [] =
      get_or-set p.free_blocks b.bucket (get_or p.free_blocks b.bucket [] ++ block ∷ []) lt
      ∙ ap (λ bs. bs ++ block ∷ []) none_free in
    allocate-elim (IsHit b.ptr p) backend (keep_block p b) size (λ e. absurd (cc))
      (λ e. absurd (omega arith)) (λ _ gt. absurd (omega arith))
      λ _ _.
        subst (λ i. IsHit b.ptr p (allocate_pooled backend (keep_block p b) i)) (sym at)
          (subst
            (λ bs. IsHit b.ptr p (elim bs [
              | [] ↦
                  allocate_new backend (keep_block p b) b.bucket (get_or p.bucket_sizes b.bucket 0)
              | c ∷ rest ↦ ok (c.ptr, reuse (keep_block p b) b.bucket c rest)
            ]))
            (sym cached) (reuse (keep_block p b) b.bucket block [], refl, refl))

-- In a sound pool with an allocator, for an active block of a bucket that has no free block, where the
-- pool with the block is within its limit: `deallocate` keeps the block, and the next request of a
-- positive size of its bucket gets it, without the backend and counted as a hit.
pub deallocate-allocate :
    (backend : ℕ → Result ℕ) (p : Pool) (size : ℕ) (b : ActiveBlock)
    → IsSound p
    → p.has_allocator ≡ true
    → 0 < size
    → size ≤ p.options.max_bucket_size
    → 0 < b.ptr
    → find b.ptr p.active_blocks ≡ some b
    → bucket_index p.bucket_sizes p.options.min_bucket_size size ≡ b.bucket
    → b.bucket ≢ direct
    → is_over_limit p b.size ≡ false
    → get_or p.free_blocks b.bucket [] ≡ []
    → (q : Pool) × (deallocate p b.ptr ≡ ok ([], q)) × IsHit b.ptr p (allocate backend q size)
unfolding deallocate
deallocate-allocate backend p size b s present pos le given e at pooled under none_free =
    let (lt, _, _) =
      bucket_index_fits p.bucket_sizes p.options.max_bucket_size p.options.min_bucket_size size
        s.table le in
    let test : (b.ptr == 0) ≡ false = ground arith in
    let kept : (b.bucket == direct || is_over_limit p b.size) ≡ false = ground arith in
    (
      keep_block p b,
      simp (deallocate, test, e, kept) refl,
      allocate-kept backend p size b present pos le none_free (omega (arith, at, lt, s.entries)) at,
    )
