-- ===== src/Memory/Invariant/Blocks.antt =====
-- src/memory/memory_pool.cc: the invariant of the pool, and the moves of one block that keep it.
use vicold_hybrid_ai.Base.{
  add_size, ℕ, ◌+◌, ◌^◌, ◌<◌, ◌≤◌, ◌≡◌, sym, subst, ◌∙◌, ◌⊎◌, set, inl, inr, List, [], ◌∷◌, concat,
  get_or, length, All, All-append, length-replicate, ◌++◌, arith, some, false,
}
use vicold_hybrid_ai.Memory.Buckets.{IsTable}
use vicold_hybrid_ai.Memory.Pool.{
  Pool, Block, ActiveBlock, direct, enter, reuse, drop_block, keep_block, release_cache,
  is_over_limit, find,
}
use vicold_hybrid_ai.Memory.Totals.{
  total, here, here_self, here_le, here-cases, total-pop, total-push, total-replicate, total-erase,
  erase-fresh, All-set, All-replicate, length-set, All-erase,
}

-- How often the pool holds the pointer, in its free lists and as active.
abbrev pub held : ℕ → Pool → ℕ
held x p =
    total (λ b. here x b.ptr) (concat p.free_blocks) + total (λ b. here x b.ptr) p.active_blocks

abbrev pub free_total : Pool → ℕ
free_total p = total (λ b. b.size) (concat p.free_blocks)

abbrev pub active_total : Pool → ℕ
active_total p = total (λ b. b.size) p.active_blocks

-- An active block bypasses the pool, or is of a bucket and has its size.
abbrev pub IsFitting : List ℕ → ActiveBlock → Type 0
IsFitting sizes b =
    (b.bucket ≡ direct) ⊎ ((b.bucket < length sizes) × (b.size ≡ get_or sizes b.bucket 0))

pub record IsSound (p : Pool) : Type 0 where
  pub table : IsTable p.options.max_bucket_size p.bucket_sizes
  pub entries : length p.free_blocks ≡ length p.bucket_sizes
  pub pooled : p.pooled_bytes ≡ free_total p
  pub active : p.active_bytes ≡ active_total p
  pub room : free_total p + active_total p < 2 ^ 64
  pub limit : 0 < p.options.max_pooled_bytes → p.pooled_bytes ≤ p.options.max_pooled_bytes
  pub owned : (x : ℕ) → held x p ≤ 1
  pub sized : (i : ℕ) → All (λ b. b.size ≡ get_or p.bucket_sizes i 0) (get_or p.free_blocks i [])
  pub fitting : All (IsFitting p.bucket_sizes) p.active_blocks

is_over_limit-bound :
    (p : Pool) (size : ℕ)
    → is_over_limit p size ≡ false
    → 0 < p.options.max_pooled_bytes
    → add_size p.pooled_bytes size ≤ p.options.max_pooled_bytes
is_over_limit-bound p size under pos = ground arith

pub enter-IsSound :
    (p : Pool) (b : ActiveBlock)
    → IsSound p
    → held b.ptr p ≡ 0
    → free_total p + active_total p + b.size < 2 ^ 64
    → IsFitting p.bucket_sizes b
    → IsSound (enter p b)
unfolding enter
enter-IsSound p b s fresh room fits =
    let (same, _) = erase-fresh b.ptr p.active_blocks (omega arith) in
    rw same record {
      table = s.table;
      entries = s.entries;
      pooled = s.pooled;
      active = omega arith;
      room = omega arith;
      limit = s.limit;
      owned = λ x. elim (here-cases x b.ptr) [
        | inl other ↦ omega (arith, other, s.owned x)
        | inr same ↦
            let fresh' : held x p ≡ 0 = subst (λ y. held y p ≡ 0) (sym same) fresh in
            omega (arith, fresh', here_le x b.ptr)
      ];
      sized = s.sized;
      fitting = (fits, s.fitting);
    }

pub reuse-IsSound :
    (p : Pool) (bucket : ℕ) (block : Block) (rest : List Block)
    → IsSound p
    → bucket < length p.bucket_sizes
    → get_or p.free_blocks bucket [] ≡ block ∷ rest
    → IsSound (reuse p bucket block rest)
unfolding reuse
reuse-IsSound p bucket block rest s lt e =
    let inside : bucket < length p.free_blocks = omega (arith, s.entries) in
    let moved : (f : Block → ℕ)
        → total f (concat (set p.free_blocks bucket rest)) + f block
          ≡ total f (concat p.free_blocks) =
      λ f. total-pop f p.free_blocks bucket block rest inside e in
    let old =
      subst (λ bs. All (λ b. b.size ≡ get_or p.bucket_sizes bucket 0) bs) e (s.sized bucket) in
    let once = s.owned block.ptr in
    let (same, _) =
      erase-fresh block.ptr p.active_blocks
        (omega (arith, moved (λ b. here block.ptr b.ptr), here_self block.ptr, once)) in
    rw same record {
      table = s.table;
      entries = length-set p.free_blocks bucket rest ∙ s.entries;
      pooled = omega (arith, moved (λ b. b.size), s.pooled, s.room);
      active = omega (arith, moved (λ b. b.size), s.active, s.room);
      room = omega (arith, moved (λ b. b.size), s.room);
      limit = λ pos. omega (arith, s.limit pos, s.pooled, moved (λ b. b.size), s.room);
      owned = λ x. omega (arith, moved (λ b. here x b.ptr), s.owned x);
      sized =
          All-set (λ i b. b.size ≡ get_or p.bucket_sizes i 0) p.free_blocks bucket rest s.sized
            (old.1);
      fitting = (inr (lt, old.0), s.fitting);
    }

pub drop_block-IsSound :
    (p : Pool) (b : ActiveBlock)
    → IsSound p
    → find b.ptr p.active_blocks ≡ some b
    → IsSound (drop_block p b)
unfolding drop_block
drop_block-IsSound p b s e =
    let bytes = (total-erase (λ a. a.size) b.ptr p.active_blocks b e).1 in
    record {
      table = s.table;
      entries = s.entries;
      pooled = s.pooled;
      active = omega (arith, bytes, s.active, s.room);
      room = omega (arith, bytes, s.room);
      limit = s.limit;
      owned = λ x.
          omega (arith, (total-erase (λ a. here x a.ptr) b.ptr p.active_blocks b e).1, s.owned x);
      sized = s.sized;
      fitting = All-erase (IsFitting p.bucket_sizes) b.ptr p.active_blocks s.fitting;
    }

pub keep_block-IsSound :
    (p : Pool) (b : ActiveBlock)
    → IsSound p
    → find b.ptr p.active_blocks ≡ some b
    → b.bucket < length p.bucket_sizes
    → b.size ≡ get_or p.bucket_sizes b.bucket 0
    → is_over_limit p b.size ≡ false
    → IsSound (keep_block p b)
unfolding keep_block
keep_block-IsSound p b s e lt fits under =
    let bytes = (total-erase (λ a. a.size) b.ptr p.active_blocks b e).1 in
    let inside : b.bucket < length p.free_blocks = omega (arith, s.entries) in
    let block : Block = record { ptr = b.ptr; size = b.size; active = false } in
    let moved : (f : Block → ℕ)
        → total f
            (concat (set p.free_blocks b.bucket (get_or p.free_blocks b.bucket [] ++ block ∷ [])))
          ≡ total f (concat p.free_blocks) + f block =
      λ f. total-push f p.free_blocks b.bucket block inside in
    record {
      table = s.table;
      entries =
          length-set p.free_blocks b.bucket (get_or p.free_blocks b.bucket [] ++ block ∷ [])
          ∙ s.entries;
      pooled = omega (arith, moved (λ a. a.size), bytes, s.pooled, s.room);
      active = omega (arith, bytes, s.active, s.room);
      room = omega (arith, moved (λ a. a.size), bytes, s.room);
      limit = is_over_limit-bound p b.size under;
      owned = λ x. omega (
        arith,
        moved (λ a. here x a.ptr),
        (total-erase (λ a. here x a.ptr) b.ptr p.active_blocks b e).1,
        s.owned x,
      );
      sized =
          All-set (λ i a. a.size ≡ get_or p.bucket_sizes i 0) p.free_blocks b.bucket
            (get_or p.free_blocks b.bucket [] ++ block ∷ []) s.sized
            (All-append (λ a. a.size ≡ get_or p.bucket_sizes b.bucket 0)
              (get_or p.free_blocks b.bucket []) (block ∷ []) (s.sized b.bucket) (fits, tt));
      fitting = All-erase (IsFitting p.bucket_sizes) b.ptr p.active_blocks s.fitting;
    }

pub release_cache-IsSound : (p : Pool) → IsSound p → IsSound ((release_cache p).1)
unfolding release_cache
release_cache-IsSound p s = record {
  table = s.table;
  entries = length-replicate (length p.free_blocks) [] ∙ s.entries;
  pooled = sym (total-replicate (λ b. b.size) (length p.free_blocks));
  active = s.active;
  room = omega (arith, total-replicate {A = Block} (λ b. b.size) (length p.free_blocks), s.room);
  limit = λ pos. omega arith;
  owned = λ x.
      omega
        (arith, total-replicate {A = Block} (λ b. here x b.ptr) (length p.free_blocks), s.owned x);
  sized = All-replicate (λ i b. b.size ≡ get_or p.bucket_sizes i 0) (length p.free_blocks);
  fitting = s.fitting;
}
