-- ===== src/Memory/Pool.antt =====
-- src/memory/memory_pool.cc and memory_pool.h: the caching allocator of buckets. The backend's
-- allocator is an argument of the calls that use it, a function from the size asked for to its answer;
-- the pointers handed back to it are a result of the call. A pointer is a number, the null pointer 0.
-- Every public method holds the pool's mutex to its end, so a run is a sequence of calls.
use vicold_hybrid_ai.Base.{
  add_size, sub_size, ℕ, ◌-◌, ◌^◌, Bool, false, ◌||◌, ◌&&◌, not, Option, none, some, List, [], ◌∷◌,
  ◌++◌, map, concat, get_or, set, replicate, length, ltb, ◌==◌, if◌then◌else◌,
}
use vicold_hybrid_ai.Core.{Result, invalid_argument, ok, err, ◌>>=◌}
use vicold_hybrid_ai.Memory.Buckets.{bucket_index}

pub record Options : Type 0 where
  pub min_bucket_size : ℕ
  pub max_bucket_size : ℕ
  pub max_pooled_bytes : ℕ

pub record Block : Type 0 where
  pub ptr : ℕ
  pub size : ℕ
  pub active : Bool

pub record ActiveBlock : Type 0 where
  pub ptr : ℕ
  pub bucket : ℕ
  pub size : ℕ

-- The map from a bucket to its free blocks is a list with an entry for each bucket, empty where the map
-- has no entry. `active_blocks` has an entry for each pointer at most.
pub record Pool : Type 0 where
  pub has_allocator : Bool
  pub options : Options
  pub bucket_sizes : List ℕ
  pub free_blocks : List (List Block)
  pub active_blocks : List ActiveBlock
  pub pooled_bytes : ℕ
  pub active_bytes : ℕ
  pub total_allocs : ℕ
  pub cache_hits : ℕ

-- `std::numeric_limits<size_t>::max()`, the bucket of a block that bypasses the pool.
abbrev pub direct : ℕ
direct = 2 ^ 64 - 1

-- The constructor, after it has built the table of sizes.
abbrev pub new_pool : Bool → Options → List ℕ → Pool
new_pool has_allocator options sizes = record {
  has_allocator = has_allocator;
  options = options;
  bucket_sizes = sizes;
  free_blocks = replicate (length sizes) [];
  active_blocks = [];
  pooled_bytes = 0;
  active_bytes = 0;
  total_allocs = 0;
  cache_hits = 0;
}

abbrev pub find : ℕ → List ActiveBlock → Option ActiveBlock
find ptr [] = none
find ptr (b ∷ bs) = if ptr == b.ptr then some b else find ptr bs

abbrev pub erase : ℕ → List ActiveBlock → List ActiveBlock
erase ptr [] = []
erase ptr (b ∷ bs) = if ptr == b.ptr then bs else b ∷ erase ptr bs

-- `active_blocks_[ptr] = block`
abbrev pub put : ActiveBlock → List ActiveBlock → List ActiveBlock
put b bs = b ∷ erase b.ptr bs

-- A block from the backend, entered as active.
unfoldable pub enter : Pool → ActiveBlock → Pool
enter p b = record p {
  active_blocks = put b p.active_blocks;
  active_bytes = add_size p.active_bytes b.size;
  total_allocs = add_size p.total_allocs 1;
}

-- A cached block, handed out again.
unfoldable pub reuse : Pool → ℕ → Block → List Block → Pool
reuse p bucket block rest = record p {
  free_blocks = set p.free_blocks bucket rest;
  active_blocks =
      put (record { ptr = block.ptr; bucket = bucket; size = block.size }) p.active_blocks;
  active_bytes = add_size p.active_bytes block.size;
  pooled_bytes = sub_size p.pooled_bytes block.size;
  total_allocs = add_size p.total_allocs 1;
  cache_hits = add_size p.cache_hits 1;
}

unfoldable pub allocate_new : (ℕ → Result ℕ) → Pool → ℕ → ℕ → Result (ℕ × Pool)
unfolding enter
allocate_new backend p bucket size =
    backend size >>= λ ptr. ok (ptr, enter p (record { ptr = ptr; bucket = bucket; size = size }))

unfoldable pub allocate_pooled : (ℕ → Result ℕ) → Pool → ℕ → Result (ℕ × Pool)
unfolding allocate_new reuse
allocate_pooled backend p bucket = elim (get_or p.free_blocks bucket []) [
  | [] ↦ allocate_new backend p bucket (get_or p.bucket_sizes bucket 0)
  | block ∷ rest ↦ ok (block.ptr, reuse p bucket block rest)
]

-- `allocate`, where the output pointer is not null. The size 0 gives the null pointer.
unfoldable pub allocate : (ℕ → Result ℕ) → Pool → ℕ → Result (ℕ × Pool)
unfolding allocate_pooled allocate_new bucket_index
allocate backend p size =
    if not p.has_allocator
    then err invalid_argument
    else if size == 0
    then ok (0, p)
    else if ltb p.options.max_bucket_size size
    then allocate_new backend p direct size
    else allocate_pooled backend p (bucket_index p.bucket_sizes p.options.min_bucket_size size)

-- A block back from its user, released at once.
unfoldable pub drop_block : Pool → ActiveBlock → Pool
drop_block p b = record p {
  active_blocks = erase b.ptr p.active_blocks;
  active_bytes = sub_size p.active_bytes b.size;
}

-- A block back from its user, kept for reuse.
unfoldable pub keep_block : Pool → ActiveBlock → Pool
keep_block p b = record p {
  free_blocks = set p.free_blocks b.bucket (
      get_or p.free_blocks b.bucket []
      ++ record { ptr = b.ptr; size = b.size; active = false } ∷ []);
  active_blocks = erase b.ptr p.active_blocks;
  active_bytes = sub_size p.active_bytes b.size;
  pooled_bytes = add_size p.pooled_bytes b.size;
}

abbrev pub is_over_limit : Pool → ℕ → Bool
is_over_limit p size =
    let limit = p.options.max_pooled_bytes in
    ltb 0 limit && ltb limit (add_size p.pooled_bytes size)

-- The pointers that the call gives back to the backend, and the pool after it.
unfoldable pub deallocate : Pool → ℕ → Result (List ℕ × Pool)
unfolding drop_block keep_block
deallocate p ptr = if ptr == 0 then ok ([], p) else elim (find ptr p.active_blocks) [
  | none ↦ err invalid_argument
  | some b ↦
      if b.bucket == direct || is_over_limit p b.size
      then ok (b.ptr ∷ [], drop_block p b)
      else ok ([], keep_block p b)
]

abbrev pub ptrs : List Block → List ℕ
ptrs = map (λ b. b.ptr)

unfoldable pub release_cache : Pool → List ℕ × Pool
release_cache p = (
  ptrs (concat p.free_blocks),
  record p { free_blocks = replicate (length p.free_blocks) []; pooled_bytes = 0 },
)

pub data Call : Type 0 where
  allocates : (ℕ → Result ℕ) → ℕ → Call
  deallocates : ℕ → Call
  releases : Call

-- A call that fails leaves the pool as it was.
abbrev pub after {ℓ} : {A : Type ℓ} → Pool → Result (A × Pool) → Pool
after p (ok (a, q)) = q
after p (err e) = p

unfoldable pub step : Pool → Call → Pool
unfolding allocate deallocate release_cache
step p (allocates backend size) = after p (allocate backend p size)
step p (deallocates ptr) = after p (deallocate p ptr)
step p releases = let (released, q) = release_cache p in q

unfoldable pub run : Pool → List Call → Pool
unfolding step
run p [] = p
run p (c ∷ cs) = run (step p c) cs
