-- ===== src/Ops/Attention.antt =====
-- src/ops/attention.h, attention.cc: the cache of attention. Lengths and the capacity are `int64_t`. What a
-- failing copy leaves behind is not modelled: its caller gives up the caches.
pub mod Clone
use vicold_hybrid_ai.Base.{
  ℕ, zero, suc, ◌+◌, ℤ, pos, negsuc, Bool, true, false, ◌&&◌, ◌||◌, not, Option, none, some, List,
  [], ◌∷◌, length, is_empty, ltb, ◌==◌, if◌then◌else◌, get_elem?,
}
use vicold_hybrid_ai.Core.{
  Result, ok, err, StatusCode, invalid_argument, invalid_device, require, ◌>>=◌, ◌>>◌,
}
use vicold_hybrid_ai.Ops.Storage.{
  Heap, Tensor, no_tensor, Machine, copy_pair, same_device, same_shape, same_d_type, or_invalid,
  less, has_buffer,
}

pub record AttentionKvCache : Type 0 where
  pub key : Tensor
  pub value : Tensor
  pub length : ℤ
  pub capacity : ℤ

-- `AttentionKVCache{}`
abbrev pub no_attention : AttentionKvCache
no_attention = record { key = no_tensor; value = no_tensor; length = pos 0; capacity = pos 0 }

abbrev pub initialized : AttentionKvCache → Bool
initialized c = has_buffer c.key && has_buffer c.value

-- The first dimension is the capacity.
abbrev pub has_rows : List ℕ → ℤ → Bool
has_rows [] capacity = false
has_rows (d ∷ ds) capacity = not (less (pos d) capacity || less capacity (pos d))

abbrev pub is_consistent : AttentionKvCache → Bool
is_consistent c =
    has_rows c.key.shape c.capacity
    && has_rows c.value.shape c.capacity
    && same_device c.key.device c.value.device
    && same_d_type c.key.dtype c.value.dtype

abbrev pub truncate_stored : ℤ → AttentionKvCache → Result AttentionKvCache
truncate_stored new_length c = do
  require (is_consistent c) invalid_argument
  ok (record c { length = new_length })

unfoldable pub truncate : ℤ → AttentionKvCache → Result AttentionKvCache
truncate new_length c = do
  require (not (less new_length (pos 0) || less c.capacity (pos 0) || less c.capacity new_length))
      invalid_argument
  if initialized c
      then truncate_stored new_length c
      else (require (not (less new_length (pos 0) || less (pos 0) new_length)) invalid_argument
          >> ok c)

abbrev pub is_valid : AttentionKvCache → Bool
is_valid c =
    same_device c.key.device c.value.device
    && same_shape c.key.shape c.value.shape
    && same_d_type c.key.dtype c.value.dtype
    && not (less c.length (pos 0) || less c.capacity (pos 0) || less c.capacity c.length)

unfoldable pub clone :
    Machine → Heap → AttentionKvCache → AttentionKvCache → Result (Heap × AttentionKvCache)
clone m h c destination = do
  p ← or_invalid c.key.buffer
  q ← or_invalid c.value.buffer
  require (is_valid c) invalid_argument
  require (m.has_backend c.key.device) invalid_device
  (h', (key, value)) ← copy_pair m h (p, q) (c.key, c.value) (destination.key, destination.value)
  ok (h', record { key = key; value = value; length = c.length; capacity = c.capacity })
