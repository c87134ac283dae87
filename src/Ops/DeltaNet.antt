-- ===== src/Ops/DeltaNet.antt =====
-- src/ops/delta_net.h, delta_net.cc: the cache of DeltaNet. The length is `int64_t`. What a failing copy
-- leaves behind is not modelled: its caller gives up the caches.
pub mod Clone
use vicold_hybrid_ai.Base.{
  ℕ, zero, suc, ◌+◌, ℤ, pos, negsuc, Bool, true, false, ◌&&◌, ◌||◌, not, Option, none, some, List,
  [], ◌∷◌, length, is_empty, ltb, ◌==◌, if◌then◌else◌, get_elem?,
}
use vicold_hybrid_ai.Core.{
  Result, ok, err, StatusCode, invalid_argument, invalid_device, require, ◌>>=◌, ◌>>◌,
}
use vicold_hybrid_ai.Ops.Storage.{
  Heap, Tensor, no_tensor, Machine, copy_pair, same_device, same_shape, same_d_type, or_invalid,
  less, has_buffer,
}

pub record DeltaNetCache : Type 0 where
  pub conv_state : Tensor
  pub recurrent_state : Tensor
  pub length : ℤ

-- `DeltaNetCache{}`, which `reset` leaves as well
abbrev pub no_delta_net : DeltaNetCache
no_delta_net = record { conv_state = no_tensor; recurrent_state = no_tensor; length = pos 0 }

abbrev pub initialized : DeltaNetCache → Bool
initialized c = has_buffer c.conv_state && has_buffer c.recurrent_state

abbrev pub is_valid : DeltaNetCache → Bool
is_valid c = same_device c.conv_state.device c.recurrent_state.device && not (less c.length (pos 0))

-- `clone`, which `checkpoint` calls.
unfoldable pub clone :
    Machine → Heap → DeltaNetCache → DeltaNetCache → Result (Heap × DeltaNetCache)
clone m h c destination = do
  p ← or_invalid c.conv_state.buffer
  q ← or_invalid c.recurrent_state.buffer
  require (is_valid c) invalid_argument
  require (m.has_backend c.conv_state.device) invalid_device
  (h', (conv_state, recurrent_state)) ←
      copy_pair m h (p, q) (c.conv_state, c.recurrent_state)
        (destination.conv_state, destination.recurrent_state)
  ok (h', record { conv_state = conv_state; recurrent_state = recurrent_state; length = c.length })

abbrev pub is_complete : DeltaNetCache → Bool
is_complete k =
    initialized k
    && not (less k.length (pos 0))
    && same_device k.conv_state.device k.recurrent_state.device
    && same_d_type k.conv_state.dtype k.recurrent_state.dtype

abbrev pub same_form : Tensor → Tensor → Bool
same_form a b =
    same_shape a.shape b.shape && same_device a.device b.device && same_d_type a.dtype b.dtype

abbrev pub is_compatible : DeltaNetCache → DeltaNetCache → Bool
is_compatible c k =
    not (initialized c)
    || (same_form c.conv_state k.conv_state && same_form c.recurrent_state k.recurrent_state)

abbrev pub same_test : Bool → Bool → Bool
same_test true b = b
same_test false b = not b

-- The cache and the checkpoint, exchanged.
unfoldable pub restore : DeltaNetCache → DeltaNetCache → Result (DeltaNetCache × DeltaNetCache)
restore c checkpoint = do
  require (same_test (has_buffer c.conv_state) (has_buffer c.recurrent_state)) invalid_argument
  require (is_complete checkpoint) invalid_argument
  require (is_compatible c checkpoint) invalid_argument
  ok (checkpoint, c)
