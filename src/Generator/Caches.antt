-- ===== src/Generator/Caches.antt =====
-- src/generator.cc: `clone_attention_caches`, `clone_decoder_caches` and the exchanges of caches. The
-- pointers are not null.
pub mod Copies
pub mod Complete
pub mod Swap
mod Tests
use vicold_hybrid_ai.Base.{
  ℕ, ◌≡◌, Bool, true, false, ◌&&◌, not, List, [], ◌∷◌, length, ◌==◌, if◌then◌else◌,
}
use vicold_hybrid_ai.Core.{Result, ok, err, invalid_argument, require, ◌>>=◌, ◌>>◌}
use vicold_hybrid_ai.Ops.Storage.{Heap, Machine}
use vicold_hybrid_ai.Ops.Attention.{AttentionKvCache, no_attention}
use vicold_hybrid_ai.Ops.DeltaNet.{DeltaNetCache, no_delta_net}
use vicold_hybrid_ai.Ops.Attention
use vicold_hybrid_ai.Ops.DeltaNet

abbrev pub clone_or_clear :
    Machine → Heap → AttentionKvCache → AttentionKvCache → Result (Heap × AttentionKvCache)
clone_or_clear m h c destination =
    if Attention.initialized c then Attention.clone m h c destination else ok (h, no_attention)

abbrev pub checkpoint_or_clear :
    Machine → Heap → DeltaNetCache → DeltaNetCache → Result (Heap × DeltaNetCache)
checkpoint_or_clear m h c destination =
    if DeltaNet.initialized c then DeltaNet.clone m h c destination else ok (h, no_delta_net)

-- An entry of the destination, which `resize` makes where there is none.
abbrev pub first_or {ℓ} : {A : Type ℓ} → A → List A → A
first_or a [] = a
first_or a (x ∷ xs) = x

abbrev pub rest_of {ℓ} : {A : Type ℓ} → List A → List A
rest_of [] = []
rest_of (x ∷ xs) = xs

unfoldable pub clone_attention_caches :
    Machine
    → Heap
    → List AttentionKvCache
    → List AttentionKvCache
    → Result (Heap × List AttentionKvCache)
clone_attention_caches m h [] destinations = ok (h, [])
clone_attention_caches m h (c ∷ cs) destinations = do
  (h1, copy) ← clone_or_clear m h c (first_or no_attention destinations)
  (h2, copies) ← clone_attention_caches m h1 cs (rest_of destinations)
  ok (h2, copy ∷ copies)

pub record DecoderCacheSnapshot : Type 0 where
  pub attention : List AttentionKvCache
  pub deltanet : List DeltaNetCache

-- The loop, where the lists have the same length.
unfoldable pub clone_entries :
    Machine
    → Heap
    → List AttentionKvCache
    → List DeltaNetCache
    → List AttentionKvCache
    → List DeltaNetCache
    → Result (Heap × DecoderCacheSnapshot)
clone_entries m h (c ∷ cs) (d ∷ ds) attention deltanet = do
  (h1, copy) ← clone_or_clear m h c (first_or no_attention attention)
  (h2, checkpoint) ← checkpoint_or_clear m h1 d (first_or no_delta_net deltanet)
  (h3, rest) ← clone_entries m h2 cs ds (rest_of attention) (rest_of deltanet)
  ok (h3, record { attention = copy ∷ rest.attention; deltanet = checkpoint ∷ rest.deltanet })
clone_entries m h _ _ attention deltanet = ok (h, record { attention = []; deltanet = [] })

unfoldable pub clone_decoder_caches :
    Machine
    → Heap
    → List AttentionKvCache
    → List DeltaNetCache
    → DecoderCacheSnapshot
    → Result (Heap × DecoderCacheSnapshot)
unfolding clone_entries
clone_decoder_caches m h attention deltanet snapshot = do
  require (length attention == length deltanet) invalid_argument
  clone_entries m h attention deltanet snapshot.attention snapshot.deltanet

-- Lists of the same length are exchanged, entry by entry; others stay.
abbrev pub swap_entries {ℓ} : {A : Type ℓ} → List A → List A → List A × List A
swap_entries (x ∷ xs) (y ∷ ys) = let rest = swap_entries xs ys in (y ∷ rest.0, x ∷ rest.1)
swap_entries xs ys = (xs, ys)

abbrev pub swap_attention_caches :
    List AttentionKvCache → List AttentionKvCache → List AttentionKvCache × List AttentionKvCache
swap_attention_caches lhs rhs =
    if length lhs == length rhs then swap_entries lhs rhs else (lhs, rhs)

abbrev pub swap_decoder_caches :
    List AttentionKvCache
    → List DeltaNetCache
    → DecoderCacheSnapshot
    → (List AttentionKvCache × List DeltaNetCache) × DecoderCacheSnapshot
swap_decoder_caches attention deltanet snapshot =
    if (length attention == length snapshot.attention)
      && (length deltanet == length snapshot.deltanet)
    then (let a = swap_attention_caches attention snapshot.attention in
        let d = swap_entries deltanet snapshot.deltanet in
        ((a.0, d.0), record { attention = a.1; deltanet = d.1 }))
    else ((attention, deltanet), snapshot)
