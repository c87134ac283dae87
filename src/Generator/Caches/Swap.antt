-- ===== src/Generator/Caches/Swap.antt =====
-- `swap_decoder_caches` of src/generator.cc, by which a verified snapshot is committed.
use vicold_hybrid_ai.Base.{◌≡◌, refl, List, [], ◌∷◌, length, ◌==◌, true, arith}
use vicold_hybrid_ai.Ops.Attention.{AttentionKvCache}
use vicold_hybrid_ai.Ops.DeltaNet.{DeltaNetCache}
use vicold_hybrid_ai.Generator.Caches.{DecoderCacheSnapshot, swap_entries, swap_decoder_caches}

swap_entries-swapped {ℓ} :
    {A : Type ℓ} (xs ys : List A) → length xs ≡ length ys → swap_entries xs ys ≡ (ys, xs)
swap_entries-swapped [] [] e = refl
swap_entries-swapped [] (y ∷ ys) e = absurd (omega arith)
swap_entries-swapped (x ∷ xs) [] e = absurd (omega arith)
swap_entries-swapped (x ∷ xs) (y ∷ ys) e = rw (swap_entries-swapped xs ys (omega arith)) refl

same_size {ℓ} :
    {A : Type ℓ} (xs ys : List A) → length xs ≡ length ys → (length xs == length ys) ≡ true
same_size xs ys e = ground arith

-- Where the lists fit together, the caches and those of the snapshot change places.
pub swap_decoder_caches-swapped :
    (attention : List AttentionKvCache) (deltanet : List DeltaNetCache) (s : DecoderCacheSnapshot)
    → length attention ≡ length s.attention
    → length deltanet ≡ length s.deltanet
    → swap_decoder_caches attention deltanet s
      ≡ ((s.attention, s.deltanet), record { attention = attention; deltanet = deltanet })
swap_decoder_caches-swapped attention deltanet s ea ed =
    rw
      (
        same_size attention s.attention ea,
        same_size deltanet s.deltanet ed,
        swap_entries-swapped attention s.attention ea,
        swap_entries-swapped deltanet s.deltanet ed,
      )
      refl
