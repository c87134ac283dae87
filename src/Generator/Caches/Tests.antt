-- ===== src/Generator/Caches/Tests.antt =====
-- A checkpoint of two caches (src/generator.cc).
use vicold_hybrid_ai.Base.{
  ℕ, ◌≡◌, refl, subst, inl, inr, true, some, List, [], ◌∷◌, pos, arith, ◌<◌,
}
use mathlib.Core.Option.{some-injective}
use vicold_hybrid_ai.Core.{ok, cpu_device, uint8, host}
use vicold_hybrid_ai.Ops.Storage.{Heap, Tensor, Machine, copy_pair, target, memcpy}
use vicold_hybrid_ai.Ops.Attention.{AttentionKvCache, no_attention, clone}
use vicold_hybrid_ai.Generator.Caches.{clone_attention_caches}
use vicold_hybrid_ai.Generator.Caches.Copies.{Owns, OwnsAny, IsLive, cleared}
use vicold_hybrid_ai.Generator.Caches.Complete.{IsCheckpoint, clone_attention_caches-IsCheckpoint}

abbrev stored_at : ℕ → Tensor
stored_at a = record { buffer = some a; dtype = uint8; shape = 2 ∷ 1 ∷ []; device = cpu_device }

abbrev cache_at : ℕ → ℕ → AttentionKvCache
cache_at a b = record { key = stored_at a; value = stored_at b; length = pos 1; capacity = pos 2 }

abbrev buffers : List (List ℕ) → Heap
buffers [] = []
buffers (bs ∷ rest) = record { memory_type = host; bytes = bs } ∷ buffers rest

-- The buffers 0 to 3 are those of two sources, 4 and 5 those of a destination.
abbrev before : Heap
before = buffers (
    (1 ∷ 2 ∷ [])
    ∷ (3 ∷ 4 ∷ [])
    ∷ (5 ∷ 6 ∷ [])
    ∷ (7 ∷ 8 ∷ [])
    ∷ (0 ∷ 0 ∷ 9 ∷ [])
    ∷ (0 ∷ 0 ∷ [])
    ∷ [])

abbrev after : Heap
after = buffers (
    (1 ∷ 2 ∷ [])
    ∷ (3 ∷ 4 ∷ [])
    ∷ (5 ∷ 6 ∷ [])
    ∷ (7 ∷ 8 ∷ [])
    ∷ (1 ∷ 2 ∷ 9 ∷ [])
    ∷ (3 ∷ 4 ∷ [])
    ∷ (5 ∷ 6 ∷ [])
    ∷ (7 ∷ 8 ∷ [])
    ∷ [])

abbrev sound_machine : Machine
sound_machine = record {
  has_backend = λ _. true;
  create_buffer = λ _ _ _. true;
  memcpy_d2d = λ _ _. ok tt;
  synchronize = λ _. ok tt;
}

-- The first copy reuses the storage of its destination, the second allocates; a cleared cache is between.
checkpoint_run :
    clone_attention_caches sound_machine before
      (cache_at 0 1 ∷ no_attention ∷ cache_at 2 3 ∷ [])
      (cache_at 4 5 ∷ [])
    ≡ ok (after, cache_at 4 5 ∷ no_attention ∷ cache_at 6 7 ∷ [])
unfolding clone_attention_caches clone copy_pair target memcpy
checkpoint_run = refl

IsLive-at_zero : IsLive before (cache_at 0 1)
IsLive-at_zero = record {
  p = 0;
  q = 1;
  key = record { owner = refl; buffer = _; found = refl; large = omega arith };
  value = record { owner = refl; buffer = _; found = refl; large = omega arith };
}

IsLive-at_two : IsLive before (cache_at 2 3)
IsLive-at_two = record {
  p = 2;
  q = 3;
  key = record { owner = refl; buffer = _; found = refl; large = omega arith };
  value = record { owner = refl; buffer = _; found = refl; large = omega arith };
}

destination_in : (x : ℕ) → Owns (cache_at 4 5) x → x < 6
destination_in x (inl e) = subst (λ y. y < 6) (some-injective 4 x e) (omega arith)
destination_in x (inr e) = subst (λ y. y < 6) (some-injective 5 x e) (omega arith)

destination_above : (x : ℕ) → OwnsAny (cache_at 4 5 ∷ []) x → 3 < x
destination_above x (inl (inl e)) = subst (λ y. 3 < y) (some-injective 4 x e) (omega arith)
destination_above x (inl (inr e)) = subst (λ y. 3 < y) (some-injective 5 x e) (omega arith)
destination_above x (inr any) = absurd any

sources_below : (x : ℕ) → OwnsAny (cache_at 0 1 ∷ no_attention ∷ cache_at 2 3 ∷ []) x → x < 4
sources_below x (inl (inl e)) = subst (λ y. y < 4) (some-injective 0 x e) (omega arith)
sources_below x (inl (inr e)) = subst (λ y. y < 4) (some-injective 1 x e) (omega arith)
sources_below x (inr (inl o)) = absurd (cleared x o)
sources_below x (inr (inr (inl (inl e)))) = subst (λ y. y < 4) (some-injective 2 x e) (omega arith)
sources_below x (inr (inr (inl (inr e)))) = subst (λ y. y < 4) (some-injective 3 x e) (omega arith)
sources_below x (inr (inr (inr any))) = absurd any

apart : (x : ℕ) → x < 4 → 3 < x → ⊥
apart x below above = absurd (omega arith)

clone_attention_caches-IsCheckpoint_example :
    IsCheckpoint before after
      (cache_at 0 1 ∷ no_attention ∷ cache_at 2 3 ∷ [])
      (cache_at 4 5 ∷ [])
      (cache_at 4 5 ∷ no_attention ∷ cache_at 6 7 ∷ [])
clone_attention_caches-IsCheckpoint_example =
    clone_attention_caches-IsCheckpoint sound_machine before
      (cache_at 0 1 ∷ no_attention ∷ cache_at 2 3 ∷ []) (cache_at 4 5 ∷ []) after
      (cache_at 4 5 ∷ no_attention ∷ cache_at 6 7 ∷ [])
      ((λ _. IsLive-at_zero), ((λ on. absurd (cc)), ((λ _. IsLive-at_two), tt)))
      (record { two = λ x e f. cc; owned = destination_in }, (λ x o any. any), tt)
      (λ x o. omega (arith, sources_below x o))
      (λ x o o'. apart x (sources_below x o) (destination_above x o')) checkpoint_run
