-- ===== src/Ops/Attention/Clone.antt =====
-- What a clone of the cache of attention is.
use vicold_hybrid_ai.Base.{ℕ, ◌≡◌, refl, subst}
use vicold_hybrid_ai.Core.{
  ok, ok-injective, >>=-elim, require-elim, invalid_argument, invalid_device,
}
use vicold_hybrid_ai.Ops.Storage.{Heap, Machine, copy_pair, or_invalid}
use vicold_hybrid_ai.Ops.Storage.Copies.{IsStored, IsPairCopy, IsApart, copy_owned-IsPairCopy}
use vicold_hybrid_ai.Ops.Attention.{AttentionKvCache, clone, is_valid}

-- The clone has the length and the capacity of its source, and a copy of its keys and values.
pub record IsClone (h h' : Heap) (p q : ℕ) (c destination c' : AttentionKvCache) : Type 0 where
  pub same_length : c'.length ≡ c.length
  pub same_capacity : c'.capacity ≡ c.capacity
  pub copies : IsPairCopy h h' p q c.key c.value destination.key destination.value c'.key c'.value

-- If the clone of a cache succeeds whose buffers are not those of the destination, then the clone has
-- the bytes, the forms, the length and the capacity of the cache, in buffers of its own, and no buffer
-- changes but those of the destination.
pub clone-IsClone :
    (m : Machine) (h : Heap) (p q : ℕ) (c destination : AttentionKvCache) (h' : Heap)
    (c' : AttentionKvCache)
    → IsStored h c.key p
    → IsStored h c.value q
    → IsApart h p q destination.key destination.value
    → clone m h c destination ≡ ok (h', c')
    → IsClone h h' p q c destination c'
unfolding clone
clone-IsClone m h p q c destination h' c' ks vs apart e =
    >>=-elim (or_invalid c.key.buffer) _ e λ p' f e1.
      >>=-elim (or_invalid c.value.buffer) _ e1 λ q' f' e2.
        require-elim (is_valid c) invalid_argument _ e2 λ _ e3.
          require-elim (m.has_backend c.key.device) invalid_device _ e3 λ _ e4.
            >>=-elim (copy_pair m h (p', q') (c.key, c.value) (destination.key, destination.value))
              _ e4
              λ r g e5.
                let copies =
                  copy_owned-IsPairCopy m h p q p' q' c.key c.value destination.key
                    destination.value r ks vs apart f f' g in
                subst (λ (x : Heap × AttentionKvCache). IsClone h x.0 p q c destination x.1)
                  (ok-injective e5)
                  (record { same_length = refl; same_capacity = refl; copies = copies })
