-- ===== src/Ops/DeltaNet/Clone.antt =====
-- What a clone of the cache of DeltaNet is.
use vicold_hybrid_ai.Base.{ℕ, ◌≡◌, refl, subst}
use vicold_hybrid_ai.Core.{
  ok, ok-injective, >>=-elim, require-elim, invalid_argument, invalid_device,
}
use vicold_hybrid_ai.Ops.Storage.{Heap, Machine, copy_pair, or_invalid}
use vicold_hybrid_ai.Ops.Storage.Copies.{IsStored, IsPairCopy, IsApart, copy_owned-IsPairCopy}
use vicold_hybrid_ai.Ops.DeltaNet.{DeltaNetCache, clone, is_valid}

-- The clone has the length of its source, and a copy of both states.
pub record IsCheckpoint (h h' : Heap) (p q : ℕ) (c destination c' : DeltaNetCache) : Type 0 where
  pub same_length : c'.length ≡ c.length
  pub copies :
      IsPairCopy h h' p q c.conv_state c.recurrent_state destination.conv_state
        destination.recurrent_state c'.conv_state c'.recurrent_state

-- If the clone of a cache succeeds whose buffers are not those of the destination, then the clone has
-- the bytes, the forms and the length of the cache, in buffers of its own, and no buffer
-- changes but those of the destination.
pub clone-IsCheckpoint :
    (m : Machine) (h : Heap) (p q : ℕ) (c destination : DeltaNetCache) (h' : Heap)
    (c' : DeltaNetCache)
    → IsStored h c.conv_state p
    → IsStored h c.recurrent_state q
    → IsApart h p q destination.conv_state destination.recurrent_state
    → clone m h c destination ≡ ok (h', c')
    → IsCheckpoint h h' p q c destination c'
unfolding clone
clone-IsCheckpoint m h p q c destination h' c' ks vs apart e =
    >>=-elim (or_invalid c.conv_state.buffer) _ e λ p' f e1.
      >>=-elim (or_invalid c.recurrent_state.buffer) _ e1 λ q' f' e2.
        require-elim (is_valid c) invalid_argument _ e2 λ _ e3.
          require-elim (m.has_backend c.conv_state.device) invalid_device _ e3 λ _ e4.
            >>=-elim
              (copy_pair m h (p', q') (c.conv_state, c.recurrent_state)
                (destination.conv_state, destination.recurrent_state))
              _ e4
              λ r g e5.
                let copies =
                  copy_owned-IsPairCopy m h p q p' q' c.conv_state c.recurrent_state
                    destination.conv_state destination.recurrent_state r ks vs apart f f' g in
                subst (λ (x : Heap × DeltaNetCache). IsCheckpoint h x.0 p q c destination x.1)
                  (ok-injective e5) (record { same_length = refl; copies = copies })
