-- ===== src/Generator/Caches/Copies.antt =====
-- What `clone_attention_caches` of src/generator.cc makes, cache by cache.
use vicold_hybrid_ai.Base.{
  ℕ, ◌<◌, ◌≤◌, ◌≡◌, ◌≢◌, ◌⊎◌, inl, inr, refl, sym, ap, ◌∙◌, subst, true, false, Option, some, List,
  [], ◌∷◌, length, get_elem?, arith, Bool-cases,
}
use mathlib.Core.Option.{some-injective}
use vicold_hybrid_ai.Core.{ok, ok-injective}
use vicold_hybrid_ai.Ops.Storage.{Heap, Buffer, Tensor, Machine, contents}
use vicold_hybrid_ai.Ops.Storage.Heap.{IsTarget, get_elem?-lt}
use vicold_hybrid_ai.Ops.Storage.Copies.{IsStored, stored-contents}
use vicold_hybrid_ai.Ops.Attention.{AttentionKvCache, no_attention, initialized}
use vicold_hybrid_ai.Ops.Attention.Clone.{IsClone, clone-IsClone}
use vicold_hybrid_ai.Generator.Caches.{clone_or_clear}

-- The addresses of the buffers of a cache, and of the caches of a list.
abbrev pub Owns : AttentionKvCache → ℕ → Type 0
Owns c x = (c.key.buffer ≡ some x) ⊎ (c.value.buffer ≡ some x)

abbrev pub OwnsAny : List AttentionKvCache → ℕ → Type 0
OwnsAny [] x = ⊥
OwnsAny (c ∷ cs) x = Owns c x ⊎ OwnsAny cs x

-- A cache with both of its buffers, each large enough.
pub record IsLive (h : Heap) (c : AttentionKvCache) : Type 0 where
  pub p : ℕ
  pub q : ℕ
  pub key : IsStored h c.key p
  pub value : IsStored h c.value q

abbrev pub AllLive : Heap → List AttentionKvCache → Type 0
AllLive h [] = Unit
AllLive h (c ∷ cs) = (initialized c ≡ true → IsLive h c) × AllLive h cs

-- Buffers of the heap, each of them once.
pub record IsOwner (h : Heap) (d : AttentionKvCache) : Type 0 where
  pub two : (x : ℕ) → d.key.buffer ≡ some x → d.value.buffer ≢ some x
  pub owned : (x : ℕ) → Owns d x → x < length h

abbrev pub AllOwners : Heap → List AttentionKvCache → Type 0
AllOwners h [] = Unit
AllOwners h (d ∷ ds) = IsOwner h d × ((x : ℕ) → Owns d x → OwnsAny ds x → ⊥) × AllOwners h ds

-- The copy reads as its source does, from buffers of its own.
pub record IsCopy (h h' : Heap) (c c' : AttentionKvCache) : Type 0 where
  pub live : IsLive h' c'
  pub key_bytes : contents h' c'.key ≡ contents h c.key
  pub value_bytes : contents h' c'.value ≡ contents h c.value
  pub same_length : c'.length ≡ c.length
  pub same_capacity : c'.capacity ≡ c.capacity

abbrev pub Reads : Heap → Heap → AttentionKvCache → AttentionKvCache → Type 0
Reads h h' c c' =
    ((initialized c ≡ false) × (c' ≡ no_attention)) ⊎ ((initialized c ≡ true) × IsCopy h h' c c')

abbrev pub AllReads : Heap → Heap → List AttentionKvCache → List AttentionKvCache → Type 0
AllReads h h' [] [] = Unit
AllReads h h' (c ∷ cs) (c' ∷ cs') = Reads h h' c c' × AllReads h h' cs cs'
AllReads h h' _ _ = ⊥

-- Everything but the buffers of the destination stays.
abbrev pub Keeps : Heap → Heap → (ℕ → Type 0) → Type 0
Keeps h h' Given =
    (x : ℕ) (b : Buffer) → get_elem? h x ≡ some b → (Given x → ⊥) → get_elem? h' x ≡ some b

pub record IsStep (h h' : Heap) (c d c' : AttentionKvCache) : Type 0 where
  pub reads : Reads h h' c c'
  pub grown : length h ≤ length h'
  pub kept : Keeps h h' (Owns d)
  pub targets : (x : ℕ) → Owns c' x → Owns d x ⊎ (length h ≤ x)
  pub owner : IsOwner h' c'

target-given :
    (h : Heap) (old : Option ℕ) (a x : ℕ)
    → IsTarget h old a
    → some a ≡ some x
    → (old ≡ some x) ⊎ (length h ≤ x)
target-given h old a x (inl e) same = inl (e ∙ same)
target-given h old a x (inr new) same =
    inr (subst (λ y. length h ≤ y) (some-injective a x same) new)

ne-target :
    (h : Heap) (old : Option ℕ) (a x : ℕ) (b : Buffer)
    → IsTarget h old a
    → get_elem? h x ≡ some b
    → old ≢ some x
    → x ≢ a
ne-target h old a x b (inl e) f other = λ same. other (e ∙ ap some (sym same))
ne-target h old a x b (inr new) f other = λ same. absurd (omega (arith, get_elem?-lt h x f))

-- The buffers of a copy are in the heap, and apart.
copies-IsOwner :
    (h' : Heap) (c' : AttentionKvCache) (a b : ℕ)
    → IsStored h' c'.key a
    → IsStored h' c'.value b
    → a ≢ b
    → IsOwner h' c'
copies-IsOwner h' c' a b ks vs apart = record {
  two = λ x e f. apart (some-injective a b (sym ks.owner ∙ e ∙ sym f ∙ vs.owner));
  owned = λ x o. elim o [
    | inl e ↦
        subst (λ y. y < length h') (some-injective a x (sym ks.owner ∙ e))
          (get_elem?-lt h' a ks.found)
    | inr e ↦
        subst (λ y. y < length h') (some-injective b x (sym vs.owner ∙ e))
          (get_elem?-lt h' b vs.found)
  ];
}

pub cleared : (x : ℕ) → Owns no_attention x → ⊥
cleared x (inl e) = cc
cleared x (inr e) = cc

pub cleared-IsOwner : (h : Heap) → IsOwner h no_attention
cleared-IsOwner h = record { two = λ x e. cc; owned = λ x o. absurd (cleared x o) }

cloned-IsStep :
    (h h' : Heap) (c d c' : AttentionKvCache) (p q : ℕ)
    → initialized c ≡ true
    → IsClone h h' p q c d c'
    → IsStep h h' c d c'
cloned-IsStep h h' c d c' p q on k =
    let copies = k.copies in
    record {
      reads = inr (
        on,
        record {
          live = record {
            p = copies.a;
            q = copies.b;
            key = copies.first_stored;
            value = copies.second_stored;
          };
          key_bytes = copies.first_bytes;
          value_bytes = copies.second_bytes;
          same_length = k.same_length;
          same_capacity = k.same_capacity;
        },
      );
      grown = copies.grown;
      kept = λ x b f other.
          copies.kept x b f
            (ne-target h d.key.buffer copies.a x b copies.first_target f (λ e. other (inl e)))
            (ne-target h d.value.buffer copies.b x b copies.second_target f (λ e. other (inr e)));
      targets = λ x o. elim o [
        | inl e ↦
            elim (target-given h d.key.buffer copies.a x copies.first_target
              (sym copies.first_stored.owner ∙ e)) [ inl old ↦ inl (inl old) | inr new ↦ inr new ]
        | inr e ↦
            elim (target-given h d.value.buffer copies.b x copies.second_target
              (sym copies.second_stored.owner ∙ e)) [ inl old ↦ inl (inr old) | inr new ↦ inr new ]
      ];
      owner =
          copies-IsOwner h' c' copies.a copies.b copies.first_stored copies.second_stored
            copies.apart;
    }

pub clone_or_clear-IsStep :
    (m : Machine) (h : Heap) (c d : AttentionKvCache) (h' : Heap) (c' : AttentionKvCache)
    → (initialized c ≡ true → IsLive h c)
    → IsOwner h d
    → ((x : ℕ) → Owns c x → Owns d x → ⊥)
    → clone_or_clear m h c d ≡ ok (h', c')
    → IsStep h h' c d c'
clone_or_clear-IsStep m h c d h' c' live owner apart e = elim (Bool-cases (initialized c)) [
  | inr off ↦
      subst (λ (r : Heap × AttentionKvCache). IsStep h r.0 c d r.1) (ok-injective (rw off at e))
        (record {
          reads = inl (off, refl);
          grown = omega arith;
          kept = λ x b f other. f;
          targets = λ x o. absurd (cleared x o);
          owner = cleared-IsOwner h;
        })
  | inl on ↦
      let l = live on in
      cloned-IsStep h h' c d c' l.p l.q on (
        clone-IsClone m h l.p l.q c d h' c' l.key l.value
          (record {
            first = λ e'. apart l.p (inl l.key.owner) (inl e');
            crossed = λ e'. apart l.q (inr l.value.owner) (inl e');
            crossed' = λ e'. apart l.p (inl l.key.owner) (inr e');
            second = λ e'. apart l.q (inr l.value.owner) (inr e');
            each = owner.two;
            owned = λ x e'. owner.owned x (inr e');
          })
          (rw on at e))
]

-- What a later step leaves as it is still reads the same.
contents-later :
    (h h' : Heap) (t : Tensor) (a : ℕ) (s : IsStored h t a)
    → get_elem? h' a ≡ some s.buffer
    → contents h' t ≡ contents h t
contents-later h h' t a s f =
    stored-contents h' t a s.buffer s.owner f ∙ sym (stored-contents h t a s.buffer s.owner s.found)

stored-later :
    (h h' : Heap) (t : Tensor) (a : ℕ) (s : IsStored h t a)
    → get_elem? h' a ≡ some s.buffer
    → IsStored h' t a
stored-later h h' t a s f = record {
  owner = s.owner;
  buffer = s.buffer;
  found = f;
  large = s.large;
}

-- Every buffer that a cache owns is as it was.
abbrev pub Same : Heap → Heap → AttentionKvCache → Type 0
Same h h' c = (x : ℕ) (b : Buffer) → Owns c x → get_elem? h x ≡ some b → get_elem? h' x ≡ some b

pub IsLive-later : (h h' : Heap) (c : AttentionKvCache) → IsLive h c → Same h h' c → IsLive h' c
IsLive-later h h' c l same = record {
  p = l.p;
  q = l.q;
  key = stored-later h h' c.key l.p l.key (same l.p l.key.buffer (inl l.key.owner) l.key.found);
  value =
      stored-later h h' c.value l.q l.value
        (same l.q l.value.buffer (inr l.value.owner) l.value.found);
}

key-later :
    (h h' : Heap) (c : AttentionKvCache)
    → IsLive h c
    → Same h h' c
    → contents h' c.key ≡ contents h c.key
key-later h h' c l same =
    contents-later h h' c.key l.p l.key (same l.p l.key.buffer (inl l.key.owner) l.key.found)

value-later :
    (h h' : Heap) (c : AttentionKvCache)
    → IsLive h c
    → Same h h' c
    → contents h' c.value ≡ contents h c.value
value-later h h' c l same =
    contents-later h h' c.value l.q l.value
      (same l.q l.value.buffer (inr l.value.owner) l.value.found)

-- A copy made in front of later steps.
pub reads-later :
    (h h1 h2 : Heap) (c c' : AttentionKvCache) → Reads h h1 c c' → Same h1 h2 c' → Reads h h2 c c'
reads-later h h1 h2 c c' (inl off) same = inl off
reads-later h h1 h2 c c' (inr (on, k)) same = inr (
  on,
  record {
    live = IsLive-later h1 h2 c' k.live same;
    key_bytes = key-later h1 h2 c' k.live same ∙ k.key_bytes;
    value_bytes = value-later h1 h2 c' k.live same ∙ k.value_bytes;
    same_length = k.same_length;
    same_capacity = k.same_capacity;
  },
)

-- A copy of a cache that an earlier step left as it was.
pub reads-earlier :
    (h h1 h2 : Heap) (c c' : AttentionKvCache)
    → (initialized c ≡ true → IsLive h c)
    → Same h h1 c
    → Reads h1 h2 c c'
    → Reads h h2 c c'
reads-earlier h h1 h2 c c' live same (inl off) = inl off
reads-earlier h h1 h2 c c' live same (inr (on, k)) = inr (
  on,
  record {
    live = k.live;
    key_bytes = k.key_bytes ∙ key-later h h1 c (live on) same;
    value_bytes = k.value_bytes ∙ value-later h h1 c (live on) same;
    same_length = k.same_length;
    same_capacity = k.same_capacity;
  },
)
