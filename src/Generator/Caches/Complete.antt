-- ===== src/Generator/Caches/Complete.antt =====
-- `clone_attention_caches` of src/generator.cc gives a complete checkpoint of a list of caches.
use vicold_hybrid_ai.Base.{
  ℕ, ◌<◌, ◌≤◌, ◌≡◌, ◌⊎◌, inl, inr, subst, some, List, [], ◌∷◌, length, get_elem?, arith,
}
use vicold_hybrid_ai.Core.{ok, ok-injective, >>=-elim}
use vicold_hybrid_ai.Ops.Storage.{Heap, Buffer, Machine}
use vicold_hybrid_ai.Ops.Attention.{AttentionKvCache, no_attention}
use vicold_hybrid_ai.Generator.Caches.{clone_or_clear, clone_attention_caches, first_or, rest_of}
use vicold_hybrid_ai.Generator.Caches.Copies.{
  Owns, OwnsAny, AllLive, IsOwner, AllOwners, AllReads, Keeps, cleared, cleared-IsOwner,
  clone_or_clear-IsStep, IsLive-later, reads-later, reads-earlier,
}

-- Every copy reads as its source did, from buffers of its own: none is a buffer of a source or of
-- another copy, and each was one of a destination or is new. Nothing changes but the buffers of the
-- destinations.
pub record IsCheckpoint (h h' : Heap) (cs ds cs' : List AttentionKvCache) : Type 0 where
  pub reads : AllReads h h' cs cs'
  pub grown : length h ≤ length h'
  pub kept : Keeps h h' (OwnsAny ds)
  pub own : (x : ℕ) → OwnsAny cs' x → OwnsAny cs x → ⊥
  pub distinct : AllOwners h' cs'
  pub targets : (x : ℕ) → OwnsAny cs' x → OwnsAny ds x ⊎ (length h ≤ x)

first-any : (ds : List AttentionKvCache) (x : ℕ) → Owns (first_or no_attention ds) x → OwnsAny ds x
first-any [] x o = cleared x o
first-any (d ∷ ds) x o = inl o

rest-any : (ds : List AttentionKvCache) (x : ℕ) → OwnsAny (rest_of ds) x → OwnsAny ds x
rest-any [] x o = o
rest-any (d ∷ ds) x o = inr o

owners-split :
    (h : Heap) (ds : List AttentionKvCache)
    → AllOwners h ds
    → IsOwner h (first_or no_attention ds)
      × ((x : ℕ) → Owns (first_or no_attention ds) x → OwnsAny (rest_of ds) x → ⊥)
      × AllOwners h (rest_of ds)
owners-split h [] o = (cleared-IsOwner h, (λ x o' any. any), tt)
owners-split h (d ∷ ds) o = o

owners-lt :
    (h : Heap) (ds : List AttentionKvCache) (x : ℕ) → AllOwners h ds → OwnsAny ds x → x < length h
owners-lt h [] x o any = absurd any
owners-lt h (d ∷ ds) x (o, _, os) (inl first) = o.owned x first
owners-lt h (d ∷ ds) x (o, _, os) (inr any) = owners-lt h ds x os any

IsOwner-later :
    (h h1 : Heap) (d : AttentionKvCache) → length h ≤ length h1 → IsOwner h d → IsOwner h1 d
IsOwner-later h h1 d le o = record { two = o.two; owned = λ x own. omega (arith, o.owned x own) }

-- A copy in front of others: its buffers were those of its destination, or new.
targets-cons :
    (h h1 : Heap) (c' : AttentionKvCache) (cs' ds : List AttentionKvCache)
    → length h ≤ length h1
    → ((x : ℕ) → Owns c' x → Owns (first_or no_attention ds) x ⊎ (length h ≤ x))
    → ((x : ℕ) → OwnsAny cs' x → OwnsAny (rest_of ds) x ⊎ (length h1 ≤ x))
    → (x : ℕ) → OwnsAny (c' ∷ cs') x
    → OwnsAny ds x ⊎ (length h ≤ x)
targets-cons h h1 c' cs' ds le first others x (inl o) = elim (first x o) [
  | inl old ↦ inl (first-any ds x old)
  | inr new ↦ inr new
]
targets-cons h h1 c' cs' ds le first others x (inr any) = elim (others x any) [
  | inl old ↦ inl (rest-any ds x old)
  | inr new ↦ inr (omega arith)
]

owners-later :
    (h h1 : Heap) (ds : List AttentionKvCache)
    → length h ≤ length h1
    → AllOwners h ds
    → AllOwners h1 ds
owners-later h h1 [] le o = tt
owners-later h h1 (d ∷ ds) le (o, apart, os) =
    (IsOwner-later h h1 d le o, apart, owners-later h h1 ds le os)

-- The caches of a list are not touched.
abbrev SameAll : Heap → Heap → List AttentionKvCache → Type 0
SameAll h h1 cs =
    (x : ℕ) (b : Buffer) → OwnsAny cs x → get_elem? h x ≡ some b → get_elem? h1 x ≡ some b

live_all-later :
    (h h1 : Heap) (cs : List AttentionKvCache) → AllLive h cs → SameAll h h1 cs → AllLive h1 cs
live_all-later h h1 [] l same = tt
live_all-later h h1 (c ∷ cs) (l, ls) same = (
  (λ on. IsLive-later h h1 c (l on) (λ x b o. same x b (inl o))),
  live_all-later h h1 cs ls (λ x b o. same x b (inr o)),
)

reads_all-earlier :
    (h h1 h2 : Heap) (cs cs' : List AttentionKvCache)
    → AllLive h cs
    → SameAll h h1 cs
    → AllReads h1 h2 cs cs'
    → AllReads h h2 cs cs'
reads_all-earlier h h1 h2 [] [] l same r = tt
reads_all-earlier h h1 h2 [] (c' ∷ cs') l same r = r
reads_all-earlier h h1 h2 (c ∷ cs) [] l same r = r
reads_all-earlier h h1 h2 (c ∷ cs) (c' ∷ cs') (l, ls) same (r, rs) = (
  reads-earlier h h1 h2 c c' l (λ x b o. same x b (inl o)) r,
  reads_all-earlier h h1 h2 cs cs' ls (λ x b o. same x b (inr o)) rs,
)

-- If `clone_attention_caches` succeeds, the buffers of the sources are in the heap and large enough, and
-- the destinations have each of their buffers once and none of the sources, then each copy is a cleared
-- cache for a source without storage, and otherwise has the bytes, the length and the capacity of the
-- source. The buffers of the copies are in the heap, each of them once, none is one of a source, and
-- each was one of a destination or is new; no buffer changes but those of the destinations, so that the
-- sources are as they were.
pub clone_attention_caches-IsCheckpoint :
    (m : Machine) (h : Heap) (cs ds : List AttentionKvCache) (h' : Heap)
    (cs' : List AttentionKvCache)
    → AllLive h cs
    → AllOwners h ds
    → ((x : ℕ) → OwnsAny cs x → x < length h)
    → ((x : ℕ) → OwnsAny cs x → OwnsAny ds x → ⊥)
    → clone_attention_caches m h cs ds ≡ ok (h', cs')
    → IsCheckpoint h h' cs ds cs'
unfolding clone_attention_caches
clone_attention_caches-IsCheckpoint m h [] ds h' cs' live owners inside apart e =
    subst (λ (r : Heap × List AttentionKvCache). IsCheckpoint h r.0 [] ds r.1) (ok-injective e)
      (record {
        reads = tt;
        grown = omega arith;
        kept = λ x b f other. f;
        own = λ x any o. any;
        distinct = tt;
        targets = λ x any. absurd any;
      })
clone_attention_caches-IsCheckpoint m h (c ∷ cs) ds h' cs' (live, lives) owners inside apart e =
    let d = first_or no_attention ds in
    let (owner, disjoint, others) = owners-split h ds owners in
    >>=-elim (clone_or_clear m h c d) _ e λ one f e1.
      >>=-elim (clone_attention_caches m one.0 cs (rest_of ds)) _ e1 λ more g e2.
        let s =
          clone_or_clear-IsStep m h c d one.0 one.1 live owner
            (λ x o o'. apart x (inl o) (first-any ds x o')) f in
        let same : SameAll h one.0 cs =
          λ x b o k. s.kept x b k (λ o'. apart x (inr o) (first-any ds x o')) in
        let rest =
          clone_attention_caches-IsCheckpoint m one.0 cs (rest_of ds) more.0 more.1
            (live_all-later h one.0 cs lives same)
            (owners-later h one.0 (rest_of ds) s.grown others)
            (λ x o. omega (arith, inside x (inr o), s.grown))
            (λ x o o'. apart x (inr o) (rest-any ds x o')) g in
        let targets = targets-cons h one.0 one.1 more.1 ds s.grown s.targets rest.targets in
        subst (λ (r : Heap × List AttentionKvCache). IsCheckpoint h r.0 (c ∷ cs) ds r.1)
          (ok-injective e2)
          (record {
            reads = (
              reads-later h one.0 more.0 c one.1 s.reads (λ x b o k. rest.kept x b k (λ any.
                  elim (s.targets x o) [
                    | inl old ↦ disjoint x old any
                    | inr new ↦ absurd (omega (arith, owners-lt h (rest_of ds) x others any))
                  ])),
              reads_all-earlier h one.0 more.0 cs more.1 lives same rest.reads,
            );
            grown = omega (arith, s.grown, rest.grown);
            kept = λ x b k other.
                rest.kept x b (s.kept x b k (λ o. other (first-any ds x o)))
                  (λ any. other (rest-any ds x any));
            own = λ x o o'. elim (targets x o) [
              | inl old ↦ apart x o' old
              | inr new ↦ absurd (omega (arith, inside x o'))
            ];
            distinct = (
              IsOwner-later one.0 more.0 one.1 rest.grown s.owner,
              (λ x o any. elim (rest.targets x any) [
                | inr new ↦ absurd (omega (arith, s.owner.owned x o))
                | inl given ↦ elim (s.targets x o) [
                  | inl old ↦ disjoint x old given
                  | inr new ↦ absurd (omega (arith, owners-lt h (rest_of ds) x others given))
                ]
              ]),
              rest.distinct,
            );
            targets = targets;
          })
