-- ===== src/Ops/Storage/Copies.antt =====
-- What the copy of two tensors is.
use vicold_hybrid_ai.Base.{
  ℕ, ◌≤◌, ◌<◌, ◌≡◌, ◌≢◌, refl, sym, ap, ap₂, ◌∙◌, subst, Option, none, some, length, get_elem?,
  take, drop, ◌++◌, true, ◌&&◌, leb→le, both, inl, inr, arith,
}
use vicold_hybrid_ai.Core.{ok, ok-injective, >>=-elim}
use vicold_hybrid_ai.Ops.Storage.{
  Heap, Buffer, Tensor, Machine, memcpy, target, nbytes, contents, fits, fits_buffer,
  same_memory_type, buffer_at, or_invalid, copy_pair,
}
use vicold_hybrid_ai.Ops.Storage.Heap.{
  get_elem?-lt, take-take_append, le-length-take_append, memcpy-other, memcpy_self, length-memcpy,
  Extends, IsTarget, target-IsTarget,
}

-- A tensor with a buffer that is large enough.
pub record IsStored (h : Heap) (t : Tensor) (a : ℕ) : Type 0 where
  pub owner : t.buffer ≡ some a
  pub buffer : Buffer
  pub found : get_elem? h a ≡ some buffer
  pub large : nbytes t ≤ length buffer.bytes

-- The copies have the form and the bytes of their sources, in buffers of their own.
pub record IsPairCopy (h h' : Heap) (p q : ℕ) (s t d e s' t' : Tensor) : Type 0 where
  pub a : ℕ
  pub b : ℕ
  pub first : s' ≡ record s { buffer = some a }
  pub second : t' ≡ record t { buffer = some b }
  pub first_target : IsTarget h d.buffer a
  pub second_target : IsTarget h e.buffer b
  pub first_stored : IsStored h' s' a
  pub second_stored : IsStored h' t' b
  pub first_bytes : contents h' s' ≡ contents h s
  pub second_bytes : contents h' t' ≡ contents h t
  pub apart : a ≢ b
  pub grown : length h ≤ length h'
  pub kept : (x : ℕ) (c : Buffer) → get_elem? h x ≡ some c → x ≢ a → x ≢ b → get_elem? h' x ≡ some c

-- The buffers of the destination are not those of the source.
pub record IsApart (h : Heap) (p q : ℕ) (d e : Tensor) : Type 0 where
  pub first : d.buffer ≢ some p
  pub crossed : d.buffer ≢ some q
  pub crossed' : e.buffer ≢ some p
  pub second : e.buffer ≢ some q
  pub each : (x : ℕ) → d.buffer ≡ some x → e.buffer ≢ some x
  pub owned : (x : ℕ) → e.buffer ≡ some x → x < length h

fits_buffer-large :
    (s : Tensor) (from old : Option Buffer)
    → fits_buffer s from old ≡ true
    → (b : Buffer) × (old ≡ some b) × (nbytes s ≤ length b.bytes)
fits_buffer-large s none old f = absurd (cc)
fits_buffer-large s (some from) none f = absurd (cc)
fits_buffer-large s (some from) (some b) f = (
  b,
  refl,
  leb→le (nbytes s) (length b.bytes) (both (same_memory_type b.memory_type from.memory_type) _ f).1,
)

fits-large :
    (h : Heap) (s d : Tensor) (q : ℕ)
    → fits h s d ≡ true
    → d.buffer ≡ some q
    → (b : Buffer) × (get_elem? h q ≡ some b) × (nbytes s ≤ length b.bytes)
fits-large h s d q f e =
    let (b, found, large) =
      fits_buffer-large s (buffer_at h s.buffer) (buffer_at h d.buffer)
        (both _ (fits_buffer s (buffer_at h s.buffer) (buffer_at h d.buffer)) f).1 in
    (b, subst (λ o. buffer_at h o ≡ some b) e found, large)

pub stored-contents :
    (h : Heap) (t : Tensor) (a : ℕ) (b : Buffer)
    → t.buffer ≡ some a
    → get_elem? h a ≡ some b
    → contents h t ≡ some (take (nbytes t) b.bytes)
stored-contents h t a b e f = rw (e, f) refl

target-ne :
    (h : Heap) (old : Option ℕ) (a x : ℕ) (c : Buffer)
    → IsTarget h old a
    → get_elem? h x ≡ some c
    → old ≢ some x
    → x ≢ a
target-ne h old a x c (inl same) f ne = λ e. ne (same ∙ ap some (sym e))
target-ne h old a x c (inr new) f ne = λ e. absurd (omega (arith, get_elem?-lt h x f))

-- Two copies one after the other, none of whose targets is a source or the other target.
module _ (h : Heap) (a b p q n k : ℕ) (to to' from from' : Buffer) (ea : get_elem? h a ≡ some to)
    (eb : get_elem? h b ≡ some to') (ep : get_elem? h p ≡ some from)
    (eq : get_elem? h q ≡ some from') (ab : a ≢ b) (qa : q ≢ a) where
  abbrev after : Heap
  after = memcpy (memcpy h a p n) b q k

  after-first :
      get_elem? after a ≡ some (record to { bytes = take n from.bytes ++ drop n to.bytes })
  after-first = memcpy-other (memcpy h a p n) b q k a ab ∙ memcpy_self h a p n to from ea ep

  after-second :
      get_elem? after b ≡ some (record to' { bytes = take k from'.bytes ++ drop k to'.bytes })
  after-second =
      memcpy_self (memcpy h a p n) b q k to' from' (memcpy-other h a p n b (λ e. ab (sym e)) ∙ eb)
        (memcpy-other h a p n q qa ∙ eq)

  after-other : (x : ℕ) → x ≢ a → x ≢ b → get_elem? after x ≡ get_elem? h x
  after-other x na nb = memcpy-other (memcpy h a p n) b q k x nb ∙ memcpy-other h a p n x na

target-apart :
    (h h1 : Heap) (p q : ℕ) (d e : Tensor) (a b : ℕ) (to : Buffer)
    → IsApart h p q d e
    → length h ≤ length h1
    → get_elem? h1 a ≡ some to
    → IsTarget h d.buffer a
    → IsTarget h1 e.buffer b
    → a ≢ b
target-apart h h1 p q d e a b to apart le f (inl da) (inl eb) =
    λ same. apart.each a da (eb ∙ ap some (sym same))
target-apart h h1 p q d e a b to apart le f (inr new) (inl eb) =
    λ same. absurd (omega (arith, apart.owned b eb))
target-apart h h1 p q d e a b to apart le f t (inr new) =
    λ same. absurd (omega (arith, get_elem?-lt h1 a f))

IsTarget-earlier :
    (h h1 : Heap) (old : Option ℕ) (b : ℕ)
    → length h ≤ length h1
    → IsTarget h1 old b
    → IsTarget h old b
IsTarget-earlier h h1 old b le (inl e) = inl e
IsTarget-earlier h h1 old b le (inr new) = inr (omega arith)

-- Where the two targets have been found, the copies are as they should be.
copied-IsPairCopy :
    (h h1 h2 : Heap) (p q : ℕ) (s t d e : Tensor) (a b : ℕ) (to to' : Buffer) (ss : IsStored h s p)
    (ts : IsStored h t q)
    → IsApart h p q d e
    → Extends h h1
    → length h ≤ length h1
    → Extends h1 h2
    → length h1 ≤ length h2
    → IsTarget h d.buffer a
    → IsTarget h1 e.buffer b
    → get_elem? h1 a ≡ some to
    → get_elem? h2 b ≡ some to'
    → nbytes s ≤ length to.bytes
    → nbytes t ≤ length to'.bytes
    → IsPairCopy h
        (memcpy (memcpy h2 a p (nbytes s)) b q (nbytes t))
        p
        q
        s
        t
        d
        e
        (record s { buffer = some a })
        (record t { buffer = some b })
copied-IsPairCopy h h1 h2 p q s t d e a b to to' ss ts apart x1 le x2 le2 ta tb ea eb la lb =
    let p1 = x1 p ss.buffer ss.found in
    let q1 = x1 q ts.buffer ts.found in
    let ab = target-apart h h1 p q d e a b to apart le ea ta tb in
    let qa = target-ne h d.buffer a q ts.buffer ta ts.found apart.crossed in
    let here =
      after-first h2 a b p q (nbytes s) (nbytes t) to to' ss.buffer ts.buffer (x2 a to ea) eb
        (x2 p ss.buffer p1) (x2 q ts.buffer q1) ab qa in
    let there =
      after-second h2 a b p q (nbytes s) (nbytes t) to to' ss.buffer ts.buffer (x2 a to ea) eb
        (x2 p ss.buffer p1) (x2 q ts.buffer q1) ab qa in
    record {
      a = a;
      b = b;
      first = refl;
      second = refl;
      first_target = ta;
      second_target = IsTarget-earlier h h1 e.buffer b le tb;
      first_stored = record {
        owner = refl;
        buffer = _;
        found = here;
        large =
            le-length-take_append (nbytes s) ss.buffer.bytes (drop (nbytes s) to.bytes) ss.large;
      };
      second_stored = record {
        owner = refl;
        buffer = _;
        found = there;
        large =
            le-length-take_append (nbytes t) ts.buffer.bytes (drop (nbytes t) to'.bytes) ts.large;
      };
      first_bytes =
          stored-contents _ (record s { buffer = some a }) a _ refl here
          ∙ ap some
              (take-take_append (nbytes s) ss.buffer.bytes (drop (nbytes s) to.bytes) ss.large)
          ∙ sym (stored-contents h s p ss.buffer ss.owner ss.found);
      second_bytes =
          stored-contents _ (record t { buffer = some b }) b _ refl there
          ∙ ap some
              (take-take_append (nbytes t) ts.buffer.bytes (drop (nbytes t) to'.bytes) ts.large)
          ∙ sym (stored-contents h t q ts.buffer ts.owner ts.found);
      apart = ab;
      grown = omega (
        arith,
        length-memcpy h2 a p (nbytes s),
        length-memcpy (memcpy h2 a p (nbytes s)) b q (nbytes t),
      );
      kept = λ x c f na nb.
          after-other h2 a b p q (nbytes s) (nbytes t) to to' ss.buffer ts.buffer (x2 a to ea) eb
            (x2 p ss.buffer p1) (x2 q ts.buffer q1) ab qa x na nb
          ∙ x2 x c (x1 x c f);
    }

pub copy_pair-IsPairCopy :
    (m : Machine) (h : Heap) (p q : ℕ) (s t d e : Tensor) (h' : Heap) (s' t' : Tensor)
    → IsStored h s p
    → IsStored h t q
    → IsApart h p q d e
    → copy_pair m h (p, q) (s, t) (d, e) ≡ ok (h', (s', t'))
    → IsPairCopy h h' p q s t d e s' t'
unfolding copy_pair
copy_pair-IsPairCopy m h p q s t d e h' s' t' ss ts apart r =
    >>=-elim (or_invalid (get_elem? h p)) _ r λ from f1 r1.
      >>=-elim (or_invalid (get_elem? h q)) _ r1 λ from' f2 r2.
        let reuse = fits h s d && fits h t e in
        >>=-elim (target m h reuse s from d.buffer) _ r2 λ first g1 r3.
          >>=-elim (target m first.0 reuse t from' e.buffer) _ r3 λ second g2 r4.
            >>=-elim (m.memcpy_d2d s.device (nbytes s)) _ r4 λ _ _ r5.
              >>=-elim (m.memcpy_d2d s.device (nbytes t)) _ r5 λ _ _ r6.
                >>=-elim (m.synchronize s.device) _ r6 λ _ _ r7.
                  let (x1, le, ta, (to, ea, la)) =
                    target-IsTarget m h reuse s from d.buffer first.0 first.1
                      (λ on z o. fits-large h s d z (both (fits h s d) (fits h t e) on).0 o) g1 in
                  let (x2, le2, tb, (to', eb, lb)) =
                    target-IsTarget m first.0 reuse t from' e.buffer second.0 second.1
                      (λ on z o.
                        let (c, f, l) =
                          fits-large h t e z (both (fits h s d) (fits h t e) on).1 o in
                        (c, x1 z c f, l))
                      g2 in
                  let copy =
                    copied-IsPairCopy h first.0 second.0 p q s t d e first.1 second.1 to to' ss ts
                      apart x1 le x2 le2 ta tb ea eb la lb in
                  subst (λ (r : Heap × (Tensor × Tensor)). IsPairCopy h r.0 p q s t d e r.1.0 r.1.1)
                    (ok-injective r7) copy

or_invalid-owner :
    (h : Heap) (t : Tensor) (p p' : ℕ) → IsStored h t p → or_invalid t.buffer ≡ ok p' → p' ≡ p
or_invalid-owner h t p p' s e = sym (ok-injective (subst (λ o. or_invalid o ≡ ok p') s.owner e))

-- As the caches call it, with the addresses that they read from their tensors.
pub copy_owned-IsPairCopy :
    (m : Machine) (h : Heap) (p q p' q' : ℕ) (s t d e : Tensor) (r : Heap × (Tensor × Tensor))
    → IsStored h s p
    → IsStored h t q
    → IsApart h p q d e
    → or_invalid s.buffer ≡ ok p'
    → or_invalid t.buffer ≡ ok q'
    → copy_pair m h (p', q') (s, t) (d, e) ≡ ok r
    → IsPairCopy h r.0 p q s t d e r.1.0 r.1.1
copy_owned-IsPairCopy m h p q p' q' s t d e r ss ts apart ep eq g =
    copy_pair-IsPairCopy m h p q s t d e r.0 r.1.0 r.1.1 ss ts apart (
      subst (λ (x : ℕ × ℕ). copy_pair m h x (s, t) (d, e) ≡ ok r)
        (ap₂ (λ x y. (x, y)) (or_invalid-owner h s p p' ss ep) (or_invalid-owner h t q q' ts eq)) g)
