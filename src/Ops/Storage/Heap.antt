-- ===== src/Ops/Storage/Heap.antt =====
-- Heaps of buffers under allocation and copies.
use vicold_hybrid_ai.Base.{
  ℕ, zero, suc, ◌<◌, ◌≤◌, ◌≡◌, ◌≢◌, refl, ap, Option, none, some, List, [], ◌∷◌, ◌++◌, length,
  get_elem?, take, drop, get_elem?-set_self, get_elem?-set_ne, arith, ◌⊎◌, inl, inr, replicate,
  length-replicate, length-set, length-append, Bool, true, false,
}
use vicold_hybrid_ai.Core.{ok, out_of_memory, require-elim, ok-injective}
use vicold_hybrid_ai.Ops.Storage.{Heap, Buffer, Tensor, Machine, memcpy, overwrite, target, nbytes}

module _ {ℓ} {A : Type ℓ} where
  pub get_elem?-lt : (xs : List A) (i : ℕ) {x : A} → get_elem? xs i ≡ some x → i < length xs
  get_elem?-lt [] i h = absurd (cc)
  get_elem?-lt (y ∷ xs) zero h = omega arith
  get_elem?-lt (y ∷ xs) (suc i) h = omega (arith, get_elem?-lt xs i h)

  pub get_elem?-append :
      (xs ys : List A) (i : ℕ) {x : A} → get_elem? xs i ≡ some x → get_elem? (xs ++ ys) i ≡ some x
  get_elem?-append [] ys i h = absurd (cc)
  get_elem?-append (y ∷ xs) ys zero h = h
  get_elem?-append (y ∷ xs) ys (suc i) h = get_elem?-append xs ys i h

  pub get_elem?-last : (xs : List A) (x : A) → get_elem? (xs ++ x ∷ []) (length xs) ≡ some x
  get_elem?-last [] x = refl
  get_elem?-last (y ∷ xs) x = get_elem?-last xs x

  pub take-take_append :
      (n : ℕ) (xs ys : List A) → n ≤ length xs → take n (take n xs ++ ys) ≡ take n xs
  take-take_append zero xs ys le = refl
  take-take_append (suc n) [] ys le = absurd (omega arith)
  take-take_append (suc n) (x ∷ xs) ys le = ap (◌∷◌ x) (take-take_append n xs ys (omega arith))

  pub le-length-take_append :
      (n : ℕ) (xs ys : List A) → n ≤ length xs → n ≤ length (take n xs ++ ys)
  le-length-take_append zero xs ys le = omega arith
  le-length-take_append (suc n) [] ys le = absurd (omega arith)
  le-length-take_append (suc n) (x ∷ xs) ys le =
      omega (arith, le-length-take_append n xs ys (omega arith))

overwrite-other :
    (h : Heap) (a n x : ℕ) (old from : Option Buffer)
    → x ≢ a
    → get_elem? (overwrite h a n old from) x ≡ get_elem? h x
overwrite-other h a n x none from ne = refl
overwrite-other h a n x (some b) none ne = refl
overwrite-other h a n x (some b) (some from) ne =
    get_elem?-set_ne h a x (record b { bytes = take n from.bytes ++ drop n b.bytes }) ne

-- A copy writes its target and nothing else.
pub memcpy-other : (h : Heap) (a p n x : ℕ) → x ≢ a → get_elem? (memcpy h a p n) x ≡ get_elem? h x
unfolding memcpy
memcpy-other h a p n x ne = overwrite-other h a n x (get_elem? h a) (get_elem? h p) ne

length-overwrite :
    (h : Heap) (a n : ℕ) (old from : Option Buffer) → length (overwrite h a n old from) ≡ length h
length-overwrite h a n none from = refl
length-overwrite h a n (some b) none = refl
length-overwrite h a n (some b) (some from) =
    length-set h a (record b { bytes = take n from.bytes ++ drop n b.bytes })

pub length-memcpy : (h : Heap) (a p n : ℕ) → length (memcpy h a p n) ≡ length h
unfolding memcpy
length-memcpy h a p n = length-overwrite h a n (get_elem? h a) (get_elem? h p)

pub memcpy_self :
    (h : Heap) (a p n : ℕ) (b from : Buffer)
    → get_elem? h a ≡ some b
    → get_elem? h p ≡ some from
    → get_elem? (memcpy h a p n) a ≡ some (record b { bytes = take n from.bytes ++ drop n b.bytes })
unfolding memcpy
memcpy_self h a p n b from e f =
    rw (e, f)
      (get_elem?-set_self h a (record b { bytes = take n from.bytes ++ drop n b.bytes })
        (get_elem?-lt h a e))

-- Every buffer of the one heap is in the other, as it is.
abbrev pub Extends : Heap → Heap → Type 0
Extends h h' = (x : ℕ) (b : Buffer) → get_elem? h x ≡ some b → get_elem? h' x ≡ some b

-- The address of the copy is that of the destination, or it is new.
abbrev pub IsTarget : Heap → Option ℕ → ℕ → Type 0
IsTarget h old a = (old ≡ some a) ⊎ (length h ≤ a)

pub target-IsTarget :
    (m : Machine) (h : Heap) (reuse : Bool) (s : Tensor) (from : Buffer) (old : Option ℕ)
    (h' : Heap) (a : ℕ)
    → (reuse ≡ true
        → (q : ℕ) → old ≡ some q
        → (b : Buffer) × (get_elem? h q ≡ some b) × (nbytes s ≤ length b.bytes))
    → target m h reuse s from old ≡ ok (h', a)
    → Extends h h'
      × (length h ≤ length h')
      × IsTarget h old a
      × ((b : Buffer) × (get_elem? h' a ≡ some b) × (nbytes s ≤ length b.bytes))
unfolding target
target-IsTarget m h true s from none h' a big e = absurd (cc)
target-IsTarget m h true s from (some q) h' a big e =
    let same = ok-injective e in
    let heap : h ≡ h' = ap (λ r. r.0) same in
    let address : q ≡ a = ap (λ r. r.1) same in
    rw (← heap, ← address) ((λ x b f. f), omega arith, inl refl, big refl q refl)
target-IsTarget m h false s from old h' a big e =
    require-elim (m.create_buffer s.device (nbytes s) from.memory_type) out_of_memory _ e λ _ e1.
      let new : Buffer = record {
        memory_type = from.memory_type;
        bytes = replicate (nbytes s) 0;
      } in
      let same = ok-injective e1 in
      let heap : h ++ new ∷ [] ≡ h' = ap (λ r. r.0) same in
      let address : length h ≡ a = ap (λ r. r.1) same in
      rw (← heap, ← address)
        (
          (λ x b f. get_elem?-append h (new ∷ []) x f),
          omega (arith, length-append h (new ∷ [])),
          inr (omega arith),
          (new, get_elem?-last h new, omega (arith, length-replicate {A = ℕ} (nbytes s) 0)),
        )
