-- ===== src/Memory/Totals.antt =====
-- Totals over the blocks of src/memory/memory_pool.cc: of their bytes, and of the occurrences of a pointer.
use vicold_hybrid_ai.Base.{
  ℕ, zero, suc, ◌+◌, ◌<◌, ◌≤◌, ◌⊎◌, ◌≡◌, refl, subst, ap, All, false, some, none, List, [], ◌∷◌,
  ◌++◌, concat, get_or, set, replicate, length, ◌==◌, if◌then◌else◌, arith, Bool-cases, inl, inr,
}
use mathlib.Core.Option.{some-injective}
use vicold_hybrid_ai.Memory.Pool.{ActiveBlock, find, erase}

abbrev pub total {ℓ} : {A : Type ℓ} → (A → ℕ) → List A → ℕ
total f [] = 0
total f (x ∷ xs) = f x + total f xs

-- 1 where the pointer is the wanted one.
abbrev pub here : ℕ → ℕ → ℕ
here x ptr = if x == ptr then 1 else 0

pub here_self : (x : ℕ) → here x x ≡ 1
here_self x = ground arith

pub here_le : (x ptr : ℕ) → here x ptr ≤ 1
here_le x ptr = ground arith

pub here-cases : (x ptr : ℕ) → (here x ptr ≡ 0) ⊎ (x ≡ ptr)
here-cases x ptr = elim (Bool-cases (x == ptr)) [
  | inl same ↦ inr (ground arith)
  | inr other ↦ inl (rw other refl)
]

module _ {ℓ} {A : Type ℓ} (f : A → ℕ) where
  pub total-append : (xs ys : List A) → total f (xs ++ ys) ≡ total f xs + total f ys
  total-append [] ys = omega arith
  total-append (x ∷ xs) ys = omega (arith, total-append xs ys)

  pub total-set :
      (xss : List (List A)) (i : ℕ) (v : List A)
      → i < length xss
      → total f (concat (set xss i v)) + total f (get_or xss i [])
        ≡ total f (concat xss) + total f v
  total-set [] i v lt = absurd (omega arith)
  total-set (xs ∷ xss) zero v lt =
      omega (arith, total-append v (concat xss), total-append xs (concat xss))
  total-set (xs ∷ xss) (suc i) v lt = omega (
    arith,
    total-set xss i v (omega arith),
    total-append xs (concat (set xss i v)),
    total-append xs (concat xss),
  )

  -- The first entry of a list is taken out, or one is put at its end.
  pub total-pop :
      (xss : List (List A)) (i : ℕ) (x : A) (xs : List A)
      → i < length xss
      → get_or xss i [] ≡ x ∷ xs
      → total f (concat (set xss i xs)) + f x ≡ total f (concat xss)
  total-pop xss i x xs lt e = omega (arith, total-set xss i xs lt, ap (total f) e)

  pub total-push :
      (xss : List (List A)) (i : ℕ) (x : A)
      → i < length xss
      → total f (concat (set xss i (get_or xss i [] ++ x ∷ []))) ≡ total f (concat xss) + f x
  total-push xss i x lt = omega (
    arith,
    total-set xss i (get_or xss i [] ++ x ∷ []) lt,
    total-append (get_or xss i []) (x ∷ []),
  )

  pub total-replicate : (n : ℕ) → total f (concat (replicate n [])) ≡ 0
  total-replicate zero = refl
  total-replicate (suc n) = total-replicate n

-- What is found has the pointer, and is what `erase` takes out.
pub total-erase :
    (f : ActiveBlock → ℕ) (ptr : ℕ) (bs : List ActiveBlock) (b : ActiveBlock)
    → find ptr bs ≡ some b
    → (b.ptr ≡ ptr) × (total f bs ≡ f b + total f (erase ptr bs))
total-erase f ptr [] b h = absurd (cc)
total-erase f ptr (b ∷ bs) b' h = elim (Bool-cases (ptr == b.ptr)) [
  | inl same ↦
      let e : b ≡ b' =
        some-injective b b' (subst (λ t. (if t then some b else find ptr bs) ≡ some b') same h) in
      subst (λ c. (c.ptr ≡ ptr) × (f b + total f bs ≡ f c + total f (erase ptr (b ∷ bs)))) e
        (ground arith, rw (erase, same) refl)
  | inr other ↦
      let (e, sum) =
        total-erase f ptr bs b'
          (subst (λ t. (if t then some b else find ptr bs) ≡ some b') other h) in
      (e, rw (erase, other) (omega (arith, sum)))
]

-- Where no entry has the pointer, nothing is found and nothing is erased.
pub erase-fresh :
    (ptr : ℕ) (bs : List ActiveBlock)
    → total (λ b. here ptr b.ptr) bs ≡ 0
    → (erase ptr bs ≡ bs) × (find ptr bs ≡ none)
erase-fresh ptr [] h = (refl, refl)
erase-fresh ptr (b ∷ bs) h =
    let other : (ptr == b.ptr) ≡ false = ground arith in
    let (e, n) = erase-fresh ptr bs (ground arith) in
    (rw (erase, other, e) refl, rw (find, other, n) refl)

module _ {ℓ κ} {A : Type ℓ} where
  -- What holds of the entries, each at its index, holds after a write of entries for which it holds.
  pub All-set :
      (P : ℕ → A → Type κ) (xss : List (List A)) (i : ℕ) (v : List A)
      → ((j : ℕ) → All (P j) (get_or xss j []))
      → All (P i) v
      → (j : ℕ) → All (P j) (get_or (set xss i v) j [])
  All-set P [] i v all new j = tt
  All-set P (xs ∷ xss) zero v all new zero = new
  All-set P (xs ∷ xss) zero v all new (suc j) = all (suc j)
  All-set P (xs ∷ xss) (suc i) v all new zero = all 0
  All-set P (xs ∷ xss) (suc i) v all new (suc j) =
      All-set (λ k. P (suc k)) xss i v (λ k. all (suc k)) new j

  pub All-replicate :
      (P : ℕ → A → Type κ) (n : ℕ) (j : ℕ) → All (P j) (get_or (replicate n []) j [])
  All-replicate P zero j = tt
  All-replicate P (suc n) zero = tt
  All-replicate P (suc n) (suc j) = All-replicate (λ k. P (suc k)) n j

pub length-set {ℓ} : {A : Type ℓ} (xss : List A) (i : ℕ) (v : A) → length (set xss i v) ≡ length xss
length-set [] i v = refl
length-set (x ∷ xss) zero v = refl
length-set (x ∷ xss) (suc i) v = ap suc (length-set xss i v)

pub All-erase {κ} :
    (P : ActiveBlock → Type κ) (ptr : ℕ) (bs : List ActiveBlock) → All P bs → All P (erase ptr bs)
All-erase P ptr [] _ = tt
All-erase P ptr (b ∷ bs) (q, qs) = elim (Bool-cases (ptr == b.ptr)) [
  | inl same ↦ rw (erase, same) qs
  | inr other ↦ rw (erase, other) (q, All-erase P ptr bs qs)
]

pub find-All {κ} :
    (P : ActiveBlock → Type κ) (ptr : ℕ) (bs : List ActiveBlock) (b : ActiveBlock)
    → All P bs
    → find ptr bs ≡ some b
    → P b
find-All P ptr [] b _ h = absurd (cc)
find-All P ptr (b ∷ bs) b' (q, qs) h = elim (Bool-cases (ptr == b.ptr)) [
  | inl same ↦
      subst P
        (some-injective b b' (subst (λ t. (if t then some b else find ptr bs) ≡ some b') same h)) q
  | inr other ↦
      find-All P ptr bs b' qs (subst (λ t. (if t then some b else find ptr bs) ≡ some b') other h)
]
