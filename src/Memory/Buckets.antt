-- ===== src/Memory/Buckets.antt =====
-- src/memory/memory_pool.cc: the table of bucket sizes that the constructor of `MemoryPool` builds,
-- and `bucket_index`.
use vicold_hybrid_ai.Base.{
  size_mod, ℕ, zero, suc, ◌+◌, ◌-◌, ◌*◌, ◌%◌, ◌^◌, ◌≤◌, ◌<◌, max, ◌≡◌, refl, true, false, ◌||◌,
  Option, none, some, List, [], ◌∷◌, ◌++◌, length, get_or, is_empty, ltb, leb, if◌then◌else◌, ◌>>=◌,
  arith, Bool-cases, inl, inr, All, leb→le,
}

abbrev pub back : List ℕ → ℕ
back [] = 0
back (x ∷ []) = x
back (x ∷ y ∷ ys) = back (y ∷ ys)

unfoldable pub close_table : ℕ → List ℕ → List ℕ
close_table max_bucket sizes =
    if is_empty sizes || ltb (back sizes) max_bucket then sizes ++ max_bucket ∷ [] else sizes

-- `grow size` is `static_cast<size_t>(std::ceil(size * bucket_growth))`, behind the line that sets a
-- growth below 1.01 to 2.
module _ (grow : ℕ → ℕ) (max_bucket : ℕ) where
  -- "Ensure strict growth to avoid an infinite loop"
  unfoldable pub next_size : ℕ → ℕ
  next_size size = if leb (grow size) size then (size * 2) % size_mod else grow size

  -- The `while` loop. `none` means that the fuel ran out.
  unfoldable pub build_loop : ℕ → ℕ → Option (List ℕ)
  build_loop zero size = none
  build_loop (suc fuel) size = elim (leb size max_bucket) [
    | true ↦ build_loop fuel (next_size size) >>= λ rest. some (size ∷ rest)
    | false ↦ some []
  ]

  unfoldable pub build_buckets : ℕ → ℕ → Option (List ℕ)
  unfolding build_loop close_table
  build_buckets fuel min_bucket =
      build_loop fuel min_bucket >>= λ sizes. some (close_table max_bucket sizes)

-- `std::lower_bound` on the sorted table: the index of the first size that is at least the wanted one,
-- or the length of the table.
unfoldable pub lower_bound : List ℕ → ℕ → ℕ
lower_bound [] wanted = 0
lower_bound (x ∷ xs) wanted = if leb wanted x then 0 else suc (lower_bound xs wanted)

unfoldable pub bucket_index : List ℕ → ℕ → ℕ → ℕ
unfolding lower_bound
bucket_index sizes min_bucket size =
    let at = lower_bound sizes (max size min_bucket) in
    if leb (length sizes) at then length sizes - 1 else at

-- Each size is above `low`, and above the one before it.
abbrev pub IsRising : ℕ → List ℕ → Type 0
IsRising low [] = Unit
IsRising low (x ∷ xs) = (low < x) × IsRising x xs

module _ (grow : ℕ → ℕ) (max_bucket : ℕ) (small : max_bucket < 2 ^ 63) where
  next_size_grows :
      (size : ℕ) → 0 < size → size ≤ max_bucket → size < next_size grow max_bucket size
  unfolding next_size
  next_size_grows size pos le = ground arith

  -- The loop returns, with sizes that rise and stay within the largest bucket.
  build_loop_lem :
      (fuel size low : ℕ)
      → low < size
      → max_bucket + 1 - size < fuel
      → (sizes : List ℕ) × (build_loop grow max_bucket fuel size ≡ some sizes)
        × IsRising low sizes
        × All (λ x. x ≤ max_bucket) sizes
  unfolding build_loop
  build_loop_lem zero size low lt enough = absurd (omega arith)
  build_loop_lem (suc fuel) size low lt enough = elim (Bool-cases (leb size max_bucket)) [
    | inl more ↦
        let grows = next_size_grows size (omega arith) (ground arith) in
        let (rest, e, up, le) =
          build_loop_lem fuel (next_size grow max_bucket size) size grows (ground arith) in
        (size ∷ rest, rw (build_loop, more, e), (lt, up), (leb→le size max_bucket more, le))
    | inr done ↦ ([], rw (build_loop, done), tt, tt)
  ]

-- Where the growth of 0 is 0, a smallest bucket of 0 keeps the loop from ending, whatever the fuel.
pub build_loop-zero :
    (grow : ℕ → ℕ) (max_bucket fuel : ℕ) → grow 0 ≡ 0 → build_loop grow max_bucket fuel 0 ≡ none
unfolding build_loop next_size
build_loop-zero grow max_bucket zero stuck = refl
build_loop-zero grow max_bucket (suc fuel) stuck =
    let within : leb 0 max_bucket ≡ true = ground arith in
    let stays : next_size grow max_bucket 0 ≡ 0 = rw (next_size, stuck) refl in
    rw (build_loop, within, stays, build_loop-zero grow max_bucket fuel stuck) refl

back-append : (xs : List ℕ) (y : ℕ) → back (xs ++ y ∷ []) ≡ y
back-append [] y = refl
back-append (x ∷ []) y = refl
back-append (x ∷ x' ∷ xs) y = back-append (x' ∷ xs) y

back_above : (low x : ℕ) (xs : List ℕ) → IsRising low (x ∷ xs) → low < back (x ∷ xs)
back_above low x [] (p, _) = p
back_above low x (y ∷ ys) (p, up) = omega (arith, back_above x y ys up)

IsRising-append :
    (low : ℕ) (xs : List ℕ) (y : ℕ)
    → low < y
    → IsRising low xs
    → back xs < y
    → IsRising low (xs ++ y ∷ [])
IsRising-append low [] y pos _ lt = (pos, tt)
IsRising-append low (x ∷ []) y pos (p, _) lt = (p, (lt, tt))
IsRising-append low (x ∷ x' ∷ xs) y pos (p, (q, up)) lt =
    (p, IsRising-append x (x' ∷ xs) y (omega (arith, back_above x x' xs (q, up))) (q, up) lt)

back_within : (xs : List ℕ) (top : ℕ) → All (λ x. x ≤ top) xs → back xs ≤ top
back_within [] top _ = omega arith
back_within (x ∷ []) top (p, _) = p
back_within (x ∷ y ∷ ys) top (_, ps) = back_within (y ∷ ys) top ps

-- What the pool relies on in its table of sizes.
abbrev pub IsTable : ℕ → List ℕ → Type 0
IsTable max_bucket sizes = IsRising 0 sizes × (back sizes ≡ max_bucket) × (0 < length sizes)

close_table-IsTable :
    (max_bucket : ℕ) (sizes : List ℕ)
    → 0 < max_bucket
    → IsRising 0 sizes
    → All (λ x. x ≤ max_bucket) sizes
    → IsTable max_bucket (close_table max_bucket sizes)
unfolding close_table
close_table-IsTable max_bucket [] pos up le = ((pos, tt), refl, omega arith)
close_table-IsTable max_bucket (x ∷ xs) pos up le =
    elim (Bool-cases (ltb (back (x ∷ xs)) max_bucket)) [
      | inl below ↦ rw below (
        IsRising-append 0 (x ∷ xs) max_bucket pos up (ground arith),
        back-append (x ∷ xs) max_bucket,
        omega arith,
      )
      | inr above ↦ rw above (up, ground (arith, back_within (x ∷ xs) max_bucket le), omega arith)
    ]

-- Where the smallest and the largest bucket are positive and the largest is below 2 ^ 63, the constructor
-- ends, and its table is not empty, rises, and ends with the largest bucket size.
pub build_buckets-IsTable :
    (grow : ℕ → ℕ) (max_bucket fuel min_bucket : ℕ)
    → max_bucket < 2 ^ 63
    → 0 < max_bucket
    → 0 < min_bucket
    → max_bucket + 1 - min_bucket < fuel
    → (sizes : List ℕ) × (build_buckets grow max_bucket fuel min_bucket ≡ some sizes)
      × IsTable max_bucket sizes
unfolding build_buckets
build_buckets-IsTable grow max_bucket fuel min_bucket small pos pos' enough =
    let (sizes, e, up, le) = build_loop_lem grow max_bucket small fuel min_bucket 0 pos' enough in
    (
      close_table max_bucket sizes,
      rw (build_buckets, e) refl,
      close_table-IsTable max_bucket sizes pos up le,
    )

lower_bound-below :
    (xs : List ℕ) (wanted i : ℕ) → i < lower_bound xs wanted → get_or xs i 0 < wanted
unfolding lower_bound
lower_bound-below [] wanted i lt = absurd (omega arith)
lower_bound-below (x ∷ xs) wanted zero lt = ground arith
lower_bound-below (x ∷ xs) wanted (suc i) lt = lower_bound-below xs wanted i (ground arith)

lower_bound-at :
    (xs : List ℕ) (wanted : ℕ)
    → lower_bound xs wanted < length xs
    → wanted ≤ get_or xs (lower_bound xs wanted) 0
unfolding lower_bound
lower_bound-at [] wanted lt = absurd (omega arith)
lower_bound-at (x ∷ xs) wanted lt = elim (Bool-cases (leb wanted x)) [
  | inl fits ↦ rw (lower_bound, fits) (leb→le wanted x fits)
  | inr over ↦ rw (lower_bound, over) (lower_bound-at xs wanted (ground arith))
]

lower_bound-found :
    (xs : List ℕ) (wanted : ℕ)
    → 0 < length xs
    → wanted ≤ back xs
    → lower_bound xs wanted < length xs
unfolding lower_bound
lower_bound-found [] wanted pos le = pos
lower_bound-found (x ∷ []) wanted pos le = ground arith
lower_bound-found (x ∷ y ∷ ys) wanted pos le = elim (Bool-cases (leb wanted x)) [
  | inl fits ↦ rw (lower_bound, fits) (omega arith)
  | inr over ↦
      let rest = lower_bound-found (y ∷ ys) wanted (omega arith) le in
      rw (lower_bound, over) (omega (arith, rest))
]

get_or-last : (x : ℕ) (xs : List ℕ) → get_or (x ∷ xs) (length xs) 0 ≡ back (x ∷ xs)
get_or-last x [] = refl
get_or-last x (y ∷ ys) = get_or-last y ys

get_or-back : (xs : List ℕ) → get_or xs (length xs - 1) 0 ≡ back xs
get_or-back [] = refl
get_or-back (x ∷ xs) =
    let e : suc (length xs) - 1 ≡ length xs = omega arith in rw e (get_or-last x xs)

-- For a size that the pool handles, the chosen bucket exists and holds it, and no smaller bucket
-- holds it together with the smallest bucket size.
pub bucket_index_fits :
    (sizes : List ℕ) (max_bucket min_bucket size : ℕ)
    → IsTable max_bucket sizes
    → size ≤ max_bucket
    → (bucket_index sizes min_bucket size < length sizes)
      × (size ≤ get_or sizes (bucket_index sizes min_bucket size) 0)
      × ((i : ℕ) → i < bucket_index sizes min_bucket size → get_or sizes i 0 < max size min_bucket)
unfolding bucket_index
bucket_index_fits sizes max_bucket min_bucket size (up, top, pos) le =
    elim (Bool-cases (leb (length sizes) (lower_bound sizes (max size min_bucket)))) [
      | inl past ↦
          rw (bucket_index, past)
            (
              omega arith,
              rw (get_or-back sizes) (omega arith),
              λ i lt. lower_bound-below sizes (max size min_bucket) i (ground arith),
            )
      | inr inside ↦
          let fits = lower_bound-at sizes (max size min_bucket) (ground arith) in
          rw (bucket_index, inside)
            (
              ground arith,
              omega (arith, fits),
              λ i lt. lower_bound-below sizes (max size min_bucket) i lt,
            )
    ]
