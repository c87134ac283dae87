-- ===== src/Generator/Argmax/First.antt =====
-- The argmax on the host is the first maximum of its row.
use vicold_hybrid_ai.Base.{
  ℕ, zero, suc, ◌+◌, ◌<◌, ◌≡◌, refl, ◌⊎◌, ◌∙◌, inl, inr, Bool, true, false, some, List, [], ◌∷◌,
  get_elem?, Bool-cases, arith, subst,
}
use mathlib.Core.Option.{some-injective}
use vicold_hybrid_ai.Generator.Argmax.{scan}

-- No value is a NaN: the test `>` is a strict order, in which every value is on one side of another.
pub record IsOrder {Float : Type 0} (greater : Float → Float → Bool) : Type 0 where
  pub transitive : (a b c : Float) → greater a b ≡ true → greater b c ≡ true → greater a c ≡ true
  pub irreflexive : (a : Float) → greater a a ≡ false
  pub divided : (a b c : Float) → greater a b ≡ true → greater c b ≡ false → greater a c ≡ true

module _ (Float : Type 0) (greater : Float → Float → Bool) (lowest : Float) where
  -- The column of the first of the greatest values.
  pub record IsFirst (vs : List Float) (i : ℕ) (value : Float) : Type 0 where
    pub found : get_elem? vs i ≡ some value
    pub greatest : (j : ℕ) (w : Float) → get_elem? vs j ≡ some w → greater w value ≡ false
    pub earliest : (j : ℕ) (w : Float) → j < i → get_elem? vs j ≡ some w → greater value w ≡ true

  -- Every row has a value above negative infinity.
  abbrev pub HasFinite : List Float → Type 0
  HasFinite vs = (j : ℕ) × (w : Float) × (get_elem? vs j ≡ some w) × (greater w lowest ≡ true)

  abbrev NoneAbove : List Float → Float → Type 0
  NoneAbove vs best = (j : ℕ) (w : Float) → get_elem? vs j ≡ some w → greater w best ≡ false

  abbrev Above : List Float → Float → ℕ → ℕ → Type 0
  Above vs best id r =
      (k : ℕ) × (r ≡ id + k) × (top : Float) × IsFirst vs k top × (greater top best ≡ true)

  module _ (order : IsOrder greater) where
    not_greater : (a b : Float) → greater a b ≡ true → greater b a ≡ false
    not_greater a b h = elim (Bool-cases (greater b a)) [
      | inl back ↦ absurd (clash (order.transitive a b a h back) (order.irreflexive a))
      | inr not_back ↦ not_back
    ]
      where
        clash : greater a a ≡ true → greater a a ≡ false → ⊥
        clash p q = cc

    not_above : (a b c : Float) → greater a b ≡ true → greater c b ≡ false → greater c a ≡ false
    not_above a b c h n = not_greater a c (order.divided a b c h n)

    head-greatest :
        (v : Float) (vs : List Float) (top : Float)
        → greater v top ≡ false
        → ((j : ℕ) (w : Float) → get_elem? vs j ≡ some w → greater w top ≡ false)
        → (j : ℕ) (w : Float) → get_elem? (v ∷ vs) j ≡ some w
        → greater w top ≡ false
    head-greatest v vs top h rest zero w e =
        subst (λ x. greater x top ≡ false) (some-injective v w e) h
    head-greatest v vs top h rest (suc j) w e = rest j w e

    head-earliest :
        (v : Float) (vs : List Float) (top : Float) (k : ℕ)
        → greater top v ≡ true
        → ((j : ℕ) (w : Float) → j < k → get_elem? vs j ≡ some w → greater top w ≡ true)
        → (j : ℕ) (w : Float) → j < suc k
        → get_elem? (v ∷ vs) j ≡ some w
        → greater top w ≡ true
    head-earliest v vs top k h rest zero w lt e =
        subst (λ x. greater top x ≡ true) (some-injective v w e) h
    head-earliest v vs top k h rest (suc j) w lt e = rest j w (omega arith) e

    -- Behind a value that lies below the first maximum.
    IsFirst-cons :
        (v : Float) (vs : List Float) (k : ℕ) (top : Float)
        → IsFirst vs k top
        → greater top v ≡ true
        → IsFirst (v ∷ vs) (suc k) top
    IsFirst-cons v vs k top f h = record {
      found = f.found;
      greatest = head-greatest v vs top (not_greater top v h) f.greatest;
      earliest = head-earliest v vs top k h f.earliest;
    }

    -- The loop keeps its result where nothing is above the value so far, and else ends at the first
    -- maximum of what is left.
    scan-Above :
        (vs : List Float) (best : Float) (id result : ℕ)
        → (NoneAbove vs best × (scan Float greater lowest vs best id result ≡ result))
          ⊎ Above vs best id (scan Float greater lowest vs best id result)
    unfolding scan
    scan-Above [] best id result = inl ((λ j w e. cc), refl)
    scan-Above (v ∷ vs) best id result = elim (Bool-cases (greater v best)) [
      | inl above ↦ rw above (elim (scan-Above vs v (suc id) id) [
        | inl (none_above, same) ↦ inr (
          0,
          same ∙ (omega arith),
          v,
          record {
            found = refl;
            greatest = head-greatest v vs v (order.irreflexive v) none_above;
            earliest = λ j w lt e. absurd (omega arith);
          },
          above,
        )
        | inr (k, same, top, f, h) ↦ inr (
          suc k,
          same ∙ (omega arith),
          top,
          IsFirst-cons v vs k top f h,
          order.transitive top v best h above,
        )
      ])
      | inr below ↦ rw below (elim (scan-Above vs best (suc id) result) [
        | inl (none_above, same) ↦ inl (head-greatest v vs best below none_above, same)
        | inr (k, same, top, f, h) ↦ inr (
          suc k,
          same ∙ (omega arith),
          top,
          IsFirst-cons v vs k top f (order.divided top best v h below),
          h,
        )
      ])
    ]

    pub scan-IsFirst :
        (vs : List Float) (result : ℕ)
        → HasFinite vs
        → (top : Float) × IsFirst vs (scan Float greater lowest vs lowest 0 result) top
    scan-IsFirst vs result (j, w, e, h) = elim (scan-Above vs lowest 0 result) [
      | inl (none_above, _) ↦ absurd (clash w h (none_above j w e))
      | inr (k, same, top, f, _) ↦ (top, subst (λ i. IsFirst vs i top) (omega (arith, same)) f)
    ]
      where
        clash : (w : Float) → greater w lowest ≡ true → greater w lowest ≡ false → ⊥
        clash w p q = cc
