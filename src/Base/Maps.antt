-- ===== src/Base/Maps.antt =====
-- Maps with texts as keys, as lists of entries: `find`, the assignment `m[k] = v` and `emplace`.
use mathlib.Core.Path.{◌≡◌, refl, sym, ◌∙◌, subst}
use mathlib.Core.Logic.{inl, inr}
use mathlib.Core.Bool.{false}
use mathlib.Core.Option.{Option, none, some, some-injective}
use mathlib.Core.List.{List, [], ◌∷◌}
use Prim.Native.Nat.{ℕ}
use vicold_hybrid_ai.Base.Lists.{is_empty}
use vicold_hybrid_ai.Base.Tests.{if◌then◌else◌, Bool-cases, Option-cases}
use vicold_hybrid_ai.Base.Text.{same_text, same_text_self, same_text-path}

unfoldable pub find : {V : Type 0} → List ℕ → List (List ℕ × V) → Option V
find k [] = none
find k ((j, v) ∷ m) = let rest = find k m in if same_text k j then some v else rest

unfoldable pub put : {V : Type 0} → List ℕ → V → List (List ℕ × V) → List (List ℕ × V)
put k v [] = (k, v) ∷ []
put k v ((j, w) ∷ m) = let rest = put k v m in if same_text k j then (k, v) ∷ m else (j, w) ∷ rest

-- `emplace` keeps an entry that is there.
abbrev pub add_missing :
    {V : Type 0} → List ℕ → V → List (List ℕ × V) → Option V → List (List ℕ × V)
add_missing k v m none = (k, v) ∷ m
add_missing k v m (some w) = m

unfoldable pub emplace : {V : Type 0} → List ℕ → V → List (List ℕ × V) → List (List ℕ × V)
unfolding find
emplace k v m = add_missing k v m (find k m)

pub find_first :
    {V : Type 0} (k : List ℕ) (v : V) (m : List (List ℕ × V)) → find k ((k, v) ∷ m) ≡ some v
unfolding find
find_first k v m = rw (find, same_text_self k) refl

pub find_later :
    {V : Type 0} (j k : List ℕ) (v : V) (m : List (List ℕ × V))
    → same_text j k ≡ false
    → find j ((k, v) ∷ m) ≡ find j m
unfolding find
find_later j k v m other = rw (find, other) refl

pub find-put :
    {V : Type 0} (k : List ℕ) (v : V) (m : List (List ℕ × V)) → find k (put k v m) ≡ some v
unfolding put find
find-put k v [] = rw (same_text_self k) refl
find-put k v ((j, w) ∷ m) = elim (Bool-cases (same_text k j)) [
  | inl same ↦ rw (same, same_text_self k) refl
  | inr other ↦ rw (other, other) (find-put k v m)
]

pub emplace_new :
    {V : Type 0} (k : List ℕ) (v : V) (m : List (List ℕ × V))
    → find k m ≡ none
    → emplace k v m ≡ (k, v) ∷ m
unfolding emplace
emplace_new k v m h = rw (emplace, h) refl

pub emplace_old :
    {V : Type 0} (k : List ℕ) (v w : V) (m : List (List ℕ × V))
    → find k m ≡ some w
    → emplace k v m ≡ m
unfolding emplace
emplace_old k v w m h = rw (emplace, h) refl

-- What a map holds has a property, if every entry has.
abbrev pub Holds : {V : Type 0} → (List ℕ → V → Type 0) → List (List ℕ × V) → Type 0
Holds {V} P m = (k : List ℕ) (v : V) → find k m ≡ some v → P k v

pub Holds-nil : {V : Type 0} (P : List ℕ → V → Type 0) → Holds P []
unfolding find
Holds-nil P k v h = absurd (cc)

pub Holds-concat :
    {V : Type 0} (P : List ℕ → V → Type 0) (k : List ℕ) (v : V) (m : List (List ℕ × V))
    → P k v
    → Holds P m
    → Holds P ((k, v) ∷ m)
Holds-concat {V} P k v m here rest j w h = elim (Bool-cases (same_text j k)) [
  | inl same ↦
      let key : k ≡ j = sym (same_text-path j k same) in
      let first : find k ((k, v) ∷ m) ≡ some w =
        subst (λ x. find x ((k, v) ∷ m) ≡ some w) (sym key) h in
      let value : v ≡ w = some-injective v w (sym (find_first k v m) ∙ first) in
      subst (λ x. P x w) key (subst (P k) value here)
  | inr other ↦ rest j w (sym (find_later j k v m other) ∙ h)
]

pub Holds-emplace :
    {V : Type 0} (P : List ℕ → V → Type 0) (k : List ℕ) (v : V) (m : List (List ℕ × V))
    → P k v
    → Holds P m
    → Holds P (emplace k v m)
Holds-emplace {V} P k v m here rest = elim (Option-cases (find k m)) [
  | inl new ↦ rw (emplace_new k v m new) (Holds-concat P k v m here rest)
  | inr (w, old) ↦ rw (emplace_old k v w m old) rest
]

pub find-emplace_kept :
    {V : Type 0} (j k : List ℕ) (v w : V) (m : List (List ℕ × V))
    → find j m ≡ some w
    → find j (emplace k v m) ≡ some w
find-emplace_kept j k v w m h = elim (Option-cases (find k m)) [
  | inr (u, old) ↦ rw (emplace_old k v u m old) h
  | inl new ↦ elim (Bool-cases (same_text j k)) [
    | inl same ↦
        let gone : find j m ≡ none =
          subst (λ x. find x m ≡ none) (sym (same_text-path j k same)) new in
        absurd (cc)
    | inr other ↦ rw (emplace_new k v m new, find_later j k v m other) h
  ]
]

pub find-concat_kept :
    {V : Type 0} (j k : List ℕ) (v w : V) (m : List (List ℕ × V))
    → find k m ≡ none
    → find j m ≡ some w
    → find j ((k, v) ∷ m) ≡ some w
find-concat_kept j k v w m new h =
    subst (λ x. find j x ≡ some w) (emplace_new k v m new) (find-emplace_kept j k v w m h)

pub find-nonempty :
    {V : Type 0} (k : List ℕ) (v : V) (m : List (List ℕ × V))
    → find k m ≡ some v
    → is_empty m ≡ false
unfolding find
find-nonempty k v [] h = absurd (cc)
find-nonempty k v (entry ∷ m) h = refl
