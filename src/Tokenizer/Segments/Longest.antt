-- ===== src/Tokenizer/Segments/Longest.antt =====
-- src/tokenizer/qwen_tokenizer.cc: the scan over the added tokens in `split_special_tokens`.
use vicold_hybrid_ai.Base.{
  ◌⊎◌, ℕ, zero, suc, ◌≤◌, ◌≡◌, refl, ap, ==_self, both, not_both, sym, subst, true, false, ◌&&◌,
  none, some, List, [], ◌∷◌, ◌++◌, length, get_elem?, drop, ltb, if◌then◌else◌, if-elim, arith, inl,
  inr, starts_with,
}
use mathlib.Core.Option.{some-injective}
use vicold_hybrid_ai.Tokenizer.Segments.{Token, best_match, starts_with-drop, best_match-starts}

ltb→le : (a b : ℕ) → ltb a b ≡ true → a ≤ b
ltb→le a b h = ground arith

not_ltb→le : (a b : ℕ) → ltb a b ≡ false → b ≤ a
not_ltb→le a b h = ground arith

longer-next :
    (t : List ℕ) (n : ℕ) (rest : List ℕ) (best : Token)
    → (length best.0
        ≤ length
            (if starts_with t rest && ltb (length best.0) (length t) then (t, some n) else best).0)
      × (starts_with t rest ≡ true
          → length t
            ≤ length
                (if starts_with t rest && ltb (length best.0) (length t)
                  then (t, some n)
                  else best).0)
longer-next t n rest best =
    if-elim
      (λ (b : Token).
        (length best.0 ≤ length b.0) × (starts_with t rest ≡ true → length t ≤ length b.0))
      (starts_with t rest && ltb (length best.0) (length t))
      (λ e. (
        ltb→le (length best.0) (length t)
            (both (starts_with t rest) (ltb (length best.0) (length t)) e).1,
        λ _. omega arith,
      ))
      λ e. (
        omega arith,
        λ st.
            not_ltb→le (length best.0) (length t)
              (not_both (starts_with t rest) (ltb (length best.0) (length t)) e st),
      )

best_match-grows :
    (added : List (List ℕ × ℕ)) (rest : List ℕ) (best : Token)
    → length best.0 ≤ length (best_match added rest best).0
unfolding best_match
best_match-grows [] rest best = omega arith
best_match-grows ((t, n) ∷ added) rest best = omega (
  arith,
  (longer-next t n rest best).0,
  best_match-grows added rest
      (if starts_with t rest && ltb (length best.0) (length t) then (t, some n) else best),
)

best_match-longest :
    (added : List (List ℕ × ℕ)) (rest : List ℕ) (best : Token) (i : ℕ) (token : List ℕ) (id : ℕ)
    → get_elem? added i ≡ some (token, id)
    → starts_with token rest ≡ true
    → length token ≤ length (best_match added rest best).0
unfolding best_match
best_match-longest [] rest best i token id e st = absurd (cc)
best_match-longest ((t, n) ∷ added) rest best zero token id e st =
    let next = if starts_with t rest && ltb (length best.0) (length t) then (t, some n) else best in
    let same : t ≡ token = ap (λ p. p.0) (some-injective (t, n) (token, id) e) in
    let covers =
      (longer-next t n rest best).1 (subst (λ x. starts_with x rest ≡ true) (sym same) st) in
    omega (arith, ap length same, covers, best_match-grows added rest next)
best_match-longest ((t, n) ∷ added) rest best (suc i) token id e st =
    best_match-longest added rest
      (if starts_with t rest && ltb (length best.0) (length t) then (t, some n) else best) i token
      id e st

starts_with-append : (xs ys : List ℕ) → starts_with xs (xs ++ ys) ≡ true
starts_with-append [] ys = refl
starts_with-append (x ∷ xs) ys = rw (==_self x, starts_with-append xs ys) refl

-- A text and an id that are entered among the added tokens, or the token that nothing was found for.
abbrev pub IsEntry : List (List ℕ × ℕ) → Token → Type 0
IsEntry added r =
    (r ≡ ([], none)) ⊎ ((i : ℕ) × (id : ℕ) × (get_elem? added i ≡ some (r.0, id)) × (r.1 ≡ some id))

-- The best token stays, or one of those that are scanned takes its place.
best_match-found :
    (added : List (List ℕ × ℕ)) (rest : List ℕ) (best : Token)
    → (best_match added rest best ≡ best)
      ⊎ ((i : ℕ) × (id : ℕ) × (get_elem? added i ≡ some ((best_match added rest best).0, id))
          × ((best_match added rest best).1 ≡ some id))
unfolding best_match
best_match-found [] rest best = inl refl
best_match-found ((token, n) ∷ added) rest best =
    if-elim
      (λ (next : Token).
        (best_match added rest next ≡ best)
        ⊎ ((i : ℕ) × (id : ℕ) × (get_elem? ((token, n) ∷ added) i
              ≡ some ((best_match added rest next).0, id))
            × ((best_match added rest next).1 ≡ some id)))
      (starts_with token rest && ltb (length best.0) (length token))
      (λ _. elim (best_match-found added rest (token, some n)) [
        | inl same ↦ inr (zero, n, ap (λ r. some (r.0, n)) (sym same), ap (λ (r : Token). r.1) same)
        | inr (i, id, e, f) ↦ inr (suc i, id, e, f)
      ])
      λ _. elim (best_match-found added rest best) [
        | inl same ↦ inl same
        | inr (i, id, e, f) ↦ inr (suc i, id, e, f)
      ]

-- What the scan over the added tokens is for: a longest one of those that a text starts with.
pub record IsLongest (added : List (List ℕ × ℕ)) (text : List ℕ) (r : Token) : Type 0 where
  pub entry : IsEntry added r
  pub behind : List ℕ
  pub starts : text ≡ r.0 ++ behind
  pub longest :
      (i : ℕ) (token : List ℕ) (id : ℕ) (tail : List ℕ)
      → get_elem? added i ≡ some (token, id)
      → text ≡ token ++ tail
      → length token ≤ length r.0

-- The scan over the added tokens gives one of them with its id, or nothing; the text starts with it, and
-- it is as long as any added token that the text starts with, so that nothing is given only where no
-- added token but an empty one starts the text.
pub best_match-IsLongest :
    (added : List (List ℕ × ℕ)) (text : List ℕ)
    → IsLongest added text (best_match added text ([], none))
best_match-IsLongest added text =
    let r = best_match added text ([], none) in
    record {
      entry = best_match-found added text ([], none);
      behind = drop (length r.0) text;
      starts = sym (starts_with-drop r.0 text (best_match-starts added text ([], none) refl));
      longest = λ i token id tail e split.
          best_match-longest added text ([], none) i token id e
            (subst (λ t. starts_with token t ≡ true) (sym split) (starts_with-append token tail));
    }
