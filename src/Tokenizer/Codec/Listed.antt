-- ===== src/Tokenizer/Codec/Listed.antt =====
-- src/tokenizer/qwen_tokenizer.cc: the special segments are added tokens with their ids.
use vicold_hybrid_ai.Base.{
  ℕ, zero, suc, ◌≡◌, refl, ◌⊎◌, inl, inr, true, false, ◌&&◌, not, none, some, List, [], ◌∷◌, length,
  get_elem?, drop, ltb, is_empty, All, All-append, if-elim, if◌then◌else◌, Bool-cases, starts_with,
}
use vicold_hybrid_ai.Tokenizer.Segments.{
  Segment, Token, best_match, push_byte, special, split_loop, in_order, split_special_tokens,
}

-- A special segment is an added token with its id.
abbrev pub IsListed : List (List ℕ × ℕ) → Segment → Type 0
IsListed added s =
    s.is_special ≡ true
    → (i : ℕ) × (id : ℕ) × (s.id ≡ some id) × (get_elem? added i ≡ some (s.text, id))

-- The best match so far is empty, or an added token with its id.
abbrev IsAdded : List (List ℕ × ℕ) → Token → Type 0
IsAdded added best =
    (best.0 ≡ [])
    ⊎ ((i : ℕ) × (id : ℕ) × (best.1 ≡ some id) × (get_elem? added i ≡ some (best.0, id)))

best_match-IsAdded :
    (whole added : List (List ℕ × ℕ)) (rest : List ℕ) (best : Token)
    → ((i : ℕ) (t : List ℕ) (n : ℕ)
        → get_elem? added i ≡ some (t, n)
        → (j : ℕ) × (get_elem? whole j ≡ some (t, n)))
    → IsAdded whole best
    → IsAdded whole (best_match added rest best)
unfolding best_match
best_match-IsAdded whole [] rest best within known = known
best_match-IsAdded whole ((t, n) ∷ added) rest best within known =
    best_match-IsAdded whole added rest
      (if starts_with t rest && ltb (length best.0) (length t) then (t, some n) else best)
      (λ i. within (suc i))
      (if-elim (IsAdded whole) (starts_with t rest && ltb (length best.0) (length t))
        (λ _. let (j, e) = within 0 t n refl in inr (j, n, refl, e)) λ _. known)

special-IsListed :
    (added : List (List ℕ × ℕ)) (best : Token)
    → is_empty best.0 ≡ false
    → IsAdded added best
    → IsListed added (special best)
special-IsListed added best found (inl nothing) _ = absurd (cc)
special-IsListed added best found (inr known) _ = known

push_byte-IsListed :
    (added : List (List ℕ × ℕ)) (c : ℕ) (ss : List Segment)
    → All (IsListed added) ss
    → All (IsListed added) (push_byte c ss)
push_byte-IsListed added c [] all = ((λ h. absurd (cc)), tt)
push_byte-IsListed added c (s ∷ ss) (h, all) =
    if-elim (All (IsListed added)) (not s.is_special)
      (λ plain_one. ((λ special_one. absurd (cc)), all)) λ _. ((λ h'. absurd (cc)), (h, all))

split_loop-IsListed :
    (added : List (List ℕ × ℕ)) (fuel : ℕ) (text : List ℕ) (ss : List Segment)
    → All (IsListed added) ss
    → All (IsListed added) (split_loop added fuel text ss)
unfolding split_loop
split_loop-IsListed added zero text ss all = all
split_loop-IsListed added (suc fuel) [] ss all = all
split_loop-IsListed added (suc fuel) (c ∷ s) ss all =
    let best = best_match added (c ∷ s) ([], none) in
    elim (Bool-cases (is_empty best.0)) [
      | inl nothing ↦
          rw (split_loop, nothing)
            (split_loop-IsListed added fuel s (push_byte c ss) (push_byte-IsListed added c ss all))
      | inr found ↦
          rw (split_loop, found)
            (split_loop-IsListed added fuel (drop (length best.0) (c ∷ s)) (special best ∷ ss) (
              special-IsListed added best found (
                  best_match-IsAdded added added (c ∷ s) ([], none) (λ i t n e. (i, e)) (inl refl)),
              all,
            ))
    ]

in_order-IsListed :
    (added : List (List ℕ × ℕ)) (ss : List Segment)
    → All (IsListed added) ss
    → All (IsListed added) (in_order added ss)
in_order-IsListed added [] _ = tt
in_order-IsListed added (s ∷ ss) (h, all) =
    All-append (IsListed added) (in_order added ss) (s ∷ []) (in_order-IsListed added ss all)
      (h, tt)

pub split_special_tokens-IsListed :
    (added : List (List ℕ × ℕ)) (text : List ℕ)
    → All (IsListed added) (split_special_tokens added text)
split_special_tokens-IsListed added text =
    in_order-IsListed added (split_loop added (length text) text [])
      (split_loop-IsListed added (length text) text [] tt)
