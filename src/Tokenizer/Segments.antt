-- ===== src/Tokenizer/Segments.antt =====
-- src/tokenizer/qwen_tokenizer.cc: `split_special_tokens`. The added tokens are a list of texts with
-- their ids; the id -1 of an ordinary segment is `none`.
pub mod Longest
use vicold_hybrid_ai.Base.{
  ℕ, zero, suc, ◌<◌, ◌≤◌, ◌≡◌, refl, ap, ap₂, ==_iff, ◌==◌, both, sym, ◌∙◌, Bool, true, false, ◌&&◌,
  not, Option, none, some, List, [], ◌∷◌, ◌++◌, length, length-drop, concat, map, drop, ltb,
  is_empty, if◌then◌else◌, if-elim, arith, append_assoc, append-nil, Bool-cases, inl, inr,
  starts_with,
}

pub record Segment : Type 0 where
  pub text : List ℕ
  pub is_special : Bool
  pub id : Option ℕ

abbrev pub Token : Type 0
Token = List ℕ × Option ℕ

-- "Longest match first": the scan over the added tokens, with the best one so far.
unfoldable pub best_match : List (List ℕ × ℕ) → List ℕ → Token → Token
best_match [] rest best = best
best_match ((token, id) ∷ added) rest best = best_match added rest (
    if starts_with token rest && ltb (length best.0) (length token) then (token, some id) else best)

abbrev pub plain : ℕ → Segment
plain c = record { text = c ∷ []; is_special = false; id = none }

-- The segments so far, the last one first. A byte goes to the last segment, if that is an ordinary one.
abbrev pub push_byte : ℕ → List Segment → List Segment
push_byte c [] = plain c ∷ []
push_byte c (s ∷ ss) =
    if not s.is_special then record s { text = s.text ++ c ∷ [] } ∷ ss else plain c ∷ s ∷ ss

abbrev pub special : Token → Segment
special best = record { text = best.0; is_special = true; id = best.1 }

module _ (added : List (List ℕ × ℕ)) where
  unfoldable pub split_loop : ℕ → List ℕ → List Segment → List Segment
  unfolding best_match
  split_loop zero text segments = segments
  split_loop (suc fuel) [] segments = segments
  split_loop (suc fuel) (c ∷ s) segments =
      let best = best_match added (c ∷ s) ([], none) in
      elim (is_empty best.0) [
        | false ↦ split_loop fuel (drop (length best.0) (c ∷ s)) (special best ∷ segments)
        | true ↦ split_loop fuel s (push_byte c segments)
      ]

  abbrev pub in_order : List Segment → List Segment
  in_order [] = []
  in_order (s ∷ ss) = in_order ss ++ s ∷ []

  abbrev pub split_special_tokens : List ℕ → List Segment
  split_special_tokens text = in_order (split_loop (length text) text [])

pub starts_with-drop :
    (token rest : List ℕ) → starts_with token rest ≡ true → token ++ drop (length token) rest ≡ rest
starts_with-drop [] rest h = refl
starts_with-drop (t ∷ token) [] h = absurd (cc)
starts_with-drop (t ∷ token) (c ∷ rest) h =
    ap₂ (λ x xs. x ∷ xs) ((==_iff t c).0 (both (t == c) (starts_with token rest) h).0)
      (starts_with-drop token rest (both (t == c) (starts_with token rest) h).1)

pub best_match-starts :
    (added : List (List ℕ × ℕ)) (rest : List ℕ) (best : Token)
    → starts_with best.0 rest ≡ true
    → starts_with (best_match added rest best).0 rest ≡ true
unfolding best_match
best_match-starts [] rest best h = h
best_match-starts ((token, id) ∷ added) rest best h =
    best_match-starts added rest
      (if starts_with token rest && ltb (length best.0) (length token)
        then (token, some id)
        else best)
      (if-elim (λ (b : Token). starts_with b.0 rest ≡ true)
        (starts_with token rest && ltb (length best.0) (length token))
        (λ e. (both (starts_with token rest) (ltb (length best.0) (length token)) e).0) λ _. h)

some_text : (xs : List ℕ) → is_empty xs ≡ false → 0 < length xs
some_text [] h = absurd (cc)
some_text (x ∷ xs) h = omega arith

concat-map_append :
    (ss : List Segment) (s : Segment)
    → concat (map (λ x. x.text) (ss ++ s ∷ [])) ≡ concat (map (λ x. x.text) ss) ++ s.text
concat-map_append [] s = append-nil s.text
concat-map_append (x ∷ ss) s =
    ap (λ t. x.text ++ t) (concat-map_append ss s)
    ∙ sym (append_assoc x.text (concat (map (λ y. y.text) ss)) s.text)

-- The text of the segments so far.
abbrev pub whole : List Segment → List ℕ
whole [] = []
whole (s ∷ ss) = whole ss ++ s.text

push_byte-whole : (c : ℕ) (ss : List Segment) → whole (push_byte c ss) ≡ whole ss ++ c ∷ []
push_byte-whole c [] = refl
push_byte-whole c (s ∷ ss) =
    if-elim (λ xs. whole xs ≡ (whole ss ++ s.text) ++ c ∷ []) (not s.is_special)
      (λ _. sym (append_assoc (whole ss) s.text (c ∷ []))) λ _. refl

in_order-whole :
    (added : List (List ℕ × ℕ)) (ss : List Segment)
    → concat (map (λ s. s.text) (in_order added ss)) ≡ whole ss
in_order-whole added [] = refl
in_order-whole added (s ∷ ss) =
    concat-map_append (in_order added ss) s ∙ ap (λ t. t ++ s.text) (in_order-whole added ss)

split_loop-whole :
    (added : List (List ℕ × ℕ)) (fuel : ℕ) (text : List ℕ) (segments : List Segment)
    → length text ≤ fuel
    → whole (split_loop added fuel text segments) ≡ whole segments ++ text
unfolding split_loop
split_loop-whole added zero [] segments le = sym (append-nil (whole segments))
split_loop-whole added zero (c ∷ s) segments le = absurd (omega arith)
split_loop-whole added (suc fuel) [] segments le = sym (append-nil (whole segments))
split_loop-whole added (suc fuel) (c ∷ s) segments le =
    let best = best_match added (c ∷ s) ([], none) in
    elim (Bool-cases (is_empty best.0)) [
      | inl nothing ↦
          rw (split_loop, nothing)
            (split_loop-whole added fuel s (push_byte c segments) (omega arith)
              ∙ ap (λ t. t ++ s) (push_byte-whole c segments)
              ∙ append_assoc (whole segments) (c ∷ []) s)
      | inr found ↦
          let rest = drop (length best.0) (c ∷ s) in
          rw (split_loop, found)
            (split_loop-whole added fuel rest (special best ∷ segments)
                (omega (arith, length-drop (length best.0) (c ∷ s), some_text best.0 found))
              ∙ append_assoc (whole segments) best.0 rest
              ∙ ap (λ t. whole segments ++ t)
                  (starts_with-drop best.0 (c ∷ s)
                    (best_match-starts added (c ∷ s) ([], none) refl)))
    ]

-- The segments make up the text, in order, and the loop ends within a turn for each byte.
pub split_special_tokens-whole :
    (added : List (List ℕ × ℕ)) (text : List ℕ)
    → concat (map (λ s. s.text) (split_special_tokens added text)) ≡ text
split_special_tokens-whole added text =
    in_order-whole added (split_loop added (length text) text [])
    ∙ split_loop-whole added (length text) text [] (omega arith)
