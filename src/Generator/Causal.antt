-- ===== src/Generator/Causal.antt =====
-- What one verified proposal says of the greedy loop, for a network that is causal.
use vicold_hybrid_ai.Base.{
  ℕ, suc, ◌+◌, ◌<◌, ◌≡◌, refl, Bool, true, false, Option, some, List, [], ◌∷◌, ◌++◌, length,
  get_elem?, take, ◌>>=◌, >>=-elim, arith, Bool-cases, inl, inr, subst, ◌⊎◌, ◌≤◌, zero,
}
use mathlib.Core.Option.{some-injective}
use vicold_hybrid_ai.Generator.Network.{Network, IsCausal}
use vicold_hybrid_ai.Generator.Defs.{last?, accepted_prefix, ends_in_eos, decode, propose, Proposal}

-- `room xs n` is `length xs + n`, and computes along the list.
abbrev pub room : List ℕ → ℕ → ℕ
room [] left = left
room (x ∷ xs) left = suc (room xs left)

pub room_lem : (xs : List ℕ) (left : ℕ) → room xs left ≡ length xs + left
room_lem [] left = omega arith
room_lem (x ∷ xs) left = omega (arith, room_lem xs left)

last?-cons_some {ℓ} :
    {A : Type ℓ} (x : A) (xs : List A) {y : A} → last? xs ≡ some y → last? (x ∷ xs) ≡ some y
last?-cons_some x [] h = cc
last?-cons_some x (z ∷ zs) h = h

module _ (net : Network) (is_eos : ℕ → Bool) where
  open net use {TargetCache, Row, target_forward, argmax, argmax_rows}

  -- The greedy loop where the next token is known: it is appended, and the loop goes on behind it.
  unfoldable pub emit : ℕ → TargetCache → ℕ → Option (List ℕ)
  emit zero c next = some []
  emit (suc left) c next = elim (is_eos next) [
    | true ↦ some (next ∷ [])
    | false ↦ decode net is_eos left c (next ∷ []) >>= λ rest. some (next ∷ rest)
  ]

  -- An end-of-sequence id can only be the last candidate.
  abbrev pub EosLast : List ℕ → Type 0
  EosLast [] = Unit
  EosLast (y ∷ []) = Unit
  EosLast (y ∷ z ∷ cs) = (is_eos y ≡ false) × EosLast (z ∷ cs)

  pub decode-emit :
      (left : ℕ) (c c' : TargetCache) (ids : List ℕ) (rows : List Row) (row : Row) (next : ℕ)
      → target_forward c ids ≡ some (c', rows)
      → last? rows ≡ some row
      → argmax row ≡ some next
      → decode net is_eos left c ids ≡ emit left c' next
  unfolding decode emit
  decode-emit zero c c' ids rows row next f l a = refl
  decode-emit (suc left) c c' ids rows row next f l a = rw (f, l, a)

  pub emit-eos :
      (left : ℕ) (c : TargetCache) (x : ℕ) → is_eos x ≡ true → emit (suc left) c x ≡ some (x ∷ [])
  unfolding emit
  emit-eos left c x e = rw (e, emit)

  pub emit-cons :
      (left : ℕ) (c c' : TargetCache) (x : ℕ) (row : Row) (y : ℕ) (us : List ℕ)
      → is_eos x ≡ false
      → target_forward c (x ∷ []) ≡ some (c', row ∷ [])
      → argmax row ≡ some y
      → emit left c' y ≡ some us
      → emit (suc left) c x ≡ some (x ∷ us)
  unfolding emit
  emit-cons left c c' x row y us n f a e =
      rw (emit, n, decode-emit left c c' (x ∷ []) (row ∷ []) row y f refl a, e)

  pub EosLast-tail : (y : ℕ) (ys : List ℕ) → EosLast (y ∷ ys) → EosLast ys
  EosLast-tail y [] e = tt
  EosLast-tail y (z ∷ ys) e = e.1

  eq-nil_of_eos : (y : ℕ) (ys : List ℕ) → EosLast (y ∷ ys) → is_eos y ≡ true → ys ≡ []
  eq-nil_of_eos y [] e stop = refl
  eq-nil_of_eos y (z ∷ ys) e stop = cc (e.0)

  -- After `x` and the candidates, all of them predicted, the greedy loop stands at the last cache
  -- and the last prediction.
  pub emit-accepted :
      (laws : IsCausal net) (cs : List ℕ) (c end : TargetCache) (x z : ℕ) (rows : List Row)
      (ps : List ℕ) (left : ℕ) (us : List ℕ)
      → target_forward c (x ∷ cs) ≡ some (end, rows)
      → argmax_rows rows ≡ some ps
      → length ps ≡ suc (length cs)
      → accepted_prefix ps cs ≡ length cs
      → last? ps ≡ some z
      → is_eos x ≡ false
      → EosLast cs
      → (ends_in_eos net is_eos (last? (x ∷ cs)) ≡ true → us ≡ [])
      → (ends_in_eos net is_eos (last? (x ∷ cs)) ≡ false → emit left end z ≡ some us)
      → emit (room (x ∷ cs) left) c x ≡ some ((x ∷ cs) ++ us)
  unfolding accepted_prefix
  emit-accepted laws cs c end x z rows [] left us f a len acc l n e stops goes = cc
  emit-accepted laws [] c end x z rows (p ∷ q ∷ ps) left us f a len acc l n e stops goes =
      absurd (omega arith)
  emit-accepted laws [] c end x z rows (p ∷ []) left us f a len acc l n e stops goes =
      let (row, one) = laws.one_row c x end rows f in
      let (id, rest, first, _, ids) = laws.argmax_first row [] (p ∷ []) (rw one at a) in
      emit-cons left c end x row z us n (cc) (cc) (goes n)
  emit-accepted laws (y ∷ ys) c end x z rows (p ∷ []) left us f a len acc l n e stops goes =
      absurd (omega arith)
  emit-accepted laws (y ∷ ys) c end x z rows (p ∷ q ∷ ps) left us f a len acc l n e stops goes =
      let (c', row, later, single, rest, split) = laws.causal c x y ys end rows f in
      let (id, ids, first, others, both) =
        laws.argmax_first row later (p ∷ q ∷ ps) (rw split at a) in
      let same : p ≡ y = ground arith in
      let acc' : accepted_prefix (q ∷ ps) ys ≡ length ys = ground arith in
      emit-cons (room (y ∷ ys) left) c c' x row y ((y ∷ ys) ++ us) n single (cc)
        (elim (Bool-cases (is_eos y)) [
          | inl stop ↦
              let none_left = eq-nil_of_eos y ys e stop in
              let no_more = stops (rw none_left stop) in
              rw (none_left, no_more) (emit-eos left c' y stop)
          | inr goon ↦
              emit-accepted laws ys c' end y z later (q ∷ ps) left us rest (cc) (omega arith) acc' l
                goon (EosLast-tail y ys e) stops goes
        ])

  -- Where the candidate behind an accepted prefix was not predicted, the greedy loop appends the
  -- prefix and then the correction, and the replay leaves the cache of the greedy loop behind it.
  pub emit-rejected :
      (laws : IsCausal net) (cs : List ℕ) (k : ℕ) (c end : TargetCache) (x y : ℕ) (rows : List Row)
      (ps : List ℕ) (replayed : TargetCache) (again : List Row)
      → target_forward c (x ∷ cs) ≡ some (end, rows)
      → argmax_rows rows ≡ some ps
      → accepted_prefix ps cs ≡ k
      → k < length cs
      → get_elem? ps k ≡ some y
      → target_forward c ((x ∷ take k cs) ++ y ∷ []) ≡ some (replayed, again)
      → is_eos x ≡ false
      → EosLast cs
      → (c' : TargetCache) × (row : Row) × (target_forward c' (y ∷ []) ≡ some (replayed, row ∷ []))
        × (last? again ≡ some row)
        × ((left : ℕ) (us : List ℕ)
            → emit left c' y ≡ some us
            → emit (room (x ∷ take k cs) left) c x ≡ some ((x ∷ take k cs) ++ us))
  unfolding accepted_prefix
  emit-rejected laws [] k c end x y rows ps replayed again f a acc lt g r n e = absurd (omega arith)
  emit-rejected laws (z ∷ zs) k c end x y rows [] replayed again f a acc lt g r n e = cc
  emit-rejected laws (z ∷ zs) zero c end x y rows (p ∷ ps) replayed again f a acc lt g r n e =
      let (c', row, later, single, rest, split) = laws.causal c x z zs end rows f in
      let (id, ids, first, others, both) = laws.argmax_first row later (p ∷ ps) (rw split at a) in
      let (c'', row', later', single', rest', split') = laws.causal c x y [] replayed again r in
      let (row2, one) = laws.one_row c'' y replayed later' rest' in
      let here : c'' ≡ c' = cc in
      let same_row : row' ≡ row = cc in
      (c', row2, cc, cc, λ left us e'. emit-cons left c c' x row y us n single (cc) e')
  emit-rejected laws (z ∷ []) (suc k) c end x y rows (p ∷ ps) replayed again f a acc lt g r n e =
      absurd (omega arith)
  emit-rejected laws (z ∷ w ∷ zs) (suc k) c end x y rows (p ∷ ps) replayed again f a acc lt g r n
        e =
      let (c', row, later, single, rest, split) = laws.causal c x z (w ∷ zs) end rows f in
      let (id, ids, first, others, both) = laws.argmax_first row later (p ∷ ps) (rw split at a) in
      let (c'', row', later', single', rest', split') =
        laws.causal c x z (take k (w ∷ zs) ++ y ∷ []) replayed again r in
      let here : c'' ≡ c' = cc in
      let same : p ≡ z = ground arith in
      let acc' : accepted_prefix ps (w ∷ zs) ≡ k = ground arith in
      let (ck, row2, f2, l2, go) =
        emit-rejected laws (w ∷ zs) k c' end z y later ps replayed later' rest (cc) acc'
          (omega arith) g (rw here at rest') e.0 e.1 in
      (
        ck,
        row2,
        f2,
        rw split' (last?-cons_some row' later' l2),
        λ left us e'.
            emit-cons (room (z ∷ take k (w ∷ zs)) left) c c' x row z ((z ∷ take k (w ∷ zs)) ++ us) n
              single (cc) (go left us e'),
      )

  pub emit_full : (left : ℕ) (c : TargetCache) (x : ℕ) → left ≡ 0 → emit left c x ≡ some []
  unfolding emit
  emit_full zero c x e = refl
  emit_full (suc left) c x e = absurd (omega arith)

  -- With one slot left, or at an end-of-sequence id, the greedy loop appends one token and ends.
  pub emit_last :
      (left : ℕ) (c : TargetCache) (x : ℕ)
      → 0 < left
      → ((left ≡ 1) ⊎ (is_eos x ≡ true))
      → emit left c x ≡ some (x ∷ [])
  unfolding emit decode
  emit_last zero c x p e = absurd (omega arith)
  emit_last (suc zero) c x p e = ground arith
  emit_last (suc (suc left)) c x p (inl e) = absurd (omega arith)
  emit_last (suc (suc left)) c x p (inr e) = emit-eos (suc left) c x e

  EosLast-cons : (y : ℕ) (ys : List ℕ) → is_eos y ≡ false → EosLast ys → EosLast (y ∷ ys)
  EosLast-cons y [] n e = tt
  EosLast-cons y (z ∷ zs) n e = (n, e)

  abbrev pub IsProposal : ℕ → Proposal net → Type 0
  IsProposal count p =
      EosLast p.candidates
      × (length p.candidates ≤ count)
      × (length p.checkpoints ≡ length p.candidates)

  pub propose-EosLast :
      (count : ℕ) (scratch : net.MtpCache) (input : ℕ) (hidden : Option Row) (p : Proposal net)
      → propose net is_eos count scratch input hidden ≡ some p
      → IsProposal count p
  unfolding propose
  propose-EosLast zero scratch input hidden p e = ground arith
  propose-EosLast (suc count) scratch input hidden p e = >>=-elim hidden _ e λ row _ e1.
      >>=-elim (net.mtp_forward scratch ((input, row) ∷ [])) _ e1 λ after _ e2.
        >>=-elim (last? after.1) _ e2 λ last _ e3. >>=-elim (argmax last) _ e3 λ y _ e4.
          >>=-elim (net.copy_row last) _ e4 λ copy _ e5.
            >>=-elim (net.clone_mtp after.0) _ e5 λ k _ e6. elim (Bool-cases (is_eos y)) [
              | inl ends ↦
                  subst (IsProposal (suc count)) (some-injective _ _ (rw ends at e6))
                    (tt, omega arith, refl)
              | inr goes ↦
                  >>=-elim (propose net is_eos count after.0 y (some copy)) _ (rw goes at e6)
                    λ rest found e7.
                      let (last_eos, short, saved) =
                        propose-EosLast count after.0 y (some copy) rest found in
                      subst (IsProposal (suc count)) (some-injective _ _ e7)
                        (EosLast-cons y rest.candidates goes last_eos, omega arith, omega arith)
            ]
