-- ===== src/Tokenizer/Codec/Bytewise.antt =====
-- src/tokenizer/qwen_tokenizer.cc: the tokens that `bpe` makes of a text in the alphabet of bytes, and
-- the bytes that `decode` reads from each of them.
use vicold_hybrid_ai.Base.{
  ℕ, zero, suc, ◌<◌, ◌≡◌, refl, ap, sym, ◌∙◌, subst, List, [], ◌∷◌, ◌++◌, concat, map, All,
  All-append, if-elim, leb, append_assoc, Option-cases, inl, inr, Option, some, none, length,
}
use vicold_hybrid_ai.Tokenizer.Utf8.{
  utf8_to_codepoints, codepoints_to_utf8, utf8-roundtrip, IsCodepoint,
}
use vicold_hybrid_ai.Tokenizer.Pieces.{codepoints_to_utf8-append}
use vicold_hybrid_ai.Tokenizer.Bpe.{best_pair, merge_at, merge_loop, split_word, bpe}
use vicold_hybrid_ai.Tokenizer.Bytes.{
  byte_encode, token_bytes, found, bytes_of_codepoints, unicode_to_bytes, lookup,
  byte_encode-codepoints,
}

-- A token that encodes valid code points.
abbrev pub IsEncoded : List ℕ → Type 0
IsEncoded t = (cs : List ℕ) × All IsCodepoint cs × (t ≡ codepoints_to_utf8 cs)

IsEncoded-append : (a b : List ℕ) → IsEncoded a → IsEncoded b → IsEncoded (a ++ b)
IsEncoded-append a b (cs, vs, e) (ds, ws, f) = (
  cs ++ ds,
  All-append IsCodepoint cs ds vs ws,
  ap (λ t. t ++ b) e
      ∙ ap (λ t. codepoints_to_utf8 cs ++ t) f
      ∙ sym (codepoints_to_utf8-append cs ds),
)

merge_at-IsEncoded :
    (merges : List ℕ → List ℕ → Option ℕ) (i : ℕ) (ts : List (List ℕ))
    → All IsEncoded ts
    → All IsEncoded (merge_at merges i ts)
merge_at-IsEncoded merges zero [] _ = tt
merge_at-IsEncoded merges zero (a ∷ []) all = all
merge_at-IsEncoded merges zero (a ∷ b ∷ ts) (x, (y, all)) = (IsEncoded-append a b x y, all)
merge_at-IsEncoded merges (suc i) [] _ = tt
merge_at-IsEncoded merges (suc i) (a ∷ ts) (x, all) = (x, merge_at-IsEncoded merges i ts all)

abbrev OnSome : (List (List ℕ) → Type 0) → Option (List (List ℕ)) → Type 0
OnSome P none = Unit
OnSome P (some ts) = P ts

merge_loop-IsEncoded :
    (merges : List ℕ → List ℕ → Option ℕ) (fuel : ℕ) (ts : List (List ℕ))
    → All IsEncoded ts
    → OnSome (All IsEncoded) (merge_loop merges fuel ts)
unfolding merge_loop
merge_loop-IsEncoded merges zero ts all = tt
merge_loop-IsEncoded merges (suc fuel) ts all = elim (Option-cases (best_pair merges ts)) [
  | inl e ↦ rw (merge_loop, e) all
  | inr ((rank, index), e) ↦
      rw (merge_loop, e)
        (merge_loop-IsEncoded merges fuel (merge_at merges index ts)
          (merge_at-IsEncoded merges index ts all))
]

split_word-IsEncoded :
    (cps : List ℕ)
    → All IsCodepoint cps
    → All IsEncoded (map (λ c. codepoints_to_utf8 (c ∷ [])) cps)
split_word-IsEncoded [] _ = tt
split_word-IsEncoded (c ∷ cps) (v, vs) = ((c ∷ [], (v, tt), refl), split_word-IsEncoded cps vs)

bpe-IsEncoded :
    (merges : List ℕ → List ℕ → Option ℕ) (cps : List ℕ)
    → All IsCodepoint cps
    → OnSome (All IsEncoded) (bpe merges (codepoints_to_utf8 cps))
unfolding bpe
bpe-IsEncoded merges cps all =
    let word = codepoints_to_utf8 cps in
    let tokens = split_word merges word in
    let start : All IsEncoded tokens =
      subst (λ cs. All IsEncoded (map (λ c. codepoints_to_utf8 (c ∷ [])) cs))
        (sym (utf8-roundtrip cps all)) (split_word-IsEncoded cps all) in
    if-elim (OnSome (All IsEncoded)) (leb (length tokens) 1) (λ _. start)
      λ _. merge_loop-IsEncoded merges (suc (length tokens)) tokens start

bytes_of_codepoints-append :
    (cs ds : List ℕ)
    → bytes_of_codepoints (cs ++ ds) ≡ bytes_of_codepoints cs ++ bytes_of_codepoints ds
bytes_of_codepoints-append [] ds = refl
bytes_of_codepoints-append (c ∷ cs) ds =
    ap (λ t. found (lookup c unicode_to_bytes) ++ t) (bytes_of_codepoints-append cs ds)
    ∙ sym (
        append_assoc (found (lookup c unicode_to_bytes)) (bytes_of_codepoints cs)
          (bytes_of_codepoints ds))

-- The code points of encoded tokens, and their bytes.
encoded-bytes :
    (ts : List (List ℕ))
    → All IsEncoded ts
    → (cs : List ℕ) × All IsCodepoint cs
      × (concat ts ≡ codepoints_to_utf8 cs)
      × (concat (map token_bytes ts) ≡ bytes_of_codepoints cs)
unfolding token_bytes
encoded-bytes [] _ = ([], tt, refl, refl)
encoded-bytes (t ∷ ts) ((cs, vs, e), all) =
    let (ds, ws, f, g) = encoded-bytes ts all in
    (
      cs ++ ds,
      All-append IsCodepoint cs ds vs ws,
      ap (λ x. x ++ concat ts) e
          ∙ ap (λ x. codepoints_to_utf8 cs ++ x) f
          ∙ sym (codepoints_to_utf8-append cs ds),
      ap (λ x. token_bytes x ++ concat (map token_bytes ts)) e
          ∙ ap (λ x. bytes_of_codepoints x ++ concat (map token_bytes ts)) (utf8-roundtrip cs vs)
          ∙ ap (λ x. bytes_of_codepoints cs ++ x) g
          ∙ sym (bytes_of_codepoints-append cs ds),
    )

-- The bytes of the tokens of a text are the bytes of the text.
pub bpe-bytes :
    (merges : List ℕ → List ℕ → Option ℕ) (bs : List ℕ) (ts : List (List ℕ))
    → All (λ b. b < 256) bs
    → bpe merges (byte_encode bs) ≡ some ts
    → concat ts ≡ byte_encode bs
    → concat (map token_bytes ts) ≡ bs
bpe-bytes merges bs ts bytes e same =
    let (cps, f, valid, back) = byte_encode-codepoints bs bytes in
    let encoded : All IsEncoded ts =
      subst (OnSome (All IsEncoded)) (ap (bpe merges) (sym f) ∙ e)
        (bpe-IsEncoded merges cps valid) in
    let (cs, vs, g, h) = encoded-bytes ts encoded in
    let equal : cs ≡ cps =
      sym (utf8-roundtrip cs vs)
      ∙ ap utf8_to_codepoints (sym g ∙ same ∙ f)
      ∙ utf8-roundtrip cps valid in
    h ∙ ap bytes_of_codepoints equal ∙ back

-- What `byte_encode` writes is valid UTF-8.
pub byte_encode-valid :
    (bs : List ℕ)
    → All (λ b. b < 256) bs
    → codepoints_to_utf8 (utf8_to_codepoints (byte_encode bs)) ≡ byte_encode bs
byte_encode-valid bs bytes =
    let (cps, f, valid, _) = byte_encode-codepoints bs bytes in
    ap (λ t. codepoints_to_utf8 (utf8_to_codepoints t)) f
    ∙ ap codepoints_to_utf8 (utf8-roundtrip cps valid)
    ∙ sym f
