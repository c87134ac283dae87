-- ===== src/Generator/Network.antt =====
-- What `Generator::generate` uses of the network and of the device's memory.
use vicold_hybrid_ai.Base.{ℕ, suc, ◌≡◌, Bool, true, Option, some, List, [], ◌∷◌, length}

-- A `Row` is one row of a hidden state, with the logits that `lm_head` makes of it.
pub record Network : Type 1 where
  pub TargetCache : Type 0
  pub MtpCache : Type 0
  pub Row : Type 0
  -- the caches after `reset()`
  pub empty_target : TargetCache
  pub empty_mtp : MtpCache
  -- `target_forward`: the cache after the ids, and a row for each id
  pub target_forward : TargetCache → List ℕ → Option (TargetCache × List Row)
  -- `qwen_mtp_forward_reference` on the embeddings of ids and as many hidden rows
  pub mtp_forward : MtpCache → List (ℕ × Row) → Option (MtpCache × List Row)
  -- `clone_attention_caches`, `clone_decoder_caches`
  pub clone_mtp : MtpCache → Option MtpCache
  pub clone_target : TargetCache → Option TargetCache
  -- `last_row_copy`, `row_copy`
  pub copy_row : Row → Option Row
  -- `argmax_last_row_reference`, `argmax_rows_reference`
  pub argmax : Row → Option ℕ
  pub argmax_rows : List Row → Option (List ℕ)
  -- whether the backend's `synchronize()` succeeds after a forward
  pub settled : List Row → Bool

-- What the speculative loop relies on, as the comments of generator.cc state it: a forward of several
-- tokens "is causal-equivalent to repeated single-token calls", the verification cache "is a complete
-- checkpoint", and `argmax_rows` answers row by row as `argmax` does.
module _ (net : Network) where
  open net use {
    TargetCache, MtpCache, Row, target_forward, mtp_forward, clone_mtp, clone_target, copy_row,
    argmax, argmax_rows, settled,
  }

  pub record IsCausal : Type 0 where
    pub causal :
        (c : TargetCache) (x y : ℕ) (ys : List ℕ) (end : TargetCache) (rows : List Row)
        → target_forward c (x ∷ y ∷ ys) ≡ some (end, rows)
        → (c' : TargetCache) × (row : Row) × (rest : List Row) × (target_forward c (x ∷ [])
            ≡ some (c', row ∷ []))
          × (target_forward c' (y ∷ ys) ≡ some (end, rest))
          × (rows ≡ row ∷ rest)
    pub one_row :
        (c : TargetCache) (x : ℕ) (end : TargetCache) (rows : List Row)
        → target_forward c (x ∷ []) ≡ some (end, rows)
        → (row : Row) × (rows ≡ row ∷ [])
    pub clone_target_same : (c d : TargetCache) → clone_target c ≡ some d → d ≡ c
    pub argmax_first :
        (row : Row) (rows : List Row) (ids : List ℕ)
        → argmax_rows (row ∷ rows) ≡ some ids
        → (id : ℕ) × (rest : List ℕ) × (argmax row ≡ some id)
          × (argmax_rows rows ≡ some rest)
          × (ids ≡ id ∷ rest)

  -- No operation of the network or of the device fails, and each forward answers with a row for each
  -- token.
  pub record IsReliable : Type 0 where
    pub target_row :
        (c : TargetCache) (x : ℕ) (xs : List ℕ)
        → (c' : TargetCache) × (rows : List Row) × (target_forward c (x ∷ xs) ≡ some (c', rows))
          × (length rows ≡ suc (length xs))
    pub mtp_row :
        (c : MtpCache) (p : ℕ × Row) (ps : List (ℕ × Row))
        → (c' : MtpCache) × (row : Row) × (rows : List Row) × (mtp_forward c (p ∷ ps)
            ≡ some (c', row ∷ rows))
    pub cloned_mtp : (c : MtpCache) → (d : MtpCache) × (clone_mtp c ≡ some d)
    pub cloned_target : (c : TargetCache) → (d : TargetCache) × (clone_target c ≡ some d)
    pub copied : (row : Row) → (copy : Row) × (copy_row row ≡ some copy)
    pub predicted : (row : Row) → (id : ℕ) × (argmax row ≡ some id)
    pub all_predicted :
        (rows : List Row)
        → (ids : List ℕ) × (argmax_rows rows ≡ some ids) × (length ids ≡ length rows)
    pub is_settled : (rows : List Row) → settled rows ≡ true
