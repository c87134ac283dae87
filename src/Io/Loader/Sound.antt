-- ===== src/Io/Loader/Sound.antt =====
-- src/io/safetensor_loader.cc: what every state of the loader keeps, also after an operation that fails.
use vicold_hybrid_ai.Base.{
  ℕ, ◌≡◌, refl, sym, subst, not, Option, none, some, List, [], ◌⊎◌, inl, inr, codes, if-elim, find,
  Holds, Holds-nil, find-nonempty,
}
use vicold_hybrid_ai.Core.{invalid_model, ok}
use vicold_hybrid_ai.Io.Files.{Files, Json, join}
use vicold_hybrid_ai.Io.Attempt.{done, failed, thrown, or_failed}
use vicold_hybrid_ai.Io.Shard.{SafeTensorInfo, Shard, parse_shard}
use vicold_hybrid_ai.Io.Loader.{
  SafeTensorLoader, closed, State, single, and_then, open_file, add_tensors, weight_map, open_index,
  open_model, is_some,
}
use vicold_hybrid_ai.Io.Loader.Regions.{IsShard}
use vicold_hybrid_ai.Io.Load.{source_of}
use vicold_hybrid_ai.Io.Loader.Indexed.{
  IsRegion, IsIndexed, shard-IsRegion, or_leave_lem, closed-IsIndexed, parsed-IsShard,
  add_tensors-IsIndexed,
}

-- The file of a tensor and the position of its data section: those of the loader for a single file, and
-- otherwise those of the shard that the weight map names for the tensor.
abbrev pub IsFile : SafeTensorLoader → List ℕ → List ℕ → ℕ → Type 0
IsFile l name path offset =
    (l.tensor_shards ≡ []) × (path ≡ l.path) × (offset ≡ l.data_section_offset)
    ⊎ ((shard_name : List ℕ) × (shard : Shard) × (find name l.tensor_shards ≡ some shard_name)
        × (find shard_name l.shards ≡ some shard)
        × (path ≡ shard.path)
        × (offset ≡ shard.data_section_offset))

-- A tensor has a file, and its bytes lie in the data section of it.
pub record IsStored (files : Files) (l : SafeTensorLoader) (name : List ℕ) (info : SafeTensorInfo)
    : Type 0 where
  pub path : List ℕ
  pub offset : ℕ
  pub file : IsFile l name path offset
  pub region : IsRegion files path offset info

abbrev pub IsSound : Files → SafeTensorLoader → Type 0
IsSound files l = Holds (IsStored files l) l.tensors

source_of-mapped :
    (l : SafeTensorLoader) (name shard_name : List ℕ) (shard : Shard)
    → find name l.tensor_shards ≡ some shard_name
    → find shard_name l.shards ≡ some shard
    → source_of l name ≡ ok (shard.path, shard.data_section_offset)
unfolding source_of
source_of-mapped l name shard_name shard mapped loaded =
    let some_shard = find-nonempty name shard_name l.tensor_shards mapped in
    rw (some_shard, mapped, loaded) refl

-- `load` looks into that file.
pub source_of-file :
    (l : SafeTensorLoader) (name path : List ℕ) (offset : ℕ)
    → IsFile l name path offset
    → source_of l name ≡ ok (path, offset)
unfolding source_of
source_of-file l name path offset (inl (single_file, same_path, same_offset)) =
    rw (single_file, same_path, same_offset) refl
source_of-file l name path offset
      (inr (shard_name, shard, mapped, loaded, same_path, same_offset)) =
    rw (same_path, same_offset) (source_of-mapped l name shard_name shard mapped loaded)

IsIndexed-IsSound :
    (files : Files) (l : SafeTensorLoader) (path : List ℕ)
    → IsIndexed files l
    → IsSound files (record l { path = path })
IsIndexed-IsSound files l path inv name info h =
    let p = inv.tensors name info h in
    let shard = p.shard in
    record {
      path = shard.path;
      offset = shard.data_section_offset;
      file = inr (p.shard_name, shard, p.mapped, p.loaded, refl, refl);
      region =
          shard-IsRegion files shard.path name shard info (inv.shards p.shard_name shard p.loaded)
            p.listed;
    }

pub closed-IsSound : (files : Files) → IsSound files closed
closed-IsSound files = Holds-nil (IsStored files closed)

single-IsSound :
    (files : Files) (path : List ℕ) (shard : Shard)
    → IsShard files path shard
    → IsSound files (single shard)
unfolding source_of
single-IsSound files path shard s name info h = record {
  path = shard.path;
  offset = shard.data_section_offset;
  file = inl (refl, refl, refl);
  region =
      subst (λ p. IsRegion files p shard.data_section_offset info) (sym s.same_path)
        (shard-IsRegion files path name shard info s h);
}

module _ (json : Json) (files : Files) where
  open_file-IsSound :
      (path : List ℕ) (l : SafeTensorLoader) → IsSound files (open_file json files path l).1
  unfolding open_file
  open_file-IsSound path l =
      or_leave_lem (IsSound files) closed (parse_shard json files path) _ (closed-IsSound files)
        λ shard read. single-IsSound files path shard (parsed-IsShard json files path shard read)

  -- The loop, with the path that is set behind it if it succeeds.
  indexed-IsSound :
      (path : List ℕ) (s : State)
      → IsIndexed files s.1
      → IsSound files (and_then s λ l'. (done tt, record l' { path = path })).1
  indexed-IsSound path (done _, l) inv = IsIndexed-IsSound files l path inv
  indexed-IsSound path (failed code, l) inv = IsIndexed-IsSound files l l.path inv
  indexed-IsSound path (thrown, l) inv = IsIndexed-IsSound files l l.path inv

  open_index-IsSound :
      (path : List ℕ) (index : Option (List ℕ)) (l : SafeTensorLoader)
      → IsSound files l
      → IsSound files (open_index json files path index l).1
  open_index-IsSound path none l sound =
      if-elim (λ (s : State). IsSound files s.1)
        (is_some (files.content (join path (codes "model.safetensors"))))
        (λ _. open_file-IsSound (join path (codes "model.safetensors")) l) λ _. sound
  open_index-IsSound path (some content) l sound =
      or_leave_lem (IsSound files) l (or_failed invalid_model (json.parse content)) _ sound
        λ index _.
          or_leave_lem (IsSound files) l (or_failed invalid_model (weight_map json files index)) _
            sound
            λ entries _.
              indexed-IsSound path (add_tensors json files path (json.items entries) closed) (
                add_tensors-IsIndexed json files path (json.items entries) closed
                  (closed-IsIndexed files))

  -- From a sound state, `open_model` ends in a sound state whatever its outcome: each tensor that the
  -- loader then knows has a file, the single one or the shard that the weight map names, and lies with
  -- as many bytes as its shape and type need, modulo 2 ^ 64, in the data section of the file, which
  -- begins behind 8 bytes and a header of the size that these give.
  pub open_model-IsSound :
      (path : List ℕ) (l : SafeTensorLoader)
      → IsSound files l
      → IsSound files (open_model json files path l).1
  unfolding open_model
  open_model-IsSound path l sound =
      if-elim (λ (s : State). IsSound files s.1) (not (files.is_directory path))
        (λ _. open_file-IsSound path l)
        λ _.
          open_index-IsSound path (files.content (join path (codes "model.safetensors.index.json")))
            l sound
