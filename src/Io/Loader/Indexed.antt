-- ===== src/Io/Loader/Indexed.antt =====
-- src/io/safetensor_loader.cc: what the loop over the weight map keeps, also where it fails.
use vicold_hybrid_ai.Base.{
  take, ℕ, ◌+◌, ◌-◌, ◌≤◌, ◌≡◌, refl, sym, subst, Option, none, some, List, [], ◌∷◌, length, find,
  emplace, Holds, Holds-nil, Holds-concat, Holds-emplace, find_first, find-emplace_kept,
  find-concat_kept, emplace_new, emplace_old, Option-cases, inl, inr,
}
use vicold_hybrid_ai.Core.{invalid_model}
use vicold_hybrid_ai.Io.Files.{Files, Json, join}
use vicold_hybrid_ai.Io.Attempt.{Attempt, done, failed, thrown, or_failed, Ensures-path}
use vicold_hybrid_ai.Io.Shard.{SafeTensorInfo, Shard, parse_shard}
use vicold_hybrid_ai.Io.Loader.{
  SafeTensorLoader, closed, State, or_leave, keep_tensor, take_tensor, found_shard, and_then,
  add_shard, add_tensor, add_tensors,
}
use vicold_hybrid_ai.Io.Loader.Regions.{weighted, IsWithin, IsShard, parse_shard-IsShard}

-- The bytes of a tensor lie in the data section of a file, which begins behind the header, whose size
-- the first 8 bytes give.
pub record IsRegion (files : Files) (path : List ℕ) (offset : ℕ) (info : SafeTensorInfo)
    : Type 0 where
  pub content : List ℕ
  pub stored : files.content path ≡ some content
  pub header_size : ℕ
  pub header : header_size ≡ weighted 1 (take 8 content)
  pub behind : offset ≡ 8 + header_size
  pub fits : offset ≤ length content
  pub within : IsWithin (length content - offset) info

-- A tensor of a shard that is loaded.
pub record IsPlaced (l : SafeTensorLoader) (name : List ℕ) (info : SafeTensorInfo) : Type 0 where
  pub shard_name : List ℕ
  pub shard : Shard
  pub mapped : find name l.tensor_shards ≡ some shard_name
  pub loaded : find shard_name l.shards ≡ some shard
  pub listed : find name shard.tensors ≡ some info

abbrev pub IsListed : SafeTensorLoader → List ℕ → List ℕ → Type 0
IsListed l name shard_name = (info : SafeTensorInfo) × (find name l.tensors ≡ some info)

-- What the loop over the weight map keeps.
pub record IsIndexed (files : Files) (l : SafeTensorLoader) : Type 0 where
  pub shards : Holds (λ shard_name shard. IsShard files shard.path shard) l.shards
  pub tensors : Holds (IsPlaced l) l.tensors
  pub mapped : Holds (IsListed l) l.tensor_shards

pub shard-IsRegion :
    (files : Files) (path name : List ℕ) (shard : Shard) (info : SafeTensorInfo)
    → IsShard files path shard
    → find name shard.tensors ≡ some info
    → IsRegion files path shard.data_section_offset info
shard-IsRegion files path name shard info s h = record {
  content = s.content;
  stored = s.stored;
  header_size = s.header_size;
  header = s.header;
  behind = s.behind;
  fits = s.fits;
  within = s.within name info h;
}

pub or_leave_lem :
    (P : SafeTensorLoader → Type 0) {A : Type 0} (l : SafeTensorLoader) (m : Attempt A)
    (k : A → State)
    → P l
    → ((a : A) → m ≡ done a → P (k a).1)
    → P (or_leave l m k).1
or_leave_lem P l (done a) k h f = f a refl
or_leave_lem P l (failed code) k h f = h
or_leave_lem P l thrown k h f = h

pub and_then_lem :
    (P : SafeTensorLoader → Type 0) (s : State) (k : SafeTensorLoader → State)
    → P s.1
    → ((l : SafeTensorLoader) → P l → P (k l).1)
    → P (and_then s k).1
and_then_lem P (done _, l) k h f = f l h
and_then_lem P (failed code, l) k h f = h
and_then_lem P (thrown, l) k h f = h

pub closed-IsIndexed : (files : Files) → IsIndexed files closed
closed-IsIndexed files = record {
  shards = Holds-nil (λ shard_name shard. IsShard files shard.path shard);
  tensors = Holds-nil (IsPlaced closed);
  mapped = Holds-nil (IsListed closed);
}

add_new-IsIndexed :
    (files : Files) (l : SafeTensorLoader) (name shard_name : List ℕ) (shard : Shard)
    (info : SafeTensorInfo)
    → IsIndexed files l
    → find shard_name l.shards ≡ some shard
    → find name shard.tensors ≡ some info
    → find name l.tensors ≡ none
    → find name l.tensor_shards ≡ none
    → IsIndexed files (record l {
      tensors = (name, info) ∷ l.tensors;
      tensor_shards = (name, shard_name) ∷ l.tensor_shards;
    })
add_new-IsIndexed files l name shard_name shard info inv loaded listed new unmapped =
    let l' : SafeTensorLoader = record l {
      tensors = (name, info) ∷ l.tensors;
      tensor_shards = (name, shard_name) ∷ l.tensor_shards;
    } in
    record {
      shards = inv.shards;
      tensors =
          Holds-concat (IsPlaced l') name info l.tensors
            (record {
              shard_name = shard_name;
              shard = shard;
              mapped = find_first name shard_name l.tensor_shards;
              loaded = loaded;
              listed = listed;
            })
            λ n i h.
              let p = inv.tensors n i h in
              record {
                shard_name = p.shard_name;
                shard = p.shard;
                mapped =
                    find-concat_kept n name shard_name p.shard_name l.tensor_shards unmapped
                      p.mapped;
                loaded = p.loaded;
                listed = p.listed;
              };
      mapped =
          Holds-concat (IsListed l') name shard_name l.tensor_shards
            (info, find_first name info l.tensors)
            λ n s h.
              let (i, found) = inv.mapped n s h in
              (i, find-concat_kept n name info i l.tensors new found);
    }

keep_tensor-IsIndexed :
    (files : Files) (l : SafeTensorLoader) (name shard_name : List ℕ) (shard : Shard)
    (info : SafeTensorInfo)
    → IsIndexed files l
    → find shard_name l.shards ≡ some shard
    → find name shard.tensors ≡ some info
    → IsIndexed files (keep_tensor name shard_name info l)
keep_tensor-IsIndexed files l name shard_name shard info inv loaded listed =
    elim (Option-cases (find name l.tensors)) [
      | inr (i, old) ↦
          let p = inv.tensors name i old in
          rw
            (
              emplace_old name info i l.tensors old,
              emplace_old name shard_name p.shard_name l.tensor_shards p.mapped,
            )
            inv
      | inl new ↦ elim (Option-cases (find name l.tensor_shards)) [
        | inr (s, old) ↦ let (i, found) = inv.mapped name s old in absurd (cc)
        | inl unmapped ↦
            rw
              (
                emplace_new name info l.tensors new,
                emplace_new name shard_name l.tensor_shards unmapped,
              )
              (add_new-IsIndexed files l name shard_name shard info inv loaded listed new unmapped)
      ]
    ]

take_tensor-IsIndexed :
    (files : Files) (l : SafeTensorLoader) (name shard_name : List ℕ) (shard : Shard)
    (found : Option SafeTensorInfo)
    → IsIndexed files l
    → find shard_name l.shards ≡ some shard
    → find name shard.tensors ≡ found
    → IsIndexed files (take_tensor name shard_name found l).1
take_tensor-IsIndexed files l name shard_name shard (some info) inv loaded h =
    keep_tensor-IsIndexed files l name shard_name shard info inv loaded h
take_tensor-IsIndexed files l name shard_name shard none inv loaded h = inv

found_shard-IsIndexed :
    (files : Files) (l : SafeTensorLoader) (name shard_name : List ℕ) (found : Option Shard)
    → IsIndexed files l
    → find shard_name l.shards ≡ found
    → IsIndexed files (found_shard name shard_name found l).1
found_shard-IsIndexed files l name shard_name (some shard) inv h =
    take_tensor-IsIndexed files l name shard_name shard (find name shard.tensors) inv h refl
found_shard-IsIndexed files l name shard_name none inv h = inv

new_shard-IsIndexed :
    (files : Files) (l : SafeTensorLoader) (shard_name : List ℕ) (shard : Shard)
    → IsIndexed files l
    → IsShard files shard.path shard
    → IsIndexed files (record l { shards = emplace shard_name shard l.shards })
new_shard-IsIndexed files l shard_name shard inv s = record {
  shards =
      Holds-emplace (λ shard_name shard. IsShard files shard.path shard) shard_name shard l.shards s
        inv.shards;
  tensors = λ n i h.
      let p = inv.tensors n i h in
      record {
        shard_name = p.shard_name;
        shard = p.shard;
        mapped = p.mapped;
        loaded = find-emplace_kept p.shard_name shard_name shard p.shard l.shards p.loaded;
        listed = p.listed;
      };
  mapped = inv.mapped;
}

IsShard-own :
    (files : Files) (path : List ℕ) (shard : Shard)
    → IsShard files path shard
    → IsShard files shard.path shard
IsShard-own files path shard s = subst (λ p. IsShard files p shard) (sym s.same_path) s

module _ (json : Json) (files : Files) where
  pub parsed-IsShard :
      (path : List ℕ) (shard : Shard)
      → parse_shard json files path ≡ done shard
      → IsShard files path shard
  parsed-IsShard path shard h =
      Ensures-path (IsShard files path) (parse_shard json files path) shard
        (parse_shard-IsShard json files path) h

  add_shard-IsIndexed :
      (path shard_name : List ℕ) (found : Option Shard) (l : SafeTensorLoader)
      → IsIndexed files l
      → IsIndexed files (add_shard json files path shard_name found l).1
  add_shard-IsIndexed path shard_name (some shard) l inv = inv
  add_shard-IsIndexed path shard_name none l inv =
      or_leave_lem (IsIndexed files) l (parse_shard json files path) _ inv λ shard read.
        new_shard-IsIndexed files l shard_name shard inv
          (IsShard-own files path shard (parsed-IsShard path shard read))

  add_tensor-IsIndexed :
      (directory name : List ℕ) (value : json.Value) (l : SafeTensorLoader)
      → IsIndexed files l
      → IsIndexed files (add_tensor json files directory name value l).1
  unfolding add_tensor
  add_tensor-IsIndexed directory name value l inv =
      let P = IsIndexed files in
      or_leave_lem P l (or_failed invalid_model (json.text value)) _ inv λ shard_name _.
        and_then_lem P
          (add_shard json files (join directory shard_name) shard_name (find shard_name l.shards) l)
          _
          (add_shard-IsIndexed (join directory shard_name) shard_name (find shard_name l.shards) l
            inv)
          λ l' inv'.
            found_shard-IsIndexed files l' name shard_name (find shard_name l'.shards) inv' refl

  pub add_tensors-IsIndexed :
      (directory : List ℕ) (items : List (List ℕ × json.Value)) (l : SafeTensorLoader)
      → IsIndexed files l
      → IsIndexed files (add_tensors json files directory items l).1
  unfolding add_tensors
  add_tensors-IsIndexed directory [] l inv = inv
  add_tensors-IsIndexed directory ((name, value) ∷ items) l inv =
      and_then_lem (IsIndexed files) (add_tensor json files directory name value l) _
        (add_tensor-IsIndexed directory name value l inv)
        λ l' inv'. add_tensors-IsIndexed directory items l' inv'
