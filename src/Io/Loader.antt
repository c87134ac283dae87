-- ===== src/Io/Loader.antt =====
-- src/io/safetensor_loader.cc: the state of SafeTensorLoader, open, open_model and load. An operation
-- gives its outcome and the state that it leaves, also where it fails.
pub mod Regions
pub mod Indexed
pub mod Sound
use vicold_hybrid_ai.Base.{
  ℕ, ◌+◌, ◌-◌, ◌≡◌, refl, Bool, true, false, ◌||◌, not, Option, none, some, List, [], ◌∷◌, ◌++◌,
  length, take, drop, ltb, ◌==◌, codes, if◌then◌else◌, arith, find, emplace, is_empty, map, ◌>>=◌,
}
use vicold_hybrid_ai.Core.{
  Result, ok, err, StatusCode, invalid_model, file_not_found, invalid_argument, invalid_device,
  out_of_memory, unsupported_d_type, DType, fp32, bf16, Device, is_cpu, MemoryType, host,
  host_pinned, size_of_d_type,
}
use vicold_hybrid_ai.Core.Tensors.{numel}
use vicold_hybrid_ai.Io.Files.{Files, Json, Backend, join}
use vicold_hybrid_ai.Io.Attempt.{Attempt, done, failed, thrown, or_failed}
use vicold_hybrid_ai.Io.Shard.{SafeTensorInfo, Shard, parse_shard}

pub record SafeTensorLoader : Type 0 where
  pub path : List ℕ
  pub data_section_offset : ℕ
  pub tensors : List (List ℕ × SafeTensorInfo)
  pub tensor_shards : List (List ℕ × List ℕ)
  pub shards : List (List ℕ × Shard)

abbrev pub closed : SafeTensorLoader
closed = record {
  path = [];
  data_section_offset = 0;
  tensors = [];
  tensor_shards = [];
  shards = [];
}

abbrev pub State : Type 0
State = Attempt (Unit {0}) × SafeTensorLoader

-- An attempt whose failure leaves the given state.
abbrev pub or_leave : {A : Type 0} → SafeTensorLoader → Attempt A → (A → State) → State
or_leave l (done a) k = k a
or_leave l (failed code) k = (failed code, l)
or_leave l thrown k = (thrown, l)

abbrev pub single : Shard → SafeTensorLoader
single shard = record closed {
  path = shard.path;
  data_section_offset = shard.data_section_offset;
  tensors = shard.tensors;
}

abbrev pub keep_tensor : List ℕ → List ℕ → SafeTensorInfo → SafeTensorLoader → SafeTensorLoader
keep_tensor name shard_name info l = record l {
  tensors = emplace name info l.tensors;
  tensor_shards = emplace name shard_name l.tensor_shards;
}

abbrev pub take_tensor : List ℕ → List ℕ → Option SafeTensorInfo → SafeTensorLoader → State
take_tensor name shard_name (some info) l = (done tt, keep_tensor name shard_name info l)
take_tensor name shard_name none l = (failed invalid_model, l)

abbrev pub found_shard : List ℕ → List ℕ → Option Shard → SafeTensorLoader → State
found_shard name shard_name (some shard) l = take_tensor name shard_name (find name shard.tensors) l
found_shard name shard_name none l = (thrown, l)

-- A step that goes on only after a success.
abbrev pub and_then : State → (SafeTensorLoader → State) → State
and_then (done _, l) k = k l
and_then (failed code, l) k = (failed code, l)
and_then (thrown, l) k = (thrown, l)

abbrev pub is_some {ℓ} : {A : Type ℓ} → Option A → Bool
is_some (some a) = true
is_some none = false

module _ (json : Json) (files : Files) where
  -- `open`
  unfoldable pub open_file : List ℕ → SafeTensorLoader → State
  open_file path l = or_leave closed (parse_shard json files path) λ shard. (done tt, single shard)

  abbrev pub add_shard : List ℕ → List ℕ → Option Shard → SafeTensorLoader → State
  add_shard path shard_name (some shard) l = (done tt, l)
  add_shard path shard_name none l =
      or_leave l (parse_shard json files path)
        λ shard. (done tt, record l { shards = emplace shard_name shard l.shards })

  -- A turn of the loop over the weight map.
  unfoldable pub add_tensor : List ℕ → List ℕ → json.Value → SafeTensorLoader → State
  unfolding find
  add_tensor directory name value l =
      or_leave l (or_failed invalid_model (json.text value)) λ shard_name.
        and_then (add_shard (join directory shard_name) shard_name (find shard_name l.shards) l)
          λ l'. found_shard name shard_name (find shard_name l'.shards) l'

  unfoldable pub add_tensors : List ℕ → List (List ℕ × json.Value) → SafeTensorLoader → State
  unfolding add_tensor
  add_tensors directory [] l = (done tt, l)
  add_tensors directory ((name, value) ∷ items) l =
      and_then (add_tensor directory name value l) λ l'. add_tensors directory items l'

  abbrev pub weight_map : json.Value → Option json.Value
  weight_map index = do
    value ← json.member (codes "weight_map") index
    if json.is_object value then some value else none

  abbrev pub open_index : List ℕ → Option (List ℕ) → SafeTensorLoader → State
  open_index path (some content) l =
      or_leave l (or_failed invalid_model (json.parse content)) λ index.
        or_leave l (or_failed invalid_model (weight_map index)) λ entries.
          and_then (add_tensors path (json.items entries) closed)
            λ l'. (done tt, record l' { path = path })
  open_index path none l =
      let single_file = join path (codes "model.safetensors") in
      if is_some (files.content single_file)
      then open_file single_file l
      else (failed file_not_found, l)

  unfoldable pub open_model : List ℕ → SafeTensorLoader → State
  unfolding open_file add_tensors
  open_model path l =
      if not (files.is_directory path)
      then open_file path l
      else open_index path (files.content (join path (codes "model.safetensors.index.json"))) l

abbrev pub tensor_info : SafeTensorLoader → List ℕ → Option SafeTensorInfo
tensor_info l name = find name l.tensors
