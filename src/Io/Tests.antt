-- ===== src/Io/Tests.antt =====
-- A concrete model directory for src/io: an index that names one shard, with a tensor of two numbers.
use vicold_hybrid_ai.Base.{
  ℕ, ℤ, pos, ◌≡◌, refl, Bool, true, false, Option, none, some, List, [], ◌∷◌, codes, same_text,
  find, if◌then◌else◌, starts_with, emplace,
}
use vicold_hybrid_ai.Core.{ok, Device, host, fp32, cpu_device}
use vicold_hybrid_ai.Io.Files.{Files, Json, Backend}
use vicold_hybrid_ai.Io.Shard.{SafeTensorInfo, parse_shard, parse_d_type, read_entry, read_entries}
use vicold_hybrid_ai.Io.Loader.{SafeTensorLoader, closed, open_model, add_tensors, add_tensor}
use vicold_hybrid_ai.Io.Loader.Sound.{IsSound, closed-IsSound, open_model-IsSound}
use vicold_hybrid_ai.Io.Load.{load}
use vicold_hybrid_ai.Io.Load.Transfer.{transfer, IsContentOf, load-transfer}

-- The JSON values of the two files.
data Value : Type 0 where
  header entry dtype_text dims offsets index entries shard_text : Value

abbrev parse : List ℕ → Option Value
parse text =
    if starts_with (1 ∷ []) text
    then some header
    else if starts_with (2 ∷ []) text
    then some index
    else none

abbrev items : Value → List (List ℕ × Value)
items header = (codes "w", entry) ∷ []
items entries = (codes "w", shard_text) ∷ []
items _ = []

abbrev is_object : Value → Bool
is_object entry = true
is_object entries = true
is_object _ = false

abbrev member : List ℕ → Value → Option Value
member key entry =
    if same_text key (codes "dtype")
    then some dtype_text
    else if same_text key (codes "shape")
    then some dims
    else if same_text key (codes "data_offsets")
    then some offsets
    else none
member key index = if same_text key (codes "weight_map") then some entries else none
member key _ = none

abbrev text : Value → Option (List ℕ)
text dtype_text = some (codes "F32")
text shard_text = some (codes "a")
text _ = none

abbrev integers : Value → Option (List ℤ)
integers dims = some (pos 2 ∷ [])
integers _ = none

abbrev sizes : Value → Option (List ℕ)
sizes offsets = some (0 ∷ 8 ∷ [])
sizes _ = none

abbrev json : Json
json = record {
  Value = Value;
  parse = parse;
  items = items;
  is_object = is_object;
  member = member;
  text = text;
  integers = integers;
  sizes = sizes;
}

-- The length of the header, the header of one byte, and eight bytes of data.
abbrev shard_content : List ℕ
shard_content = 1 ∷ 0 ∷ 0 ∷ 0 ∷ 0 ∷ 0 ∷ 0 ∷ 0 ∷ 1 ∷ 10 ∷ 11 ∷ 12 ∷ 13 ∷ 14 ∷ 15 ∷ 16 ∷ 17 ∷ []

abbrev data_bytes : List ℕ
data_bytes = 10 ∷ 11 ∷ 12 ∷ 13 ∷ 14 ∷ 15 ∷ 16 ∷ 17 ∷ []

abbrev content : List ℕ → Option (List ℕ)
content path =
    if same_text path (codes "m/model.safetensors.index.json")
    then some (2 ∷ [])
    else if same_text path (codes "m/a")
    then some shard_content
    else none

abbrev files : Files
files = record { content = content; is_directory = λ path. same_text path (codes "m") }

abbrev opened : SafeTensorLoader
opened = (open_model json files (codes "m") closed).1

open_model-IsSound_example : IsSound files (open_model json files (codes "m") closed).1
open_model-IsSound_example = open_model-IsSound json files (codes "m") closed (closed-IsSound files)

abbrev tensor : SafeTensorInfo
tensor = record { dtype = fp32; shape = 2 ∷ []; data_begin = 0; data_end = 8 }

abbrev working : Device → Option Backend
working device = some (record {
  create_buffer = λ size memory_type. true;
  allocate = λ memory_type size. true;
  memcpy_h2d = λ bytes. ok tt;
  synchronize = ok tt;
})

opened-tensor : find (codes "w") opened.tensors ≡ some tensor
unfolding open_model add_tensors add_tensor parse_shard read_entries read_entry parse_d_type find
    emplace
opened-tensor = refl

load-transfer_example :
    (bytes : List ℕ) × IsContentOf files opened (codes "w") tensor bytes
    × (load files working opened (codes "w") cpu_device host
        ≡ transfer (working cpu_device) tensor cpu_device host bytes)
load-transfer_example =
    load-transfer files working opened (codes "w") tensor cpu_device host
      (open_model-IsSound json files (codes "m") closed (closed-IsSound files)) opened-tensor
