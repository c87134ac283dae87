-- ===== src/Lib.antt =====
-- Vicold.HybridAI: an inference library for Qwen models on CPUs and GPUs, written in C++.
--
-- The parts of the program. The generator (src/generator.cc) runs the model on a prompt and appends
-- tokens. With speculative decoding, the multi-token prediction (MTP) head of the model proposes
-- tokens and the model verifies them in one forward pass. The memory pool (src/memory/memory_pool.cc)
-- caches blocks of a backend's allocator, and the memory planner (src/memory/memory_planner.cc)
-- chooses a memory type for a device. The
-- loader of safetensors (src/io) reads the files of a model, from which src/models loads the weights of
-- layers on their devices, and the tokenizer (src/tokenizer) makes ids of texts and texts of ids. All
-- parts share the status codes and devices of src/core.
--
-- The files.
-- Base: the shared names, Boolean tests, lists, options.
-- Core/Status, Core/Devices: src/core/status.h, device.h, dtype.h. A function that returns a Status and
--   fills an output parameter returns a Result; the messages are left out.
-- Core/Tensors: src/core/shape.h, tensor.cc, as far as strides and the copy of
--   `contiguous` go; Core/Tensors/Copies is about the elements that the general copy takes, and
--   Core/Tensors/Loops about the loops for one and two dimensions.
-- Io: src/io/safetensor_loader.cc. Io/Files is what it uses of the file system, of the JSON library and
--   of backends; Io/Attempt an outcome that may be an exception; Io/Shard the header of a file; Io/Loader
--   the state of the loader and how it is opened, Io/Load the reading of tensors. Io/Loader/Regions,
--   Indexed and Sound, and Io/Load/Transfer, prove what the loader keeps and reads.
-- Backends/Registry: src/backends/backend_registry.cc, over the factories of backends. Backends/Manager:
--   src/core/device_manager.cc and the choice of devices in src/models/qwen_reference.cc.
-- Ops/Storage: tensors with buffers in a heap, and the copy of two of them; Ops/Attention and Ops/DeltaNet:
--   the caches of src/ops/attention.h, attention.cc, delta_net.h and delta_net.cc, their Clone modules
--   on what a clone is.
-- Generator: src/generator.cc. Generator/Network is what the loops use of the network, with the
--   assumptions on it. Generator/Defs has the loop over `step` (decode) and the speculative loop
--   (speculate), whose parts follow the blocks of the source: propose, verify, accept_all, reject,
--   replay, recover. Generator/Probe is the greedy loop with the MTP branches that the options switch on,
--   Generator/Api has the types of include/hybrid.h, and Generator/Session is generate itself, with
--   Greedy, Total and Failed on its answers and failures. Generator/Caches has the copies and
--   exchanges of lists of caches, with Complete and Swap on what they do. Generator/Argmax is
--   the argmax on logits, with First and Rows on its answers on the host, Generator/Rows the copies of
--   hidden rows. Generator/Causal, Equivalence, Progress and Counts prove what the loops do.
-- Memory/Buckets: the table of bucket sizes and bucket_index. Memory/Pool: the state of the pool and
--   its calls. Memory/Totals: sums over blocks. Memory/Invariant: what every call keeps. Memory/Ownership:
--   what a user gets. Memory/Planner: select_policy.
-- Models/Names: src/models/model_weight_schema.cc and the names that src/models/qwen3_weights.cc builds.
--   Models/Sharding: src/models/weight_sharding.cc. Models/Partition, with Bounds and Plan:
--   `plan_distributed` of src/models/qwen3_weights.cc, over the names and offsets of an open checkpoint.
--   Models/Quantized: the checks of src/ops/quantized_weight.cc. Models/Weights with Layer, Mtp and
--   Distributed: the loading of weights in src/models/qwen3_weights.cc, over the interface TensorSource,
--   which Models/Weights/Source fills with the loader of Io.
-- Tokenizer/Utf8 with Turns, Tokenizer/Classes with Tables: src/tokenizer/unicode_utils.cc.
--   Tokenizer/Bytes, Segments with Longest, Pieces, Bpe,
--   Codec with Roundtrip and Total: the parts of src/tokenizer/qwen_tokenizer.cc. A turn of a loop takes
--   a byte, a code point or a token at least, so that their number is enough fuel.
-- The Tests modules: concrete runs.
--
-- Bounds and fuel. A size_t wraps at 2 ^ 64. The speculative loop has a round of fuel for each wanted
-- token and one more, which is enough since every round appends a token. The loop over bucket sizes
-- takes as much fuel as sizes lie between the smallest and the largest.
--
-- Not modelled: the floating-point operators and the GPU backends, whose results the network stands
-- for; times and profiling; files, the command line and the third-party JSON library. The growth of a
-- bucket, computed on doubles, is a parameter. The moves of tensors between
-- devices and the loading of the tokenizer and of the configuration have no module yet. A file that
-- exists can be read, and positions in files do not wrap. The caches have no theorem for
-- clone_decoder_caches yet, and Generator::load no module.
pub mod Base
pub mod Core
pub mod Io
pub mod Backends
pub mod Memory
pub mod Models
pub mod Tokenizer
pub mod Ops
pub mod Generator
