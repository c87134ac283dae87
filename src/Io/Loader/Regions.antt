-- ===== src/Io/Loader/Regions.antt =====
-- src/io/safetensor_loader.cc: what a parsed header says of its file.
use mathlib.Core.Option.{some-injective}
use vicold_hybrid_ai.Base.{
  ℕ, ◌+◌, ◌-◌, ◌≤◌, ◌≡◌, refl, sym, subst, ◌*◌, ◌∙◌, ◌||◌, not, Option, some, List, [], ◌∷◌, length,
  take, drop, ltb, ◌==◌, ==_iff, same_text, codes, if-elim, arith, emplace, Holds, Holds-nil,
  Holds-emplace,
}
use vicold_hybrid_ai.Core.{invalid_model, file_not_found}
use vicold_hybrid_ai.Io.Files.{Files, Json}
use vicold_hybrid_ai.Io.Attempt.{
  done, or_failed, or_thrown, Ensures, Ensures-bind, Ensures-check, Ensures-path, or_failed-path,
}
use vicold_hybrid_ai.Io.Shard.{
  SafeTensorInfo, Shard, parse_d_type, little_endian, read_u64_little_endian, read_offsets,
  read_dims, expected_bytes, read_entry, read_entries, parse_shard,
}

-- The bytes of a tensor are as many as its shape and type need, and lie in a data section of a size.
pub record IsWithin (data_size : ℕ) (info : SafeTensorInfo) : Type 0 where
  pub ordered : info.data_begin ≤ info.data_end
  pub ends : info.data_end ≤ data_size
  pub sized : info.data_end - info.data_begin ≡ expected_bytes info.shape info.dtype

read_offsets-ordered :
    (data_size : ℕ) (offsets : List ℕ)
    → Ensures
        (λ range. (range.0 ≤ range.1) × (range.1 ≤ data_size))
        (read_offsets data_size offsets)
read_offsets-ordered data_size [] = tt
read_offsets-ordered data_size (a ∷ []) = tt
read_offsets-ordered data_size (a ∷ b ∷ []) =
    Ensures-check (λ range. (range.0 ≤ range.1) × (range.1 ≤ data_size))
      (not (ltb b a || ltb data_size b)) invalid_model (done (a, b))
      λ h. (ground arith, ground arith)
read_offsets-ordered data_size (a ∷ b ∷ c ∷ xs) = tt

read_entry-IsWithin :
    (json : Json) (data_size : ℕ) (entry : json.Value)
    → Ensures (IsWithin data_size) (read_entry json data_size entry)
unfolding read_entry
read_entry-IsWithin json data_size entry =
    let P = IsWithin data_size in
    Ensures-check P (json.is_object entry) invalid_model _ λ _.
      Ensures-bind P (or_failed invalid_model (json.member (codes "dtype") entry)) _
        λ dtype_value _.
          Ensures-bind P (or_failed invalid_model (json.member (codes "shape") entry)) _
            λ shape_value _.
              Ensures-bind P (or_failed invalid_model (json.member (codes "data_offsets") entry)) _
                λ offsets_value _. Ensures-bind P (or_thrown (json.text dtype_value)) _ λ name _.
                  Ensures-bind P (parse_d_type name) _ λ dtype _.
                    Ensures-bind P (or_failed invalid_model (json.integers shape_value)) _
                      λ signed _.
                        Ensures-bind P (or_failed invalid_model (json.sizes offsets_value)) _
                          λ offsets _.
                            Ensures-bind P (read_offsets data_size offsets) _ λ range in_range.
                              Ensures-bind P (read_dims signed) _ λ dims _.
                                let info : SafeTensorInfo = record {
                                  dtype = dtype;
                                  shape = dims;
                                  data_begin = range.0;
                                  data_end = range.1;
                                } in
                                Ensures-check P (expected_bytes dims dtype == range.1 - range.0)
                                  invalid_model (done info)
                                  λ same.
                                    let (ordered, ends) =
                                      Ensures-path
                                        (λ range. (range.0 ≤ range.1) × (range.1 ≤ data_size))
                                        (read_offsets data_size offsets) range
                                        (read_offsets-ordered data_size offsets) in_range in
                                    record {
                                      ordered = ordered;
                                      ends = ends;
                                      sized = sym (
                                          (==_iff (expected_bytes dims dtype) (range.1 - range.0)).0
                                            same);
                                    }

read_entries-IsWithin :
    (json : Json) (data_size : ℕ) (items : List (List ℕ × json.Value))
    (tensors : List (List ℕ × SafeTensorInfo))
    → Holds (λ name. IsWithin data_size) tensors
    → Ensures (Holds (λ name. IsWithin data_size)) (read_entries json data_size items tensors)
unfolding read_entries
read_entries-IsWithin json data_size [] tensors h = h
read_entries-IsWithin json data_size ((name, entry) ∷ items) tensors h =
    let P = Holds (λ (name : List ℕ). IsWithin data_size) in
    if-elim (Ensures P) (same_text name (codes "__metadata__"))
      (λ _. read_entries-IsWithin json data_size items tensors h)
      λ _. Ensures-bind P (read_entry json data_size entry) _ λ info read.
        read_entries-IsWithin json data_size items (emplace name info tensors) (
          Holds-emplace (λ name. IsWithin data_size) name info tensors
            (Ensures-path (IsWithin data_size) (read_entry json data_size entry) info
              (read_entry-IsWithin json data_size entry) read)
            h)

-- The sum of bytes, each weighted by its place: 1, 256, 256 * 256 and so on from the first one.
abbrev pub weighted : ℕ → List ℕ → ℕ
weighted place [] = 0
weighted place (b ∷ bs) = b * place + weighted (256 * place) bs

weighted-little_endian : (place : ℕ) (bs : List ℕ) → weighted place bs ≡ place * little_endian bs
weighted-little_endian place [] = omega arith
weighted-little_endian place (b ∷ bs) = grind (arith, weighted-little_endian (256 * place) bs)

read_u64-weighted :
    (content : List ℕ) (n : ℕ)
    → read_u64_little_endian content ≡ some n
    → n ≡ weighted 1 (take 8 content)
read_u64-weighted content n =
    let P : Option ℕ → Type 0 = λ o. o ≡ some n → n ≡ weighted 1 (take 8 content) in
    if-elim P (ltb (length content) 8) (λ _ h. absurd (cc))
      λ _ h.
        sym (some-injective (little_endian (take 8 content)) n h)
        ∙ sym (weighted-little_endian 1 (take 8 content) ∙ omega arith)

-- A shard describes a file: the first 8 bytes give the size of the header, the data section is what
-- is behind the header, and each tensor lies in it.
pub record IsShard (files : Files) (path : List ℕ) (shard : Shard) : Type 0 where
  pub same_path : shard.path ≡ path
  pub content : List ℕ
  pub stored : files.content path ≡ some content
  pub header_size : ℕ
  pub header : header_size ≡ weighted 1 (take 8 content)
  pub behind : shard.data_section_offset ≡ 8 + header_size
  pub fits : shard.data_section_offset ≤ length content
  pub within : Holds (λ name. IsWithin (length content - shard.data_section_offset)) shard.tensors

pub parse_shard-IsShard :
    (json : Json) (files : Files) (path : List ℕ)
    → Ensures (IsShard files path) (parse_shard json files path)
unfolding parse_shard
parse_shard-IsShard json files path =
    let P = IsShard files path in
    Ensures-bind P (or_failed file_not_found (files.content path)) _ λ content stored.
      Ensures-bind P (or_failed invalid_model (read_u64_little_endian content)) _
        λ header_size header.
          Ensures-check P (not (ltb (length content) 8 || ltb (length content - 8) header_size))
            invalid_model _
            λ fits.
              Ensures-bind P
                (or_failed invalid_model (json.parse (take header_size (drop 8 content)))) _
                λ metadata _.
                  Ensures-bind P
                    (read_entries json (length content - 8 - header_size) (json.items metadata) [])
                    _
                    λ tensors read.
                      let data_size : length content - 8 - header_size
                          ≡ length content - (8 + header_size) =
                        omega arith in
                      record {
                        same_path = refl;
                        content = content;
                        stored = or_failed-path file_not_found (files.content path) content stored;
                        header_size = header_size;
                        header = read_u64-weighted content header_size (
                            or_failed-path invalid_model (read_u64_little_endian content)
                              header_size header);
                        behind = refl;
                        fits = ground arith;
                        within =
                            subst (λ n. Holds (λ name. IsWithin n) tensors) data_size
                              (Ensures-path
                                (Holds (λ name. IsWithin (length content - 8 - header_size)))
                                (read_entries json (length content - 8 - header_size)
                                  (json.items metadata) [])
                                tensors
                                (read_entries-IsWithin json (length content - 8 - header_size)
                                  (json.items metadata) []
                                  (Holds-nil (λ name. IsWithin (length content - 8 - header_size))))
                                read);
                      }
