-- ===== src/Io/Files.antt =====
-- What src/io uses of the outside: the file system, the JSON library and the backends of devices.
use vicold_hybrid_ai.Base.{
  ℕ, ℤ, Bool, Option, List, [], ◌∷◌, ◌++◌, is_empty, starts_with, ends_with, if◌then◌else◌, ◌||◌,
}
use vicold_hybrid_ai.Core.{Result, MemoryType}

-- The bytes of a file that exists and can be read. A path is a list of bytes.
pub record Files : Type 0 where
  pub content : List ℕ → Option (List ℕ)
  pub is_directory : List ℕ → Bool

abbrev slash : List ℕ
slash = b'/' ∷ []

-- `std::filesystem::path(directory) / name`
abbrev pub join : List ℕ → List ℕ → List ℕ
join directory name =
    if starts_with slash name
    then name
    else if is_empty directory || ends_with slash directory
    then directory ++ name
    else directory ++ slash ++ name

-- The calls of the JSON library, each with `none` for an exception or a member that is not there.
pub record Json : Type 1 where
  pub Value : Type 0
  pub parse : List ℕ → Option Value
  pub items : Value → List (List ℕ × Value)
  pub is_object : Value → Bool
  pub member : List ℕ → Value → Option Value
  pub text : Value → Option (List ℕ)
  pub integers : Value → Option (List ℤ)
  pub sizes : Value → Option (List ℕ)

-- The calls of a backend, with the sizes and bytes that they are given.
pub record Backend : Type 0 where
  pub create_buffer : ℕ → MemoryType → Bool
  pub allocate : MemoryType → ℕ → Bool
  pub memcpy_h2d : List ℕ → Result (Unit {0})
  pub synchronize : Result (Unit {0})
