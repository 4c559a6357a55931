-- ===== src/Kernel/Files.antt =====
-- The file system, as crates/kernel/src/cgroup_mem.rs uses it. Paths are absolute, and a path is the
-- list of its components, by which `Path` compares; a message shows it with single separators.
pub mod Laws
use blackswan_harness.Prelude.{
  ℕ, Bool, true, false, ◌&&◌, if◌then◌else◌, bytes_eq, Bytes, Text, codes, ◌==◌, length, drop,
  Option, none, some, List, [], ◌∷◌, ◌++◌, ◌⊎◌, Outcome, ok, err, inl, inr,
}
use blackswan_harness.Prelude.Scan.{split, starts_with}
use blackswan_harness.Core.Error.{HarnessError}

abbrev pub FilePath : Type 0
FilePath = List Text

-- `exists`, `read_to_string`, `create_dir_all` and `write`, on a world `W`. An error is its text.
pub record Files (W : Type 0) : Type 0 where
  pub exists : FilePath → W → Bool
  pub read_to_string : FilePath → W → Text ⊎ Text
  pub create_dir_all : FilePath → W → (Text ⊎ Unit {0}) × W
  pub write : FilePath → Text → W → (Text ⊎ Unit {0}) × W

-- A component that is empty or "." is none.
keep : List Text → List Text
keep [] = []
keep ([] ∷ parts) = keep parts
keep ((c ∷ s) ∷ parts) =
    let rest = keep parts in if bytes_eq (c ∷ s) (codes ".") then rest else (c ∷ s) ∷ rest

pub components : Text → List Text
unfolding keep
components s = keep (split b'/' s)

-- `join` of a relative path.
pub join : FilePath → Text → FilePath
unfolding components
join p s = p ++ components s

pub parent : FilePath → Option FilePath
parent [] = none
parent (c ∷ []) = some []
parent (c ∷ d ∷ p) = elim (parent (d ∷ p)) [ none ↦ none | some q ↦ some (c ∷ q) ]

pub path_eq : FilePath → FilePath → Bool
path_eq [] [] = true
path_eq [] (d ∷ q) = false
path_eq (c ∷ p) [] = false
path_eq (c ∷ p) (d ∷ q) = bytes_eq c d && path_eq p q

-- `display`.
pub display : FilePath → Text
display [] = []
display (c ∷ p) = b'/' ∷ (c ++ display p)

-- `strip_prefix` and `trim_start_matches('/')` of a text.
pub strip_prefix : Text → Text → Option Text
strip_prefix s p = if starts_with s p then some (drop (length p) s) else none

pub trim_slashes : Text → Text
trim_slashes [] = []
trim_slashes (c ∷ s) = if c == b'/' then trim_slashes s else c ∷ s

-- A result of the file system as one of the harness.
abbrev pub lift_io : {A : Type 0} → (Text → HarnessError) → Text ⊎ A → Outcome HarnessError A
lift_io f (inl e) = err (f e)
lift_io f (inr a) = ok a
