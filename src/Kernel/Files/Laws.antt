-- ===== src/Kernel/Files/Laws.antt =====
-- What the code relies on of the limit files of cgroups: a write that succeeds decides what is read
-- afterwards.
use blackswan_harness.Prelude.{Text, bytes_eq_refl, true, [], ◌∷◌, inr, ◌≡◌, refl, codes, ◌⊎◌}
use blackswan_harness.Kernel.Files.{FilePath, Files, path_eq, join}

-- The files of a cgroup that hold a limit on its memory.
abbrev pub IsLimitFile : Text → Type 0
IsLimitFile name =
    (name ≡ codes "memory.limit_in_bytes")
    ⊎ (name ≡ codes "memory.soft_limit_in_bytes")
    ⊎ (name ≡ codes "memory.max")
    ⊎ (name ≡ codes "memory.high")

-- A limit file of a directory shows, after a write that succeeds, what the kernel makes of the
-- text, such as the number rounded to pages. Nothing is asked of any other file.
pub record WritesBack {W : Type 0} (files : Files W) (shown : FilePath → Text → Text) : Type 0 where
  pub written :
      (dir : FilePath) (name t : Text) (w : W)
      → IsLimitFile name
      → (files.write (join dir name) t w).0 ≡ inr tt
      → files.read_to_string (join dir name) (files.write (join dir name) t w).1
        ≡ inr (shown (join dir name) t)

pub path_eq_refl : (p : FilePath) → path_eq p p ≡ true
unfolding path_eq
path_eq_refl [] = refl
path_eq_refl (c ∷ p) = rw (bytes_eq_refl c, path_eq) (path_eq_refl p)
