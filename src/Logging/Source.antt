-- ===== src/Logging/Source.antt =====
-- muduo/base/Logging.h, Logger::SourceFile: the last part of a source file's path.
use telnet_serv.Prelude.{
  ℕ, suc, ◌-◌, Option, none, some, List, [], ◌∷◌, ◌==◌, if◌then◌else◌, length, drop,
}

-- data_, with what stands behind it up to the NUL, and size_.
pub record SourceFile : Type 0 where
  pub chars : List ℕ
  pub size : ℕ

-- strrchr(s, c), as an offset.
unfoldable pub strrchr : List ℕ → ℕ → Option ℕ
strrchr [] c = none
strrchr (x ∷ xs) c = elim (strrchr xs c) [
  | some i ↦ some (suc i)
  | none ↦ if x == c then some 0 else none
]

-- SourceFile(const char (&arr)[N]), of a literal without its NUL: N - 1 is its length.
unfoldable pub from_array : List ℕ → SourceFile
from_array arr = elim (strrchr arr b'/') [
  | none ↦ record { chars = arr; size = length arr }
  | some slash ↦ record { chars = drop (suc slash) arr; size = length arr - suc slash }
]

-- SourceFile(const char* filename)
unfoldable pub from_pointer : List ℕ → SourceFile
from_pointer filename = elim (strrchr filename b'/') [
  | none ↦ record { chars = filename; size = length filename }
  | some slash ↦ record {
    chars = drop (suc slash) filename;
    size = length (drop (suc slash) filename);
  }
]
