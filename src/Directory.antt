-- ===== src/Directory.antt =====
-- A directory of the data folder: its files by name, in the order in which they are listed. What the
-- calls of tokio::fs do to it, where they fail only for a file that is missing.
pub mod Laws
use rusty_swift_merge.Base.{
  ℕ, ◌/◌, Bool, true, false, ◌&&◌, Option, none, some, List, [], ◌∷◌, ◌++◌, Ordering, ◌==◌,
  if◌then◌else◌,
}
use Prim.Native.Nat.Ordering.{lt, eq, gt}
use rusty_swift_merge.Bytes.{Bytes}
use rusty_swift_merge.Bytes.Order.{cmp}

-- `created` is in nanoseconds since the epoch.
pub record File : Type 0 where
  pub content : Bytes
  pub created : ℕ

-- `as_secs` of the creation time.
abbrev pub seconds : File → ℕ
seconds file = file.created / 1000000000

abbrev pub Directory : Type 0
Directory = List (Bytes × File)

abbrev pub same : Bytes → Bytes → Bool
same a b = elim (cmp a b) [ eq ↦ true | _ ↦ false ]

unfoldable pub find_file : Directory → Bytes → Option File
find_file [] name = none
find_file ((n, file) ∷ dir) name =
    let rest = find_file dir name in if same n name then some file else rest

unfoldable pub remove_file : Directory → Bytes → Directory
remove_file [] name = []
remove_file ((n, file) ∷ dir) name =
    let rest = remove_file dir name in if same n name then rest else (n, file) ∷ rest

-- Under a name that is there already the file is replaced.
abbrev pub store_file : Directory → Bytes → File → Directory
store_file dir name file = remove_file dir name ++ (name, file) ∷ []

-- `File::create`: a file that is there already is truncated, and keeps its creation time.
unfoldable pub create_file : ℕ → Directory → Bytes → Directory
create_file now dir name = elim (find_file dir name) [
  | none ↦ store_file dir name (record { content = []; created = now })
  | some file ↦ store_file dir name (record { content = []; created = file.created })
]

-- The new content of a file that is there.
unfoldable pub write_file : Directory → Bytes → Bytes → Directory
write_file dir name content = elim (find_file dir name) [
  | none ↦ dir
  | some file ↦ store_file dir name (record { content = content; created = file.created })
]

-- The name before its last dot, and what is behind it.
unfoldable pub rsplit_dot : Bytes → Option (Bytes × Bytes)
rsplit_dot [] = none
rsplit_dot (b ∷ name) = elim (rsplit_dot name) [
  | some (stem, ext) ↦ some (b ∷ stem, ext)
  | none ↦ if b == 46 then some ([], name) else none
]

-- `Path::extension`: a name that only starts with a dot has none.
unfoldable pub extension : Bytes → Option Bytes
extension name = elim (rsplit_dot name) [
  | none ↦ none
  | some ([], ext) ↦ none
  | some (b ∷ stem, ext) ↦ some ext
]

-- `str::strip_suffix`.
unfoldable pub strip_suffix : Bytes → Bytes → Option Bytes
strip_suffix [] suffix = if same [] suffix then some [] else none
strip_suffix (b ∷ name) suffix =
    let shorter = strip_suffix name suffix in
    if same (b ∷ name) suffix
    then some []
    else elim shorter [ none ↦ none | some base ↦ some (b ∷ base) ]

unfoldable pub ends_with : Bytes → Bytes → Bool
ends_with name suffix = elim (strip_suffix name suffix) [ none ↦ false | some base ↦ true ]

-- "bin", ".bin", ".tmp" and ".drain".
abbrev pub bin : Bytes
bin = 98 ∷ 105 ∷ 110 ∷ []

abbrev pub ss_table_file_ext : Bytes
ss_table_file_ext = 46 ∷ bin

abbrev pub transition_merged_sstable_ext : Bytes
transition_merged_sstable_ext = 46 ∷ 116 ∷ 109 ∷ 112 ∷ []

abbrev pub drained_file_ext : Bytes
drained_file_ext = 46 ∷ 100 ∷ 114 ∷ 97 ∷ 105 ∷ 110 ∷ []
