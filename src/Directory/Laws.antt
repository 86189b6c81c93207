-- ===== src/Directory/Laws.antt =====
-- What is found under a name after each change of a directory.
use rusty_swift_merge.Base.{
  ℕ, ◌≡◌, refl, ap, ap₂, ◌∙◌, arith, Bool, true, false, Option, none, some, [], ◌∷◌, ◌++◌,
  if◌then◌else◌,
}
use rusty_swift_merge.Bytes.{Bytes}
use rusty_swift_merge.Bytes.Order.{cmp_refl, eq_of_cmp}
use rusty_swift_merge.Directory.{
  File, Directory, same, find_file, remove_file, store_file, create_file, write_file,
}

pub find_file-remove_file :
    (dir : Directory) (name q : Bytes)
    → find_file (remove_file dir name) q ≡ (if same name q then none else find_file dir q)
unfolding find_file remove_file
find_file-remove_file [] name q = ground arith
find_file-remove_file ((n, file) ∷ dir) name q = ground (
  arith,
  find_file-remove_file dir name q,
  eq_of_cmp n name,
  eq_of_cmp n q,
  eq_of_cmp name q,
  cmp_refl q,
)

abbrev or_file : Option File → Option File → Option File
or_file none o = o
or_file (some file) o = some file

find_file-append :
    (dir more : Directory) (q : Bytes)
    → find_file (dir ++ more) q ≡ or_file (find_file dir q) (find_file more q)
unfolding find_file
find_file-append [] more q = refl
find_file-append ((n, file) ∷ dir) more q = ground (arith, find_file-append dir more q)

find_file_one :
    (name q : Bytes) (file : File)
    → find_file ((name, file) ∷ []) q ≡ (if same name q then some file else none)
unfolding find_file
find_file_one name q file = refl

pub find_file-store_file :
    (dir : Directory) (name q : Bytes) (file : File)
    → find_file (store_file dir name file) q ≡ (if same name q then some file else find_file dir q)
find_file-store_file dir name q file =
    find_file-append (remove_file dir name) ((name, file) ∷ []) q
    ∙ ap₂ or_file (find_file-remove_file dir name q) (find_file_one name q file)
    ∙ by_found (same name q) (find_file dir q)
  where
    by_found :
        (s : Bool) (o : Option File)
        → or_file (if s then none else o) (if s then some file else none)
          ≡ (if s then some file else o)
    by_found true o = refl
    by_found false none = refl
    by_found false (some f) = refl

pub same_self : (name : Bytes) → same name name ≡ true
same_self name = ground (arith, cmp_refl name)

pub find_file-store_file_ne :
    (dir : Directory) (name q : Bytes) (file : File)
    → same name q ≡ false
    → find_file (store_file dir name file) q ≡ find_file dir q
find_file-store_file_ne dir name q file h =
    find_file-store_file dir name q file
    ∙ ap (λ (s : Bool). if s then some file else find_file dir q) h

pub find_file-store_file_self :
    (dir : Directory) (name : Bytes) (file : File)
    → find_file (store_file dir name file) name ≡ some file
find_file-store_file_self dir name file =
    find_file-store_file dir name name file
    ∙ ap (λ (s : Bool). if s then some file else find_file dir name) (same_self name)

pub find_file-remove_file_ne :
    (dir : Directory) (name q : Bytes)
    → same name q ≡ false
    → find_file (remove_file dir name) q ≡ find_file dir q
find_file-remove_file_ne dir name q h =
    find_file-remove_file dir name q ∙ ap (λ (s : Bool). if s then none else find_file dir q) h

pub find_file-create_file_ne :
    (now : ℕ) (dir : Directory) (name q : Bytes)
    → same name q ≡ false
    → find_file (create_file now dir name) q ≡ find_file dir q
unfolding create_file find_file
find_file-create_file_ne now dir name q h = by_found (find_file dir name) refl
  where
    by_found :
        (o : Option File)
        → find_file dir name ≡ o
        → find_file (create_file now dir name) q ≡ find_file dir q
    by_found none e = rw (create_file, e) (find_file-store_file_ne dir name q _ h)
    by_found (some f) e = rw (create_file, e) (find_file-store_file_ne dir name q _ h)

pub find_file-create_file_self :
    (now : ℕ) (dir : Directory) (name : Bytes)
    → (f : File) × (find_file (create_file now dir name) name ≡ some f)
unfolding create_file find_file
find_file-create_file_self now dir name = by_found (find_file dir name) refl
  where
    by_found :
        (o : Option File)
        → find_file dir name ≡ o
        → (f : File) × (find_file (create_file now dir name) name ≡ some f)
    by_found none e = (
      record { content = []; created = now },
      rw (create_file, e) (find_file-store_file_self dir name _),
    )
    by_found (some f) e = (
      record { content = []; created = f.created },
      rw (create_file, e) (find_file-store_file_self dir name _),
    )

pub find_file-write_file_ne :
    (dir : Directory) (name q content : Bytes)
    → same name q ≡ false
    → find_file (write_file dir name content) q ≡ find_file dir q
unfolding write_file find_file
find_file-write_file_ne dir name q content h = by_found (find_file dir name) refl
  where
    by_found :
        (o : Option File)
        → find_file dir name ≡ o
        → find_file (write_file dir name content) q ≡ find_file dir q
    by_found none e = rw (write_file, e) refl
    by_found (some f) e = rw (write_file, e) (find_file-store_file_ne dir name q _ h)

pub find_file-write_file_self :
    (dir : Directory) (name content : Bytes) {f : File}
    → find_file dir name ≡ some f
    → find_file (write_file dir name content) name
      ≡ some (record { content = content; created = f.created })
unfolding write_file find_file
find_file-write_file_self dir name content e =
    rw (write_file, e) (find_file-store_file_self dir name _)
