-- ===== src/Npm/Tarball.antt =====
-- The unpacking of a package: `extract_tarball` of crates/module_fetcher/src/npm/tarball.rs. The
-- entries that the gzip and tar crates find in the data, and what the file system answers, are
-- arguments.
pub mod Places
pub mod Contents
mod Examples
use server_based_deno.Base.{
  ◌≡◌, refl, ◌↔◌, Bool, true, false, ◌&&◌, Option, none, some, List, [], ◌∷◌, ◌++◌, any, Text,
  codes, Map, insert, Keyed, ◌==◌, text_keyed, text_beq, text_beq_iff, Result, ok, err, ◌>>=◌, drop,
  if◌then◌else◌, arith,
}

-- A path as the list of its components; `..` is one of them.
abbrev pub PathBuf : Type 0
PathBuf = List Text

unfoldable pub path_beq : PathBuf → PathBuf → Bool
path_beq [] [] = true
path_beq (a ∷ p) (b ∷ q) = text_beq a b && path_beq p q
path_beq _ _ = false

pub path_beq_iff : (p q : PathBuf) → (path_beq p q ≡ true) ↔ (p ≡ q)
unfolding path_beq
path_beq_iff [] [] = (λ _. refl, λ _. refl)
path_beq_iff [] (b ∷ q) = (λ h. cc, λ h. cc)
path_beq_iff (a ∷ p) [] = (λ h. cc, λ h. cc)
path_beq_iff (a ∷ p) (b ∷ q) = (
  λ h. ground (arith, text_beq_iff a b, path_beq_iff p q),
  λ h. ground (arith, text_beq_iff a b, path_beq_iff p q),
)

instance abbrev pub path_keyed : Keyed PathBuf
path_keyed = record { same = path_beq; same_iff = path_beq_iff }

abbrev pub Bytes : Type 0
Bytes = Text

-- The files of a disk, by their canonical paths.
abbrev pub Files : Type 0
Files = Map PathBuf Bytes

-- `EntryType` of the tar crate, as far as it is told apart.
pub data EntryType : Type 0 where
  directory regular x_global_header other : EntryType

pub record TarEntry : Type 0 where
  pub path : Result Text PathBuf
  pub entry_type : EntryType
  pub contents : Bytes

-- What the file system answers.
pub record Disk : Type 0 where
  pub create_dir_all : PathBuf → Result Text (Unit {0})
  pub unpack : PathBuf → Result Text (Unit {0})

-- `Path::parent`
abbrev pub parent : PathBuf → PathBuf
parent [] = []
parent (c ∷ []) = []
parent (c ∷ d ∷ p) = c ∷ parent (d ∷ p)

-- `Path::file_name`
abbrev pub file_name : PathBuf → Option Text
file_name [] = none
file_name (c ∷ []) = if c == codes ".." then none else some c
file_name (c ∷ d ∷ p) = file_name (d ∷ p)

-- `fs::canonicalize` of a path on whose way there are no links.
abbrev pub walk : PathBuf → PathBuf → PathBuf
walk from [] = from
walk from (c ∷ p) = if c == codes ".." then walk (parent from) p else walk (from ++ c ∷ []) p

unfoldable pub canonicalize : PathBuf → PathBuf
canonicalize p = walk [] p

-- `Path::starts_with`
unfoldable pub path_starts_with : PathBuf → PathBuf → Bool
path_starts_with [] p = true
path_starts_with (c ∷ q) [] = false
path_starts_with (c ∷ q) (d ∷ p) = text_beq c d && path_starts_with q p

abbrev pub not_in_output : Text
not_in_output = codes "was not in output directory"

-- A directory is created, and checked, once.
unfoldable pub created : Disk → PathBuf → PathBuf → List PathBuf → Result Text (List PathBuf)
created disk output dir_path created_dirs =
    if any (λ d. d == dir_path) created_dirs
    then ok created_dirs
    else (disk.create_dir_all dir_path >>= λ _.
        if path_starts_with output (canonicalize dir_path)
        then ok (dir_path ∷ created_dirs)
        else err not_in_output)

abbrev pub unpack_file : Disk → PathBuf → Bytes → Files → Option Text → Result Text Files
unpack_file disk absolute_path contents files none = err (codes "is a directory")
unpack_file disk absolute_path contents files (some name) = disk.unpack absolute_path >>= λ _.
    ok (insert (canonicalize (parent absolute_path) ++ name ∷ []) contents files)

abbrev pub unpack_entry : Disk → EntryType → PathBuf → Bytes → Files → Result Text Files
unpack_entry disk regular absolute_path contents files =
    unpack_file disk absolute_path contents files (file_name absolute_path)
unpack_entry disk _ absolute_path contents files = ok files

-- The directory of an entry, or the one that it lies in.
abbrev pub dir_path_of : EntryType → PathBuf → PathBuf
dir_path_of directory absolute_path = absolute_path
dir_path_of _ absolute_path = parent absolute_path

abbrev pub extract_at :
    Disk → PathBuf → TarEntry → PathBuf → List PathBuf × Files → Result Text (List PathBuf × Files)
extract_at disk output entry absolute_path (created_dirs, files) =
    created disk output (dir_path_of entry.entry_type absolute_path) created_dirs >>= λ dirs.
    unpack_entry disk entry.entry_type absolute_path entry.contents files >>= λ files'.
    ok (dirs, files')

abbrev pub extract_typed :
    Disk
    → PathBuf
    → TarEntry
    → EntryType
    → PathBuf
    → List PathBuf × Files
    → Result Text (List PathBuf × Files)
extract_typed disk output entry x_global_header path st = ok st
extract_typed disk output entry _ path st = extract_at disk output entry (output ++ drop 1 path) st

unfoldable pub extract_entry :
    Disk → PathBuf → TarEntry → List PathBuf × Files → Result Text (List PathBuf × Files)
extract_entry disk output entry st =
    entry.path >>= λ path. extract_typed disk output entry entry.entry_type path st

unfoldable pub extract_entries :
    Disk
    → PathBuf
    → List (Result Text TarEntry)
    → List PathBuf × Files
    → Result Text (List PathBuf × Files)
extract_entries disk output [] st = ok st
extract_entries disk output (r ∷ rest) st = r >>= λ entry.
    extract_entry disk output entry st >>= λ st'. extract_entries disk output rest st'

-- The files of the disk after the extraction into a canonical folder.
unfoldable pub extract_tarball :
    Disk → PathBuf → Result Text (List (Result Text TarEntry)) → Files → Result Text Files
extract_tarball disk output archive files = disk.create_dir_all output >>= λ _.
    archive >>= λ entries. extract_entries disk output entries ([], files) >>= λ st. ok st.1
