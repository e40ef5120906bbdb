-- ===== src/Npm/Tarball/Examples.antt =====
-- Archives that are unpacked, and one with an entry that lies outside of the folder.
use server_based_deno.Base.{
  ◌≡◌, refl, List, [], ◌∷◌, map, Text, codes, text_beq, get, insert, Result, ok, err,
}
use server_based_deno.Npm.Tarball.{
  PathBuf, path_keyed, path_beq, Bytes, Files, EntryType, directory, regular, x_global_header,
  TarEntry, Disk, canonicalize, path_starts_with, created, not_in_output, extract_entry,
  extract_entries, extract_tarball,
}
use server_based_deno.Npm.Tarball.Places.{Holds}
use server_based_deno.Npm.Tarball.Contents.{extract_tarball-Holds}

abbrev willing : Disk
willing = record { create_dir_all = λ p. ok tt; unpack = λ p. ok tt }

abbrev entry : List Text → EntryType → Bytes → TarEntry
entry path entry_type contents = record {
  path = ok path;
  entry_type = entry_type;
  contents = contents;
}

abbrev output : PathBuf
output = codes "npm" ∷ codes "chalk" ∷ []

abbrev index_js : PathBuf
index_js = codes "npm" ∷ codes "chalk" ∷ codes "index.js" ∷ []

abbrev entries : List TarEntry
entries =
    entry (codes "pax_global_header" ∷ []) x_global_header (codes "h")
    ∷ entry (codes "package" ∷ codes "lib" ∷ []) directory []
    ∷ entry (codes "package" ∷ codes "index.js" ∷ []) regular (codes "1")
    ∷ entry (codes "package" ∷ codes "lib" ∷ codes ".." ∷ codes "index.js" ∷ []) regular (codes "2")
    ∷ []

abbrev before : Files
before = (index_js, codes "0") ∷ []

abbrev after : Files
after = (index_js, codes "2") ∷ []

unpacked : extract_tarball willing output (ok (map ok entries)) before ≡ ok after
unfolding extract_tarball extract_entries extract_entry created canonicalize path_starts_with
    path_beq text_beq insert
unpacked = refl

extract_tarball-Holds_example :
    (es : List TarEntry) × (◌≡◌ {A = Result Text (List (Result Text TarEntry))}
      (ok (map ok entries))
      (ok (map ok es)))
    × ((k : PathBuf) → Holds output (get k before) es k (get k after))
extract_tarball-Holds_example =
    extract_tarball-Holds willing output (ok (map ok entries)) before after unpacked

outside_refused :
    extract_tarball willing output
      (ok (ok (entry (codes "package" ∷ codes ".." ∷ codes "evil.js" ∷ []) regular []) ∷ []))
      []
    ≡ err not_in_output
unfolding extract_tarball extract_entries extract_entry created canonicalize path_starts_with
    path_beq text_beq
outside_refused = refl
