-- ===== src/Npm/Download/Leaves.antt =====
-- What a download leaves on disk (crates/module_fetcher/src/npm/cache.rs and tarball.rs).
use server_based_deno.Base.{
  ℕ, ◌≡◌, refl, ap, ◌∙◌, true, Option, none, some, List, ◌∷◌, ◌++◌, [], map, get, Text, codes,
  text_keyed, text_beq_iff, nat_beq, Result, ok, err, if◌then◌else◌, Bool-cases, Option-cases, inl,
  inr, arith, split_once, to_lowercase, ◌==◌,
}
use server_based_deno.Npm.{NpmPackageVersionDistInfo, integrity}
use server_based_deno.Npm.Id.Equality.{nv_keyed}
use server_based_deno.Npm.Tarball.{PathBuf, path_keyed, Bytes, Files, TarEntry, extract_tarball}
use server_based_deno.Npm.Tarball.Places.{Holds}
use server_based_deno.Npm.Tarball.Contents.{extract_tarball-Holds}
use server_based_deno.Npm.Download.{
  Algorithm, sha1, sha512, algorithm_of, compared, Folder, absent, locked, ready, files_of,
  is_ready, DownloadError, failed, cleanup_failed, Attempt, verify_tarball_integrity, cleaned,
  after_action, after_lock, with_folder_sync_lock, extract_if, verify_and_extract_tarball,
  extract_download,
}

abbrev pub hash_name : Algorithm → Text
hash_name sha1 = codes "sha1"
hash_name sha512 = codes "sha512"

-- The integrity names an algorithm and a digest in base64, and the digest of the data is that one,
-- but for the case of the letters.
pub record IsVerified (at : Attempt) (data_bytes : Bytes) (npm_integrity : Text) : Type 0 where
  pub algo : Algorithm
  pub checksum : Text
  pub written : npm_integrity ≡ hash_name algo ++ b'-' ∷ checksum
  pub same : to_lowercase (at.digest algo data_bytes) ≡ to_lowercase checksum

-- The files of a folder after a tarball was unpacked there: it was downloaded and verified, all its
-- entries were read, and each path holds the contents of the last entry that lands there, or what it
-- held before.
pub record IsUnpacked (at : Attempt) (dist : NpmPackageVersionDistInfo) (before : Folder)
    (files : Files) : Type 0 where
  pub data_bytes : Bytes
  pub downloaded : at.download dist.tarball ≡ ok (some data_bytes)
  pub verified : IsVerified at data_bytes (integrity dist)
  pub entries : List TarEntry
  pub archive : at.archive data_bytes ≡ ok (map ok entries)
  pub holds :
      (k : PathBuf) → Holds at.output_folder (get k (files_of before)) entries k (get k files)

-- What a download leaves on disk.
pub data Leaves (at : Attempt) (dist : NpmPackageVersionDistInfo) (before : Folder)
    : Result DownloadError (Unit {0}) × Folder → Type 0 where
  whole :
      (files : Files)
      → IsUnpacked at dist before files
      → Leaves at dist before (ok tt, if at.lock_removed then ready files else locked files)
  untouched : (e : DownloadError) → Leaves at dist before (err e, before)
  removed : (e : DownloadError) → Leaves at dist before (err e, absent)
  half_removed :
      (left : Folder)
      → at.folder_removed ≡ some left
      → Leaves at dist before (err cleanup_failed, left)

split_once_inv : (c : ℕ) (s a b : Text) → split_once c s ≡ some (a, b) → s ≡ a ++ c ∷ b
unfolding split_once
split_once_inv c [] a b h = cc
split_once_inv c (d ∷ s) a b h = elim (Bool-cases (nat_beq d c)) [
  | inl same ↦ ground (arith, rw same at h)
  | inr apart ↦ elim (Option-cases (split_once c s)) [
    | inl gone ↦ cc (rw gone at (rw apart at h))
    | inr ((a', b'), e) ↦ ground (arith, split_once_inv c s a' b' e, rw e at (rw apart at h))
  ]
]

algorithm_of-hash_name :
    (kind : Text) (algo : Algorithm) → algorithm_of kind ≡ some algo → kind ≡ hash_name algo
algorithm_of-hash_name kind algo h = elim (Bool-cases (kind == codes "sha512")) [
  | inl is_512 ↦
      let same : sha512 ≡ algo = ground (arith, rw is_512 at h) in
      (text_beq_iff kind (codes "sha512")).0 is_512 ∙ ap hash_name same
  | inr not_512 ↦ elim (Bool-cases (kind == codes "sha1")) [
    | inl is_1 ↦
        let same : sha1 ≡ algo = ground (arith, rw is_1 at (rw not_512 at h)) in
        (text_beq_iff kind (codes "sha1")).0 is_1 ∙ ap hash_name same
    | inr not_1 ↦ cc (rw not_1 at (rw not_512 at h))
  ]
]

verify_tarball_integrity-IsVerified :
    (at : Attempt) (data_bytes : Bytes) (npm_integrity : Text)
    → verify_tarball_integrity at data_bytes npm_integrity ≡ ok tt
    → IsVerified at data_bytes npm_integrity
unfolding verify_tarball_integrity
verify_tarball_integrity-IsVerified at data_bytes npm_integrity h =
    elim (Option-cases (split_once b'-' npm_integrity)) [
      | inl gone ↦ cc (rw gone at h)
      | inr ((kind, checksum), parts) ↦
          let h1 : compared at data_bytes kind checksum (algorithm_of kind) ≡ ok tt =
            rw parts at h in
          elim (Option-cases (algorithm_of kind)) [
            | inl unknown ↦ cc (rw unknown at h1)
            | inr (algo, known) ↦
                elim (Bool-cases
                  (to_lowercase (at.digest algo data_bytes) == to_lowercase checksum)) [
                    | inl same ↦ record {
                      algo = algo;
                      checksum = checksum;
                      written =
                          split_once_inv b'-' npm_integrity kind checksum parts
                          ∙ ap (λ (k : Text). k ++ b'-' ∷ checksum)
                              (algorithm_of-hash_name kind algo known);
                      same =
                          (text_beq_iff (to_lowercase (at.digest algo data_bytes))
                              (to_lowercase checksum)).0
                            same;
                    }
                    | inr apart ↦ cc (rw apart at (rw known at h1))
                  ]
          ]
    ]

module _ (at : Attempt) (dist : NpmPackageVersionDistInfo) (before : Folder) where
  Leaves-cleaned :
      (o : Option Folder) (e : Text) → at.folder_removed ≡ o → Leaves at dist before (cleaned o e)
  Leaves-cleaned none e h = removed (failed e)
  Leaves-cleaned (some left) e h = half_removed left h

  abbrev extraction : Bytes → Result Text Files
  extraction data_bytes =
      extract_tarball at.disk at.output_folder (at.archive data_bytes) (files_of before)

  Leaves-action :
      (data_bytes : Bytes) (r : Result Text Files)
      → at.download dist.tarball ≡ ok (some data_bytes)
      → IsVerified at data_bytes (integrity dist)
      → extraction data_bytes ≡ r
      → Leaves at dist before (after_action at r)
  Leaves-action data_bytes (err e) d v x = Leaves-cleaned at.folder_removed e refl
  Leaves-action data_bytes (ok files) d v x =
      let (entries, archive, holds) =
        extract_tarball-Holds at.disk at.output_folder (at.archive data_bytes) (files_of before)
          files x in
      whole files (record {
        data_bytes = data_bytes;
        downloaded = d;
        verified = v;
        entries = entries;
        archive = archive;
        holds = holds;
      })

  Leaves-lock :
      (data_bytes : Bytes) (r : Result Text (Unit {0}))
      → at.download dist.tarball ≡ ok (some data_bytes)
      → IsVerified at data_bytes (integrity dist)
      → Leaves at dist before (after_lock at r (extraction data_bytes))
  Leaves-lock data_bytes (err e) d v = Leaves-cleaned at.folder_removed e refl
  Leaves-lock data_bytes (ok u) d v = Leaves-action data_bytes (extraction data_bytes) d v refl

  Leaves-extract_if :
      (data_bytes : Bytes) (r : Result DownloadError (Unit {0}))
      → at.download dist.tarball ≡ ok (some data_bytes)
      → verify_tarball_integrity at data_bytes (integrity dist) ≡ r
      → Leaves at dist before (extract_if at data_bytes before r)
  unfolding with_folder_sync_lock
  Leaves-extract_if data_bytes (err e) d v = untouched e
  Leaves-extract_if data_bytes (ok tt) d v =
      Leaves-lock data_bytes at.lock_created d
        (verify_tarball_integrity-IsVerified at data_bytes (integrity dist) v)

  pub Leaves-download :
      (r : Result Text (Option Bytes))
      → at.download dist.tarball ≡ r
      → Leaves at dist before (extract_download at dist before r)
  unfolding verify_and_extract_tarball
  Leaves-download (err e) d = untouched (failed e)
  Leaves-download (ok none) d = untouched _
  Leaves-download (ok (some data_bytes)) d =
      Leaves-extract_if data_bytes (verify_tarball_integrity at data_bytes (integrity dist)) d refl

pub Leaves-ready :
    (at : Attempt) (dist : NpmPackageVersionDistInfo) (before : Folder)
    (x : Result DownloadError (Unit {0}) × Folder)
    → at.lock_removed ≡ true
    → Leaves at dist before x
    → x.0 ≡ ok tt
    → is_ready (some x.1) ≡ true
Leaves-ready at dist before x unlocked (whole files e) h = rw unlocked refl
Leaves-ready at dist before x unlocked (untouched e) h = cc
Leaves-ready at dist before x unlocked (removed e) h = cc
Leaves-ready at dist before x unlocked (half_removed left e) h = cc
