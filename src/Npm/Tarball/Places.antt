-- ===== src/Npm/Tarball/Places.antt =====
-- Where the entries of a package's tarball land (crates/module_fetcher/src/npm/tarball.rs).
use server_based_deno.Base.{
  ◌≡◌, refl, sym, ap, subst, ◌∙◌, true, Option, some, List, [], ◌∷◌, ◌++◌, any, All, Text, codes,
  ◌==◌, text_keyed, text_beq, text_beq_iff, ok, bind_inv, drop, arith, Bool-cases, inl, inr,
}
use server_based_deno.Npm.Tarball.{
  PathBuf, path_keyed, path_beq_iff, Bytes, regular, TarEntry, Disk, parent, file_name,
  canonicalize, path_starts_with, created,
}

-- A regular entry whose file, without the first component of its path, has this canonical path.
pub data Lands (output : PathBuf) (e : TarEntry) (k : PathBuf) : Type 0 where
  lands :
      (path dir : PathBuf) (name : Text)
      → e.entry_type ≡ regular
      → e.path ≡ ok path
      → output ++ drop 1 path ≡ dir ++ name ∷ []
      → k ≡ canonicalize dir ++ name ∷ []
      → Lands output e k

-- What a path holds: the contents of the last entry that lands there, and then it is inside the
-- output folder; or what it held before.
pub data Holds (output : PathBuf) (before : Option Bytes) (entries : List TarEntry) (k : PathBuf)
    : Option Bytes → Type 0 where
  of_entry :
      (front back : List TarEntry) (e : TarEntry) (inside : PathBuf)
      → entries ≡ front ++ e ∷ back
      → Lands output e k
      → All (λ x. ¬ (Lands output x k)) back
      → k ≡ output ++ inside
      → Holds output before entries k (some e.contents)
  kept : All (λ x. ¬ (Lands output x k)) entries → Holds output before entries k before

pub parent-snoc : (p : PathBuf) (n : Text) → parent (p ++ n ∷ []) ≡ p
parent-snoc [] n = refl
parent-snoc (c ∷ []) n = refl
parent-snoc (c ∷ d ∷ p) n = ap (λ (l : PathBuf). c ∷ l) (parent-snoc (d ∷ p) n)

pub file_name-snoc : (p : PathBuf) (n m : Text) → file_name (p ++ n ∷ []) ≡ some m → n ≡ m
file_name-snoc [] n m h = elim (Bool-cases (n == codes "..")) [
  | inl up ↦ cc (rw up at h)
  | inr down ↦ ground arith
]
file_name-snoc (c ∷ []) n m h = file_name-snoc [] n m h
file_name-snoc (c ∷ d ∷ p) n m h = file_name-snoc (d ∷ p) n m h

pub file_name_inv : (p : PathBuf) (n : Text) → file_name p ≡ some n → p ≡ parent p ++ n ∷ []
file_name_inv [] n h = cc
file_name_inv (c ∷ []) n h = ap (λ (x : Text). x ∷ []) (file_name-snoc [] c n h)
file_name_inv (c ∷ d ∷ p) n h = ap (λ (l : PathBuf). c ∷ l) (file_name_inv (d ∷ p) n h)

pub path_starts_with_inv :
    (q p : PathBuf) → path_starts_with q p ≡ true → (rest : PathBuf) × (p ≡ q ++ rest)
unfolding path_starts_with
path_starts_with_inv [] p h = (p, refl)
path_starts_with_inv (c ∷ q) [] h = cc
path_starts_with_inv (c ∷ q) (d ∷ p) h = elim (Bool-cases (text_beq c d)) [
  | inl same ↦
      let (rest, e) = path_starts_with_inv q p (rw same at h) in
      (
        rest,
        ap (λ (x : Text). x ∷ p) (sym ((text_beq_iff c d).0 same)) ∙ ap (λ (l : PathBuf). c ∷ l) e,
      )
  | inr apart ↦ cc (rw apart at h)
]

-- Every directory that was created is inside.
abbrev pub AreInside : PathBuf → List PathBuf → Type 0
AreInside output dirs = All (λ d. path_starts_with output (canonicalize d) ≡ true) dirs

known-inside :
    (output dir : PathBuf) (dirs : List PathBuf)
    → AreInside output dirs
    → any (λ d. d == dir) dirs ≡ true
    → path_starts_with output (canonicalize dir) ≡ true
known-inside output dir [] inside h = cc
known-inside output dir (d ∷ dirs) (first, inside) h = elim (Bool-cases (d == dir)) [
  | inl same ↦
      subst (λ p. path_starts_with output (canonicalize p) ≡ true) ((path_beq_iff d dir).0 same)
        first
  | inr apart ↦ known-inside output dir dirs inside (rw apart at h)
]

pub created-inside :
    (disk : Disk) (output dir : PathBuf) (dirs dirs' : List PathBuf)
    → AreInside output dirs
    → created disk output dir dirs ≡ ok dirs'
    → AreInside output dirs' × (path_starts_with output (canonicalize dir) ≡ true)
unfolding created
created-inside disk output dir dirs dirs' inside h = elim (Bool-cases (any (λ d. d == dir) dirs)) [
  | inl known ↦
      let same : dirs ≡ dirs' = ground (arith, rw known at h) in
      (subst (AreInside output) same inside, known-inside output dir dirs inside known)
  | inr fresh ↦
      let (u, h', made) = bind_inv (disk.create_dir_all dir) _ dirs' (rw fresh at h) in
      elim (Bool-cases (path_starts_with output (canonicalize dir))) [
        | inl within ↦
            let same : dir ∷ dirs ≡ dirs' = ground (arith, rw within at h') in
            (subst (AreInside output) same (within, inside), within)
        | inr outside ↦ cc (rw outside at h')
      ]
]
