-- ===== src/Npm/Tarball/Contents.antt =====
-- What is on the disk after a package was unpacked
-- (crates/module_fetcher/src/npm/tarball.rs).
use server_based_deno.Base.{
  ◌≡◌, ◌≢◌, refl, sym, ap, subst, ◌∙◌, true, false, Option, some, List, [], ◌∷◌, ◌++◌, map, Text,
  get, insert, get-insert, ◌==◌, text_keyed, Result, ok, bind_inv, drop, append_assoc, arith,
  Bool-cases, Option-cases, inl, inr, ◌⊎◌,
}
use server_based_deno.Npm.Tarball.{
  PathBuf, path_keyed, path_beq_iff, Bytes, Files, EntryType, directory, regular, x_global_header,
  other, TarEntry, Disk, parent, file_name, canonicalize, path_starts_with, created, unpack_entry,
  dir_path_of, extract_at, extract_typed, extract_entry, extract_entries, extract_tarball,
}
use server_based_deno.Npm.Tarball.Places.{
  Lands, lands, Holds, of_entry, kept, AreInside, parent-snoc, file_name-snoc, file_name_inv,
  path_starts_with_inv, created-inside,
}

-- What one entry does to a path.
abbrev Effect : PathBuf → TarEntry → PathBuf → Option Bytes → Option Bytes → Type 0
Effect output e k before after =
    (Lands output e k × ((inside : PathBuf) × (k ≡ output ++ inside)) × (after ≡ some e.contents))
    ⊎ ((¬ (Lands output e k)) × (after ≡ before))

Holds-cons :
    (output k : PathBuf) (e : TarEntry) (es : List TarEntry) (before mid after : Option Bytes)
    → Effect output e k before mid
    → Holds output mid es k after
    → Holds output before (e ∷ es) k after
Holds-cons output k e es before mid after effect (of_entry front back e' inside whole l n i) =
    of_entry (e ∷ front) back e' inside (ap (λ (r : List TarEntry). e ∷ r) whole) l n i
Holds-cons output k e es before mid after (inl (l, (inside, i), same)) (kept n) =
    subst (Holds output before (e ∷ es) k) (sym same) (of_entry [] es e inside refl l n i)
Holds-cons output k e es before mid after (inr (not_there, same)) (kept n) =
    subst (Holds output before (e ∷ es) k) (sym same) (kept (not_there, n))

module _ (disk : Disk) (output : PathBuf) where
  not_regular :
      (k : PathBuf) (e : TarEntry) (t : EntryType)
      → e.entry_type ≡ t
      → t ≢ regular
      → ¬ (Lands output e k)
  not_regular k e t is_t apart (lands path dir name reg p q r) = apart (sym is_t ∙ reg)

  abbrev entry : PathBuf → EntryType → Bytes → TarEntry
  entry path t contents = record { path = ok path; entry_type = t; contents = contents }

  unpacked-Effect :
      (k path : PathBuf) (name : Text) (contents : Bytes) (files : Files)
      → file_name (output ++ drop 1 path) ≡ some name
      → path_starts_with output (canonicalize (parent (output ++ drop 1 path))) ≡ true
      → Effect output (entry path regular contents) k (get k files) (
          get k
            (insert (canonicalize (parent (output ++ drop 1 path)) ++ name ∷ []) contents files))
  unpacked-Effect k path name contents files named within =
      let abs = output ++ drop 1 path in
      let dir = canonicalize (parent abs) in
      let key : PathBuf = dir ++ name ∷ [] in
      let (inside, e) = path_starts_with_inv output dir within in
      elim (Bool-cases (key == k)) [
        | inl same ↦
            let is_k : key ≡ k = (path_beq_iff key k).0 same in
            inl (
              lands path (parent abs) name refl refl (file_name_inv abs name named) (sym is_k),
              (
                inside ++ name ∷ [],
                sym is_k
                    ∙ ap (λ (l : PathBuf). l ++ name ∷ []) e
                    ∙ append_assoc output inside (name ∷ []),
              ),
              rw get-insert (rw same refl),
            )
        | inr apart ↦ inr (elsewhere key apart refl, rw get-insert (rw apart refl))
      ]
    where
      elsewhere :
          (key : PathBuf)
          → (key == k) ≡ false
          → key ≡ canonicalize (parent (output ++ drop 1 path)) ++ name ∷ []
          → ¬ (Lands output (entry path regular contents) k)
      elsewhere key apart is_key (lands path' dir name' reg p q r) =
          let same_path : path ≡ path' = ground (arith, p) in
          let whole : output ++ drop 1 path ≡ dir ++ name' ∷ [] =
            ap (λ (l : PathBuf). output ++ drop 1 l) same_path ∙ q in
          let same_dir : parent (output ++ drop 1 path) ≡ dir =
            ap parent whole ∙ parent-snoc dir name' in
          let same_name : name' ≡ name =
            file_name-snoc dir name' name (sym (ap file_name whole) ∙ named) in
          let same : key ≡ k =
            is_key
            ∙ ap (λ (d : PathBuf). canonicalize d ++ name ∷ []) same_dir
            ∙ ap (λ (n : Text). canonicalize dir ++ n ∷ []) (sym same_name)
            ∙ sym r in
          cc (apart, (path_beq_iff key k).1 same)

  abbrev Extracted : TarEntry → List PathBuf × Files → List PathBuf × Files → Type 0
  Extracted e st st' =
      AreInside output st'.0 × ((k : PathBuf) → Effect output e k (get k st.1) (get k st'.1))

  extract_at-Extracted :
      (path : PathBuf) (t : EntryType) (contents : Bytes) (dirs : List PathBuf) (files : Files)
      (st' : List PathBuf × Files)
      → AreInside output dirs
      → extract_at disk output (entry path t contents) (output ++ drop 1 path) (dirs, files)
        ≡ ok st'
      → Extracted (entry path t contents) (dirs, files) st'
  extract_at-Extracted path t contents dirs files (dirs'', files'') inside h =
      let abs = output ++ drop 1 path in
      let (dirs', h1, made) =
        bind_inv (created disk output (dir_path_of t abs) dirs) _ (dirs'', files'') h in
      let (files', h2, unpacked) =
        bind_inv (unpack_entry disk t abs contents files) _ (dirs'', files'') h1 in
      let (inside', within) =
        created-inside disk output (dir_path_of t abs) dirs dirs' inside made in
      let same_dirs : dirs' ≡ dirs'' = ground (arith, h2) in
      let same_files : files' ≡ files'' = ground (arith, h2) in
      (
        subst (AreInside output) same_dirs inside',
        λ k.
            subst (λ (fs : Files). Effect output (entry path t contents) k (get k files) (get k fs))
              same_files (effect t k files' within unpacked),
      )
    where
      effect :
          (t : EntryType) (k : PathBuf) (files' : Files)
          → path_starts_with output (canonicalize (dir_path_of t (output ++ drop 1 path))) ≡ true
          → unpack_entry disk t (output ++ drop 1 path) contents files ≡ ok files'
          → Effect output (entry path t contents) k (get k files) (get k files')
      effect regular k files' within u = elim (Option-cases (file_name (output ++ drop 1 path))) [
        | inl none_there ↦ cc (rw none_there at u)
        | inr (name, named) ↦
            let (x, h3, wrote) =
              bind_inv (disk.unpack (output ++ drop 1 path)) _ files' (rw named at u) in
            let same : insert (canonicalize (parent (output ++ drop 1 path)) ++ name ∷ []) contents
                  files
                ≡ files' =
              ground (arith, h3) in
            subst
              (λ (fs : Files).
                Effect output (entry path regular contents) k (get k files) (get k fs))
              same (unpacked-Effect k path name contents files named within)
      ]
      effect directory k files' within u =
          let same : files ≡ files' = ground (arith, u) in
          inr (not_regular k _ directory refl (λ e. ground arith), ap (get k) (sym same))
      effect x_global_header k files' within u =
          let same : files ≡ files' = ground (arith, u) in
          inr (not_regular k _ x_global_header refl (λ e. ground arith), ap (get k) (sym same))
      effect other k files' within u =
          let same : files ≡ files' = ground (arith, u) in
          inr (not_regular k _ other refl (λ e. ground arith), ap (get k) (sym same))

  extract_typed-Extracted :
      (path : PathBuf) (t : EntryType) (contents : Bytes) (st st' : List PathBuf × Files)
      → AreInside output st.0
      → extract_typed disk output (entry path t contents) t path st ≡ ok st'
      → Extracted (entry path t contents) st st'
  extract_typed-Extracted path x_global_header contents st st' inside h =
      let same : st ≡ st' = ground (arith, h) in
      (
        subst (λ (x : List PathBuf × Files). AreInside output x.0) same inside,
        λ k. inr (
          not_regular k _ x_global_header refl (λ e. ground arith),
          ap (λ (x : List PathBuf × Files). get k x.1) (sym same),
        ),
      )
  extract_typed-Extracted path directory contents (dirs, files) st' inside h =
      extract_at-Extracted path directory contents dirs files st' inside h
  extract_typed-Extracted path regular contents (dirs, files) st' inside h =
      extract_at-Extracted path regular contents dirs files st' inside h
  extract_typed-Extracted path other contents (dirs, files) st' inside h =
      extract_at-Extracted path other contents dirs files st' inside h

  extract_entry-Extracted :
      (e : TarEntry) (st st' : List PathBuf × Files)
      → AreInside output st.0
      → extract_entry disk output e st ≡ ok st'
      → Extracted e st st'
  unfolding extract_entry
  extract_entry-Extracted e st st' inside h =
      let (path, h', p) = bind_inv e.path _ st' h in
      let same : entry path e.entry_type e.contents ≡ e =
        ap
          (λ (r : Result Text PathBuf). record {
            path = r;
            entry_type = e.entry_type;
            contents = e.contents;
          })
          (sym p) in
      let h'' : extract_typed disk output (entry path e.entry_type e.contents) e.entry_type path st
          ≡ ok st' =
        ap (λ (x : TarEntry). extract_typed disk output x e.entry_type path st) same ∙ h' in
      subst (λ (x : TarEntry). Extracted x st st') same
        (extract_typed-Extracted path e.entry_type e.contents st st' inside h'')

  extract_entries-Holds :
      (raw : List (Result Text TarEntry)) (st st' : List PathBuf × Files)
      → AreInside output st.0
      → extract_entries disk output raw st ≡ ok st'
      → (es : List TarEntry) × (raw ≡ map ok es)
        × ((k : PathBuf) → Holds output (get k st.1) es k (get k st'.1))
  unfolding extract_entries
  extract_entries-Holds [] st st' inside h =
      let same : st ≡ st' = ground (arith, h) in
      (
        [],
        refl,
        λ k.
            subst (Holds output (get k st.1) [] k)
              (ap (λ (x : List PathBuf × Files). get k x.1) same) (kept tt),
      )
  extract_entries-Holds (r ∷ raw) st st' inside h =
      let (e, h1, is_e) = bind_inv r _ st' h in
      let (mid, h2, first) = bind_inv (extract_entry disk output e st) _ st' h1 in
      let (inside', effects) = extract_entry-Extracted e st mid inside first in
      let (es, same, holds) = extract_entries-Holds raw mid st' inside' h2 in
      (
        e ∷ es,
        ap (λ (x : Result Text TarEntry). x ∷ raw) is_e
            ∙ ap (λ (l : List (Result Text TarEntry)). ok e ∷ l) same,
        λ k.
            Holds-cons output k e es (get k st.1) (get k mid.1) (get k st'.1) (effects k) (holds k),
      )

  -- A tarball that is unpacked without an error was read to its end, and each path holds the contents
  -- of the last regular entry that lands there without the first component of its path, and then it
  -- is inside the output folder; or what it held before.
  pub extract_tarball-Holds :
      (archive : Result Text (List (Result Text TarEntry))) (files files' : Files)
      → extract_tarball disk output archive files ≡ ok files'
      → (es : List TarEntry) × (archive ≡ ok (map ok es))
        × ((k : PathBuf) → Holds output (get k files) es k (get k files'))
  unfolding extract_tarball
  extract_tarball-Holds archive files files' h =
      let (u, h1, made) = bind_inv (disk.create_dir_all output) _ files' h in
      let (raw, h2, read) = bind_inv archive _ files' h1 in
      let ((dirs, after), h3, done) =
        bind_inv (extract_entries disk output raw ([], files)) _ files' h2 in
      let (es, same, holds) = extract_entries-Holds raw ([], files) (dirs, after) tt done in
      let same_files : after ≡ files' = ground (arith, h3) in
      (
        es,
        read ∙ ap ok same,
        λ k. subst (Holds output (get k files) es k) (ap (get k) same_files) (holds k),
      )
