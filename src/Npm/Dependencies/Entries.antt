-- ===== src/Npm/Dependencies/Entries.antt =====
-- The entries of a published version (crates/module_fetcher/src/npm/registry.rs).
use server_based_deno.Base.{
  ◌≡◌, refl, sym, ap, ◌∙◌, Bool, none, some, [], ◌∷◌, Text, Map, get, insert, get-insert,
  text_keyed, ok, bind_inv, Bool-cases, Option-cases, inl, inr, ◌==◌,
}
use server_based_deno.Npm.{Semver, NpmPackageVersionInfo}
use server_based_deno.Npm.Dependencies.{
  NpmDependencyEntry, NpmDependencyEntryKind, dep, Entries, parse_dep_entry, peer_kind,
  peer_entries, merged, dep_entries, dependencies_as_entries,
}
use server_based_deno.Npm.Dependencies.Local.{IsMap}
use server_based_deno.Npm.Dependencies.Described.{
  peer_kind-PeerKind, Describes, IsEntry, parse_dep_entry-IsEntry,
}

module _ (sv : Semver) where
  open sv use {Req}

  bare_specifier_kept :
      (key value : Text) (kind : NpmDependencyEntryKind) (e : NpmDependencyEntry sv.Req)
      → parse_dep_entry sv key value kind ≡ ok e
      → e.bare_specifier ≡ key
  bare_specifier_kept key value kind e h = (parse_dep_entry-IsEntry sv key value kind e h).of_key

  get-peer_entries :
      (k : Text) (meta : Map Text Bool) (m : Map Text Text) (r r' : Entries sv)
      → IsMap m
      → peer_entries sv meta m r ≡ ok r'
      → get k m ≡ none
      → get k r' ≡ get k r
  unfolding peer_entries get
  get-peer_entries k meta [] r r' once h gone = ap (get k) (cc h)
  get-peer_entries k meta ((j, v) ∷ rest) r r' (fresh, once) h gone =
      let (e, h', parsed) = bind_inv (parse_dep_entry sv j v (peer_kind (get j meta))) _ r' h in
      let bare = bare_specifier_kept j v _ e parsed in
      elim (Bool-cases (j == k)) [
        | inl same ↦ cc (rw same at gone)
        | inr other ↦
            let ih =
              get-peer_entries k meta rest (insert e.bare_specifier e r) r' once h'
                (rw other at gone) in
            ih ∙ rw bare (rw get-insert (rw other refl))
      ]

  get-peer_entries-some :
      (k v : Text) (meta : Map Text Bool) (m : Map Text Text) (r r' : Entries sv)
      → IsMap m
      → peer_entries sv meta m r ≡ ok r'
      → get k m ≡ some v
      → (e : NpmDependencyEntry sv.Req) × (get k r' ≡ some e)
        × (parse_dep_entry sv k v (peer_kind (get k meta)) ≡ ok e)
  unfolding peer_entries get
  get-peer_entries-some k v meta [] r r' once h found = cc
  get-peer_entries-some k v meta ((j, w) ∷ rest) r r' (fresh, once) h found =
      let (e, h', parsed) = bind_inv (parse_dep_entry sv j w (peer_kind (get j meta))) _ r' h in
      let bare = bare_specifier_kept j w _ e parsed in
      elim (Bool-cases (j == k)) [
        | inl same ↦
            let eq = (text_keyed.same_iff j k).0 same in
            let val : w ≡ v = cc (rw same at found) in
            let ih =
              get-peer_entries k meta rest (insert e.bare_specifier e r) r' once h'
                (rw (sym eq) fresh) in
            let here : get k (insert e.bare_specifier e r) ≡ some e =
              rw bare (rw get-insert (rw same refl)) in
            let parsed' : parse_dep_entry sv k v (peer_kind (get k meta)) ≡ ok e =
              rw (sym eq) (rw (sym val) parsed) in
            (e, ih ∙ here, parsed')
        | inr other ↦
            get-peer_entries-some k v meta rest (insert e.bare_specifier e r) r' once h'
              (rw other at found)
      ]

  get-dep_entries :
      (k : Text) (m : Map Text Text) (r r' : Entries sv)
      → IsMap m
      → dep_entries sv m r ≡ ok r'
      → get k m ≡ none
      → get k r' ≡ get k r
  unfolding dep_entries get
  get-dep_entries k [] r r' once h gone = ap (get k) (sym (cc h))
  get-dep_entries k ((j, v) ∷ rest) r r' (fresh, once) h gone =
      let (e, h', parsed) = bind_inv (parse_dep_entry sv j v dep) _ r' h in
      let bare = bare_specifier_kept j v dep e parsed in
      elim (Bool-cases (j == k)) [
        | inl same ↦ cc (rw same at gone)
        | inr other ↦
            let ih = get-dep_entries k rest _ r' once h' (rw other at gone) in
            ih ∙ rw bare (rw get-insert (rw other refl))
      ]

  get-dep_entries-some :
      (k v : Text) (m : Map Text Text) (r r' : Entries sv)
      → IsMap m
      → dep_entries sv m r ≡ ok r'
      → get k m ≡ some v
      → (e : NpmDependencyEntry sv.Req) × (get k r' ≡ some (merged sv e (get k r)))
        × (parse_dep_entry sv k v dep ≡ ok e)
  unfolding dep_entries get
  get-dep_entries-some k v [] r r' once h found = cc
  get-dep_entries-some k v ((j, w) ∷ rest) r r' (fresh, once) h found =
      let (e, h', parsed) = bind_inv (parse_dep_entry sv j w dep) _ r' h in
      let bare = bare_specifier_kept j w dep e parsed in
      let next : Entries sv = insert e.bare_specifier (merged sv e (get e.bare_specifier r)) r in
      elim (Bool-cases (j == k)) [
        | inl same ↦
            let eq = (text_keyed.same_iff j k).0 same in
            let val : w ≡ v = cc (rw same at found) in
            let ih = get-dep_entries k rest next r' once h' (rw (sym eq) fresh) in
            let here : get k next ≡ some (merged sv e (get k r)) =
              rw bare (rw get-insert (rw same (rw eq refl))) in
            let parsed' : parse_dep_entry sv k v dep ≡ ok e = rw (sym eq) (rw (sym val) parsed) in
            (e, ih ∙ here, parsed')
        | inr other ↦
            let (e', ih, parsed') =
              get-dep_entries-some k v rest next r' once h' (rw other at found) in
            let there : get k next ≡ get k r = rw bare (rw get-insert (rw other refl)) in
            (e', ih ∙ ap (λ o. some (merged sv e' o)) there, parsed')
      ]

  merged-IsEntry :
      (key value : Text) (kind : NpmDependencyEntryKind) (d e : NpmDependencyEntry sv.Req)
      → IsEntry sv key value kind none e
      → IsEntry sv key value kind (some d.version_req) (merged sv d (some e))
  merged-IsEntry key value kind d e h = record {
    of_key = h.of_key;
    of_kind = h.of_kind;
    reads = h.reads;
    falls_back = refl;
  }

  -- Where the entries of a version can be read, each key of its peers is a peer, optional if the
  -- metadata says so, with the requirement of a dependency of the same key as its fallback; a key of
  -- its dependencies alone is a dependency, and no other key has an entry. An entry keeps its key,
  -- and has the name and the requirement that its value stands for, be it an alias or not.
  pub dependencies_as_entries-get :
      (k : Text) (info : NpmPackageVersionInfo) (entries : Entries sv)
      → IsMap info.peer_dependencies
      → IsMap info.dependencies
      → dependencies_as_entries sv info ≡ ok entries
      → Describes sv k
          (get k info.peer_dependencies_meta)
          (get k info.dependencies)
          (get k info.peer_dependencies)
          (get k entries)
  unfolding dependencies_as_entries get
  dependencies_as_entries-get k info entries once_peers once_deps h =
      let meta = info.peer_dependencies_meta in
      let flag = get k meta in
      let is_kind = peer_kind-PeerKind flag in
      let (peers, h', read) =
        bind_inv (peer_entries sv meta info.peer_dependencies []) _ entries h in
      elim (Option-cases (get k info.dependencies)) [
        | inl no_dep ↦
            let same = get-dep_entries k info.dependencies peers entries once_deps h' no_dep in
            elim (Option-cases (get k info.peer_dependencies)) [
              | inl no_peer ↦
                  let gone : get k entries ≡ none =
                    same
                    ∙ get-peer_entries k meta info.peer_dependencies [] peers once_peers read
                        no_peer in
                  rw no_dep (rw no_peer (rw gone Describes.nothing))
              | inr (v, found) ↦
                  let (e, at_k, parsed) =
                    get-peer_entries-some k v meta info.peer_dependencies [] peers once_peers read
                      found in
                  let there : get k entries ≡ some e = same ∙ at_k in
                  let is_entry = parse_dep_entry-IsEntry sv k v _ e parsed in
                  rw no_dep (rw found (rw there (Describes.peer v _ e is_kind is_entry)))
            ]
        | inr (w, dep_found) ↦
            let (d, dep_at, dep_parsed) =
              get-dep_entries-some k w info.dependencies peers entries once_deps h' dep_found in
            let is_dep = parse_dep_entry-IsEntry sv k w dep d dep_parsed in
            elim (Option-cases (get k info.peer_dependencies)) [
              | inl no_peer ↦
                  let there : get k entries ≡ some d =
                    dep_at
                    ∙ ap (λ o. some (merged sv d o))
                        (get-peer_entries k meta info.peer_dependencies [] peers once_peers read
                          no_peer) in
                  rw dep_found (rw no_peer (rw there (Describes.dependency w d is_dep)))
              | inr (v, found) ↦
                  let (e, at_k, parsed) =
                    get-peer_entries-some k v meta info.peer_dependencies [] peers once_peers read
                      found in
                  let there : get k entries ≡ some (merged sv d (some e)) =
                    dep_at ∙ ap (λ o. some (merged sv d o)) at_k in
                  let is_entry =
                    merged-IsEntry k v _ d e (parse_dep_entry-IsEntry sv k v _ e parsed) in
                  rw dep_found (
                    rw found (
                      rw there (
                        Describes.peer_and_dependency w d.name v d.version_req _ _ is_dep.reads
                          is_kind is_entry)))
            ]
      ]
