-- ===== src/Npm/Dependencies/Described.antt =====
-- What the entries of a published version stand for
-- (crates/module_fetcher/src/npm/registry.rs).
use server_based_deno.Base.{
  ℕ, ◌≡◌, ◌≢◌, refl, ap, subst, ◌∙◌, Bool, true, false, Option, none, some, [], ◌∷◌, ◌++◌, Text,
  codes, text_keyed, Result, ok, bind_inv, arith, Option-cases, inl, inr, Without, strip_prefix,
  strip_prefix_inv, strip_prefix-append, rsplit_once,
}
use server_based_deno.Npm.{Semver}
use server_based_deno.Npm.Dependencies.{
  DepError, NpmDependencyEntry, NpmDependencyEntryKind, dep, peer_dep, optional_peer,
  parse_dep_entry_name_and_raw_version, entry_of, parse_dep_entry, peer_kind,
}

-- What the metadata of a peer make of it.
pub data PeerKind (flag : Option Bool) : NpmDependencyEntryKind → Type 0 where
  optional : flag ≡ some true → PeerKind flag optional_peer
  required : flag ≢ some true → PeerKind flag peer_dep

pub peer_kind-PeerKind : (flag : Option Bool) → PeerKind flag (peer_kind flag)
peer_kind-PeerKind none = PeerKind.required (λ e. cc)
peer_kind-PeerKind (some false) = PeerKind.required (λ e. ground arith)
peer_kind-PeerKind (some true) = PeerKind.optional refl

rsplit_once-none : (c : ℕ) (s : Text) → rsplit_once c s ≡ none → Without c s
unfolding rsplit_once
rsplit_once-none c [] h = tt
rsplit_once-none c (d ∷ s) h = elim (Option-cases (rsplit_once c s)) [
  | inl gone ↦ ground (arith, rsplit_once-none c s gone)
  | inr (found, e) ↦ cc (rw e at h)
]

rsplit_once_inv :
    (c : ℕ) (s a b : Text) → rsplit_once c s ≡ some (a, b) → (s ≡ a ++ c ∷ b) × Without c b
unfolding rsplit_once
rsplit_once_inv c [] a b h = cc
rsplit_once_inv c (d ∷ s) a b h = elim (Option-cases (rsplit_once c s)) [
  | inl gone ↦ ground (arith, rsplit_once-none c s gone)
  | inr ((a', b'), e) ↦ ground (arith, rsplit_once_inv c s a' b' e)
]

module _ (sv : Semver) where
  open sv use {Req, parse_req_from_npm}

  -- What a value stands for: a requirement on the package that its key names, or an alias
  -- `npm:{name}@{version}`, whose version has no `@`.
  pub data Reads (key value name : Text) (req : Req) : Type 0 where
    plain :
        ((rest : Text) → value ≢ codes "npm:" ++ rest)
        → name ≡ key
        → parse_req_from_npm value ≡ some req
        → Reads key value name req
    alias :
        (version : Text)
        → value ≡ codes "npm:" ++ (name ++ b'@' ∷ version)
        → Without b'@' version
        → parse_req_from_npm version ≡ some req
        → Reads key value name req

  pub record IsEntry (key value : Text) (kind : NpmDependencyEntryKind) (fallback : Option Req)
      (e : NpmDependencyEntry sv.Req) : Type 0 where
    pub of_key : e.bare_specifier ≡ key
    pub of_kind : e.kind ≡ kind
    pub reads : Reads key value e.name e.version_req
    pub falls_back : e.peer_dep_version_req ≡ fallback

  -- The entry of a key, by the values that the dependencies and the peers have for it.
  pub data Describes (key : Text) (flag : Option Bool)
      : Option Text → Option Text → Option (NpmDependencyEntry sv.Req) → Type 0 where
    nothing : Describes key flag none none none
    dependency :
        (value : Text) (e : NpmDependencyEntry sv.Req)
        → IsEntry key value dep none e
        → Describes key flag (some value) none (some e)
    peer :
        (value : Text) (kind : NpmDependencyEntryKind) (e : NpmDependencyEntry sv.Req)
        → PeerKind flag kind
        → IsEntry key value kind none e
        → Describes key flag none (some value) (some e)
    peer_and_dependency :
        (dep_value dep_name value : Text) (dep_req : Req) (kind : NpmDependencyEntryKind)
        (e : NpmDependencyEntry sv.Req)
        → Reads key dep_value dep_name dep_req
        → PeerKind flag kind
        → IsEntry key value kind (some dep_req) e
        → Describes key flag (some dep_value) (some value) (some e)

  name-Reads :
      (key value name text : Text) (req : Req)
      → parse_dep_entry_name_and_raw_version key value ≡ ok (name, text)
      → parse_req_from_npm text ≡ some req
      → Reads key value name req
  unfolding parse_dep_entry_name_and_raw_version
  name-Reads key value name text req h r = elim (Option-cases (strip_prefix (codes "npm:") value)) [
    | inl plain_value ↦
        let h' : ◌≡◌ {A = Result DepError (Text × Text)} (ok (key, value)) (ok (name, text)) =
          rw plain_value at h in
        let same : value ≡ text = ground arith in
        Reads.plain
          (λ rest e. cc (
            plain_value,
            ap (strip_prefix (codes "npm:")) e,
            strip_prefix-append (codes "npm:") rest,
          ))
          (ground arith) (ap parse_req_from_npm same ∙ r)
    | inr (rest, found) ↦ elim (Option-cases (rsplit_once b'@' rest)) [
      | inl gone ↦ cc (rw gone at (rw found at h))
      | inr ((a, b), split) ↦
          let h' : ◌≡◌ {A = Result DepError (Text × Text)} (ok (a, b)) (ok (name, text)) =
            rw split at (rw found at h) in
          let (parts, last) = rsplit_once_inv b'@' rest a b split in
          let same_name : a ≡ name = ground arith in
          let same : b ≡ text = ground arith in
          Reads.alias b
            (strip_prefix_inv (codes "npm:") value found
              ∙ ap (λ (l : Text). codes "npm:" ++ l)
                  (parts ∙ ap (λ (l : Text). l ++ b'@' ∷ b) same_name))
            last (ap parse_req_from_npm same ∙ r)
    ]
  ]

  pub parse_dep_entry-IsEntry :
      (key value : Text) (kind : NpmDependencyEntryKind) (e : NpmDependencyEntry sv.Req)
      → parse_dep_entry sv key value kind ≡ ok e
      → IsEntry key value kind none e
  unfolding parse_dep_entry
  parse_dep_entry-IsEntry key value kind e h =
      let ((name, text), h', named) =
        bind_inv (parse_dep_entry_name_and_raw_version key value) _ e h in
      elim (Option-cases (parse_req_from_npm text)) [
        | inl gone ↦ cc (rw gone at h')
        | inr (req, r) ↦ is_entry name req (rw r at h') (name-Reads key value name text req named r)
      ]
    where
      is_entry :
          (name : Text) (req : Req)
          → entry_of sv key kind name (some req) ≡ ok e
          → Reads key value name req
          → IsEntry key value kind none e
      is_entry name req same reads =
          let e_eq : record {
            kind = kind;
            bare_specifier = key;
            name = name;
            version_req = req;
            peer_dep_version_req = none;
          }
              ≡ e =
            ground arith in
          subst (IsEntry key value kind none) e_eq
            (record { of_key = refl; of_kind = refl; reads = reads; falls_back = refl })
