-- ===== src/Ops/Request.antt =====
-- `op_user_worker_fetch_build` of crates/sb_workers/lib.rs. The header types of hyper are the
-- parameter `HeaderTypes`; an `unwrap` of a refused header name is a panic, `none`.
use server_based_deno.Base.{
  ℕ, ◌+◌, ◌≡◌, Bool, true, false, not, ◌&&◌, Option, none, some, List, [], ◌∷◌, Text, codes, All,
  arith, text_keyed, ◌==◌, text_beq, text_beq_iff, if◌then◌else◌,
}

pub record UserWorkerRequest : Type 0 where
  pub method : Text
  pub url : Text
  pub headers : List (Text × Text)
  pub has_body : Bool

pub record UserWorkerBuiltRequest : Type 0 where
  pub request_rid : ℕ
  pub request_body_rid : Option ℕ

pub data Resource : Type 0 where
  request : Text → Text → List (Text × Text) → Option ℕ → Resource
  request_body : Resource

-- The resource table: ids are handed out in order.
pub record Resources : Type 0 where
  pub entries : List (ℕ × Resource)
  pub next_rid : ℕ

unfoldable pub add : Resource → Resources → ℕ × Resources
add r t = (t.next_rid, record { entries = (t.next_rid, r) ∷ t.entries; next_rid = t.next_rid + 1 })

-- `HeaderName::try_from` (which lowers the case) and `HeaderValue::try_from`.
pub record HeaderTypes : Type 0 where
  pub header_name : Text → Option Text
  pub header_value : Text → Option Text

abbrev pub content_length : Text
content_length = codes "content-length"

abbrev pub or_blank : Option Text → Text
or_blank none = []
or_blank (some v) = v

module _ (hyper : HeaderTypes) where
  -- The value that is set for a name: a request without a body has length 0.
  unfoldable pub value_for : Bool → Text → Text → Text
  unfolding text_beq
  value_for has_body name value =
      if not has_body && name == content_length
      then codes "0"
      else or_blank (hyper.header_value value)

  abbrev pub append_header :
      Bool → Text → Option Text → Option (List (Text × Text)) → Option (List (Text × Text))
  append_header has_body value none rest = none
  append_header has_body value (some name) none = none
  append_header has_body value (some name) (some rest) =
      some ((name, value_for has_body name value) ∷ rest)

  -- The loop over the headers; an empty key is passed over.
  unfoldable pub build_headers : Bool → List (Text × Text) → Option (List (Text × Text))
  build_headers has_body [] = some []
  build_headers has_body (([], value) ∷ rest) = build_headers has_body rest
  build_headers has_body ((c ∷ key, value) ∷ rest) =
      append_header has_body value (hyper.header_name (c ∷ key)) (build_headers has_body rest)

  abbrev pub add_body : Bool → Resources → Option ℕ × Resources
  add_body false t = (none, t)
  add_body true t = let (rid, t') = add request_body t in (some rid, t')

  abbrev pub add_request :
      UserWorkerRequest
      → Option ℕ × Resources
      → Option (List (Text × Text))
      → Option (UserWorkerBuiltRequest × Resources)
  add_request req (body_rid, t) none = none
  add_request req (body_rid, t) (some headers) =
      let (rid, t') = add (request req.method req.url headers body_rid) t in
      some (record { request_rid = rid; request_body_rid = body_rid }, t')

  unfoldable pub op_user_worker_fetch_build :
      UserWorkerRequest → Resources → Option (UserWorkerBuiltRequest × Resources)
  unfolding add
  op_user_worker_fetch_build req t =
      add_request req (add_body req.has_body t) (build_headers req.has_body req.headers)

  -- A request that is built without a body declares the length 0, whatever length the caller's
  -- headers gave.
  pub no_body_length_zero :
      (headers built : List (Text × Text))
      → build_headers false headers ≡ some built
      → All (λ h. h.0 ≡ content_length → h.1 ≡ codes "0") built
  unfolding build_headers value_for
  no_body_length_zero [] [] h = tt
  no_body_length_zero [] (b ∷ built) h = cc
  no_body_length_zero (([], value) ∷ rest) built h = no_body_length_zero rest built h
  no_body_length_zero ((c ∷ key, value) ∷ rest) [] h = ground arith
  no_body_length_zero ((c ∷ key, value) ∷ rest) ((name, v) ∷ built) h = (
    λ e. ground (arith, text_beq_iff name content_length),
    no_body_length_zero rest built (ground arith),
  )
