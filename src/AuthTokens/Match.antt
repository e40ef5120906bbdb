-- ===== src/AuthTokens/Match.antt =====
-- The token that is sent along with a request.
use server_based_deno.Base.{
  ◌≡◌, ◌≢◌, refl, sym, ◌∙◌, ap, ◌||◌, Bool, true, false, Option, none, some, List, [], ◌∷◌, ◌++◌,
  Text, All, Bool-cases, inl, inr, to_lowercase, ends_with, text_beq, text_beq_iff,
}
use server_based_deno.AuthTokens.{AuthToken, ModuleSpecifier, hostname, is_for, get}

-- The host and the port of a specifier, as one writes them.
pub data Authority (specifier : ModuleSpecifier) : Text → Type 0 where
  host_only :
      (host : Text)
      → specifier.host_str ≡ some host
      → specifier.port ≡ none
      → Authority specifier host
  host_and_port :
      (host port : Text)
      → specifier.host_str ≡ some host
      → specifier.port ≡ some port
      → Authority specifier (host ++ b':' ∷ port)

-- The token's host is what the name ends in, in lower case.
abbrev pub IsFor : Text → AuthToken → Type 0
IsFor name t = (front : Text) × (to_lowercase name ≡ front ++ t.host)

abbrev pub IsNotFor : Text → AuthToken → Type 0
IsNotFor name t = (front : Text) → to_lowercase name ≢ front ++ t.host

-- The first token of the list that is for the host.
pub data FirstFor (name : Text) (t : AuthToken) : List AuthToken → Type 0 where
  here : {ts : List AuthToken} → IsFor name t → FirstFor name t (t ∷ ts)
  later :
      {u : AuthToken} {ts : List AuthToken}
      → IsNotFor name u
      → FirstFor name t ts
      → FirstFor name t (u ∷ ts)

pub data Sends (name : Text) (tokens : List AuthToken) : Option AuthToken → Type 0 where
  first : (t : AuthToken) → FirstFor name t tokens → Sends name tokens (some t)
  nothing : All (λ t. IsNotFor name t) tokens → Sends name tokens none

ends_with-true : (p s : Text) → ends_with p s ≡ true → (front : Text) × (s ≡ front ++ p)
unfolding ends_with
ends_with-true p [] h = ([], sym ((text_beq_iff p []).0 h))
ends_with-true p (c ∷ s) h = elim (Bool-cases (text_beq p (c ∷ s))) [
  | inl same ↦ ([], sym ((text_beq_iff p (c ∷ s)).0 same))
  | inr other ↦
      let (front, e) = ends_with-true p s (rw other at h) in (c ∷ front, ap (λ (l : Text). c ∷ l) e)
]

ends_with-append : (front p : Text) → ends_with p (front ++ p) ≡ true
unfolding ends_with
ends_with-append [] [] = (text_beq_iff [] []).1 refl
ends_with-append [] (c ∷ p) = rw ((text_beq_iff (c ∷ p) (c ∷ p)).1 refl) refl
ends_with-append (d ∷ front) p =
    rw (ends_with-append front p) (or_true (text_beq p (d ∷ front ++ p)))
  where
    or_true : (b : Bool) → (b || true) ≡ true
    or_true true = refl
    or_true false = refl

not_for : (name : Text) (t : AuthToken) → is_for name t ≡ false → IsNotFor name t
not_for name t h front e =
    let yes : is_for name t ≡ true = rw e (ends_with-append front t.host) in cc (sym yes ∙ h)

hostname-Authority :
    (specifier : ModuleSpecifier) (name : Text)
    → Authority specifier name
    → hostname specifier ≡ some name
hostname-Authority specifier name (host_only host e none_left) = rw e (rw none_left refl)
hostname-Authority specifier name (host_and_port host port e there) = rw e (rw there refl)

Sends-cons :
    (name : Text) (u : AuthToken) (tokens : List AuthToken) (r : Option AuthToken)
    → IsNotFor name u
    → Sends name tokens r
    → Sends name (u ∷ tokens) r
Sends-cons name u tokens (some t) other (first _ f) = first t (later other f)
Sends-cons name u tokens none other (nothing h) = nothing (other, h)

-- The token for a request is the first of the list whose host is what the host of the request, with
-- its port if it has one, ends in when it is written in lower case; there is none if no token's host
-- is.
pub get-Sends :
    (tokens : List AuthToken) (specifier : ModuleSpecifier) (name : Text)
    → Authority specifier name
    → Sends name tokens (get tokens specifier)
unfolding get
get-Sends [] specifier name h = nothing tt
get-Sends (t ∷ tokens) specifier name h =
    let e = hostname-Authority specifier name h in
    elim (Bool-cases (is_for name t)) [
      | inl match ↦
          rw e (rw match (first t (here (ends_with-true t.host (to_lowercase name) match))))
      | inr other ↦ rw e (
          rw other (
            Sends-cons name t tokens (get tokens specifier) (not_for name t other)
              (get-Sends tokens specifier name h)))
    ]
