-- ===== src/Base/Strings.antt =====
-- Text as the list of its code points, with the operations of `str` that the program calls.
use Prim.Native.Nat.{ℕ, ◌+◌}
use Prim.Native.Char.{code}
use Prim.Native.String.{String}
use mathlib.Core.Path.{◌≡◌, refl, ap, ◌∙◌}
use mathlib.Core.Logic.{◌↔◌, ◌≢◌}
use mathlib.Core.Bool.{Bool, true, false, ◌&&◌, ◌||◌}
use mathlib.Core.Option
use mathlib.Core.Option.{Option, none, some}
use mathlib.Core.List.{List, [], ◌∷◌, ◌++◌, map}
use native.Mathlib.Omega.{arith}
use server_based_deno.Base.Tests.{ltb, leb, nat_beq, Keyed, if◌then◌else◌}
use server_based_deno.Base.Lists.{any, All}

abbrev pub Text : Type 0
Text = List ℕ

abbrev pub codes : String → Text
codes String.[] = []
codes (String.◌∷◌ c s) = code c ∷ codes s

unfoldable pub text_beq : Text → Text → Bool
text_beq [] [] = true
text_beq (a ∷ s) (b ∷ t) = nat_beq a b && text_beq s t
text_beq _ _ = false

-- The order of strings, by their bytes.
unfoldable pub text_ltb : Text → Text → Bool
text_ltb [] [] = false
text_ltb [] (d ∷ t) = true
text_ltb (c ∷ s) [] = false
text_ltb (c ∷ s) (d ∷ t) = ltb c d || (nat_beq c d && text_ltb s t)

pub text_beq_iff : (s t : Text) → (text_beq s t ≡ true) ↔ (s ≡ t)
unfolding text_beq
text_beq_iff [] [] = (λ _. refl, λ _. refl)
text_beq_iff [] (b ∷ t) = (λ h. cc, λ h. cc)
text_beq_iff (a ∷ s) [] = (λ h. cc, λ h. cc)
text_beq_iff (a ∷ s) (b ∷ t) =
    (λ h. ground (arith, text_beq_iff s t), λ h. ground (arith, text_beq_iff s t))

instance abbrev pub text_keyed : Keyed Text
text_keyed = record { same = text_beq; same_iff = text_beq_iff }

-- `str::contains(char)`
abbrev pub contains : ℕ → Text → Bool
contains c s = any (λ d. nat_beq d c) s

-- `str::strip_prefix`
unfoldable pub strip_prefix : Text → Text → Option Text
strip_prefix [] s = some s
strip_prefix (p ∷ ps) [] = none
strip_prefix (p ∷ ps) (c ∷ s) = if nat_beq p c then strip_prefix ps s else none

-- `str::starts_with`
unfoldable pub starts_with : Text → Text → Bool
starts_with [] s = true
starts_with (p ∷ ps) [] = false
starts_with (p ∷ ps) (c ∷ s) = nat_beq p c && starts_with ps s

-- `str::ends_with`
unfoldable pub ends_with : Text → Text → Bool
unfolding text_beq
ends_with p [] = text_beq p []
ends_with p (c ∷ s) = text_beq p (c ∷ s) || ends_with p s

-- `str::split_once(char)`: at the first occurrence.
unfoldable pub split_once : ℕ → Text → Option (Text × Text)
split_once c [] = none
split_once c (d ∷ s) =
    let later = Option.map (λ (a, b). (d ∷ a, b)) (split_once c s) in
    if nat_beq d c then some ([], s) else later

-- `str::rsplit_once(char)`: at the last occurrence.
unfoldable pub rsplit_once : ℕ → Text → Option (Text × Text)
rsplit_once c [] = none
rsplit_once c (d ∷ s) = elim (rsplit_once c s) [
  | some (a, b) ↦ some (d ∷ a, b)
  | none ↦ if nat_beq d c then some ([], s) else none
]

abbrev pub on_head {ℓ} : {A : Type ℓ} → (A → A) → List A → List A
on_head f [] = []
on_head f (x ∷ xs) = f x ∷ xs

-- `str::split(char)`: never empty.
unfoldable pub split : ℕ → Text → List Text
split c [] = [] ∷ []
split c (d ∷ s) =
    let parts = split c s in if nat_beq d c then [] ∷ parts else on_head (λ p. d ∷ p) parts

-- `slice::join(char)`
unfoldable pub join : ℕ → List Text → Text
join c [] = []
join c (p ∷ []) = p
join c (p ∷ q ∷ ps) = p ++ c ∷ join c (q ∷ ps)

-- `str::replace` of one character by another.
unfoldable pub replace : ℕ → ℕ → Text → Text
replace a b = map (λ c. if nat_beq c a then b else c)

-- `str::to_lowercase`, on ASCII.
abbrev pub lower : ℕ → ℕ
lower c = if leb b'A' c && leb c b'Z' then c + 32 else c

unfoldable pub to_lowercase : Text → Text
to_lowercase = map lower

abbrev pub is_digit : ℕ → Bool
is_digit c = leb b'0' c && leb c b'9'

-- No occurrence of a character, as a predicate that the tactics read.
abbrev pub Without : ℕ → Text → Type 0
Without c s = All (λ d. d ≢ c) s

pub starts_with-append : (p s : Text) → starts_with p (p ++ s) ≡ true
unfolding starts_with
starts_with-append [] s = refl
starts_with-append (c ∷ p) s = ground (arith, starts_with-append p s)

pub strip_prefix-append : (p s : Text) → strip_prefix p (p ++ s) ≡ some s
unfolding strip_prefix
strip_prefix-append [] s = refl
strip_prefix-append (c ∷ p) s = ground (arith, strip_prefix-append p s)

pub strip_prefix_inv : (p s : Text) {r : Text} → strip_prefix p s ≡ some r → s ≡ p ++ r
unfolding strip_prefix
strip_prefix_inv [] s {r} h = cc
strip_prefix_inv (p ∷ ps) [] {r} h = cc
strip_prefix_inv (p ∷ ps) (c ∷ s) {r} h = ground (arith, strip_prefix_inv ps s {r = r})

pub split_once-append : (c : ℕ) (s t : Text) → Without c s → split_once c (s ++ c ∷ t) ≡ some (s, t)
unfolding split_once
split_once-append c [] t h = ground arith
split_once-append c (d ∷ s) t h = ground (arith, split_once-append c s t h.1)

pub split_once-Without : (c : ℕ) (s : Text) → Without c s → split_once c s ≡ none
unfolding split_once
split_once-Without c [] h = refl
split_once-Without c (d ∷ s) h = ground (arith, split_once-Without c s h.1)

pub rsplit_once-Without : (c : ℕ) (s : Text) → Without c s → rsplit_once c s ≡ none
unfolding rsplit_once
rsplit_once-Without c [] h = refl
rsplit_once-Without c (d ∷ s) h = ground (arith, rsplit_once-Without c s h.1)

pub rsplit_once-append :
    (c : ℕ) (s t : Text) → Without c t → rsplit_once c (s ++ c ∷ t) ≡ some (s, t)
unfolding rsplit_once
rsplit_once-append c [] t h = ground (arith, rsplit_once-Without c t h)
rsplit_once-append c (d ∷ s) t h = ground (arith, rsplit_once-append c s t h)

pub split-Without : (c : ℕ) (s : Text) → Without c s → split c s ≡ s ∷ []
unfolding split
split-Without c [] h = refl
split-Without c (d ∷ s) h = ground (arith, split-Without c s h.1)

pub split-append : (c : ℕ) (s t : Text) → Without c s → split c (s ++ c ∷ t) ≡ s ∷ split c t
unfolding split
split-append c [] t h = ground arith
split-append c (d ∷ s) t h = ground (arith, split-append c s t h.1)

pub split-join :
    (c : ℕ) (p : Text) (ps : List Text)
    → Without c p
    → All (Without c) ps
    → split c (join c (p ∷ ps)) ≡ p ∷ ps
unfolding join
split-join c p [] h _ = split-Without c p h
split-join c p (q ∷ ps) h (k, ks) =
    split-append c p (join c (q ∷ ps)) h ∙ ap (λ r. p ∷ r) (split-join c q ps k ks)
