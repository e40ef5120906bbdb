-- ===== src/Base/Decimal.antt =====
-- `usize` in decimal: `to_string` and `parse::<usize>`.
use Prim.Native.Nat.{ℕ, zero, suc, ◌+◌, ◌*◌, ◌/◌, ◌%◌, ◌-◌, ◌^◌, ◌<◌}
use mathlib.Core.Path.{◌≡◌, refl}
use mathlib.Core.Bool.{true, false}
use mathlib.Core.Option.{Option, none, some}
use mathlib.Core.List.{[], ◌∷◌, ◌++◌}
use native.Mathlib.Omega.{arith}
use server_based_deno.Base.Tests.{ltb, nat_beq, lt→ltb, Bool-cases, if◌then◌else◌}
use mathlib.Core.Logic.{◌≢◌, inl, inr}
use server_based_deno.Base.Lists.{All, All-append, All-map}
use server_based_deno.Base.Strings.{Text, is_digit, Without}

-- The digits, on fuel: a number has no more digits than itself and one.
unfoldable print_from : ℕ → ℕ → Text
print_from zero n = []
print_from (suc fuel) n =
    let rest = print_from fuel (n / 10) in
    if ltb n 10 then (b'0' + n) ∷ [] else rest ++ (b'0' + n % 10) ∷ []

unfoldable pub print_usize : ℕ → Text
unfolding print_from
print_usize n = print_from (suc n) n

unfoldable parse_digits : ℕ → Text → Option ℕ
parse_digits n [] = some n
parse_digits n (c ∷ s) =
    let rest = parse_digits (10 * n + (c - b'0')) s in if is_digit c then rest else none

abbrev fitting : Option ℕ → Option ℕ
fitting none = none
fitting (some n) = if ltb n (2 ^ 64) then some n else none

-- A `+` may stand in front; a digit must follow.
unfoldable pub parse_usize : Text → Option ℕ
unfolding parse_digits
parse_usize [] = none
parse_usize (c ∷ []) = if is_digit c then some (c - b'0') else none
parse_usize (c ∷ d ∷ s) =
    fitting (if nat_beq c b'+' then parse_digits 0 (d ∷ s) else parse_digits 0 (c ∷ d ∷ s))

parse_digits-snoc :
    (m n k : ℕ) (s : Text)
    → k < 10
    → parse_digits m s ≡ some n
    → parse_digits m (s ++ (b'0' + k) ∷ []) ≡ some (10 * n + k)
unfolding parse_digits
parse_digits-snoc m n k [] small h = ground arith
parse_digits-snoc m n k (c ∷ s) small h =
    ground (arith, parse_digits-snoc (10 * m + (c - b'0')) n k s small)

parse_digits-print_from : (fuel n : ℕ) → n < fuel → parse_digits 0 (print_from fuel n) ≡ some n
unfolding parse_digits print_from
parse_digits-print_from zero n h = absurd (omega arith)
parse_digits-print_from (suc fuel) n h = elim (Bool-cases (ltb n 10)) [
  | inl small ↦ ground arith
  | inr big ↦
      let ih = parse_digits-print_from fuel (n / 10) (ground arith) in
      let more =
        parse_digits-snoc 0 (n / 10) (n % 10) (print_from fuel (n / 10)) (omega arith) ih in
      let whole : 10 * (n / 10) + n % 10 ≡ n = omega arith in rw big (rw more (rw whole refl))
]

is_digit-sum : (k : ℕ) → k < 10 → is_digit (b'0' + k) ≡ true
is_digit-sum k h = ground arith

abbrev pub Digits : Text → Type 0
Digits s = All (λ c. is_digit c ≡ true) s

Digits-print_from : (fuel n : ℕ) → Digits (print_from fuel n)
unfolding print_from
Digits-print_from zero n = tt
Digits-print_from (suc fuel) n = elim (Bool-cases (ltb n 10)) [
  | inl small ↦ rw small (is_digit-sum n (ground arith), tt)
  | inr big ↦ rw big (
      All-append (λ c. is_digit c ≡ true) (print_from fuel (n / 10)) ((b'0' + n % 10) ∷ [])
        (Digits-print_from fuel (n / 10)) (is_digit-sum (n % 10) (omega arith), tt))
]

parse_usize-Digits :
    (s : Text) (n : ℕ)
    → Digits s
    → s ≢ []
    → parse_digits 0 s ≡ some n
    → n < 2 ^ 64
    → parse_usize s ≡ some n
unfolding parse_usize
parse_usize-Digits [] n h some_digit p fits = absurd (some_digit refl)
parse_usize-Digits (c ∷ []) n h some_digit p fits = ground arith
parse_usize-Digits (c ∷ d ∷ s) n h some_digit p fits =
    let no_plus : nat_beq c b'+' ≡ false = ground (arith, h.0) in
    rw no_plus (rw p (rw (lt→ltb n (2 ^ 64) fits) refl))

print_from-ne-nil : (fuel n : ℕ) → print_from (suc fuel) n ≢ []
unfolding print_from
print_from-ne-nil fuel n = elim (Bool-cases (ltb n 10)) [
  | inl small ↦ rw small (λ h. cc)
  | inr big ↦ rw big (not_nil (print_from fuel (n / 10)) (b'0' + n % 10))
]
  where
    not_nil : (l : Text) (c : ℕ) → l ++ c ∷ [] ≢ []
    not_nil [] c h = cc
    not_nil (d ∷ l) c h = cc

pub parse_usize-print_usize : (n : ℕ) → n < 2 ^ 64 → parse_usize (print_usize n) ≡ some n
unfolding print_usize
parse_usize-print_usize n fits =
    parse_usize-Digits (print_from (suc n) n) n (Digits-print_from (suc n) n)
      (print_from-ne-nil n n) (parse_digits-print_from (suc n) n (omega arith)) fits

pub Without-print_usize : (c n : ℕ) → is_digit c ≡ false → Without c (print_usize n)
unfolding print_usize
Without-print_usize c n no_digit =
    All-map (print_from (suc n) n) (λ d h e. ground arith) (Digits-print_from (suc n) n)

pub print_usize-Digits : (n : ℕ) → Digits (print_usize n)
unfolding print_usize
print_usize-Digits n = Digits-print_from (suc n) n
