-- ===== src/Prelude/Number.antt =====
-- Decimal text: `strconv.Itoa`, `fmt.Sprint` and `%d` of a port or an index, which is no negative
-- number, and `strconv.ParseUint`.
use Prim.Native.Nat.{ℕ, zero, suc, ◌+◌, ◌-◌, ◌*◌, ◌/◌, ◌%◌}
use Prim.Native.String.{String, [], ◌∷◌}
use Prim.Native.Char.{Char, code}
use mathlib.Core.Path.{◌≡◌, refl}
use mathlib.Core.Bool.{◌&&◌}
use mathlib.Core.Option.{Option, none, some}
use ingress_controller.Prelude.Tests.{if◌then◌else◌, leb, ltb}

abbrev pub char_at_or : String → ℕ → Char → Char
char_at_or [] n d = d
char_at_or (c ∷ s) zero d = c
char_at_or (c ∷ s) (suc n) d = char_at_or s n d

abbrev pub digit : ℕ → Char
digit n = char_at_or "0123456789" n "0"

-- The digits of a number before a text, with fuel for each digit.
unfoldable pub itoa_from : ℕ → ℕ → String → String
itoa_from zero n text = text
itoa_from (suc fuel) n text =
    let more = itoa_from fuel (n / 10) (digit (n % 10) ∷ text) in
    if ltb n 10 then digit n ∷ text else more

unfoldable pub itoa : ℕ → String
unfolding itoa_from
itoa n = itoa_from (n + 1) n []

-- The digits of a text in front of which a number was read; `none` at another character.
pub parse_digits : ℕ → String → Option ℕ
parse_digits acc [] = some acc
parse_digits acc (c ∷ s) =
    let rest = parse_digits (acc * 10 + (code c - b'0')) s in
    if leb b'0' (code c) && leb (code c) b'9' then rest else none

abbrev below : ℕ → Option ℕ → Option ℕ
below bound none = none
below bound (some n) = if ltb n bound then some n else none

-- strconv.ParseUint(s, 10, 32); `none` is a syntax or a range error
pub parse_uint32 : String → Option ℕ
unfolding parse_digits
parse_uint32 [] = none
parse_uint32 (c ∷ s) = below 4294967296 (parse_digits 0 (c ∷ s))

itoa_examples : itoa 8443 ≡ "8443"
unfolding itoa
itoa_examples = refl

itoa_zero : itoa 0 ≡ "0"
unfolding itoa
itoa_zero = refl

parse_uint32_examples :
    (parse_uint32 "4294967295" ≡ some 4294967295)
    × (parse_uint32 "4294967296" ≡ none)
    × (parse_uint32 "" ≡ none)
    × (parse_uint32 "+1" ≡ none)
unfolding parse_uint32
parse_uint32_examples = (refl, refl, refl, refl)
