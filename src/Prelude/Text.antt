-- ===== src/Prelude/Text.antt =====
-- What the code uses of Go's package `strings`, over the characters of a text. A byte is a
-- character here: the separators and suffixes that the code looks for are ASCII, and a valid text
-- ends in one only at the boundary of a character. `to_lower` maps the ASCII letters.
use Prim.Native.Char.{Char, code}
use Prim.Native.String
use Prim.Native.String.{String, [], ◌∷◌}
use mathlib.Core.Path.{◌≡◌, refl, ap}
use mathlib.Core.Logic.{◌↔◌}
use mathlib.Core.Bool.{Bool, true, false, ◌&&◌, ◌||◌}
use mathlib.Core.Option.{Option, none, some}
use mathlib.Core.List.{List}
use text.Mathlib.TextEquality.{Char-path}
use ingress_controller.Prelude.Tests.{Eq, ◌==◌, if◌then◌else◌, leb, nat_beq, nat_beq_iff, string_eq}

infixl 65 ◌<>◌
abbrev pub ◌<>◌ : String → String → String
s <> t = String.◌++◌ s t

abbrev char_beq : Char → Char → Bool
char_beq c d = nat_beq (code c) (code d)

pub char_beq_iff : (c d : Char) → (char_beq c d ≡ true) ↔ (c ≡ d)
char_beq_iff c d = (
  λ h. Char-path c d ((nat_beq_iff (code c) (code d)).0 h),
  λ h. (nat_beq_iff (code c) (code d)).1 (ap code h),
)

instance abbrev pub char_eq : Eq Char
char_eq = record { beq = char_beq; beq_iff = char_beq_iff }

-- strings.HasPrefix(s, prefix)
unfoldable pub has_prefix : String → String → Bool
has_prefix s [] = true
has_prefix [] (c ∷ p) = false
has_prefix (d ∷ s) (c ∷ p) = d == c && has_prefix s p

-- strings.TrimPrefix(s, prefix), where the text has the prefix
unfoldable pub drop_prefix : String → String → String
drop_prefix s [] = s
drop_prefix [] (c ∷ p) = []
drop_prefix (d ∷ s) (c ∷ p) = drop_prefix s p

unfoldable pub trim_prefix : String → String → String
unfolding has_prefix drop_prefix
trim_prefix s p = if has_prefix s p then drop_prefix s p else s

-- strings.HasSuffix(s, suffix)
unfoldable pub has_suffix : String → String → Bool
has_suffix [] t = [] == t
has_suffix (c ∷ s) t = (c ∷ s) == t || has_suffix s t

-- strings.TrimSuffix(s, suffix)
pub trim_suffix : String → String → String
trim_suffix [] t = []
trim_suffix (c ∷ s) t = if (c ∷ s) == t then [] else c ∷ trim_suffix s t

-- strings.Cut(s, sep) at a separator of one character; `none` is `found == false`
unfoldable pub cut : String → Char → Option (String × String)
cut [] sep = none
cut (c ∷ s) sep =
    if c == sep
    then some ([], s)
    else elim (cut s sep) [ none ↦ none | some (before, after) ↦ some (c ∷ before, after) ]

-- A character put at the front of the first part.
abbrev pub extend : Char → List String → List String
extend c List.[] = List.◌∷◌ (c ∷ []) List.[]
extend c (List.◌∷◌ part parts) = List.◌∷◌ (c ∷ part) parts

-- strings.Split(s, sep) at a separator of one character
unfoldable pub split : String → Char → List String
split [] sep = List.◌∷◌ [] List.[]
split (c ∷ s) sep =
    let parts = split s sep in if c == sep then List.◌∷◌ [] parts else extend c parts

-- The text holds the character.
unfoldable pub contains_char : String → Char → Bool
contains_char [] sep = false
contains_char (c ∷ s) sep = c == sep || contains_char s sep

abbrev lower_from : String → String → Char → Char
lower_from (u ∷ us) (l ∷ ls) c = if c == u then l else lower_from us ls c
lower_from us ls c = c

-- unicode.ToLower on the ASCII letters
pub lower : Char → Char
lower = lower_from "ABCDEFGHIJKLMNOPQRSTUVWXYZ" "abcdefghijklmnopqrstuvwxyz"

-- strings.ToLower(s)
unfoldable pub to_lower : String → String
unfolding lower
to_lower [] = []
to_lower (c ∷ s) = lower c ∷ to_lower s

-- unicode.IsSpace
abbrev is_space : Char → Bool
is_space c =
    let n = code c in
    leb 9 n && leb n 13
    || nat_beq n 32
    || nat_beq n 0x85
    || nat_beq n 0xa0
    || nat_beq n 0x1680
    || leb 0x2000 n && leb n 0x200a
    || nat_beq n 0x2028
    || nat_beq n 0x2029
    || nat_beq n 0x202f
    || nat_beq n 0x205f
    || nat_beq n 0x3000

pub trim_left : String → String
trim_left [] = []
trim_left (c ∷ s) = if is_space c then trim_left s else c ∷ s

pub trim_right : String → String
trim_right [] = []
trim_right (c ∷ s) = let rest = trim_right s in if is_space c && rest == [] then [] else c ∷ rest

-- strings.TrimSpace
pub trim_space : String → String
unfolding trim_left trim_right
trim_space s = trim_right (trim_left s)

-- strings.Contains
unfoldable pub contains_text : String → String → Bool
unfolding has_prefix
contains_text [] t = has_prefix [] t
contains_text (c ∷ s) t = has_prefix (c ∷ s) t || contains_text s t

cut_examples : cut "www.example.com" "." ≡ some ("www", "example.com")
unfolding cut
cut_examples = refl

split_example : split "a/b/" "/" ≡ List.◌∷◌ "a" (List.◌∷◌ "b" (List.◌∷◌ "" List.[]))
unfolding split
split_example = refl

lower_example : to_lower "Www.A1" ≡ "www.a1"
unfolding to_lower
lower_example = refl

suffix_example : trim_suffix "a.b." "." ≡ "a.b"
unfolding trim_suffix
suffix_example = refl

trim_example : trim_space " read write\t" ≡ "read write"
unfolding trim_space
trim_example = refl
