-- ===== src/Prelude/Url.antt =====
-- What the code uses of Go's packages `net/url` and `net`: the text of a URL that has only a scheme
-- and a host, and a host joined with a port.
use Prim.Native.Nat.{ℕ, ◌+◌, ◌/◌, ◌%◌}
use Prim.Native.Char.{Char, code}
use Prim.Native.String.{String, [], ◌∷◌}
use mathlib.Core.Path.{◌≡◌, refl}
use mathlib.Core.Bool.{Bool}
use ingress_controller.Prelude.Tests.{if◌then◌else◌, ltb, ◌==◌, string_eq}
use ingress_controller.Prelude.Text.{◌<>◌, contains_char}
use ingress_controller.Prelude.Number.{char_at_or}

-- `shouldEscape` in the mode `encodeHost` is false for letters, digits and these.
abbrev is_host_char : Char → Bool
is_host_char c =
    contains_char
      "abcdefghijklmnopqrstuvwxyzABCDEFGHIJKLMNOPQRSTUVWXYZ0123456789-_.~!$&'()*+,;=:[]<>\"" c

abbrev percent : ℕ → String
percent b =
    "%"
    <> char_at_or "0123456789ABCDEF" (b / 16) "0" ∷ char_at_or "0123456789ABCDEF" (b % 16) "0" ∷ []

-- The bytes of a character in UTF-8, each written as `%XX`.
escape_char : ℕ → String
escape_char c =
    if ltb c 0x80
    then percent c
    else if ltb c 0x800
    then percent (0xc0 + c / 64) <> percent (0x80 + c % 64)
    else if ltb c 0x10000
    then percent (0xe0 + c / 4096) <> percent (0x80 + c / 64 % 64) <> percent (0x80 + c % 64)
    else percent (0xf0 + c / 262144)
      <> percent (0x80 + c / 4096 % 64)
      <> percent (0x80 + c / 64 % 64)
      <> percent (0x80 + c % 64)

unfoldable pub escape_host : String → String
unfolding escape_char contains_char
escape_host [] = []
escape_host (c ∷ s) =
    let rest = escape_host s in if is_host_char c then c ∷ rest else escape_char (code c) <> rest

-- (&url.URL{Scheme: scheme, Host: host}).String()
unfoldable pub url_string : String → String → String
unfolding escape_host
url_string scheme host = if host == "" then scheme <> ":" else scheme <> "://" <> escape_host host

-- net.JoinHostPort
unfoldable pub join_host_port : String → String → String
unfolding contains_char
join_host_port host port =
    if contains_char host ":" then "[" <> host <> "]:" <> port else host <> ":" <> port

url_example : url_string "https" "*.a-b.com:1é" ≡ "https://*.a-b.com:1%C3%A9"
unfolding url_string
url_example = refl
