-- ===== src/Shared/Texts.antt =====
-- Texts by their code points. Identifiers are compared whole, as native texts.
use Prim.Native.Nat.{ℕ, ◌+◌, ◌%◌, ◌<◌}
use Prim.Native.Char.{Char, char, code, IsScalar}
use Prim.Native.String.{String, ◌++◌ as str_append}
use text.Mathlib.TextLemmas.{nil-append, cons-append}
use native.Mathlib.Omega.{arith}
use mathlib.Core.Path.{◌≡◌, refl, ap}
use mathlib.Core.Bool.{Bool, true, ◌&&◌, ◌||◌}
use mathlib.Core.List.{List, [], ◌∷◌, ◌++◌}
use soraban.Shared.Lists.{All}
use soraban.Shared.Tests.{ltb, leb, ◌==◌, if◌then◌else◌}

abbrev pub codes : String → List ℕ
codes String.[] = []
codes (String.◌∷◌ c s) = code c ∷ codes s

-- The bytes of a code point in UTF-8.
abbrev utf8_width : ℕ → ℕ
utf8_width c = if ltb c 0x80 then 1 else if ltb c 0x800 then 2 else if ltb c 0x10000 then 3 else 4

-- Go's `len` of a text.
abbrev pub byte_length : List ℕ → ℕ
byte_length [] = 0
byte_length (c ∷ cs) = utf8_width c + byte_length cs

-- `unicode.IsSpace`.
abbrev pub is_space : ℕ → Bool
is_space c =
    (leb 9 c && leb c 13)
    || c == 32
    || c == 0x85
    || c == 0xA0
    || c == 0x1680
    || (leb 0x2000 c && leb c 0x200A)
    || c == 0x2028
    || c == 0x2029
    || c == 0x202F
    || c == 0x205F
    || c == 0x3000

abbrev pub all_of : (ℕ → Bool) → List ℕ → Bool
all_of p [] = true
all_of p (c ∷ cs) = p c && all_of p cs

-- `strings.TrimSpace(s) == ""`.
abbrev pub is_blank : String → Bool
is_blank s = all_of is_space (codes s)

pub codes-str_append : (s t : String) → codes (str_append s t) ≡ codes s ++ codes t
codes-str_append String.[] t = rw (nil-append t) refl
codes-str_append (String.◌∷◌ c s) t =
    rw (cons-append c s t) (ap (λ (cs : List ℕ). code c ∷ cs) (codes-str_append s t))

ascii_IsScalar : (n : ℕ) → n < 128 → IsScalar n
ascii_IsScalar n h = ground (arith, h)

abbrev ascii : ℕ → Char
ascii b = char (b % 128) (ascii_IsScalar (b % 128) (omega arith))

-- Go's `string(bytes)`, of ASCII.
unfoldable pub as_text : List ℕ → String
unfolding ascii_IsScalar
as_text [] = String.[]
as_text (b ∷ bs) = String.◌∷◌ (ascii b) (as_text bs)

abbrev pub Ascii : List ℕ → Type 0
Ascii = All (λ b. b < 128)

pub codes-as_text : (bs : List ℕ) → Ascii bs → codes (as_text bs) ≡ bs
unfolding as_text
codes-as_text [] h = refl
codes-as_text (b ∷ bs) h =
    let same : b % 128 ≡ b = omega (arith, h.0) in cc (same, codes-as_text bs h.1)

-- SQL's `translate` of the upper-case letters to the lower-case ones.
unfoldable pub lower_letter : Char → Char
unfolding ascii_IsScalar
lower_letter c = if leb b'A' (code c) && leb (code c) b'Z' then ascii (code c + 32) else c
