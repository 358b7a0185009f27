-- ===== src/Text.antt =====
-- What the program uses of Go's packages strings and unicode, over the code points of a text.
pub mod Trim
pub mod Order
use Prim.Native.Char.{code}
use Prim.Native.String
use homewizard_exporter.Prelude.{
  ℕ, ◌+◌, String, Bool, true, false, ◌&&◌, ◌||◌, Option, none, some, List, [], ◌∷◌, ◌++◌, str_eq,
  starts_with, ltb, leb, ◌==◌, if◌then◌else◌,
}

-- The code points of a text: its bytes, if it is ASCII.
abbrev pub codes : String → List ℕ
codes String.[] = []
codes (String.◌∷◌ c s) = code c ∷ codes s

-- `unicode.IsSpace`
unfoldable pub is_space : ℕ → Bool
is_space c =
    (leb 9 c && leb c 13)
    || c == 32
    || c == 0x85
    || c == 0xa0
    || c == 0x1680
    || (leb 0x2000 c && leb c 0x200a)
    || c == 0x2028
    || c == 0x2029
    || c == 0x202f
    || c == 0x205f
    || c == 0x3000

-- `s == ""`
abbrev pub is_blank : String → Bool
is_blank String.[] = true
is_blank (String.◌∷◌ c s) = false

unfoldable pub trim_left : String → String
unfolding is_space
trim_left String.[] = ""
trim_left (String.◌∷◌ c s) = if is_space (code c) then trim_left s else String.◌∷◌ c s

unfoldable pub trim_right : String → String
unfolding is_space
trim_right String.[] = ""
trim_right (String.◌∷◌ c s) =
    let rest = trim_right s in if is_space (code c) && is_blank rest then "" else String.◌∷◌ c rest

-- `strings.TrimSpace`
unfoldable pub trim_space : String → String
unfolding trim_left trim_right
trim_space s = trim_right (trim_left s)

-- `strings.Contains`
unfoldable pub contains : String → String → Bool
contains String.[] t = is_blank t
contains (String.◌∷◌ c s) t = starts_with (String.◌∷◌ c s) t || contains s t

abbrev pub cons_head : String → List String → List String
cons_head c [] = c ∷ []
cons_head c (s ∷ parts) = String.◌++◌ c s ∷ parts

-- `strings.Split` at a separator of one character
unfoldable pub split : String → ℕ → List String
split String.[] sep = "" ∷ []
split (String.◌∷◌ c s) sep =
    let parts = split s sep in
    if code c == sep then "" ∷ parts else cons_head (String.◌∷◌ c String.[]) parts

abbrev pub join_more : List String → String → String → String
join_more [] sep out = out
join_more (s ∷ parts) sep out = join_more parts sep (String.◌++◌ out (String.◌++◌ sep s))

-- `strings.Join`
abbrev pub join : List String → String → String
join [] sep = ""
join (s ∷ parts) sep = join_more parts sep s

-- `<` on strings: lexicographic, by code point, which for valid UTF-8 is the order of the bytes.
abbrev pub lex_ltb : List ℕ → List ℕ → Bool
lex_ltb [] [] = false
lex_ltb [] (d ∷ t) = true
lex_ltb (c ∷ s) [] = false
lex_ltb (c ∷ s) (d ∷ t) = ltb c d || (c == d && lex_ltb s t)

unfoldable pub text_ltb : String → String → Bool
text_ltb s t = lex_ltb (codes s) (codes t)

-- The part of a text behind a prefix that it has.
unfoldable pub cut_prefix : List ℕ → List ℕ → Option (List ℕ)
cut_prefix [] s = some s
cut_prefix (p ∷ ps) [] = none
cut_prefix (p ∷ ps) (c ∷ s) = if c == p then cut_prefix ps s else none

-- `strings.HasSuffix`
unfoldable pub ends_with : String → String → Bool
ends_with String.[] t = is_blank t
ends_with (String.◌∷◌ c s) t = str_eq (String.◌∷◌ c s) t || ends_with s t
