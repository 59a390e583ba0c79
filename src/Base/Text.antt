-- ===== src/Base/Text.antt =====
-- Text as a list of code points, and the parts of a text.
use Prim.Native.Nat.{ℕ, ◌+◌, ◌-◌, ◌*◌, ◌/◌, ◌%◌}
use Prim.Native.Char.{code}
use Prim.Native.String.{String}
use mathlib.Core.List.{List, [], ◌∷◌, ◌++◌}
use mathlib.Core.Option.{Option, none, some}
use bolide.Base.Tests.{leb, ltb, ◌==◌, if◌then◌else◌}
use mathlib.Core.Bool.{Bool, true, false, ◌&&◌, ◌||◌}

abbrev pub Text : Type 0
Text = List ℕ

-- The code points of a literal.
abbrev pub codes : String → Text
codes String.[] = []
codes (String.◌∷◌ c s) = code c ∷ codes s

-- `str::as_bytes`: the UTF-8 bytes of the code points.
abbrev pub utf8_char : ℕ → List ℕ
utf8_char c =
    if ltb c 0x80
    then c ∷ []
    else if ltb c 0x800
    then (0xc0 + c / 64) ∷ (0x80 + c % 64) ∷ []
    else if ltb c 0x10000
    then (0xe0 + c / 4096) ∷ (0x80 + c / 64 % 64) ∷ (0x80 + c % 64) ∷ []
    else (0xf0 + c / 262144) ∷ (0x80 + c / 4096 % 64) ∷ (0x80 + c / 64 % 64) ∷ (0x80 + c % 64) ∷ []

unfoldable pub utf8 : Text → List ℕ
utf8 [] = []
utf8 (c ∷ s) = utf8_char c ++ utf8 s

-- `str::parse` into an unsigned type that holds the numbers below `limit`.
unfoldable pub parse_digits : ℕ → ℕ → Text → Option ℕ
parse_digits limit n [] = some n
parse_digits limit n (c ∷ s) =
    if leb 48 c && leb c 57 && ltb (n * 10 + (c - 48)) limit
    then parse_digits limit (n * 10 + (c - 48)) s
    else none

unfoldable pub parse_number : ℕ → Text → Option ℕ
unfolding parse_digits
parse_number limit [] = none
parse_number limit (c ∷ []) = parse_digits limit 0 (c ∷ [])
parse_number limit (c ∷ d ∷ s) =
    if c == 43 then parse_digits limit 0 (d ∷ s) else parse_digits limit 0 (c ∷ d ∷ s)

-- `str::split_once` at a character, and the prefix it gives before `c`.
abbrev pub before : ℕ → Option (Text × Text) → Option (Text × Text)
before c none = none
before c (some (s, t)) = some (c ∷ s, t)

abbrev pub split_once : ℕ → Text → Option (Text × Text)
split_once c [] = none
split_once c (d ∷ s) = if d == c then some ([], s) else before d (split_once c s)

-- `str::split` at a character: one part more than it occurs.
abbrev pub onto_first : ℕ → List Text → List Text
onto_first c [] = (c ∷ []) ∷ []
onto_first c (part ∷ parts) = (c ∷ part) ∷ parts

abbrev pub split : ℕ → Text → List Text
split c [] = [] ∷ []
split c (d ∷ s) = if d == c then [] ∷ split c s else onto_first d (split c s)

-- `char::is_whitespace`.
abbrev pub is_whitespace : ℕ → Bool
is_whitespace c =
    (leb 9 c && leb c 13)
    || (c == 32)
    || (c == 0x85)
    || (c == 0xa0)
    || (c == 0x1680)
    || (leb 0x2000 c && leb c 0x200a)
    || (c == 0x2028)
    || (c == 0x2029)
    || (c == 0x202f)
    || (c == 0x205f)
    || (c == 0x3000)

abbrev pub trim_start : Text → Text
trim_start [] = []
trim_start (c ∷ s) = if is_whitespace c then trim_start s else c ∷ s

abbrev pub unless_empty : Bool → ℕ → Text → Text
unless_empty true c [] = []
unless_empty true c (d ∷ s) = c ∷ d ∷ s
unless_empty false c s = c ∷ s

abbrev pub trim_end : Text → Text
trim_end [] = []
trim_end (c ∷ s) = unless_empty (is_whitespace c) c (trim_end s)

abbrev pub trim : Text → Text
trim s = trim_end (trim_start s)
