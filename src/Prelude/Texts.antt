-- ===== src/Prelude/Texts.antt =====
-- Texts as lists of code points, with the operations of Rust's `str` that the code uses.
use Prim.Native.Char.{code}
use Prim.Native.String.{String, [] as empty, ◌∷◌ as ◌∷s◌}
use Prim.Native.Nat.{ℕ, zero, suc, ◌+◌, ◌-◌, ◌*◌, ◌/◌, ◌%◌}
use mathlib.Core.Bool.{true, false, Bool, ◌&&◌, ◌||◌}
use mathlib.Core.List.{List, [], ◌∷◌, ◌++◌}
use mathlib.Core.Option.{Option, none, some}
use video_captioner_r.Prelude.Tests.{ltb, leb, ◌==◌, if◌then◌else◌, u64_max}
use video_captioner_r.Prelude.Lists.{length}

abbrev pub Text : Type 0
Text = List ℕ

abbrev pub codes : String → Text
codes empty = []
codes (c ∷s s) = code c ∷ codes s

abbrev in_range : ℕ → ℕ → ℕ → Bool
in_range low high c = leb low c && leb c high

-- `char::is_whitespace`: the property White_Space of Unicode.
unfoldable pub is_whitespace : ℕ → Bool
is_whitespace c =
    in_range 9 13 c
    || (c == 32
        || (c == 0x85
            || (c == 0xa0
                || (c == 0x1680
                    || (in_range 0x2000 0x200a c
                        || (in_range 0x2028 0x2029 c
                            || (c == 0x202f || (c == 0x205f || c == 0x3000))))))))

abbrev pub is_ascii_digit : ℕ → Bool
is_ascii_digit c = in_range 48 57 c

unfoldable pub trim_start : Text → Text
trim_start [] = []
trim_start (c ∷ cs) = if is_whitespace c then trim_start cs else c ∷ cs

unfoldable pub trim_end : Text → Text
trim_end [] = []
trim_end (c ∷ cs) =
    let rest = trim_end cs in if is_whitespace c && leb (length rest) 0 then [] else c ∷ rest

abbrev pub trim : Text → Text
trim s = trim_end (trim_start s)

-- `str::trim` on a text as the language has it.
unfoldable pub trim_left : String → String
unfolding is_whitespace
trim_left empty = empty
trim_left (c ∷s s) = if is_whitespace (code c) then trim_left s else c ∷s s

abbrev pub is_empty_text : String → Bool
is_empty_text empty = true
is_empty_text (c ∷s s) = false

unfoldable pub trim_right : String → String
unfolding is_whitespace
trim_right empty = empty
trim_right (c ∷s s) =
    let rest = trim_right s in
    if is_whitespace (code c) && is_empty_text rest then empty else c ∷s rest

unfoldable pub trim_text : String → String
unfolding trim_left trim_right
trim_text s = trim_right (trim_left s)

-- `split` by a character gives one part more than there are separators.
abbrev push_front : ℕ → List Text → List Text
push_front c [] = (c ∷ []) ∷ []
push_front c (part ∷ parts) = (c ∷ part) ∷ parts

unfoldable pub split : ℕ → Text → List Text
split sep [] = [] ∷ []
split sep (c ∷ cs) = let rest = split sep cs in if c == sep then [] ∷ rest else push_front c rest

-- `s.matches(c).count()`.
unfoldable pub count_char : ℕ → Text → ℕ
count_char sep [] = 0
count_char sep (c ∷ cs) = (if c == sep then 1 else 0) + count_char sep cs

-- The digits of a number behind `acc`: `none` for another character, or where `u64` overflows.
unfoldable pub read_digits : ℕ → Text → Option ℕ
read_digits acc [] = some acc
read_digits acc (c ∷ cs) =
    let rest = read_digits (acc * 10 + (c - 48)) cs in
    if is_ascii_digit c && leb (acc * 10 + (c - 48)) u64_max then rest else none

-- `str::parse::<u64>`: a sign `+` may stand before the digits.
unfoldable pub parse_u64 : Text → Option ℕ
unfolding read_digits
parse_u64 [] = none
parse_u64 (c ∷ []) = if c == b'+' then none else read_digits 0 (c ∷ [])
parse_u64 (c ∷ d ∷ cs) = if c == b'+' then read_digits 0 (d ∷ cs) else read_digits 0 (c ∷ d ∷ cs)

-- `format!("{n}")`: twenty digits are enough for a `u64`.
unfoldable pub digits : ℕ → ℕ → Text
digits zero n = []
digits (suc fuel) n =
    let higher = digits fuel (n / 10) in
    if ltb n 10 then (48 + n) ∷ [] else higher ++ (48 + n % 10) ∷ []

abbrev pub zeros : ℕ → Text
zeros zero = []
zeros (suc n) = 48 ∷ zeros n

-- `format!("{n:0width}")`.
unfoldable pub padded : ℕ → ℕ → Text
unfolding digits
padded width n = zeros (width - length (digits 20 n)) ++ digits 20 n
