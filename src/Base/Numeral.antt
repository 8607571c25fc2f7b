-- ===== src/Base/Numeral.antt =====
-- Python's `int(text, base)` on the code points of a text, and `str` of a natural number.
use coding_agent_reliability.Base.{
  ℕ, suc, ◌+◌, ◌-◌, ◌*◌, ◌/◌, ◌%◌, Bool, true, false, ◌&&◌, ◌||◌, Option, none, some, List, [], ◌∷◌,
  String, ltb, leb, nat_eq, ◌==◌, if◌then◌else◌, ℤ, pos, negsuc, is_space, map, zero,
}
use Prim.Native.String.{◌++◌}

-- The code points of the digit zero in the scripts of Unicode 15 beyond ASCII; the other nine digits
-- of a script follow it.
abbrev zeros : List ℕ
zeros =
    0x660 ∷ 0x6f0 ∷ 0x7c0 ∷ 0x966 ∷ 0x9e6 ∷ 0xa66 ∷ 0xae6 ∷ 0xb66 ∷ 0xbe6 ∷ 0xc66 ∷ 0xce6 ∷ 0xd66
    ∷ 0xde6 ∷ 0xe50 ∷ 0xed0 ∷ 0xf20 ∷ 0x1040 ∷ 0x1090 ∷ 0x17e0 ∷ 0x1810 ∷ 0x1946 ∷ 0x19d0 ∷ 0x1a80
    ∷ 0x1a90 ∷ 0x1b50 ∷ 0x1bb0 ∷ 0x1c40 ∷ 0x1c50 ∷ 0xa620 ∷ 0xa8d0 ∷ 0xa900 ∷ 0xa9d0 ∷ 0xa9f0
    ∷ 0xaa50 ∷ 0xabf0 ∷ 0xff10 ∷ 0x104a0 ∷ 0x10d30 ∷ 0x11066 ∷ 0x110f0 ∷ 0x11136 ∷ 0x111d0 ∷ 0x112f0
    ∷ 0x11450 ∷ 0x114d0 ∷ 0x11650 ∷ 0x116c0 ∷ 0x11730 ∷ 0x118e0 ∷ 0x11950 ∷ 0x11c50 ∷ 0x11d50
    ∷ 0x11da0 ∷ 0x11f50 ∷ 0x16a60 ∷ 0x16ac0 ∷ 0x16b50 ∷ 0x1d7ce ∷ 0x1d7d8 ∷ 0x1d7e2 ∷ 0x1d7ec
    ∷ 0x1d7f6 ∷ 0x1e140 ∷ 0x1e2f0 ∷ 0x1e4f0 ∷ 0x1e950 ∷ 0x1fbf0 ∷ []

decimal_digit : List ℕ → ℕ → Option ℕ
decimal_digit [] c = none
decimal_digit (z ∷ zs) c =
    let rest = decimal_digit zs c in if leb z c && ltb c (z + 10) then some (c - z) else rest

digit_or_mark : Option ℕ → ℕ
digit_or_mark none = b'?'
digit_or_mark (some d) = b'0' + d

-- Beyond ASCII a space stands for " " and a digit for its ASCII digit.
unfoldable pub to_ascii : ℕ → ℕ
unfolding decimal_digit digit_or_mark is_space
to_ascii c =
    if ltb c 128 then c else if is_space c then 32 else digit_or_mark (decimal_digit zeros c)

-- The spaces of C's `isspace`.
abbrev pub is_c_space : ℕ → Bool
is_c_space c = (leb 9 c && leb c 13) || c == 32

unfoldable pub skip_spaces : List ℕ → List ℕ
skip_spaces [] = []
skip_spaces (c ∷ cs) = let rest = skip_spaces cs in if is_c_space c then rest else c ∷ cs

abbrev is_empty : List ℕ → Bool
is_empty [] = true
is_empty (c ∷ cs) = false

-- The value of a digit.
unfoldable pub digit_value : ℕ → ℕ
digit_value c =
    if leb b'0' c && leb c b'9'
    then c - b'0'
    else if leb b'a' c && leb c b'z'
    then c - b'a' + 10
    else if leb b'A' c && leb c b'Z'
    then c - b'A' + 10
    else 37

-- Digits with single underscores between them, and spaces behind; the flag says that a digit stands
-- directly before.
unfoldable pub read_digits : ℕ → Bool → ℕ → List ℕ → Option ℕ
unfolding digit_value skip_spaces
read_digits base after value [] = if after then some value else none
read_digits base after value (c ∷ cs) =
    let more = read_digits base true (value * base + digit_value c) cs in
    let next = read_digits base false value cs in
    if ltb (digit_value c) base
    then more
    else if after && c == b'_'
    then next
    else if after && is_empty (skip_spaces (c ∷ cs))
    then some value
    else none

abbrev skip_underscore : List ℕ → List ℕ
skip_underscore [] = []
skip_underscore (c ∷ cs) = if c == b'_' then cs else c ∷ cs

-- "0x", which base 16 allows, and an underscore behind it.
unfoldable pub skip_prefix : ℕ → List ℕ → List ℕ
skip_prefix base [] = []
skip_prefix base (c ∷ []) = c ∷ []
skip_prefix base (c ∷ d ∷ cs) =
    if base == 16 && c == b'0' && (d == b'x' || d == b'X') then skip_underscore cs else c ∷ d ∷ cs

abbrev negated : ℕ → ℤ
negated zero = pos 0
negated (suc n) = negsuc n

abbrev signed : Bool → Option ℕ → Option ℤ
signed minus none = none
signed true (some n) = some (negated n)
signed false (some n) = some (pos n)

unfoldable pub read_signed : ℕ → List ℕ → Option ℤ
unfolding skip_prefix read_digits
read_signed base [] = none
read_signed base (c ∷ cs) =
    if c == b'-'
    then signed true (read_digits base false 0 (skip_prefix base cs))
    else if c == b'+'
    then signed false (read_digits base false 0 (skip_prefix base cs))
    else signed false (read_digits base false 0 (skip_prefix base (c ∷ cs)))

-- `int(text, base)`, which raises ValueError where this is `none`, in base 10 or 16.
unfoldable pub int_of_text : ℕ → List ℕ → Option ℤ
unfolding to_ascii read_signed skip_spaces
int_of_text base cs = read_signed base (skip_spaces (map to_ascii cs))

digit_text : ℕ → String
digit_text n =
    if n == 0
    then "0"
    else if n == 1
    then "1"
    else if n == 2
    then "2"
    else if n == 3
    then "3"
    else if n == 4
    then "4"
    else if n == 5
    then "5"
    else if n == 6
    then "6"
    else if n == 7
    then "7"
    else if n == 8
    then "8"
    else "9"

decimal_with : ℕ → ℕ → String
decimal_with zero n = ""
decimal_with (suc fuel) n =
    let front = decimal_with fuel (n / 10) in
    if ltb n 10 then digit_text n else front ++ digit_text (n % 10)

-- `str(n)`. A number has at most as many digits as its successor, which is the fuel.
unfoldable pub decimal : ℕ → String
unfolding decimal_with digit_text
decimal n = decimal_with (suc n) n
