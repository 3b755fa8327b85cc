-- ===== src/Preprocess/Values.antt =====
-- preprocess/ifexpr.go: the values of integer and character literals, with the parts of `strconv` and
-- of Go's decoding of runes that they use.
use pawn_parser.Prelude.{
  ℕ, ◌+◌, ◌-◌, ◌*◌, ◌^◌, Bool, true, false, not, ◌&&◌, ◌||◌, [], ◌∷◌, Bytes, Option, none, some,
  ltb, leb, ◌==◌, if◌then◌else◌, length, get_or, take, drop,
}
use pawn_parser.Preprocess.Int64.{negate}

abbrev between : ℕ → ℕ → ℕ → Bool
between lo hi c = leb lo c && leb c hi

-- `lower` of strconv: an upper-case letter becomes the lower-case one.
abbrev lower : ℕ → ℕ
lower c = if between b'A' b'Z' c then c + 32 else c

-- The value of a digit; 36 is no digit of any base.
unfoldable digit_value : ℕ → ℕ
digit_value c =
    if between b'0' b'9' c
    then c - b'0'
    else if between b'a' b'z' (lower c)
    then lower c - b'a' + 10
    else 36

-- The digits of a number in a base, within 64 bits.
unfoldable digits_loop : ℕ → Bytes → ℕ → Option ℕ
unfolding digit_value
digits_loop base [] n = some n
digits_loop base (c ∷ cs) n =
    let rest = digits_loop base cs (n * base + digit_value c) in
    if leb base (digit_value c) || leb (2 ^ 64) (n * base + digit_value c) then none else rest

-- `strconv.ParseUint(text, 0, 64)`, for a text with no underscore; an error is `none`.
unfoldable pub parse_uint : Bytes → Option ℕ
unfolding digits_loop
parse_uint text =
    if length text == 0
    then none
    else if not (get_or text 0 0 == b'0')
    then digits_loop 10 text 0
    else if leb 3 (length text) && lower (get_or text 1 0) == b'b'
    then digits_loop 2 (drop 2 text) 0
    else if leb 3 (length text) && lower (get_or text 1 0) == b'o'
    then digits_loop 8 (drop 2 text) 0
    else if leb 3 (length text) && lower (get_or text 1 0) == b'x'
    then digits_loop 16 (drop 2 text) 0
    else digits_loop 8 (drop 1 text) 0

abbrev in_range : Bool → Option ℕ → Option ℕ
in_range minus none = none
in_range true (some n) = if ltb (2 ^ 63) n then none else some (negate n)
in_range false (some n) = if leb (2 ^ 63) n then none else some n

-- `strconv.ParseInt(text, 0, 64)`, as a bit pattern.
unfoldable pub parse_int : Bytes → Option ℕ
unfolding parse_uint
parse_int text =
    if get_or text 0 0 == b'-'
    then in_range true (parse_uint (drop 1 text))
    else if get_or text 0 0 == b'+'
    then in_range false (parse_uint (drop 1 text))
    else in_range false (parse_uint text)

unfoldable without_underscores : Bytes → Bytes
without_underscores [] = []
without_underscores (c ∷ cs) =
    let rest = without_underscores cs in if c == b'_' then rest else c ∷ rest

abbrev or_else : Option ℕ → Option ℕ → ℕ
or_else (some v) o = v
or_else none (some v) = v
or_else none none = 0

-- `parseIntLiteral`: an unsigned value beyond the signed ones keeps its bits.
unfoldable pub parse_int_literal : Bytes → ℕ
unfolding parse_int parse_uint without_underscores
parse_int_literal text =
    or_else (parse_int (without_underscores text)) (parse_uint (without_underscores text))

abbrev continues : ℕ → Bool
continues c = between 128 191 c

abbrev rune_error : ℕ
rune_error = 65533

-- The first rune of a text, by the encoding of UTF-8; a wrong encoding is the rune U+FFFD.
unfoldable pub first_rune : Bytes → ℕ
first_rune text =
    let a = get_or text 0 0 in
    let b = get_or text 1 0 in
    let c = get_or text 2 0 in
    let d = get_or text 3 0 in
    if ltb a 128
    then a
    else if between 194 223 a && continues b
    then (a - 192) * 64 + (b - 128)
    else if between 224 239 a
        && continues b
        && continues c
        && (not (a == 224) || leb 160 b)
        && (not (a == 237) || leb b 159)
    then (a - 224) * 4096 + (b - 128) * 64 + (c - 128)
    else if between 240 244 a
        && continues b
        && continues c
        && continues d
        && (not (a == 240) || leb 144 b)
        && (not (a == 244) || leb b 143)
    then (a - 240) * 262144 + (b - 128) * 4096 + (c - 128) * 64 + (d - 128)
    else rune_error

-- `strings.TrimPrefix` and `strings.TrimSuffix` for a quote
abbrev trim_quotes : Bytes → Bytes
trim_quotes text =
    let front = if get_or text 0 0 == b'\'' then drop 1 text else text in
    if get_or front (length front - 1) 0 == b'\'' then take (length front - 1) front else front

-- The switch over the byte behind a backslash.
abbrev escaped : ℕ → ℕ
escaped c =
    if c == b'n'
    then 10
    else if c == b't'
    then 9
    else if c == b'r'
    then 13
    else if c == b'0'
    then 0
    else c

-- `parseCharLiteral`
unfoldable pub parse_char_literal : Bytes → ℕ
unfolding first_rune
parse_char_literal text =
    let inner = trim_quotes text in
    if length inner == 0
    then 0
    else if not (get_or inner 0 0 == b'\\')
    then first_rune inner
    else if ltb (length inner) 2
    then 0
    else escaped (get_or inner 1 0)
