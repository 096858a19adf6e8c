-- ===== src/Sdk/Hex.antt =====
-- Hexadecimal text (packages/nouns-sdk/src/image/utils.ts), and the readers of it that
-- svg-builder.ts uses: `parseInt(…, 16)` and a match of `/.{1,n}/g`.
use sznouns.Prelude.{
  ℕ, zero, suc, ◌+◌, ◌-◌, ◌*◌, ◌/◌, ◌%◌, ◌<◌, ◌≡◌, refl, true, false, ◌&&◌, ◌||◌, Option, none,
  some, List, [], ◌∷◌, ◌++◌, arith, ltb, leb, ◌==◌, if◌then◌else◌, length, replicate, Text, text_eq,
  text_eq_iff, all_below, all_below_sound,
}

-- One lower-case digit.
abbrev pub hex_digit : ℕ → ℕ
hex_digit d = if ltb d 10 then 48 + d else 87 + d

-- `n.toString(16)`: the digits of `n` in front of `acc`, at most as many as the fuel.
to_hex_from : ℕ → ℕ → Text → Text
to_hex_from zero n acc = acc
to_hex_from (suc fuel) n acc =
    let rest = to_hex_from fuel (n / 16) (hex_digit (n % 16) ∷ acc) in
    if ltb n 16 then hex_digit n ∷ acc else rest

pub to_hex : ℕ → Text
unfolding to_hex_from
to_hex n = to_hex_from (suc n) n []

-- `t.padStart(pad, '0')`.
abbrev pad_start : ℕ → Text → Text
pad_start pad t = replicate (pad - length t) 48 ++ t

unfoldable pub to_padded_hex : ℕ → ℕ → Text
unfolding to_hex
to_padded_hex c pad = pad_start pad (to_hex c)

unfoldable pub rgb_to_hex : ℕ → ℕ → ℕ → Text
unfolding to_padded_hex
rgb_to_hex r g b = to_padded_hex r 2 ++ (to_padded_hex g 2 ++ to_padded_hex b 2)

-- A byte of `buffer.toString('hex')`.
abbrev pub hex_byte : ℕ → Text
hex_byte b = hex_digit (b / 16) ∷ hex_digit (b % 16) ∷ []

abbrev pub hex_bytes : List ℕ → Text
hex_bytes [] = []
hex_bytes (b ∷ bs) = hex_digit (b / 16) ∷ hex_digit (b % 16) ∷ hex_bytes bs

-- The value of a digit, of either case; `none` at any other character.
unfoldable pub digit_value : ℕ → Option ℕ
digit_value c =
    if leb 48 c && leb c 57
    then some (c - 48)
    else if leb 97 c && leb c 102
    then some (c - 87)
    else if leb 65 c && leb c 70
    then some (c - 55)
    else none

-- The longest prefix of digits, read after digits of value `acc`.
abbrev pub digits_from : ℕ → Text → ℕ
digits_from acc [] = acc
digits_from acc (c ∷ t) = elim (digit_value c) [
  | none ↦ acc
  | some d ↦ digits_from (acc * 16 + d) t
]

abbrev pub parse_digits : Text → Option ℕ
parse_digits [] = none
parse_digits (c ∷ t) = elim (digit_value c) [ none ↦ none | some d ↦ some (digits_from d t) ]

-- `parseInt(t, 16)`, with `none` for NaN: a prefix `0x` is skipped. A sign or white space in front,
-- which encoded data has not, is read as NaN here.
unfoldable pub parse_hex : Text → Option ℕ
unfolding digit_value
parse_hex (a ∷ b ∷ t) =
    if (a == 48) && ((b == 120) || (b == 88)) then parse_digits t else parse_digits (a ∷ b ∷ t)
parse_hex t = parse_digits t

-- `t.match(/.{1,n}/g)` on a text without line breaks: `room` is what is left in `chunk`.
pub chunks_from : ℕ → ℕ → Text → Text → List Text
chunks_from n room [] [] = []
chunks_from n room (c ∷ chunk) [] = (c ∷ chunk) ∷ []
chunks_from n room chunk (c ∷ t) = elim (leb room 1) [
  | true ↦ (chunk ++ c ∷ []) ∷ chunks_from n n [] t
  | false ↦ chunks_from n (room - 1) (chunk ++ c ∷ []) t
]

unfoldable pub chunks : ℕ → Text → List Text
unfolding chunks_from
chunks n t = chunks_from n n [] t

-- A byte's two digits are read back.
pub parse_hex-hex_byte : (b : ℕ) → b < 256 → parse_hex (hex_byte b) ≡ some b
unfolding parse_hex
parse_hex-hex_byte b h = ground arith

hex_byte_table : all_below 256 (λ b. text_eq (to_padded_hex b 2) (hex_byte b)) ≡ true
unfolding all_below text_eq to_padded_hex
hex_byte_table = refl

-- Below 256 the padded text is the byte's two digits.
pub to_padded_hex_byte : (b : ℕ) → b < 256 → to_padded_hex b 2 ≡ hex_byte b
to_padded_hex_byte b h = (text_eq_iff _ _).0 (all_below_sound 256 _ b hex_byte_table h)
