-- ===== src/Download/Text.antt =====
-- What CosmosReadCommProc.cpp uses of the C library: `strstr`, `strtol` in base 10, and `%06d`.
use cosmos_pc.Prelude.{
  ℕ, ◌+◌, ◌-◌, ◌*◌, ◌^◌, Bool, true, false, ◌&&◌, ◌||◌, Option, none, some, List, [], ◌∷◌, u32, ltb,
  leb, min, ◌==◌, if◌then◌else◌,
}
pub use cosmos_pc.Ymodem.Packet.CString.{c_string}
use cosmos_pc.Ymodem.Packet.Decimal.{padded, decimal}

unfoldable pub starts_with : List ℕ → List ℕ → Bool
starts_with [] text = true
starts_with (c ∷ needle) [] = false
starts_with (c ∷ needle) (d ∷ text) = c == d && starts_with needle text

-- `strstr`: the text from the first place on where the needle stands.
unfoldable pub str_str : List ℕ → List ℕ → Option (List ℕ)
str_str needle [] = if starts_with needle [] then some [] else none
str_str needle (c ∷ text) =
    let later = str_str needle text in
    if starts_with needle (c ∷ text) then some (c ∷ text) else later

abbrev is_digit : ℕ → Bool
is_digit c = leb b'0' c && leb c b'9'

abbrev is_space : ℕ → Bool
is_space c = c == 32 || leb 9 c && leb c 13

unfoldable pub digits_value : ℕ → List ℕ → ℕ
digits_value n [] = n
digits_value n (c ∷ rest) =
    let more = digits_value (n * 10 + (c - b'0')) rest in if is_digit c then more else n

unfoldable pub signed_value : List ℕ → ℕ
signed_value [] = 0
signed_value (c ∷ rest) =
    if c == b'-'
    then u32 (2 ^ 32 - min (2 ^ 31) (digits_value 0 rest))
    else if c == b'+'
    then min (2 ^ 31 - 1) (digits_value 0 rest)
    else min (2 ^ 31 - 1) (digits_value 0 (c ∷ rest))

unfoldable pub after_space : List ℕ → List ℕ
after_space [] = []
after_space (c ∷ rest) = let more = after_space rest in if is_space c then more else c ∷ rest

-- `strtol(p + 1, NULL, 10)` in a `DWORD`, where `p` points at a comma: the result is held within the
-- range of a 32-bit `long`.
unfoldable pub strtol : List ℕ → ℕ
strtol [] = 0
strtol (comma ∷ rest) = signed_value (after_space rest)

-- `%06d` of a number below 2 ^ 31.
unfoldable pub six_digits : ℕ → List ℕ
six_digits n = if ltb n (10 ^ 6) then padded 6 n else decimal 10 n
