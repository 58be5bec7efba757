-- ===== src/Parser/Texts.antt =====
-- The texts that `doParseFile` (CosmosParser.cpp) writes.
use cosmos_pc.Prelude.{ℕ, ◌+◌, ◌*◌, ◌/◌, List, [], ◌∷◌, ◌++◌, ◌==◌, if◌then◌else◌}
use cosmos_pc.Download.{folder_name}
use cosmos_pc.Parser.Format.{Storage, print_int}

-- "'%c'" between two commas, and the ends of a line.
abbrev quote_comma_quote : List ℕ
quote_comma_quote = b'\'' ∷ b',' ∷ b'\'' ∷ []

abbrev line_end : List ℕ
line_end = b'\'' ∷ 13 ∷ 10 ∷ []

-- "sn = '"
abbrev sn_is : List ℕ
sn_is = b's' ∷ b'n' ∷ 32 ∷ b'=' ∷ 32 ∷ b'\'' ∷ []

-- "' and date = '"
abbrev and_date_is : List ℕ
and_date_is =
    b'\'' ∷ 32 ∷ b'a' ∷ b'n' ∷ b'd' ∷ 32 ∷ b'd' ∷ b'a' ∷ b't' ∷ b'e' ∷ 32 ∷ b'=' ∷ 32 ∷ b'\'' ∷ []

-- "' and mode = '"
abbrev and_mode_is : List ℕ
and_mode_is =
    b'\'' ∷ 32 ∷ b'a' ∷ b'n' ∷ b'd' ∷ 32 ∷ b'm' ∷ b'o' ∷ b'd' ∷ b'e' ∷ 32 ∷ b'=' ∷ 32 ∷ b'\'' ∷ []

-- "' and time = '"
abbrev and_time_is : List ℕ
and_time_is =
    b'\'' ∷ 32 ∷ b'a' ∷ b'n' ∷ b'd' ∷ 32 ∷ b't' ∷ b'i' ∷ b'm' ∷ b'e' ∷ 32 ∷ b'=' ∷ 32 ∷ b'\'' ∷ []

-- "' and distance = '"
abbrev and_distance_is : List ℕ
and_distance_is =
    b'\'' ∷ 32 ∷ b'a' ∷ b'n' ∷ b'd' ∷ 32 ∷ b'd' ∷ b'i' ∷ b's' ∷ b't' ∷ b'a' ∷ b'n' ∷ b'c' ∷ b'e'
    ∷ 32 ∷ b'=' ∷ 32 ∷ b'\'' ∷ []

-- ".cosmos"
abbrev cosmos_suffix : List ℕ
cosmos_suffix = b'.' ∷ b'c' ∷ b'o' ∷ b's' ∷ b'm' ∷ b'o' ∷ b's' ∷ []

-- The letter of a mode.
unfoldable pub mode_letter : ℕ → ℕ
mode_letter mode =
    if mode == 1
    then b'R'
    else if mode == 2
    then b'B'
    else if mode == 3
    then b'S'
    else if mode == 4
    then b'P'
    else b'O'

module _ (f : Storage) where
  unfoldable pub date_number : List ℕ → ℕ
  date_number head = f.year head * 10000 + f.month head * 100 + f.day head

  -- The path of the new file.
  unfoldable pub cosmos_path : List ℕ → ℕ → List ℕ → List ℕ
  cosmos_path directory i head =
      (directory ++ folder_name)
      ++ (b'\\' ∷ print_int (date_number head))
      ++ (b'_' ∷ print_int i)
      ++ cosmos_suffix

  -- The first line of the file.
  unfoldable pub select_line : ℕ → List ℕ → List ℕ
  select_line i head =
      sn_is
      ++ print_int i
      ++ and_date_is
      ++ print_int (date_number head)
      ++ and_mode_is
      ++ (mode_letter (f.mode head) ∷ [])
      ++ and_time_is
      ++ print_int (f.total_tick head / 1000)
      ++ and_distance_is
      ++ f.print_real (f.distance head)
      ++ line_end

  -- The second, in which the distance is printed with `%d`.
  unfoldable pub summary_line : ℕ → List ℕ → List ℕ
  summary_line i head =
      b'\'' ∷ print_int i
      ++ quote_comma_quote
      ++ print_int (date_number head)
      ++ quote_comma_quote
      ++ (mode_letter (f.mode head) ∷ [])
      ++ quote_comma_quote
      ++ print_int (f.total_tick head / 1000)
      ++ quote_comma_quote
      ++ f.print_real_as_int (f.distance head)
      ++ line_end

  -- The line of a position.
  unfoldable pub gps_line : ℕ → ℕ → List ℕ → List ℕ
  gps_line i mode data_bytes =
      b'\'' ∷ print_int i
      ++ quote_comma_quote
      ++ (mode ∷ [])
      ++ quote_comma_quote
      ++ f.print_real (f.lat data_bytes)
      ++ quote_comma_quote
      ++ f.print_real (f.long data_bytes)
      ++ line_end
