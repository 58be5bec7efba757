-- ===== src/Form/Texts.antt =====
-- The texts of the messages of Unit1.cxx, cut where a value stands.
use cosmos_pc.Prelude.{ℕ, List, [], ◌∷◌}

-- "OPEN "
abbrev pub open_said : List ℕ
open_said = b'O' ∷ b'P' ∷ b'E' ∷ b'N' ∷ 32 ∷ []

-- "WRITE "
abbrev pub write_said : List ℕ
write_said = b'W' ∷ b'R' ∷ b'I' ∷ b'T' ∷ b'E' ∷ 32 ∷ []

-- "READ "
abbrev pub read_said : List ℕ
read_said = b'R' ∷ b'E' ∷ b'A' ∷ b'D' ∷ 32 ∷ []

-- " .....\r\n"
abbrev pub dots_end : List ℕ
dots_end = 32 ∷ b'.' ∷ b'.' ∷ b'.' ∷ b'.' ∷ b'.' ∷ 13 ∷ 10 ∷ []

-- " ERROR\r\n"
abbrev pub error_end : List ℕ
error_end = 32 ∷ b'E' ∷ b'R' ∷ b'R' ∷ b'O' ∷ b'R' ∷ 13 ∷ 10 ∷ []

-- " OK\r\n"
abbrev pub ok_end : List ℕ
ok_end = 32 ∷ b'O' ∷ b'K' ∷ 13 ∷ 10 ∷ []

-- "DEVICE NO RESPONDSE\r\n"
abbrev pub no_response : List ℕ
no_response =
    b'D' ∷ b'E' ∷ b'V' ∷ b'I' ∷ b'C' ∷ b'E' ∷ 32 ∷ b'N' ∷ b'O' ∷ 32 ∷ b'R' ∷ b'E' ∷ b'S' ∷ b'P'
    ∷ b'O' ∷ b'N' ∷ b'D' ∷ b'S' ∷ b'E' ∷ 13 ∷ 10 ∷ []

-- "Read "
abbrev pub chosen_text : List ℕ
chosen_text = b'R' ∷ b'e' ∷ b'a' ∷ b'd' ∷ 32 ∷ []

-- "\r\n"
abbrev pub line_feed : List ℕ
line_feed = 13 ∷ 10 ∷ []

-- "File open error\r\n"
abbrev pub open_error : List ℕ
open_error =
    b'F' ∷ b'i' ∷ b'l' ∷ b'e' ∷ 32 ∷ b'o' ∷ b'p' ∷ b'e' ∷ b'n' ∷ 32 ∷ b'e' ∷ b'r' ∷ b'r' ∷ b'o'
    ∷ b'r' ∷ 13 ∷ 10 ∷ []

-- "Read file error\r\n"
abbrev pub read_error : List ℕ
read_error =
    b'R' ∷ b'e' ∷ b'a' ∷ b'd' ∷ 32 ∷ b'f' ∷ b'i' ∷ b'l' ∷ b'e' ∷ 32 ∷ b'e' ∷ b'r' ∷ b'r' ∷ b'o'
    ∷ b'r' ∷ 13 ∷ 10 ∷ []

-- "Filename length error "
abbrev pub name_error : List ℕ
name_error =
    b'F' ∷ b'i' ∷ b'l' ∷ b'e' ∷ b'n' ∷ b'a' ∷ b'm' ∷ b'e' ∷ 32 ∷ b'l' ∷ b'e' ∷ b'n' ∷ b'g' ∷ b't'
    ∷ b'h' ∷ 32 ∷ b'e' ∷ b'r' ∷ b'r' ∷ b'o' ∷ b'r' ∷ 32 ∷ []

-- " > 256\r\n"
abbrev pub name_limit : List ℕ
name_limit = 32 ∷ b'>' ∷ 32 ∷ b'2' ∷ b'5' ∷ b'6' ∷ 13 ∷ 10 ∷ []

-- "File size error "
abbrev pub size_error : List ℕ
size_error =
    b'F' ∷ b'i' ∷ b'l' ∷ b'e' ∷ 32 ∷ b's' ∷ b'i' ∷ b'z' ∷ b'e' ∷ 32 ∷ b'e' ∷ b'r' ∷ b'r' ∷ b'o'
    ∷ b'r' ∷ 32 ∷ []

-- " > "
abbrev pub above : List ℕ
above = 32 ∷ b'>' ∷ 32 ∷ []
