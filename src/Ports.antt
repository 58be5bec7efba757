-- ===== src/Ports.antt =====
-- `checkComm`, `getCommPort` (MainProcFunc.h and MainProcFunc.cpp) and `CheckAll` (w10_pc_user.cpp): the search
-- for the port of the watch, and the name of the port that the user chose.
pub mod Search
pub mod Names
pub mod Tests
use cosmos_pc.Prelude.{
  ℕ, zero, suc, ◌+◌, Bool, true, false, ◌&&◌, Option, none, some, List, [], ◌∷◌, ◌++◌, length, take,
  ltb, ◌==◌, if◌then◌else◌,
}
use cosmos_pc.Os.{Handle, is_invalid, open_existing, Os}
use cosmos_pc.Ymodem.Packet.Decimal.{decimal}
use cosmos_pc.Download.Text.{str_str, c_string}

-- `max_com`
abbrev pub max_com : ℕ
max_com = 100

-- `checkcmd`: "SPP+STOP=\r" and the zero that ends it, which `dim` counts.
abbrev pub check_cmd : List ℕ
check_cmd = b'S' ∷ b'P' ∷ b'P' ∷ b'+' ∷ b'S' ∷ b'T' ∷ b'O' ∷ b'P' ∷ b'=' ∷ 13 ∷ 0 ∷ []

-- `checkack`: "STOP,1\r"
abbrev pub check_ack : List ℕ
check_ack = b'S' ∷ b'T' ∷ b'O' ∷ b'P' ∷ b',' ∷ b'1' ∷ 13 ∷ []

-- "\\.\", which opens a device.
abbrev pub device_prefix : List ℕ
device_prefix = b'\\' ∷ b'\\' ∷ b'.' ∷ b'\\' ∷ []

-- `wsprintf(szDevName, L"\\\\.\\COM%d", com)`
unfoldable pub device_name : ℕ → List ℕ
device_name port = device_prefix ++ (b'C' ∷ b'O' ∷ b'M' ∷ decimal 10 port)

abbrev pub is_found : Option (List ℕ) → Bool
is_found none = false
is_found (some rest) = true

module _ (os : Os) where
  -- What `checkComm` does with an open port: whether it answers.
  unfoldable pub ask_port : Handle → os.World → Bool × os.World
  ask_port h w =
      let (is_set, w1) = os.set_comm_timeouts h w in
      let (sent, written, w2) = os.write_file h check_cmd w1 in
      let (got, bytes, w3) = os.read_file h 32 w2 in
      if is_set
      then if sent
        then if got
          then (is_found (str_str check_ack (c_string bytes)), os.close_handle h w3)
          else (false, os.close_handle h w3)
        else (false, os.close_handle h w2)
      else (false, os.close_handle h w1)

  -- What it does with a number, once it is to look at it.
  unfoldable pub probe : ℕ → os.World → Bool × os.World
  probe port w =
      let (h, w1) = os.create_file (device_name port) open_existing w in
      if is_invalid h then (false, os.close_handle h w1) else ask_port h w1

  -- `checkComm`, with its `static` result.
  unfoldable pub check_comm : ℕ → ℕ → os.World → ℕ × os.World
  check_comm port result w =
      let (found, w') = probe port w in
      if ltb port max_com && (0 == result)
      then (if found then port else result, w')
      else (result, w)

  -- The loop of `CheckAll` from `i` on.
  unfoldable pub check_from : ℕ → ℕ → ℕ → os.World → ℕ × os.World
  check_from zero i result w = (result, w)
  check_from (suc n) i result w =
      let (result', w') = check_comm i result w in check_from n (i + 1) result' w'

  -- `CheckAll`
  unfoldable pub check_all : ℕ → os.World → ℕ × os.World
  check_all result w = check_from 100 0 result w

-- The text before a colon.
unfoldable pub before_colon : List ℕ → List ℕ
before_colon [] = []
before_colon (c ∷ rest) = if c == b':' then [] else c ∷ before_colon rest

-- `getCommPort`, with its `static` buffer of 32 characters, the zero at the end not counted, and the text of
-- the control, of which `GetDlgItemText` takes 27 characters and a zero: `none` is a write past the buffer.
unfoldable pub get_comm_port : List ℕ → List ℕ → Option (List ℕ)
get_comm_port text buffer =
    let name = buffer ++ take 27 text in
    if ltb (length name) 32 then some (before_colon name) else none

-- `n` calls of it, from the first one on.
unfoldable pub comm_port_calls : ℕ → List ℕ → Option (List ℕ)
comm_port_calls zero text = some device_prefix
comm_port_calls (suc n) text = elim (comm_port_calls n text) [
  | none ↦ none
  | some buffer ↦ get_comm_port text buffer
]
