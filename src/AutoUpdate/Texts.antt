-- ===== src/AutoUpdate/Texts.antt =====
-- The texts of sql_api/0_PC.cxx: its log, its queries and its paths.
use cosmos_pc.Prelude.{ℕ, List, [], ◌∷◌}

-- "Date: "
abbrev pub date_start : List ℕ
date_start = b'D' ∷ b'a' ∷ b't' ∷ b'e' ∷ b':' ∷ 32 ∷ []

-- "Time: "
abbrev pub time_start : List ℕ
time_start = b'T' ∷ b'i' ∷ b'm' ∷ b'e' ∷ b':' ∷ 32 ∷ []

-- "Now is work time"
abbrev pub work_time : List ℕ
work_time =
    b'N' ∷ b'o' ∷ b'w' ∷ 32 ∷ b'i' ∷ b's' ∷ 32 ∷ b'w' ∷ b'o' ∷ b'r' ∷ b'k' ∷ 32 ∷ b't' ∷ b'i' ∷ b'm'
    ∷ b'e' ∷ []

-- "Execute autoupdate"
abbrev pub execute_said : List ℕ
execute_said =
    b'E' ∷ b'x' ∷ b'e' ∷ b'c' ∷ b'u' ∷ b't' ∷ b'e' ∷ 32 ∷ b'a' ∷ b'u' ∷ b't' ∷ b'o' ∷ b'u' ∷ b'p'
    ∷ b'd' ∷ b'a' ∷ b't' ∷ b'e' ∷ []

-- "Server connect success"
abbrev pub server_success : List ℕ
server_success =
    b'S' ∷ b'e' ∷ b'r' ∷ b'v' ∷ b'e' ∷ b'r' ∷ 32 ∷ b'c' ∷ b'o' ∷ b'n' ∷ b'n' ∷ b'e' ∷ b'c' ∷ b't'
    ∷ 32 ∷ b's' ∷ b'u' ∷ b'c' ∷ b'c' ∷ b'e' ∷ b's' ∷ b's' ∷ []

-- "Connection ERROR_ACCESS_DENIED"
abbrev pub access_denied_said : List ℕ
access_denied_said =
    b'C' ∷ b'o' ∷ b'n' ∷ b'n' ∷ b'e' ∷ b'c' ∷ b't' ∷ b'i' ∷ b'o' ∷ b'n' ∷ 32 ∷ b'E' ∷ b'R' ∷ b'R'
    ∷ b'O' ∷ b'R' ∷ b'_' ∷ b'A' ∷ b'C' ∷ b'C' ∷ b'E' ∷ b'S' ∷ b'S' ∷ b'_' ∷ b'D' ∷ b'E' ∷ b'N'
    ∷ b'I' ∷ b'E' ∷ b'D' ∷ []

-- "Connection ERROR_ALREADY_ASSIGNED"
abbrev pub already_assigned_said : List ℕ
already_assigned_said =
    b'C' ∷ b'o' ∷ b'n' ∷ b'n' ∷ b'e' ∷ b'c' ∷ b't' ∷ b'i' ∷ b'o' ∷ b'n' ∷ 32 ∷ b'E' ∷ b'R' ∷ b'R'
    ∷ b'O' ∷ b'R' ∷ b'_' ∷ b'A' ∷ b'L' ∷ b'R' ∷ b'E' ∷ b'A' ∷ b'D' ∷ b'Y' ∷ b'_' ∷ b'A' ∷ b'S'
    ∷ b'S' ∷ b'I' ∷ b'G' ∷ b'N' ∷ b'E' ∷ b'D' ∷ []

-- "Connection ERROR_BAD_DEV_TYPE"
abbrev pub bad_dev_type_said : List ℕ
bad_dev_type_said =
    b'C' ∷ b'o' ∷ b'n' ∷ b'n' ∷ b'e' ∷ b'c' ∷ b't' ∷ b'i' ∷ b'o' ∷ b'n' ∷ 32 ∷ b'E' ∷ b'R' ∷ b'R'
    ∷ b'O' ∷ b'R' ∷ b'_' ∷ b'B' ∷ b'A' ∷ b'D' ∷ b'_' ∷ b'D' ∷ b'E' ∷ b'V' ∷ b'_' ∷ b'T' ∷ b'Y'
    ∷ b'P' ∷ b'E' ∷ []

-- "Connection ERROR_BAD_DEVICE"
abbrev pub bad_device_said : List ℕ
bad_device_said =
    b'C' ∷ b'o' ∷ b'n' ∷ b'n' ∷ b'e' ∷ b'c' ∷ b't' ∷ b'i' ∷ b'o' ∷ b'n' ∷ 32 ∷ b'E' ∷ b'R' ∷ b'R'
    ∷ b'O' ∷ b'R' ∷ b'_' ∷ b'B' ∷ b'A' ∷ b'D' ∷ b'_' ∷ b'D' ∷ b'E' ∷ b'V' ∷ b'I' ∷ b'C' ∷ b'E' ∷ []

-- "Connection ERROR_BAD_NET_NAME"
abbrev pub bad_net_name_said : List ℕ
bad_net_name_said =
    b'C' ∷ b'o' ∷ b'n' ∷ b'n' ∷ b'e' ∷ b'c' ∷ b't' ∷ b'i' ∷ b'o' ∷ b'n' ∷ 32 ∷ b'E' ∷ b'R' ∷ b'R'
    ∷ b'O' ∷ b'R' ∷ b'_' ∷ b'B' ∷ b'A' ∷ b'D' ∷ b'_' ∷ b'N' ∷ b'E' ∷ b'T' ∷ b'_' ∷ b'N' ∷ b'A'
    ∷ b'M' ∷ b'E' ∷ []

-- "Connection ERROR_BAD_PROFILE"
abbrev pub bad_profile_said : List ℕ
bad_profile_said =
    b'C' ∷ b'o' ∷ b'n' ∷ b'n' ∷ b'e' ∷ b'c' ∷ b't' ∷ b'i' ∷ b'o' ∷ b'n' ∷ 32 ∷ b'E' ∷ b'R' ∷ b'R'
    ∷ b'O' ∷ b'R' ∷ b'_' ∷ b'B' ∷ b'A' ∷ b'D' ∷ b'_' ∷ b'P' ∷ b'R' ∷ b'O' ∷ b'F' ∷ b'I' ∷ b'L'
    ∷ b'E' ∷ []

-- "Connection ERROR_BAD_PROVIDER"
abbrev pub bad_provider_said : List ℕ
bad_provider_said =
    b'C' ∷ b'o' ∷ b'n' ∷ b'n' ∷ b'e' ∷ b'c' ∷ b't' ∷ b'i' ∷ b'o' ∷ b'n' ∷ 32 ∷ b'E' ∷ b'R' ∷ b'R'
    ∷ b'O' ∷ b'R' ∷ b'_' ∷ b'B' ∷ b'A' ∷ b'D' ∷ b'_' ∷ b'P' ∷ b'R' ∷ b'O' ∷ b'V' ∷ b'I' ∷ b'D'
    ∷ b'E' ∷ b'R' ∷ []

-- "Connection ERROR_BUSY"
abbrev pub busy_said : List ℕ
busy_said =
    b'C' ∷ b'o' ∷ b'n' ∷ b'n' ∷ b'e' ∷ b'c' ∷ b't' ∷ b'i' ∷ b'o' ∷ b'n' ∷ 32 ∷ b'E' ∷ b'R' ∷ b'R'
    ∷ b'O' ∷ b'R' ∷ b'_' ∷ b'B' ∷ b'U' ∷ b'S' ∷ b'Y' ∷ []

-- "Connection ERROR_CANCELLED"
abbrev pub cancelled_said : List ℕ
cancelled_said =
    b'C' ∷ b'o' ∷ b'n' ∷ b'n' ∷ b'e' ∷ b'c' ∷ b't' ∷ b'i' ∷ b'o' ∷ b'n' ∷ 32 ∷ b'E' ∷ b'R' ∷ b'R'
    ∷ b'O' ∷ b'R' ∷ b'_' ∷ b'C' ∷ b'A' ∷ b'N' ∷ b'C' ∷ b'E' ∷ b'L' ∷ b'L' ∷ b'E' ∷ b'D' ∷ []

-- "Connection ERROR_CANNOT_OPEN_PROFILE"
abbrev pub cannot_open_profile_said : List ℕ
cannot_open_profile_said =
    b'C' ∷ b'o' ∷ b'n' ∷ b'n' ∷ b'e' ∷ b'c' ∷ b't' ∷ b'i' ∷ b'o' ∷ b'n' ∷ 32 ∷ b'E' ∷ b'R' ∷ b'R'
    ∷ b'O' ∷ b'R' ∷ b'_' ∷ b'C' ∷ b'A' ∷ b'N' ∷ b'N' ∷ b'O' ∷ b'T' ∷ b'_' ∷ b'O' ∷ b'P' ∷ b'E'
    ∷ b'N' ∷ b'_' ∷ b'P' ∷ b'R' ∷ b'O' ∷ b'F' ∷ b'I' ∷ b'L' ∷ b'E' ∷ []

-- "Connection ERROR_DEVICE_ALREADY_REMEMBERED"
abbrev pub already_remembered_said : List ℕ
already_remembered_said =
    b'C' ∷ b'o' ∷ b'n' ∷ b'n' ∷ b'e' ∷ b'c' ∷ b't' ∷ b'i' ∷ b'o' ∷ b'n' ∷ 32 ∷ b'E' ∷ b'R' ∷ b'R'
    ∷ b'O' ∷ b'R' ∷ b'_' ∷ b'D' ∷ b'E' ∷ b'V' ∷ b'I' ∷ b'C' ∷ b'E' ∷ b'_' ∷ b'A' ∷ b'L' ∷ b'R'
    ∷ b'E' ∷ b'A' ∷ b'D' ∷ b'Y' ∷ b'_' ∷ b'R' ∷ b'E' ∷ b'M' ∷ b'E' ∷ b'M' ∷ b'B' ∷ b'E' ∷ b'R'
    ∷ b'E' ∷ b'D' ∷ []

-- "Connection WnetGetLastError failed"
abbrev pub last_error_failed : List ℕ
last_error_failed =
    b'C' ∷ b'o' ∷ b'n' ∷ b'n' ∷ b'e' ∷ b'c' ∷ b't' ∷ b'i' ∷ b'o' ∷ b'n' ∷ 32 ∷ b'W' ∷ b'n' ∷ b'e'
    ∷ b't' ∷ b'G' ∷ b'e' ∷ b't' ∷ b'L' ∷ b'a' ∷ b's' ∷ b't' ∷ b'E' ∷ b'r' ∷ b'r' ∷ b'o' ∷ b'r' ∷ 32
    ∷ b'f' ∷ b'a' ∷ b'i' ∷ b'l' ∷ b'e' ∷ b'd' ∷ []

-- "Connection failed with code"
abbrev pub failed_with_code : List ℕ
failed_with_code =
    b'C' ∷ b'o' ∷ b'n' ∷ b'n' ∷ b'e' ∷ b'c' ∷ b't' ∷ b'i' ∷ b'o' ∷ b'n' ∷ 32 ∷ b'f' ∷ b'a' ∷ b'i'
    ∷ b'l' ∷ b'e' ∷ b'd' ∷ 32 ∷ b'w' ∷ b'i' ∷ b't' ∷ b'h' ∷ 32 ∷ b'c' ∷ b'o' ∷ b'd' ∷ b'e' ∷ []

-- "Connection ERROR_INVALID_PASSWORD"
abbrev pub invalid_password_said : List ℕ
invalid_password_said =
    b'C' ∷ b'o' ∷ b'n' ∷ b'n' ∷ b'e' ∷ b'c' ∷ b't' ∷ b'i' ∷ b'o' ∷ b'n' ∷ 32 ∷ b'E' ∷ b'R' ∷ b'R'
    ∷ b'O' ∷ b'R' ∷ b'_' ∷ b'I' ∷ b'N' ∷ b'V' ∷ b'A' ∷ b'L' ∷ b'I' ∷ b'D' ∷ b'_' ∷ b'P' ∷ b'A'
    ∷ b'S' ∷ b'S' ∷ b'W' ∷ b'O' ∷ b'R' ∷ b'D' ∷ []

-- "Connection ERROR_NOT_NET_OR_BAD_PATH"
abbrev pub no_net_said : List ℕ
no_net_said =
    b'C' ∷ b'o' ∷ b'n' ∷ b'n' ∷ b'e' ∷ b'c' ∷ b't' ∷ b'i' ∷ b'o' ∷ b'n' ∷ 32 ∷ b'E' ∷ b'R' ∷ b'R'
    ∷ b'O' ∷ b'R' ∷ b'_' ∷ b'N' ∷ b'O' ∷ b'T' ∷ b'_' ∷ b'N' ∷ b'E' ∷ b'T' ∷ b'_' ∷ b'O' ∷ b'R'
    ∷ b'_' ∷ b'B' ∷ b'A' ∷ b'D' ∷ b'_' ∷ b'P' ∷ b'A' ∷ b'T' ∷ b'H' ∷ []

-- "Connection ERROR_NO_NETWORK"
abbrev pub no_network_said : List ℕ
no_network_said =
    b'C' ∷ b'o' ∷ b'n' ∷ b'n' ∷ b'e' ∷ b'c' ∷ b't' ∷ b'i' ∷ b'o' ∷ b'n' ∷ 32 ∷ b'E' ∷ b'R' ∷ b'R'
    ∷ b'O' ∷ b'R' ∷ b'_' ∷ b'N' ∷ b'O' ∷ b'_' ∷ b'N' ∷ b'E' ∷ b'T' ∷ b'W' ∷ b'O' ∷ b'R' ∷ b'K' ∷ []

-- "Connection other error"
abbrev pub other_error_said : List ℕ
other_error_said =
    b'C' ∷ b'o' ∷ b'n' ∷ b'n' ∷ b'e' ∷ b'c' ∷ b't' ∷ b'i' ∷ b'o' ∷ b'n' ∷ 32 ∷ b'o' ∷ b't' ∷ b'h'
    ∷ b'e' ∷ b'r' ∷ 32 ∷ b'e' ∷ b'r' ∷ b'r' ∷ b'o' ∷ b'r' ∷ []

-- "Database connet failed"
abbrev pub database_failed : List ℕ
database_failed =
    b'D' ∷ b'a' ∷ b't' ∷ b'a' ∷ b'b' ∷ b'a' ∷ b's' ∷ b'e' ∷ 32 ∷ b'c' ∷ b'o' ∷ b'n' ∷ b'n' ∷ b'e'
    ∷ b't' ∷ 32 ∷ b'f' ∷ b'a' ∷ b'i' ∷ b'l' ∷ b'e' ∷ b'd' ∷ []

-- "Database connect success"
abbrev pub database_success : List ℕ
database_success =
    b'D' ∷ b'a' ∷ b't' ∷ b'a' ∷ b'b' ∷ b'a' ∷ b's' ∷ b'e' ∷ 32 ∷ b'c' ∷ b'o' ∷ b'n' ∷ b'n' ∷ b'e'
    ∷ b'c' ∷ b't' ∷ 32 ∷ b's' ∷ b'u' ∷ b'c' ∷ b'c' ∷ b'e' ∷ b's' ∷ b's' ∷ []

-- "select machine from userinfo where name='Schumann'"
abbrev pub select_machine : List ℕ
select_machine =
    b's' ∷ b'e' ∷ b'l' ∷ b'e' ∷ b'c' ∷ b't' ∷ 32 ∷ b'm' ∷ b'a' ∷ b'c' ∷ b'h' ∷ b'i' ∷ b'n' ∷ b'e'
    ∷ 32 ∷ b'f' ∷ b'r' ∷ b'o' ∷ b'm' ∷ 32 ∷ b'u' ∷ b's' ∷ b'e' ∷ b'r' ∷ b'i' ∷ b'n' ∷ b'f' ∷ b'o'
    ∷ 32 ∷ b'w' ∷ b'h' ∷ b'e' ∷ b'r' ∷ b'e' ∷ 32 ∷ b'n' ∷ b'a' ∷ b'm' ∷ b'e' ∷ b'=' ∷ b'\'' ∷ b'S'
    ∷ b'c' ∷ b'h' ∷ b'u' ∷ b'm' ∷ b'a' ∷ b'n' ∷ b'n' ∷ b'\'' ∷ []

-- "select build from userinfo where name='Schumann'"
abbrev pub select_build : List ℕ
select_build =
    b's' ∷ b'e' ∷ b'l' ∷ b'e' ∷ b'c' ∷ b't' ∷ 32 ∷ b'b' ∷ b'u' ∷ b'i' ∷ b'l' ∷ b'd' ∷ 32 ∷ b'f'
    ∷ b'r' ∷ b'o' ∷ b'm' ∷ 32 ∷ b'u' ∷ b's' ∷ b'e' ∷ b'r' ∷ b'i' ∷ b'n' ∷ b'f' ∷ b'o' ∷ 32 ∷ b'w'
    ∷ b'h' ∷ b'e' ∷ b'r' ∷ b'e' ∷ 32 ∷ b'n' ∷ b'a' ∷ b'm' ∷ b'e' ∷ b'=' ∷ b'\'' ∷ b'S' ∷ b'c' ∷ b'h'
    ∷ b'u' ∷ b'm' ∷ b'a' ∷ b'n' ∷ b'n' ∷ b'\'' ∷ []

-- "\\192.168.1.240\UserSpaces\Schumann\"
abbrev pub share_path : List ℕ
share_path =
    b'\\' ∷ b'\\' ∷ b'1' ∷ b'9' ∷ b'2' ∷ b'.' ∷ b'1' ∷ b'6' ∷ b'8' ∷ b'.' ∷ b'1' ∷ b'.' ∷ b'2'
    ∷ b'4' ∷ b'0' ∷ b'\\' ∷ b'U' ∷ b's' ∷ b'e' ∷ b'r' ∷ b'S' ∷ b'p' ∷ b'a' ∷ b'c' ∷ b'e' ∷ b's'
    ∷ b'\\' ∷ b'S' ∷ b'c' ∷ b'h' ∷ b'u' ∷ b'm' ∷ b'a' ∷ b'n' ∷ b'n' ∷ b'\\' ∷ []

-- "Retail build"
abbrev pub retail_build : List ℕ
retail_build = b'R' ∷ b'e' ∷ b't' ∷ b'a' ∷ b'i' ∷ b'l' ∷ 32 ∷ b'b' ∷ b'u' ∷ b'i' ∷ b'l' ∷ b'd' ∷ []

-- "\ImageInstall_Retail.exe"
abbrev pub retail_image : List ℕ
retail_image =
    b'\\' ∷ b'I' ∷ b'm' ∷ b'a' ∷ b'g' ∷ b'e' ∷ b'I' ∷ b'n' ∷ b's' ∷ b't' ∷ b'a' ∷ b'l' ∷ b'l' ∷ b'_'
    ∷ b'R' ∷ b'e' ∷ b't' ∷ b'a' ∷ b'i' ∷ b'l' ∷ b'.' ∷ b'e' ∷ b'x' ∷ b'e' ∷ []

-- "Ship build"
abbrev pub ship_build : List ℕ
ship_build = b'S' ∷ b'h' ∷ b'i' ∷ b'p' ∷ 32 ∷ b'b' ∷ b'u' ∷ b'i' ∷ b'l' ∷ b'd' ∷ []

-- "\ImageInstall_Ship.exe"
abbrev pub ship_image : List ℕ
ship_image =
    b'\\' ∷ b'I' ∷ b'm' ∷ b'a' ∷ b'g' ∷ b'e' ∷ b'I' ∷ b'n' ∷ b's' ∷ b't' ∷ b'a' ∷ b'l' ∷ b'l' ∷ b'_'
    ∷ b'S' ∷ b'h' ∷ b'i' ∷ b'p' ∷ b'.' ∷ b'e' ∷ b'x' ∷ b'e' ∷ []

-- "\ImageInstall_Debug.exe"
abbrev pub debug_image : List ℕ
debug_image =
    b'\\' ∷ b'I' ∷ b'm' ∷ b'a' ∷ b'g' ∷ b'e' ∷ b'I' ∷ b'n' ∷ b's' ∷ b't' ∷ b'a' ∷ b'l' ∷ b'l' ∷ b'_'
    ∷ b'D' ∷ b'e' ∷ b'b' ∷ b'u' ∷ b'g' ∷ b'.' ∷ b'e' ∷ b'x' ∷ b'e' ∷ []

-- "Copy file success"
abbrev pub copy_success : List ℕ
copy_success =
    b'C' ∷ b'o' ∷ b'p' ∷ b'y' ∷ 32 ∷ b'f' ∷ b'i' ∷ b'l' ∷ b'e' ∷ 32 ∷ b's' ∷ b'u' ∷ b'c' ∷ b'c'
    ∷ b'e' ∷ b's' ∷ b's' ∷ []

-- "copy file failed"
abbrev pub copy_failed : List ℕ
copy_failed =
    b'c' ∷ b'o' ∷ b'p' ∷ b'y' ∷ 32 ∷ b'f' ∷ b'i' ∷ b'l' ∷ b'e' ∷ 32 ∷ b'f' ∷ b'a' ∷ b'i' ∷ b'l'
    ∷ b'e' ∷ b'd' ∷ []

-- "delete from userinfo where name='Schumann' && yesno='no'"
abbrev pub delete_user : List ℕ
delete_user =
    b'd' ∷ b'e' ∷ b'l' ∷ b'e' ∷ b't' ∷ b'e' ∷ 32 ∷ b'f' ∷ b'r' ∷ b'o' ∷ b'm' ∷ 32 ∷ b'u' ∷ b's'
    ∷ b'e' ∷ b'r' ∷ b'i' ∷ b'n' ∷ b'f' ∷ b'o' ∷ 32 ∷ b'w' ∷ b'h' ∷ b'e' ∷ b'r' ∷ b'e' ∷ 32 ∷ b'n'
    ∷ b'a' ∷ b'm' ∷ b'e' ∷ b'=' ∷ b'\'' ∷ b'S' ∷ b'c' ∷ b'h' ∷ b'u' ∷ b'm' ∷ b'a' ∷ b'n' ∷ b'n'
    ∷ b'\'' ∷ 32 ∷ b'&' ∷ b'&' ∷ 32 ∷ b'y' ∷ b'e' ∷ b's' ∷ b'n' ∷ b'o' ∷ b'=' ∷ b'\'' ∷ b'n' ∷ b'o'
    ∷ b'\'' ∷ []
