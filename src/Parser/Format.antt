-- ===== src/Parser/Format.antt =====
-- What CosmosParser.cpp takes from Storage.h, which is not in the repository, and from the C library.
use cosmos_pc.Prelude.{ℕ, ◌-◌, ◌^◌, ◌≤◌, ◌<◌, Bool, List, ◌∷◌, u32, ltb, if◌then◌else◌}
use cosmos_pc.Ymodem.Packet.Decimal.{decimal}

-- The sizes of the structures of Storage.h, the fields that are read (from the bytes of a structure), and the
-- numbers with a fraction: `print_real` is `%f`, `print_real_as_int` what `%d` makes of one.
pub record Storage : Type 1 where
  pub Real : Type 0
  pub head_size : ℕ
  pub gps_size : ℕ
  pub heartbeat_size : ℕ
  pub pedometer_size : ℕ
  pub bike_size : ℕ
  pub barometer_size : ℕ
  pub temperature_size : ℕ
  pub lap_size : ℕ
  pub year : List ℕ → ℕ
  pub month : List ℕ → ℕ
  pub day : List ℕ → ℕ
  pub mode : List ℕ → ℕ
  pub total_tick : List ℕ → ℕ
  pub distance : List ℕ → Real
  pub lat : List ℕ → Real
  pub long : List ℕ → Real
  pub is_zero : Real → Bool
  pub print_real : Real → List ℕ
  pub print_real_as_int : Real → List ℕ

-- Structures have a size, and the bytes of one fit into the buffer of `doParseFile`.
pub record IsStorage (f : Storage) : Type 0 where
  pub some_gps : 0 < f.gps_size
  pub some_heartbeat : 0 < f.heartbeat_size
  pub some_pedometer : 0 < f.pedometer_size
  pub some_bike : 0 < f.bike_size
  pub some_barometer : 0 < f.barometer_size
  pub some_temperature : 0 < f.temperature_size
  pub some_lap : 0 < f.lap_size
  pub gps_fits : f.gps_size ≤ 512

-- `%d` of a 32-bit number.
unfoldable pub print_int : ℕ → List ℕ
print_int n =
    if ltb (u32 n) (2 ^ 31) then decimal 10 (u32 n) else b'-' ∷ decimal 10 (2 ^ 32 - u32 n)
