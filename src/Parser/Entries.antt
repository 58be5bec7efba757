-- ===== src/Parser/Entries.antt =====
-- The records of a downloaded file, and what `doParseFile` (CosmosParser.cpp) writes for them.
use cosmos_pc.Prelude.{ℕ, ◌≡◌, ◌≢◌, ◌||◌, not, List, [], ◌∷◌, ◌++◌, length, ◌==◌, if◌then◌else◌}
use cosmos_pc.Parser.Format.{Storage}
use cosmos_pc.Parser.Texts.{gps_line}

-- A record of the file: a position, or a byte and what follows it.
pub data Entry : Type 0 where
  gps_entry : List ℕ → Entry
  other_entry : ℕ → List ℕ → Entry

abbrev pub encode : Entry → List ℕ
encode (gps_entry bytes) = 0x10 ∷ bytes
encode (other_entry tag bytes) = tag ∷ bytes

abbrev pub encode_all : List Entry → List ℕ
encode_all [] = []
encode_all (e ∷ es) = encode e ++ encode_all es

module _ (f : Storage) where
  -- The bytes that follow another byte than 0x10.
  abbrev pub size_of : ℕ → ℕ
  size_of tag =
      if tag == 0x20
      then f.heartbeat_size
      else if tag == 0x21
      then f.pedometer_size
      else if tag == 0x22
      then f.bike_size
      else if tag == 0x30
      then f.barometer_size
      else if tag == 0x31
      then f.temperature_size
      else if tag == 0x82
      then f.lap_size
      else 0

  abbrev pub IsEntry : Entry → Type 0
  IsEntry (gps_entry bytes) = length bytes ≡ f.gps_size
  IsEntry (other_entry tag bytes) = (tag ≢ 0x10) × (length bytes ≡ size_of tag)

  abbrev pub AreEntries : List Entry → Type 0
  AreEntries [] = Unit
  AreEntries (e ∷ es) = IsEntry e × AreEntries es

  -- A position that is not zero has a line, and nothing else has.
  abbrev pub line_of : ℕ → ℕ → Entry → List ℕ
  line_of i mode (gps_entry bytes) =
      if not (f.is_zero (f.lat bytes)) || not (f.is_zero (f.long bytes))
      then gps_line f i mode bytes
      else []
  line_of i mode (other_entry tag bytes) = []

  abbrev pub lines_of : ℕ → ℕ → List Entry → List ℕ
  lines_of i mode [] = []
  lines_of i mode (e ∷ es) = line_of i mode e ++ lines_of i mode es
