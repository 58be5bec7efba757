-- ===== src/Ymodem/Packet/CString.antt =====
-- The strings of C inside an array, by which the proofs say what the copying loops copy.
use cosmos_pc.Prelude.{ℕ, List, [], ◌∷◌, ◌==◌, if◌then◌else◌}

-- A C string: the bytes before the first zero.
abbrev pub c_string : List ℕ → List ℕ
c_string [] = []
c_string (c ∷ rest) = if c == 0 then [] else c ∷ c_string rest
