-- ===== src/AutoUpdate/Tests.antt =====
-- Runs of `_tmain` of sql_api/0_PC.cxx, at eight o'clock, without a database and with a copy that fails.
use cosmos_pc.Prelude.{ℕ, ◌≡◌, refl, true, false, some, List, [], ◌∷◌}
use cosmos_pc.AutoUpdate.{Computer, id_yes, id_closed, no_error}
use cosmos_pc.AutoUpdate.Main.{same_text, image_name}
use cosmos_pc.AutoUpdate.Texts.{ship_image}

abbrev at_eight : Computer
at_eight = record {
  time = record { year = 2024; month = 5; day = 1; hour = 8; minute = 30; second = 0 };
  first_answer = id_closed;
  second_answer = id_yes;
  connection = no_error;
  last_error_works = true;
  database_connects = false;
  fields = λ text. [];
  closed_fields = λ text. some [];
  copy_works = false;
  log_opens = true;
}

-- "Ship build"
abbrev ship : List ℕ
ship = b'S' ∷ b'h' ∷ b'i' ∷ b'p' ∷ 32 ∷ b'b' ∷ b'u' ∷ b'i' ∷ b'l' ∷ b'd' ∷ []

ship_chosen : image_name ship ≡ ship_image
unfolding image_name same_text
ship_chosen = refl
