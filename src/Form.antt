-- ===== src/Form.antt =====
-- Unit1.cxx: the form that sends a firmware image, in its version for another compiler. Unit1.h, which
-- declares its fields, is not in the repository.
pub mod Texts
pub mod Messages
pub mod Uart
pub mod Update
pub mod Choice
pub mod Reading
pub mod Settled
pub mod Released
pub mod Life
pub mod Tests
use cosmos_pc.Prelude.{ℕ, Bool, true, false, List}
use cosmos_pc.Os.{Handle, Os}

-- Windows and the controls of the form: `replace_text` selects a part of the memo and replaces it,
-- `limit_text` limits it, `set_position` sets the progress bar, `choose` runs the dialog for the file. Their states are part of the
-- world.
pub record FormOs : Type 1 where
  pub os : Os
  pub get_comm_timeouts : Handle → os.World → Bool × os.World
  pub get_comm_state : Handle → os.World → Bool × os.World
  pub set_comm_state : Handle → ℕ → os.World → Bool × os.World
  pub get_file_size : Handle → os.World → ℕ
  pub replace_text : ℕ → ℕ → List ℕ → os.World → os.World
  pub limit_text : ℕ → os.World → os.World
  pub set_position : ℕ → os.World → os.World
  pub choose : os.World → (Bool × List ℕ) × os.World
  pub set_event : os.World → os.World

-- The fields that the methods use. `events` counts `SetEvent`, for the statements.
pub record Form (x : FormOs) : Type 0 where
  pub world : x.os.World
  pub h_com : Handle
  pub message_counter : ℕ
  pub message_max_text_size : ℕ
  pub button_enabled : Bool
  pub combo_enabled : Bool
  pub filename : List ℕ
  pub image_data : List ℕ
  pub image_length : ℕ
  pub events : ℕ

module _ {x : FormOs} where
  abbrev pub enable : Form x → Form x
  enable s = record s { button_enabled = true; combo_enabled = true }

  abbrev pub disable : Form x → Form x
  disable s = record s { button_enabled = false; combo_enabled = false }
