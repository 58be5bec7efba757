-- ===== src/Form/Tests.antt =====
-- Runs of the theorems on the form of Unit1.cxx, on a computer whose port answers and whose files hold four
-- bytes, and on one whose reads give nothing.
use cosmos_pc.Prelude.{
  ℕ, ◌≡◌, ◌≤◌, refl, true, [], ◌∷◌, arith, length, length-replicate, replicate, min, ◌+◌,
}
use cosmos_pc.Os.{Os, IsLawful, invalid_handle, open_handle}
use cosmos_pc.Form.{FormOs, Form}
use cosmos_pc.Form.Messages.{show_test_message, show_test_message_bounded}
use cosmos_pc.Form.Update.{process_update}
use cosmos_pc.Form.Choice.{button1_click}
use cosmos_pc.Form.Reading.{IsFed}
use cosmos_pc.Form.Settled.{IsSettled, button1_click-IsSettled}
use cosmos_pc.Form.Released.{Released, process_update-Released}

-- Every read gives `min n amount` bytes.
abbrev pub giving : ℕ → Os
giving amount = record {
  World = ℕ;
  create_file = λ name disposition w. (open_handle 1, w);
  close_handle = λ h w. w;
  create_directory = λ name w. w;
  delete_file = λ name w. w;
  set_comm_timeouts = λ h w. (true, w);
  read_file = λ h n w. (true, replicate (min n amount) 65, w);
  write_file = λ h bs w. (true, length bs, w);
}

pub giving-IsLawful : IsLawful (giving 4)
giving-IsLawful = record {
  read_le = λ h n w. omega (arith, length-replicate {A = ℕ} (min n 4) 65);
  write_le = λ h bs w. omega arith;
}

pub giving-IsFed : IsFed (giving 4)
giving-IsFed = record {
  reads_some =
      λ h n w ok some_left. omega (arith, length-replicate {A = ℕ} (min n 4) 65, some_left);
}

abbrev pub desk : FormOs
desk = record {
  os = giving 4;
  get_comm_timeouts = λ h w. (true, w);
  get_comm_state = λ h w. (true, w);
  set_comm_state = λ h baud w. (true, w);
  get_file_size = λ h w. 10;
  replace_text = λ from to text w. w + 1;
  limit_text = λ limit w. w;
  set_position = λ position w. w;
  choose = λ w. ((true, b'a' ∷ b'.' ∷ b'b' ∷ []), w);
  set_event = λ w. w;
}

abbrev pub form : Form desk
form = record {
  world = 0;
  h_com = invalid_handle;
  message_counter = 10;
  message_max_text_size = 11;
  button_enabled = true;
  combo_enabled = true;
  filename = [];
  image_data = [];
  image_length = 0;
  events = 0;
}

-- The counter is 10 and the text has 3 characters: the subtraction is of 3 from 10.
counter_stays : (show_test_message (65 ∷ 65 ∷ 65 ∷ []) form).message_counter ≡ 10
unfolding show_test_message
counter_stays = refl

show_test_message_bounded_example :
    let t = show_test_message (65 ∷ 65 ∷ 65 ∷ []) form in
    t.message_counter ≤ t.message_max_text_size
show_test_message_bounded_example =
    show_test_message_bounded (65 ∷ 65 ∷ 65 ∷ []) form (omega arith) (omega arith) (omega arith)

button1_click-IsSettled_example : IsSettled 0 (button1_click 1000000 form)
button1_click-IsSettled_example =
    button1_click-IsSettled 1000000 form giving-IsLawful giving-IsFed (omega arith)

process_update-Released_example :
    Released (process_update 2 (b'C' ∷ b'O' ∷ b'M' ∷ b'3' ∷ []) (λ image name size t. (0, t)) form)
process_update-Released_example =
    process_update-Released 2 (b'C' ∷ b'O' ∷ b'M' ∷ b'3' ∷ []) (λ image name size t. (0, t)) form
