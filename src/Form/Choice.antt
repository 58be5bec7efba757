-- ===== src/Form/Choice.antt =====
-- `Button1Click` of Unit1.cxx: the choice of a file, and its reading. The caption of a label is left out.
use cosmos_pc.Prelude.{
  ℕ, zero, suc, ◌+◌, ◌-◌, Bool, true, false, Option, none, some, List, [], ◌++◌, length, replicate,
  overlay, u32, ltb, if◌then◌else◌,
}
use cosmos_pc.Os.{Os, Handle, is_invalid, open_existing}
use cosmos_pc.Ymodem.Packet.Decimal.{decimal}
use cosmos_pc.Ymodem.Transmit.{user_flash_size}
use cosmos_pc.Form.{FormOs, Form, enable, disable}
use cosmos_pc.Form.Texts.{
  chosen_text, line_feed, open_error, read_error, name_error, name_limit, size_error, above,
}
use cosmos_pc.Form.Messages.{show_test_message, message_clear}

-- The loop that reads the file: whether it came to the end, and `none` when the fuel did not suffice. A read
-- of no bytes goes on. `Image_data` is the bytes read so far.
unfoldable pub read_image :
    (os : Os) → ℕ → Handle → ℕ → List ℕ → os.World → Option (Bool × List ℕ × os.World)
read_image os zero file size image w = none
read_image os (suc fuel) file size image w =
    let (ok, bytes, w1) = os.read_file file (size - length image) w in
    let rest = read_image os fuel file size (image ++ bytes) w1 in
    if ltb (length image) size
    then if ok then rest else some (false, image, w1)
    else some (true, image, w)

module _ {x : FormOs} where
  -- The end with the image read.
  unfoldable pub hand_over : Handle → Form x → Form x
  hand_over file s = record s {
    world = x.set_event (x.os.close_handle file s.world);
    events = s.events + 1;
  }

  -- The return from a failed read.
  unfoldable pub read_failed : Handle → Form x → Form x
  read_failed file s =
      let s1 = show_test_message read_error s in
      enable (record s1 { world = x.os.close_handle file s1.world })

  -- What follows the tests.
  unfoldable pub take_image : ℕ → Handle → Form x → Option (Form x)
  take_image fuel file s = elim (read_image x.os fuel file s.image_length [] s.world) [
    | none ↦ none
    | some (done, image, w) ↦
        let s1 : Form x = record s { image_data = image; world = w } in
        some (if done then hand_over file s1 else read_failed file s1)
  ]

  -- From `CreateFile` on.
  unfoldable pub open_image : ℕ → List ℕ → Form x → Option (Form x)
  open_image fuel name s =
      let (file, w) = x.os.create_file name open_existing s.world in
      let size = u32 (x.get_file_size file w) in
      let s1 : Form x = record s { world = w } in
      let s2 : Form x = record s1 { image_length = size } in
      let s3 : Form x = record s2 { world = x.os.close_handle file s2.world } in
      if is_invalid file
      then some (enable (show_test_message open_error s1))
      else if ltb user_flash_size size
      then some (
          enable (
            show_test_message
              (size_error ++ decimal 10 size ++ above ++ decimal 10 user_flash_size ++ line_feed)
              s3))
      else take_image fuel file s2

  -- `Button1Click`
  unfoldable pub button1_click : ℕ → Form x → Option (Form x)
  button1_click fuel s =
      let s0 = disable s in
      let ((ok, name), w) = x.choose s0.world in
      let s1 : Form x = record s0 { world = w } in
      let s2 = message_clear s1 in
      let s3 : Form x = record s2 { world = x.set_position 0 s2.world } in
      let s4 = show_test_message (chosen_text ++ name ++ line_feed) s3 in
      let s5 : Form x = record s4 { filename = replicate 256 0 } in
      let s6 : Form x = record s4 { filename = overlay name (replicate 256 0); image_data = [] } in
      if ok
      then if ltb 256 (length name)
        then some
            (enable (show_test_message (name_error ++ decimal 10 (length name) ++ name_limit) s5))
        else open_image fuel name s6
      else some (enable s1)
