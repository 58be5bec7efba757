-- ===== src/Form/Settled.antt =====
-- What `Button1Click` of Unit1.cxx comes to.
use cosmos_pc.Prelude.{
  ℕ, ◌+◌, ◌≤◌, ◌<◌, ◌≡◌, refl, ◌∙◌, Bool-cases, inl, inr, true, false, Option, some, List, [], ◌++◌,
  arith, length, replicate, overlay, u32, ltb,
}
use mathlib.Core.Path.{subst}
use cosmos_pc.Os.{Handle, is_invalid, open_existing, IsLawful}
use cosmos_pc.Ymodem.Transmit.{user_flash_size}
use cosmos_pc.Form.{FormOs, Form, enable, disable}
use cosmos_pc.Form.Texts.{
  chosen_text, line_feed, open_error, read_error, size_error, above, name_error, name_limit,
}
use cosmos_pc.Ymodem.Packet.Decimal.{decimal}
use cosmos_pc.Form.Messages.{show_test_message, message_clear}
use cosmos_pc.Form.Reading.{IsFed, read_image-Ends}
use cosmos_pc.Form.Choice.{hand_over, read_failed, take_image, open_image, button1_click}

module _ {x : FormOs} where
  -- How a click ends: the controls are enabled again and nothing is started, or the whole image is there,
  -- within the flash, and the update is started with the controls disabled.
  pub data Settled (events : ℕ) (t : Form x) : Type 0 where
    back : t.button_enabled ≡ true → t.combo_enabled ≡ true → t.events ≡ events → Settled events t
    handed :
        t.button_enabled ≡ false
        → t.combo_enabled ≡ false
        → t.events ≡ events + 1
        → length t.image_data ≡ t.image_length
        → t.image_length ≤ user_flash_size
        → Settled events t

  pub record IsSettled (events : ℕ) (result : Option (Form x)) : Type 0 where
    pub final : Form x
    pub returns : result ≡ some final
    pub settled : Settled events final

  show_test_message-events :
      (text : List ℕ) (s : Form x) → (show_test_message text s).events ≡ s.events
  unfolding show_test_message
  show_test_message-events text s =
      elim (Bool-cases (ltb s.message_max_text_size (u32 (s.message_counter + length text)))) [
        | inl e ↦ rw e refl
        | inr e ↦ rw e refl
      ]

  show_test_message-controls :
      (text : List ℕ) (s : Form x)
      → let t = show_test_message text s in
        (t.button_enabled ≡ s.button_enabled) × (t.combo_enabled ≡ s.combo_enabled)
  unfolding show_test_message
  show_test_message-controls text s =
      elim (Bool-cases (ltb s.message_max_text_size (u32 (s.message_counter + length text)))) [
        | inl e ↦ rw e (refl, refl)
        | inr e ↦ rw e (refl, refl)
      ]

  take_image-IsSettled :
      (fuel : ℕ) (file : Handle) (s : Form x)
      → IsLawful x.os
      → IsFed x.os
      → s.image_length < fuel
      → s.image_length ≤ user_flash_size
      → s.button_enabled ≡ false
      → s.combo_enabled ≡ false
      → IsSettled s.events (take_image fuel file s)
  unfolding take_image
  take_image-IsSettled fuel file s lawful fed enough small button combo =
      let ends =
        read_image-Ends x.os fuel file s.image_length [] s.world lawful fed (omega arith)
          (omega arith) in
      let s1 : Form x = record s { image_data = ends.image; world = ends.world } in
      elim (Bool-cases ends.done) [
        | inl done ↦ record {
          final = hand_over file s1;
          returns = rw (ends.returns, done, take_image) refl;
          settled =
              unfold hand_over in handed button combo refl (ground (arith, ends.whole, done)) small;
        }
        | inr failed ↦ record {
          final = read_failed file s1;
          returns = rw (ends.returns, failed, take_image) refl;
          settled = unfold read_failed in back refl refl (show_test_message-events read_error s1);
        }
      ]

  returned-IsSettled :
      (events : ℕ) (t : Form x) → t.events ≡ events → IsSettled events (some (enable t))
  returned-IsSettled events t e = record {
    final = enable t;
    returns = refl;
    settled = back refl refl e;
  }

  shown-IsSettled :
      (events : ℕ) (text : List ℕ) (t : Form x)
      → t.events ≡ events
      → IsSettled events (some (enable (show_test_message text t)))
  shown-IsSettled events text t e =
      returned-IsSettled events (show_test_message text t) (show_test_message-events text t ∙ e)

  open_image-IsSettled :
      (fuel : ℕ) (name : List ℕ) (s : Form x)
      → IsLawful x.os
      → IsFed x.os
      → user_flash_size < fuel
      → s.button_enabled ≡ false
      → s.combo_enabled ≡ false
      → IsSettled s.events (open_image fuel name s)
  unfolding open_image
  open_image-IsSettled fuel name s lawful fed enough button combo =
      let (file, w) = x.os.create_file name open_existing s.world in
      let size = u32 (x.get_file_size file w) in
      let s1 : Form x = record s { world = w } in
      let s2 : Form x = record s1 { image_length = size } in
      let s3 : Form x = record s2 { world = x.os.close_handle file s2.world } in
      elim (Bool-cases (is_invalid file)) [
        | inl e ↦ rw (e, open_image) (shown-IsSettled s.events open_error s1 refl)
        | inr e ↦ elim (Bool-cases (ltb user_flash_size size)) [
          | inl large ↦
              rw (e, large, open_image)
                (shown-IsSettled s.events
                  (size_error
                    ++ decimal 10 size
                    ++ above
                    ++ decimal 10 user_flash_size
                    ++ line_feed)
                  s3 refl)
          | inr fits ↦
              rw (e, fits, open_image)
                (take_image-IsSettled fuel file s2 lawful fed (ground (arith, fits, enough))
                  (ground (arith, fits)) button combo)
        ]
      ]

  -- On a system whose reads give no more than they are asked for, and at least a byte as long as one is
  -- asked for: a click on the button ends, with more rounds than the flash has bytes, and then either the
  -- controls are enabled and nothing was started, or an image as long as the size of the file, which fits
  -- the flash, was read, the update was started once, and the controls are disabled.
  pub button1_click-IsSettled :
      (fuel : ℕ) (s : Form x)
      → IsLawful x.os
      → IsFed x.os
      → user_flash_size < fuel
      → IsSettled s.events (button1_click fuel s)
  unfolding button1_click message_clear
  button1_click-IsSettled fuel s lawful fed enough =
      let ((ok, name), w) = x.choose s.world in
      let s1 : Form x = record (disable s) { world = w } in
      let s2 = message_clear s1 in
      let s3 : Form x = record s2 { world = x.set_position 0 s2.world } in
      let text = chosen_text ++ name ++ line_feed in
      let s4 = show_test_message text s3 in
      let s5 : Form x = record s4 { filename = replicate 256 0 } in
      let s6 : Form x = record s4 { filename = overlay name (replicate 256 0); image_data = [] } in
      let same = show_test_message-events text s3 in
      let controls = show_test_message-controls text s3 in
      elim (Bool-cases ok) [
        | inr none_chosen ↦ rw none_chosen (returned-IsSettled s.events s1 refl)
        | inl chosen ↦ elim (Bool-cases (ltb 256 (length name))) [
          | inl long ↦
              rw (chosen, long)
                (shown-IsSettled s.events (name_error ++ decimal 10 (length name) ++ name_limit) s5
                  same)
          | inr short ↦
              rw (chosen, short)
                (subst (λ n. IsSettled n (open_image fuel name s6)) same
                  (open_image-IsSettled fuel name s6 lawful fed enough controls.0 controls.1))
        ]
      ]
