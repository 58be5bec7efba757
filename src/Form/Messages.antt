-- ===== src/Form/Messages.antt =====
-- The memo of Unit1.cxx: `MessageInit`, `ShowTestMessage` and `MessageClear`, and the counter of its
-- characters, which is a `DWORD`.
use cosmos_pc.Prelude.{
  ℕ, ◌+◌, ◌-◌, ◌^◌, ◌≤◌, ◌<◌, Bool-cases, inl, inr, List, [], arith, length, u32, ltb,
  if◌then◌else◌,
}
use cosmos_pc.Form.{FormOs, Form}

module _ {x : FormOs} where
  -- `ShowTestMessage`, after `wvsprintf`.
  unfoldable pub show_test_message : List ℕ → Form x → Form x
  show_test_message text s =
      let len = length text in
      let s1 : Form x =
        if ltb s.message_max_text_size (u32 (s.message_counter + len))
        then record s {
          world = x.replace_text 0 len [] s.world;
          message_counter = u32 (s.message_counter + 2 ^ 32 - len);
        }
        else s in
      record s1 {
        world = x.replace_text s1.message_counter (u32 (s1.message_counter + len)) text s1.world;
        message_counter = u32 (s1.message_counter + len);
      }

  -- `MessageClear`
  unfoldable pub message_clear : Form x → Form x
  message_clear s = record s {
    world = x.replace_text 0 s.message_counter [] s.world;
    message_counter = 0;
  }

  -- `MessageInit`: `max_length` is `Memo1->MaxLength`.
  unfoldable pub message_init : ℕ → Form x → Form x
  message_init max_length s =
      let limit = u32 (max_length + 2 ^ 32 - 100) in
      message_clear (record s {
        world = x.limit_text limit s.world;
        message_max_text_size = limit;
        message_counter = 0;
      })

  -- The counter of the characters stays within the limit: with a limit below 2 ^ 31 and a text shorter than
  -- that, a counter that is not above the limit is not above it after `ShowTestMessage` either, although the
  -- subtraction in it goes below zero for a text longer than what stands there.
  pub show_test_message_bounded :
      (text : List ℕ) (s : Form x)
      → s.message_max_text_size < 2 ^ 31
      → length text < 2 ^ 31
      → s.message_counter ≤ s.message_max_text_size
      → let t = show_test_message text s in t.message_counter ≤ t.message_max_text_size
  unfolding show_test_message
  show_test_message_bounded text s limit short within =
      elim (Bool-cases (ltb s.message_max_text_size (u32 (s.message_counter + length text)))) [
        | inl over ↦ rw over (omega arith)
        | inr fits ↦ rw fits (ground (arith, fits))
      ]
