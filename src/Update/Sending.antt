-- ===== src/Update/Sending.antt =====
-- What `doUpdate` (UpdateGWatch.cpp) has put on the wire when it returns.
use cosmos_pc.Prelude.{
  ℕ, zero, suc, ◌-◌, ◌≤◌, ◌<◌, ◌≡◌, refl, sym, ap, ◌∙◌, Bool-cases, Option-cases, inl, inr, false,
  Option, none, some, List, [], ◌∷◌, ◌++◌, append_assoc, append-nil, arith, length, replicate, take,
  u32, ltb, ◌==◌,
}
use mathlib.Core.Path.{subst}
use cosmos_pc.Os.{Handle, open_existing, is_invalid, is_null, Os, Sys, IsLawful, IsLive}
use cosmos_pc.ComIo.{ComIo, init_com_io}
use cosmos_pc.Download.Transfer.{IsRoomy}
use cosmos_pc.Ymodem.Uart.{Bcb2win, init}
use cosmos_pc.Ymodem.Uart.Send.{form}
use cosmos_pc.Ymodem.Transmit.{Outcome, user_flash_size, transmit}
use cosmos_pc.Ymodem.Transmit.Outcomes.{Finishes, completed, stopped}
use cosmos_pc.Ymodem.Transmit.Session.{transmit-Finishes}
use cosmos_pc.Ymodem.Transmit.Stream.{session}
use cosmos_pc.Update.{exchange, after_transmit, send_image, update_watch, load_image, do_update}
use cosmos_pc.Update.Wire.{Leaves, Leaves-after, leave-Leaves, exchange-cases, after_image-Leaves}
use cosmos_pc.Update.Loading.{IsLoaded, loaded, load_image-IsLoaded}

-- The two commands before the image.
abbrev pub commands : List ℕ
commands = b'a' ∷ b'0' ∷ b'1' ∷ []

IsRoomy-IsLive : (os : Os) → IsRoomy os → IsLive os
IsRoomy-IsLive os roomy = record {
  write_some = λ h bs w some_bytes. omega (arith, roomy.writes_all h bs w, some_bytes);
}

-- What the thread comes to from `Form1->Init` on, with `stream` for the session of the image: the watch
-- does not answer the first command, or the second one, or the program is started after the session, or
-- after a beginning of it.
pub data Sends (os : Os) (stream : List ℕ) (s : Sys os) (result : Option (Bcb2win × Sys os))
    : Type 0 where
  unanswered : Leaves os s (b'a' ∷ b'0' ∷ []) result → Sends os stream s result
  refused : Leaves os s commands result → Sends os stream s result
  updated : Leaves os s (commands ++ (stream ++ b'3' ∷ [])) result → Sends os stream s result
  broken_off :
      (sent rest : List ℕ)
      → stream ≡ sent ++ rest
      → Leaves os s (commands ++ (sent ++ b'3' ∷ [])) result
      → Sends os stream s result

-- The whole thread, with `image` for what its reading loop gave: nothing is sent, or the image of `n` bytes,
-- which are not more than the watch has room for.
pub data IsUpdated (os : Os) (name : List ℕ) (n : ℕ) (image : Option (List ℕ)) (s : Sys os)
    (result : Option (Bcb2win × Sys os)) : Type 0 where
  not_sent : Leaves os s [] result → IsUpdated os name n image s result
  sent_image :
      (bytes : List ℕ)
      → image ≡ some bytes
      → length bytes ≡ n
      → n ≤ user_flash_size
      → Sends os (session name bytes n) s result
      → IsUpdated os name n image s result

Sends-from :
    {os : Os} {stream : List ℕ} {o : Option (Bcb2win × Sys os)} (s t : Sys os)
    → t.wire ≡ s.wire
    → Sends os stream t o
    → Sends os stream s o
Sends-from s t e (unanswered done) =
    unanswered (Leaves-after t [] (b'a' ∷ b'0' ∷ []) (e ∙ sym (append-nil s.wire)) done)
Sends-from s t e (refused done) =
    refused (Leaves-after t [] commands (e ∙ sym (append-nil s.wire)) done)
Sends-from {stream = stream} s t e (updated done) =
    updated
      (Leaves-after t [] (commands ++ (stream ++ b'3' ∷ [])) (e ∙ sym (append-nil s.wire)) done)
Sends-from s t e (broken_off sent rest split done) =
    broken_off sent rest split
      (Leaves-after t [] (commands ++ (sent ++ b'3' ∷ [])) (e ∙ sym (append-nil s.wire)) done)

module _ (os : Os) (get_file_size : Handle → os.World → ℕ) (port file_name packet : List ℕ)
    (last fuel : ℕ) where
  module _ (c : ComIo) (roomy : IsRoomy os) (is_open : is_null c.h_com ≡ false)
      (lawful : IsLawful os) (enough : 1029 < fuel) (room : length packet ≡ 1029) where
    Finishes-Sends :
        (stream : List ℕ) (s t : Sys os) (o : Outcome os)
        → t.wire ≡ s.wire ++ commands
        → Finishes os stream t o
        → Sends os stream s
            (after_transmit os get_file_size port file_name packet last fuel (form c) o)
    unfolding after_transmit
    Finishes-Sends stream s t _ asked (completed u e) = updated (
        Leaves-after t commands (stream ++ b'3' ∷ []) asked (
          Leaves-after u stream (b'3' ∷ []) e (
            after_image-Leaves os get_file_size port file_name packet last fuel c roomy is_open 0
              u)))
    Finishes-Sends stream s t _ asked (stopped sent rest u split e) = broken_off sent rest split (
        Leaves-after t commands (sent ++ b'3' ∷ []) asked (
          Leaves-after u sent (b'3' ∷ []) e (
            after_image-Leaves os get_file_size port file_name packet last fuel c roomy is_open 255
              u)))

    send_image-Sends :
        (image : List ℕ) (image_len : ℕ) (s t : Sys os)
        → image_len ≤ length image
        → t.wire ≡ s.wire ++ commands
        → Sends os
            (session (take 255 file_name ++ last ∷ []) image image_len)
            s
            (send_image os get_file_size port file_name packet last fuel image image_len (form c) t)
    unfolding send_image
    send_image-Sends image image_len s t there asked =
        Finishes-Sends (session (take 255 file_name ++ last ∷ []) image image_len) s t
          (transmit os (form c) fuel packet last image file_name image_len t) asked
          (transmit-Finishes os c is_open lawful (IsRoomy-IsLive os roomy) fuel enough packet last
            image file_name image_len t room there)

    update_form-Sends :
        (image : List ℕ) (image_len : ℕ) (s : Sys os)
        → image_len ≤ length image
        → Sends os (session (take 255 file_name ++ last ∷ []) image image_len) s (
            exchange os get_file_size port file_name packet last fuel
              (b'a' ∷ b'0' ∷ replicate 254 0)
              2
              (form c)
              (λ s2.
                exchange os get_file_size port file_name packet last fuel
                  (b'1' ∷ replicate 255 0)
                  1
                  (form c)
                  (λ s3.
                    send_image os get_file_size port file_name packet last fuel image image_len
                      (form c)
                      s3)
                  s2)
              s)
    update_form-Sends image image_len s there =
        let stream = session (take 255 file_name ++ last ∷ []) image image_len in
        let start = λ (s3 : Sys os).
          send_image os get_file_size port file_name packet last fuel image image_len (form c) s3 in
        let second = λ (s2 : Sys os).
          exchange os get_file_size port file_name packet last fuel (b'1' ∷ replicate 255 0) 1
            (form c) start s2 in
        let (t, e, first_way) =
          exchange-cases os get_file_size port file_name packet last fuel c roomy is_open
            (b'a' ∷ b'0' ∷ replicate 254 0) 2 second s in
        let (u, e', second_way) =
          exchange-cases os get_file_size port file_name packet last fuel c roomy is_open
            (b'1' ∷ replicate 255 0) 1 start t in
        let both : u.wire ≡ s.wire ++ commands =
          e' ∙ ap (λ l. l ++ b'1' ∷ []) e ∙ append_assoc s.wire (b'a' ∷ b'0' ∷ []) (b'1' ∷ []) in
        elim first_way [
          | inl left ↦ subst (Sends os stream s) (sym left) (
              unanswered (
                Leaves-after t (b'a' ∷ b'0' ∷ []) [] e
                  (leave-Leaves os get_file_size port file_name packet last fuel c t)))
          | inr asked ↦ subst (Sends os stream s) (sym asked) (elim second_way [
            | inl left ↦ subst (Sends os stream s) (sym left) (
                refused (
                  Leaves-after u commands [] both
                    (leave-Leaves os get_file_size port file_name packet last fuel c u)))
            | inr go ↦
                subst (Sends os stream s) (sym go) (send_image-Sends image image_len s u there both)
          ])
        ]

  load_image-wire :
      (rounds : ℕ) (h : Handle) (image_len : ℕ) (image : List ℕ) (s : Sys os)
      → (load_image os get_file_size port file_name packet last fuel rounds h image_len image
          s).1.wire
        ≡ s.wire
  unfolding load_image
  load_image-wire zero h image_len image s = refl
  load_image-wire (suc rounds) h image_len image s =
      let wanted = image_len - length image in
      let bytes = (os.read_file h wanted s.world).1 in
      let s' : Sys os = record s { world = (os.read_file h wanted s.world).2 } in
      elim (Bool-cases (ltb (length image) image_len)) [
        | inr done ↦ rw (done, load_image) refl
        | inl more ↦ elim (Bool-cases (os.read_file h wanted s.world).0) [
          | inr failed ↦ rw (more, failed, load_image) refl
          | inl ok ↦ elim (Bool-cases (length bytes == 0)) [
            | inl ended ↦ rw (more, ok, ended, load_image) refl
            | inr some_read ↦
                rw (more, ok, some_read, load_image)
                  (load_image-wire rounds h image_len (image ++ bytes) s')
          ]
        ]
      ]

  module _ (roomy : IsRoomy os) (lawful : IsLawful os) (enough : 1029 < fuel)
      (room : length packet ≡ 1029)
      (is_open : (w : os.World) → is_null (os.create_file port open_existing w).0 ≡ false) where
    update_watch-Sends :
        (image : List ℕ) (image_len : ℕ) (s : Sys os)
        → image_len ≤ length image
        → Sends os
            (session (take 255 file_name ++ last ∷ []) image image_len)
            s
            (update_watch os get_file_size port file_name packet last fuel image image_len s)
    unfolding update_watch init init_com_io
    update_watch-Sends image image_len s there =
        let h = (os.create_file port open_existing s.world).0 in
        let c : ComIo = record { sz_dev_name = port; h_com = h; reading = false } in
        let s' : Sys os = record s { world = (os.create_file port open_existing s.world).1 } in
        Sends-from s s' refl
          (update_form-Sends c roomy (is_open s.world) lawful enough room image image_len s' there)

    loaded_length : (n : ℕ) (image : List ℕ) → IsLoaded n (some image) → length image ≡ n
    loaded_length n _ (loaded image e) = e

    -- `doUpdate` with no port object before, on a system whose reads and writes move no more than they are
    -- asked for and whose writes take all they are given, where opening the port never gives `NULL`, with
    -- the 1029 bytes of the packet buffer and more than 1029 rounds of fuel for each packet: it returns
    -- without a port object. Either it has sent nothing, or its reading loop gave the image, as many bytes
    -- as the size of the file and no more than the watch has room for; then it has sent "a0", "a0" and "1",
    -- these and the whole Ymodem session of the name and the image and "3", which starts the program, or
    -- these and a beginning of the session and "3".
    pub do_update-IsUpdated :
        (sz_file_name : List ℕ) (form1 : Bcb2win) (s : Sys os)
        → form1.updateio ≡ none
        → let (h, w) = os.create_file sz_file_name open_existing s.world in
          let n = u32 (get_file_size h w) in
          let image =
            load_image os get_file_size port file_name packet last fuel
              (suc n)
              h
              n
              []
              (record s { world = w }) in
          IsUpdated os
            (take 255 file_name ++ last ∷ [])
            n
            image.0
            s
            (do_update os get_file_size port file_name packet last fuel sz_file_name form1 s)
    unfolding do_update
    do_update-IsUpdated sz_file_name form1 s free =
        let h = (os.create_file sz_file_name open_existing s.world).0 in
        let w = (os.create_file sz_file_name open_existing s.world).1 in
        let n = u32 (get_file_size h w) in
        let opened : Sys os = record s { world = w } in
        let file =
          load_image os get_file_size port file_name packet last fuel (suc n) h n [] opened in
        let unsent = λ (t : Sys os) (e : t.wire ≡ s.wire).
          let done : Leaves os s [] (some (form1, t)) = record {
            f' = form1;
            s' = t;
            returns = refl;
            released = free;
            on_wire = e ∙ sym (append-nil s.wire);
          } in
          done in
        let read_wire = load_image-wire (suc n) h n [] opened in
        let read_all =
          load_image-IsLoaded os get_file_size port file_name packet last fuel (suc n) h n [] opened
            lawful (omega arith) in
        elim (Bool-cases (is_invalid h)) [
          | inl bad ↦ rw (bad, do_update) (not_sent (unsent opened refl))
          | inr good ↦ elim (Bool-cases (ltb user_flash_size n)) [
            | inl large ↦ rw (good, large, do_update) (not_sent (unsent _ refl))
            | inr fits ↦ elim (Option-cases file.0) [
              | inl e ↦ rw (good, fits, e, do_update) (not_sent (unsent _ read_wire))
              | inr (image, e) ↦
                  let exact = loaded_length n image (subst (IsLoaded n) e read_all) in
                  let closed : Sys os = record file.1 { world = os.close_handle h file.1.world } in
                  sent_image image e exact (ground (arith, fits)) (
                    rw (good, fits, e, do_update)
                      (Sends-from s closed read_wire
                        (update_watch-Sends image n closed (omega (arith, exact)))))
            ]
          ]
        ]
