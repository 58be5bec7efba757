-- ===== src/ComIo/Device.antt =====
-- ComIO.h and ComIO.cpp: what is registered with a port, and the thread that reads it; CosmosSpp.h and
-- CosmosSpp.cpp, the port of the watch.
use cosmos_pc.Prelude.{
  ℕ, Bool, true, false, Option, none, some, List, [], ◌∷◌, ◌++◌, length, replicate, overlay, ◌==◌,
  if◌then◌else◌,
}
use cosmos_pc.Os.{Os, Handle}
use cosmos_pc.ComIo.{ComIo, deinit_com_io, read_com, write_com}
use cosmos_pc.Ymodem.Packet.Decimal.{decimal}
use cosmos_pc.Download.Text.{six_digits}
use cosmos_pc.Download.{ReadProc, proc}

-- A port with its callbacks: `proc` is a function, `objproc` says whether an object is registered, which is
-- `rProc` wherever the program registers one.
pub record Device (os : Os) : Type 0 where
  pub port : ComIo
  pub callback : Option (List ℕ → ReadProc os → Option (ReadProc os))
  pub objproc : Bool
  pub ack_bytes : List ℕ

module _ {os : Os} where
  -- `InitCS`, and the name of the port; the handle is not set.
  abbrev device : List ℕ → Handle → Device os
  device name h = record {
    port = record { sz_dev_name = name; h_com = h; reading = false };
    callback = none;
    objproc = false;
    ack_bytes = replicate 64 0;
  }

  -- `ComIO(DWORD)`, with what the handle holds before.
  unfoldable pub com_io : ℕ → Handle → Device os
  com_io number h = device (b'C' ∷ b'O' ∷ b'M' ∷ decimal 10 number ++ b':' ∷ []) h

  -- `ComIO(TCHAR*)`, which is `CosmosSpp(TCHAR*)`.
  unfoldable pub com_io_named : List ℕ → Handle → Device os
  com_io_named name h = device name h

  -- `CosmosSpp(DWORD)`
  unfoldable pub cosmos_spp : ℕ → Handle → Device os
  cosmos_spp number h = record (com_io number h) {
    ack_bytes = overlay (0xaa ∷ 0xbb ∷ 0xcc ∷ 0x03 ∷ []) (com_io number h).ack_bytes;
  }

  -- `RegReadProc`
  abbrev pub reg_read_proc : (List ℕ → ReadProc os → Option (ReadProc os)) → Device os → Device os
  reg_read_proc p d = record d { callback = some p }

  -- `RegReadClass`
  abbrev pub reg_read_class : Device os → Device os
  reg_read_class d = record d { objproc = true }

  -- `SendAck` returns at once.
  abbrev pub send_ack : Device os → ReadProc os → ReadProc os
  send_ack d r = r

  -- The destructor: `DeinitComIO`.
  unfoldable pub close_device : Device os → ReadProc os → Device os × ReadProc os
  close_device d r =
      let ((ok, c), sys') = deinit_com_io os d.port r.sys in
      (record d { port = c }, record r { sys = sys' })

module _ (os : Os) (directory : List ℕ) where
  -- Who gets the bytes that were read: the function, else the object, else the debugger.
  unfoldable pub deliver : Device os → List ℕ → ReadProc os → Option (ReadProc os)
  deliver d bytes r = elim d.callback [
    | some p ↦ p bytes r
    | none ↦ if d.objproc then proc os directory bytes r else some r
  ]

  -- `ReadThread`. The list says for each test of the loop whether the handle is there, since another thread
  -- closes it; the thread goes on at the end of the list. `none` is the division by zero in `proc`.
  unfoldable pub read_thread : List Bool → Device os → ReadProc os → Option (ReadProc os)
  read_thread [] d r = some r
  read_thread (open_now ∷ later) d r =
      let (bytes, sys') = read_com os d.port 1024 r.sys in
      let r1 : ReadProc os = record r { sys = sys' } in
      let next = if length bytes == 0 then some r1 else deliver d bytes r1 in
      elim open_now [
        | false ↦ some r
        | true ↦ elim next [ none ↦ none | some r2 ↦ read_thread later d r2 ]
      ]

  -- `RequestFrom`: one round, since `break` follows the first write. The array has 256 bytes.
  unfoldable pub request_from : Device os → ℕ → ReadProc os → ReadProc os
  request_from d i r =
      let start = 0xaa ∷ 0xbb ∷ 0xcc ∷ 0x01 ∷ [] in
      let buffer = overlay (start ++ six_digits i ++ 0 ∷ []) (replicate 256 0) in
      let (written, sys') = write_com os d.port buffer 0 10 r.sys in
      record r { flag = 0; sys = sys' }
