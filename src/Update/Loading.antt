-- ===== src/Update/Loading.antt =====
-- The reading loop of `doUpdate` (UpdateGWatch.cpp).
use cosmos_pc.Prelude.{
  ℕ, zero, suc, ◌-◌, ◌≤◌, ◌≡◌, Bool-cases, inl, inr, Option, none, some, List, ◌++◌, arith, length,
  length-append, ltb, ◌==◌,
}
use cosmos_pc.Os.{Handle, Os, Sys, IsLawful}
use cosmos_pc.Update.{load_image}

-- Nothing, or an image of `n` bytes.
pub data IsLoaded (n : ℕ) : Option (List ℕ) → Type 0 where
  gave_up : IsLoaded n none
  loaded : (image : List ℕ) → length image ≡ n → IsLoaded n (some image)

module _ (os : Os) (get_file_size : Handle → os.World → ℕ) (port file_name packet : List ℕ)
    (last fuel : ℕ) where
  -- If reads and writes move no more bytes than they are asked for, and no more than `image_len` bytes
  -- are there at first, the reading loop of `doUpdate` gives up, or has read `image_len` bytes.
  pub load_image-IsLoaded :
      (rounds : ℕ) (h : Handle) (image_len : ℕ) (image : List ℕ) (s : Sys os)
      → IsLawful os
      → length image ≤ image_len
      → IsLoaded image_len
          (load_image os get_file_size port file_name packet last fuel rounds h image_len image s).0
  unfolding load_image
  load_image-IsLoaded zero h image_len image s lawful le = gave_up
  load_image-IsLoaded (suc rounds) h image_len image s lawful le =
      let wanted = image_len - length image in
      let bytes = (os.read_file h wanted s.world).1 in
      let s' : Sys os = record s { world = (os.read_file h wanted s.world).2 } in
      elim (Bool-cases (ltb (length image) image_len)) [
        | inr done ↦ rw (done, load_image) (loaded image (ground arith))
        | inl more ↦ elim (Bool-cases (os.read_file h wanted s.world).0) [
          | inr failed ↦ rw (more, failed, load_image) gave_up
          | inl ok ↦ elim (Bool-cases (length bytes == 0)) [
            | inl ended ↦ rw (more, ok, ended, load_image) gave_up
            | inr some_read ↦
                rw (more, ok, some_read, load_image)
                  (load_image-IsLoaded rounds h image_len (image ++ bytes) s' lawful
                    (omega (arith, length-append image bytes, lawful.read_le h wanted s.world)))
          ]
        ]
      ]
