-- ===== src/Form/Reading.antt =====
-- The loop of `Button1Click` (Unit1.cxx) that reads the image.
use cosmos_pc.Prelude.{
  ℕ, zero, suc, ◌+◌, ◌-◌, ◌≤◌, ◌<◌, ◌≡◌, ◌⊎◌, refl, Bool-cases, inl, inr, Bool, true, false, Option,
  none, some, List, [], ◌++◌, append-nil, arith, length, length-append, ltb,
}
use cosmos_pc.Os.{Os, Handle, IsLawful}
use cosmos_pc.Form.Choice.{read_image}

-- A file of which a read that succeeds gives a byte, as long as one is asked for.
pub record IsFed (os : Os) : Type 0 where
  pub reads_some :
      (h : Handle) (n : ℕ) (w : os.World)
      → (os.read_file h n w).0 ≡ true
      → 0 < n
      → 0 < length (os.read_file h n w).1

module _ (os : Os) where
  pub record Ends (size : ℕ) (result : Option (Bool × List ℕ × os.World)) : Type 0 where
    pub done : Bool
    pub image : List ℕ
    pub world : os.World
    pub returns : result ≡ some (done, image, world)
    pub whole : (done ≡ false) ⊎ (length image ≡ size)

  pub read_image-Ends :
      (fuel : ℕ) (file : Handle) (size : ℕ) (image : List ℕ) (w : os.World)
      → IsLawful os
      → IsFed os
      → size < length image + fuel
      → length image ≤ size
      → Ends size (read_image os fuel file size image w)
  unfolding read_image
  read_image-Ends zero file size image w lawful fed enough within = absurd (omega arith)
  read_image-Ends (suc fuel) file size image w lawful fed enough within =
      let (ok, bytes, w1) = os.read_file file (size - length image) w in
      elim (Bool-cases (ltb (length image) size)) [
        | inr over ↦ record {
          done = true;
          image = image;
          world = w;
          returns = rw over refl;
          whole = inr (ground (arith, over, within));
        }
        | inl more ↦ elim (Bool-cases ok) [
          | inr failed ↦ record {
            done = false;
            image = image;
            world = w1;
            returns = rw (more, failed) refl;
            whole = inl refl;
          }
          | inl good ↦
              let left : 0 < size - length image = ground (arith, more) in
              let some_read = fed.reads_some file (size - length image) w good left in
              let at_most = lawful.read_le file (size - length image) w in
              let next =
                read_image-Ends fuel file size (image ++ bytes) w1 lawful fed
                  (omega (arith, length-append image bytes, some_read, enough))
                  (omega (arith, length-append image bytes, at_most, within)) in
              record {
                done = next.done;
                image = next.image;
                world = next.world;
                returns = rw (more, good) next.returns;
                whole = next.whole;
              }
        ]
      ]

  -- A file that has fewer bytes than its size, of which a read at the end succeeds with no bytes: the loop
  -- of `Button1Click` does not end, however much fuel it is given.
  read_image_hangs :
      (fuel : ℕ) (file : Handle) (size : ℕ) (image : List ℕ) (w : os.World)
      → length image < size
      → ((n : ℕ) (v : os.World) → (os.read_file file n v).0 ≡ true)
      → ((n : ℕ) (v : os.World) → (os.read_file file n v).1 ≡ [])
      → read_image os fuel file size image w ≡ none
  unfolding read_image
  read_image_hangs zero file size image w less ok empty = refl
  read_image_hangs (suc fuel) file size image w less ok empty =
      let n = size - length image in
      let more : ltb (length image) size ≡ true = ground (arith, less) in
      let w1 = (os.read_file file n w).2 in
      rw (more, ok n w, empty n w, append-nil image)
        (read_image_hangs fuel file size image w1 less ok empty)
