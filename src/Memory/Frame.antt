-- ===== src/Memory/Frame.antt =====
-- What a store changes: the bytes it writes, in the region that holds them, and nothing else.
use click_doom.Base.{
  ℕ, ◌+◌, ◌≤◌, ◌≡◌, refl, false, Option, none, some, List, [], arith, ◌==◌, length, Outcome, ok,
  err, panic, if_both,
}
use click_doom.Spec.Map.{Region, ram, mmio, framebuffer, palette, classify}
use click_doom.Spec.Map.Laws.{classify-Holds}
use click_doom.Mmio.{MmioExit, Devices}
use click_doom.Memory.{Memory, MemFault, in_text, overwrite}
use click_doom.Memory.Bytes.{IsWidth, stored, write_le-some}
use click_doom.Memory.Access.{
  write, write_classified, write_region, write_mmio, write_ram, write_framebuffer, write_palette,
  write_cases,
}
use click_doom.Memory.Valid.{IsValid}

-- The bytes of a stored region. The device window has its own state.
abbrev pub stored_bytes : Memory → Region → List ℕ
stored_bytes m ram = m.ram_bytes
stored_bytes m mmio = []
stored_bytes m framebuffer = m.framebuffer_bytes
stored_bytes m palette = m.palette_bytes

-- `xs` are the bytes of the region after a store: as before, or with the stored bytes written
-- where the access is classified, which in RAM is outside the text region.
pub data Stores (m : Memory) (addr width value : ℕ) (region : Region) (xs : List ℕ) : Type 0 where
  kept : xs ≡ stored_bytes m region → Stores m addr width value region xs
  put :
      (offset : ℕ)
      → classify m.map addr width ≡ some (region, offset)
      → (region ≡ ram → in_text m.text addr width ≡ false)
      → xs ≡ overwrite (stored_bytes m region) offset (stored width value)
      → Stores m addr width value region xs

module _ (m : Memory) (addr width value icount : ℕ) (valid : IsValid m) (w : IsWidth width) where
  abbrev After : Region → Outcome MemFault (Unit {0}) × Memory → Type 0
  After r p = Stores m addr width value r (stored_bytes p.1 r)

  After-mmio :
      (r : Region) (offset : ℕ) (result : Outcome MmioExit (Unit {0})) (d : Devices)
      → After r (write_mmio m offset width result d)
  After-mmio ram offset (ok u) d = kept refl
  After-mmio ram offset (err e) d = kept refl
  After-mmio ram offset panic d = kept refl
  After-mmio mmio offset (ok u) d = kept refl
  After-mmio mmio offset (err e) d = kept refl
  After-mmio mmio offset panic d = kept refl
  After-mmio framebuffer offset (ok u) d = kept refl
  After-mmio framebuffer offset (err e) d = kept refl
  After-mmio framebuffer offset panic d = kept refl
  After-mmio palette offset (ok u) d = kept refl
  After-mmio palette offset (err e) d = kept refl
  After-mmio palette offset panic d = kept refl

  After-ram :
      (r : Region) (offset : ℕ)
      → classify m.map addr width ≡ some (ram, offset)
      → After r (write_region m ram offset addr width value icount)
  After-ram r offset e =
      if_both (After r) (in_text m.text addr width) (λ _. kept (refl_of r))
        (λ outside. rw (write_le-some m.ram_bytes offset width value w (in_ram)) (landed r outside))
    where
      in_ram : offset + width ≤ length m.ram_bytes
      in_ram = omega (arith, (classify-Holds m.map addr width ram offset e).2, valid.ram_region.0)

      refl_of : (r : Region) → stored_bytes m r ≡ stored_bytes m r
      refl_of r = refl

      landed :
          (r : Region)
          → in_text m.text addr width ≡ false
          → After r
              (write_ram m offset width (some (overwrite m.ram_bytes offset (stored width value))))
      landed ram outside = put offset e (λ _. outside) refl
      landed mmio outside = kept refl
      landed framebuffer outside = kept refl
      landed palette outside = kept refl

  After-framebuffer :
      (r : Region) (offset : ℕ)
      → classify m.map addr width ≡ some (framebuffer, offset)
      → After r (write_region m framebuffer offset addr width value icount)
  After-framebuffer r offset e =
      if_both (After r) (width == 4)
        (λ _. rw (write_le-some m.framebuffer_bytes offset width value w in_region) (landed r))
        (λ _. kept refl)
    where
      in_region : offset + width ≤ length m.framebuffer_bytes
      in_region = omega (
        arith,
        (classify-Holds m.map addr width framebuffer offset e).2,
        valid.framebuffer_region.0,
      )

      landed :
          (r : Region)
          → After r (
              write_framebuffer m offset width
                (some (overwrite m.framebuffer_bytes offset (stored width value))))
      landed ram = kept refl
      landed mmio = kept refl
      landed framebuffer = put offset e (λ h. cc) refl
      landed palette = kept refl

  After-palette :
      (r : Region) (offset : ℕ)
      → classify m.map addr width ≡ some (palette, offset)
      → After r (write_region m palette offset addr width value icount)
  After-palette r offset e =
      if_both (After r) (width == 4)
        (λ _. rw (write_le-some m.palette_bytes offset width value w in_region) (landed r))
        (λ _. kept refl)
    where
      in_region : offset + width ≤ length m.palette_bytes
      in_region =
          omega
            (arith, (classify-Holds m.map addr width palette offset e).2, valid.palette_region.0)

      landed :
          (r : Region)
          → After r (
              write_palette m offset width
                (some (overwrite m.palette_bytes offset (stored width value))))
      landed ram = kept refl
      landed mmio = kept refl
      landed framebuffer = kept refl
      landed palette = put offset e (λ h. cc) refl

  -- After a store of 1, 2 or 4 bytes into a valid memory every stored region is as before, or it
  -- has exactly the stored bytes written where the access is classified; bytes of RAM change only
  -- if the access is outside the text region.
  pub write-Stores :
      (r : Region)
      → Stores m addr width value r (stored_bytes (write m addr width value icount).1 r)
  write-Stores r = write_cases (After r) m addr width value icount (kept refl) classified
    where
      classified :
          (c : Option (Region × ℕ))
          → classify m.map addr width ≡ c
          → After r (write_classified m addr width value icount c)
      classified none e = kept refl
      classified (some (ram, offset)) e = After-ram r offset e
      classified (some (mmio, offset)) e = After-mmio r offset _ _
      classified (some (framebuffer, offset)) e = After-framebuffer r offset e
      classified (some (palette, offset)) e = After-palette r offset e
