-- ===== src/Memory/Valid.antt =====
-- The invariant of the memory, and that no access to it panics.
use click_doom.Base.{
  ℕ, ◌+◌, ◌^◌, ◌≤◌, ◌<◌, ◌≡◌, ◌∙◌, Option, none, some, List, arith, ◌==◌, length, All, Outcome, ok,
  err, panic, Returns, if_both, inl, inr, ◌*◌, take, drop, length-replicate, All-replicate,
}
use click_doom.Spec.Map.{MemoryMap, Region, ram, mmio, framebuffer, palette, bounds, classify}
use click_doom.Spec.Map.Laws.{classify-Holds}
use click_doom.Mmio.{MmioExit, Devices, read_device}
use click_doom.Mmio.Laws as Window
use click_doom.Mmio.Laws.{ReturnsU32}
use click_doom.Memory.{Memory, MemFault, in_text, read_le, from_le_bytes, new_memory, overwrite}
use click_doom.Memory.Slices.{length-overwrite, All-overwrite}
use click_doom.Memory.Bytes.{
  IsByte, IsWidth, stored, stored-IsByte, read_le-some, read_le-lt, write_le-some,
}
use click_doom.Memory.Access.{
  read, write, read_classified, write_classified, read_region, write_region, read_cases,
  write_cases, write_mmio, of_device,
}

-- A stored region has its declared size and holds bytes.
abbrev pub IsRegion : ℕ → List ℕ → Type 0
IsRegion size xs = (length xs ≡ size) × All IsByte xs

pub record IsValid (m : Memory) : Type 0 where
  pub ram_region : IsRegion m.map.ram_size m.ram_bytes
  pub framebuffer_region : IsRegion m.map.framebuffer_size m.framebuffer_bytes
  pub palette_region : IsRegion m.map.palette_size m.palette_bytes
  pub window : Window.IsValid m.map.mmio_size m.devices

-- A fresh memory over a valid window is valid.
pub new_memory-IsValid :
    (map : MemoryMap) (d : Devices) → Window.IsValid map.mmio_size d → IsValid (new_memory map d)
unfolding new_memory
new_memory-IsValid map d h = record {
  ram_region = (length-replicate map.ram_size 0, All-replicate IsByte map.ram_size 0 (omega arith));
  framebuffer_region = (
    length-replicate map.framebuffer_size 0,
    All-replicate IsByte map.framebuffer_size 0 (omega arith),
  );
  palette_region =
      (length-replicate map.palette_size 0, All-replicate IsByte map.palette_size 0 (omega arith));
  window = h;
}

IsWidth-pow : (w : ℕ) → IsWidth w → 2 ^ (8 * w) ≤ 2 ^ 32
IsWidth-pow w (inl e) = rw e (omega arith)
IsWidth-pow w (inr (inl e)) = rw e (omega arith)
IsWidth-pow w (inr (inr e)) = rw e (omega arith)

-- What a read gives: a `u32` or a fault, with no panic, and a valid memory.
abbrev pub IsRead : Outcome MemFault ℕ × Memory → Type 0
IsRead p = ReturnsU32 p.0 × IsValid p.1

pub read_stored :
    (size : ℕ) (xs : List ℕ) (offset width : ℕ)
    → IsRegion size xs
    → IsWidth width
    → offset + width ≤ size
    → (v : ℕ) × (read_le xs offset width ≡ some v) × (v < 2 ^ 32)
read_stored size xs offset width h w k = (
  from_le_bytes (take width (drop offset xs)),
  read_le-some xs offset width w (omega arith),
  omega (arith, read_le-lt xs offset width h.1 (omega arith), IsWidth-pow width w),
)

of_device-ReturnsU32 : (r : Outcome MmioExit ℕ) → ReturnsU32 r → ReturnsU32 (of_device r)
of_device-ReturnsU32 (ok v) h = h
of_device-ReturnsU32 (err e) h = tt
of_device-ReturnsU32 panic h = h

read_region-IsRead :
    (m : Memory) (region : Region) (offset width icount : ℕ)
    → IsValid m
    → IsWidth width
    → offset + width ≤ (bounds m.map region).1
    → IsRead (read_region m region offset width icount)
read_region-IsRead m ram offset width icount h w k =
    let (v, e, bound) = read_stored m.map.ram_size m.ram_bytes offset width h.ram_region w k in
    rw e (bound, h)
read_region-IsRead m mmio offset width icount h w k =
    let (value, valid) =
      Window.read_device-IsValid m.devices m.map.mmio_size offset width icount h.window k in
    (
      of_device-ReturnsU32 (read_device m.devices offset width icount).0 value,
      record {
        ram_region = h.ram_region;
        framebuffer_region = h.framebuffer_region;
        palette_region = h.palette_region;
        window = valid;
      },
    )
read_region-IsRead m framebuffer offset width icount h w k =
    let (v, e, bound) =
      read_stored m.map.framebuffer_size m.framebuffer_bytes offset width h.framebuffer_region w
        k in
    rw e (bound, h)
read_region-IsRead m palette offset width icount h w k =
    let (v, e, bound) =
      read_stored m.map.palette_size m.palette_bytes offset width h.palette_region w k in
    rw e (bound, h)

-- A read of a valid memory at a width of 1, 2 or 4 never panics: it gives a `u32` or a fault, and
-- the memory stays valid.
pub read-IsValid :
    (m : Memory) (addr width icount : ℕ)
    → IsValid m
    → IsWidth width
    → ReturnsU32 (read m addr width icount).0 × IsValid (read m addr width icount).1
read-IsValid m addr width icount h w = read_cases IsRead m addr width icount (tt, h) classified
  where
    classified :
        (c : Option (Region × ℕ))
        → classify m.map addr width ≡ c
        → IsRead (read_classified m addr width icount c)
    classified none e = (tt, h)
    classified (some (region, offset)) e =
        read_region-IsRead m region offset width icount h w
          (classify-Holds m.map addr width region offset e).2

abbrev pub IsWrite : Outcome MemFault (Unit {0}) × Memory → Type 0
IsWrite p = Returns p.0 × IsValid p.1

IsRegion-overwrite :
    (size : ℕ) (xs : List ℕ) (offset width value : ℕ)
    → IsRegion size xs
    → IsRegion size (overwrite xs offset (stored width value))
IsRegion-overwrite size xs offset width value h = (
  length-overwrite xs offset (stored width value) ∙ h.0,
  All-overwrite IsByte xs offset (stored width value) h.1 (stored-IsByte width value),
)

write_mmio-IsWrite :
    (m : Memory) (offset width : ℕ) (r : Outcome MmioExit (Unit {0})) (d : Devices)
    → IsValid m
    → Returns r
    → Window.IsValid m.map.mmio_size d
    → IsWrite (write_mmio m offset width r d)
write_mmio-IsWrite m offset width (ok u) d h r k = (
  tt,
  record {
    ram_region = h.ram_region;
    framebuffer_region = h.framebuffer_region;
    palette_region = h.palette_region;
    window = k;
  },
)
write_mmio-IsWrite m offset width (err e) d h r k = (
  tt,
  record {
    ram_region = h.ram_region;
    framebuffer_region = h.framebuffer_region;
    palette_region = h.palette_region;
    window = k;
  },
)
write_mmio-IsWrite m offset width panic d h r k = absurd r

write_region-IsWrite :
    (m : Memory) (region : Region) (offset addr width value icount : ℕ)
    → IsValid m
    → IsWidth width
    → offset + width ≤ (bounds m.map region).1
    → IsWrite (write_region m region offset addr width value icount)
write_region-IsWrite m ram offset addr width value icount h w k =
    if_both IsWrite (in_text m.text addr width) (λ _. (tt, h))
      (λ _. rw (write_le-some m.ram_bytes offset width value w (omega (arith, h.ram_region.0))) (
        tt,
        record {
          ram_region =
              IsRegion-overwrite m.map.ram_size m.ram_bytes offset width value h.ram_region;
          framebuffer_region = h.framebuffer_region;
          palette_region = h.palette_region;
          window = h.window;
        },
      ))
write_region-IsWrite m mmio offset addr width value icount h w k =
    let (r, d) =
      Window.write_device-IsValid m.devices m.map.mmio_size offset width value icount h.window k in
    write_mmio-IsWrite m offset width _ _ h r d
write_region-IsWrite m framebuffer offset addr width value icount h w k =
    if_both IsWrite (width == 4)
      (λ _.
        rw
          (write_le-some m.framebuffer_bytes offset width value w
            (omega (arith, h.framebuffer_region.0)))
          (
            tt,
            record {
              ram_region = h.ram_region;
              framebuffer_region =
                  IsRegion-overwrite m.map.framebuffer_size m.framebuffer_bytes offset width value
                    h.framebuffer_region;
              palette_region = h.palette_region;
              window = h.window;
            },
          ))
      (λ _. (tt, h))
write_region-IsWrite m palette offset addr width value icount h w k =
    if_both IsWrite (width == 4)
      (λ _.
        rw (write_le-some m.palette_bytes offset width value w (omega (arith, h.palette_region.0)))
          (
            tt,
            record {
              ram_region = h.ram_region;
              framebuffer_region = h.framebuffer_region;
              palette_region =
                  IsRegion-overwrite m.map.palette_size m.palette_bytes offset width value
                    h.palette_region;
              window = h.window;
            },
          ))
      (λ _. (tt, h))

-- A write to a valid memory at a width of 1, 2 or 4 never panics: it lands or gives a fault, and
-- the memory stays valid.
pub write-IsValid :
    (m : Memory) (addr width value icount : ℕ)
    → IsValid m
    → IsWidth width
    → Returns (write m addr width value icount).0 × IsValid (write m addr width value icount).1
write-IsValid m addr width value icount h w =
    write_cases IsWrite m addr width value icount (tt, h) classified
  where
    classified :
        (c : Option (Region × ℕ))
        → classify m.map addr width ≡ c
        → IsWrite (write_classified m addr width value icount c)
    classified none e = (tt, h)
    classified (some (region, offset)) e =
        write_region-IsWrite m region offset addr width value icount h w
          (classify-Holds m.map addr width region offset e).2
