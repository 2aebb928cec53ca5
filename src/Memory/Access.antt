-- ===== src/Memory/Access.antt =====
-- `Memory::read` and `Memory::write` of refemu/src/memory.rs. Both take `&mut self`: a read of the
-- device window may pop a key event.
use click_doom.Base.{
  ℕ, Option, none, some, List, ◌==◌, if◌then◌else◌, if_both, ◌≡◌, refl, Outcome, ok, err, panic,
}
use click_doom.Spec.Map.{Region, ram, mmio, framebuffer, palette, classify}
use click_doom.Mmio.{MmioExit, Devices, read_device, write_device, or_panic}
use click_doom.Memory.{
  Memory, MemFault, bad_addr, misaligned, self_modify, exit, is_misaligned, in_text, read_le,
  write_le,
}
use click_doom.Memory.Watch.{WriteWatch, record_store}

-- What the `?` operator and `From<MmioExit>` make of a device's result.
abbrev pub of_device {ℓ} : {A : Type ℓ} → Outcome MmioExit A → Outcome MemFault A
of_device (ok a) = ok a
of_device (err e) = err (exit e.code)
of_device panic = panic

abbrev pub read_region : Memory → Region → ℕ → ℕ → ℕ → Outcome MemFault ℕ × Memory
read_region m ram offset width icount = (or_panic (read_le m.ram_bytes offset width), m)
read_region m mmio offset width icount =
    let (result, devices) = read_device m.devices offset width icount in
    (of_device result, record m { devices = devices })
read_region m framebuffer offset width icount =
    (or_panic (read_le m.framebuffer_bytes offset width), m)
read_region m palette offset width icount = (or_panic (read_le m.palette_bytes offset width), m)

abbrev pub read_classified : Memory → ℕ → ℕ → ℕ → Option (Region × ℕ) → Outcome MemFault ℕ × Memory
read_classified m addr width icount none = (err (bad_addr addr), m)
read_classified m addr width icount (some (region, offset)) =
    read_region m region offset width icount

unfoldable pub read : Memory → ℕ → ℕ → ℕ → Outcome MemFault ℕ × Memory
unfolding read_le read_device
read m addr width icount =
    if is_misaligned addr width
    then (err (misaligned addr width), m)
    else read_classified m addr width icount (classify m.map addr width)

-- The store is recorded after it lands.
abbrev pub recorded_by : Option WriteWatch → Region → ℕ → ℕ → Option WriteWatch
recorded_by none region offset width = none
recorded_by (some w) region offset width = some (record_store w region offset width)

abbrev pub landed : Memory → Region → ℕ → ℕ → Outcome MemFault (Unit {0}) × Memory
landed m region offset width = (ok tt, record m { watch = recorded_by m.watch region offset width })

abbrev pub write_ram : Memory → ℕ → ℕ → Option (List ℕ) → Outcome MemFault (Unit {0}) × Memory
write_ram m offset width none = (panic, m)
write_ram m offset width (some b) = landed (record m { ram_bytes = b }) ram offset width

abbrev pub write_framebuffer :
    Memory → ℕ → ℕ → Option (List ℕ) → Outcome MemFault (Unit {0}) × Memory
write_framebuffer m offset width none = (panic, m)
write_framebuffer m offset width (some b) =
    landed (record m { framebuffer_bytes = b }) framebuffer offset width

abbrev pub write_palette : Memory → ℕ → ℕ → Option (List ℕ) → Outcome MemFault (Unit {0}) × Memory
write_palette m offset width none = (panic, m)
write_palette m offset width (some b) = landed (record m { palette_bytes = b }) palette offset width

abbrev pub write_mmio :
    Memory → ℕ → ℕ → Outcome MmioExit (Unit {0}) → Devices → Outcome MemFault (Unit {0}) × Memory
write_mmio m offset width (ok u) devices = landed (record m { devices = devices }) mmio offset width
write_mmio m offset width (err e) devices = (err (exit e.code), record m { devices = devices })
write_mmio m offset width panic devices = (panic, record m { devices = devices })

abbrev pub write_region : Memory → Region → ℕ → ℕ → ℕ → ℕ → ℕ → Outcome MemFault (Unit {0}) × Memory
write_region m ram offset addr width value icount =
    if in_text m.text addr width
    then (err (self_modify addr), m)
    else write_ram m offset width (write_le m.ram_bytes offset width value)
write_region m mmio offset addr width value icount =
    let (result, devices) = write_device m.devices offset width value icount in
    write_mmio m offset width result devices
write_region m framebuffer offset addr width value icount =
    if width == 4
    then write_framebuffer m offset width (write_le m.framebuffer_bytes offset width value)
    else (err (bad_addr addr), m)
write_region m palette offset addr width value icount =
    if width == 4
    then write_palette m offset width (write_le m.palette_bytes offset width value)
    else (err (bad_addr addr), m)

abbrev pub write_classified :
    Memory → ℕ → ℕ → ℕ → ℕ → Option (Region × ℕ) → Outcome MemFault (Unit {0}) × Memory
write_classified m addr width value icount none = (err (bad_addr addr), m)
write_classified m addr width value icount (some (region, offset)) =
    write_region m region offset addr width value icount

unfoldable pub write : Memory → ℕ → ℕ → ℕ → ℕ → Outcome MemFault (Unit {0}) × Memory
unfolding write_le write_device record_store
write m addr width value icount =
    if is_misaligned addr width
    then (err (misaligned addr width), m)
    else write_classified m addr width value icount (classify m.map addr width)

-- To prove a property of what `read` and `write` return: of the misaligned access, and of every
-- classification of another.
pub read_cases {κ} :
    (P : Outcome MemFault ℕ × Memory → Type κ) (m : Memory) (addr width icount : ℕ)
    → P (err (misaligned addr width), m)
    → ((c : Option (Region × ℕ))
        → classify m.map addr width ≡ c
        → P (read_classified m addr width icount c))
    → P (read m addr width icount)
unfolding read
read_cases P m addr width icount bad good =
    if_both P (is_misaligned addr width) (λ _. bad) (λ _. good (classify m.map addr width) refl)

pub write_cases {κ} :
    (P : Outcome MemFault (Unit {0}) × Memory → Type κ) (m : Memory) (addr width value icount : ℕ)
    → P (err (misaligned addr width), m)
    → ((c : Option (Region × ℕ))
        → classify m.map addr width ≡ c
        → P (write_classified m addr width value icount c))
    → P (write m addr width value icount)
unfolding write
write_cases P m addr width value icount bad good =
    if_both P (is_misaligned addr width) (λ _. bad) (λ _. good (classify m.map addr width) refl)
