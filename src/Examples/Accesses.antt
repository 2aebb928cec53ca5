-- ===== src/Examples/Accesses.antt =====
-- Accesses of the small machine's memory and of its device window.
use click_doom.Base.{
  List, [], ◌∷◌, map, true, false, ◌+◌, ◌-◌, ◌%◌, ◌^◌, ◌≡◌, ◌≤◌, ◌*◌, refl, inl, inr, some, none,
  take, drop, ok, err, arith,
}
use click_doom.Spec.Map.{ram, framebuffer, palette, classify, clickdoom, bounds}
use click_doom.Spec.Map.Laws.{Holds, classify-Holds, classify-clickdoom}
use click_doom.Mmio.Queue.{push_all, pops, popped, pops-push_all}
use click_doom.Mmio.{Registers, KeyEvent, MmioExit, write_device}
use click_doom.Memory.{bad_addr, set_text_region, load_image, new_memory}
use click_doom.Memory.Access.{read, write}
use click_doom.Memory.Valid.{IsValid}
use click_doom.Memory.Same.{write-err}
use click_doom.Memory.Laws.{write-text, read-write, read-write_apart}
use click_doom.Exec.{new_cpu}
use click_doom.Exec.Step.{declare_text, load_cpu_image}
use click_doom.Asm.{program}
use click_doom.Examples.Machine.{
  base, machine, machine-IsValid, window, empty_memory, empty_memory-IsValid,
}

memory-IsValid : IsValid machine.memory
memory-IsValid = machine-IsValid.memory

declared : machine.memory.text ≡ some (base, base + 20)
unfolding declare_text set_text_region
declared = refl

text_above : machine.memory.map.ram_base ≤ base
unfolding declare_text set_text_region load_cpu_image load_image new_cpu new_memory program
text_above = omega arith

-- A store at the third word of the text region, which is refused.
write-text_example :
    take 20 (
      drop (base - machine.memory.map.ram_base) (write machine.memory (base + 8) 4 7 0).1.ram_bytes)
    ≡ take 20 (drop (base - machine.memory.map.ram_base) machine.memory.ram_bytes)
write-text_example =
    write-text machine.memory (base + 8) 4 7 0 memory-IsValid (inr (inr refl)) base (base + 20) base
      20 declared text_above (omega arith) (omega arith)

in_ram : classify empty_memory.map (base + 40) 2 ≡ some (ram, 40)
unfolding classify new_memory
in_ram = refl

in_palette : classify empty_memory.map 0x1101_0004 4 ≡ some (palette, 4)
unfolding classify new_memory
in_palette = refl

landed : (write empty_memory (base + 40) 2 0x12345 0).0 ≡ ok tt
unfolding write classify new_memory
landed = refl

-- A store of two bytes cuts its value.
read-write_example :
    (read (write empty_memory (base + 40) 2 0x12345 0).1 (base + 40) 2 9).0
    ≡ ok (0x12345 % 2 ^ (8 * 2))
read-write_example =
    read-write empty_memory (base + 40) 2 0x12345 0 empty_memory-IsValid (inr (inl refl)) 9 ram 40
      (λ h. cc h) in_ram landed

read-write_apart_example :
    (read (write empty_memory (base + 40) 2 0x12345 0).1 0x1101_0004 4 9).0
    ≡ (read empty_memory 0x1101_0004 4 9).0
read-write_apart_example =
    read-write_apart empty_memory (base + 40) 2 0x12345 0 empty_memory-IsValid (inr (inl refl))
      0x1101_0004 4 9 palette 4 (λ h. cc h) in_palette (inl (omega arith))

-- A narrow store to the framebuffer is refused, and a read outside every region.
refused : (write empty_memory 0x1100_0000 1 7 0).0 ≡ err (bad_addr 0x1100_0000)
unfolding write classify new_memory
refused = refl

write-err_example : (write empty_memory 0x1100_0000 1 7 0).1 ≡ empty_memory
write-err_example = write-err empty_memory 0x1100_0000 1 7 0 (bad_addr 0x1100_0000) refused

nowhere : (read empty_memory 0x2000 4 0).0 ≡ err (bad_addr 0x2000)
unfolding read classify new_memory
nowhere = refl

abbrev three : MmioExit
three = record { code = 3 }

exits : (write_device window 8 4 3 5).0 ≡ err three
unfolding write_device
exits = refl

last_pixel : classify clickdoom 0x1100_F9FC 4 ≡ some (framebuffer, 63996)
unfolding classify clickdoom
last_pixel = refl

classify-Holds_example :
    Holds clickdoom framebuffer 0x1100_F9FC 4
    × ((bounds clickdoom framebuffer).0 + 63996 ≡ 0x1100_F9FC)
    × (63996 + 4 ≤ (bounds clickdoom framebuffer).1)
classify-Holds_example = classify-Holds clickdoom 0x1100_F9FC 4 framebuffer 63996 last_pixel

past_the_end : classify clickdoom 0x1100_F9FE 4 ≡ none
unfolding classify clickdoom
past_the_end = refl

palette-Holds : Holds clickdoom palette 0x1101_0004 4
unfolding clickdoom
palette-Holds = (omega arith, omega arith)

classify-clickdoom_example :
    classify clickdoom 0x1101_0004 4 ≡ some (palette, 0x1101_0004 - (bounds clickdoom palette).0)
classify-clickdoom_example = classify-clickdoom palette 0x1101_0004 4 (omega arith) palette-Holds

abbrev no_keys : Registers
no_keys = record { ipms = 10; key_queue = []; console = []; frame_commits = [] }

abbrev two_keys : List KeyEvent
two_keys =
    record { pressed = true; doomkey = 0xAE } ∷ record { pressed = false; doomkey = 0xAE } ∷ []

pops-push_all_example : pops 7 2 (push_all no_keys two_keys) ≡ (map popped two_keys, no_keys)
pops-push_all_example = pops-push_all 7 no_keys two_keys refl
