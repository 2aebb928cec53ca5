-- ===== src/Examples/Machine.antt =====
-- A small machine: 64 bytes of RAM, a program in a declared text region, and the real device window.
use click_doom.Base.{ℕ, ◌+◌, true, Option, some, List, [], ◌∷◌, arith, All}
use click_doom.Spec.Map.{MemoryMap}
use click_doom.Mmio.{Devices, registers}
use click_doom.Mmio.Laws as Window
use click_doom.Memory.{Memory, new_memory, set_text_region}
use click_doom.Memory.Bytes.{IsByte}
use click_doom.Memory.Valid as Memories
use click_doom.Memory.Valid.{new_memory-IsValid}
use click_doom.Asm
use click_doom.Asm.{program}
use click_doom.Exec.{Cpu, new_cpu}
use click_doom.Exec.Step.{load_cpu_image, declare_text, enable_decode_cache}
use click_doom.Exec.Valid.{IsValid}
use click_doom.Exec.Setup.{
  new_cpu-IsValid, load_cpu_image-IsValid, declare_text-IsValid, enable_decode_cache-Enabled,
  TextFits,
}

abbrev pub base : ℕ
base = 0x8000_0000

abbrev pub small_map : MemoryMap
small_map = record {
  ram_base = base;
  ram_size = 64;
  mmio_base = 0x1000_0000;
  mmio_size = 32;
  framebuffer_base = 0x1100_0000;
  framebuffer_size = 16;
  palette_base = 0x1101_0000;
  palette_size = 8;
}

abbrev pub window : Devices
window = registers (record {
  ipms = 10;
  key_queue = record { pressed = true; doomkey = 0xAE } ∷ [];
  console = [];
  frame_commits = [];
})

abbrev pub empty_memory : Memory
empty_memory = new_memory small_map window

-- Put 5 in `x1`, store it behind the program, load it back, and stop.
abbrev pub words : List ℕ
words = Asm.lui 3 0x80000 ∷ Asm.addi 1 0 5 ∷ Asm.sw 3 1 32 ∷ Asm.lw 2 3 32 ∷ Asm.ecall ∷ []

abbrev pub image : List ℕ
image = program words

abbrev pub text : Option (ℕ × ℕ)
text = some (base, base + 20)

abbrev pub machine : Cpu
machine = declare_text (load_cpu_image (new_cpu empty_memory base) image base).1 text

abbrev pub fast_machine : Cpu
fast_machine = (enable_decode_cache machine).1

pub window-IsValid : Window.IsValid 32 window
window-IsValid = (omega arith, (omega arith, tt))

pub empty_memory-IsValid : Memories.IsValid empty_memory
empty_memory-IsValid = new_memory-IsValid small_map window window-IsValid

program-bytes : (ws : List ℕ) → All IsByte (program ws)
unfolding program
program-bytes [] = tt
program-bytes (w ∷ ws) =
    (omega arith, (omega arith, (omega arith, (omega arith, program-bytes ws))))

pub image-bytes : All IsByte image
image-bytes = program-bytes words

pub machine-IsValid : IsValid machine
machine-IsValid =
    declare_text-IsValid (load_cpu_image (new_cpu empty_memory base) image base).1 text (
      load_cpu_image-IsValid (new_cpu empty_memory base) image base
        (new_cpu-IsValid empty_memory base empty_memory-IsValid (omega arith) (omega arith))
        image-bytes)

pub text-TextFits : TextFits machine.memory.text
unfolding declare_text set_text_region
text-TextFits = omega arith

pub fast_machine-IsValid : IsValid fast_machine
fast_machine-IsValid = (enable_decode_cache-Enabled machine machine-IsValid text-TextFits).1
