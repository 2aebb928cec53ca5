-- ===== src/Image/Loading.antt =====
-- `Cpu::load` of refemu/src/exec.rs on an image that was parsed.
use click_doom.Base.{
  ℕ, zero, suc, ◌+◌, ◌-◌, ◌%◌, ◌^◌, ◌<◌, ◌≡◌, none, List, [], ◌∷◌, arith, ltb, leb, ◌==◌, if_both,
  length, All, ok, err, panic, Returns,
}
use click_doom.Memory.{Memory, load_image}
use click_doom.Memory.Bytes.{IsByte}
use click_doom.Memory.Valid as Memories
use click_doom.Exec.{Cpu}
use click_doom.Exec.Valid.{IsValid}
use click_doom.Exec.Setup.{load_image-IsValid}
use click_doom.Image.{
  Segment, Image, Loaded, zeros, load_tail, load_segment, load_next, load_segments, start_at, load,
}
use click_doom.Image.Laws.{SegmentGood}
use click_doom.Image.Parsed.{ImageGood}

-- No panic, and a valid memory.
abbrev LoadedGood : Loaded → Type 0
LoadedGood r = Returns (r.0) × Memories.IsValid (r.1)

load_image-Returns : (m : Memory) (image : List ℕ) (addr : ℕ) → Returns (load_image m image addr).0
unfolding load_image
load_image-Returns m image addr =
    if_both {A = Loaded} (λ r. Returns (r.0)) (ltb addr m.map.ram_base) (λ _. tt)
      (λ _.
        if_both {A = Loaded} (λ r. Returns (r.0))
          (leb (addr - m.map.ram_base + length image) (length m.ram_bytes)) (λ _. tt) (λ _. tt))

load_image-LoadedGood :
    (m : Memory) (image : List ℕ) (addr : ℕ)
    → Memories.IsValid m
    → All IsByte image
    → LoadedGood (load_image m image addr)
load_image-LoadedGood m image addr v b =
    (load_image-Returns m image addr, load_image-IsValid m image addr v b)

zeros-IsByte : (n : ℕ) → All IsByte (zeros n)
zeros-IsByte zero = tt
zeros-IsByte (suc n) = (omega arith, zeros-IsByte n)

load_tail-LoadedGood :
    (file : List ℕ) (s : Segment) (r : Loaded)
    → SegmentGood file s
    → LoadedGood r
    → LoadedGood (load_tail s r)
load_tail-LoadedGood file s (err e, m) good h = h
load_tail-LoadedGood file s (panic, m) good h = h
load_tail-LoadedGood file s (ok u, m) (some_memory, short, low, bytes, slice) h =
    if_both LoadedGood (ltb s.mem_len (length s.bytes))
      (λ long. absurd (ground (arith, long, short)))
      (λ _.
        if_both LoadedGood (s.mem_len - length s.bytes == 0) (λ _. (tt, h.1))
          (λ tail.
            if_both LoadedGood (ltb (s.vaddr + length s.bytes % 2 ^ 32) (2 ^ 32))
              (λ _.
                load_image-LoadedGood m (zeros (s.mem_len - length s.bytes))
                  (s.vaddr + length s.bytes % 2 ^ 32) h.1
                  (zeros-IsByte (s.mem_len - length s.bytes)))
              (λ past. absurd (ground (arith, past, short, low)))))

load_segments-LoadedGood :
    (file : List ℕ) (ss : List Segment) (m : Memory)
    → All (SegmentGood file) ss
    → Memories.IsValid m
    → LoadedGood (load_segments ss m)
unfolding load_segments load_segment
load_segments-LoadedGood file [] m goods v = (tt, v)
load_segments-LoadedGood file (s ∷ ss) m goods v =
    next (load_tail s (load_image m s.bytes s.vaddr))
      (load_tail-LoadedGood file s (load_image m s.bytes s.vaddr) goods.0
        (load_image-LoadedGood m s.bytes s.vaddr v goods.0.3))
      (λ m1. load_segments-LoadedGood file ss m1 goods.1)
  where
    next :
        (r : Loaded)
        → LoadedGood r
        → ((m1 : Memory) → Memories.IsValid m1 → LoadedGood (load_segments ss m1))
        → LoadedGood (load_next (load_segments ss) r)
    next (ok u, m1) h ih = ih m1 h.1
    next (err e, m1) h ih = h
    next (panic, m1) h ih = h

-- A valid machine with another memory, no cache and an aligned entry.
placed-IsValid :
    (c : Cpu) (m : Memory) (pc : ℕ)
    → IsValid c
    → Memories.IsValid m
    → pc < 2 ^ 32
    → pc % 4 ≡ 0
    → IsValid (record c { memory = m; cache = none; pc = pc })
placed-IsValid c m pc v h fits aligned = record {
  memory = h;
  register_count = v.register_count;
  register_words = v.register_words;
  x0 = v.x0;
  pc_word = fits;
  pc_aligned = aligned;
  cache = tt;
}

start_at-IsValid :
    (c : Cpu) (entry : ℕ) (r : Loaded)
    → IsValid c
    → entry < 2 ^ 32
    → entry % 4 ≡ 0
    → LoadedGood r
    → Returns (start_at entry c r).0 × IsValid (start_at entry c r).1
start_at-IsValid c entry (ok u, m) v fits aligned h =
    (tt, placed-IsValid c m entry v h.1 fits aligned)
start_at-IsValid c entry (err e, m) v fits aligned h =
    (tt, placed-IsValid c m c.pc v h.1 v.pc_word v.pc_aligned)
start_at-IsValid c entry (panic, m) v fits aligned h = absurd h.0

-- `load` of an image whose segments were read from a file, with an aligned entry, never panics on a
-- valid machine and leaves it valid, where it fails included.
pub load-IsValid :
    (file : List ℕ) (c : Cpu) (image : Image)
    → ImageGood file image
    → image.entry % 4 ≡ 0
    → IsValid c
    → Returns (load c image).0 × IsValid (load c image).1
unfolding load ImageGood
load-IsValid file c image (fits, some_segment, goods, ordered, symbols) aligned v =
    start_at-IsValid c image.entry (load_segments image.segments c.memory) v fits aligned
      (load_segments-LoadedGood file image.segments c.memory goods v.memory)
