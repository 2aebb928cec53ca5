-- ===== src/Exec/Setup.antt =====
-- The machine as the callers of refemu/src/exec.rs set it up: a fresh machine, a loaded image, a
-- declared text region, a restored state and an enabled cache are all valid machines.
use click_doom.Base.{
  ℕ, zero, suc, ◌+◌, ◌-◌, ◌*◌, ◌/◌, ◌%◌, ◌^◌, ◌≤◌, ◌<◌, ◌≡◌, ◌∙◌, refl, sym, ap, Bool, false,
  Option, none, some, List, ◌∷◌, arith, length, All, All-replicate, length-replicate, if_both, inr,
  Outcome, ok, err, panic, Returns, leb, ltb, not, ◌||◌, ◌==◌,
}
use click_doom.Word.{IsU32}
use click_doom.Memory.{Memory, LoadError, load_image, set_text_region, overwrite}
use click_doom.Memory.Bytes.{IsByte, read_le-some}
use click_doom.Memory.Slices.{length-overwrite, All-overwrite}
use click_doom.Memory.Valid as Memories
use click_doom.Memory.Valid.{IsRegion}
use click_doom.Decode.{decode}
use click_doom.Predecode.{DecodeCache, Entry, push_entry, entries_from, build}
use click_doom.Predecode.Laws.{build-Covers}
use click_doom.Exec.{Cpu, new_cpu}
use click_doom.Exec.Halted.{Halt}
use click_doom.Exec.Step.{
  load_cpu_image, declare_text, region_cache, keep_cache, enable_decode_cache, run_until_halt,
}
use click_doom.Exec.Valid.{IsValid}
use click_doom.Exec.Cacheless.{uncached, uncache}
use click_doom.Exec.Uncached.{run_until_halt-uncached}

-- A fresh machine is valid: its memory is, and its entry is an aligned `u32`.
pub new_cpu-IsValid :
    (m : Memory) (entry : ℕ)
    → Memories.IsValid m
    → entry < 2 ^ 32
    → entry % 4 ≡ 0
    → IsValid (new_cpu m entry)
unfolding new_cpu
new_cpu-IsValid m entry h fits aligned = record {
  memory = h;
  register_count = length-replicate {A = ℕ} 32 0;
  register_words = All-replicate IsU32 32 0 (omega arith);
  x0 = refl;
  pc_word = fits;
  pc_aligned = aligned;
  cache = tt;
}

-- A valid machine whose memory is replaced and whose cache is dropped.
drop_cache-IsValid :
    (c : Cpu) (m : Memory)
    → IsValid c
    → Memories.IsValid m
    → IsValid (record c { memory = m; cache = none })
drop_cache-IsValid c m v h = record {
  memory = h;
  register_count = v.register_count;
  register_words = v.register_words;
  x0 = v.x0;
  pc_word = v.pc_word;
  pc_aligned = v.pc_aligned;
  cache = tt;
}

IsRegion-load :
    (size : ℕ) (xs : List ℕ) (at : ℕ) (image : List ℕ)
    → IsRegion size xs
    → All IsByte image
    → IsRegion size (overwrite xs at image)
IsRegion-load size xs at image h b =
    (length-overwrite xs at image ∙ h.0, All-overwrite IsByte xs at image h.1 b)

pub load_image-IsValid :
    (m : Memory) (image : List ℕ) (load_addr : ℕ)
    → Memories.IsValid m
    → All IsByte image
    → Memories.IsValid (load_image m image load_addr).1
unfolding load_image
load_image-IsValid m image load_addr h b =
    if_both P (ltb load_addr m.map.ram_base) (λ _. h)
      (λ _.
        if_both P (leb (load_addr - m.map.ram_base + length image) (length m.ram_bytes))
          (λ _. record {
            ram_region =
                IsRegion-load m.map.ram_size m.ram_bytes (load_addr - m.map.ram_base) image
                  h.ram_region b;
            framebuffer_region = h.framebuffer_region;
            palette_region = h.palette_region;
            window = h.window;
          })
          (λ _. h))
  where
    P : Outcome LoadError (Unit {0}) × Memory → Type 0
    P r = Memories.IsValid r.1

-- Loading an image of bytes into a valid machine, whether it fits or is refused, leaves a valid machine.
pub load_cpu_image-IsValid :
    (c : Cpu) (image : List ℕ) (load_addr : ℕ)
    → IsValid c
    → All IsByte image
    → IsValid (load_cpu_image c image load_addr).1
unfolding load_cpu_image
load_cpu_image-IsValid c image load_addr v b =
    drop_cache-IsValid c (load_image c.memory image load_addr).1 v
      (load_image-IsValid c.memory image load_addr v.memory b)

pub declare_text-IsValid :
    (c : Cpu) (region : Option (ℕ × ℕ)) → IsValid c → IsValid (declare_text c region)
unfolding declare_text set_text_region
declare_text-IsValid c region v = drop_cache-IsValid c (set_text_region c.memory region) v (record {
  ram_region = v.memory.ram_region;
  framebuffer_region = v.memory.framebuffer_region;
  palette_region = v.memory.palette_region;
  window = v.memory.window;
})

push_entry-both :
    {w : Option ℕ} {tail : Option (List Entry)} {v : ℕ} {es : List Entry}
    → w ≡ some v
    → tail ≡ some es
    → (all : List Entry) × (push_entry w tail ≡ some all)
push_entry-both {w} {tail} {v} {es} hw ht = (
  record { insn = decode v; word = v } ∷ es,
  ap (λ x. push_entry x tail) hw ∙ ap (push_entry (some v)) ht,
)

-- The words of a region inside the bytes can all be read.
entries_from-some :
    (ram : List ℕ) (at n : ℕ)
    → at + 4 * n ≤ length ram
    → (es : List Entry) × (entries_from ram at n ≡ some es)
unfolding entries_from
entries_from-some ram at zero h = (_, refl)
entries_from-some ram at (suc n) h =
    let (es, rest) = entries_from-some ram (at + 4) n (omega arith) in
    push_entry-both (read_le-some ram at 4 (inr (inr refl)) (omega arith)) rest

build-Returns : (m : Memory) (start end : ℕ) → Memories.IsValid m → Returns (build m start end)
unfolding build
build-Returns m start end h =
    if_both Returns (leb end start || not (start % 4 == 0) || not (end % 4 == 0)) (λ _. tt)
      (λ shape.
        if_both Returns (ltb start m.map.ram_base || ltb (m.map.ram_base + m.map.ram_size) end)
          (λ _. tt)
          (λ inside.
            let size = h.ram_region.0 in
            let (es, e) =
              entries_from-some m.ram_bytes (start - m.map.ram_base) ((end - start) / 4)
                (words shape inside size) in
            rw e tt))
  where
    words :
        (leb end start || not (start % 4 == 0) || not (end % 4 == 0)) ≡ false
        → (ltb start m.map.ram_base || ltb (m.map.ram_base + m.map.ram_size) end) ≡ false
        → length m.ram_bytes ≡ m.map.ram_size
        → start - m.map.ram_base + 4 * ((end - start) / 4) ≤ length m.ram_bytes
    words shape inside size = ground arith

-- A declared region ends below 2 ^ 32, as a `u32` does.
abbrev pub TextFits : Option (ℕ × ℕ) → Type 0
TextFits none = Unit
TextFits (some (start, end)) = end ≤ 2 ^ 32

-- What enabling the cache gives: an answer, and the machine as it was but for a valid cache.
abbrev pub Enabled : Cpu → Outcome Halt Bool × Cpu → Type 0
Enabled c r = Returns r.0 × IsValid r.1 × (uncached r.1 ≡ uncached c)

keep_cache-Enabled :
    (c : Cpu) (start end : ℕ) (r : Outcome (Unit {0}) DecodeCache)
    → IsValid c
    → end ≤ 2 ^ 32
    → c.memory.text ≡ some (start, end)
    → build c.memory start end ≡ r
    → Returns r
    → Enabled c (keep_cache c r)
keep_cache-Enabled c start end (ok k) v fits text e returns = (
  tt,
  record {
    memory = v.memory;
    register_count = v.register_count;
    register_words = v.register_words;
    x0 = v.x0;
    pc_word = v.pc_word;
    pc_aligned = v.pc_aligned;
    cache = record {
      start = start;
      end = end;
      declared = text;
      fits = fits;
      covers = build-Covers c.memory start end k e;
    };
  },
  refl,
)
keep_cache-Enabled c start end (err u) v fits text e returns =
    (tt, drop_cache-IsValid c c.memory v v.memory, refl)
keep_cache-Enabled c start end panic v fits text e returns = absurd returns

region-Enabled :
    (c : Cpu) (t : Option (ℕ × ℕ))
    → IsValid c
    → TextFits t
    → c.memory.text ≡ t
    → Enabled c (keep_cache c (region_cache c.memory t))
region-Enabled c none v fits text = (tt, drop_cache-IsValid c c.memory v v.memory, refl)
region-Enabled c (some (start, end)) v fits text =
    keep_cache-Enabled c start end (build c.memory start end) v fits text refl
      (build-Returns c.memory start end v.memory)

-- Enabling the decode cache of a valid machine whose text region is declared in `u32` addresses
-- never panics, leaves a valid machine, and changes nothing but the cache.
pub enable_decode_cache-Enabled :
    (c : Cpu) → IsValid c → TextFits c.memory.text → Enabled c (enable_decode_cache c)
unfolding enable_decode_cache
enable_decode_cache-Enabled c v fits = region-Enabled c c.memory.text v fits refl

-- A run after `enable_decode_cache` ends as the run without it: in the same halt or at the same
-- bound, with the same machine but for the cache, for every valid machine whose text region is
-- declared in `u32` addresses.
pub run_until_halt-enable_decode_cache :
    (max_steps : ℕ) (c : Cpu)
    → IsValid c
    → TextFits c.memory.text
    → uncache (run_until_halt max_steps (enable_decode_cache c).1)
      ≡ uncache (run_until_halt max_steps c)
run_until_halt-enable_decode_cache max_steps c v fits =
    let (returns, valid, same) = enable_decode_cache-Enabled c v fits in
    sym (run_until_halt-uncached max_steps (enable_decode_cache c).1 valid)
    ∙ ap (run_until_halt max_steps) same
    ∙ run_until_halt-uncached max_steps c v
