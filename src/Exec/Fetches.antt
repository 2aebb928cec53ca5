-- ===== src/Exec/Fetches.antt =====
-- What a fetch gives: it does not panic, and its instruction is in range.
use click_doom.Base.{
  ℕ, ◌-◌, ◌^◌, ◌<◌, ◌≡◌, refl, sym, ◌∙◌, subst, Option, none, some, arith, if_both, Outcome, ok,
  err, panic,
}
use click_doom.Memory.{Memory, MemFault}
use click_doom.Memory.Access.{read}
use click_doom.Memory.Valid as Memories
use click_doom.Memory.Valid.{read-IsValid, read_stored}
use click_doom.Mmio.Laws.{ReturnsU32}
use click_doom.Decode.Bounds.{IsInRange, decode-IsInRange}
use click_doom.Predecode.{Entry, DecodeCache, get}
use click_doom.Predecode.Laws.{get-IsEntry}
use click_doom.Exec.{Cpu}
use click_doom.Exec.Cache.{CacheMatches, read-CacheMatches}
use click_doom.Exec.Step.{Fetched, outside_text, cached, fetch, fetch_entry, decoded}
use click_doom.Exec.Valid.{IsValid, set_memory-IsValid}

-- A fetch gives an instruction in range or a halt, and leaves the program counter alone.
abbrev pub FetchGood : ℕ → Fetched → Type 0
FetchGood pc (ok (word, insn), c) = IsInRange insn × (c.pc ≡ pc) × IsValid c
FetchGood pc (err halt, c) = IsValid c
FetchGood pc (panic, c) = ⊥

entry-IsInRange :
    (c : Cpu) (k : DecodeCache) (e : Entry)
    → IsValid c
    → CacheMatches c.memory (some k)
    → get k c.pc ≡ some e
    → IsInRange e.insn
entry-IsInRange c k e v h g =
    let (above, below, aligned, entry) =
      get-IsEntry c.memory h.start h.end c.pc k e h.covers h.fits v.pc_word g in
    let (w, there, bound) =
      read_stored c.memory.map.ram_size c.memory.ram_bytes (c.pc - c.memory.map.ram_base) 4
        v.memory.ram_region (omega arith)
        (omega (arith, above, below, h.covers.above, h.covers.below)) in
    let same : w ≡ e.word = cc (sym there ∙ entry.in_ram) in
    rw entry.decoded (decode-IsInRange e.word (subst (λ x. x < 2 ^ 32) same bound))

cached-IsInRange :
    (c : Cpu) (cache : Option DecodeCache) (e : Entry)
    → IsValid c
    → CacheMatches c.memory cache
    → cached cache c.pc ≡ some e
    → IsInRange e.insn
cached-IsInRange c none e v h g = absurd (cc g)
cached-IsInRange c (some k) e v h g = entry-IsInRange c k e v h g

decoded-Good :
    (c : Cpu) (r : Outcome MemFault ℕ × Memory)
    → IsValid c
    → ReturnsU32 r.0
    → Memories.IsValid r.1
    → CacheMatches r.1 c.cache
    → FetchGood c.pc (decoded c r)
decoded-Good c (ok word, m) v h k cache =
    (decode-IsInRange word h, refl, set_memory-IsValid c m v k cache)
decoded-Good c (err fault, m) v h k cache = set_memory-IsValid c m v k cache
decoded-Good c (panic, m) v h k cache = absurd h

fetch_entry-Good :
    (c : Cpu) (o : Option Entry)
    → IsValid c
    → cached c.cache c.pc ≡ o
    → FetchGood c.pc (fetch_entry c o)
fetch_entry-Good c (some e) v g = (cached-IsInRange c c.cache e v v.cache g, refl, v)
fetch_entry-Good c none v g =
    let (value, valid) = read-IsValid c.memory c.pc 4 c.icount v.memory (omega arith) in
    decoded-Good c (read c.memory c.pc 4 c.icount) v value valid
      (read-CacheMatches c.memory c.pc 4 c.icount c.cache v.cache)

pub fetch-Good : (c : Cpu) → IsValid c → FetchGood c.pc (fetch c)
unfolding fetch
fetch-Good c v =
    if_both (FetchGood c.pc) (outside_text c.memory.text c.pc) (λ _. v)
      (λ _. fetch_entry-Good c (cached c.cache c.pc) v refl)
