-- ===== src/Exec/Uncached.antt =====
-- The decode cache is an acceleration only: with it and without it the machine does the same.
use click_doom.Base.{
  ℕ, zero, suc, ltb, ◌^◌, ◌+◌, ◌-◌, ◌%◌, ◌≤◌, ◌≡◌, ◌∙◌, refl, sym, ap, true, ==_iff, Option, none,
  some, arith, ◌==◌, if◌then◌else◌, Outcome, ok, err, panic,
}
use click_doom.Spec.Map.{MemoryMap, ram, classify}
use click_doom.Memory.{Memory, MemFault, read_le}
use click_doom.Memory.Access.{read}
use click_doom.Decode.{Instruction}
use click_doom.Predecode.{Entry, DecodeCache, get}
use click_doom.Predecode.Laws.{get-IsEntry}
use click_doom.Exec.{Cpu}
use click_doom.Exec.Halted
use click_doom.Exec.Halted.{Halt}
use click_doom.Spec.Halt.{HaltReason}
use click_doom.Exec.Cache.{CacheMatches, Matches}
use click_doom.Exec.Execute.{Executed, execute}
use click_doom.Exec.Step.{
  Fetched, outside_text, cached, fetch, fetch_entry, decoded, retire, run_fetched, step_reporting,
  run_after, run_steps, run_until_halt,
}
use click_doom.Exec.Valid.{IsValid}
use click_doom.Exec.Runs.{StepValid, step_reporting-StepValid}
use click_doom.Exec.Cacheless.{uncached, uncache, if_map, execute-uncached}

classify-ram :
    (m : MemoryMap) (addr width : ℕ)
    → m.ram_base ≤ addr
    → addr + width ≤ m.ram_base + m.ram_size
    → classify m addr width ≡ some (ram, addr - m.ram_base)
unfolding classify
classify-ram m addr width above below = ground arith

-- A read of an aligned word of RAM.
read-ram :
    (m : Memory) (addr icount v : ℕ)
    → addr % 4 ≡ 0
    → m.map.ram_base ≤ addr
    → addr + 4 ≤ m.map.ram_base + m.map.ram_size
    → read_le m.ram_bytes (addr - m.map.ram_base) 4 ≡ some v
    → read m addr 4 icount ≡ (ok v, m)
unfolding read
read-ram m addr icount v aligned above below e =
    let place : classify m.map addr 4 ≡ some (ram, addr - m.map.ram_base) =
      classify-ram m.map addr 4 above below in
    let test : (addr % 4 == 0) ≡ true = (==_iff (addr % 4) 0).1 aligned in rw (test, place, e) refl

cached-word :
    (c : Cpu) (k : DecodeCache) (e : Entry)
    → IsValid c
    → Matches c.memory k
    → get k c.pc ≡ some e
    → decoded (uncached c) (read c.memory c.pc 4 c.icount) ≡ (ok (e.word, e.insn), uncached c)
cached-word c k e v h g =
    let (above, below, aligned, entry) =
      get-IsEntry c.memory h.start h.end c.pc k e h.covers h.fits v.pc_word g in
    ap (decoded (uncached c)) (
      read-ram c.memory c.pc c.icount e.word aligned (omega (arith, above, h.covers.above))
        (omega (arith, below, h.covers.below)) entry.in_ram)
    ∙ ap (λ i. (ok (e.word, i), uncached c)) (sym entry.decoded)

cached-entry :
    (c : Cpu) (cache : Option DecodeCache) (e : Entry)
    → IsValid c
    → CacheMatches c.memory cache
    → cached cache c.pc ≡ some e
    → decoded (uncached c) (read c.memory c.pc 4 c.icount) ≡ (ok (e.word, e.insn), uncached c)
cached-entry c none e v h g = absurd (cc g)
cached-entry c (some k) e v h g = cached-word c k e v h g

-- Where the cache answers, the uncached fetch reads the same word and decodes it the same way.
fetch_entry-uncached :
    (c : Cpu) (o : Option Entry)
    → IsValid c
    → cached c.cache c.pc ≡ o
    → fetch_entry (uncached c) none ≡ uncache (fetch_entry c o)
fetch_entry-uncached c (some e) v g = cached-entry c c.cache e v v.cache g
fetch_entry-uncached c none v g = decoded-uncached (read c.memory c.pc 4 c.icount)
  where
    decoded-uncached :
        (r : Outcome MemFault ℕ × Memory) → decoded (uncached c) r ≡ uncache (decoded c r)
    decoded-uncached (ok w, m) = refl
    decoded-uncached (err f, m) = refl
    decoded-uncached (panic, m) = refl

fetch-uncached : (c : Cpu) → IsValid c → fetch (uncached c) ≡ uncache (fetch c)
unfolding fetch
fetch-uncached c v =
    ap (λ r. if outside_text c.memory.text c.pc then outside else r)
      (fetch_entry-uncached c (cached c.cache c.pc) v refl)
    ∙ if_map uncache (outside_text c.memory.text c.pc) _ _
  where
    outside : Fetched
    outside = (err (Halted.on_fetch HaltReason.bad_addr c.pc c.pc), uncached c)

retire-uncached :
    (word : ℕ) (i : Instruction) (r : Executed)
    → retire word i (uncache r) ≡ uncache (retire word i r)
retire-uncached word i (ok next, c) = if_map uncache (ltb (c.icount + 1) (2 ^ 64)) _ _
retire-uncached word i (err halt, c) = refl
retire-uncached word i (panic, c) = refl

run_fetched-uncached :
    (pc : ℕ) (f : Fetched) → run_fetched pc (uncache f) ≡ uncache (run_fetched pc f)
run_fetched-uncached pc (ok (word, i), c) =
    ap (retire word i) (execute-uncached c pc word i) ∙ retire-uncached word i (execute c pc word i)
run_fetched-uncached pc (err halt, c) = refl
run_fetched-uncached pc (panic, c) = refl

-- One step of a valid machine does the same with its decode cache and without it: the same report,
-- halt or panic, and the same machine but for the cache.
pub step_reporting-uncached :
    (c : Cpu) → IsValid c → step_reporting (uncached c) ≡ uncache (step_reporting c)
unfolding step_reporting
step_reporting-uncached c v =
    ap (run_fetched c.pc) (fetch-uncached c v) ∙ run_fetched-uncached c.pc (fetch c)

run_steps-uncached :
    (bound left : ℕ) (c : Cpu)
    → IsValid c
    → run_steps bound left (uncached c) ≡ uncache (run_steps bound left c)
unfolding run_steps
run_steps-uncached bound zero c v = refl
run_steps-uncached bound (suc left) c v =
    ap (run_after (run_steps bound left)) (step_reporting-uncached c v)
    ∙ after (run_steps-uncached bound left) (step_reporting c) (step_reporting-StepValid c v)
  where
    after :
        ((d : Cpu)
          → IsValid d
          → run_steps bound left (uncached d) ≡ uncache (run_steps bound left d))
        → (f : Fetched) → StepValid f
        → run_after (run_steps bound left) (uncache f)
          ≡ uncache (run_after (run_steps bound left) f)
    after rest (ok reported, d) h = rest d h
    after rest (err halt, d) h = refl
    after rest (panic, d) h = refl

-- A run of a valid machine ends the same with its decode cache and without it, after any bound.
pub run_until_halt-uncached :
    (max_steps : ℕ) (c : Cpu)
    → IsValid c
    → run_until_halt max_steps (uncached c) ≡ uncache (run_until_halt max_steps c)
unfolding run_until_halt
run_until_halt-uncached max_steps c v = run_steps-uncached max_steps max_steps c v
