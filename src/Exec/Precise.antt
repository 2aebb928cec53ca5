-- ===== src/Exec/Precise.antt =====
-- Halts are precise: the instruction that caused one does not retire.
use click_doom.Base.{
  ℕ, ◌+◌, ◌%◌, ◌^◌, ◌⊎◌, inl, inr, ltb, ◌≡◌, ◌∙◌, refl, sym, ap, subst, Bool, Option, none, some,
  if_both, ◌==◌, Outcome, ok, err, panic,
}
use click_doom.Word.{wrapping_add}
use click_doom.Memory.{Memory, MemFault, bad_addr, misaligned, self_modify, exit}
use click_doom.Memory.Access.{read}
use click_doom.Memory.Same.{SameStored, read-SameStored, read-err, read-plain, write-err}
use click_doom.Decode.{Instruction}
use click_doom.Decode.Bounds.{IsInRange}
use click_doom.Spec.Map.{mmio, classify}
use click_doom.Predecode.{Entry}
use click_doom.Exec.{Cpu, in_regs, reg, set_reg, fetch_halt, access_halt}
use click_doom.Exec.Execute.{Executed, checked, loaded, stored, next_pc, execute}
use click_doom.Exec.Kinds.{
  Kind, writes, jumps, branches, loads, stores, passes, stops, execute-Kind,
}
use click_doom.Exec.Step.{
  Fetched, outside_text, cached, fetch, fetch_entry, decoded, retire, run_fetched, step_reporting,
}
use click_doom.Exec.Valid.{IsValid}
use click_doom.Exec.Fetches.{FetchGood, fetch-Good}

access_halt-pc : (pc word : ℕ) (f : MemFault) → (access_halt pc word f).pc ≡ pc
unfolding access_halt
access_halt-pc pc word (bad_addr a) = refl
access_halt-pc pc word (misaligned a w) = refl
access_halt-pc pc word (self_modify a) = refl
access_halt-pc pc word (exit code) = refl

fetch_halt-pc : (pc : ℕ) (f : MemFault) → (fetch_halt pc f).pc ≡ pc
unfolding fetch_halt
fetch_halt-pc pc (bad_addr a) = refl
fetch_halt-pc pc (misaligned a w) = refl
fetch_halt-pc pc (self_modify a) = refl
fetch_halt-pc pc (exit code) = refl

-- An executed instruction leaves the count alone; one that halts leaves the whole machine as it was, and its halt names its
-- address.
abbrev pub Precise : Cpu → ℕ → Executed → Type 0
Precise c pc (ok next, d) = d.icount ≡ c.icount
Precise c pc (err halt, d) = (d ≡ c) × (halt.pc ≡ pc)
Precise c pc (panic, d) = Unit

set_reg-Precise :
    (c d : Cpu) (pc index value next : ℕ)
    → d.icount ≡ c.icount
    → Precise c pc (set_reg d index value next)
set_reg-Precise c d pc index value next same =
    if_both (Precise c pc) (in_regs d index) (λ _. same) (λ _. tt)

module _ (c : Cpu) (pc word : ℕ) (i : Instruction) where
  checked-Precise :
      (target : ℕ) (after : Executed)
      → Precise c pc after
      → Precise c pc (checked c target pc word after)
  checked-Precise target after same =
      if_both (Precise c pc) (target % 4 == 0) (λ _. same) (λ _. (refl, refl))

  loaded-Precise :
      (width : ℕ) (signed : Bool) (r : Outcome MemFault ℕ × Memory)
      → ((f : MemFault) → r.0 ≡ err f → r.1 ≡ c.memory)
      → Precise c pc (loaded c pc word i width signed r)
  loaded-Precise width signed (ok raw, m) same =
      set_reg-Precise c (record c { memory = m }) pc i.rd _ (next_pc pc) refl
  loaded-Precise width signed (err f, m) same =
      (ap (λ x. record c { memory = x }) (same f refl), access_halt-pc pc word f)
  loaded-Precise width signed (panic, m) same = tt

  stored-Precise :
      (r : Outcome MemFault (Unit {0}) × Memory)
      → ((f : MemFault) → r.0 ≡ err f → r.1 ≡ c.memory)
      → Precise c pc (stored c pc word r)
  stored-Precise (ok u, m) same = refl
  stored-Precise (err f, m) same =
      (ap (λ x. record c { memory = x }) (same f refl), access_halt-pc pc word f)
  stored-Precise (panic, m) same = tt

  Kind-Precise : (r : Executed) → Kind c pc word i r → Precise c pc r
  Kind-Precise r (writes value h e) = rw e (set_reg-Precise c c pc i.rd value (next_pc pc) refl)
  Kind-Precise r (jumps target h e) =
      rw e (checked-Precise target _ (set_reg-Precise c c pc i.rd (next_pc pc) target refl))
  Kind-Precise r (branches taken e) = rw e (
      if_both (Precise c pc) taken (λ _. checked-Precise (wrapping_add pc i.imm) _ refl)
        (λ _. refl))
  Kind-Precise r (loads width signed w e) = rw e (
      loaded-Precise width signed _
        (read-err c.memory (wrapping_add (reg c i.rs1) i.imm) width c.icount))
  Kind-Precise r (stores width w e) = rw e (
      stored-Precise _
        (write-err c.memory (wrapping_add (reg c i.rs1) i.imm) width (reg c i.rs2) c.icount))
  Kind-Precise r (passes e) = rw e refl
  Kind-Precise r (stops reason e) = rw e (refl, refl)

pub execute-Precise :
    (c : Cpu) (pc word : ℕ) (i : Instruction)
    → IsValid c
    → IsInRange i
    → Precise c pc (execute c pc word i)
execute-Precise c pc word i v range =
    Kind-Precise c pc word i (execute c pc word i)
      (execute-Kind c pc word i v.register_count v.register_words range)

-- The machine but for the state of its device window.
abbrev pub SameMachine : Cpu → Cpu → Type 0
SameMachine c d = (d ≡ record c { memory = d.memory }) × SameStored c.memory d.memory

-- The machine as it was, but for what a fetch from the device window did to the devices.
abbrev pub Untouched : Cpu → Cpu → Type 0
Untouched c d =
    (d ≡ c)
    ⊎ ((d ≡ record c { memory = (read c.memory c.pc 4 c.icount).1 })
        × ((offset : ℕ) × (classify c.memory.map c.pc 4 ≡ some (mmio, offset))))

-- What a step does to the count: a retired instruction counts once. A halt changes nothing, the
-- devices of a fetch from their window apart, and names the program counter.
abbrev pub StepPrecise : Cpu → Fetched → Type 0
StepPrecise c (ok reported, d) = d.icount ≡ c.icount + 1
StepPrecise c (err halt, d) = SameMachine c d × Untouched c d × (halt.pc ≡ c.pc)
StepPrecise c (panic, d) = Unit

abbrev pub FetchPrecise : Cpu → Fetched → Type 0
FetchPrecise c (ok reported, d) = SameMachine c d × Untouched c d
FetchPrecise c (err halt, d) = SameMachine c d × Untouched c d × (halt.pc ≡ c.pc)
FetchPrecise c (panic, d) = Unit

read-Untouched : (c : Cpu) → Untouched c (record c { memory = (read c.memory c.pc 4 c.icount).1 })
read-Untouched c = elim (read-plain c.memory c.pc 4 c.icount) [
  | inl same ↦ inl (ap (λ m. record c { memory = m }) same)
  | inr device ↦ inr (refl, device)
]

decoded-Precise :
    (c : Cpu) (r : Outcome MemFault ℕ × Memory)
    → SameStored c.memory r.1
    → Untouched c (record c { memory = r.1 })
    → FetchPrecise c (decoded c r)
decoded-Precise c (ok word, m) h u = ((refl, h), u)
decoded-Precise c (err f, m) h u = ((refl, h), u, fetch_halt-pc c.pc f)
decoded-Precise c (panic, m) h u = tt

fetch_entry-Precise : (c : Cpu) (o : Option Entry) → FetchPrecise c (fetch_entry c o)
fetch_entry-Precise c (some e) = ((refl, refl), inl refl)
fetch_entry-Precise c none =
    decoded-Precise c (read c.memory c.pc 4 c.icount) (read-SameStored c.memory c.pc 4 c.icount)
      (read-Untouched c)

pub fetch-Precise : (c : Cpu) → FetchPrecise c (fetch c)
unfolding fetch
fetch-Precise c =
    if_both (FetchPrecise c) (outside_text c.memory.text c.pc) (λ _. ((refl, refl), inl refl, refl))
      (λ _. fetch_entry-Precise c (cached c.cache c.pc))

retire-Precise :
    (c d : Cpu) (word : ℕ) (i : Instruction) (r : Executed)
    → SameMachine c d × Untouched c d
    → Precise d c.pc r
    → StepPrecise c (retire word i r)
retire-Precise c d word i (ok next, e) same h =
    if_both (StepPrecise c) (ltb (e.icount + 1) (2 ^ 64))
      (λ _. ap (λ n. n + 1) (h ∙ ap (λ x. x.icount) same.0.0)) (λ _. tt)
retire-Precise c d word i (err halt, e) same h =
    (subst (SameMachine c) (sym h.0) same.0, subst (Untouched c) (sym h.0) same.1, h.1)
retire-Precise c d word i (panic, e) same h = tt

run_fetched-Precise :
    (c : Cpu) (f : Fetched)
    → FetchPrecise c f
    → FetchGood c.pc f
    → StepPrecise c (run_fetched c.pc f)
run_fetched-Precise c (ok (word, i), d) same good =
    retire-Precise c d word i (execute d c.pc word i) same
      (execute-Precise d c.pc word i good.2 good.0)
run_fetched-Precise c (err halt, d) same good = same
run_fetched-Precise c (panic, d) same good = tt

-- A step of a valid machine that retires adds one to the count. One that halts leaves the program
-- counter, the registers, the count, the cache, the stored bytes, the map, the text region and the
-- watch as they were. It leaves the devices too as they were, unless the program counter is in the
-- device window and they are what the read of the fetch made of them. The halt record carries the
-- program counter of the instruction.
pub step_reporting-Precise : (c : Cpu) → IsValid c → StepPrecise c (step_reporting c)
unfolding step_reporting
step_reporting-Precise c v = run_fetched-Precise c (fetch c) (fetch-Precise c) (fetch-Good c v)
