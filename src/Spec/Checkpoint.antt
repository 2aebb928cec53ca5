-- ===== src/Spec/Checkpoint.antt =====
-- spec/src/checkpoint.rs: the cadence of a trace, what the hashes cover, and the data of one trace
-- line. The counts are `u64`.
pub mod Laws
use click_doom.Base.{
  ℕ, ◌+◌, ◌-◌, ◌%◌, ◌^◌, leb, Bool, not, ◌&&◌, Option, none, some, List, [], ◌∷◌, ◌++◌, ◌==◌,
  if◌then◌else◌, drop, Outcome, ok, err,
}
use click_doom.Memory.{to_le_bytes}

-- `u64::is_multiple_of`: of 0 only 0 is one.
abbrev pub is_multiple_of : ℕ → ℕ → Bool
is_multiple_of n m = if m == 0 then n == 0 else n % m == 0

pub record TraceConfig : Type 0 where
  pub checkpoint_interval : ℕ
  pub ram_hash_interval : ℕ

pub data TraceConfigError : Type 0 where
  zero_checkpoint_interval zero_ram_hash_interval : TraceConfigError
  not_a_multiple : ℕ → ℕ → TraceConfigError

unfoldable pub validate : TraceConfig → Outcome TraceConfigError (Unit {0})
validate t =
    if t.checkpoint_interval == 0
    then err zero_checkpoint_interval
    else if t.ram_hash_interval == 0
    then err zero_ram_hash_interval
    else if not (is_multiple_of t.ram_hash_interval t.checkpoint_interval)
    then err (not_a_multiple t.checkpoint_interval t.ram_hash_interval)
    else ok tt

unfoldable pub is_checkpoint : TraceConfig → ℕ → Bool
is_checkpoint t icount = not (icount == 0) && is_multiple_of icount t.checkpoint_interval

unfoldable pub is_ram_hash : TraceConfig → ℕ → Bool
is_ram_hash t icount = not (icount == 0) && is_multiple_of icount t.ram_hash_interval

-- `none` is a panic: of a remainder by 0, or of a sum that is no `u64`.
unfoldable pub next_checkpoint_after : TraceConfig → ℕ → Option ℕ
next_checkpoint_after t icount =
    if t.checkpoint_interval == 0
    then none
    else if leb (2 ^ 64) (icount + t.checkpoint_interval)
    then none
    else some (icount + t.checkpoint_interval - icount % t.checkpoint_interval)

-- The hash function of the xxhash package: of one slice, and streamed over several.
pub record Hasher : Type 0 where
  pub xxh64 : List ℕ → ℕ
  pub streamed : List (List ℕ) → ℕ

abbrev pub words_le : List ℕ → List ℕ
words_le [] = []
words_le (w ∷ ws) = to_le_bytes w ++ words_le ws

-- The bytes that the register hash covers: `pc`, then `x1` to `x31`.
unfoldable pub reg_hash_bytes : ℕ → List ℕ → List ℕ
reg_hash_bytes pc regs = to_le_bytes pc ++ words_le (drop 1 regs)

unfoldable pub reg_hash : Hasher → ℕ → List ℕ → ℕ
unfolding reg_hash_bytes
reg_hash h pc regs = h.xxh64 (reg_hash_bytes pc regs)

unfoldable pub ram_hash : Hasher → List ℕ → ℕ
ram_hash h ram = h.xxh64 ram

unfoldable pub fb_hash : Hasher → List ℕ → List ℕ → ℕ
fb_hash h framebuffer palette = h.streamed (framebuffer ∷ palette ∷ [])

pub record Checkpoint : Type 0 where
  pub icount : ℕ
  pub pc : ℕ
  pub reghash : ℕ
  pub ramhash : Option ℕ
  pub fbhash : Option ℕ

abbrev pub registers_only : ℕ → ℕ → ℕ → Checkpoint
registers_only icount pc reghash = record {
  icount = icount;
  pc = pc;
  reghash = reghash;
  ramhash = none;
  fbhash = none;
}

abbrev pub with_memory : ℕ → ℕ → ℕ → ℕ → ℕ → Checkpoint
with_memory icount pc reghash ramhash fbhash = record {
  icount = icount;
  pc = pc;
  reghash = reghash;
  ramhash = some ramhash;
  fbhash = some fbhash;
}
