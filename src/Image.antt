-- ===== src/Image.antt =====
-- refemu/src/image.rs: a program image, its segments and its symbols. A name is the list of its bytes.
pub mod Elf
pub mod Laws
pub mod Parsed
pub mod Named
pub mod Containing
pub mod Loading
pub mod Sorted
pub mod Text
use click_doom.Base.{
  ℕ, zero, suc, ◌+◌, ◌-◌, ◌%◌, ◌^◌, Bool, true, false, ◌&&◌, ◌||◌, Option, none, some, List, [],
  ◌∷◌, ◌++◌, ltb, leb, ◌==◌, if◌then◌else◌, min, length, take, Outcome, ok, err, panic,
}
use click_doom.Word.{wrapping_sub}
use click_doom.Memory.{Memory, LoadError, load_image}
use click_doom.Exec.{Cpu}
use Prim.Native.String.{String}

pub data ImageError : Type 0 where
  truncated : ℕ → String → ImageError
  not_elf : ImageError
  wrong_class : ImageError
  wrong_machine : ℕ → ImageError
  no_segments : ImageError
  segment_too_long : ℕ → ℕ → ℕ → ImageError
  segment_wraps : ℕ → ℕ → ImageError

pub record Segment : Type 0 where
  pub vaddr : ℕ
  pub bytes : List ℕ
  pub mem_len : ℕ
  pub executable : Bool

pub data SymbolKind : Type 0 where
  function : SymbolKind
  object : SymbolKind
  untyped : SymbolKind

pub record Symbol : Type 0 where
  pub addr : ℕ
  pub size : ℕ
  pub name : List ℕ
  pub kind : SymbolKind

pub record Image : Type 0 where
  pub entry : ℕ
  pub segments : List Segment
  pub symbols : List Symbol

unfoldable pub flat : List ℕ → ℕ → Image
flat bytes load_addr = record {
  entry = load_addr;
  segments =
      record {
        vaddr = load_addr;
        bytes = bytes;
        mem_len = length bytes % 2 ^ 32;
        executable = true;
      }
      ∷ [];
  symbols = [];
}

abbrev pub bytes_eq : List ℕ → List ℕ → Bool
bytes_eq [] [] = true
bytes_eq [] (y ∷ ys) = false
bytes_eq (x ∷ xs) [] = false
bytes_eq (x ∷ xs) (y ∷ ys) = let rest = bytes_eq xs ys in x == y && rest

abbrev pub elf_magic : List ℕ
elf_magic = 0x7F ∷ b'E' ∷ b'L' ∷ b'F' ∷ []

unfoldable pub looks_like_elf : List ℕ → Bool
looks_like_elf bytes = leb 4 (length bytes) && bytes_eq (take 4 bytes) elf_magic

-- `saturating_add` of `u32`.
abbrev pub saturating_add : ℕ → ℕ → ℕ
saturating_add a b = min (a + b) (2 ^ 32 - 1)

abbrev pub max : ℕ → ℕ → ℕ
max a b = if ltb a b then b else a

abbrev pub segment_end : Segment → ℕ
segment_end s = saturating_add s.vaddr s.mem_len

abbrev pub widen : Segment → Option (ℕ × ℕ) → Option (ℕ × ℕ)
widen s none = some (s.vaddr, segment_end s)
widen s (some (lo, hi)) = some (min lo s.vaddr, max hi (segment_end s))

abbrev pub text_bounds : Option (ℕ × ℕ) → List Segment → Option (ℕ × ℕ)
text_bounds bounds [] = bounds
text_bounds bounds (s ∷ rest) = text_bounds (if s.executable then widen s bounds else bounds) rest

abbrev pub nonempty : Option (ℕ × ℕ) → Option (ℕ × ℕ)
nonempty none = none
nonempty (some (lo, hi)) = if ltb lo hi then some (lo, hi) else none

unfoldable pub text_region : Image → Option (ℕ × ℕ)
text_region image = nonempty (text_bounds none image.segments)

abbrev pub named_in : List ℕ → List Symbol → Option Symbol
named_in name [] = none
named_in name (s ∷ rest) =
    let later = named_in name rest in if bytes_eq s.name name then some s else later

unfoldable pub symbol : Image → List ℕ → Option Symbol
symbol image name = named_in name image.symbols

abbrev pub is_function : SymbolKind → Bool
is_function function = true
is_function object = false
is_function untyped = false

abbrev pub only_functions : List Symbol → List Symbol
only_functions [] = []
only_functions (s ∷ rest) =
    let later = only_functions rest in if is_function s.kind then s ∷ later else later

unfoldable pub functions : Image → List Symbol
functions image = only_functions image.symbols

-- `partition_point`, which the standard library defines for a table that the test partitions, as the
-- loader's sorted table is: the run at the start with `addr` or less.
abbrev pub up_to : ℕ → List Symbol → List Symbol
up_to addr [] = []
up_to addr (s ∷ rest) = let later = up_to addr rest in if leb s.addr addr then s ∷ later else []

-- `rev().find`.
abbrev pub later_or : Option Symbol → Option Symbol → Option Symbol
later_or none x = x
later_or (some s) x = some s

abbrev pub last_function : List Symbol → Option Symbol
last_function [] = none
last_function (s ∷ rest) =
    later_or (last_function rest) (if is_function s.kind then some s else none)

abbrev pub covering : ℕ → Option Symbol → Option Symbol
covering addr none = none
covering addr (some s) = if ltb (wrapping_sub addr s.addr) s.size then some s else none

unfoldable pub function_containing : List Symbol → ℕ → Option Symbol
function_containing symbols addr = covering addr (last_function (up_to addr symbols))

-- `Cpu::load` of refemu/src/exec.rs: a segment, then the zeros of its tail. The subtraction and the
-- address of the tail panic where they leave their types.
abbrev pub Loaded : Type 0
Loaded = Outcome LoadError (Unit {0}) × Memory

abbrev pub zeros : ℕ → List ℕ
zeros zero = []
zeros (suc n) = 0 ∷ zeros n

abbrev pub load_tail : Segment → Loaded → Loaded
load_tail s (err e, m) = (err e, m)
load_tail s (panic, m) = (panic, m)
load_tail s (ok u, m) =
    let tail = s.mem_len - length s.bytes in
    let at = s.vaddr + length s.bytes % 2 ^ 32 in
    if ltb s.mem_len (length s.bytes)
    then (panic, m)
    else if tail == 0
    then (ok tt, m)
    else if ltb at (2 ^ 32)
    then load_image m (zeros tail) at
    else (panic, m)

unfoldable pub load_segment : Memory → Segment → Loaded
load_segment m s = load_tail s (load_image m s.bytes s.vaddr)

abbrev pub load_next : (Memory → Loaded) → Loaded → Loaded
load_next rest (ok u, m) = rest m
load_next rest (err e, m) = (err e, m)
load_next rest (panic, m) = (panic, m)

unfoldable pub load_segments : List Segment → Memory → Loaded
load_segments [] m = (ok tt, m)
load_segments (s ∷ rest) m = load_next (load_segments rest) (load_segment m s)

abbrev pub start_at : ℕ → Cpu → Loaded → Outcome LoadError (Unit {0}) × Cpu
start_at entry c (ok u, m) = (ok tt, record c { memory = m; cache = none; pc = entry })
start_at entry c (err e, m) = (err e, record c { memory = m; cache = none })
start_at entry c (panic, m) = (panic, record c { memory = m; cache = none })

unfoldable pub load : Cpu → Image → Outcome LoadError (Unit {0}) × Cpu
load c image = start_at image.entry c (load_segments image.segments c.memory)
