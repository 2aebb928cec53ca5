-- ===== src/Mmio.antt =====
-- refemu/src/mmio.rs: the device window, as registers or as plain bytes.
-- A `VecDeque` is a list, front first, and a `Vec` a list in order. A method that takes `&mut self`
-- returns the new state beside its result. `panic` is an index out of bounds or a division by zero.
pub mod Laws
pub mod Queue
use click_doom.Base.{
  ℕ, zero, suc, ◌+◌, ◌-◌, ◌*◌, ◌/◌, ◌%◌, ◌^◌, Bool, Option, none, some, List, [], ◌∷◌, ◌++◌, bit_or,
  ltb, ◌==◌, if◌then◌else◌, length, get_elem?, set, replicate, Outcome, ok, err, panic,
}
use click_doom.Word.{◌<<<◌, ◌>>>◌}
use click_doom.Spec.Map.{ticks_ms, keyq, exit, putchar, frame_commit, key_event}

pub record FrameCommit : Type 0 where
  pub frame_no : ℕ
  pub commit_icount : ℕ

abbrev pub retired_icount : FrameCommit → ℕ
retired_icount f = f.commit_icount + 1

pub record MmioExit : Type 0 where
  pub code : ℕ

pub record KeyEvent : Type 0 where
  pub pressed : Bool
  pub doomkey : ℕ

pub record Registers : Type 0 where
  pub ipms : ℕ
  pub key_queue : List KeyEvent
  pub console : List ℕ
  pub frame_commits : List FrameCommit

-- `Registers::new`, whose assertion is that `ipms` is not 0; `none` is its failure.
unfoldable pub new_registers : ℕ → Option Registers
new_registers ipms =
    if ipms == 0
    then none
    else some (record { ipms = ipms; key_queue = []; console = []; frame_commits = [] })

unfoldable pub push_key : Registers → Bool → ℕ → Registers
push_key r pressed doomkey = record r {
  key_queue = r.key_queue ++ record { pressed = pressed; doomkey = doomkey } ∷ [];
}

-- `TICKS_MS`; the cast keeps the low 32 bits.
abbrev pub ticks : Registers → ℕ → Outcome MmioExit ℕ
ticks r icount = if r.ipms == 0 then panic else ok (icount / r.ipms % 2 ^ 32)

-- `KEYQ`: pops the front event, by the queue's own cases.
abbrev pub pop_key : Registers → List KeyEvent → Outcome MmioExit ℕ × Registers
pop_key r [] = (ok 0, r)
pop_key r (e ∷ rest) = (ok (key_event e.pressed e.doomkey), record r { key_queue = rest })

unfoldable pub read_register : Registers → ℕ → ℕ → ℕ → Outcome MmioExit ℕ × Registers
read_register r offset width icount =
    if width == 4
    then if offset == ticks_ms
      then (ticks r icount, r)
      else if offset == keyq
      then pop_key r r.key_queue
      else (ok 0, r)
    else (ok 0, r)

unfoldable pub write_register : Registers → ℕ → ℕ → ℕ → ℕ → Outcome MmioExit (Unit {0}) × Registers
write_register r offset width value icount =
    if width == 4
    then if offset == exit
      then (err (record { code = value }), r)
      else if offset == putchar
      then (ok tt, record r { console = r.console ++ (value % 2 ^ 8) ∷ [] })
      else if offset == frame_commit
      then (
        ok tt,
        record r {
          frame_commits =
              r.frame_commits ++ record { frame_no = value; commit_icount = icount } ∷ [];
        },
      )
      else (ok tt, r)
    else (ok tt, r)

-- `ByteWindow` is its bytes.
unfoldable pub new_window : ℕ → List ℕ
new_window size = replicate size 0

-- The loop of `ByteWindow::read` at index `i`, with `left` rounds to go; `none` is a panic.
unfoldable pub window_read : List ℕ → ℕ → ℕ → ℕ → ℕ → Option ℕ
window_read bytes at i zero value = some value
window_read bytes at i (suc left) value = elim (get_elem? bytes (at + i)) [
  | none ↦ none
  | some b ↦ window_read bytes at (i + 1) left (bit_or value (b <<< (8 * i)))
]

-- The loop of `ByteWindow::write`, in the same way.
unfoldable pub window_write : List ℕ → ℕ → ℕ → ℕ → ℕ → Option (List ℕ)
window_write bytes at i zero value = some bytes
window_write bytes at i (suc left) value =
    let rest =
      window_write (set bytes (at + i) ((value >>> (8 * i)) % 2 ^ 8)) at (i + 1) left value in
    if ltb (at + i) (length bytes) then rest else none

pub data Devices : Type 0 where
  registers : Registers → Devices
  bytes : List ℕ → Devices

-- An `Option` of a loop that may panic, as a result.
abbrev pub or_panic {ℓ κ} : {E : Type ℓ} {A : Type κ} → Option A → Outcome E A
or_panic none = panic
or_panic (some a) = ok a

abbrev pub wrote_window : List ℕ → Option (List ℕ) → Outcome MmioExit (Unit {0}) × Devices
wrote_window b none = (panic, bytes b)
wrote_window b (some b') = (ok tt, bytes b')

unfoldable pub read_device : Devices → ℕ → ℕ → ℕ → Outcome MmioExit ℕ × Devices
unfolding read_register window_read
read_device (registers r) offset width icount =
    let (result, r') = read_register r offset width icount in (result, registers r')
read_device (bytes b) offset width icount = (or_panic (window_read b offset 0 width 0), bytes b)

unfoldable pub write_device : Devices → ℕ → ℕ → ℕ → ℕ → Outcome MmioExit (Unit {0}) × Devices
unfolding write_register window_write
write_device (registers r) offset width value icount =
    let (result, r') = write_register r offset width value icount in (result, registers r')
write_device (bytes b) offset width value icount =
    wrote_window b (window_write b offset 0 width value)
