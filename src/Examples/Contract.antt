-- ===== src/Examples/Contract.antt =====
-- The cadence of a trace and the spellings of the halt reasons.
use click_doom.Base.{◌-◌, ◌^◌, ℕ, ◌<◌, ◌≡◌, ◌↔◌, refl, some, true, false, ok, arith}
use click_doom.Spec.Line as Line
use click_doom.Spec.Line.{display}
use click_doom.Spec.Line.Laws.{from_str-display}
use click_doom.Spec.Checkpoint.{
  registers_only, with_memory, TraceConfig, validate, is_checkpoint, next_checkpoint_after,
}
use click_doom.Spec.Checkpoint.Laws.{next_checkpoint_after_lem}
use click_doom.Spec.Halt.{HaltReason, as_str, from_str, from_str_iff}

abbrev cadence : TraceConfig
cadence = record { checkpoint_interval = 4; ram_hash_interval = 12 }

cadence-validate : validate cadence ≡ ok tt
unfolding validate
cadence-validate = refl

next_checkpoint_after_lem_example :
    (next : ℕ) × (next_checkpoint_after cadence 8 ≡ some next)
    × (8 < next)
    × (is_checkpoint cadence next ≡ true)
    × ((m : ℕ) → 8 < m → m < next → is_checkpoint cadence m ≡ false)
next_checkpoint_after_lem_example =
    next_checkpoint_after_lem cadence 8 cadence-validate (omega arith)

from_str_iff_example :
    (from_str "ecall" ≡ some HaltReason.ecall) ↔ (as_str HaltReason.ecall ≡ "ecall")
from_str_iff_example = from_str_iff "ecall" HaltReason.ecall

from_str-display_example :
    (Line.from_str (display (registers_only 1000 0x80000000 255))
      ≡ ok (registers_only 1000 0x80000000 255))
    × (Line.from_str (display (with_memory 1000 0x80000000 255 7 (2 ^ 64 - 1)))
        ≡ ok (with_memory 1000 0x80000000 255 7 (2 ^ 64 - 1)))
from_str-display_example =
    from_str-display 1000 0x80000000 255 7 (2 ^ 64 - 1) (omega arith) (omega arith) (omega arith)
      (omega arith) (omega arith)
