-- ===== src/Exec/Halted.antt =====
-- `Halt` of refemu/src/exec.rs: why the machine stopped, and what the record carries.
use click_doom.Base.{ℕ, Option, none, some}
use click_doom.Spec.Halt.{HaltReason}

pub record Halt : Type 0 where
  pub reason : HaltReason
  pub pc : ℕ
  pub insn : Option ℕ
  pub addr : Option ℕ
  pub exit_code : Option ℕ

abbrev pub new : HaltReason → ℕ → Halt
new reason pc = record { reason = reason; pc = pc; insn = none; addr = none; exit_code = none }

abbrev pub with_insn : HaltReason → ℕ → ℕ → Halt
with_insn reason pc insn = record (new reason pc) { insn = some insn }

abbrev pub at : HaltReason → ℕ → ℕ → ℕ → Halt
at reason pc insn addr = record (new reason pc) { insn = some insn; addr = some addr }

abbrev pub on_fetch : HaltReason → ℕ → ℕ → Halt
on_fetch reason pc addr = record (new reason pc) { addr = some addr }

abbrev pub exit_with : ℕ → ℕ → ℕ → Halt
exit_with pc insn code = record (new HaltReason.exit pc) { insn = some insn; exit_code = some code }
