-- ===== src/Mmio/Laws.antt =====
-- The device window keeps its invariant, and no access inside it panics.
use click_doom.Base.{
  ℕ, zero, suc, ◌+◌, ◌*◌, ◌%◌, ◌^◌, ◌≤◌, ◌<◌, ◌≡◌, ◌≢◌, ◌∙◌, refl, lt→ltb, ==_iff, if_both, subst,
  Returns, Bool, some, List, [], ◌∷◌, arith, bit_or, ◌==◌, length, set, All, All-set, length-set,
  get_elem?-lt, Outcome, ok, err, panic,
}
use click_doom.Spec.Map.{key_event, ticks_ms, keyq, exit, putchar, frame_commit}
use click_doom.Word.{◌<<<◌, ◌>>>◌}
use click_doom.Word.Bits.{bit_or-lt}
use click_doom.Mmio.{
  KeyEvent, Registers, MmioExit, Devices, registers, bytes, ticks, pop_key, read_register,
  write_register, window_read, window_write, read_device, write_device,
}

abbrev pub IsKeyEvent : KeyEvent → Type 0
IsKeyEvent e = e.doomkey < 256

-- `ipms` is not 0, as `Registers::new` asserts, and a key code is a `u8`; a byte window has the
-- window's size.
abbrev pub IsValid : ℕ → Devices → Type 0
IsValid size (registers r) = (r.ipms ≢ 0) × All IsKeyEvent r.key_queue
IsValid size (bytes b) = (length b ≡ size) × All (λ x. x < 256) b

-- A result that does not panic, and whose value is a `u32`.
abbrev pub ReturnsU32 {ℓ} : {E : Type ℓ} → Outcome E ℕ → Type 0
ReturnsU32 (ok v) = v < 2 ^ 32
ReturnsU32 (err e) = Unit
ReturnsU32 panic = ⊥

window_read-IsU32 :
    (b : List ℕ) (at i left v : ℕ)
    → at + i + left ≤ length b
    → v < 2 ^ 32
    → (r : ℕ) × (window_read b at i left v ≡ some r) × (r < 2 ^ 32)
unfolding window_read
window_read-IsU32 b at i zero v h k = (v, refl, k)
window_read-IsU32 b at i (suc left) v h k =
    let (x, e) = get_elem?-lt b (at + i) (omega arith) in
    rw (e, window_read)
      (window_read-IsU32 b at (i + 1) left (bit_or v (x <<< (8 * i))) (omega arith)
        (bit_or-lt 32 v (x <<< (8 * i)) k (omega arith)))

window_write-IsValid :
    (b : List ℕ) (at i left v : ℕ)
    → at + i + left ≤ length b
    → All (λ x. x < 256) b
    → (r : List ℕ) × (window_write b at i left v ≡ some r)
      × (length r ≡ length b)
      × All (λ x. x < 256) r
unfolding window_write
window_write-IsValid b at i zero v h k = (b, refl, refl, k)
window_write-IsValid b at i (suc left) v h k =
    let (r, e, n, a) =
      window_write-IsValid (set b (at + i) ((v >>> (8 * i)) % 2 ^ 8)) at (i + 1) left v
        (omega (arith, length-set b (at + i) ((v >>> (8 * i)) % 2 ^ 8)))
        (All-set (λ x. x < 256) b (at + i) _ k (omega arith)) in
    (r, rw (lt→ltb (at + i) (length b) (omega arith)) e, n ∙ length-set b (at + i) _, a)

key_event-lt : (pressed : Bool) (doomkey : ℕ) → doomkey < 256 → key_event pressed doomkey < 2 ^ 32
key_event-lt pressed doomkey h = bit_or-lt 32 _ doomkey (omega arith) (omega arith)

-- What an access to registers gives: a `u32` and registers that keep their invariant.
abbrev RegisterRead : Outcome MmioExit ℕ × Registers → Type 0
RegisterRead p = ReturnsU32 p.0 × IsValid 0 (registers p.1)

pop_key-IsValid :
    (r : Registers) (queue : List KeyEvent)
    → r.key_queue ≡ queue
    → IsValid 0 (registers r)
    → RegisterRead (pop_key r queue)
pop_key-IsValid r [] e h = (omega arith, h)
pop_key-IsValid r (event ∷ rest) e h =
    let all : All IsKeyEvent (event ∷ rest) = subst (All IsKeyEvent) e h.1 in
    (key_event-lt event.pressed event.doomkey all.0, (h.0, all.1))

read_register-IsValid :
    (r : Registers) (offset width icount : ℕ)
    → IsValid 0 (registers r)
    → RegisterRead (read_register r offset width icount)
unfolding read_register
read_register-IsValid r offset width icount h =
    if_both RegisterRead (width == 4)
      (λ _.
        if_both RegisterRead (offset == ticks_ms) (λ _. (ticks-IsU32, h))
          (λ _.
            if_both RegisterRead (offset == keyq) (λ _. pop_key-IsValid r r.key_queue refl h)
              (λ _. (omega arith, h))))
      (λ _. (omega arith, h))
  where
    ticks-IsU32 : ReturnsU32 (ticks r icount)
    ticks-IsU32 =
        if_both ReturnsU32 (r.ipms == 0) (λ e. absurd (h.0 ((==_iff r.ipms 0).0 e)))
          (λ _. omega arith)

-- A read inside the window gives a `u32` and does not panic, and the window keeps its invariant.
pub read_device-IsValid :
    (d : Devices) (size offset width icount : ℕ)
    → IsValid size d
    → offset + width ≤ size
    → ReturnsU32 (read_device d offset width icount).0
      × IsValid size (read_device d offset width icount).1
unfolding read_device
read_device-IsValid (registers r) size offset width icount h k =
    read_register-IsValid r offset width icount h
read_device-IsValid (bytes b) size offset width icount h k =
    let (v, e, bound) = window_read-IsU32 b offset 0 width 0 (omega arith) (omega arith) in
    (rw e bound, h)

abbrev RegisterWrite : Outcome MmioExit (Unit {0}) × Registers → Type 0
RegisterWrite p = Returns p.0 × IsValid 0 (registers p.1)

write_register-IsValid :
    (r : Registers) (offset width value icount : ℕ)
    → IsValid 0 (registers r)
    → RegisterWrite (write_register r offset width value icount)
unfolding write_register
write_register-IsValid r offset width value icount h =
    if_both RegisterWrite (width == 4)
      (λ _.
        if_both RegisterWrite (offset == exit) (λ _. (tt, h))
          (λ _.
            if_both RegisterWrite (offset == putchar) (λ _. (tt, h))
              (λ _. if_both RegisterWrite (offset == frame_commit) (λ _. (tt, h)) (λ _. (tt, h)))))
      (λ _. (tt, h))

-- A write inside the window does not panic, and the window keeps its invariant.
pub write_device-IsValid :
    (d : Devices) (size offset width value icount : ℕ)
    → IsValid size d
    → offset + width ≤ size
    → Returns (write_device d offset width value icount).0
      × IsValid size (write_device d offset width value icount).1
unfolding write_device
write_device-IsValid (registers r) size offset width value icount h k =
    write_register-IsValid r offset width value icount h
write_device-IsValid (bytes b) size offset width value icount h k =
    let (r, e, n, a) = window_write-IsValid b offset 0 width value (omega arith) h.1 in
    rw e (tt, (n ∙ h.0, a))

-- A device that refuses a write reports the written value, and it is unchanged.
pub write_device-err :
    (d : Devices) (offset width value icount : ℕ) (e : MmioExit)
    → (write_device d offset width value icount).0 ≡ err e
    → (e.code ≡ value) × ((write_device d offset width value icount).1 ≡ d)
unfolding write_device
write_device-err (registers r) offset width value icount e h = ground arith
write_device-err (bytes b) offset width value icount e h = ground arith
