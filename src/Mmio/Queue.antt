-- ===== src/Mmio/Queue.antt =====
-- The key queue: what is pushed is popped in the same order.
use click_doom.Base.{
  ℕ, zero, suc, ◌≡◌, ◌∙◌, refl, sym, ap, List, [], ◌∷◌, ◌++◌, map, length, append-nil, snoc-append,
  Outcome, ok,
}
use click_doom.Spec.Map.{key_event, keyq}
use click_doom.Mmio.{KeyEvent, MmioExit, Registers, push_key, read_register}

-- Several events pushed, and the key register read several times, at one count.
unfoldable pub push_all : Registers → List KeyEvent → Registers
push_all r [] = r
push_all r (e ∷ es) = push_all (push_key r e.pressed e.doomkey) es

unfoldable pub pops : ℕ → ℕ → Registers → List (Outcome MmioExit ℕ) × Registers
pops icount zero r = ([], r)
pops icount (suc n) r =
    let (value, r') = read_register r keyq 4 icount in
    let (values, last) = pops icount n r' in (value ∷ values, last)

abbrev pub popped : KeyEvent → Outcome MmioExit ℕ
popped e = ok (key_event e.pressed e.doomkey)

push_all-queue :
    (r : Registers) (es : List KeyEvent)
    → push_all r es ≡ record r { key_queue = r.key_queue ++ es }
unfolding push_all push_key
push_all-queue r [] = ap (λ q. record r { key_queue = q }) (sym (append-nil r.key_queue))
push_all-queue r (e ∷ es) =
    push_all-queue (push_key r e.pressed e.doomkey) es
    ∙ ap (λ q. record r { key_queue = q }) (snoc-append r.key_queue e es)

pops-queue :
    (icount : ℕ) (r : Registers) (q : List KeyEvent)
    → pops icount (length q) (record r { key_queue = q })
      ≡ (map popped q, record r { key_queue = [] })
unfolding pops read_register
pops-queue icount r [] = refl
pops-queue icount r (e ∷ q) =
    ap (λ (p : List (Outcome MmioExit ℕ) × Registers). (popped e ∷ p.0, p.1))
      (pops-queue icount r q)

-- Events pushed to an empty queue are read from the key register in the same order, one a read,
-- whatever the count, and leave the registers as they were.
pub pops-push_all :
    (icount : ℕ) (r : Registers) (es : List KeyEvent)
    → r.key_queue ≡ []
    → pops icount (length es) (push_all r es) ≡ (map popped es, r)
pops-push_all icount r es empty =
    ap (pops icount (length es))
      (push_all-queue r es ∙ ap (λ q. record r { key_queue = q ++ es }) empty)
    ∙ pops-queue icount r es
    ∙ ap (λ q. (map popped es, record r { key_queue = q })) (sym empty)
