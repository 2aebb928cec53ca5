-- ===== src/Memory/Same.antt =====
-- What every access leaves alone: the map, the text region, and for a read the stored bytes.
use click_doom.Base.{
  ◌⊎◌, inl, inr, ℕ, ◌≡◌, refl, ap, ◌≢◌, List, [], ◌∷◌, Option, none, some, ◌==◌, Outcome, ok, err,
  panic, if_both,
}
use click_doom.Spec.Map.{Region, ram, mmio, framebuffer, palette, classify, ticks_ms, keyq}
use click_doom.Mmio.{
  MmioExit, Devices, registers, bytes, Registers, KeyEvent, pop_key, read_device, or_panic,
}
use click_doom.Mmio.Laws.{write_device-err}
use click_doom.Memory.{Memory, MemFault, in_text}
use click_doom.Memory.Access.{
  read, write, read_classified, write_classified, write_mmio, write_ram, write_framebuffer,
  write_palette, read_cases, write_cases, of_device,
}

-- The map and the text region of a memory are those of another.
abbrev pub SameMap : Memory → Memory → Type 0
SameMap m m' = (m'.map ≡ m.map) × (m'.text ≡ m.text)

-- A read changes nothing but the state of the device window.
abbrev pub SameStored : Memory → Memory → Type 0
SameStored m m' = m' ≡ record m { devices = m'.devices }

pub read-SameStored :
    (m : Memory) (addr width icount : ℕ) → SameStored m (read m addr width icount).1
read-SameStored m addr width icount =
    read_cases (λ p. SameStored m p.1) m addr width icount refl classified
  where
    classified :
        (c : Option (Region × ℕ))
        → classify m.map addr width ≡ c
        → SameStored m (read_classified m addr width icount c).1
    classified none e = refl
    classified (some (ram, offset)) e = refl
    classified (some (mmio, offset)) e = refl
    classified (some (framebuffer, offset)) e = refl
    classified (some (palette, offset)) e = refl

-- A read changes nothing, unless the address is in the device window.
pub read-plain :
    (m : Memory) (addr width icount : ℕ)
    → ((read m addr width icount).1 ≡ m)
      ⊎ ((offset : ℕ) × (classify m.map addr width ≡ some (mmio, offset)))
read-plain m addr width icount =
    read_cases (λ p. (p.1 ≡ m) ⊎ ((offset : ℕ) × (classify m.map addr width ≡ some (mmio, offset))))
      m addr width icount (inl refl) classified
  where
    classified :
        (c : Option (Region × ℕ))
        → classify m.map addr width ≡ c
        → ((read_classified m addr width icount c).1 ≡ m)
          ⊎ ((offset : ℕ) × (classify m.map addr width ≡ some (mmio, offset)))
    classified none e = inl refl
    classified (some (ram, offset)) e = inl refl
    classified (some (mmio, offset)) e = inr (offset, e)
    classified (some (framebuffer, offset)) e = inl refl
    classified (some (palette, offset)) e = inl refl

module _ (m : Memory) (addr width value icount : ℕ) where
  abbrev Kept : Outcome MemFault (Unit {0}) × Memory → Type 0
  Kept p = SameMap m p.1

  Kept-ram : (offset : ℕ) (o : Option (List ℕ)) → Kept (write_ram m offset width o)
  Kept-ram offset none = (refl, refl)
  Kept-ram offset (some b) = (refl, refl)

  Kept-framebuffer : (offset : ℕ) (o : Option (List ℕ)) → Kept (write_framebuffer m offset width o)
  Kept-framebuffer offset none = (refl, refl)
  Kept-framebuffer offset (some b) = (refl, refl)

  Kept-palette : (offset : ℕ) (o : Option (List ℕ)) → Kept (write_palette m offset width o)
  Kept-palette offset none = (refl, refl)
  Kept-palette offset (some b) = (refl, refl)

  Kept-mmio :
      (offset : ℕ) (r : Outcome MmioExit (Unit {0})) (d : Devices)
      → Kept (write_mmio m offset width r d)
  Kept-mmio offset (ok u) d = (refl, refl)
  Kept-mmio offset (err e) d = (refl, refl)
  Kept-mmio offset panic d = (refl, refl)

  pub write-SameMap : SameMap m (write m addr width value icount).1
  write-SameMap = write_cases Kept m addr width value icount (refl, refl) classified
    where
      classified :
          (c : Option (Region × ℕ))
          → classify m.map addr width ≡ c
          → Kept (write_classified m addr width value icount c)
      classified none e = (refl, refl)
      classified (some (ram, offset)) e =
          if_both Kept (in_text m.text addr width) (λ _. (refl, refl)) (λ _. Kept-ram offset _)
      classified (some (mmio, offset)) e = Kept-mmio offset _ _
      classified (some (framebuffer, offset)) e =
          if_both Kept (width == 4) (λ _. Kept-framebuffer offset _) (λ _. (refl, refl))
      classified (some (palette, offset)) e =
          if_both Kept (width == 4) (λ _. Kept-palette offset _) (λ _. (refl, refl))

  -- A store that faults leaves the memory as it was.
  abbrev Unchanged : Outcome MemFault (Unit {0}) × Memory → Type 0
  Unchanged p = (f : MemFault) → p.0 ≡ err f → p.1 ≡ m

  Unchanged-mmio :
      (offset : ℕ) (r : Outcome MmioExit (Unit {0})) (d : Devices)
      → ((e : MmioExit) → r ≡ err e → d ≡ m.devices)
      → Unchanged (write_mmio m offset width r d)
  Unchanged-mmio offset (ok u) d same f h = absurd (cc h)
  Unchanged-mmio offset (err e) d same f h = ap (λ d'. record m { devices = d' }) (same e refl)
  Unchanged-mmio offset panic d same f h = absurd (cc h)

  Unchanged-ram : (offset : ℕ) (o : Option (List ℕ)) → Unchanged (write_ram m offset width o)
  Unchanged-ram offset none f h = refl
  Unchanged-ram offset (some b) f h = absurd (cc h)

  Unchanged-framebuffer :
      (offset : ℕ) (o : Option (List ℕ)) → Unchanged (write_framebuffer m offset width o)
  Unchanged-framebuffer offset none f h = refl
  Unchanged-framebuffer offset (some b) f h = absurd (cc h)

  Unchanged-palette :
      (offset : ℕ) (o : Option (List ℕ)) → Unchanged (write_palette m offset width o)
  Unchanged-palette offset none f h = refl
  Unchanged-palette offset (some b) f h = absurd (cc h)

  -- A store that faults leaves the memory as it was, the device window and the watch included.
  pub write-err :
      (f : MemFault)
      → (write m addr width value icount).0 ≡ err f
      → (write m addr width value icount).1 ≡ m
  write-err = write_cases Unchanged m addr width value icount (λ f h. refl) classified
    where
      classified :
          (c : Option (Region × ℕ))
          → classify m.map addr width ≡ c
          → Unchanged (write_classified m addr width value icount c)
      classified none e = λ f h. refl
      classified (some (ram, offset)) e =
          if_both Unchanged (in_text m.text addr width) (λ _ f h. refl)
            (λ _. Unchanged-ram offset _)
      classified (some (mmio, offset)) e =
          Unchanged-mmio offset _ _
            (λ x h. (write_device-err m.devices offset width value icount x h).1)
      classified (some (framebuffer, offset)) e =
          if_both Unchanged (width == 4) (λ _. Unchanged-framebuffer offset _) (λ _ f h. refl)
      classified (some (palette, offset)) e =
          if_both Unchanged (width == 4) (λ _. Unchanged-palette offset _) (λ _ f h. refl)

-- A device never refuses a read.
NeverErr : Outcome MmioExit ℕ → Type 0
NeverErr r = (e : MmioExit) → r ≢ err e

pop_key-NeverErr : (r : Registers) (q : List KeyEvent) → NeverErr (pop_key r q).0
unfolding NeverErr
pop_key-NeverErr r [] e h = cc h
pop_key-NeverErr r (k ∷ q) e h = cc h

read_device-NeverErr :
    (d : Devices) (offset width icount : ℕ) → NeverErr (read_device d offset width icount).0
unfolding read_device NeverErr
read_device-NeverErr (registers r) offset width icount =
    if_both P (width == 4)
      (λ _.
        if_both P (offset == ticks_ms)
          (λ _.
            if_both (λ o. (e : MmioExit) → o ≢ err e) (r.ipms == 0) (λ _ e h. cc h) (λ _ e h. cc h))
          (λ _.
            if_both P (offset == keyq) (λ _. unfold NeverErr in pop_key-NeverErr r r.key_queue)
              (λ _ e h. cc h)))
      (λ _ e h. cc h)
  where
    P : Outcome MmioExit ℕ × Registers → Type 0
    P p = (e : MmioExit) → p.0 ≢ err e
read_device-NeverErr (bytes b) offset width icount = or_panic-NeverErr _
  where
    or_panic-NeverErr : (o : Option ℕ) (e : MmioExit) → or_panic o ≢ err e
    or_panic-NeverErr none e h = cc h
    or_panic-NeverErr (some v) e h = cc h

-- A read that faults leaves the memory as it was, so it pops no key event.
pub read-err :
    (m : Memory) (addr width icount : ℕ) (f : MemFault)
    → (read m addr width icount).0 ≡ err f
    → (read m addr width icount).1 ≡ m
read-err m addr width icount =
    read_cases (λ p. (f : MemFault) → p.0 ≡ err f → p.1 ≡ m) m addr width icount (λ f h. refl)
      classified
  where
    from_device :
        (o : Outcome MmioExit ℕ) (d : Devices)
        → ((e : MmioExit) → o ≢ err e)
        → (f : MemFault) → of_device o ≡ err f
        → record m { devices = d } ≡ m
    from_device (ok v) d never f h = absurd (cc h)
    from_device (err e) d never f h = absurd (never e refl)
    from_device panic d never f h = absurd (cc h)

    classified :
        (c : Option (Region × ℕ))
        → classify m.map addr width ≡ c
        → (f : MemFault) → (read_classified m addr width icount c).0 ≡ err f
        → (read_classified m addr width icount c).1 ≡ m
    classified none e = λ f h. refl
    classified (some (ram, offset)) e = λ f h. refl
    classified (some (mmio, offset)) e =
        from_device _ _ (unfold NeverErr in read_device-NeverErr m.devices offset width icount)
    classified (some (framebuffer, offset)) e = λ f h. refl
    classified (some (palette, offset)) e = λ f h. refl
