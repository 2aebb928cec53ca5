-- ===== src/Memory/Laws.antt =====
-- What `Memory::read` and `Memory::write` promise each other: a store is read back, leaves every
-- other byte alone, and cannot reach the text region.
use click_doom.Base.{
  ℕ, ◌+◌, ◌-◌, ◌*◌, ◌%◌, ◌^◌, ◌≤◌, ◌≡◌, ◌≢◌, ◌⊎◌, inl, inr, refl, sym, ◌∙◌, ap, subst, Bool, true,
  false, some, List, arith, ◌==◌, if◌then◌else◌, if_both, take, drop, length, Outcome, ok, err,
}
use click_doom.Spec.Map.{Region, ram, mmio, framebuffer, palette, bounds, classify}
use click_doom.Spec.Map.Laws.{classify-Holds}
use click_doom.Mmio.{or_panic}
use click_doom.Memory.{Memory, MemFault, misaligned, is_misaligned, in_text, overwrite, read_le}
use click_doom.Memory.Access.{read, write, read_classified, write_region}
use click_doom.Memory.Bytes.{
  IsWidth, IsWidth-le, stored, length-stored, write_le-some, read_le-overwrite,
  read_le-overwrite_self,
}
use click_doom.Memory.Slices.{take-drop-overwrite, drop-overwrite}
use click_doom.Memory.Valid.{IsValid}
use click_doom.Memory.Frame.{stored_bytes, Stores, kept, put, write-Stores}
use click_doom.Memory.Same.{write-SameMap}

-- A read of a stored region depends on the bytes of that region only.
abbrev read_bytes : List ℕ → ℕ → ℕ → ℕ → Outcome MemFault ℕ
read_bytes bytes offset addr width =
    if is_misaligned addr width
    then err (misaligned addr width)
    else or_panic (read_le bytes offset width)

if_fst {ℓ κ} :
    {A : Type ℓ} {B : Type κ} (b : Bool) (x y : A × B)
    → (if b then x else y).0 ≡ (if b then x.0 else y.0)
if_fst true x y = refl
if_fst false x y = refl

read-read_bytes :
    (m : Memory) (addr width icount : ℕ) (region : Region) (offset : ℕ)
    → region ≢ mmio
    → classify m.map addr width ≡ some (region, offset)
    → (read m addr width icount).0 ≡ read_bytes (stored_bytes m region) offset addr width
unfolding read
read-read_bytes m addr width icount region offset plain e =
    rw e (if_fst (is_misaligned addr width) _ _ ∙ by_region region plain)
  where
    by_region :
        (r : Region)
        → r ≢ mmio
        → (if is_misaligned addr width
            then err (misaligned addr width)
            else (read_classified m addr width icount (some (r, offset))).0)
          ≡ (if is_misaligned addr width
              then err (misaligned addr width)
              else or_panic (read_le (stored_bytes m r) offset width))
    by_region ram h = refl
    by_region mmio h = absurd (h refl)
    by_region framebuffer h = refl
    by_region palette h = refl

module _ (m : Memory) (addr width value icount : ℕ) (valid : IsValid m) (w : IsWidth width) where
  -- The bytes at `at` in RAM that are not among the stored ones.
  bytes-apart :
      (xs : List ℕ) (offset at n : ℕ)
      → (at + n ≤ offset) ⊎ (offset + width ≤ at)
      → take n (drop at (overwrite xs offset (stored width value))) ≡ take n (drop at xs)
  bytes-apart xs offset at n (inl before) =
      take-drop-overwrite xs offset (stored width value) at n before
  bytes-apart xs offset at n (inr after) = ap (take n) (
      drop-overwrite xs offset (stored width value) at
        (omega (arith, after, length-stored width value (IsWidth-le width w))))

  -- Where the text region is declared inside RAM, no store of 1, 2 or 4 bytes changes any byte of
  -- it: every range of bytes in the region is as before, whatever the address, the value and the
  -- outcome of the store.
  pub write-text :
      (start end at n : ℕ)
      → m.text ≡ some (start, end)
      → m.map.ram_base ≤ start
      → start ≤ at
      → at + n ≤ end
      → take n (drop (at - m.map.ram_base) (write m addr width value icount).1.ram_bytes)
        ≡ take n (drop (at - m.map.ram_base) m.ram_bytes)
  write-text start end at n text above from to =
      by_store (write m addr width value icount).1.ram_bytes
        (write-Stores m addr width value icount valid w ram)
    where
      by_store :
          (xs : List ℕ)
          → Stores m addr width value ram xs
          → take n (drop (at - m.map.ram_base) xs) ≡ take n (drop (at - m.map.ram_base) m.ram_bytes)
      by_store xs (kept e) = ap (λ b. take n (drop (at - m.map.ram_base) b)) e
      by_store xs (put offset found outside e) =
          ap (λ b. take n (drop (at - m.map.ram_base) b)) e
          ∙ bytes-apart m.ram_bytes offset (at - m.map.ram_base) n apart
        where
          place : m.map.ram_base + offset ≡ addr
          place = (classify-Holds m.map addr width ram offset found).1

          free : in_text (some (start, end)) addr width ≡ false
          free = subst (λ t. in_text t addr width ≡ false) text (outside refl)

          apart : (at - m.map.ram_base + n ≤ offset) ⊎ (offset + width ≤ at - m.map.ram_base)
          apart = ground (arith, place, free)

  -- After a store of 1, 2 or 4 bytes into a valid memory, a read of any bytes of RAM, the
  -- framebuffer or the palette that do not meet the stored ones returns what it did before.
  pub read-write_apart :
      (b n later : ℕ) (region : Region) (offset : ℕ)
      → region ≢ mmio
      → classify m.map b n ≡ some (region, offset)
      → (b + n ≤ addr) ⊎ (addr + width ≤ b)
      → (read (write m addr width value icount).1 b n later).0 ≡ (read m b n later).0
  read-write_apart b n later region offset plain e apart =
      read-read_bytes (write m addr width value icount).1 b n later region offset plain
        (ap (λ x. classify x b n) (write-SameMap m addr width value icount).0 ∙ e)
      ∙ by_store (stored_bytes (write m addr width value icount).1 region)
          (write-Stores m addr width value icount valid w region)
      ∙ sym (read-read_bytes m b n later region offset plain e)
    where
      by_store :
          (xs : List ℕ)
          → Stores m addr width value region xs
          → read_bytes xs offset b n ≡ read_bytes (stored_bytes m region) offset b n
      by_store xs (kept h) = ap (λ x. read_bytes x offset b n) h
      by_store xs (put at found outside h) = ap (λ x. read_bytes x offset b n) h ∙ same
        where
          place : (bounds m.map region).0 + at ≡ addr
          place = (classify-Holds m.map addr width region at found).1

          place_b : (bounds m.map region).0 + offset ≡ b
          place_b = (classify-Holds m.map b n region offset e).1

          same :
              read_bytes (overwrite (stored_bytes m region) at (stored width value)) offset b n
              ≡ read_bytes (stored_bytes m region) offset b n
          same =
              ap (λ o. if is_misaligned b n then err (misaligned b n) else or_panic o)
                (read_le-overwrite (stored_bytes m region) at width value offset n
                  (IsWidth-le width w) (omega (arith, place, place_b, apart)))

  -- The outcome of a store and the memory it leaves, where it succeeded: the stored bytes are in
  -- the region.
  abbrev Landed : Region → ℕ → Outcome MemFault (Unit {0}) × Memory → Type 0
  Landed region offset p =
      p.0 ≡ ok tt
      → (p.1.map ≡ m.map)
        × (stored_bytes p.1 region ≡ overwrite (stored_bytes m region) offset (stored width value))

  Landed-region :
      (region : Region) (offset : ℕ)
      → region ≢ mmio
      → offset + width ≤ length (stored_bytes m region)
      → Landed region offset (write_region m region offset addr width value icount)
  Landed-region ram offset plain fits =
      if_both (Landed ram offset) (in_text m.text addr width) (λ _ h. absurd (cc h))
        (λ _. rw (write_le-some m.ram_bytes offset width value w fits) (λ h. (refl, refl)))
  Landed-region mmio offset plain fits = absurd (plain refl)
  Landed-region framebuffer offset plain fits =
      if_both (Landed framebuffer offset) (width == 4)
        (λ _. rw (write_le-some m.framebuffer_bytes offset width value w fits) (λ h. (refl, refl)))
        (λ _ h. absurd (cc h))
  Landed-region palette offset plain fits =
      if_both (Landed palette offset) (width == 4)
        (λ _. rw (write_le-some m.palette_bytes offset width value w fits) (λ h. (refl, refl)))
        (λ _ h. absurd (cc h))

  stored_bytes-length :
      (region : Region) → region ≢ mmio → length (stored_bytes m region) ≡ (bounds m.map region).1
  stored_bytes-length ram plain = valid.ram_region.0
  stored_bytes-length mmio plain = absurd (plain refl)
  stored_bytes-length framebuffer plain = valid.framebuffer_region.0
  stored_bytes-length palette plain = valid.palette_region.0

  -- A store of 1, 2 or 4 bytes that succeeds in RAM, the framebuffer or the palette is read back
  -- from its address, at any later time, as its value cut to the width.
  pub read-write :
      (later : ℕ) (region : Region) (offset : ℕ)
      → region ≢ mmio
      → classify m.map addr width ≡ some (region, offset)
      → (write m addr width value icount).0 ≡ ok tt
      → (read (write m addr width value icount).1 addr width later).0 ≡ ok (value % 2 ^ (8 * width))
  unfolding write
  read-write later region offset plain e =
      if_both
        (λ (p : Outcome MemFault (Unit {0}) × Memory).
          p.0 ≡ ok tt → (read p.1 addr width later).0 ≡ ok (value % 2 ^ (8 * width)))
        (is_misaligned addr width) (λ _ h. absurd (cc h)) (λ aligned. rw e (found aligned))
    where
      fits : offset + width ≤ length (stored_bytes m region)
      fits = omega (
        arith,
        (classify-Holds m.map addr width region offset e).2,
        stored_bytes-length region plain,
      )

      read_stored_bytes :
          (bytes : List ℕ)
          → is_misaligned addr width ≡ false
          → bytes ≡ overwrite (stored_bytes m region) offset (stored width value)
          → read_bytes bytes offset addr width ≡ ok (value % 2 ^ (8 * width))
      read_stored_bytes bytes aligned h =
          rw (aligned, h, read_le-overwrite_self (stored_bytes m region) offset width value w fits)
            refl

      found :
          is_misaligned addr width ≡ false
          → (write_region m region offset addr width value icount).0 ≡ ok tt
          → (read (write_region m region offset addr width value icount).1 addr width later).0
            ≡ ok (value % 2 ^ (8 * width))
      found aligned h =
          let (map, bytes) = Landed-region region offset plain fits h in
          read-read_bytes (write_region m region offset addr width value icount).1 addr width later
            region offset plain (ap (λ x. classify x addr width) map ∙ e)
          ∙ read_stored_bytes _ aligned bytes
