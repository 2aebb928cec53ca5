-- ===== src/Image/Laws.antt =====
-- The reads of refemu/src/image.rs stay inside the file, and the sorts put their lists in order.
use click_doom.Base.{
  ℕ, zero, suc, ◌+◌, ◌*◌, ◌^◌, ◌≤◌, ◌<◌, ◌≡◌, sym, ap, Option, none, some, List, [], ◌∷◌, arith,
  ltb, leb, ◌==◌, if_both, length, take, drop, length-take, length-drop, All, All-take, All-drop,
  ok, err, panic, and_then,
}
use click_doom.Memory.Bytes.{IsByte, from_le_bytes-lt}
use click_doom.Image.{Segment}
use click_doom.Image.Elf.{
  Read, slice, first_byte, two_bytes, four_bytes, read_u8, read_u16, read_u32, read_string,
  checked_segment, load_header, read_segment, push_some, read_segments,
}
use Prim.Native.String.{String}

-- A result with the property, or an error of the source; no panic.
unfoldable pub Holds : {A : Type 0} → (A → Type 0) → Read A → Type 0
Holds P (ok a) = P a
Holds P (err e) = Unit
Holds P panic = ⊥

pub Holds-and_then :
    {A B : Type 0} (P : A → Type 0) (Q : B → Type 0) (r : Read A) (f : A → Read B)
    → Holds P r
    → ((a : A) → P a → Holds Q (f a))
    → Holds Q (and_then r f)
unfolding Holds
Holds-and_then P Q (ok a) f h next = next a h
Holds-and_then P Q (err e) f h next = tt
Holds-and_then P Q panic f h next = h

abbrev pub IsFile : List ℕ → Type 0
IsFile = All IsByte

-- A slice of the file.
abbrev pub SliceOf : List ℕ → List ℕ → Type 0
SliceOf file xs =
    (offset : ℕ) × (offset + length xs ≤ length file) × (xs ≡ take (length xs) (drop offset file))

pub slice-Holds :
    (file : List ℕ) (at len : ℕ) (what : String)
    → IsFile file
    → Holds (λ xs. (length xs ≡ len) × IsFile xs) (slice file at len what)
unfolding Holds slice
slice-Holds file at len what h =
    if_both (Holds (λ xs. (length xs ≡ len) × IsFile xs)) (leb (at + len) (length file))
      (λ fits.
        let inside : at + len ≤ length file = ground (arith, fits) in
        (
          omega (arith, inside, length-take len (drop at file), length-drop at file),
          All-take IsByte len (drop at file) (All-drop IsByte at file h),
        ))
      (λ _. tt)

first_byte-Holds :
    (xs : List ℕ) → length xs ≡ 1 → IsFile xs → Holds (λ v. v < 2 ^ 8) (first_byte xs)
unfolding Holds
first_byte-Holds [] e h = absurd (omega arith)
first_byte-Holds (b ∷ bs) e h = omega (arith, h.0)

two_bytes-Holds : (xs : List ℕ) → length xs ≡ 2 → IsFile xs → Holds (λ v. v < 2 ^ 16) (two_bytes xs)
unfolding Holds
two_bytes-Holds [] e h = absurd (omega arith)
two_bytes-Holds (b0 ∷ []) e h = absurd (omega arith)
two_bytes-Holds (b0 ∷ b1 ∷ bs) e h =
    omega (arith, from_le_bytes-lt (b0 ∷ b1 ∷ []) (h.0, (h.1.0, tt)))

four_bytes-Holds :
    (xs : List ℕ) → length xs ≡ 4 → IsFile xs → Holds (λ v. v < 2 ^ 32) (four_bytes xs)
unfolding Holds
four_bytes-Holds [] e h = absurd (omega arith)
four_bytes-Holds (b0 ∷ []) e h = absurd (omega arith)
four_bytes-Holds (b0 ∷ b1 ∷ []) e h = absurd (omega arith)
four_bytes-Holds (b0 ∷ b1 ∷ b2 ∷ []) e h = absurd (omega arith)
four_bytes-Holds (b0 ∷ b1 ∷ b2 ∷ b3 ∷ bs) e h =
    omega
      (arith, from_le_bytes-lt (b0 ∷ b1 ∷ b2 ∷ b3 ∷ []) (h.0, (h.1.0, (h.1.1.0, (h.1.1.1.0, tt)))))

module _ (file : List ℕ) (h : IsFile file) where
  pub read_u8-Holds : (at : ℕ) (what : String) → Holds (λ v. v < 2 ^ 8) (read_u8 file at what)
  unfolding read_u8
  read_u8-Holds at what =
      Holds-and_then (λ xs. (length xs ≡ 1) × IsFile xs) (λ v. v < 2 ^ 8) (slice file at 1 what)
        first_byte (slice-Holds file at 1 what h) (λ xs k. first_byte-Holds xs (k.0) (k.1))

  pub read_u16-Holds : (at : ℕ) (what : String) → Holds (λ v. v < 2 ^ 16) (read_u16 file at what)
  unfolding read_u16
  read_u16-Holds at what =
      Holds-and_then (λ xs. (length xs ≡ 2) × IsFile xs) (λ v. v < 2 ^ 16) (slice file at 2 what)
        two_bytes (slice-Holds file at 2 what h) (λ xs k. two_bytes-Holds xs (k.0) (k.1))

  pub read_u32-Holds : (at : ℕ) (what : String) → Holds (λ v. v < 2 ^ 32) (read_u32 file at what)
  unfolding read_u32
  read_u32-Holds at what =
      Holds-and_then (λ xs. (length xs ≡ 4) × IsFile xs) (λ v. v < 2 ^ 32) (slice file at 4 what)
        four_bytes (slice-Holds file at 4 what h) (λ xs k. four_bytes-Holds xs (k.0) (k.1))

  pub read_string-Holds :
      (lossy : List ℕ → List ℕ) (table size at : ℕ)
      → Holds (λ v. Unit) (read_string lossy file table size at)
  unfolding Holds read_string
  read_string-Holds lossy table size at =
      if_both (Holds (λ v. Unit)) (leb size at) (λ _. tt)
        (λ inside.
          Holds-and_then (λ xs. (length xs ≡ size) × IsFile xs) (λ v. Unit)
            (slice file table size "a string table") _
            (slice-Holds file table size "a string table" h)
            (λ xs k.
              if_both (Holds (λ v. Unit)) (leb at (length xs)) (λ _. tt)
                (λ outside. absurd (ground (arith, inside, outside, k.0)))))

-- A segment that fits the address space, whose bytes are a slice of the file no longer than its
-- memory.
abbrev pub SegmentGood : List ℕ → Segment → Type 0
SegmentGood file s =
    (1 ≤ s.mem_len)
    × (length s.bytes ≤ s.mem_len)
    × (s.vaddr + s.mem_len < 2 ^ 32)
    × IsFile s.bytes
    × SliceOf file s.bytes

abbrev MaybeGood : List ℕ → Option Segment → Type 0
MaybeGood file none = Unit
MaybeGood file (some s) = SegmentGood file s

checked_segment-Holds :
    (file : List ℕ) (offset vaddr filesz memsz flags : ℕ)
    → IsFile file
    → Holds (MaybeGood file) (checked_segment file offset vaddr filesz memsz flags)
unfolding Holds
checked_segment-Holds file offset vaddr filesz memsz flags h =
    if_both (Holds (MaybeGood file)) (ltb memsz filesz) (λ _. tt)
      (λ short.
        if_both (Holds (MaybeGood file)) (memsz == 0) (λ _. tt)
          (λ some_memory.
            if_both (Holds (MaybeGood file)) (leb (2 ^ 32) (vaddr + memsz)) (λ _. tt)
              (λ low.
                if_both (Holds (MaybeGood file)) (leb (offset + filesz) (length file))
                  (λ fits.
                    let inside : offset + filesz ≤ length file = ground (arith, fits) in
                    let size : length (take filesz (drop offset file)) ≡ filesz = omega (
                      arith,
                      inside,
                      length-take filesz (drop offset file),
                      length-drop offset file,
                    ) in
                    (
                      ground (arith, some_memory),
                      ground (arith, short, size),
                      ground (arith, low),
                      All-take IsByte filesz (drop offset file) (All-drop IsByte offset file h),
                      (
                        offset,
                        omega (arith, size, inside),
                        ap (λ n. take n (drop offset file)) (sym size),
                      ),
                    ))
                  (λ _. tt))))

load_header-Holds :
    (file : List ℕ) (at : ℕ) → IsFile file → Holds (MaybeGood file) (load_header file at)
unfolding load_header
load_header-Holds file at h =
    Holds-and_then (λ v. v < 2 ^ 32) (MaybeGood file) _ _
      (read_u32-Holds file h (at + 4) "a segment offset")
      (λ offset _.
        Holds-and_then (λ v. v < 2 ^ 32) (MaybeGood file) _ _
          (read_u32-Holds file h (at + 8) "a segment address")
          (λ vaddr _.
            Holds-and_then (λ v. v < 2 ^ 32) (MaybeGood file) _ _
              (read_u32-Holds file h (at + 16) "a segment file size")
              (λ filesz _.
                Holds-and_then (λ v. v < 2 ^ 32) (MaybeGood file) _ _
                  (read_u32-Holds file h (at + 20) "a segment memory size")
                  (λ memsz _.
                    Holds-and_then (λ v. v < 2 ^ 32) (MaybeGood file) _ _
                      (read_u32-Holds file h (at + 24) "a segment's flags")
                      (λ flags _. checked_segment-Holds file offset vaddr filesz memsz flags h)))))

read_segment-Holds :
    (file : List ℕ) (at : ℕ) → IsFile file → Holds (MaybeGood file) (read_segment file at)
unfolding Holds read_segment
read_segment-Holds file at h =
    Holds-and_then (λ v. v < 2 ^ 32) (MaybeGood file) (read_u32 file at "a segment header") _
      (read_u32-Holds file h at "a segment header")
      (λ type _.
        if_both (Holds (MaybeGood file)) (type == 1) (λ _. load_header-Holds file at h) (λ _. tt))

push_some-Holds :
    (file : List ℕ) (o : Option Segment) (rest : List Segment)
    → MaybeGood file o
    → All (SegmentGood file) rest
    → Holds (All (SegmentGood file)) (push_some o rest)
unfolding Holds
push_some-Holds file none rest o h = h
push_some-Holds file (some s) rest o h = (o, h)

pub read_segments-Holds :
    (file : List ℕ) (phoff phentsize index left : ℕ)
    → IsFile file
    → Holds (All (SegmentGood file)) (read_segments file phoff phentsize index left)
unfolding Holds read_segments
read_segments-Holds file phoff phentsize index zero h = tt
read_segments-Holds file phoff phentsize index (suc left) h =
    Holds-and_then (MaybeGood file) (All (SegmentGood file)) _ _
      (read_segment-Holds file (phoff + index * phentsize) h)
      (λ s good.
        Holds-and_then (All (SegmentGood file)) (All (SegmentGood file)) _ (push_some s)
          (read_segments-Holds file phoff phentsize (suc index) left h)
          (λ rest goods. push_some-Holds file s rest good goods))
