-- ===== src/Spec/Line/Laws.antt =====
-- A trace line of spec/src/checkpoint.rs is parsed as it was printed.
use click_doom.Base.{
  ℕ, ◌^◌, ◌<◌, ◌≡◌, ◌∙◌, refl, ap, List, [], ◌∷◌, ◌++◌, arith, ◌==◌, if_both, Outcome, ok,
  append-nil,
}
use click_doom.Spec.Checkpoint.{Checkpoint, registers_only, with_memory}
use click_doom.Csource.{Text}
use click_doom.Csource.Chars.{into_first, split}
use click_doom.Spec.Line.{
  to_string, hex_digits, tab, display, ParseCheckpointError, parse_fields, no_hashes, two_hashes,
  from_fields, from_str,
}
use click_doom.Spec.Line.Numbers.{
  Digits, hex_digits-Digits, decimal_digits-Digits, hex-hex_digits, parse_count-to_string,
}

split-Digits : (xs : Text) → Digits xs → split tab xs ≡ xs ∷ []
split-Digits [] h = refl
split-Digits (x ∷ xs) h =
    if_both {A = List Text} (λ ps. ps ≡ (x ∷ xs) ∷ []) (x == tab)
      (λ e. absurd (ground (arith, e, h.0))) (λ _. ap (into_first x) (split-Digits xs h.1))

split-append : (xs ys : Text) → Digits xs → split tab (xs ++ (tab ∷ ys)) ≡ xs ∷ split tab ys
split-append [] ys h = refl
split-append (x ∷ xs) ys h =
    if_both {A = List Text} (λ ps. ps ≡ (x ∷ xs) ∷ split tab ys) (x == tab)
      (λ e. absurd (ground (arith, e, h.0))) (λ _. ap (into_first x) (split-append xs ys h.1))

-- The fields of a line, with `last` behind the register hash.
split-line :
    (icount pc reghash : ℕ) (last : Text) (fields : List Text)
    → split tab (hex_digits 16 reghash ++ last) ≡ fields
    → split tab
        (to_string icount ++ (tab ∷ (hex_digits 8 pc ++ (tab ∷ (hex_digits 16 reghash ++ last)))))
      ≡ to_string icount ∷ hex_digits 8 pc ∷ fields
split-line icount pc reghash last fields h =
    split-append (to_string icount) (hex_digits 8 pc ++ (tab ∷ (hex_digits 16 reghash ++ last)))
      (decimal_digits-Digits 20 icount)
    ∙ ap (λ l. to_string icount ∷ l)
        (split-append (hex_digits 8 pc) (hex_digits 16 reghash ++ last) (hex_digits-Digits 8 pc)
          ∙ ap (λ l. hex_digits 8 pc ∷ l) h)

-- Three fields read back.
parse_fields-line :
    (icount pc reghash : ℕ) (last : ℕ → ℕ → ℕ → Outcome ParseCheckpointError Checkpoint)
    → icount < 2 ^ 64
    → pc < 2 ^ 32
    → reghash < 2 ^ 64
    → parse_fields (to_string icount) (hex_digits 8 pc) (hex_digits 16 reghash) last
      ≡ last icount pc reghash
parse_fields-line icount pc reghash last hi hp hr =
    rw
      (
        parse_count-to_string icount hi,
        hex-hex_digits "pc" 8 pc (omega arith) (omega arith) (omega arith),
        hex-hex_digits "reghash" 16 reghash (omega arith) hr (omega arith),
      )
      (ap (λ p. last icount p reghash) (omega arith))

-- A line of a checkpoint without the memory hashes is parsed as that checkpoint, for every count, program
-- counter and hash of its width, and so is one with both of them.
pub from_str-display :
    (icount pc reghash ramhash fbhash : ℕ)
    → icount < 2 ^ 64
    → pc < 2 ^ 32
    → reghash < 2 ^ 64
    → ramhash < 2 ^ 64
    → fbhash < 2 ^ 64
    → (from_str (display (registers_only icount pc reghash))
        ≡ ok (registers_only icount pc reghash))
      × (from_str (display (with_memory icount pc reghash ramhash fbhash))
          ≡ ok (with_memory icount pc reghash ramhash fbhash))
unfolding from_str display from_fields
from_str-display icount pc reghash ramhash fbhash hi hp hr hm hf = (
  ap from_fields (
        split-line icount pc reghash [] (hex_digits 16 reghash ∷ []) (
          ap (split tab) (append-nil (hex_digits 16 reghash))
          ∙ split-Digits (hex_digits 16 reghash) (hex_digits-Digits 16 reghash)))
      ∙ parse_fields-line icount pc reghash no_hashes hi hp hr,
  ap from_fields (
        split-line icount pc reghash ((tab ∷ hex_digits 16 ramhash) ++ (tab ∷ hex_digits 16 fbhash))
          (hex_digits 16 reghash ∷ hex_digits 16 ramhash ∷ hex_digits 16 fbhash ∷ [])
          (split-append (hex_digits 16 reghash)
              (hex_digits 16 ramhash ++ (tab ∷ hex_digits 16 fbhash)) (hex_digits-Digits 16 reghash)
            ∙ ap (λ l. hex_digits 16 reghash ∷ l)
                (split-append (hex_digits 16 ramhash) (hex_digits 16 fbhash)
                    (hex_digits-Digits 16 ramhash)
                  ∙ ap (λ l. hex_digits 16 ramhash ∷ l)
                      (split-Digits (hex_digits 16 fbhash) (hex_digits-Digits 16 fbhash)))))
      ∙ parse_fields-line icount pc reghash
          (two_hashes (hex_digits 16 ramhash) (hex_digits 16 fbhash)) hi hp hr
      ∙ rw
          (
            hex-hex_digits "ramhash" 16 ramhash (omega arith) hm (omega arith),
            hex-hex_digits "fbhash" 16 fbhash (omega arith) hf (omega arith),
          )
          refl,
)
