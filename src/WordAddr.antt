-- ===== src/WordAddr.antt =====
-- executor/src/word.rs: word addresses, and word indices relative to a base. The sum of `word_addr`
-- panics past 32 bits, as it does where the build checks for overflow.
use click_doom.Base.{
  ℕ, ◌+◌, ◌-◌, ◌/◌, ◌^◌, ◌<◌, ◌≡◌, refl, ap, ltb, arith, if_both, if◌then◌else◌, Outcome, ok, err,
  panic,
}
use click_doom.Spec.Map.{ram_base}

pub record WordAddr : Type 0 where
  pub word_address : ℕ

pub record Widx : Type 0 where
  pub word_index : ℕ

pub record BelowBase : Type 0 where
  pub addr : ℕ
  pub base : ℕ

unfoldable pub of_byte : ℕ → WordAddr
of_byte byte_addr = record { word_address = byte_addr / 2 ^ 2 }

unfoldable pub ram_base_word : WordAddr
ram_base_word = record { word_address = ram_base / 2 ^ 2 }

unfoldable pub widx_from : WordAddr → WordAddr → Outcome BelowBase Widx
widx_from a base =
    if ltb a.word_address base.word_address
    then err (record { addr = a.word_address; base = base.word_address })
    else ok (record { word_index = a.word_address - base.word_address })

unfoldable pub word_addr : Widx → WordAddr → Outcome BelowBase WordAddr
word_addr w base =
    let sum = base.word_address + w.word_index in
    if ltb sum (2 ^ 32) then ok (record { word_address = sum }) else panic

-- An index taken from an address leads back to it; an address without one is below the base.
unfoldable pub Rebases : WordAddr → WordAddr → Outcome BelowBase Widx → Type 0
Rebases a base (ok w) = word_addr w base ≡ ok a
Rebases a base (err e) =
    (a.word_address < base.word_address)
    × (e ≡ record { addr = a.word_address; base = base.word_address })
Rebases a base panic = ⊥

-- `widx_from` never panics: an index that it takes from a 32-bit address leads back to the address by
-- `word_addr`, and its error is for an address below the base and names both.
pub widx_from-Rebases :
    (a base : WordAddr) → a.word_address < 2 ^ 32 → Rebases a base (widx_from a base)
unfolding Rebases widx_from word_addr
widx_from-Rebases a base h =
    if_both (Rebases a base) (ltb a.word_address base.word_address)
      (λ below. (ground (arith, below), refl))
      (λ above.
        let sum : base.word_address + (a.word_address - base.word_address) ≡ a.word_address =
          ground (arith, above) in
        if_both {A = Outcome BelowBase WordAddr} (λ r. r ≡ ok a)
          (ltb (base.word_address + (a.word_address - base.word_address)) (2 ^ 32))
          (λ _. ap (λ n. ok (record { word_address = n })) sum)
          (λ high. absurd (ground (arith, high, sum, h))))
