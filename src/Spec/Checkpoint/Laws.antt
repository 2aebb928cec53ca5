-- ===== src/Spec/Checkpoint/Laws.antt =====
-- The cadence of a trace.
use native.Mathlib.Nat.{
  dvd_trans, mod-eq-zero_of_dvd, dvd_of_mod-eq-zero, mod-add-mod, mod-eq_of_lt, mod-lt,
  mul-mod_right, mod-add-div, mul-suc,
}
use click_doom.Base.{
  ℕ, ◌+◌, ◌-◌, ◌*◌, ◌/◌, suc, ◌%◌, ◌^◌, ◌<◌, ◌≡◌, ◌≢◌, ◌∙◌, ap, true, false, some, ok, arith,
}
use click_doom.Spec.Checkpoint.{
  TraceConfig, validate, is_checkpoint, is_ram_hash, next_checkpoint_after,
}

-- The intervals of a configuration that `validate` accepts.
pub record IsCadence (t : TraceConfig) : Type 0 where
  pub checkpoint_pos : 0 < t.checkpoint_interval
  pub ram_hash_pos : 0 < t.ram_hash_interval
  pub nested : t.ram_hash_interval % t.checkpoint_interval ≡ 0

pub validate-IsCadence : (t : TraceConfig) → validate t ≡ ok tt → IsCadence t
unfolding validate
validate-IsCadence t h = record {
  checkpoint_pos = ground arith;
  ram_hash_pos = ground arith;
  nested = ground arith;
}

mod_of_multiple : (a b c : ℕ) → a % b ≡ 0 → b % c ≡ 0 → a % c ≡ 0
mod_of_multiple a b c h g =
    mod-eq-zero_of_dvd c (dvd_trans c (dvd_of_mod-eq-zero c g) (dvd_of_mod-eq-zero b h))

-- Under a configuration that `validate` accepts, a count at which the memory hashes are taken is a
-- checkpoint.
pub is_ram_hash-is_checkpoint :
    (t : TraceConfig) (icount : ℕ)
    → validate t ≡ ok tt
    → is_ram_hash t icount ≡ true
    → is_checkpoint t icount ≡ true
unfolding is_ram_hash is_checkpoint
is_ram_hash-is_checkpoint t icount h g =
    let v = validate-IsCadence t h in
    let whole : icount % t.ram_hash_interval ≡ 0 = ground (arith, v.ram_hash_pos) in
    let at : icount % t.checkpoint_interval ≡ 0 =
      mod_of_multiple icount t.ram_hash_interval t.checkpoint_interval whole v.nested in
    ground (arith, v.checkpoint_pos)

module _ (n c : ℕ) (pos : 0 < c) where
  next-mod : (n + c - n % c) % c ≡ 0
  next-mod = ap (λ (x : ℕ). x % c) multiple ∙ mul-mod_right c (suc (n / c))
    where
      multiple : n + c - n % c ≡ c * suc (n / c)
      multiple = omega (arith, mod-add-div n c, mul-suc c (n / c))

  between-mod : (m : ℕ) → n < m → m < n + c - n % c → m % c ≢ 0
  between-mod m above below zero_mod =
      let j = m - n in
      let whole : n + j ≡ m = omega arith in
      let left : n % c < c = mod-lt n pos in
      let small : (n % c + j) % c ≡ n % c + j = mod-eq_of_lt (omega arith) in
      let same : (n % c + j) % c ≡ m % c = mod-add-mod n c j ∙ ap (λ (x : ℕ). x % c) whole in
      omega (arith, small, same, zero_mod)

-- `next_checkpoint_after` of a configuration that `validate` accepts, at a count whose sum with the
-- checkpoint interval is a `u64`, does not panic and is the first checkpoint after the count: it is greater, it is a checkpoint, and no count between them is.
pub next_checkpoint_after_lem :
    (t : TraceConfig) (icount : ℕ)
    → validate t ≡ ok tt
    → icount + t.checkpoint_interval < 2 ^ 64
    → (next : ℕ) × (next_checkpoint_after t icount ≡ some next)
      × (icount < next)
      × (is_checkpoint t next ≡ true)
      × ((m : ℕ) → icount < m → m < next → is_checkpoint t m ≡ false)
unfolding next_checkpoint_after is_checkpoint
next_checkpoint_after_lem t icount h fits =
    let v = validate-IsCadence t h in
    let pos = v.checkpoint_pos in
    let c = t.checkpoint_interval in
    let left : icount % c < c = mod-lt icount pos in
    let at = next-mod icount c pos in
    (
      icount + c - icount % c,
      ground (arith, pos, fits),
      omega (arith, left),
      ground (arith, pos, left, at),
      λ m above below. let off = between-mod icount c pos m above below in ground (arith, pos, off),
    )
