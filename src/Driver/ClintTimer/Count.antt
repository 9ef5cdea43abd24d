-- ===== src/Driver/ClintTimer/Count.antt =====
-- Reading a counter of 64 bits by its halves, while it counts.
use baremetal_crt.Common.{
  ℕ, suc, ◌+◌, ◌/◌, ◌%◌, ◌^◌, ◌<◌, ◌≤◌, ◌≡◌, refl, ◌∙◌, inl, inr, Bool-cases, true, false, some,
  ◌==◌, arith, bit_or-below, pos,
}
use baremetal_crt.Driver.ClintTimer.{reg_mtime, reg_mtimeh, join_words, get_raw_32}

-- A device whose counter is `clock`: reads give its halves, and it does not go back.
module _ {ℓ} {W : Type ℓ} (read32 : (off : ℕ) → W → ℕ × W) (write32 : (dat off : ℕ) → W → W)
    (clock : W → ℕ) (read_high : (w : W) → (read32 reg_mtimeh w).0 ≡ clock w / 2 ^ 32)
    (read_low : (w : W) → (read32 reg_mtime w).0 ≡ clock w % 2 ^ 32)
    (read_later : (off : ℕ) (w : W) → clock w ≤ clock (read32 off w).1) where
  -- The state after one round of the loop.
  abbrev pub after_round : W → W
  after_round w = (read32 reg_mtimeh (read32 reg_mtime (read32 reg_mtimeh w).1).1).1

  round_later : (w : W) → clock w ≤ clock (after_round w)
  round_later w =
      let w1 = (read32 reg_mtimeh w).1 in
      let w2 = (read32 reg_mtime w1).1 in
      omega (arith, read_later reg_mtimeh w, read_later reg_mtime w1, read_later reg_mtimeh w2)

  -- A round in which the high word stays the same gives a count of that time.
  round_count :
      (f : ℕ) (w : W)
      → (clock w / 2 ^ 32 ≡ clock (read32 reg_mtime (read32 reg_mtimeh w).1).1 / 2 ^ 32)
      → (v : ℕ) × (get_raw_32 read32 write32 (suc f) w ≡ some (pos 0, v, after_round w))
        × (clock w ≤ v)
        × (v ≤ clock (after_round w))
  unfolding get_raw_32
  round_count f w e =
      let w1 = (read32 reg_mtimeh w).1 in
      let w2 = (read32 reg_mtime w1).1 in
      let a = read_later reg_mtimeh w in
      let b = read_later reg_mtime w1 in
      let c = read_later reg_mtimeh w2 in
      let same : (clock w / 2 ^ 32 == clock w2 / 2 ^ 32) ≡ true = ground (arith, e) in
      let v : join_words (clock w / 2 ^ 32) (clock w1 % 2 ^ 32) ≡ clock w1 =
        bit_or-below 32 (clock w1 % 2 ^ 32) (clock w / 2 ^ 32) (omega arith)
        ∙ omega (arith, a, b, e) in
      (clock w1, rw (read_high w, read_low w1, read_high w2, same, v) refl, a, omega (arith, b, c))

  round_retry :
      (f : ℕ) (w : W)
      → (clock w / 2 ^ 32 == clock (read32 reg_mtime (read32 reg_mtimeh w).1).1 / 2 ^ 32) ≡ false
      → get_raw_32 read32 write32 (suc f) w ≡ get_raw_32 read32 write32 f (after_round w)
  unfolding get_raw_32
  round_retry f w e =
      let w2 = (read32 reg_mtime (read32 reg_mtimeh w).1).1 in
      rw (read_high w, read_high w2, e) refl

  -- Where the counter advances by less than 2^32 in two rounds, two rounds are enough: the count that is read
  -- is between those at the start and at the end.
  pub get_raw_32-count :
      (w : W)
      → clock (after_round (after_round w)) < clock w + 2 ^ 32
      → (v : ℕ) × (w' : W) × (get_raw_32 read32 write32 2 w ≡ some (pos 0, v, w'))
        × (clock w ≤ v)
        × (v ≤ clock w')
  get_raw_32-count w l =
      let w2 = (read32 reg_mtime (read32 reg_mtimeh w).1).1 in
      let u = after_round w in
      let u1 = (read32 reg_mtimeh u).1 in
      let u2 = (read32 reg_mtime u1).1 in
      elim (Bool-cases (clock w / 2 ^ 32 == clock w2 / 2 ^ 32)) [
        | inl e ↦ let (v, q, lo, hi) = round_count 1 w (ground (arith, e)) in (v, u, q, lo, hi)
        | inr e ↦
            let still : clock u / 2 ^ 32 ≡ clock u2 / 2 ^ 32 = ground (
              arith,
              e,
              l,
              read_later reg_mtimeh w,
              read_later reg_mtime (read32 reg_mtimeh w).1,
              read_later reg_mtimeh w2,
              read_later reg_mtimeh u,
              read_later reg_mtime u1,
              read_later reg_mtimeh u2,
            ) in
            let (v, q, lo, hi) = round_count 0 u still in
            (v, after_round u, round_retry 1 w e ∙ q, omega (arith, lo, round_later w), hi)
      ]
