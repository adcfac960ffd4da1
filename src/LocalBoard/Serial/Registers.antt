-- ===== src/LocalBoard/Serial/Registers.antt =====
-- A chain of shift registers at the pins of the serial board, and what the pulses leave in it.
use smart_garden.Prelude.{
  ℕ, zero, suc, ◌+◌, ◌-◌, ◌*◌, ◌/◌, ◌%◌, ◌^◌, ◌<◌, ◌≡◌, refl, ap, ◌∙◌, Bool, true, false, not, ◌&&◌,
  List, [], ◌∷◌, ◌++◌, arith, ltb, ◌==◌, if◌then◌else◌, get_or, bit, if_true, if_false, ap₂,
}
use smart_garden.LocalBoard.Defs.{BoardConfig, Boards, PinOp, SrIoMap, pin_mode, digital_write}
use smart_garden.LocalBoard.Serial.Spelling.{spell, spell_boards, spell_boards_at}
use smart_garden.LocalBoard.Serial.{bit_value, shift_bits, shift_boards, shift_out}

-- The levels of the clock and of the data line, the bits in the chain, the one that came last first, and
-- those that the outputs hold since the last latch.
pub record Chain : Type 0 where
  pub clock_high : Bool
  pub data_high : Bool
  pub latch_high : Bool
  pub shifted : List Bool
  pub latched : List Bool

-- A bit is taken in with the rising edge of the clock; with that of the latch the outputs follow.
unfoldable pub feed : SrIoMap → PinOp → Chain → Chain
feed m (pin_mode p) r = r
feed m (digital_write p v) r =
    let high = not (v == 0) in
    if p == m.sr_clk_pin
    then record r {
      clock_high = high;
      shifted = if high && not r.clock_high then r.data_high ∷ r.shifted else r.shifted;
    }
    else if p == m.sr_dat_pin
    then record r { data_high = high }
    else if p == m.sr_lat_pin
    then record r {
      latch_high = high;
      latched = if high && not r.latch_high then r.shifted else r.latched;
    }
    else r

-- The pulses one after the other.
unfoldable pub feed_all : SrIoMap → List PinOp → Chain → Chain
feed_all m [] r = r
feed_all m (op ∷ ops) r = feed_all m ops (feed m op r)

-- The four lines are different pins.
pub record IsWired (m : SrIoMap) : Type 0 where
  pub clk_dat : (m.sr_clk_pin == m.sr_dat_pin) ≡ false
  pub clk_lat : (m.sr_clk_pin == m.sr_lat_pin) ≡ false
  pub clk_noe : (m.sr_clk_pin == m.sr_noe_pin) ≡ false
  pub dat_lat : (m.sr_dat_pin == m.sr_lat_pin) ≡ false
  pub dat_noe : (m.sr_dat_pin == m.sr_noe_pin) ≡ false
  pub lat_noe : (m.sr_lat_pin == m.sr_noe_pin) ≡ false

feed_all-append :
    (m : SrIoMap) (a b : List PinOp) (r : Chain)
    → feed_all m (a ++ b) r ≡ feed_all m b (feed_all m a r)
unfolding feed_all
feed_all-append m [] b r = refl
feed_all-append m (op ∷ a) b r = feed_all-append m a b (feed m op r)

-- What the chain takes in, from a low or a high clock on; the latch is left alone.
record IsTaken (bits : List Bool) (r t : Chain) : Type 0 where
  shifted : t.shifted ≡ bits
  latch : t.latch_high ≡ r.latch_high

product_high : (b p : ℕ) → b < 2 → 0 < p → not (b * p == 0) ≡ (b == 1)
product_high zero p lt pp = ground arith
product_high (suc zero) p lt pp = ground arith
product_high (suc (suc b)) p lt pp = absurd (omega arith)

pow_pos : (n : ℕ) → 0 < 2 ^ n
pow_pos zero = omega arith
pow_pos (suc n) = omega (arith, pow_pos n)

bit_value-high : (x n : ℕ) → not (bit_value x n == 0) ≡ bit x n
bit_value-high x n = product_high (x / 2 ^ n % 2) (2 ^ n) (omega arith) (pow_pos n)

module _ (m : SrIoMap) (w : IsWired m) where
  feed-clk :
      (v : ℕ) (r : Chain)
      → let high = not (v == 0) in
        feed m (digital_write m.sr_clk_pin v) r ≡ record r {
          clock_high = high;
          shifted = if high && not r.clock_high then r.data_high ∷ r.shifted else r.shifted;
        }
  unfolding feed
  feed-clk v r = if_true (m.sr_clk_pin == m.sr_clk_pin) _ _ (ground arith)

  feed-dat :
      (v : ℕ) (r : Chain)
      → feed m (digital_write m.sr_dat_pin v) r ≡ record r { data_high = not (v == 0) }
  unfolding feed
  feed-dat v r =
      if_false (m.sr_dat_pin == m.sr_clk_pin) _ _ (ground (arith, w.clk_dat))
      ∙ if_true (m.sr_dat_pin == m.sr_dat_pin) _ _ (ground arith)

  feed-lat :
      (v : ℕ) (r : Chain)
      → let high = not (v == 0) in
        feed m (digital_write m.sr_lat_pin v) r ≡ record r {
          latch_high = high;
          latched = if high && not r.latch_high then r.shifted else r.latched;
        }
  unfolding feed
  feed-lat v r =
      if_false (m.sr_lat_pin == m.sr_clk_pin) _ _ (ground (arith, w.clk_lat))
      ∙ if_false (m.sr_lat_pin == m.sr_dat_pin) _ _ (ground (arith, w.dat_lat))
      ∙ if_true (m.sr_lat_pin == m.sr_lat_pin) _ _ (ground arith)

  feed-noe : (v : ℕ) (r : Chain) → feed m (digital_write m.sr_noe_pin v) r ≡ r
  unfolding feed
  feed-noe v r =
      if_false (m.sr_noe_pin == m.sr_clk_pin) _ _ (ground (arith, w.clk_noe))
      ∙ if_false (m.sr_noe_pin == m.sr_dat_pin) _ _ (ground (arith, w.dat_noe))
      ∙ if_false (m.sr_noe_pin == m.sr_lat_pin) _ _ (ground (arith, w.lat_noe))

  one_bit :
      (x n : ℕ) (r : Chain)
      → feed m (digital_write m.sr_clk_pin 1) (
          feed m
            (digital_write m.sr_dat_pin (bit_value x n))
            (feed m (digital_write m.sr_clk_pin 0) r))
        ≡ record r { clock_high = true; data_high = bit x n; shifted = bit x n ∷ r.shifted }
  one_bit x n r =
      ap
        (λ t.
          feed m (digital_write m.sr_clk_pin 1)
            (feed m (digital_write m.sr_dat_pin (bit_value x n)) t))
        (feed-clk 0 r)
      ∙ ap (feed m (digital_write m.sr_clk_pin 1)) (feed-dat (bit_value x n) _)
      ∙ feed-clk 1 _
      ∙ ap (λ b. record r { clock_high = true; data_high = b; shifted = b ∷ r.shifted })
          (bit_value-high x n)

  shift_bits-IsTaken :
      (x n : ℕ) (r : Chain) → IsTaken (spell x n r.shifted) r (feed_all m (shift_bits m x n) r)
  unfolding spell feed_all shift_bits
  shift_bits-IsTaken x zero r = record { shifted = refl; latch = refl }
  shift_bits-IsTaken x (suc n) r =
      let r1 = record r { clock_high = true; data_high = bit x n; shifted = bit x n ∷ r.shifted } in
      let rest = shift_bits-IsTaken x n r1 in
      let e = ap (feed_all m (shift_bits m x n)) (one_bit x n r) in
      record {
        shifted = ap (λ (t : Chain). t.shifted) e ∙ rest.shifted;
        latch = ap (λ (t : Chain). t.latch_high) e ∙ rest.latch;
      }

  shift_boards-IsTaken :
      (out : List ℕ) (i n : ℕ) (r : Chain)
      → IsTaken (spell_boards out i n r.shifted) r (feed_all m (shift_boards m out i n) r)
  unfolding spell_boards feed_all shift_boards
  shift_boards-IsTaken out i zero r = record { shifted = refl; latch = refl }
  shift_boards-IsTaken out i (suc n) r =
      let y = get_or out i 0 in
      let one = shift_bits-IsTaken y 8 r in
      let r1 = feed_all m (shift_bits m y 8) r in
      let rest = shift_boards-IsTaken out (i + 1) n r1 in
      let e = feed_all-append m (shift_bits m y 8) (shift_boards m out (i + 1) n) r in
      record {
        shifted =
            ap (λ (t : Chain). t.shifted) e
            ∙ rest.shifted
            ∙ ap (λ l. spell_boards out (i + 1) n l) one.shifted;
        latch = ap (λ (t : Chain). t.latch_high) e ∙ rest.latch ∙ one.latch;
      }

-- The chain after the pulses of `shift_out`.
unfoldable shift_ops : BoardConfig → List ℕ → List PinOp
shift_ops c out =
    let m = c.sr_io_map in
    digital_write m.sr_lat_pin 0
    ∷ digital_write m.sr_clk_pin 0
    ∷ (shift_boards m out 0 (c.num_os_channels / 8)
        ++ digital_write m.sr_lat_pin 1 ∷ digital_write m.sr_noe_pin 0 ∷ [])

-- The output of channel `j` in a chain of all whole boards, the last of which is the nearest.
abbrev pub held : BoardConfig → Chain → ℕ → Bool
held c r j = get_or r.latched ((c.num_os_channels / 8 - 1 - j / 8) * 8 + j % 8) false

module _ (c : BoardConfig) (w : IsWired c.sr_io_map) where
  shift_ops-latched :
      (out : List ℕ) (r : Chain)
      → (feed_all c.sr_io_map (shift_ops c out) r).latched
        ≡ spell_boards out 0 (c.num_os_channels / 8) r.shifted
  unfolding shift_ops feed_all
  shift_ops-latched out r =
      let m = c.sr_io_map in
      let r1 = feed m (digital_write m.sr_clk_pin 0) (feed m (digital_write m.sr_lat_pin 0) r) in
      let ops = shift_boards m out 0 (c.num_os_channels / 8) in
      let t = feed_all m ops r1 in
      let taken = shift_boards-IsTaken m w out 0 (c.num_os_channels / 8) r1 in
      let start : r1 ≡ record r { latch_high = false; clock_high = false } =
        ap (feed m (digital_write m.sr_clk_pin 0)) (feed-lat m w 0 r) ∙ feed-clk m w 0 _ in
      let low : t.latch_high ≡ false = taken.latch ∙ ap (λ (x : Chain). x.latch_high) start in
      ap (λ (x : Chain). x.latched)
        (feed_all-append m ops (digital_write m.sr_lat_pin 1 ∷ digital_write m.sr_noe_pin 0 ∷ []) r1
          ∙ feed-noe m w 0 _
          ∙ feed-lat m w 1 t)
      ∙ if_true (not t.latch_high) t.shifted t.latched (ground (arith, low))
      ∙ taken.shifted
      ∙ ap (λ (x : Chain). spell_boards out 0 (c.num_os_channels / 8) x.shifted) start

  -- Whatever was in the chain, after `shift_out` the output of each channel of a whole board is its bit
  -- of the cache.
  pub held-shift_out :
      (b : Boards) (r : Chain) (j : ℕ)
      → j < c.num_os_channels / 8 * 8
      → held c (feed_all c.sr_io_map (shift_out c b).pins r) j
        ≡ bit (get_or b.out_state (j / 8) 0) (j % 8)
  unfolding shift_out shift_ops
  held-shift_out b r j lt =
      let m = c.sr_io_map in
      let out = b.out_state in
      let n = c.num_os_channels / 8 in
      let at = (n - 1 - j / 8) * 8 + j % 8 in
      let r1 = feed_all m b.pins r in
      let board : 0 + (n - 1 - at / 8) ≡ j / 8 = omega arith in
      let place : at % 8 ≡ j % 8 = omega arith in
      ap (λ (x : Chain). get_or x.latched at false) (feed_all-append m b.pins (shift_ops c out) r)
      ∙ ap (λ l. get_or l at false) (shift_ops-latched out r1)
      ∙ spell_boards_at out 0 n at r1.shifted
      ∙ if_true (ltb at (n * 8)) _ _ (ground arith)
      ∙ ap₂ (λ x o. bit (get_or out x 0) o) board place
