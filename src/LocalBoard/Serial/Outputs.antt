-- ===== src/LocalBoard/Serial/Outputs.antt =====
-- Which channels of the serial board are on after a call: in its output cache, and in the shift registers
-- after the pulses.
use smart_garden.Prelude.{
  ℕ, ◌/◌, ◌%◌, ◌^◌, ◌<◌, ◌≡◌, refl, Bool, true, false, ◌&&◌, ltb, ◌==◌, length, get_or, All, bit,
  set_bit, clear_bit, ◌≤◌, sym, ap, ◌∙◌, subst, arith, ℕ_discrete, leb, if◌then◌else◌, set,
  length-set, get_or-set, All-set, All-get_or, if_cases, if_true, if_false, zero, suc, ◌+◌, ◌*◌,
}
use smart_garden.Prelude.Bits.{bits_lem}
use smart_garden.LocalBoard.Defs.{Boards, BoardConfig}
use smart_garden.LocalBoard.{BoardConfig}
use smart_garden.LocalBoard.Serial.Registers.{Chain, IsWired, feed_all, held, held-shift_out}
use smart_garden.LocalBoard.Serial.{
  channel_on, shift_out, channel_off, all_channels_off, channels_off,
}

-- The output of channel `j`: bit j % 8 of board j / 8.
unfoldable pub output_of : Boards → ℕ → Bool
output_of b j = bit (get_or b.out_state (j / 8) 0) (j % 8)

-- The six boards of the cache hold a byte each.
pub record IsCache (b : Boards) : Type 0 where
  pub boards : length b.out_state ≡ 6
  pub bytes : All (λ x. x < 256) b.out_state

not_leb : (n i : ℕ) → i < n → leb n i ≡ false
not_leb n i lt = ground arith

-- The cache after the byte of a channel was replaced.
output_of-set :
    (b : Boards) (i j v : ℕ)
    → i / 8 < length b.out_state
    → output_of (record b { out_state = set b.out_state (i / 8) v }) j
      ≡ (if i / 8 == j / 8 then bit v (j % 8) else output_of b j)
unfolding output_of
output_of-set b i j v lt =
    ap (λ x. bit x (j % 8)) (get_or-set b.out_state (i / 8) (j / 8) v 0 lt)
    ∙ if_cases (λ x. bit x (j % 8) ≡ (if i / 8 == j / 8 then bit v (j % 8) else output_of b j))
        (i / 8 == j / 8) v (get_or b.out_state (j / 8) 0)
        (λ p. sym (if_true (i / 8 == j / 8) (bit v (j % 8)) (output_of b j) p))
        (λ p. sym (if_false (i / 8 == j / 8) (bit v (j % 8)) (output_of b j) p))

-- Where channel `i` shares its byte with channel `j`, the bit of `j` is read off it.
output_of-byte :
    (b : Boards) (i j : ℕ) → i ≡ j / 8 → bit (get_or b.out_state i 0) (j % 8) ≡ output_of b j
unfolding output_of
output_of-byte b i j e = ap (λ k. bit (get_or b.out_state k 0) (j % 8)) e

-- The channels of a byte are told apart by their bits.
join_cases :
    (i j : ℕ) (v old w all : Bool)
    → (i / 8 ≡ j / 8 → old ≡ all)
    → v ≡ (if i % 8 == j % 8 then w else old)
    → (if i / 8 == j / 8 then v else all) ≡ (if i == j then w else all)
join_cases i j v old w all h e = elim (ℕ_discrete (i / 8) (j / 8)) [
  | yes p ↦ ground (arith, h p)
  | no p ↦ ground arith
]

put_lem :
    (b : Boards) (i j v : ℕ) (w : Bool)
    → IsCache b
    → i < 48
    → v < 256
    → bit v (j % 8) ≡ (if i % 8 == j % 8 then w else bit (get_or b.out_state (i / 8) 0) (j % 8))
    → let b' = record b { out_state = set b.out_state (i / 8) v } in
      IsCache b' × (output_of b' j ≡ (if i == j then w else output_of b j))
put_lem b i j v w h li lv e = (
  record {
    boards = length-set b.out_state (i / 8) v ∙ h.boards;
    bytes = All-set (λ x. x < 256) b.out_state (i / 8) v h.bytes lv;
  },
  output_of-set b i j v (subst (λ n. i / 8 < n) (sym h.boards) (omega arith))
      ∙ join_cases i j (bit v (j % 8)) (bit (get_or b.out_state (i / 8) 0) (j % 8)) w
          (output_of b j) (output_of-byte b (i / 8) j) e,
)

module _ (c : BoardConfig) where
  -- `shift_out` does not change the cache.
  output_of-shift_out : (b : Boards) (j : ℕ) → output_of (shift_out c b) j ≡ output_of b j
  unfolding shift_out output_of
  output_of-shift_out b j = refl

  shift_out-IsCache : (b : Boards) → IsCache b → IsCache (shift_out c b)
  unfolding shift_out
  shift_out-IsCache b h = record { boards = h.boards; bytes = h.bytes }

  -- The call that writes `v` into the byte of a channel.
  written :
      (b : Boards) (i j v : ℕ) (w : Bool) (r : Boards × Bool)
      → IsCache b
      → i < 48
      → v < 256
      → bit v (j % 8) ≡ (if i % 8 == j % 8 then w else bit (get_or b.out_state (i / 8) 0) (j % 8))
      → r ≡ (shift_out c (record b { out_state = set b.out_state (i / 8) v }), true)
      → (r.1 ≡ true) × IsCache r.0 × (output_of r.0 j ≡ (if i == j then w else output_of b j))
  written b i j v w r h li lv e p =
      let b' = record b { out_state = set b.out_state (i / 8) v } in
      let (cache, out) = put_lem b i j v w h li lv e in
      subst
        (λ q.
          (q.1 ≡ true) × IsCache q.0 × (output_of q.0 j ≡ (if i == j then w else output_of b j)))
        (sym p) (refl, shift_out-IsCache b' cache, output_of-shift_out b' j ∙ out)

  -- What the two calls make of the cache.
  cache_lem :
      (b : Boards) (chan j : ℕ)
      → b.serial_ready ≡ true
      → c.num_os_channels ≤ 48
      → IsCache b
      → chan < c.num_os_channels
      → j < 48
      → let (b1, ok1) = channel_on c chan b in
        let (b0, ok0) = channel_off c chan b in
        ((ok1 ≡ true) × IsCache b1 × (output_of b1 j ≡ (if chan == j then true else output_of b j)))
        × ((ok0 ≡ true)
            × IsCache b0
            × (output_of b0 j ≡ (if chan == j then false else output_of b j)))
  unfolding channel_on channel_off
  cache_lem b chan j ready fit h lt lj =
      let x = get_or b.out_state (chan / 8) 0 in
      let lx = All-get_or (λ y. y < 256) b.out_state (chan / 8) 0 h.bytes (omega arith) in
      let (on, off, on_fits, off_fits) =
        bits_lem x (chan % 8) (j % 8) lx (omega arith) (omega arith) in
      (
        written b chan j (set_bit x (2 ^ (chan % 8))) true _ h (omega arith) on_fits on
            (rw ready (rw (not_leb _ _ lt) refl)),
        written b chan j (clear_bit x (2 ^ (chan % 8))) false _ h (omega arith) off_fits off
            (rw ready (rw (not_leb _ _ lt) refl)),
      )

  -- Both calls end by shifting out the cache that they leave.
  channel-pins :
      (b : Boards) (chan : ℕ)
      → b.serial_ready ≡ true
      → chan < c.num_os_channels
      → let here = get_or b.out_state (chan / 8) 0 in
        let with : ℕ → Boards = λ v. record b { out_state = set b.out_state (chan / 8) v } in
        ((channel_on c chan b).0 ≡ shift_out c (with (set_bit here (2 ^ (chan % 8)))))
        × ((channel_off c chan b).0 ≡ shift_out c (with (clear_bit here (2 ^ (chan % 8)))))
  unfolding channel_on channel_off
  channel-pins b chan ready lt =
      (rw ready (rw (not_leb _ _ lt) refl), rw ready (rw (not_leb _ _ lt) refl))

  -- The outputs that the pulses leave are those of the cache.
  held-call :
      (w : IsWired c.sr_io_map) (b t : Boards) (r : Chain) (j : ℕ)
      → t ≡ shift_out c b
      → j < c.num_os_channels / 8 * 8
      → held c (feed_all c.sr_io_map t.pins r) j ≡ output_of t j
  unfolding output_of shift_out
  held-call w b t r j e lt =
      ap (λ (x : Boards). held c (feed_all c.sr_io_map x.pins r) j) e
      ∙ held-shift_out c w b r j lt
      ∙ ap (λ (x : Boards). bit (get_or x.out_state (j / 8) 0) (j % 8)) (sym e)

  -- With a chain of shift registers at four different pins, whatever it held and whatever pulses it got
  -- before: a configured channel, of 48 at most, of a ready board that is switched on is on, one that is
  -- switched off is off, and each other output is what the cache had it, for all outputs of the whole
  -- boards of eight, in the cache and in the chain after the pulses of the call; both calls succeed and
  -- keep the cache well formed.
  pub channel_lem :
      (w : IsWired c.sr_io_map) (r : Chain) (b : Boards) (chan j : ℕ)
      → b.serial_ready ≡ true
      → c.num_os_channels ≤ 48
      → IsCache b
      → chan < c.num_os_channels
      → j < c.num_os_channels / 8 * 8
      → let (b1, ok1) = channel_on c chan b in
        let (b0, ok0) = channel_off c chan b in
        ((ok1 ≡ true)
          × IsCache b1
          × (output_of b1 j ≡ (if chan == j then true else output_of b j))
          × (held c (feed_all c.sr_io_map b1.pins r) j
              ≡ (if chan == j then true else output_of b j)))
        × ((ok0 ≡ true)
            × IsCache b0
            × (output_of b0 j ≡ (if chan == j then false else output_of b j))
            × (held c (feed_all c.sr_io_map b0.pins r) j
                ≡ (if chan == j then false else output_of b j)))
  channel_lem w r b chan j ready fit h lt lj =
      let (on, off) = cache_lem b chan j ready fit h lt (omega arith) in
      let (pins_on, pins_off) = channel-pins b chan ready lt in
      (
        (on.0, on.1, on.2, held-call w _ _ r j pins_on lj ∙ on.2),
        (off.0, off.1, off.2, held-call w _ _ r j pins_off lj ∙ off.2),
      )

  ready-channel_off :
      (b : Boards) (i : ℕ) → b.serial_ready ≡ true → (channel_off c i b).0.serial_ready ≡ true
  unfolding channel_off shift_out
  ready-channel_off b i ready = ground (arith, ready)

  -- The loop of `AllChannelsOff` clears the outputs of its range and keeps the others.
  channels_off_lem :
      (i n : ℕ) (b : Boards) (j : ℕ)
      → b.serial_ready ≡ true
      → c.num_os_channels ≤ 48
      → IsCache b
      → i + n ≤ c.num_os_channels
      → j < 48
      → let b' = channels_off c i n b in
        IsCache b' × (output_of b' j ≡ (if leb i j && ltb j (i + n) then false else output_of b j))
  unfolding channels_off
  channels_off_lem i zero b j ready fit h le lj = (h, ground arith)
  channels_off_lem i (suc n) b j ready fit h le lj =
      let b1 = (channel_off c i b).0 in
      let (kept, cache, out) = (cache_lem b i j ready fit h (omega arith) lj).1 in
      let (cache', out') =
        channels_off_lem (i + 1) n b1 j (ready-channel_off b i ready) fit cache (omega arith) lj in
      (cache', ground (arith, out, out'))

  -- After `AllChannelsOff` of a ready board every configured output is off, and the outputs of the
  -- cache behind the configured ones are as before.
  all_channels_off_lem :
      (b : Boards) (j : ℕ)
      → b.serial_ready ≡ true
      → c.num_os_channels ≤ 48
      → IsCache b
      → j < 48
      → let (b', ok) = all_channels_off c b in
        (ok ≡ true)
        × IsCache b'
        × (output_of b' j ≡ (if ltb j c.num_os_channels then false else output_of b j))
  unfolding all_channels_off
  all_channels_off_lem b j ready fit h lj =
      let (cache, out) = channels_off_lem 0 c.num_os_channels b j ready fit h (omega arith) lj in
      simp ready (refl, cache, ground (arith, out))
