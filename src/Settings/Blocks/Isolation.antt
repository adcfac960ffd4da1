-- ===== src/Settings/Blocks/Isolation.antt =====
-- The blocks of the EEPROM map do not meet: saving one kind of structure is not seen by the loaders of
-- the others, nor by the single values below the blocks.
use smart_garden.Prelude.{ℕ, ◌+◌, ◌*◌, ◌≤◌, ◌<◌, ◌≡◌, ◌⊎◌, List, arith}
use smart_garden.Settings.Types.{FullZone, FullStation, FullSensor, Schedule, max_zones}
use smart_garden.Settings.Eeprom.{Eeprom, eeprom_size}
use smart_garden.Settings.Eeprom.Bytes.{write_bytes, read-write_bytes_out}
use smart_garden.Settings.Layout.Inverse.{
  IsField, IsZone, IsStation, IsSensor, IsSchedule, encode_zone-IsField, encode_station-IsField,
  encode_sensor-IsField, encode_schedule-IsField,
}
use smart_garden.Settings.Layout.{encode_zone, encode_station, encode_sensor, encode_schedule}
use smart_garden.Settings.Blocks.{
  get_num_zones, save_zone, save_station, save_sensor, save_schedule,
}

module _ (E : Eeprom) where
  open E use {Mem, read}

  -- `m'` differs from `m` in the `n` bytes from `a` on at most.
  abbrev pub DiffersAt : ℕ → ℕ → Mem → Mem → Type 0
  DiffersAt a n m m' = (c : ℕ) → (c < a) ⊎ (a + n ≤ c) → read m' c ≡ read m c

  block_differs :
      (m : Mem) (a n : ℕ) (bs : List ℕ) (c : ℕ)
      → IsField n bs
      → a + n ≤ eeprom_size
      → (c < a) ⊎ (a + n ≤ c)
      → read (write_bytes E m a bs) c ≡ read m c
  block_differs m a n bs c h fit out =
      read-write_bytes_out E m a bs c h.1 (omega (arith, h.0)) (omega (arith, h.0))

  pub save_schedule-DiffersAt :
      (m : Mem) (i : ℕ) (sc : Schedule)
      → IsSchedule sc
      → DiffersAt 1536 512 m (save_schedule E m i sc)
  unfolding save_schedule
  save_schedule-DiffersAt m i sc h c out = ground (
    arith,
    block_differs m (1536 + 128 * i) 94 (encode_schedule sc) c (encode_schedule-IsField sc h),
  )

  -- With at most 64 zones in the EEPROM, and whatever the number of the slot is: each saver, of a
  -- structure whose fields fit, writes into the block of its kind only, a station between 768 and
  -- 1536, a sensor between 257 and 641, a schedule between 1536 and 2048, a zone from 2048 on.
  pub savers_in_block :
      (m : Mem) (i : ℕ) (z : FullZone) (st : FullStation) (se : FullSensor) (sc : Schedule)
      → get_num_zones E m ≤ max_zones
      → IsZone z
      → IsStation st
      → IsSensor se
      → IsSchedule sc
      → DiffersAt 2048 2048 m (save_zone E m i z)
        × DiffersAt 768 768 m (save_station E m i st)
        × DiffersAt 257 384 m (save_sensor E m i se)
        × DiffersAt 1536 512 m (save_schedule E m i sc)
  unfolding save_zone save_station save_sensor save_schedule
  savers_in_block m i z st se sc fit hz hst hse hsc = (
    λ c out.
        ground
          (arith, block_differs m (2048 + 32 * i) 25 (encode_zone z) c (encode_zone-IsField z hz)),
    λ c out. ground (
      arith,
      block_differs m (768 + 48 * i) 30 (encode_station st) c (encode_station-IsField st hst),
    ),
    λ c out. ground (
      arith,
      block_differs m (257 + 24 * i) 24 (encode_sensor se) c (encode_sensor-IsField se hse),
    ),
    λ c out. ground (
      arith,
      block_differs m (1536 + 128 * i) 94 (encode_schedule sc) c (encode_schedule-IsField sc hsc),
    ),
  )
