-- ===== src/Settings/Blocks/Slots.antt =====
-- A slot that is saved is loaded again, and the other slots of its block are as before.
use smart_garden.Prelude.{
  ℕ, ◌+◌, ◌*◌, ◌≤◌, ◌<◌, ◌≡◌, subst, ◌⊎◌, List, arith, ℕ_discrete, ◌==◌, if◌then◌else◌,
}
use smart_garden.Settings.Types.{FullStation, max_stations}
use smart_garden.Settings.Eeprom.{Eeprom, eeprom_size}
use smart_garden.Settings.Eeprom.Bytes.{
  write_bytes, read_bytes, read_bytes-write_bytes, read_bytes-write_bytes_out, read-write_bytes_out,
}
use smart_garden.Settings.Layout.{encode_zone, encode_station, encode_sensor, encode_schedule}
use smart_garden.Settings.Layout.Inverse.{
  IsField, IsZone, IsStation, IsSensor, IsSchedule, decode-encode_zone, encode_zone-IsField,
  decode-encode_station, encode_station-IsField, decode-encode_sensor, encode_sensor-IsField,
  decode-encode_schedule, encode_schedule-IsField,
}
use smart_garden.Settings.Blocks.{
  get_num_zones, load_zone, save_zone, load_station, save_station, load_sensor, save_sensor,
  load_schedule, save_schedule,
}
use smart_garden.Settings.{FullZone, max_zones, Schedule, FullSensor, max_sensors, max_schedules}

module _ (E : Eeprom) where
  open E use {Mem, read}

  -- One slot of `n` bytes, whose bytes are `bs`.
  slot_self :
      (m : Mem) (a n : ℕ) (bs : List ℕ)
      → IsField n bs
      → a + n ≤ eeprom_size
      → read_bytes E (write_bytes E m a bs) a n ≡ bs
  slot_self m a n bs h fit =
      subst (λ k. read_bytes E (write_bytes E m a bs) a k ≡ bs) h.0
        (read_bytes-write_bytes E m a bs h.1 (omega (arith, h.0)))

  pub slot_other :
      (m : Mem) (a n b k : ℕ) (bs : List ℕ)
      → IsField n bs
      → a + n ≤ eeprom_size
      → (b + k ≤ a) ⊎ (a + n ≤ b)
      → read_bytes E (write_bytes E m a bs) b k ≡ read_bytes E m b k
  slot_other m a n b k bs h fit out =
      read_bytes-write_bytes_out E m a bs b k h.1 (omega (arith, h.0)) (omega (arith, h.0))

  -- A saved station whose fields fit is loaded from its slot, and every other slot has the station it
  -- had.
  pub load-save_station :
      (m : Mem) (i j : ℕ) (s old : FullStation)
      → i < max_stations
      → j < max_stations
      → IsStation s
      → load_station E (save_station E m i s) j old ≡ (if i == j then s else load_station E m j old)
  unfolding load_station save_station
  load-save_station m i j s old li lj h = elim (ℕ_discrete i j) [
    | yes p ↦ ground (
      arith,
      slot_self m (768 + 48 * i) 30 (encode_station s) (encode_station-IsField s h) (omega arith),
      decode-encode_station s h,
    )
    | no p ↦ ground (
      arith,
      slot_other m (768 + 48 * i) 30 (768 + 48 * j) 30 (encode_station s)
          (encode_station-IsField s h) (omega arith) (omega arith),
    )
  ]

  -- A saved sensor whose fields fit is loaded from its slot, and every other slot has the sensor it had.
  pub load-save_sensor :
      (m : Mem) (i j : ℕ) (s old : FullSensor)
      → i < max_sensors
      → j < max_sensors
      → IsSensor s
      → load_sensor E (save_sensor E m i s) j old ≡ (if i == j then s else load_sensor E m j old)
  unfolding load_sensor save_sensor
  load-save_sensor m i j s old li lj h = elim (ℕ_discrete i j) [
    | yes p ↦ ground (
      arith,
      slot_self m (257 + 24 * i) 24 (encode_sensor s) (encode_sensor-IsField s h) (omega arith),
      decode-encode_sensor s h,
    )
    | no p ↦ ground (
      arith,
      slot_other m (257 + 24 * i) 24 (257 + 24 * j) 24 (encode_sensor s) (encode_sensor-IsField s h)
          (omega arith) (omega arith),
    )
  ]

  -- A saved schedule whose fields fit is loaded from its slot, and every other slot has the schedule
  -- it had.
  pub load-save_schedule :
      (m : Mem) (i j : ℕ) (s old : Schedule)
      → i < max_schedules
      → j < max_schedules
      → IsSchedule s
      → load_schedule E (save_schedule E m i s) j old
        ≡ (if i == j then s else load_schedule E m j old)
  unfolding load_schedule save_schedule
  load-save_schedule m i j s old li lj h = elim (ℕ_discrete i j) [
    | yes p ↦ ground (
      arith,
      slot_self m (1536 + 128 * i) 94 (encode_schedule s) (encode_schedule-IsField s h)
          (omega arith),
      decode-encode_schedule s h,
    )
    | no p ↦ ground (
      arith,
      slot_other m (1536 + 128 * i) 94 (1536 + 128 * j) 94 (encode_schedule s)
          (encode_schedule-IsField s h) (omega arith) (omega arith),
    )
  ]

  -- Saving a zone leaves the number of zones alone.
  num_zones-save :
      (m : Mem) (i : ℕ) (z : FullZone)
      → i < max_zones
      → IsZone z
      → read (write_bytes E m (2048 + 32 * i) (encode_zone z)) 7 ≡ read m 7
  num_zones-save m i z li h =
      read-write_bytes_out E m (2048 + 32 * i) (encode_zone z) 7 (encode_zone-IsField z h).1
        (omega (arith, (encode_zone-IsField z h).0)) (omega arith)

  -- With at most 64 zones in the EEPROM: a saved zone whose fields fit is loaded from its slot, and
  -- every other slot has the zone it had; the number of zones stays.
  pub load-save_zone :
      (m : Mem) (i j : ℕ) (z old : FullZone)
      → get_num_zones E m ≤ max_zones
      → i < get_num_zones E m
      → j < get_num_zones E m
      → IsZone z
      → (load_zone E (save_zone E m i z) j old ≡ (if i == j then z else load_zone E m j old))
        × (get_num_zones E (save_zone E m i z) ≡ get_num_zones E m)
  unfolding load_zone save_zone
  load-save_zone m i j z old fit li lj h =
      let kept = num_zones-save m i z (omega arith) h in
      elim (ℕ_discrete i j) [
        | yes p ↦ ground (
          arith,
          kept,
          slot_self m (2048 + 32 * i) 25 (encode_zone z) (encode_zone-IsField z h) (omega arith),
          decode-encode_zone z h,
        )
        | no p ↦ ground (
          arith,
          kept,
          slot_other m (2048 + 32 * i) 25 (2048 + 32 * j) 25 (encode_zone z)
              (encode_zone-IsField z h) (omega arith) (omega arith),
        )
      ]
