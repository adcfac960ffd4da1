-- ===== src/Settings/Layout/Inverse.antt =====
-- Decoding gives back what was encoded, for structures whose fields fit their types.
use smart_garden.Prelude.{
  ℕ, ◌≤◌, ◌<◌, ◌≡◌, List, arith, length, All, ℤ, pos_part, neg_part, ap₂, suc, ◌+◌, ◌*◌, ◌/◌, ◌%◌,
  refl, sym, ap, ◌∙◌, subst, [], ◌∷◌, ◌++◌, take, drop, length-append, pos, negsuc, i16, u16_of,
}
use smart_garden.Settings.Types.{FullZone, FullStation, FullSensor, Schedule}
use smart_garden.Settings.Eeprom.Bytes.{AllBytes}
use smart_garden.Settings.Layout.{
  encode_zone, decode_zone, encode_station, decode_station, encode_sensor, decode_sensor,
  encode_schedule, encode_times, decode_times, decode_schedule,
}

-- A string field of `n` bytes.
abbrev pub IsField : ℕ → List ℕ → Type 0
IsField n bs = (length bs ≡ n) × AllBytes bs

pub record IsZone (z : FullZone) : Type 0 where
  pub station_id : z.station_id < 256
  pub channel : z.channel < 256
  pub water_flow_rate : z.water_flow_rate < 65536
  pub name : IsField 20 z.name

pub record IsStation (s : FullStation) : Type 0 where
  pub station_flags : s.station_flags < 256
  pub network_id : s.network_id < 256
  pub num_zone_channels : s.num_zone_channels < 256
  pub start_zone : s.start_zone < 256
  pub network_address : s.network_address < 65536
  pub num_temp_sensors : s.num_temp_sensors < 256
  pub num_humidity_sensors : s.num_humidity_sensors < 256
  pub num_pressure_sensors : s.num_pressure_sensors < 256
  pub num_waterflow_sensors : s.num_waterflow_sensors < 256
  pub name : IsField 20 s.name

pub record IsSensor (s : FullSensor) : Type 0 where
  pub sensor_type : s.sensor_type < 256
  pub flags : s.flags < 256
  pub sensor_station_id : s.sensor_station_id < 256
  pub sensor_channel : s.sensor_channel < 256
  pub name : IsField 20 s.name

-- A value of a `short`.
abbrev pub IsShort : ℤ → Type 0
IsShort t = (pos_part t < 32768) × (neg_part t ≤ 32768)

pub record IsSchedule (s : Schedule) : Type 0 where
  pub flags : s.flags < 256
  pub day : s.day < 256
  pub name : IsField 20 s.name
  pub times : length s.time ≡ 4
  pub shorts : All IsShort s.time
  pub zone_duration : IsField 64 s.zone_duration

pub decode-encode_zone : (z : FullZone) → IsZone z → decode_zone (encode_zone z) ≡ z
unfolding encode_zone decode_zone
decode-encode_zone z h = ground arith

pub encode_zone-IsField : (z : FullZone) → IsZone z → IsField 25 (encode_zone z)
unfolding encode_zone
encode_zone-IsField z h = ground arith

pub decode-encode_station : (s : FullStation) → IsStation s → decode_station (encode_station s) ≡ s
unfolding encode_station decode_station
decode-encode_station s h = ground arith

pub encode_station-IsField : (s : FullStation) → IsStation s → IsField 30 (encode_station s)
unfolding encode_station
encode_station-IsField s h = ground arith

pub decode-encode_sensor : (s : FullSensor) → IsSensor s → decode_sensor (encode_sensor s) ≡ s
unfolding encode_sensor decode_sensor
decode-encode_sensor s h = ground arith

pub encode_sensor-IsField : (s : FullSensor) → IsSensor s → IsField 24 (encode_sensor s)
unfolding encode_sensor
encode_sensor-IsField s h = ground arith

drop-append {ℓ} :
    {A : Type ℓ} (xs ys : List A) (k : ℕ) → drop (length xs + k) (xs ++ ys) ≡ drop k ys
drop-append [] ys k = ap (λ n. drop n ys) (omega arith)
drop-append (x ∷ xs) ys k =
    ap (λ n. drop n (x ∷ (xs ++ ys))) {x = suc (length xs) + k} {y = suc (length xs + k)}
      (omega arith)
    ∙ drop-append xs ys k

take-append {ℓ} : {A : Type ℓ} (xs ys : List A) → take (length xs) (xs ++ ys) ≡ xs
take-append [] ys = refl
take-append (x ∷ xs) ys = ap (λ t. x ∷ t) (take-append xs ys)

i16-u16_of : (t : ℤ) → IsShort t → i16 (u16_of t % 256 + 256 * (u16_of t / 256)) ≡ t
i16-u16_of (pos n) h = ground arith
i16-u16_of (negsuc n) h = ground arith

u16_of-lt : (t : ℤ) → u16_of t < 65536
u16_of-lt (pos n) = omega arith
u16_of-lt (negsuc n) = omega arith

length-encode_times : (ts : List ℤ) → length (encode_times ts) ≡ 2 * length ts
unfolding encode_times
length-encode_times [] = refl
length-encode_times (t ∷ ts) = omega (arith, length-encode_times ts)

encode_times-AllBytes : (ts : List ℤ) → AllBytes (encode_times ts)
unfolding encode_times
encode_times-AllBytes [] = tt
encode_times-AllBytes (t ∷ ts) =
    (omega arith, (ground (arith, u16_of-lt t), encode_times-AllBytes ts))

decode-encode_times :
    (ts : List ℤ) (rest : List ℕ)
    → All IsShort ts
    → decode_times (length ts) (encode_times ts ++ rest) ≡ ts
unfolding encode_times decode_times
decode-encode_times [] rest h = refl
decode-encode_times (t ∷ ts) rest h = ap₂ ◌∷◌ (i16-u16_of t h.0) (decode-encode_times ts rest h.1)

All-append {ℓ κ} :
    {A : Type ℓ} (P : A → Type κ) (xs ys : List A) → All P xs → All P ys → All P (xs ++ ys)
All-append P [] ys h k = k
All-append P (x ∷ xs) ys h k = (h.0, All-append P xs ys h.1 k)

pub encode_schedule-IsField : (s : Schedule) → IsSchedule s → IsField 94 (encode_schedule s)
unfolding encode_schedule
encode_schedule-IsField s h =
    let rest = encode_times s.time ++ s.zone_duration in
    (
      omega (
        arith,
        length-append s.name rest,
        length-append (encode_times s.time) s.zone_duration,
        length-encode_times s.time,
        h.name.0,
        h.zone_duration.0,
        h.times,
      ),
      (
        h.flags,
        (
          h.day,
          All-append (λ b. b < 256) s.name rest h.name.1
              (All-append (λ b. b < 256) (encode_times s.time) s.zone_duration
                (encode_times-AllBytes s.time) h.zone_duration.1),
        ),
      ),
    )

drop_at {ℓ} :
    {A : Type ℓ} (n k : ℕ) (xs ys : List A) → n ≡ length xs + k → drop n (xs ++ ys) ≡ drop k ys
drop_at n k xs ys e = ap (λ m. drop m (xs ++ ys)) e ∙ drop-append xs ys k

take_at {ℓ} : {A : Type ℓ} (n : ℕ) (xs ys : List A) → n ≡ length xs → take n (xs ++ ys) ≡ xs
take_at n xs ys e = ap (λ m. take m (xs ++ ys)) e ∙ take-append xs ys

pub decode-encode_schedule : (s : Schedule) → IsSchedule s → decode_schedule (encode_schedule s) ≡ s
unfolding encode_schedule decode_schedule
decode-encode_schedule s h =
    let ts = encode_times s.time in
    let rest = ts ++ s.zone_duration in
    let d20 : drop 20 (s.name ++ rest) ≡ rest =
      drop_at 20 0 s.name rest (omega (arith, h.name.0)) in
    let t20 : take 20 (s.name ++ rest) ≡ s.name = take_at 20 s.name rest (sym h.name.0) in
    let d28 : drop 28 (s.name ++ rest) ≡ s.zone_duration =
      drop_at 28 8 s.name rest (omega (arith, h.name.0))
      ∙ drop_at 8 0 ts s.zone_duration (omega (arith, length-encode_times s.time, h.times)) in
    let t4 : decode_times 4 rest ≡ s.time =
      subst (λ n. decode_times n rest ≡ s.time) h.times
        (decode-encode_times s.time s.zone_duration h.shorts) in
    λ i. record {
      flags = s.flags;
      day = s.day;
      name = t20 i;
      time = (ap (decode_times 4) d20 ∙ t4) i;
      zone_duration = d28 i;
    }
