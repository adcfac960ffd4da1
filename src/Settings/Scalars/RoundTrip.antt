-- ===== src/Settings/Scalars/RoundTrip.antt =====
-- Setters and getters of single values agree, and the two flags of the option byte are independent.
use smart_garden.Prelude.{
  if_cases, ap₂, ℕ, zero, suc, ◌+◌, ◌*◌, ◌/◌, ◌%◌, ◌≤◌, ◌<◌, ◌≡◌, refl, ap, ◌∙◌, subst, ◌⊎◌, Bool,
  true, false, List, [], ◌∷◌, arith, ◌==◌, if◌then◌else◌, length, replicate, All, set_bit,
  clear_bit,
}
use smart_garden.Settings.Eeprom.{Eeprom, eeprom_size}
use smart_garden.Settings.Eeprom.Bytes.{AllBytes, write_bytes, read_bytes, read_bytes-write_bytes}
use smart_garden.Settings.Scalars.Words.{
  set_eeprom_2bytes, get_eeprom_2bytes, set_eeprom_4bytes, get_eeprom_4bytes, set_web_port,
  get_web_port, set_zip, get_zip,
}
use smart_garden.Settings.Scalars.Flags.{
  get_run_schedules, set_run_schedules, get_use_pws, set_use_pws,
}
use smart_garden.Settings.Scalars.Network.{
  to_hex, hex_digit, pack_key, print_key, get_api_key, set_api_key,
}

module _ (E : Eeprom) where
  open E use {Mem, read, write, read-write, read-lt}

  -- A 16-bit value is read back at every address, its low byte comes first, and bytes outside its two
  -- are kept.
  pub get-set_2bytes :
      (m : Mem) (a v : ℕ)
      → a + 1 < eeprom_size
      → v < 65536
      → (get_eeprom_2bytes E (set_eeprom_2bytes E m a v) a ≡ v)
        × (read (set_eeprom_2bytes E m a v) a ≡ v % 256)
        × (read (set_eeprom_2bytes E m a v) (a + 1) ≡ v / 256)
        × ((c : ℕ) → (c < a) ⊎ (a + 1 < c) → read (set_eeprom_2bytes E m a v) c ≡ read m c)
  unfolding set_eeprom_2bytes get_eeprom_2bytes
  get-set_2bytes m a v la lv =
      let m1 = write m a (v % 256) in
      (
        ground (
          arith,
          read-write m1 (a + 1) a (v / 256 % 256),
          read-write m a a (v % 256),
          read-write m1 (a + 1) (a + 1) (v / 256 % 256),
        ),
        ground (arith, read-write m1 (a + 1) a (v / 256 % 256), read-write m a a (v % 256)),
        ground (arith, read-write m1 (a + 1) (a + 1) (v / 256 % 256)),
        λ c out.
            ground (arith, read-write m1 (a + 1) c (v / 256 % 256), read-write m a c (v % 256)),
      )

  -- A 32-bit value is read back at every address, its bytes go from the lowest to the highest, and bytes
  -- outside its four are kept.
  pub get-set_4bytes :
      (m : Mem) (a v : ℕ)
      → a + 3 < eeprom_size
      → v < 4294967296
      → (get_eeprom_4bytes E (set_eeprom_4bytes E m a v) a ≡ v)
        × (read (set_eeprom_4bytes E m a v) a ≡ v % 256)
        × (read (set_eeprom_4bytes E m a v) (a + 1) ≡ v / 256 % 256)
        × (read (set_eeprom_4bytes E m a v) (a + 2) ≡ v / 65536 % 256)
        × (read (set_eeprom_4bytes E m a v) (a + 3) ≡ v / 16777216)
        × ((c : ℕ) → (c < a) ⊎ (a + 3 < c) → read (set_eeprom_4bytes E m a v) c ≡ read m c)
  unfolding set_eeprom_4bytes get_eeprom_4bytes
  get-set_4bytes m a v la lv =
      let v0 = v % 256 in
      let v1 = v / 256 % 256 in
      let v2 = v / 65536 % 256 in
      let v3 = v / 16777216 % 256 in
      let m1 = write m a v0 in
      let m2 = write m1 (a + 1) v1 in
      let m3 = write m2 (a + 2) v2 in
      let at : (c : ℕ)
          → read (write m3 (a + 3) v3) c ≡ (
              if a + 3 == c
              then v3
              else if a + 2 == c
              then v2
              else if a + 1 == c
              then v1
              else if a == c
              then v0
              else read m c) =
        λ c. ground (
          arith,
          read-write m3 (a + 3) c v3,
          read-write m2 (a + 2) c v2,
          read-write m1 (a + 1) c v1,
          read-write m a c v0,
        ) in
      (
        ground (arith, at a, at (a + 1), at (a + 2), at (a + 3)),
        ground (arith, at a),
        ground (arith, at (a + 1)),
        ground (arith, at (a + 2)),
        ground (arith, at (a + 3)),
        λ c out. ground (arith, at c),
      )

  -- The port of the web server and the zip code are read back, high byte first.
  get-set_web_port-zip :
      (m : Mem) (port zip : ℕ)
      → port < 65536
      → zip < 4294967296
      → (get_web_port E (set_web_port E m port) ≡ port)
        × (read (set_web_port E m port) 79 ≡ port / 256)
        × (read (set_web_port E m port) 80 ≡ port % 256)
        × (get_zip E (set_zip E m zip) ≡ zip)
        × (read (set_zip E m zip) 66 ≡ zip / 16777216)
        × (read (set_zip E m zip) 67 ≡ zip / 65536 % 256)
        × (read (set_zip E m zip) 68 ≡ zip / 256 % 256)
        × (read (set_zip E m zip) 69 ≡ zip % 256)
  unfolding set_web_port get_web_port set_zip get_zip
  get-set_web_port-zip m port zip lp lz =
      let p1 = port / 256 % 256 in
      let z3 = zip / 16777216 % 256 in
      let z2 = zip / 65536 % 256 in
      let z1 = zip / 256 % 256 in
      let z0 = zip % 256 in
      let m1 = write m 66 z3 in
      let m2 = write m1 67 z2 in
      let m3 = write m2 68 z1 in
      (
        ground (
          arith,
          read-write (write m 79 p1) 80 79 (port % 256),
          read-write m 79 79 p1,
          read-write (write m 79 p1) 80 80 (port % 256),
        ),
        ground (arith, read-write (write m 79 p1) 80 79 (port % 256), read-write m 79 79 p1),
        ground (arith, read-write (write m 79 p1) 80 80 (port % 256)),
        ground (
          arith,
          read-write m3 69 69 z0,
          read-write m3 69 68 z0,
          read-write m2 68 68 z1,
          read-write m3 69 67 z0,
          read-write m2 68 67 z1,
          read-write m1 67 67 z2,
          read-write m3 69 66 z0,
          read-write m2 68 66 z1,
          read-write m1 67 66 z2,
          read-write m 66 66 z3,
        ),
        ground (
          arith,
          read-write m3 69 66 z0,
          read-write m2 68 66 z1,
          read-write m1 67 66 z2,
          read-write m 66 66 z3,
        ),
        ground (arith, read-write m3 69 67 z0, read-write m2 68 67 z1, read-write m1 67 67 z2),
        ground (arith, read-write m3 69 68 z0, read-write m2 68 68 z1),
        ground (arith, read-write m3 69 69 z0),
      )

  -- Values of several bytes are read back: one of 16 bits and one of 32 bits at every address where they
  -- fit, which are stored with the low byte first and leave all bytes outside them as they were, and the
  -- port of the web server and the zip code, which are stored with the high byte first.
  pub get-set_words :
      (m : Mem) (a2 v2 a4 v4 port zip : ℕ)
      → a2 + 1 < eeprom_size
      → v2 < 65536
      → a4 + 3 < eeprom_size
      → v4 < 4294967296
      → port < 65536
      → zip < 4294967296
      → ((get_eeprom_2bytes E (set_eeprom_2bytes E m a2 v2) a2 ≡ v2)
          × (read (set_eeprom_2bytes E m a2 v2) a2 ≡ v2 % 256)
          × (read (set_eeprom_2bytes E m a2 v2) (a2 + 1) ≡ v2 / 256)
          × ((c : ℕ) → (c < a2) ⊎ (a2 + 1 < c) → read (set_eeprom_2bytes E m a2 v2) c ≡ read m c))
        × ((get_eeprom_4bytes E (set_eeprom_4bytes E m a4 v4) a4 ≡ v4)
            × (read (set_eeprom_4bytes E m a4 v4) a4 ≡ v4 % 256)
            × (read (set_eeprom_4bytes E m a4 v4) (a4 + 1) ≡ v4 / 256 % 256)
            × (read (set_eeprom_4bytes E m a4 v4) (a4 + 2) ≡ v4 / 65536 % 256)
            × (read (set_eeprom_4bytes E m a4 v4) (a4 + 3) ≡ v4 / 16777216)
            × ((c : ℕ) → (c < a4) ⊎ (a4 + 3 < c) → read (set_eeprom_4bytes E m a4 v4) c ≡ read m c))
        × ((get_web_port E (set_web_port E m port) ≡ port)
            × (read (set_web_port E m port) 79 ≡ port / 256)
            × (read (set_web_port E m port) 80 ≡ port % 256)
            × (get_zip E (set_zip E m zip) ≡ zip)
            × (read (set_zip E m zip) 66 ≡ zip / 16777216)
            × (read (set_zip E m zip) 67 ≡ zip / 65536 % 256)
            × (read (set_zip E m zip) 68 ≡ zip / 256 % 256)
            × (read (set_zip E m zip) 69 ≡ zip % 256))
  get-set_words m a2 v2 a4 v4 port zip l2 b2 l4 b4 lp lz = (
    get-set_2bytes m a2 v2 l2 b2,
    get-set_4bytes m a4 v4 l4 b4,
    get-set_web_port-zip m port zip lp lz,
  )

  -- Each flag of the option byte is read back as it was set, and setting one leaves the other alone.
  pub option_flags :
      (m : Mem) (v : Bool)
      → (get_run_schedules E (set_run_schedules E m v) ≡ v)
        × (get_use_pws E (set_run_schedules E m v) ≡ get_use_pws E m)
        × (get_use_pws E (set_use_pws E m v) ≡ v)
        × (get_run_schedules E (set_use_pws E m v) ≡ get_run_schedules E m)
  unfolding get_run_schedules set_run_schedules get_use_pws set_use_pws
  option_flags m true = (
    ground (arith, read-lt m 5, read-write m 5 5 (set_bit (read m 5) 1)),
    ground (arith, read-lt m 5, read-write m 5 5 (set_bit (read m 5) 1)),
    ground (arith, read-lt m 5, read-write m 5 5 (set_bit (read m 5) 2)),
    ground (arith, read-lt m 5, read-write m 5 5 (set_bit (read m 5) 2)),
  )
  option_flags m false = (
    ground (arith, read-lt m 5, read-write m 5 5 (clear_bit (read m 5) 1)),
    ground (arith, read-lt m 5, read-write m 5 5 (clear_bit (read m 5) 1)),
    ground (arith, read-lt m 5, read-write m 5 5 (clear_bit (read m 5) 2)),
    ground (arith, read-lt m 5, read-write m 5 5 (clear_bit (read m 5) 2)),
  )

-- The digits 0-9 and a-f, as `print_key` writes them.
abbrev IsHex : ℕ → Type 0
IsHex c = (b'0' ≤ c) × (c ≤ b'9') ⊎ (b'a' ≤ c) × (c ≤ b'f')

hex_digit-to_hex : (c : ℕ) → IsHex c → (hex_digit (to_hex c) ≡ c) × (to_hex c < 16)
unfolding hex_digit to_hex
hex_digit-to_hex c h = ground arith

print-pack_key :
    (n : ℕ) (key : List ℕ)
    → length key ≡ 2 * n
    → All IsHex key
    → (print_key (pack_key n key) ≡ key) × AllBytes (pack_key n key) × (length (pack_key n key) ≡ n)
unfolding print_key pack_key
print-pack_key zero [] e h = (refl, tt, refl)
print-pack_key zero (x ∷ key) e h = absurd (omega arith)
print-pack_key (suc n) [] e h = absurd (omega arith)
print-pack_key (suc n) (x ∷ []) e h = absurd (omega arith)
print-pack_key (suc n) (x ∷ (y ∷ key)) e h =
    let (ex, lx) = hex_digit-to_hex x h.0 in
    let (ey, ly) = hex_digit-to_hex y h.1.0 in
    let (rest, bytes, len) = print-pack_key n key (omega arith) h.1.1 in
    let hi : (to_hex x * 16 + to_hex y) / 16 ≡ to_hex x = omega arith in
    let lo : (to_hex x * 16 + to_hex y) % 16 ≡ to_hex y = omega arith in
    (
      ap₂ ◌∷◌ (ap hex_digit hi ∙ ex) (ap₂ ◌∷◌ (ap hex_digit lo ∙ ey) rest),
      (omega arith, bytes),
      ap suc len,
    )

module _ (E : Eeprom) where
  open E use {Mem}

  -- A weather key of 16 lower-case hexadecimal digits is read back as it was set.
  get-set_api_key :
      (m : Mem) (key : List ℕ)
      → length key ≡ 16
      → All IsHex key
      → get_api_key E (set_api_key E m key) ≡ key
  unfolding get_api_key set_api_key
  get-set_api_key m key e h =
      let (printed, bytes, len) = print-pack_key 8 key e h in
      if_cases (λ n. print_key (read_bytes E n 70 8) ≡ key) (length key == 16)
        (write_bytes E m 70 (pack_key 8 key)) (write_bytes E m 70 (replicate 8 0))
        (λ same.
          ap print_key (
            subst (λ n. read_bytes E (write_bytes E m 70 (pack_key 8 key)) 70 n ≡ pack_key 8 key)
              len (read_bytes-write_bytes E m 70 (pack_key 8 key) bytes (omega arith)))
          ∙ printed)
        (λ other. absurd (ground arith))
