-- ===== src/Settings/Scalars/Water/Rollover.antt =====
-- What the daily roll-over of the water counters keeps.
use smart_garden.Prelude.{
  if_cases, if_true, if_false, ℕ, ◌+◌, ◌-◌, ◌*◌, ◌/◌, ◌≤◌, ◌<◌, ◌≡◌, sym, ap, ◌∙◌, subst, true,
  false, arith, ltb, if◌then◌else◌, u8, u32,
}
use smart_garden.Settings.Eeprom.{Eeprom}
use smart_garden.Settings.Scalars.Words.{
  set_eeprom_2bytes, get_eeprom_2bytes, set_eeprom_4bytes, get_eeprom_4bytes,
}
use smart_garden.Settings.Scalars.RoundTrip.{get-set_2bytes, get-set_4bytes}
use smart_garden.Settings.Scalars.Water.{
  Calendar, is_same_day, set_ww_counter, internal_get_ww_counter, set_total_wcounter,
  get_total_wcounter, get_wcounter_date, set_wcounter_date, check_ww_counter,
}

u32_lt : (n : ℕ) → u32 n < 4294967296
u32_lt n = omega arith

module _ (E : Eeprom) where
  open E use {Mem, read}

  get_4bytes-eq :
      (m m' : Mem) (a : ℕ)
      → ((c : ℕ) → a ≤ c → c < a + 4 → read m' c ≡ read m c)
      → get_eeprom_4bytes E m' a ≡ get_eeprom_4bytes E m a
  unfolding get_eeprom_4bytes
  get_4bytes-eq m m' a h = ground (
    arith,
    h a (omega arith) (omega arith),
    h (a + 1) (omega arith) (omega arith),
    h (a + 2) (omega arith) (omega arith),
    h (a + 3) (omega arith) (omega arith),
  )

  get_2bytes-eq :
      (m m' : Mem) (a : ℕ)
      → ((c : ℕ) → a ≤ c → c < a + 2 → read m' c ≡ read m c)
      → get_eeprom_2bytes E m' a ≡ get_eeprom_2bytes E m a
  unfolding get_eeprom_2bytes
  get_2bytes-eq m m' a h =
      ground (arith, h a (omega arith) (omega arith), h (a + 1) (omega arith) (omega arith))

  rolled : ℕ → Mem → ℕ → ℕ → Mem
  rolled now m total dow =
      set_ww_counter E (set_wcounter_date E (set_total_wcounter E m total) dow now) dow 0

  rolled_lem :
      (now : ℕ) (m : Mem) (total dow : ℕ)
      → dow < 7
      → now < 4294967296
      → total < 4294967296
      → (get_total_wcounter E (rolled now m total dow) ≡ total)
        × (internal_get_ww_counter E (rolled now m total dow) dow ≡ 0)
        × (get_wcounter_date E (rolled now m total dow) dow ≡ now)
  unfolding rolled set_ww_counter set_wcounter_date set_total_wcounter get_total_wcounter
      internal_get_ww_counter get_wcounter_date
  rolled_lem now m total dow ld ln lt =
      let m1 = set_eeprom_4bytes E m 657 total in
      let m2 = set_eeprom_4bytes E m1 (661 + dow * 4) now in
      let m3 = set_eeprom_2bytes E m2 (642 + dow * 2) 0 in
      let (t1, _, _, _, _, k1) = get-set_4bytes E m 657 total (omega arith) lt in
      let (t2, _, _, _, _, k2) = get-set_4bytes E m1 (661 + dow * 4) now (omega arith) ln in
      let (t3, _, _, k3) = get-set_2bytes E m2 (642 + dow * 2) 0 (omega arith) (omega arith) in
      if_cases
        (λ n.
          (get_eeprom_4bytes E n 657 ≡ total)
          × (get_eeprom_2bytes E n (642 + dow * 2) ≡ 0)
          × (get_eeprom_4bytes E n (661 + dow * 4) ≡ now))
        (ltb 6 dow) m2 m3 (λ big. absurd (ground arith))
        (λ small. (
          get_4bytes-eq m2 m3 657 (λ c lo hi. k3 c (omega arith))
              ∙ get_4bytes-eq m1 m2 657 (λ c lo hi. k2 c (omega arith))
              ∙ t1,
          t3,
          get_4bytes-eq m2 m3 (661 + dow * 4) (λ c lo hi. k3 c (omega arith)) ∙ t2,
        ))

  u8_weekday : (w : ℕ) → 1 ≤ w → w ≤ 7 → u8 (w + 255) ≡ w - 1
  u8_weekday w lo hi = omega arith

  -- On the first use on a new day, the counter of the weekday is added to the lifetime counter in whole
  -- gallons (modulo 2 ^ 32) and starts at zero, dated now; on a day already dated nothing changes.
  pub check_ww_counter_lem :
      (k : Calendar) (m : Mem)
      → 1 ≤ k.weekday k.now
      → k.weekday k.now ≤ 7
      → k.now < 4294967296
      → let dow = k.weekday k.now - 1 in
        let m' = check_ww_counter E k m in
        (is_same_day E k (get_wcounter_date E m dow) ≡ true → m' ≡ m)
        × (is_same_day E k (get_wcounter_date E m dow) ≡ false
            → (get_total_wcounter E m'
                ≡ u32 (get_total_wcounter E m + internal_get_ww_counter E m dow / 100))
              × (internal_get_ww_counter E m' dow ≡ 0)
              × (get_wcounter_date E m' dow ≡ k.now))
  unfolding check_ww_counter rolled
  check_ww_counter_lem k m lo hi lt =
      let dow = k.weekday k.now - 1 in
      let total = u32 (get_total_wcounter E m + internal_get_ww_counter E m dow / 100) in
      let after = rolled k.now m total dow in
      let e : check_ww_counter E k m
          ≡ (if is_same_day E k (get_wcounter_date E m dow) then m else after) =
        ap
          (λ d.
            if is_same_day E k (get_wcounter_date E m d)
            then m
            else rolled k.now m (u32 (get_total_wcounter E m + internal_get_ww_counter E m d / 100))
                d)
          (u8_weekday (k.weekday k.now) lo hi) in
      (
        λ same. e ∙ if_true (is_same_day E k (get_wcounter_date E m dow)) m after same,
        λ other.
            subst
              (λ n.
                (get_total_wcounter E n ≡ total)
                × (internal_get_ww_counter E n dow ≡ 0)
                × (get_wcounter_date E n dow ≡ k.now))
              (sym (e ∙ if_false (is_same_day E k (get_wcounter_date E m dow)) m after other))
              (rolled_lem k.now m total dow (omega arith) lt
                (u32_lt (get_total_wcounter E m + internal_get_ww_counter E m dow / 100))),
      )
