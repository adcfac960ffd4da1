-- ===== src/Core/Switch/Stopped.antt =====
-- `TurnOffZonesWorker` switches off every zone of the local boards.
use smart_garden.Prelude.{
  ℕ, zero, suc, ◌+◌, ◌≤◌, ◌<◌, ◌≡◌, refl, ◌≢◌, ◌⊎◌, true, not, List, [], ◌∷◌, arith, ℕ_discrete,
  leb, ltb, ◌==◌, if◌then◌else◌, get_or, set, get_or-set_ne, u8, if_cases, if_both, sym, subst,
}
use smart_garden.Settings.{ShortZone, ShortStation, max_stations, max_zones, is_enabled_station}
use smart_garden.Core.State.{System, Config, Env, zone_state_off}
use smart_garden.Core.Switch.{
  route_off, turn_off_zone, turn_off_from, turn_off_zones_worker, network_id_local_parallel,
  network_id_local_serial,
}

-- A zone that is enabled and stands on a local board of an enabled station.
pub record IsLocal (c : Config) (e : Env) (z : ℕ) : Type 0 where
  pub enabled : (c.load_short_zone z e.uninit_zone).enabled ≡ true
  pub station : (c.load_short_zone z e.uninit_zone).station_id ≤ max_stations
  pub station_enabled :
      is_enabled_station
        (c.load_short_station (c.load_short_zone z e.uninit_zone).station_id e.uninit_station)
      ≡ true
  pub local :
      let id =
        (c.load_short_station
          (c.load_short_zone z e.uninit_zone).station_id
          e.uninit_station).network_id in
      (id ≡ network_id_local_parallel) ⊎ (id ≡ network_id_local_serial)

-- The cell of a zone is "off".
abbrev pub IsOff : ℕ → System → Type 0
IsOff z s = get_or s.zones z 0 ≡ zone_state_off

set_off : (xs : List ℕ) (z : ℕ) → get_or (set xs z 0) z 0 ≡ 0
set_off [] z = refl
set_off (x ∷ xs) zero = refl
set_off (x ∷ xs) (suc z) = set_off xs z

module _ (c : Config) (e : Env) (z : ℕ) where
  route_off-IsOff :
      (w : ShortZone) (st : ShortStation) (s : System)
      → (st.network_id ≡ network_id_local_parallel) ⊎ (st.network_id ≡ network_id_local_serial)
      → IsOff z (route_off c e w st z s)
  unfolding route_off
  route_off-IsOff w st s h =
      if_cases (IsOff z) (st.network_id == network_id_local_parallel) _ _ (λ _. set_off s.zones z)
        (λ f.
          if_cases (IsOff z) (st.network_id == network_id_local_serial) _ _ (λ _. set_off s.zones z)
            (λ g. absurd (ground (arith, h, f, g))))

  route_off-kept :
      (w : ShortZone) (st : ShortStation) (y : ℕ) (s : System)
      → y ≢ z
      → IsOff z s
      → IsOff z (route_off c e w st y s)
  unfolding route_off
  route_off-kept w st y s ne h =
      ground
        (arith, get_or-set_ne s.zones y z zone_state_off 0 ne, get_or-set_ne s.zones y z 0x25 0 ne)

  turn_off_zone-kept :
      (n : ℕ) (s : System) → u8 (n + 255) ≢ z → IsOff z s → IsOff z (turn_off_zone c e n s)
  unfolding turn_off_zone
  turn_off_zone-kept n s ne h =
      let y = u8 (n + 255) in
      let zone = c.load_short_zone y e.uninit_zone in
      let st = c.load_short_station zone.station_id e.uninit_station in
      ground (arith, route_off-kept zone st y s ne h)

  turn_off_zone-IsOff :
      (s : System)
      → z < c.num_zones
      → z < 64
      → IsLocal c e z
      → IsOff z (turn_off_zone c e (u8 (z + 1)) s)
  unfolding turn_off_zone
  turn_off_zone-IsOff s lt fit l =
      let body : ℕ → System = λ y.
        let zone = c.load_short_zone y e.uninit_zone in
        let st = c.load_short_station zone.station_id e.uninit_station in
        if leb c.num_zones y
        then s
        else if not zone.enabled
        then s
        else if ltb max_stations zone.station_id
        then s
        else if not (is_enabled_station st)
        then s
        else route_off c e zone st y s in
      let same : z ≡ u8 (u8 (z + 1) + 255) = omega arith in
      let zone = c.load_short_zone z e.uninit_zone in
      let st = c.load_short_station zone.station_id e.uninit_station in
      subst (λ y. IsOff z (body y)) same
        (if_cases (IsOff z) (leb c.num_zones z) _ _ (λ t. absurd (ground (arith, t)))
          (λ _.
            if_cases (IsOff z) (not zone.enabled) _ _ (λ t. absurd (ground (arith, t, l.enabled)))
              (λ _.
                if_cases (IsOff z) (ltb max_stations zone.station_id) _ _
                  (λ t. absurd (ground (arith, t, l.station)))
                  (λ _.
                    if_cases (IsOff z) (not (is_enabled_station st)) _ _
                      (λ t. absurd (ground (arith, t, l.station_enabled)))
                      (λ _. route_off-IsOff zone st s l.local)))))

  -- One round of the loop, for the zone of index `i`.
  abbrev round : ℕ → System → System
  round i s = if get_or s.zones i 0 == zone_state_off then s else turn_off_zone c e (u8 (i + 1)) s

  turn_off_from-kept :
      (i n : ℕ) (s : System) → z < i → i + n ≤ 64 → IsOff z s → IsOff z (turn_off_from c e i n s)
  unfolding turn_off_from
  turn_off_from-kept i zero s lt fit h = h
  turn_off_from-kept i (suc n) s lt fit h =
      turn_off_from-kept (i + 1) n (round i s) (omega arith) (omega arith) (
        if_both (IsOff z) (get_or s.zones i 0 == zone_state_off) _ _ h
          (turn_off_zone-kept (u8 (i + 1)) s (λ q. absurd (omega (arith, q))) h))

  turn_off_from-IsOff :
      (i n : ℕ) (s : System)
      → i ≤ z
      → z < i + n
      → i + n ≤ 64
      → z < c.num_zones
      → IsLocal c e z
      → IsOff z (turn_off_from c e i n s)
  unfolding turn_off_from
  turn_off_from-IsOff i zero s le lt fit configured l = absurd (omega arith)
  turn_off_from-IsOff i (suc n) s le lt fit configured l = elim (ℕ_discrete i z) [
    | yes q ↦ turn_off_from-kept (i + 1) n (round i s) (omega arith) (omega arith) (
        subst (λ y. IsOff z (round y s)) (sym q)
          (if_cases (IsOff z) (get_or s.zones z 0 == zone_state_off) _ _
            (λ off. ground (arith, off)) (λ _. turn_off_zone-IsOff s configured (omega arith) l)))
    | no ne ↦
        turn_off_from-IsOff (i + 1) n (round i s) (omega arith) (omega arith) (omega arith)
          configured l
  ]

  pub turn_off_zones_worker-IsOff :
      (s : System)
      → z < c.num_zones
      → c.num_zones ≤ max_zones
      → IsLocal c e z
      → IsOff z (turn_off_zones_worker c e s)
  unfolding turn_off_zones_worker
  turn_off_zones_worker-IsOff s lt fit l =
      turn_off_from-IsOff 0 c.num_zones s (omega arith) (omega arith) (omega arith) lt l
