-- ===== src/Forms/Zones.antt =====
-- `SetZones` and `SetOneZones` on the pairs of a form.
use smart_garden.Prelude.{
  ℕ, zero, suc, ◌+◌, Bool, true, false, ◌&&◌, Option, none, some, List, [], ◌∷◌, leb, ◌==◌,
  if◌then◌else◌, drop, ℤ, pos, negsuc, pos_part, ltb_ℤ, int, u8,
}
use smart_garden.Prelude.Text.{same_text, strncpy}
use smart_garden.Settings.{FullZone}
use smart_garden.Settings.Eeprom.{Eeprom}
use smart_garden.Settings.Blocks.{get_num_zones, load_zone, save_zone}
use smart_garden.Forms.Pairs.{KvPairs, is_on, text_id, text_name, char_at}

abbrev pub text_enabled : List ℕ
text_enabled = b'e' ∷ b'n' ∷ b'a' ∷ b'b' ∷ b'l' ∷ b'e' ∷ b'd' ∷ []

abbrev pub text_wfrate : List ℕ
text_wfrate = b'w' ∷ b'f' ∷ b'r' ∷ b'a' ∷ b't' ∷ b'e' ∷ []

-- The inner loop of `SetZones` for the letter `zcode`: the zone, and whether a pair named it.
unfoldable pub zone_pairs : ℕ → KvPairs → FullZone × Bool → FullZone × Bool
zone_pairs zcode [] r = r
zone_pairs zcode (p ∷ ps) r =
    let key = p.0 in
    let value = p.1 in
    let zone = r.0 in
    let zone1 =
      if same_text (drop 2 key) text_name
      then record zone { name = strncpy 20 value }
      else if char_at key 2 == b'e' && char_at key 3 == 0
      then record zone { enabled = is_on value }
      else zone in
    zone_pairs zcode ps
      (if char_at key 0 == b'z' && char_at key 1 == zcode then (zone1, true) else r)

-- The locals of `SetOneZones`: the zone's number, when a pair has given one, and the structure.
pub record ZoneForm : Type 0 where
  pub zn : Option ℕ
  pub zone : FullZone

module _ (E : Eeprom) where
  open E use {Mem}

  -- The loop over the `n` zones from `zn` on; `old` is what the structure held before.
  unfoldable pub set_zones_from : KvPairs → ℕ → ℕ → FullZone → Mem → Mem
  unfolding zone_pairs
  set_zones_from kv zn zero old m = m
  set_zones_from kv zn (suc n) old m =
      let (zone, changed) = zone_pairs (u8 (b'b' + zn)) kv (load_zone E m zn old, false) in
      set_zones_from kv (zn + 1) n zone (if changed then save_zone E m zn zone else m)

  unfoldable pub set_zones_form : FullZone → KvPairs → Mem → Mem
  unfolding set_zones_from
  set_zones_form uninit kv m = set_zones_from kv 0 (get_num_zones E m) uninit m

  module _ (atoi : List ℕ → ℤ) where
    -- The pair that gives the number of the zone; a wrong one ends the loop.
    unfoldable pub load_form : Mem → ℤ → ZoneForm → Option ZoneForm
    load_form m (negsuc n) form = none
    load_form m (pos n) form =
        if leb (get_num_zones E m) n
        then none
        else some (record form { zn = some n; zone = load_zone E m n form.zone })

    unfoldable pub zone_pair : Mem → List ℕ → List ℕ → ZoneForm → Option ZoneForm
    unfolding load_form
    zone_pair m key value form =
        let zone = form.zone in
        let rate = int (atoi value) in
        if same_text key text_id
        then load_form m (int (atoi value)) form
        else if same_text key text_name
        then some (record form { zone = record zone { name = strncpy 20 value } })
        else if same_text key text_enabled
        then some (record form { zone = record zone { enabled = is_on value } })
        else if same_text key text_wfrate
        then some (
            if ltb_ℤ rate (pos 0)
            then form
            else record form { zone = record zone { water_flow_rate = pos_part rate } })
        else some form

    unfoldable pub one_zone_pairs : Mem → KvPairs → Option ZoneForm → Option ZoneForm
    unfolding zone_pair
    one_zone_pairs m [] o = o
    one_zone_pairs m (p ∷ ps) none = none
    one_zone_pairs m (p ∷ ps) (some form) = one_zone_pairs m ps (zone_pair m p.0 p.1 form)

    unfoldable pub save_form : Mem → Option ℕ → FullZone → Mem
    save_form m none zone = m
    save_form m (some zn) zone = save_zone E m zn zone

    unfoldable pub finish_zone_form : Mem → Option ZoneForm → Mem × Bool
    unfolding save_form
    finish_zone_form m none = (m, false)
    finish_zone_form m (some form) = (save_form m form.zn form.zone, true)

    unfoldable pub set_one_zones : FullZone → KvPairs → Mem → Mem × Bool
    unfolding finish_zone_form one_zone_pairs
    set_one_zones uninit kv m =
        finish_zone_form m (one_zone_pairs m kv (some (record { zn = none; zone = uninit })))
