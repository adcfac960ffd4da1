-- ===== src/Protocol/Keep.antt =====
-- What a station keeps whatever it receives: the scheduler's phase, legal values in the zone state
-- cache, and frames that another station accepts. Here the senders; `Handlers` has the rest.
pub mod Handlers
pub mod Sensing
pub mod Logging
pub mod Frames
use smart_garden.Prelude.{
  ap₂, if_both, ℕ, zero, suc, ◌+◌, ◌-◌, ◌*◌, ◌/◌, ◌%◌, ◌^◌, ◌≤◌, ◌<◌, min, ◌≡◌, refl, sym, ap, ◌∙◌,
  subst, ◌≢◌, ◌↔◌, ◌⊎◌, inl, inr, Bool, true, false, not, ◌&&◌, ◌||◌, Option, none, some, List, [],
  ◌∷◌, ◌++◌, map, arith, dec_lt, ℕ_discrete, ltb, leb, ◌==◌, if◌then◌else◌, ltb→lt, lt→ltb, leb→le,
  ==_iff, Bool-cases, Option-cases, length, get_or, set, replicate, take, drop, length-append,
  length-set, length-replicate, get_or-set, get_or-set_ne, All, All-set, All-get_or, All-replicate,
  ℤ, pos, negsuc, pos_part, neg_part, sub_ℕ, ◌≤ℤ◌, ltb_ℤ, eqb_ℤ, minus_one, minus_two, u8, u16, u32,
  sub32, bit, set_bit, clear_bit, i8, i16, u8_of, u16_of, sub32_elapsed, every_below,
  every_below_sound, if_cases,
}
use smart_garden.Settings.{max_sensors, max_stations, is_enabled_station}
use smart_garden.Core.State.{Config, Env, System}
use smart_garden.Core.Phase.{IsPhase, IsFitting}
use smart_garden.Core.Switch.Cells.{HasCells}
use smart_garden.Protocol.Wire.{
  Header, header_bytes, ZonesReport, zones_report_bytes, header_of, fcode_sensors_report,
}
use smart_garden.Protocol.Node.{
  Node, Effect, packet, time_set, address_seen, event_logged, reading_logged, emit,
}
use smart_garden.Protocol.Send.{
  make_header, send_network_packet, send_ok_response, send_error_response, send_ping_reply,
  send_evtmaster_report, send_zones_report, sensors_data, send_sensors_report,
}
use smart_garden.Protocol.Receive.{is_frame}

-- A frame that is sent passes the checks of the station that gets it.
abbrev pub IsSound : Effect → Type 0
IsSound (packet station bytes) = is_frame bytes ≡ true
IsSound (time_set t) = Unit
IsSound (address_seen station) = Unit
IsSound (event_logged station event_type text) = Unit
IsSound (reading_logged sensor_type index reading) = Unit

pub record Healthy (k : ℕ) (n : Node) : Type 0 where
  pub fit : IsFitting k n.config
  pub sensors_fit : n.num_sensors ≤ max_sensors
  pub phase : IsPhase k n.system
  pub cells : HasCells n.system
  pub sound : All IsSound n.effects

length-sensors_data : (n : Node) (i k : ℕ) → length (sensors_data n i k) ≡ k * 2
unfolding sensors_data
length-sensors_data n i zero = refl
length-sensors_data n i (suc k) = ground (arith, length-sensors_data n (i + 1) k)

module _ (k : ℕ) where
  pub emit-Healthy : (x : Effect) (n : Node) → IsSound x → Healthy k n → Healthy k (emit x n)
  emit-Healthy x n ok h = record {
    fit = h.fit;
    sensors_fit = h.sensors_fit;
    phase = h.phase;
    cells = h.cells;
    sound = (ok, h.sound);
  }

  pub send_ok_response-Healthy :
      (t from to fcode : ℕ) (n : Node)
      → Healthy k n
      → Healthy k (send_ok_response t from to fcode n)
  unfolding send_ok_response send_network_packet make_header header_bytes header_of
  send_ok_response-Healthy t from to fcode n h = emit-Healthy _ n refl h

  pub send_error_response-Healthy :
      (t from to fcode code : ℕ) (n : Node)
      → Healthy k n
      → Healthy k (send_error_response t from to fcode code n)
  unfolding send_error_response send_network_packet make_header header_bytes header_of
  send_error_response-Healthy t from to fcode code n h = emit-Healthy _ n refl h

  pub send_ping_reply-Healthy :
      (t from to cookie : ℕ) (n : Node)
      → Healthy k n
      → Healthy k (send_ping_reply t from to cookie n)
  unfolding send_ping_reply send_network_packet make_header header_bytes header_of
  send_ping_reply-Healthy t from to cookie n h = emit-Healthy _ n refl h

  pub send_evtmaster_report-Healthy :
      (t from to : ℕ) (n : Node) → Healthy k n → Healthy k (send_evtmaster_report t from to n)
  unfolding send_evtmaster_report send_network_packet make_header header_bytes header_of
  send_evtmaster_report-Healthy t from to n h = emit-Healthy _ n refl h

  pub send_zones_report-Healthy :
      (e : Env) (t from to first num : ℕ) (n : Node)
      → Healthy k n
      → Healthy k (send_zones_report e t from to first num n).0
  unfolding send_zones_report send_network_packet make_header header_bytes header_of
      zones_report_bytes
  send_zones_report-Healthy e t from to first num n h =
      let st = n.config.load_short_station from e.uninit_station in
      if_both (λ (r : Node × Bool). Healthy k r.0) (leb max_stations from) _ _ h
        (if_both (λ (r : Node × Bool). Healthy k r.0)
          (is_enabled_station st && ltb st.num_zone_channels (first + num)) _ _ h
          (emit-Healthy _ n refl h))

  -- A report of the sensors says how long it is: there are few of them.
  sensors_report-is_frame :
      (t from to first num : ℕ) (n : Node)
      → first + num ≤ n.num_sensors
      → n.num_sensors ≤ max_sensors
      → is_frame (
          header_bytes (make_header fcode_sensors_report t from to (2 + num * 2))
          ++ (first ∷ num ∷ sensors_data n first num))
        ≡ true
  unfolding make_header header_bytes header_of
  sensors_report-is_frame t from to first num n a b =
      ground (arith, length-sensors_data n first num)

  pub send_sensors_report-Healthy :
      (t from to first num : ℕ) (n : Node)
      → Healthy k n
      → Healthy k (send_sensors_report t from to first num n).0
  unfolding send_sensors_report send_network_packet
  send_sensors_report-Healthy t from to first num n h =
      if_cases (λ (r : Node × Bool). Healthy k r.0) (ltb n.num_sensors (first + num) || ltb num 1) _
        _ (λ _. h)
        (λ no.
          emit-Healthy _ n
            (sensors_report-is_frame t from to first num n (ground arith) h.sensors_fit) h)
