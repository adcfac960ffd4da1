-- ===== src/Protocol/Link/Command.antt =====
-- A command to a zone of another station: `ChannelOn` here, `MessageZonesSet` there.
use smart_garden.Prelude.{
  ap₂, ℕ, ◌+◌, ◌^◌, ◌≤◌, ◌<◌, ◌≡◌, refl, sym, ◌∙◌, subst, Bool, true, not, ◌&&◌, ◌||◌, List, ◌∷◌,
  ◌++◌, arith, ltb, leb, length, u8, bit, every_below, every_below_sound, if_cases, if_true,
}
use smart_garden.Settings.{max_stations, is_enabled_station, is_valid_station}
use smart_garden.Core.State.{Config, Env, System}
use smart_garden.Core.Phase.{IsFitting}
use smart_garden.Core.Commands.{remote_start_zone}
use smart_garden.Core.Commands.Single.{RunsOnly, start_zone_worker-RunsOnly}
use smart_garden.Protocol.Wire.{
  header_bytes, header_of, zones_set_bytes, zones_set_of, fcode_zones_set, my_station,
}
use smart_garden.Protocol.Node.{packet, Node, Reception}
use smart_garden.Protocol.Send.{make_header, send_network_packet}
use smart_garden.Protocol.Request.{
  force_single_zone, send_force_single_zone, channel_on, is_reachable,
}
use smart_garden.Protocol.Answer.{is_rcontrol_station, message_zones_set, set_zones, start_zones}
use smart_garden.Protocol.Receive.{process_new_frame, dispatch, note_sender, note_contact}
use smart_garden.Protocol.Link.{
  newest_frame, send_zones_report-system, note_sender-config, note_sender-system,
}

-- The frame of `SendForceSingleZone`.
unfoldable pub command_frame : ℕ → ℕ → ℕ → List ℕ
command_frame station chan ttr =
    header_bytes (make_header fcode_zones_set 0 my_station station 6)
    ++ zones_set_bytes (force_single_zone chan ttr)

channel_bit : (chan : ℕ) → chan < 8 → bit (u8 (2 ^ chan)) chan ≡ true
unfolding every_below
channel_bit chan h = every_below_sound 8 (λ i. bit (u8 (2 ^ i)) i) chan h refl

-- The channels on which a station takes commands.
pub record IsControlled (e : Env) (station chan : ℕ) (c : Config) : Type 0 where
  pub in_range : station < max_stations
  pub enabled : is_enabled_station (c.load_short_station station e.uninit_station) ≡ true
  pub valid : is_valid_station (c.load_short_station station e.uninit_station) ≡ true
  pub rcontrol : is_rcontrol_station (c.load_short_station station e.uninit_station) ≡ true
  pub channel : chan < (c.load_short_station station e.uninit_station).num_zone_channels

module _ (e : Env) (station chan ttr : ℕ) where
  set_one_zone :
      (c : Config) (s : System)
      → chan < 8
      → 0 < ttr
      → ttr < 255
      → set_zones e c station (force_single_zone chan ttr) s
        ≡ (remote_start_zone c e station chan ttr s).0
  unfolding set_zones start_zones force_single_zone
  set_one_zone c s a b d = ground (arith, channel_bit chan a)

  message_zones_set-single :
      (n : Node)
      → IsControlled e station chan n.config
      → chan < 8
      → 0 < ttr
      → ttr < 255
      → (message_zones_set e (command_frame station chan ttr) n).system
        ≡ (remote_start_zone n.config e station chan ttr n.system).0
  unfolding message_zones_set command_frame header_bytes make_header header_of zones_set_of
      zones_set_bytes force_single_zone
  message_zones_set-single n k a b d =
      let st = n.config.load_short_station station e.uninit_station in
      let goal : Node → Type 0 =
        λ (x : Node). x.system ≡ (remote_start_zone n.config e station chan ttr n.system).0 in
      if_cases goal (leb max_stations station) _ _ (λ t. absurd (ground (arith, k.in_range)))
        (λ _.
          if_cases goal
            (not (is_enabled_station st && is_valid_station st && is_rcontrol_station st)) _ _
            (λ t. absurd (ground (arith, k.enabled, k.valid, k.rcontrol)))
            (λ _.
              if_cases goal (ltb st.num_zone_channels (1 + chan) || ltb 1 1) _ _
                (λ t. absurd (ground (arith, k.channel)))
                (λ _.
                  send_zones_report-system e 0 station my_station chan 1 _
                  ∙ set_one_zone n.config n.system a b d)))

pub note_contact-quick :
    (e : Env) (r : Reception) (from : ℕ) (s : System)
    → (note_contact e r from s).quick_schedule ≡ s.quick_schedule
unfolding note_contact
note_contact-quick e r from s = ground arith

-- The frame is taken in by the checks, the switch and the handler.
process_new_frame-single :
    (e : Env) (r : Reception) (station chan ttr : ℕ) (n : Node)
    → IsControlled e station chan n.config
    → chan < 8
    → 0 < ttr
    → ttr < 255
    → (process_new_frame e r (command_frame station chan ttr) n).system
      ≡ (remote_start_zone n.config e station chan ttr (note_contact e r my_station n.system)).0
unfolding process_new_frame dispatch command_frame header_bytes make_header header_of
    zones_set_bytes
process_new_frame-single e r station chan ttr n ctl a b d =
    let n1 = note_sender e r my_station n in
    let c = note_sender-config e r my_station n in
    message_zones_set-single e station chan ttr n1 (subst (IsControlled e station chan) (sym c) ctl)
      a b d
    ∙ ap₂ (λ c1 s1. (remote_start_zone c1 e station chan ttr s1).0) c
        (note_sender-system e r my_station n)

-- A master that may command a station sends a single frame for `ChannelOn`, and the station which gets
-- it runs just the zone of that channel, for a minute more than asked for (1 to 254). The station is
-- taken to accept remote control of the channel, one of its first 8, whose zone is configured; its
-- schedules are switched on, its settings fit its tables, and its quick schedule has a place for each
-- zone.
pub channel_on-delivered :
    (e1 e2 : Env) (r : Reception) (m n : Node) (k station chan ttr : ℕ)
    → is_reachable m.config e1 station ≡ true
    → (fit : IsFitting k n.config) → IsControlled e2 station chan n.config
    → n.config.run_schedules ≡ true
    → e2.millis < 2 ^ 32
    → chan < 8
    → 0 < ttr
    → ttr < 255
    → u8 ((n.config.load_short_station station e2.uninit_station).start_zone + chan) < k
    → k ≤ length n.system.quick_schedule.zone_duration
    → let (m1, sent) = channel_on e1 station chan ttr m in
      let frame = newest_frame m1 in
      let zone = u8 ((n.config.load_short_station station e2.uninit_station).start_zone + chan) in
      (sent ≡ true)
      × (m1.effects ≡ (packet station frame ∷ m.effects))
      × RunsOnly n.config e2 k fit zone (ttr + 1) (process_new_frame e2 r frame n).system
unfolding channel_on send_force_single_zone send_network_packet remote_start_zone command_frame
    make_header
channel_on-delivered e1 e2 r m n k station chan ttr reach fit ctl on ms a b d z l =
    let zone = u8 ((n.config.load_short_station station e2.uninit_station).start_zone + chan) in
    let s1 = note_contact e2 r my_station n.system in
    let runs : RunsOnly n.config e2 k fit zone (u8 (ttr + 1))
        (remote_start_zone n.config e2 station chan ttr s1).0 =
      (start_zone_worker-RunsOnly n.config e2 k fit station chan (u8 (ttr + 1)) s1 on ms
        (omega arith) ctl.enabled ctl.valid (omega (arith, ctl.channel)) z
        (subst (λ q. k ≤ length q.zone_duration) (sym (note_contact-quick e2 r my_station n.system))
          l)).1 in
    let arrived : RunsOnly n.config e2 k fit zone (ttr + 1)
        (process_new_frame e2 r (command_frame station chan ttr) n).system =
      subst (λ t. RunsOnly n.config e2 k fit zone (ttr + 1) t)
        (sym (process_new_frame-single e2 r station chan ttr n ctl a b d))
        (subst
          (λ mins.
            RunsOnly n.config e2 k fit zone mins
              (remote_start_zone n.config e2 station chan ttr s1).0)
          (omega arith) runs) in
    subst
      (λ (x : Node × Bool).
        (x.1 ≡ true)
        × (x.0.effects ≡ (packet station (newest_frame x.0) ∷ m.effects))
        × RunsOnly n.config e2 k fit zone (ttr + 1)
            (process_new_frame e2 r (newest_frame x.0) n).system)
      (sym (if_true (is_reachable m.config e1 station) _ _ reach)) (refl, refl, arrived)
