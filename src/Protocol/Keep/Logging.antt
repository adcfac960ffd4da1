-- ===== src/Protocol/Keep/Logging.antt =====
-- The events of the log keep a station healthy: their frames pass the checks of the station that gets them.
use smart_garden.Prelude.{
  if_both, ℕ, ◌+◌, ◌≤◌, ◌≡◌, refl, not, Bool, true, List, [], ◌∷◌, ◌++◌, arith, ltb, length, take,
  bit, if_cases,
}
use smart_garden.Core.State.{Env}
use smart_garden.Protocol.Wire.{
  header_bytes, header_of, sysevent_max_string_length, fcode_sysevt_report, long_bytes, word_bytes,
}
use smart_garden.Protocol.Node.{Node, Reception}
use smart_garden.Protocol.Send.{notify_sys_event, send_network_packet, make_header}
use smart_garden.Protocol.Log.{send_event, put_chars, log_error, sysevent_flag_continue}
use smart_garden.Protocol.Receive.{is_frame}
use smart_garden.Protocol.Keep.{Healthy, emit-Healthy}

length-event :
    (buffer : List ℕ) (u : ℕ) → length (take (length buffer) buffer ++ (u ∷ [])) ≡ length buffer + 1
length-event [] u = refl
length-event (x ∷ buffer) u = ground (arith, length-event buffer u)

event-is_frame :
    (time seq flags kind u from to : ℕ) (buffer : List ℕ)
    → length buffer ≤ sysevent_max_string_length
    → is_frame (
        header_bytes (make_header fcode_sysevt_report 0 from to (length buffer + 10))
        ++ (long_bytes time
            ++ (word_bytes seq
                ++ (flags ∷ kind ∷ length buffer ∷ (take (length buffer) buffer ++ (u ∷ []))))))
      ≡ true
unfolding make_header header_bytes header_of
event-is_frame time seq flags kind u from to buffer short = ground (arith, length-event buffer u)

module _ (k : ℕ) (e : Env) (r : Reception) where
  send_event-Healthy :
      (flags : ℕ) (buffer : List ℕ) (n : Node)
      → Healthy k n
      → Healthy k (send_event e r flags buffer n)
  unfolding send_event notify_sys_event send_network_packet
  send_event-Healthy flags buffer n h =
      if_both (λ (x : Node × Bool). Healthy k x.0) (not (bit n.config.evt_master_flags 5)) _ _ h
        (if_cases (λ (x : Node × Bool). Healthy k x.0)
          (ltb sysevent_max_string_length (length buffer)) _ _ (λ _. h)
          (λ short.
            emit-Healthy k _ n
              (event-is_frame e.now 0 flags 3 r.uninit n.config.my_station_id
                n.config.evt_master_station_id buffer (ground (arith, short)))
              h))

  put_chars-Healthy :
      (cs : List ℕ) (flags : ℕ) (buffer : List ℕ) (n : Node)
      → Healthy k n
      → Healthy k (put_chars e r cs flags buffer n)
  unfolding put_chars
  put_chars-Healthy [] flags buffer n h =
      if_both (Healthy k) (ltb 0 (length buffer)) _ _ (send_event-Healthy flags buffer n h) h
  put_chars-Healthy (c ∷ cs) flags buffer n h =
      if_both (Healthy k) (ltb (length buffer + 1) sysevent_max_string_length) _ _
        (put_chars-Healthy cs flags (buffer ++ (c ∷ [])) n h)
        (put_chars-Healthy cs sysevent_flag_continue (c ∷ []) _
          (send_event-Healthy flags buffer n h))

  pub log_error-Healthy : (n : Node) → Healthy k n → Healthy k (log_error e r n)
  unfolding log_error
  log_error-Healthy n h =
      if_both (Healthy k) n.config.master _ _ h (put_chars-Healthy r.error_text 0 [] n h)
