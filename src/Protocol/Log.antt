-- ===== src/Protocol/Log.antt =====
-- `syslog_evt` of Station/sdlog.cpp with an error: what a remote station sends of it to its event master.
-- The files of the log are output.
use smart_garden.Prelude.{
  ℕ, ◌+◌, ◌≡◌, refl, ◌∙◌, List, [], ◌∷◌, ◌++◌, arith, ltb, if◌then◌else◌, length, if_both,
}
use smart_garden.Core.State.{Env}
use smart_garden.Protocol.Wire.{sysevent_max_string_length}
use smart_garden.Protocol.Node.{Node, Reception}
use smart_garden.Protocol.Send.{notify_sys_event, send_network_packet}

abbrev pub sysevent_error : ℕ
sysevent_error = 3

abbrev pub sysevent_flag_continue : ℕ
sysevent_flag_continue = 128

module _ (e : Env) (r : Reception) where
  -- What is in the buffer goes out.
  unfoldable pub send_event : ℕ → List ℕ → Node → Node
  send_event flags buffer n =
      (notify_sys_event r.uninit sysevent_error e.now 0 flags (length buffer) buffer n).0

  -- `syslog_putchar` for one character after the other, and the rest of the buffer at the end.
  unfoldable pub put_chars : List ℕ → ℕ → List ℕ → Node → Node
  unfolding send_event
  put_chars [] flags buffer n = if ltb 0 (length buffer) then send_event flags buffer n else n
  put_chars (c ∷ cs) flags buffer n =
      let more = put_chars cs flags (buffer ++ (c ∷ [])) n in
      let full = put_chars cs sysevent_flag_continue (c ∷ []) (send_event flags buffer n) in
      if ltb (length buffer + 1) sysevent_max_string_length then more else full

  -- The error message that the program logs for the frame, if any.
  unfoldable pub log_error : Node → Node
  unfolding put_chars
  log_error n = if n.config.master then n else put_chars r.error_text 0 [] n

  -- Nothing but the trace changes.
  pub record IsLogged (n t : Node) : Type 0 where
    pub config : t.config ≡ n.config
    pub system : t.system ≡ n.system
    pub sensors : t.sensors ≡ n.sensors

  send_event-IsLogged :
      (flags : ℕ) (buffer : List ℕ) (n : Node) → IsLogged n (send_event flags buffer n)
  unfolding send_event notify_sys_event send_network_packet
  send_event-IsLogged flags buffer n = record {
    config = ground arith;
    system = ground arith;
    sensors = ground arith;
  }

  put_chars-IsLogged :
      (cs : List ℕ) (flags : ℕ) (buffer : List ℕ) (n : Node)
      → IsLogged n (put_chars cs flags buffer n)
  unfolding put_chars
  put_chars-IsLogged [] flags buffer n =
      if_both (IsLogged n) (ltb 0 (length buffer)) _ _ (send_event-IsLogged flags buffer n)
        (record { config = refl; system = refl; sensors = refl })
  put_chars-IsLogged (c ∷ cs) flags buffer n =
      let n1 = send_event flags buffer n in
      let one = send_event-IsLogged flags buffer n in
      let rest = put_chars-IsLogged cs sysevent_flag_continue (c ∷ []) n1 in
      if_both (IsLogged n) (ltb (length buffer + 1) sysevent_max_string_length) _ _
        (put_chars-IsLogged cs flags (buffer ++ (c ∷ [])) n)
        (record {
          config = rest.config ∙ one.config;
          system = rest.system ∙ one.system;
          sensors = rest.sensors ∙ one.sensors;
        })

  pub log_error-IsLogged : (n : Node) → IsLogged n (log_error n)
  unfolding log_error
  log_error-IsLogged n =
      if_both (IsLogged n) n.config.master _ _
        (record { config = refl; system = refl; sensors = refl })
        (put_chars-IsLogged r.error_text 0 [] n)
