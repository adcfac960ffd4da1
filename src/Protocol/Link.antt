-- ===== src/Protocol/Link.antt =====
-- Two stations on the radio: what one sends, and what the other does with it.
pub mod Command
pub mod Off
pub mod Status
pub mod Report
pub mod Subscribe
use smart_garden.Prelude.{
  ap₂, if_both, ℕ, zero, suc, ◌+◌, ◌-◌, ◌*◌, ◌/◌, ◌%◌, ◌^◌, ◌≤◌, ◌<◌, min, ◌≡◌, refl, sym, ap, ◌∙◌,
  subst, ◌≢◌, ◌↔◌, ◌⊎◌, inl, inr, Bool, true, false, not, ◌&&◌, ◌||◌, Option, none, some, List, [],
  ◌∷◌, ◌++◌, map, arith, dec_lt, ℕ_discrete, ltb, leb, ◌==◌, if◌then◌else◌, ltb→lt, lt→ltb, leb→le,
  ==_iff, Bool-cases, Option-cases, length, get_or, set, replicate, take, drop, length-append,
  length-set, length-replicate, get_or-set, get_or-set_ne, All, All-set, All-get_or, All-replicate,
  ℤ, pos, negsuc, pos_part, neg_part, sub_ℕ, ◌≤ℤ◌, ltb_ℤ, eqb_ℤ, minus_one, minus_two, u8, u16, u32,
  sub32, bit, set_bit, clear_bit, i8, i16, u8_of, u16_of, sub32_elapsed, every_below,
  every_below_sound,
}
use smart_garden.Core.State.{Config, Env, System}
use smart_garden.Protocol.Node.{Node, Effect, packet}
use smart_garden.Protocol.Send.{send_zones_report, send_network_packet}
use smart_garden.Protocol.Log.{log_error-IsLogged}
use smart_garden.Protocol.Receive.{note_contact, note_sender}
use smart_garden.Protocol.Node.{Reception}

-- The frame that a station has sent last.
abbrev pub frame_of : List Effect → List ℕ
frame_of (packet station bytes ∷ rest) = bytes
frame_of other = []

abbrev pub newest_frame : Node → List ℕ
newest_frame n = frame_of n.effects

-- Answers leave the state of the scheduler alone.
pub send_zones_report-system :
    (e : Env) (t from to first num : ℕ) (n : Node)
    → (send_zones_report e t from to first num n).0.system ≡ n.system
unfolding send_zones_report send_network_packet
send_zones_report-system e t from to first num n = ground arith

pub note_sender-config :
    (e : Env) (r : Reception) (from : ℕ) (n : Node) → (note_sender e r from n).config ≡ n.config
unfolding note_sender
note_sender-config e r from n =
    (log_error-IsLogged e r _).config
    ∙ if_both (λ (x : Node). x.config ≡ n.config) r.has_address _ _ refl refl

pub note_sender-system :
    (e : Env) (r : Reception) (from : ℕ) (n : Node)
    → (note_sender e r from n).system ≡ note_contact e r from n.system
unfolding note_sender
note_sender-system e r from n =
    (log_error-IsLogged e r _).system
    ∙ if_both (λ (x : Node). x.system ≡ note_contact e r from n.system) r.has_address _ _ refl refl
