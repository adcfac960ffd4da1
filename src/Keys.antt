-- ===== src/Keys.antt =====
-- Station/keys.cpp: reading the four buttons, with debouncing and auto-repeat.
pub mod Held
use smart_garden.Prelude.{
  ap₂, if_both, ℕ, zero, suc, ◌+◌, ◌-◌, ◌*◌, ◌/◌, ◌%◌, ◌^◌, ◌≤◌, ◌<◌, min, ◌≡◌, refl, sym, ap, ◌∙◌,
  subst, ◌≢◌, ◌↔◌, ◌⊎◌, inl, inr, Bool, true, false, not, ◌&&◌, ◌||◌, Option, none, some, List, [],
  ◌∷◌, ◌++◌, map, arith, dec_lt, ℕ_discrete, ltb, leb, ◌==◌, if◌then◌else◌, ltb→lt, lt→ltb, leb→le,
  ==_iff, Bool-cases, Option-cases, length, get_or, set, replicate, take, drop, length-append,
  length-set, length-replicate, get_or-set, get_or-set_ne, All, All-set, All-get_or, All-replicate,
  ℤ, pos, negsuc, pos_part, neg_part, sub_ℕ, ◌≤ℤ◌, ltb_ℤ, eqb_ℤ, minus_one, minus_two, u8, u16, u32,
  sub32, bit, set_bit, clear_bit, i8, i16, u8_of, u16_of, sub32_elapsed, every_below,
  every_below_sound,
}

abbrev pub button_none : ℕ
button_none = 0

abbrev pub key_debounce_delay : ℕ
key_debounce_delay = 50

abbrev pub key_hold_delay : ℕ
key_hold_delay = 1200

abbrev pub key_repeat_interval : ℕ
key_repeat_interval = 200

-- `get_keys_now` of buttons on pins: bit i is set when button i + 1 is pressed, which a pin tells by a
-- low level or, on boards that invert it, by a high one.
abbrev pub pressed : Bool → ℕ → Bool
pressed inverted level = if inverted then not (level == 0) else level == 0

unfoldable pub get_keys_now : (ℕ → Bool) → (ℕ → ℕ) → ℕ
get_keys_now inverted level =
    let k0 = if pressed (inverted 0) (level 0) then set_bit button_none 1 else button_none in
    let k1 = if pressed (inverted 1) (level 1) then set_bit k0 2 else k0 in
    let k2 = if pressed (inverted 2) (level 2) then set_bit k1 4 else k1 in
    if pressed (inverted 3) (level 3) then set_bit k2 8 else k2

-- The statics of `get_button_async`.
pub record Keys : Type 0 where
  pub state : ℕ
  pub oldkey : ℕ
  pub autorepeat_sent : ℕ
  pub old_millis : ℕ
  pub autorepeat_millis : ℕ

unfoldable pub new_keys : Keys
new_keys = record {
  state = 0;
  oldkey = button_none;
  autorepeat_sent = 0;
  old_millis = 0;
  autorepeat_millis = 0;
}

-- A key that was let go, or a state that should not be.
abbrev pub release : Keys → Keys
release k = record k { state = 0; oldkey = button_none }

-- State 2 in auto-repeat mode, while the key is held.
unfoldable pub auto_repeat : ℕ → ℕ → Keys → Keys × ℕ
auto_repeat millis key k =
    if ltb (sub32 millis k.old_millis) key_hold_delay
    then (k, button_none)
    else if k.autorepeat_sent == 0
    then (record k { autorepeat_sent = 1; autorepeat_millis = millis }, key)
    else if ltb key_repeat_interval (sub32 millis k.autorepeat_millis)
    then (record k { autorepeat_sent = 0 }, button_none)
    else (k, button_none)

-- `get_button_async` at the time `millis`, with `key` for what `get_keys_now` gives if it is called.
unfoldable pub get_button_async : ℕ → ℕ → ℕ → Keys → Keys × ℕ
unfolding auto_repeat
get_button_async mode millis key k =
    if k.state == 0
    then (if key == button_none
        then (k, button_none)
        else (record k { state = 1; oldkey = key; old_millis = millis }, button_none))
    else if k.state == 1
    then (if ltb (sub32 millis k.old_millis) key_debounce_delay
        then (k, button_none)
        else if not (key == k.oldkey)
        then (release k, button_none)
        else (record k { state = 2 }, key))
    else if k.state == 2
    then (if not (key == k.oldkey)
        then (release k, button_none)
        else if mode == 1
        then auto_repeat millis key k
        else (k, button_none))
    else (release k, button_none)
