-- ===== src/Core/Query.antt =====
-- The queries of `runStateClass` in core.h that the user interfaces show.
pub mod Remaining
use smart_garden.Prelude.{
  ap₂, if_both, ℕ, zero, suc, ◌+◌, ◌-◌, ◌*◌, ◌/◌, ◌%◌, ◌^◌, ◌≤◌, ◌<◌, min, ◌≡◌, refl, sym, ap, ◌∙◌,
  subst, ◌≢◌, ◌↔◌, ◌⊎◌, inl, inr, Bool, true, false, not, ◌&&◌, ◌||◌, Option, none, some, List, [],
  ◌∷◌, ◌++◌, map, arith, dec_lt, ℕ_discrete, ltb, leb, ◌==◌, if◌then◌else◌, ltb→lt, lt→ltb, leb→le,
  ==_iff, Bool-cases, Option-cases, length, get_or, set, replicate, take, drop, length-append,
  length-set, length-replicate, get_or-set, get_or-set_ne, All, All-set, All-get_or, All-replicate,
  ℤ, pos, negsuc, pos_part, neg_part, sub_ℕ, ◌≤ℤ◌, ltb_ℤ, eqb_ℤ, minus_one, minus_two, u8, u16, u32,
  sub32, bit, set_bit, clear_bit, i8, i16, u8_of, u16_of, sub32_elapsed, every_below,
  every_below_sound,
}
use smart_garden.Core.State.{Env, System, delay_between_zones}
use smart_garden.Core.Next.{remaining_pause_time}

-- `int8_t getZone()`: -2 in the delay between zones, else the number of the zone from 1 on, or 0.
unfoldable pub get_zone : ℤ → ℤ
get_zone (pos z) = i8 (z + 1)
get_zone (negsuc zero) = pos 0
get_zone (negsuc (suc zero)) = minus_two
get_zone (negsuc (suc (suc z))) = negsuc z

-- `max(total - passed, 0)` on 16-bit numbers.
unfoldable pub time_left : ℕ → ℤ → ℕ
time_left total (pos passed) = total - passed
time_left total (negsuc passed) = pos_part (i16 (total + passed + 1))

unfoldable pub is_schedule : System → Bool
is_schedule s = not (eqb_ℤ s.schedule minus_one)

module _ (e : Env) where
  -- `short getRemainingTime()`, in seconds.
  unfoldable pub get_remaining_time : System → ℕ
  unfolding time_left
  get_remaining_time s =
      let passed = i16 (sub32 e.millis s.start_zone_millis / 1000) in
      if eqb_ℤ s.zone minus_two
      then time_left (delay_between_zones / 1000) passed
      else time_left (s.zone_mins * 60) passed

  unfoldable pub is_paused : System → System × Bool
  is_paused s = let (s1, left) = remaining_pause_time e s in (s1, not (eqb_ℤ left (pos 0)))
