-- ===== src/Forms/Times.antt =====
-- The start times of a schedule that `SetSchedule` takes from a form.
use smart_garden.Prelude.{
  if_both, ℕ, suc, ◌+◌, ◌*◌, ◌<◌, ◌≡◌, refl, ap, ◌∙◌, ◌⊎◌, inl, inr, Bool, false, not, ◌&&◌, Option,
  none, some, List, [], ◌∷◌, arith, if◌then◌else◌, length, length-set, All, All-set, ℤ, pos, negsuc,
  pos_part, minus_one, int, ◌+ℤ◌, if_cases, true,
}
use mathlib.Core.Option
use smart_garden.Prelude.Text.{same_text, behind}
use smart_garden.Settings.{Schedule, new_schedule, is_interval}
use smart_garden.Settings.Eeprom.{Eeprom}
use smart_garden.Settings.Blocks.{get_num_zones}
use smart_garden.Settings.Schedules.{store_schedule}
use smart_garden.Core.State.{Config, Env, System}
use smart_garden.Forms.Pairs.{KvPairs, text_id, text_name, is_indexed}
use smart_garden.Forms.Plan.{
  store_form, set_schedule, PlanForm, new_form, set_time, set_time_of, set_pair, set_pairs,
  clear_times, finish_form, read_form, is_bad_time, is_pm, text_type, text_enable, text_wadj,
  text_interval,
}

-- A minute of the day, or the code of a time that is switched off.
abbrev pub IsTime : ℤ → Type 0
IsTime t = (t ≡ minus_one) ⊎ (n : ℕ) × (t ≡ pos n) × (n < 1440)

-- Four such times.
abbrev pub HasTimes : Schedule → Type 0
HasTimes s = (length s.time ≡ 4) × All IsTime s.time

-- What holds of the result, if there is one.
abbrev pub Accepted {ℓ} : {A : Type ℓ} → (A → Type 0) → Option A → Type 0
Accepted P none = Unit
Accepted P (some a) = P a

HasForm : PlanForm → Type 0
HasForm f = HasTimes f.sched

start-IsTime :
    (hour minute : ℤ)
    → is_bad_time hour minute ≡ false
    → IsTime (int (pos (pos_part hour * 60 + pos_part minute)))
start-IsTime (pos h) (pos k) good = inr (h * 60 + k, ground (arith, good), ground (arith, good))
start-IsTime (negsuc h) minute good = absurd (ground (arith, good))
start-IsTime (pos h) (negsuc k) good = absurd (ground (arith, good))

clear_times-HasTimes :
    (bs : List Bool) (ts : List ℤ)
    → All IsTime ts
    → (length (clear_times bs ts) ≡ length ts) × All IsTime (clear_times bs ts)
unfolding clear_times
clear_times-HasTimes [] ts h = (refl, h)
clear_times-HasTimes (b ∷ bs) [] h = (refl, tt)
clear_times-HasTimes (b ∷ bs) (t ∷ ts) h =
    let rest = clear_times-HasTimes bs ts h.1 in
    (ap suc rest.0, (if_both IsTime b t minus_one h.0 (inl refl), rest.1))

-- What a call of `SetSchedule` may do: nothing, or store a schedule with such times.
abbrev pub IsRefused {ℓ} : {M : Type ℓ} → M → System → M × System × Bool → Type ℓ
IsRefused m s r = (r.0 ≡ m) × (r.1 ≡ s) × (r.2 ≡ false)

abbrev pub IsStored : (E : Eeprom) → E.Mem → E.Mem × System × Bool → Type 0
IsStored E m r =
    (num : ℤ) × (sched : Schedule) × HasTimes sched
    × (store_schedule E m num sched ≡ (r.0, true))
    × (r.2 ≡ true)

module _ (atoi strtol : List ℕ → ℤ) where
  set_time_of-HasForm :
      (i : ℕ) (value : List ℕ) (o : Option (List ℕ)) (f : PlanForm)
      → HasForm f
      → Accepted HasForm (set_time_of atoi strtol i value o f)
  unfolding set_time_of set_time HasForm
  set_time_of-HasForm i value none f h = h
  set_time_of-HasForm i value (some rest) f h =
      let hour0 = int (strtol value) in
      let hour = if is_pm value then int (hour0 +ℤ pos 12) else hour0 in
      let minute = int (strtol rest) in
      let start = int (pos (pos_part hour * 60 + pos_part minute)) in
      if_cases (Accepted HasForm) (is_bad_time hour minute) _ _ (λ _. tt)
        (λ good. (
          length-set f.sched.time i start ∙ h.0,
          All-set IsTime f.sched.time i start h.1 (start-IsTime hour minute good),
        ))

  set_pair-HasForm :
      (num_zones : ℕ) (key value : List ℕ) (f : PlanForm)
      → HasForm f
      → Accepted HasForm (set_pair atoi strtol num_zones key value f)
  unfolding set_pair HasForm
  set_pair-HasForm num_zones key value f h =
      let P : Option PlanForm → Type 0 = Accepted HasForm in
      if_both P (same_text key text_id) _ _ h (
        if_both P (same_text key text_type) _ _ h (
          if_both P (same_text key text_enable) _ _ h (
            if_both P (same_text key text_wadj) _ _ h (
              if_both P (same_text key text_name) _ _ h (
                if_both P (same_text key text_interval) _ _
                  (if_both HasForm (is_interval f.sched) _ _ h h)
                  (if_both P (is_indexed b'd' b'1' b'7' key && not (is_interval f.sched)) _ _ h (
                    if_both P (is_indexed b't' b'1' b'4' key) _ _
                      (set_time_of-HasForm _ value (behind b':' value) f h)
                      (if_both P (is_indexed b'e' b'1' b'4' key) _ _ h
                        (if_both P (is_indexed b'z' b'b' (b'a' + num_zones) key) _ _ h h)))))))))

  set_pairs-HasForm :
      (num_zones : ℕ) (kv : KvPairs) (o : Option PlanForm)
      → Accepted HasForm o
      → Accepted HasForm (set_pairs atoi strtol num_zones kv o)
  unfolding set_pairs
  set_pairs-HasForm num_zones [] o h = h
  set_pairs-HasForm num_zones (p ∷ ps) none h = tt
  set_pairs-HasForm num_zones (p ∷ ps) (some f) h =
      set_pairs-HasForm num_zones ps _ (set_pair-HasForm num_zones p.0 p.1 f h)

  finish_form-HasTimes :
      (o : Option PlanForm)
      → Accepted HasForm o
      → Accepted (λ (r : ℤ × Schedule). HasTimes r.1) (Option.map finish_form o)
  unfolding HasForm
  finish_form-HasTimes none h = tt
  finish_form-HasTimes (some f) h =
      let c = clear_times-HasTimes f.time_enable f.sched.time h.1 in (c.0 ∙ h.0, c.1)

  read_form-HasTimes :
      (num_zones : ℕ) (kv : KvPairs)
      → Accepted (λ (r : ℤ × Schedule). HasTimes r.1) (read_form atoi strtol num_zones kv)
  unfolding read_form new_form HasForm new_schedule
  read_form-HasTimes num_zones kv = finish_form-HasTimes _ (
      set_pairs-HasForm num_zones kv (some new_form)
        (refl, (inl refl, (inl refl, (inl refl, (inl refl, tt))))))

  module _ (E : Eeprom) (settings : E.Mem → Config) (e : Env) where
    open E use {Mem}

    store_form-cases :
        (o : Option (ℤ × Schedule)) (m : Mem) (s : System)
        → Accepted (λ (r : ℤ × Schedule). HasTimes r.1) o
        → let r = store_form atoi strtol E settings e o m s in IsRefused m s r ⊎ IsStored E m r
    unfolding store_form
    store_form-cases none m s h = inl (refl, refl, refl)
    store_form-cases (some (num, sched)) m s h =
        let x = store_schedule E m num sched in
        if_cases (λ (r : Mem × System × Bool). IsRefused m s r ⊎ IsStored E m r) x.1 _ _
          (λ done. inr (num, sched, h, ap (λ b. (x.0, b)) done, refl)) (λ _. inl (refl, refl, refl))

    -- Whatever pairs a form has, and whatever the C library reads from them, `SetSchedule` either
    -- returns false and changes neither the EEPROM nor the scheduler, or it returns true and the EEPROM is
    -- what its storing step, which has accepted it, makes of a schedule with four start times, each a
    -- minute of the day or switched off.
    pub set_schedule-HasTimes :
        (kv : KvPairs) (m : Mem) (s : System)
        → let r = set_schedule atoi strtol E settings e kv m s in IsRefused m s r ⊎ IsStored E m r
    unfolding set_schedule
    set_schedule-HasTimes kv m s =
        store_form-cases _ m s (read_form-HasTimes (get_num_zones E m) kv)
