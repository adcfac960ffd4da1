-- ===== src/Settings/Schedules/Store.antt =====
-- `DeleteSchedule` and the end of `SetSchedule` against the list of schedules that the slots stand for.
use smart_garden.Prelude.{
  ℕ, zero, suc, ◌+◌, ◌-◌, ◌*◌, ◌%◌, ◌≤◌, ◌<◌, ◌≡◌, refl, sym, ap, ◌∙◌, subst, inl, Bool, true,
  false, ◌&&◌, List, [], ◌∷◌, ◌++◌, arith, ℕ_discrete, ltb, leb, ◌==◌, if◌then◌else◌, set, take,
  drop, pos, minus_one, negsuc, if_false, if_true,
}
use smart_garden.Settings.Types.{Schedule, new_schedule, max_schedules}
use smart_garden.Settings.Eeprom.{Eeprom}
use smart_garden.Settings.Eeprom.Bytes.{
  read_bytes, read_bytes-eq, length-read_bytes, read_bytes-AllBytes,
}
use smart_garden.Settings.Layout.{decode_schedule}
use smart_garden.Settings.Layout.Inverse.{IsSchedule}
use smart_garden.Settings.Blocks.{load_schedule, save_schedule}
use smart_garden.Settings.Blocks.Slots.{load-save_schedule}
use smart_garden.Settings.Blocks.Isolation.{save_schedule-DiffersAt}
use smart_garden.Settings.Scalars.Flags.{get_num_schedules, set_num_schedules}
use smart_garden.Settings.Schedules.{shift_schedules, delete_schedule, store_schedule}
use smart_garden.Settings.Layout.Decoded.{decode_schedule-IsSchedule}
use smart_garden.Settings.Schedules.Slots.{slots, slots-remove, slots-snoc, slots-set}

module _ (E : Eeprom) where
  open E use {Mem, read, write, read-write}

  -- The list of schedules that the number and the slots stand for.
  unfoldable pub schedules : Mem → List Schedule
  schedules m = slots (λ j. load_schedule E m j new_schedule) 0 (get_num_schedules E m)

  loaded-IsSchedule :
      (m : Mem) (i : ℕ) (old : Schedule) → i < max_schedules → IsSchedule (load_schedule E m i old)
  unfolding load_schedule
  loaded-IsSchedule m i old lt =
      let bs = read_bytes E m (1536 + 128 * i) 94 in
      subst IsSchedule
        (sym (if_false (leb max_schedules i) old (decode_schedule bs) (ground arith)))
        (decode_schedule-IsSchedule bs
          (length-read_bytes E m (1536 + 128 * i) 94, read_bytes-AllBytes E m (1536 + 128 * i) 94))

  -- A slot in range is loaded whatever the structure held before.
  load-old :
      (m : Mem) (i : ℕ) (old old' : Schedule)
      → i < max_schedules
      → load_schedule E m i old ≡ load_schedule E m i old'
  unfolding load_schedule
  load-old m i old old' lt = ground arith

  -- The number of schedules and the slots are apart.
  num-save :
      (m : Mem) (i : ℕ) (s : Schedule)
      → IsSchedule s
      → get_num_schedules E (save_schedule E m i s) ≡ get_num_schedules E m
  unfolding get_num_schedules
  num-save m i s h = save_schedule-DiffersAt E m i s h 4 (inl (omega arith))

  num-set : (m : Mem) (n : ℕ) → n < 256 → get_num_schedules E (set_num_schedules E m n) ≡ n
  unfolding get_num_schedules set_num_schedules
  num-set m n lt = ground (arith, read-write m 4 4 (n % 256))

  load-set :
      (m : Mem) (n i : ℕ) (old : Schedule)
      → load_schedule E (set_num_schedules E m n) i old ≡ load_schedule E m i old
  unfolding load_schedule set_num_schedules
  load-set m n i old =
      let m' = write m 4 (n % 256) in
      ap (λ bs. if leb max_schedules i then old else decode_schedule bs)
        (read_bytes-eq E m' m (1536 + 128 * i) 94
          (λ c lo hi. ground (arith, read-write m 4 c (n % 256))))

  -- The loop of `DeleteSchedule`: the slots from `i` on move down by one.
  shift_lem :
      (m : Mem) (i n : ℕ) (old : Schedule)
      → i + n < max_schedules
      → let m' = shift_schedules E m i n old in
        (get_num_schedules E m' ≡ get_num_schedules E m)
        × ((j : ℕ)
            → j < max_schedules
            → load_schedule E m' j new_schedule
              ≡ load_schedule E m (if leb i j && ltb j (i + n) then j + 1 else j) new_schedule)
  unfolding shift_schedules
  shift_lem m i zero old lt =
      (refl, λ j lj. ap (λ k. load_schedule E m k new_schedule) (ground arith))
  shift_lem m i (suc n) old lt =
      let sched = load_schedule E m (i + 1) old in
      let h = loaded-IsSchedule m (i + 1) old (omega arith) in
      let m1 = save_schedule E m i sched in
      let (num, slot) = shift_lem m1 (i + 1) n sched (omega arith) in
      (
        num ∙ num-save m i sched h,
        λ j lj.
            let up = if leb (i + 1) j && ltb j (i + 1 + n) then j + 1 else j in
            let here : ℕ → Schedule = λ k. load_schedule E m k new_schedule in
            slot j lj
            ∙ load-save_schedule E m i up sched new_schedule (omega arith) (ground arith) h
            ∙ elim (ℕ_discrete i j) [
              | yes p ↦
                  if_true (i == up) sched (here up) (ground arith)
                  ∙ load-old m (i + 1) old new_schedule (omega arith)
                  ∙ ap here (ground arith)
              | no p ↦ if_false (i == up) sched (here up) (ground arith) ∙ ap here (ground arith)
            ],
      )

  removed :
      (m : Mem) (i count : ℕ)
      → get_num_schedules E m ≡ suc count
      → suc count ≤ max_schedules
      → i ≤ count
      → schedules (set_num_schedules E (shift_schedules E m i (count - i) new_schedule) count)
        ≡ take i (schedules m) ++ drop (suc i) (schedules m)
  unfolding schedules
  removed m i count e fit le =
      let m1 = shift_schedules E m i (count - i) new_schedule in
      let m' = set_num_schedules E m1 count in
      let here : ℕ → Schedule = λ k. load_schedule E m k new_schedule in
      let after : ℕ → Schedule = λ k. load_schedule E m' k new_schedule in
      let slot = (shift_lem m i (count - i) new_schedule (omega arith)).1 in
      ap (slots after 0) (num-set m1 count (omega arith))
      ∙ slots-remove here after 0 i count le
          (λ j lt. load-set m1 count j new_schedule ∙ slot j (omega arith) ∙ ap here (ground arith))
          (λ j lo hi.
            load-set m1 count j new_schedule ∙ slot j (omega arith) ∙ ap here (ground arith))
      ∙ sym (ap (λ n. take i (slots here 0 n) ++ drop (suc i) (slots here 0 n)) e)

  -- `DeleteSchedule` of a number in range takes just that schedule out of the list and keeps the order
  -- of the others; of a number behind the list it fails and changes nothing. The list has at most four.
  pub delete_schedule_lem :
      (m : Mem) (i : ℕ)
      → get_num_schedules E m ≤ max_schedules
      → let (m', ok) = delete_schedule E m (pos i) in
        (i < get_num_schedules E m
          → (ok ≡ true) × (schedules m' ≡ take i (schedules m) ++ drop (suc i) (schedules m)))
        × (get_num_schedules E m ≤ i → (ok ≡ false) × (m' ≡ m))
  unfolding delete_schedule
  delete_schedule_lem m i fit =
      let count = get_num_schedules E m in
      let m1 =
        set_num_schedules E (shift_schedules E m i (count - 1 - i) new_schedule) (count - 1) in
      (
        λ lt.
            subst
              (λ (r : Mem × Bool).
                (r.1 ≡ true) × (schedules r.0 ≡ take i (schedules m) ++ drop (suc i) (schedules m)))
              (sym (if_false (leb count i) (m, false) (m1, true) (ground arith)))
              (refl, removed m i (count - 1) (omega arith) (omega arith) (omega arith)),
        λ ge.
            subst (λ (r : Mem × Bool). (r.1 ≡ false) × (r.0 ≡ m))
              (sym (if_true (leb count i) (m, false) (m1, true) (ground arith))) (refl, refl),
      )

  replaced :
      (m : Mem) (i : ℕ) (s : Schedule)
      → get_num_schedules E m ≤ max_schedules
      → IsSchedule s
      → i < get_num_schedules E m
      → schedules (save_schedule E m i s) ≡ set (schedules m) i s
  unfolding schedules
  replaced m i s fit h lt =
      let here : ℕ → Schedule = λ k. load_schedule E m k new_schedule in
      let after : ℕ → Schedule = λ k. load_schedule E (save_schedule E m i s) k new_schedule in
      let at : (j : ℕ) → j < max_schedules → after j ≡ (if i == j then s else here j) =
        λ j lj. load-save_schedule E m i j s new_schedule (omega arith) lj h in
      ap (slots after 0) (num-save m i s h)
      ∙ slots-set here after 0 i (get_num_schedules E m) s lt
          (λ j lj ne. at j (omega arith) ∙ if_false (i == j) s (here j) (ground arith))
          (ap after {x = 0 + i} {y = i} (omega arith)
            ∙ at i (omega arith)
            ∙ if_true (i == i) s (here i) (ground arith))

  appended :
      (m : Mem) (s : Schedule)
      → IsSchedule s
      → get_num_schedules E m < max_schedules
      → schedules (
          save_schedule E
            (set_num_schedules E m (get_num_schedules E m + 1))
            (get_num_schedules E m)
            s)
        ≡ schedules m ++ (s ∷ [])
  unfolding schedules
  appended m s h lt =
      let count = get_num_schedules E m in
      let m1 = set_num_schedules E m (count + 1) in
      let m' = save_schedule E m1 count s in
      let here : ℕ → Schedule = λ k. load_schedule E m k new_schedule in
      let after : ℕ → Schedule = λ k. load_schedule E m' k new_schedule in
      let at : (j : ℕ)
          → j < max_schedules
          → after j ≡ (if count == j then s else load_schedule E m1 j new_schedule) =
        λ j lj. load-save_schedule E m1 count j s new_schedule lt lj h in
      ap (slots after 0) (num-save m1 count s h ∙ num-set m (count + 1) (omega arith) ∙ omega arith)
      ∙ slots-snoc here after 0 count s
          (λ j lj.
            at j (omega arith)
            ∙ if_false (count == j) s (load_schedule E m1 j new_schedule) (ground arith)
            ∙ load-set m (count + 1) j new_schedule)
          (ap after {x = 0 + count} {y = count} (omega arith)
            ∙ at count lt
            ∙ if_true (count == count) s (load_schedule E m1 count new_schedule) (ground arith))

  -- In a list of at most four, `SetSchedule` stores a schedule of a number in range in the place of
  -- the one there, and appends a new one (number -1) while there are fewer than four; it fails and
  -- changes nothing for a number behind the list or below -1, and for a new one when there are four.
  pub store_schedule_lem :
      (m : Mem) (i j : ℕ) (s : Schedule)
      → get_num_schedules E m ≤ max_schedules
      → IsSchedule s
      → let (m', ok) = store_schedule E m (pos i) s in
        let (n', added) = store_schedule E m minus_one s in
        (i < get_num_schedules E m → (ok ≡ true) × (schedules m' ≡ set (schedules m) i s))
        × (get_num_schedules E m ≤ i → (ok ≡ false) × (m' ≡ m))
        × (get_num_schedules E m < max_schedules
            → (added ≡ true) × (schedules n' ≡ schedules m ++ (s ∷ [])))
        × (get_num_schedules E m ≡ max_schedules → (added ≡ false) × (n' ≡ m))
        × (store_schedule E m (negsuc (suc j)) s ≡ (m, false))
  unfolding store_schedule
  store_schedule_lem m i j s fit h =
      let count = get_num_schedules E m in
      let put = save_schedule E m i s in
      let more = save_schedule E (set_num_schedules E m (count + 1)) count s in
      (
        λ lt.
            subst (λ (r : Mem × Bool). (r.1 ≡ true) × (schedules r.0 ≡ set (schedules m) i s))
              (sym (if_false (leb count i) (m, false) (put, true) (ground arith)))
              (refl, replaced m i s fit h lt),
        λ ge.
            subst (λ (r : Mem × Bool). (r.1 ≡ false) × (r.0 ≡ m))
              (sym (if_true (leb count i) (m, false) (put, true) (ground arith))) (refl, refl),
        λ lt.
            subst (λ (r : Mem × Bool). (r.1 ≡ true) × (schedules r.0 ≡ schedules m ++ (s ∷ [])))
              (sym (if_false (count == max_schedules) (m, false) (more, true) (ground arith)))
              (refl, appended m s h lt),
        λ full.
            subst (λ (r : Mem × Bool). (r.1 ≡ false) × (r.0 ≡ m))
              (sym (if_true (count == max_schedules) (m, false) (more, true) (ground arith)))
              (refl, refl),
        refl,
      )
