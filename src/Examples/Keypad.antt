-- ===== src/Examples/Keypad.antt =====
-- Button 1 is held for a quarter of a second.
use smart_garden.Prelude.{◌≡◌, refl, [], ◌∷◌, arith}
use smart_garden.Keys.{new_keys, button_none}
use smart_garden.Keys.Held.{polls, report_once, key_held_lem}

key_held_lem_example :
    polls 0 1 (1000 ∷ 1020 ∷ 1060 ∷ 1250 ∷ []) new_keys
    ≡ button_none ∷ button_none ∷ 1 ∷ button_none ∷ []
unfolding report_once new_keys
key_held_lem_example =
    key_held_lem 0 1 1000 (1020 ∷ 1060 ∷ 1250 ∷ []) new_keys (λ e. absurd (omega arith)) refl
      (λ e. absurd (omega arith))
      ((omega arith, omega arith), ((omega arith, omega arith), ((omega arith, omega arith), tt)))
