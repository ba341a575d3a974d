-- ===== src/Llm/Monitor/Recovery.antt =====
-- What the monitor says of recoveries (backend/app/infrastructure/llm/monitor.py).
use gd_classroom.Prelude.{
  ℕ, arith, ◌≡◌, refl, false, not, List, [], ◌∷◌, ◌==◌, filter_by, Bool-cases, inl, inr,
}
use gd_classroom.Llm.Monitor.{Monitor, is_down, append_event, served_after, back_up, note_selected}

is_down-filter_by :
    (tier : ℕ) (down : List ℕ)
    → is_down tier (filter_by (λ other. not (tier == other)) down) ≡ false
is_down-filter_by tier [] = refl
is_down-filter_by tier (other ∷ down) = ground (arith, is_down-filter_by tier down)

-- A tier that is up is selected without a word.
up_is_silent :
    (lane now tier purpose : ℕ) (m : Monitor)
    → is_down tier m.down ≡ false
    → note_selected lane now tier purpose 0 m ≡ m
unfolding note_selected served_after back_up
up_is_silent lane now tier purpose m h = rw h refl

back_up-is_down :
    (lane now tier purpose : ℕ) (m : Monitor)
    → is_down tier (back_up lane now tier purpose m).down ≡ false
unfolding back_up append_event
back_up-is_down lane now tier purpose m = elim (Bool-cases (is_down tier m.down)) [
  | inl e ↦ rw e (is_down-filter_by tier m.down)
  | inr e ↦ rw e e
]

-- After a tier was selected it is known to be up: to select it again without a failure records nothing,
-- so a recovery is announced once.
pub note_selected_twice :
    (lane now later tier purpose purpose' failures : ℕ) (m : Monitor)
    → let once = note_selected lane now tier purpose failures m in
      note_selected lane later tier purpose' 0 once ≡ once
unfolding note_selected
note_selected_twice lane now later tier purpose purpose' failures m =
    let m' = served_after lane now tier purpose failures m in
    up_is_silent lane later tier purpose' (back_up lane now tier purpose m')
      (back_up-is_down lane now tier purpose m')
