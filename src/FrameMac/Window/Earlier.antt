-- ===== src/FrameMac/Window/Earlier.antt =====
-- On the mode and the retired sessions of a window before and after a check.
use dkms.Prelude.{ℕ, ◌≤◌, ◌≡◌, refl, sym, ◌∙◌, Option, none, some, List, inl, inr, arith, length}
use dkms.FrameMac.Window.{Previous, ReplayWindow, reset_to, retire_prev, check_and_set}
use dkms.FrameMac.Window.Refine.{check_current-mark}
use dkms.FrameMac.Window.Cases.{Adopts, check_cases}
use dkms.FrameMac.Window.Valid.{reset_to_first, reset_to_next}
use dkms.FrameMac.Window.Blocked.{Remembers, length-retire}

pub session-reset_to : (w : ReplayWindow) (s : ℕ) → (reset_to w s).session ≡ some s
unfolding reset_to
session-reset_to w s = refl

adopt-reset_to : (w : ReplayWindow) (now s : ℕ) → Adopts w now s → (reset_to w s).adopt ≡ w.adopt
adopt-reset_to w now s (inl e) = rw (reset_to_first w s e)
adopt-reset_to w now s (inr (t, e, f, a)) = rw (reset_to_next w s t e f)

length-retire_prev : (xs : List ℕ) (o : Option Previous) → length xs ≤ length (retire_prev xs o)
unfolding retire_prev
length-retire_prev xs none = omega arith
length-retire_prev xs (some p) = length-retire xs p.session

length-reset_to :
    (w : ReplayWindow) (now s : ℕ)
    → Adopts w now s
    → length w.retired ≤ length (reset_to w s).retired
length-reset_to w now s (inl e) = rw (reset_to_first w s e) (omega arith)
length-reset_to w now s (inr (t, e, f, a)) =
    rw (reset_to_next w s t e f) (length-retire_prev w.retired w.prev)

-- What a window remembers after a check, it remembered before.
abbrev pub Earlier : ReplayWindow → ReplayWindow → Type 0
Earlier w u = (u.adopt ≡ w.adopt) × (length w.retired ≤ length u.retired)

pub check_and_set-Earlier : (w : ReplayWindow) (now s c : ℕ) → Earlier w (check_and_set w now s c).0
check_and_set-Earlier w now s c =
    check_cases w now s c (λ r. Earlier w r.0) (λ e. (refl, omega arith))
      (λ p h l e q. (refl, omega arith))
      (λ h l n e. rw (check_current-mark w now s c) (refl, omega arith))
      (λ h l n a.
        rw (check_current-mark (reset_to w s) now s c)
          (adopt-reset_to w now s a, length-reset_to w now s a))

pub Remembers-Earlier : (w u : ReplayWindow) → Earlier w u → Remembers u → Remembers w
Remembers-Earlier w u e (inl m) = inl (sym e.0 ∙ m)
Remembers-Earlier w u e (inr l) = inr (omega (arith, e.1))
