-- ===== src/FrameMac/Window/Once.antt =====
-- On sequences of checks of `ReplayWindow` of common/src/crypto/frame_mac.rs.
use dkms.Prelude.{
  ℕ, ◌<◌, ◌≡◌, ◌≢◌, refl, sym, ◌∙◌, ap, subst, true, false, some, List, [], ◌∷◌, inl, inr, arith,
}
use dkms.Prelude.Outcome.{ok}
use dkms.FrameMac.Window.{
  Previous, ReplayWindow, check_current, check_previous, reset_to, retire, retire_prev,
  check_and_set, is_previous, contains,
}
use dkms.FrameMac.Window.Refine.{mark, check_current-mark, check_previous-mark}
use dkms.FrameMac.Window.Cases.{IsValid, Adopts, check_cases}
use dkms.FrameMac.Window.Taken.{Taken, mark-Taken, mark_accepts}
use dkms.FrameMac.Window.Valid.{
  reset_to_first, reset_to_next, adopts_larger, check_and_set-IsValid, reset_to-IsValid, some_eq,
}
use dkms.FrameMac.Window.Blocked.{
  Blocked, current, previous, retired, lower, Remembers, Blocked_refused, contains-retire_last,
  contains-retire_prev, is_monotonic,
}
use dkms.FrameMac.Window.Earlier.{
  Earlier, session-reset_to, check_and_set-Earlier, Remembers-Earlier,
}

module _ (w : ReplayWindow) (v : IsValid w) (s c : ℕ) (now s' c' : ℕ) where
  kept_previous :
      (p : Previous)
      → w.prev ≡ some p
      → Blocked w s c
      → Blocked (record w { prev = some (check_previous w.width p s' c').0 }) s c
  unfolding is_previous
  kept_previous p e b = rw (check_previous-mark w.width p s' c') (go b)
    where
      after : ReplayWindow
      after =
          let m = mark w.width p.highest p.bits s' c' in
          record w { prev = some (record p { highest = m.0.0; bits = m.0.1 }) }

      go : Blocked w s c → Blocked after s c
      go (current x t) = current x t
      go (previous p' x y t) =
          let same = some_eq (sym x ∙ e) in
          previous _ refl (ap (λ (r : Previous). r.session) (sym same) ∙ y) (
            mark-Taken w.width p.highest p.bits (v.prev_bitmap p e) s' c' c
              (subst (λ (r : Previous). Taken w.width r.highest r.bits c) same t))
      go (retired h m) = retired h m
      go (lower t x l m n) = lower t x l m (subst (λ o. is_previous o s ≡ false) e n)

  kept_current : Blocked w s c → Blocked (check_current w now s' c').0 s c
  kept_current b = rw (check_current-mark w now s' c') (go b)
    where
      after : ReplayWindow
      after =
          let m = mark w.width w.highest w.bits s' c' in
          record w { highest = m.0.0; bits = m.0.1; last_accept = some now }

      go : Blocked w s c → Blocked after s c
      go (current x t) = current x (mark-Taken w.width w.highest w.bits v.bitmap s' c' c t)
      go (previous p x y t) = previous p x y t
      go (retired h m) = retired h m
      go (lower t x l m n) = lower t x l m n

  above :
      (t : ℕ)
      → s < t
      → is_previous (some (record { session = t; highest = w.highest; bits = w.bits })) s ≡ false
  unfolding is_previous
  above t l = ground arith

  kept_reset :
      Adopts w now s' → Remembers (reset_to w s') → Blocked w s c → Blocked (reset_to w s') s c
  unfolding retire_prev
  kept_reset (inl e) h (current x t) = cc
  kept_reset (inl e) h (previous p x y t) = cc (v.started e)
  kept_reset (inl e) h (retired k m) = rw (reset_to_first w s' e) (retired k m)
  kept_reset (inl e) h (lower t x l m n) = cc
  kept_reset (inr (t, e, f, a)) h (current x k) =
      rw (reset_to_next w s' t e f) (previous _ refl (some_eq (sym e ∙ x)) k)
  kept_reset (inr (t, e, f, a)) h (previous p x y k) =
      rw (reset_to_next w s' t e f) (elim (is_monotonic w.adopt) [
        | inl m ↦
            let before : p.session < t = v.ordered p t m x e in
            let larger = adopts_larger w w.adopt now t s' m a in
            lower s' refl (omega (arith, y)) m (above t (omega (arith, y)))
        | inr m ↦
            retired
              (rw (x, retire_prev)
                (subst (λ q. contains (retire w.retired p.session) q ≡ true) y
                  (contains-retire_last w.retired p.session)))
              m
      ])
  kept_reset (inr (t, e, f, a)) h (retired k m) = rw (reset_to_next w s' t e f) (
      retired
        (elim (rw (reset_to_next w s' t e f) at h) [
          | inl mono ↦ absurd (m mono)
          | inr room ↦ contains-retire_prev w.retired w.prev s room k
        ])
        m)
  kept_reset (inr (t, e, f, a)) h (lower u x l m n) =
      let larger = adopts_larger w w.adopt now t s' m a in
      let same = some_eq (sym e ∙ x) in
      rw (reset_to_next w s' t e f)
        (lower s' refl (omega (arith, same)) m (above t (omega (arith, same))))

-- What is blocked stays blocked by the next check, whatever that returns.
Blocked-check_and_set :
    (w : ReplayWindow) (s c now s' c' : ℕ)
    → IsValid w
    → Blocked w s c
    → Remembers (check_and_set w now s' c').0
    → Blocked (check_and_set w now s' c').0 s c
Blocked-check_and_set w s c now s' c' v b =
    check_cases w now s' c' (λ r. Remembers r.0 → Blocked r.0 s c) (λ e _. b)
      (λ p h l e q _. kept_previous w v s c now s' c' p e b)
      (λ h l n e _. kept_current w v s c now s' c' b)
      (λ h l n a r.
        let u = reset_to w s' in
        kept_current u (reset_to-IsValid w now s' v a) s c now s' c'
          (kept_reset w v s c now s' c' a (rw (check_current-mark u now s' c') at r) b))

-- What is accepted is blocked.
accepted-Blocked :
    (w : ReplayWindow) (now s c : ℕ)
    → IsValid w
    → (check_and_set w now s c).1 ≡ ok tt
    → Blocked (check_and_set w now s c).0 s c
accepted-Blocked w now s c v =
    check_cases w now s c (λ r. r.1 ≡ ok tt → Blocked r.0 s c) (λ e x. cc)
      (λ p h l e q.
        rw (check_previous-mark w.width p s c) (λ x.
          previous _ refl q (mark_accepts w.width p.highest p.bits (v.prev_bitmap p e) s c x)))
      (λ h l n e. taken w e v)
      (λ h l n a. taken (reset_to w s) (session-reset_to w s) (reset_to-IsValid w now s v a))
  where
    taken :
        (u : ReplayWindow)
        → u.session ≡ some s
        → IsValid u
        → (check_current u now s c).1 ≡ ok tt
        → Blocked (check_current u now s c).0 s c
    taken u e k =
        rw (check_current-mark u now s c)
          (λ x. current e (mark_accepts u.width u.highest u.bits k.bitmap s c x))

-- The frames that arrive: the time, the session and the counter of each.
unfoldable pub run : ReplayWindow → List (ℕ × ℕ × ℕ) → ReplayWindow
run w [] = w
run w ((now, s, c) ∷ frames) = run (check_and_set w now s c).0 frames

run-Earlier : (w : ReplayWindow) (frames : List (ℕ × ℕ × ℕ)) → Earlier w (run w frames)
unfolding run
run-Earlier w [] = (refl, omega arith)
run-Earlier w ((now, s, c) ∷ frames) =
    let a = check_and_set-Earlier w now s c in
    let b = run-Earlier (check_and_set w now s c).0 frames in (b.0 ∙ a.0, omega (arith, a.1, b.1))

pub run-IsValid :
    (w : ReplayWindow) (frames : List (ℕ × ℕ × ℕ)) → IsValid w → IsValid (run w frames)
unfolding run
run-IsValid w [] v = v
run-IsValid w ((now, s, c) ∷ frames) v =
    run-IsValid (check_and_set w now s c).0 frames (check_and_set-IsValid w now s c v)

run-Blocked :
    (w : ReplayWindow) (s c : ℕ) (frames : List (ℕ × ℕ × ℕ))
    → IsValid w
    → Blocked w s c
    → Remembers (run w frames)
    → Blocked (run w frames) s c
unfolding run
run-Blocked w s c [] v b r = b
run-Blocked w s c ((now, s', c') ∷ frames) v b r =
    let u = (check_and_set w now s' c').0 in
    run-Blocked u s c frames (check_and_set-IsValid w now s' c' v)
      (Blocked-check_and_set w s c now s' c' v b
        (Remembers-Earlier u (run u frames) (run-Earlier u frames) r))
      r

-- In a window that keeps the invariant, once `(s, c)` is accepted it is refused for ever after,
-- whatever frames arrive in between and at whatever times: without condition where sessions are
-- adopted in `monotonic` mode, and in the other modes while the list of retired sessions has not
-- been filled.
pub accepted_once :
    (w : ReplayWindow) (now later s c : ℕ) (frames : List (ℕ × ℕ × ℕ))
    → IsValid w
    → (check_and_set w now s c).1 ≡ ok tt
    → Remembers (run (check_and_set w now s c).0 frames)
    → (check_and_set (run (check_and_set w now s c).0 frames) later s c).1 ≢ ok tt
accepted_once w now later s c frames v accepted r =
    let w' = (check_and_set w now s c).0 in
    let v' = check_and_set-IsValid w now s c v in
    Blocked_refused (run w' frames) later s c (run-IsValid w' frames v')
      (run-Blocked w' s c frames v' (accepted-Blocked w now s c v accepted) r)
