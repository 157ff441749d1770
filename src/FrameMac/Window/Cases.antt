-- ===== src/FrameMac/Window/Cases.antt =====
-- The ways that `check_and_set` can take, and the invariant of a window.
use dkms.Prelude.{
  ℕ, ◌<◌, ◌≡◌, ◌≢◌, refl, ◌∙◌, ap, true, false, Option, none, some, ◌⊎◌, inl, inr, arith, ◌==◌,
  Bool-cases,
}
use dkms.Prelude.Outcome.{err}
use dkms.FrameMac.Window.{
  Checked, ReplayError, Previous, ReplayWindow, monotonic, check_current, check_previous, reset_to,
  check_and_set, check_and_set_prev, check_session, adopts, is_previous, contains,
}
use dkms.FrameMac.Window.Spec.{IsBitmap}

pub record IsValid (w : ReplayWindow) : Type 0 where
  pub bitmap : IsBitmap w.width w.bits
  pub prev_bitmap : (p : Previous) → w.prev ≡ some p → IsBitmap w.width p.bits
  pub started : w.session ≡ none → w.prev ≡ none
  pub distinct : (p : Previous) (t : ℕ) → w.prev ≡ some p → w.session ≡ some t → p.session ≢ t
  pub ordered :
      (p : Previous) (t : ℕ)
      → w.adopt ≡ monotonic
      → w.prev ≡ some p
      → w.session ≡ some t
      → p.session < t

-- Why a session is adopted.
abbrev pub Adopts : ReplayWindow → ℕ → ℕ → Type 0
Adopts w now s =
    (w.session ≡ none)
    ⊎ ((t : ℕ) × (w.session ≡ some t) × ((t == s) ≡ false) × (adopts w w.adopt now t s ≡ true))

module _ (w : ReplayWindow) (now s c : ℕ) (P : Checked ReplayWindow → Type 0) where
  session_cases :
      (o : Option ℕ)
      → w.session ≡ o
      → ((e : ReplayError) → P (w, err e))
      → (w.session ≡ some s → P (check_current w now s c))
      → (Adopts w now s → P (check_current (reset_to w s) now s c))
      → P (check_session w o now s c)
  unfolding check_session
  session_cases none e refused current adopting = adopting (inl e)
  session_cases (some t) e refused current adopting = elim (Bool-cases (t == s)) [
    | inl same ↦ rw same (current (e ∙ ap some (ground arith)))
    | inr other ↦ elim (Bool-cases (adopts w w.adopt now t s)) [
      | inl yes' ↦ rw (other, yes') (adopting (inr (t, e, other, yes')))
      | inr no' ↦ rw (other, no') (refused _)
    ]
  ]

  previous_cases :
      (o : Option Previous)
      → w.prev ≡ o
      → is_previous o s ≡ true
      → ((p : Previous)
          → w.prev ≡ some p
          → p.session ≡ s
          → let r = check_previous w.width p s c in P (record w { prev = some r.0 }, r.1))
      → P (check_and_set_prev w s c)
  unfolding check_and_set_prev is_previous
  previous_cases none e h k = cc
  previous_cases (some p) e h k = rw (e, check_and_set_prev) (k p e (ground arith))

  -- A check refuses and changes nothing, or goes to the session before, to the current one, or to
  -- one that it adopts.
  pub check_cases :
      ((e : ReplayError) → P (w, err e))
      → ((p : Previous)
          → 0 < c
          → contains w.retired s ≡ false
          → w.prev ≡ some p
          → p.session ≡ s
          → let r = check_previous w.width p s c in P (record w { prev = some r.0 }, r.1))
      → (0 < c
          → contains w.retired s ≡ false
          → is_previous w.prev s ≡ false
          → w.session ≡ some s
          → P (check_current w now s c))
      → (0 < c
          → contains w.retired s ≡ false
          → is_previous w.prev s ≡ false
          → Adopts w now s
          → P (check_current (reset_to w s) now s c))
      → P (check_and_set w now s c)
  unfolding check_and_set
  check_cases refused previous current adopting = elim (Bool-cases (c == 0)) [
    | inl zero' ↦ rw zero' (refused _)
    | inr pos ↦
        let h : 0 < c = ground arith in
        elim (Bool-cases (contains w.retired s)) [
          | inl old ↦ rw (pos, old) (refused _)
          | inr live ↦ elim (Bool-cases (is_previous w.prev s)) [
            | inl before ↦
                rw (pos, live, before)
                  (previous_cases w.prev refl before (λ p e q. previous p h live e q))
            | inr now' ↦
                rw (pos, live, now')
                  (session_cases w.session refl refused (λ e. current h live now' e)
                    (λ a. adopting h live now' a))
          ]
        ]
  ]
