-- ===== src/FrameMac/Window/Blocked.antt =====
-- The reasons for which `check_and_set` of common/src/crypto/frame_mac.rs refuses a counter.
use dkms.Prelude.{
  ℕ, ◌≤◌, ◌<◌, ◌≡◌, ◌≢◌, refl, sym, ◌∙◌, ap, subst, true, false, Option, none, some, List, [], ◌∷◌,
  ◌++◌, ◌⊎◌, inl, inr, arith, length, length-append, ltb, ==_refl, Bool-cases, length-drop,
}
use dkms.Prelude.Outcome.{ok}
use dkms.FrameMac.Window.{
  SessionAdopt, any, monotonic, after_quiet, Previous, ReplayWindow, check_current, check_previous,
  retire, retire_prev, retired_kept, check_and_set, is_previous, contains,
}
use dkms.FrameMac.Window.Refine.{check_current-mark, check_previous-mark}
use dkms.FrameMac.Window.Cases.{IsValid, Adopts, check_cases}
use dkms.FrameMac.Window.Taken.{Taken, mark_refuses}
use dkms.FrameMac.Window.Valid.{adopts_larger, some_eq}

-- Why a window refuses the counter `c` of the session `s`.
pub data Blocked (w : ReplayWindow) (s c : ℕ) : Type 0 where
  current : w.session ≡ some s → Taken w.width w.highest w.bits c → Blocked w s c
  previous :
      (p : Previous)
      → w.prev ≡ some p
      → p.session ≡ s
      → Taken w.width p.highest p.bits c
      → Blocked w s c
  retired : contains w.retired s ≡ true → w.adopt ≢ monotonic → Blocked w s c
  lower :
      (t : ℕ)
      → w.session ≡ some t
      → s < t
      → w.adopt ≡ monotonic
      → is_previous w.prev s ≡ false
      → Blocked w s c

-- No session has been forgotten yet, or none needs to be remembered.
abbrev pub Remembers : ReplayWindow → Type 0
Remembers w = (w.adopt ≡ monotonic) ⊎ (length w.retired < retired_kept)

contains_last : (xs : List ℕ) (p : ℕ) → contains (xs ++ p ∷ []) p ≡ true
unfolding contains
contains_last [] p = ground (arith, ==_refl p)
contains_last (x ∷ xs) p = ground (arith, contains_last xs p)

contains-append : (xs : List ℕ) (p s : ℕ) → contains xs s ≡ true → contains (xs ++ p ∷ []) s ≡ true
unfolding contains
contains-append [] p s h = cc
contains-append (x ∷ xs) p s h = ground (arith, contains-append xs p s)

-- The session that is retired now is among the retired ones, which may have lost the oldest.
pub contains-retire_last : (xs : List ℕ) (p : ℕ) → contains (retire xs p) p ≡ true
unfolding retire
contains-retire_last [] p = contains_last [] p
contains-retire_last (x ∷ xs) p = elim (Bool-cases (ltb retired_kept (length (x ∷ xs ++ p ∷ [])))) [
  | inl full ↦ rw full (contains_last xs p)
  | inr room ↦ rw room (contains_last (x ∷ xs) p)
]

pub length-retire : (xs : List ℕ) (p : ℕ) → length xs ≤ length (retire xs p)
unfolding retire
length-retire xs p = ground (arith, length-append xs (p ∷ []), length-drop 1 (xs ++ p ∷ []))

-- Nothing is dropped where fewer than `retired_kept` are left.
contains-retire :
    (xs : List ℕ) (p s : ℕ)
    → length (retire xs p) < retired_kept
    → contains xs s ≡ true
    → contains (retire xs p) s ≡ true
unfolding retire
contains-retire xs p s h c = elim (Bool-cases (ltb retired_kept (length (xs ++ p ∷ [])))) [
  | inl full ↦ absurd (ground (arith, length-drop 1 (xs ++ p ∷ [])))
  | inr room ↦ rw room (contains-append xs p s c)
]

pub contains-retire_prev :
    (xs : List ℕ) (o : Option Previous) (s : ℕ)
    → length (retire_prev xs o) < retired_kept
    → contains xs s ≡ true
    → contains (retire_prev xs o) s ≡ true
unfolding retire_prev
contains-retire_prev xs none s h c = c
contains-retire_prev xs (some p) s h c = contains-retire xs p.session s h c

pub is_monotonic : (a : SessionAdopt) → (a ≡ monotonic) ⊎ (a ≢ monotonic)
is_monotonic any = inr (λ e. cc)
is_monotonic monotonic = inl refl
is_monotonic after_quiet = inr (λ e. cc)

pub not_previous :
    (p : Previous) (s : ℕ) (o : Option Previous)
    → o ≡ some p
    → p.session ≡ s
    → is_previous o s ≡ false
    → ⊥
unfolding is_previous
not_previous p s none e h n = cc
not_previous p s (some q) e h n = ground (arith, ap (λ (r : Previous). r.session) (some_eq e))

module _ (w : ReplayWindow) (now s c : ℕ) (v : IsValid w)
    (live : contains w.retired s ≡ false) where
  refused_previous :
      (p : Previous)
      → w.prev ≡ some p
      → p.session ≡ s
      → Blocked w s c
      → (check_previous w.width p s c).1 ≢ ok tt
  refused_previous p e q (current x t) = absurd (v.distinct p s e x q)
  refused_previous p e q (previous p' x y t) = rw (check_previous-mark w.width p s c) (
      mark_refuses w.width p.highest p.bits (v.prev_bitmap p e) s c
        (subst (λ (r : Previous). Taken w.width r.highest r.bits c) (some_eq (sym x ∙ e)) t))
  refused_previous p e q (retired h m) = cc
  refused_previous p e q (lower t x l m n) = absurd (not_previous p s w.prev e q n)

  refused_current :
      is_previous w.prev s ≡ false
      → w.session ≡ some s
      → Blocked w s c
      → (check_current w now s c).1 ≢ ok tt
  refused_current n e (current x t) =
      rw (check_current-mark w now s c) (mark_refuses w.width w.highest w.bits v.bitmap s c t)
  refused_current n e (previous p x y t) = absurd (not_previous p s w.prev x y n)
  refused_current n e (retired h m) = cc
  refused_current n e (lower t x l m k) = absurd (ground (arith, some_eq (sym x ∙ e)))

  refused_adopting : is_previous w.prev s ≡ false → Adopts w now s → Blocked w s c → ⊥
  refused_adopting n (inl e) (current x t) = cc
  refused_adopting n (inl e) (previous p x y t) = not_previous p s w.prev x y n
  refused_adopting n (inl e) (retired h m) = cc
  refused_adopting n (inl e) (lower t x l m k) = cc
  refused_adopting n (inr (t, e, f, a)) (current x k) = ground (arith, some_eq (sym e ∙ x))
  refused_adopting n (inr (t, e, f, a)) (previous p x y k) = not_previous p s w.prev x y n
  refused_adopting n (inr (t, e, f, a)) (retired h m) = cc
  refused_adopting n (inr (t, e, f, a)) (lower u x l m k) =
      ground (arith, some_eq (sym e ∙ x), adopts_larger w w.adopt now t s m a)

-- A blocked counter is refused.
pub Blocked_refused :
    (w : ReplayWindow) (now s c : ℕ)
    → IsValid w
    → Blocked w s c
    → (check_and_set w now s c).1 ≢ ok tt
Blocked_refused w now s c v b =
    check_cases w now s c (λ r. r.1 ≢ ok tt) (λ e. λ x. cc)
      (λ p h l e q. refused_previous w now s c v l p e q b)
      (λ h l n e. refused_current w now s c v l n e b)
      (λ h l n a. absurd (refused_adopting w now s c v l n a b))
