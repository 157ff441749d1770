-- ===== src/Orr/OnionReplay/Once.antt =====
-- On sequences of checks of `OnionReplay` of orr/src/onion_replay.rs.
use dkms.Prelude.{
  ℕ, ◌<◌, ◌≡◌, ◌≢◌, refl, sym, ◌∙◌, ap, subst, String, List, [], ◌∷◌, length, if◌then◌else◌, inl,
  inr, Bool-cases,
}
use dkms.Prelude.Outcome.{ok}
use dkms.Prelude.Assoc.{◌==◌, string_keys, lookup, lookup-insert, beq_refl}
use dkms.FrameMac.Window.{ReplayWindow, check_and_set, retired_kept}
use dkms.FrameMac.Window.Cases.{IsValid}
use dkms.FrameMac.Window.Once.{accepted_once, run as run_window}
use dkms.Orr.OnionReplay.{OnionReplay, window_of, check}

-- The window of an origin, as the next check of it finds it.
abbrev pub window : OnionReplay → String → ReplayWindow
window r o = window_of (lookup o r.by_origin)

-- An onion: the time it arrives, its origin, session and counter.
abbrev pub Onion : Type 0
Onion = ℕ × String × ℕ × ℕ

unfoldable pub run : OnionReplay → List Onion → OnionReplay
run r [] = r
run r ((now, o, s, c) ∷ onions) = run (check r now o s c).0 onions

-- The frames of one origin among the onions.
unfoldable pub frames_of : String → List Onion → List (ℕ × ℕ × ℕ)
frames_of o [] = []
frames_of o ((now, p, s, c) ∷ onions) =
    let rest = frames_of o onions in if p == o then (now, s, c) ∷ rest else rest

window-check :
    (r : OnionReplay) (now : ℕ) (p : String) (s c : ℕ) (o : String)
    → window (check r now p s c).0 o
      ≡ (if p == o then (check_and_set (window r p) now s c).0 else window r o)
unfolding check window_of
window-check r now p s c o =
    rw (lookup-insert p o (check_and_set (window r p) now s c).0 r.by_origin)
      (elim (Bool-cases (p == o)) [ inl t ↦ rw t refl | inr f ↦ rw f refl ])

-- Each origin has a window of its own: after any onions, the window of `o` is what the onions of
-- `o` alone make of it.
pub window-run :
    (r : OnionReplay) (onions : List Onion) (o : String)
    → window (run r onions) o ≡ run_window (window r o) (frames_of o onions)
unfolding run frames_of run_window
window-run r [] o = refl
window-run r ((now, p, s, c) ∷ onions) o =
    window-run (check r now p s c).0 onions o
    ∙ rw (window-check r now p s c o) (elim (Bool-cases (p == o)) [
      | inl t ↦ rw (t, (string_keys.agrees p o).0 t) refl
      | inr f ↦ rw f refl
    ])

result-check :
    (r : OnionReplay) (now : ℕ) (o : String) (s c : ℕ)
    → (check r now o s c).1 ≡ (check_and_set (window r o) now s c).1
unfolding check
result-check r now o s c = refl

-- Once an onion of the session `s` and the counter `c` of an origin is accepted, it is refused for
-- ever after, whatever onions of whatever origins arrive in between, as long as fewer than
-- `retired_kept` sessions of that origin are retired. The window of the origin keeps its invariant
-- at the start.
pub onion_once :
    (r : OnionReplay) (now later : ℕ) (o : String) (s c : ℕ) (onions : List Onion)
    → IsValid (window r o)
    → (check r now o s c).1 ≡ ok tt
    → length (window (run (check r now o s c).0 onions) o).retired < retired_kept
    → (check (run (check r now o s c).0 onions) later o s c).1 ≢ ok tt
onion_once r now later o s c onions v x room y =
    let r' = (check r now o s c).0 in
    let frames = frames_of o onions in
    let first : window r' o ≡ (check_and_set (window r o) now s c).0 =
      rw (window-check r now o s c o, beq_refl o) refl in
    let all = window-run r' onions o ∙ ap (λ w. run_window w frames) first in
    accepted_once (window r o) now later s c frames v (sym (result-check r now o s c) ∙ x)
      (inr (subst (λ (w : ReplayWindow). length w.retired < retired_kept) all room))
      (subst (λ w. (check_and_set w later s c).1 ≡ ok tt) all
        (sym (result-check (run r' onions) later o s c) ∙ y))
