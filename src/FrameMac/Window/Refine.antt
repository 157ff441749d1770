-- ===== src/FrameMac/Window/Refine.antt =====
-- The checks of `ReplayWindow` of common/src/crypto/frame_mac.rs against `Spec.spec_check`.
use dkms.Prelude.{
  ℕ, ◌-◌, ◌≤◌, ◌<◌, ◌≡◌, refl, sym, ◌∙◌, some, true, false, List, arith, ltb, leb, if◌then◌else◌,
  Bool-cases, inl, inr, le_of_ltb,
}
use dkms.Prelude.Outcome.{Outcome, ok, err}
use dkms.FrameMac.Bitmap.{is_set, set_bit, clear}
use dkms.FrameMac.Bitmap.Laws.{place-set_bit, is_set-place, length-set_bit, length-clear}
use dkms.FrameMac.Bitmap.Shift.{set_bit-IsWords, clear-IsWords}
use dkms.FrameMac.Window.{
  Checked, ReplayError, Previous, ReplayWindow, check_current, check_previous, shift, too_old,
  replayed,
}
use dkms.FrameMac.Window.Spec.{
  History, fresh_history, add, spec_check, IsBitmap, Represents, slide, slide-IsBitmap, place-slide,
}

set_bit_room :
    (width : ℕ) (bits : List ℕ)
    → IsBitmap width bits
    → (back : ℕ) → back < width
    → IsBitmap width (set_bit bits back)
set_bit_room width bits v back k = record {
  words = set_bit-IsWords bits back (omega (arith, v.room)) v.words;
  room = omega (arith, length-set_bit bits back, v.room);
  some_width = v.some_width;
}

module _ (width highest : ℕ) (bits : List ℕ) (h : History) (v : IsBitmap width bits)
    (r : Represents width highest bits h) where
  -- A counter above the highest.
  pub slide-Represents :
      (counter : ℕ)
      → highest < counter
      → Represents width counter
          (slide width bits (counter - highest))
          (record { highest = counter; seen = add counter h.seen })
  slide-Represents counter m = record {
    highest_eq = refl;
    below = λ c e. ground (arith, r.below c);
    places = λ b k l.
        rw (place-slide width bits v (counter - highest) b (omega (arith, v.room)))
          (ground (arith, r.below (counter - b), r.places (b - (counter - highest))));
  }

  -- A counter within the window.
  pub set_bit-Represents :
      (counter : ℕ)
      → counter ≤ highest
      → highest - counter < width
      → Represents width highest
          (set_bit bits (highest - counter))
          (record { highest = highest; seen = add counter h.seen })
  set_bit-Represents counter m k = record {
    highest_eq = refl;
    below = λ c e. ground (arith, r.below c);
    places = λ b j l.
        rw (place-set_bit bits (highest - counter) b (omega (arith, v.room)))
          (ground (arith, r.places b j l));
  }

-- What a check of the specification keeps.
pub record Refines (width : ℕ) (highest : ℕ) (bits : List ℕ)
    (result : Outcome ReplayError (Unit {0})) (spec : Checked History) : Type 0 where
  pub bitmap : IsBitmap width bits
  pub represents : Represents width highest bits spec.0
  pub same_result : result ≡ spec.1

-- A check of one session, on its highest counter and its bitmap.
unfoldable pub mark : ℕ → ℕ → List ℕ → ℕ → ℕ → Checked (ℕ × List ℕ)
mark width highest bits session counter =
    if ltb highest counter
    then ((counter, slide width bits (counter - highest)), ok tt)
    else if leb width (highest - counter)
    then ((highest, bits), err (too_old session counter (highest - (width - 1))))
    else if is_set bits (highest - counter)
    then ((highest, bits), err (replayed session counter))
    else ((highest, set_bit bits (highest - counter)), ok tt)

abbrev pub RefinesMark : ℕ → Checked (ℕ × List ℕ) → Checked History → Type 0
RefinesMark width r spec = Refines width r.0.0 r.0.1 r.1 spec

module _ (width highest : ℕ) (bits : List ℕ) (h : History) (v : IsBitmap width bits)
    (r : Represents width highest bits h) (session counter : ℕ) (pos : 0 < counter) where
  mark_back :
      counter ≤ highest
      → RefinesMark width
          (if leb width (highest - counter)
            then ((highest, bits), err (too_old session counter (highest - (width - 1))))
            else if is_set bits (highest - counter)
            then ((highest, bits), err (replayed session counter))
            else ((highest, set_bit bits (highest - counter)), ok tt))
          (if leb width (h.highest - counter)
            then (h, err (too_old session counter (h.highest - (width - 1))))
            else if h.seen counter
            then (h, err (replayed session counter))
            else (record h { seen = add counter h.seen }, ok tt))
  mark_back m =
      let e : h.highest ≡ highest = sym r.highest_eq in
      let c : highest - (highest - counter) ≡ counter = omega arith in
      let kept : Represents width highest bits (record { highest = highest; seen = h.seen }) =
        record { highest_eq = refl; below = r.below; places = r.places } in
      elim (Bool-cases (leb width (highest - counter))) [
        | inl old ↦ rw (e, old) (record { bitmap = v; represents = kept; same_result = refl })
        | inr within ↦
            let near : highest - counter < width = ground arith in
            let found : is_set bits (highest - counter) ≡ h.seen counter =
              is_set-place bits (highest - counter)
              ∙ ground (arith, r.places (highest - counter) near (omega arith)) in
            elim (Bool-cases (h.seen counter)) [
              | inl dup ↦
                  rw (e, within, found, dup)
                    (record { bitmap = v; represents = kept; same_result = refl })
              | inr new ↦
                  rw (e, within, found, new)
                    (record {
                      bitmap = set_bit_room width bits v (highest - counter) near;
                      represents = set_bit-Represents width highest bits h v r counter m near;
                      same_result = refl;
                    })
            ]
      ]

  pub mark-Refines :
      RefinesMark width
        (mark width highest bits session counter)
        (spec_check width h session counter)
  unfolding mark spec_check
  mark-Refines =
      let e : h.highest ≡ highest = sym r.highest_eq in
      elim (Bool-cases (ltb highest counter)) [
        | inl new ↦
            let m : highest < counter = ground arith in
            let new' : ltb h.highest counter ≡ true = ground arith in
            rw (new, new')
              (record {
                bitmap = slide-IsBitmap width bits v (counter - highest);
                represents = slide-Represents width highest bits h v r counter m;
                same_result = refl;
              })
        | inr old ↦
            let old' : ltb h.highest counter ≡ false = ground arith in
            rw (old, old') (mark_back (le_of_ltb highest counter old))
      ]

-- Both of the source's checks are this one; the current session's also notes the time.
pub check_current-mark :
    (w : ReplayWindow) (now session counter : ℕ)
    → let m = mark w.width w.highest w.bits session counter in
      check_current w now session counter
      ≡ (record w { highest = m.0.0; bits = m.0.1; last_accept = some now }, m.1)
unfolding check_current mark shift slide
check_current-mark w now session counter = elim (Bool-cases (ltb w.highest counter)) [
  | inl new ↦ elim (Bool-cases (leb w.width (counter - w.highest))) [
    | inl far ↦ rw (new, far)
    | inr near ↦ rw (new, near)
  ]
  | inr old ↦ elim (Bool-cases (leb w.width (w.highest - counter))) [
    | inl far ↦ rw (old, far)
    | inr near ↦ elim (Bool-cases (is_set w.bits (w.highest - counter))) [
      | inl dup ↦ rw (old, near, dup)
      | inr fresh ↦ rw (old, near, fresh)
    ]
  ]
]

pub check_previous-mark :
    (width : ℕ) (p : Previous) (session counter : ℕ)
    → let m = mark width p.highest p.bits session counter in
      check_previous width p session counter ≡ (record p { highest = m.0.0; bits = m.0.1 }, m.1)
unfolding check_previous mark slide
check_previous-mark width p session counter = elim (Bool-cases (ltb p.highest counter)) [
  | inl new ↦ rw new
  | inr old ↦ elim (Bool-cases (leb width (p.highest - counter))) [
    | inl far ↦ rw (old, far)
    | inr near ↦ elim (Bool-cases (is_set p.bits (p.highest - counter))) [
      | inl dup ↦ rw (old, near, dup)
      | inr fresh ↦ rw (old, near, fresh)
    ]
  ]
]

-- Against the current session, a check of a counter other than 0 gives the result of the
-- specification on the history that the bitmap holds, and leaves a bitmap, of the same width, that
-- holds the new history.
pub check_current-Refines :
    (w : ReplayWindow) (h : History) (now session counter : ℕ)
    → 0 < counter
    → IsBitmap w.width w.bits
    → Represents w.width w.highest w.bits h
    → let r = check_current w now session counter in
      (r.0.width ≡ w.width)
      × Refines w.width r.0.highest r.0.bits r.1 (spec_check w.width h session counter)
check_current-Refines w h now session counter pos v r =
    rw (check_current-mark w now session counter)
      (refl, mark-Refines w.width w.highest w.bits h v r session counter pos)

-- Against the session before, a check of a counter other than 0 gives the result of the
-- specification on the history that its bitmap holds, and leaves a bitmap that holds the new
-- history.
pub check_previous-Refines :
    (width : ℕ) (p : Previous) (h : History) (session counter : ℕ)
    → 0 < counter
    → IsBitmap width p.bits
    → Represents width p.highest p.bits h
    → let r = check_previous width p session counter in
      (r.0.session ≡ p.session)
      × Refines width r.0.highest r.0.bits r.1 (spec_check width h session counter)
check_previous-Refines width p h session counter pos v r =
    rw (check_previous-mark width p session counter)
      (refl, mark-Refines width p.highest p.bits h v r session counter pos)

-- A session that is adopted starts with an empty history.
pub clear-Represents :
    (width : ℕ) (bits : List ℕ)
    → IsBitmap width bits
    → IsBitmap width (clear bits) × Represents width 0 (clear bits) fresh_history
clear-Represents width bits v = (
  record {
    words = clear-IsWords bits;
    room = omega (arith, length-clear bits, v.room);
    some_width = v.some_width;
  },
  record { highest_eq = refl; below = λ c e. cc; places = λ b k l. absurd (omega arith) },
)

-- The room of a bitmap does not change.
pub mark-IsBitmap :
    (width highest : ℕ) (bits : List ℕ) (session counter : ℕ)
    → IsBitmap width bits
    → IsBitmap width (mark width highest bits session counter).0.1
unfolding mark
mark-IsBitmap width highest bits session counter v = elim (Bool-cases (ltb highest counter)) [
  | inl new ↦ rw new (slide-IsBitmap width bits v (counter - highest))
  | inr old ↦ elim (Bool-cases (leb width (highest - counter))) [
    | inl far ↦ rw (old, far) v
    | inr near ↦ elim (Bool-cases (is_set bits (highest - counter))) [
      | inl dup ↦ rw (old, near, dup) v
      | inr fresh ↦
          rw (old, near, fresh) (set_bit_room width bits v (highest - counter) (ground arith))
    ]
  ]
]
