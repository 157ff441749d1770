-- ===== src/FrameMac/Window/Spec.antt =====
-- The specification of a replay window for one session: a history of the highest counter and of
-- the counters that were accepted. `Represents` says that a bitmap holds a history.
use dkms.Prelude.{
  ℕ, ◌-◌, ◌*◌, ◌≤◌, ◌<◌, ◌≡◌, Bool, true, false, List, arith, length, ltb, leb, ◌==◌, if◌then◌else◌,
  Bool-cases, inl, inr,
}
use dkms.Prelude.Outcome.{ok, err}
use dkms.FrameMac.Bitmap.{set_bit, clear, shift_bits}
use dkms.FrameMac.Bitmap.Laws.{
  place, IsWords, place-clear, place-set_bit, length-clear, length-set_bit, length-shift_bits,
}
use dkms.FrameMac.Bitmap.Shift.{
  place-shift_bits, shift_bits-IsWords, set_bit-IsWords, clear-IsWords,
}
use dkms.FrameMac.Window.{Checked, replayed, too_old}

pub record History : Type 0 where
  pub highest : ℕ
  pub seen : ℕ → Bool

abbrev pub fresh_history : History
fresh_history = record { highest = 0; seen = λ _. false }

abbrev pub add : ℕ → (ℕ → Bool) → ℕ → Bool
add c seen d = if d == c then true else seen d

-- The specification of a check, for a counter that is not 0.
unfoldable pub spec_check : ℕ → History → ℕ → ℕ → Checked History
spec_check width h session counter =
    if ltb h.highest counter
    then (record { highest = counter; seen = add counter h.seen }, ok tt)
    else if leb width (h.highest - counter)
    then (h, err (too_old session counter (h.highest - (width - 1))))
    else if h.seen counter
    then (h, err (replayed session counter))
    else (record h { seen = add counter h.seen }, ok tt)

-- The bitmap is large enough for the window.
pub record IsBitmap (width : ℕ) (bits : List ℕ) : Type 0 where
  pub words : IsWords bits
  pub room : width ≤ 64 * length bits
  pub some_width : 0 < width

pub record Represents (width highest : ℕ) (bits : List ℕ) (h : History) : Type 0 where
  pub highest_eq : highest ≡ h.highest
  pub below : (c : ℕ) → h.seen c ≡ true → c ≤ highest
  pub places :
      (b : ℕ) → b < width → b < highest → place bits b ≡ (if h.seen (highest - b) then 1 else 0)

-- The bitmap where the counter is `by` above the highest.
unfoldable pub slide : ℕ → List ℕ → ℕ → List ℕ
slide width bits by = set_bit (if leb width by then clear bits else shift_bits bits by) 0

pub length-slide : (width : ℕ) (bits : List ℕ) (by : ℕ) → length (slide width bits by) ≡ length bits
unfolding slide
length-slide width bits by = ground (
  arith,
  length-set_bit (clear bits) 0,
  length-set_bit (shift_bits bits by) 0,
  length-clear bits,
  length-shift_bits bits by,
)

module _ (width : ℕ) (bits : List ℕ) (v : IsBitmap width bits) where
  pub slide-IsBitmap : (by : ℕ) → IsBitmap width (slide width bits by)
  unfolding slide
  slide-IsBitmap by = record {
    words = elim (Bool-cases (leb width by)) [
      | inl far ↦ rw far (
          set_bit-IsWords (clear bits) 0 (omega (arith, length-clear bits, v.room, v.some_width))
            (clear-IsWords bits))
      | inr near ↦ rw near (
          set_bit-IsWords (shift_bits bits by) 0
            (omega (arith, length-shift_bits bits by, v.room, v.some_width))
            (shift_bits-IsWords bits by v.words))
    ];
    room = omega (arith, length-slide width bits by, v.room);
    some_width = v.some_width;
  }

  pub place-slide :
      (by i : ℕ)
      → i < 64 * length bits
      → place (slide width bits by) i ≡ (
          if i == 0
          then 1
          else if leb width by
          then 0
          else if ltb i by
          then 0
          else place bits (i - by))
  unfolding slide
  place-slide by i h = ground (
    arith,
    place-set_bit (clear bits) 0 i,
    place-set_bit (shift_bits bits by) 0 i,
    length-clear bits,
    length-shift_bits bits by,
    place-clear bits i,
    place-shift_bits bits by i v.words,
    v.room,
    v.some_width,
  )
