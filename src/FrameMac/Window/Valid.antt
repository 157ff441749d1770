-- ===== src/FrameMac/Window/Valid.antt =====
-- On the invariant of `ReplayWindow` of common/src/crypto/frame_mac.rs.
use dkms.Prelude.{
  ℕ, ◌+◌, ◌/◌, ◌<◌, ◌≡◌, refl, ap, subst, true, false, none, some, inl, inr, arith, ◌==◌, max,
  replicate, length-replicate,
}
use dkms.FrameMac.Bitmap.{clear}
use dkms.FrameMac.Bitmap.Shift.{replicate-IsWords}
use dkms.FrameMac.Window.{
  SessionAdopt, any, monotonic, after_quiet, Previous, ReplayWindow, new, new_monotonic,
  new_quiet_gated, check_current, check_previous, reset_to, leave, retire_prev, check_and_set,
  adopts,
}
use dkms.FrameMac.Window.Spec.{IsBitmap}
use dkms.FrameMac.Window.Refine.{
  mark-IsBitmap, check_current-mark, check_previous-mark, clear-Represents,
}
use dkms.FrameMac.Window.Cases.{IsValid, Adopts, check_cases}

-- A window where the session `s` replaces `t`.
abbrev pub replaced : ReplayWindow → ℕ → ℕ → ReplayWindow
replaced w t s = record w {
  session = some s;
  highest = 0;
  bits = clear w.bits;
  retired = retire_prev w.retired w.prev;
  prev = some (record { session = t; highest = w.highest; bits = w.bits });
}

abbrev pub first : ReplayWindow → ℕ → ReplayWindow
first w s = record w { session = some s; highest = 0; bits = clear w.bits }

pub reset_to_first : (w : ReplayWindow) (s : ℕ) → w.session ≡ none → reset_to w s ≡ first w s
unfolding reset_to leave
reset_to_first w s e = rw (e, leave)

pub reset_to_next :
    (w : ReplayWindow) (s t : ℕ)
    → w.session ≡ some t
    → (t == s) ≡ false
    → reset_to w s ≡ replaced w t s
unfolding reset_to leave
reset_to_next w s t e n = rw (e, leave) (rw n)

-- In monotonic mode a session gives way to a larger one.
pub adopts_larger :
    (w : ReplayWindow) (a : SessionAdopt) (now t s : ℕ)
    → a ≡ monotonic
    → adopts w a now t s ≡ true
    → t < s
unfolding adopts
adopts_larger w any now t s e h = cc
adopts_larger w monotonic now t s e h = ground arith
adopts_larger w after_quiet now t s e h = cc

pub some_eq : {A : Type 0} {a b : A} → some a ≡ some b → a ≡ b
some_eq e = cc

pub reset_to-IsValid :
    (w : ReplayWindow) (now s : ℕ) → IsValid w → Adopts w now s → IsValid (reset_to w s)
reset_to-IsValid w now s v (inl e) = rw (reset_to_first w s e) (record {
  bitmap = (clear-Represents w.width w.bits v.bitmap).0;
  prev_bitmap = v.prev_bitmap;
  started = λ x. cc;
  distinct = λ p t x y. cc (v.started e);
  ordered = λ p t m x y. absurd (cc (v.started e));
})
reset_to-IsValid w now s v (inr (t, e, n, a)) = rw (reset_to_next w s t e n) (record {
  bitmap = (clear-Represents w.width w.bits v.bitmap).0;
  prev_bitmap = λ p x. subst (λ (q : Previous). IsBitmap w.width q.bits) (some_eq x) v.bitmap;
  started = λ x. cc;
  distinct = λ p u x y. ground (arith, ap (λ (q : Previous). q.session) (some_eq x), some_eq y);
  ordered = λ p u m x y. ground (
    arith,
    ap (λ (q : Previous). q.session) (some_eq x),
    some_eq y,
    adopts_larger w w.adopt now t s m a,
  );
})

check_current-IsValid :
    (w : ReplayWindow) (now s c : ℕ) → IsValid w → IsValid (check_current w now s c).0
check_current-IsValid w now s c v = rw (check_current-mark w now s c) (record {
  bitmap = mark-IsBitmap w.width w.highest w.bits s c v.bitmap;
  prev_bitmap = v.prev_bitmap;
  started = v.started;
  distinct = v.distinct;
  ordered = v.ordered;
})

check_previous-IsValid :
    (w : ReplayWindow) (s c : ℕ) (p : Previous)
    → IsValid w
    → w.prev ≡ some p
    → IsValid (record w { prev = some (check_previous w.width p s c).0 })
check_previous-IsValid w s c p v e = rw (check_previous-mark w.width p s c) (record {
  bitmap = v.bitmap;
  prev_bitmap = λ q x.
      subst (λ (r : Previous). IsBitmap w.width r.bits) (some_eq x)
        (mark-IsBitmap w.width p.highest p.bits s c (v.prev_bitmap p e));
  started = λ x. absurd (cc (v.started x));
  distinct =
      λ q t x y. ground (arith, ap (λ (r : Previous). r.session) (some_eq x), v.distinct p t e y);
  ordered = λ q t m x y.
      ground (arith, ap (λ (r : Previous). r.session) (some_eq x), v.ordered p t m e y);
})

-- Whatever a check returns, the window that it leaves keeps the invariant.
pub check_and_set-IsValid :
    (w : ReplayWindow) (now s c : ℕ) → IsValid w → IsValid (check_and_set w now s c).0
check_and_set-IsValid w now s c v =
    check_cases w now s c (λ r. IsValid r.0) (λ e. v)
      (λ p h l e q. check_previous-IsValid w s c p v e)
      (λ h l n e. check_current-IsValid w now s c v)
      (λ h l n a. check_current-IsValid (reset_to w s) now s c (reset_to-IsValid w now s v a))

new-IsBitmap : (width : ℕ) → IsBitmap (max width 64) (replicate ((max width 64 + 63) / 64) 0)
new-IsBitmap width = record {
  words = replicate-IsWords ((max width 64 + 63) / 64);
  room = omega (arith, length-replicate {A = ℕ} ((max width 64 + 63) / 64) 0);
  some_width = omega arith;
}

-- A new window of any kind has it.
pub new-IsValid :
    (width : ℕ)
    → IsValid (new width) × IsValid (new_monotonic width) × IsValid (new_quiet_gated width)
unfolding new new_monotonic new_quiet_gated
new-IsValid width =
    let b = new-IsBitmap width in
    (
      record {
        bitmap = b;
        prev_bitmap = λ p x. cc;
        started = λ x. refl;
        distinct = λ p t x y. cc;
        ordered = λ p t m x y. cc;
      },
      record {
        bitmap = b;
        prev_bitmap = λ p x. cc;
        started = λ x. refl;
        distinct = λ p t x y. cc;
        ordered = λ p t m x y. cc;
      },
      record {
        bitmap = b;
        prev_bitmap = λ p x. cc;
        started = λ x. refl;
        distinct = λ p t x y. cc;
        ordered = λ p t m x y. cc;
      },
    )
