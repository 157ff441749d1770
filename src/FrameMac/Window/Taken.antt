-- ===== src/FrameMac/Window/Taken.antt =====
-- On the counters that one bitmap refuses.
use dkms.Prelude.{ℕ, ◌-◌, ◌≤◌, ◌≡◌, ◌≢◌, List, ◌⊎◌, inl, inr, arith, ltb, leb, Bool-cases}
use dkms.Prelude.Outcome.{ok}
use dkms.FrameMac.Bitmap.{is_set}
use dkms.FrameMac.Bitmap.Laws.{place, place-set_bit, is_set-place}
use dkms.FrameMac.Window.Spec.{IsBitmap, place-slide}
use dkms.FrameMac.Window.Refine.{mark}

-- The counter is behind the window, or its place is set.
abbrev pub Taken : ℕ → ℕ → List ℕ → ℕ → Type 0
Taken width highest bits c =
    (c ≤ highest) × ((width ≤ highest - c) ⊎ (place bits (highest - c) ≡ 1))

module _ (width highest : ℕ) (bits : List ℕ) (v : IsBitmap width bits) (s : ℕ) where
  -- What is taken stays taken.
  pub mark-Taken :
      (d c : ℕ)
      → Taken width highest bits c
      → let m = mark width highest bits s d in Taken width m.0.0 m.0.1 c
  unfolding mark
  mark-Taken d c t = elim (Bool-cases (ltb highest d)) [
    | inl new ↦ rw new (
      ground arith,
      elim (Bool-cases (leb width (d - c))) [
        | inl far ↦ inl (ground arith)
        | inr near ↦ inr (ground (arith, place-slide width bits v (d - highest) (d - c), v.room))
      ],
    )
    | inr old ↦ elim (Bool-cases (leb width (highest - d))) [
      | inl far ↦ rw (old, far) t
      | inr near ↦ elim (Bool-cases (is_set bits (highest - d))) [
        | inl dup ↦ rw (old, near, dup) t
        | inr fresh ↦
            rw (old, near, fresh)
              (ground (arith, place-set_bit bits (highest - d) (highest - c), v.room))
      ]
    ]
  ]

  -- What is accepted is taken.
  pub mark_accepts :
      (c : ℕ) → let m = mark width highest bits s c in m.1 ≡ ok tt → Taken width m.0.0 m.0.1 c
  unfolding mark
  mark_accepts c = elim (Bool-cases (ltb highest c)) [
    | inl new ↦ rw new (λ _. (
      omega arith,
      inr (ground (arith, place-slide width bits v (c - highest) (c - c), v.room, v.some_width)),
    ))
    | inr old ↦ elim (Bool-cases (leb width (highest - c))) [
      | inl far ↦ rw (old, far) (λ e. cc)
      | inr near ↦ elim (Bool-cases (is_set bits (highest - c))) [
        | inl dup ↦ rw (old, near, dup) (λ e. cc)
        | inr fresh ↦
            rw (old, near, fresh)
              (λ _. (
                ground arith,
                inr (ground (arith, place-set_bit bits (highest - c) (highest - c), v.room)),
              ))
      ]
    ]
  ]

  -- What is taken is refused.
  pub mark_refuses : (c : ℕ) → Taken width highest bits c → (mark width highest bits s c).1 ≢ ok tt
  unfolding mark
  mark_refuses c t = elim (Bool-cases (ltb highest c)) [
    | inl new ↦ absurd (ground arith)
    | inr old ↦ elim (Bool-cases (leb width (highest - c))) [
      | inl far ↦ rw (old, far) (λ e. cc)
      | inr near ↦ rw (old, near) (ground (arith, is_set-place bits (highest - c)))
    ]
  ]
