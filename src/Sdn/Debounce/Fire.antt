-- ===== src/Sdn/Debounce/Fire.antt =====
-- On `spawn_fire` of sdn/src/debounce.rs and the thread that it starts.
use dkms.Prelude.{
  ℕ, zero, suc, ◌≡◌, refl, sym, ◌∙◌, ap, Bool, true, false, choose, Bool-cases, inl, inr,
}
use dkms.Sdn.Debounce.{Phase, idle, starting, firing, closing, Fires, spawn_fire, advance, run_fire}

unfoldable pub is_running : Phase → Bool
is_running idle = false
is_running starting = true
is_running firing = true
is_running closing = true

-- The flag says whether there is a thread that runs the callback, so there is at most one.
pub record IsValid (f : Fires) : Type 0 where
  pub flagged : f.fire_inflight ≡ is_running f.phase

abbrev fires : Bool → Bool → Phase → ℕ → Fires
fires i r p k = record { fire_inflight = i; fire_rerun = r; phase = p; started = k }

unfoldable pub run_fires : ℕ → Fires → Fires
run_fires zero f = f
run_fires (suc n) f = run_fires n (run_fire f)

pub spawn_fire-IsValid : (f : Fires) → IsValid f → IsValid (spawn_fire f)
unfolding spawn_fire is_running
spawn_fire-IsValid f v = elim (Bool-cases f.fire_inflight) [
  | inl t ↦ rw (t, spawn_fire) (record { flagged = sym t ∙ v.flagged })
  | inr t ↦ rw (t, spawn_fire) (record { flagged = refl })
]

pub run_fire-IsValid : (f : Fires) → IsValid f → IsValid (run_fire f)
unfolding run_fire advance is_running
run_fire-IsValid f v = go f.phase refl
  where
    go : (p : Phase) → f.phase ≡ p → IsValid (advance f p)
    go idle e = v
    go starting e = record { flagged = v.flagged ∙ ap is_running e }
    go firing e =
        choose f.fire_rerun (λ (r : Fires). IsValid r)
          (λ t. record { flagged = v.flagged ∙ ap is_running e })
          (λ t. record { flagged = v.flagged ∙ ap is_running e })
    go closing e = record { flagged = refl }
