-- ===== src/Qkc/FrameAuth/Window.antt =====
-- On the replay window of a link over a call of `open` of qkc/src/frame_auth.rs.
use dkms.Prelude.{ℕ, ◌≡◌, ◌≢◌, refl, ap, subst, Bool, ◌⊎◌, Option, none, some, inl, inr, choose}
use dkms.Prelude.Bytes.{Bytes}
use dkms.Prelude.Outcome.{Outcome, ok, err, panic}
use dkms.FrameMac.Window.{ReplayWindow, ReplayError, check_and_set}
use dkms.FrameMac.Message.{MacError, verify}
use dkms.Qkc.Error.{FrameAuthError, replay}
use dkms.Qkc.FrameAuth.{
  LinkFrameAuth, Passed, aad_of, after_check, after_verify, no_key, recently_verified, open_frame,
  open_parts, open_with, opened,
}
use dkms.Qkc.LinkKeys.{RecvState, peer_key}
use dkms.Qkc.FrameAuth.Seal.{window-peer_key}
use dkms.Wire.Frame.{Frame, WireError}
use dkms.Wire.Trailer.{split_auth_trailer}

-- The session and the counter of a trailer.
abbrev pub session_of : Outcome WireError (Bytes × ℕ × ℕ × Bytes) → Option (ℕ × ℕ)
session_of panic = none
session_of (err e) = none
session_of (ok (body, session, counter, mac)) = some (session, counter)

-- The call left the window and gave no frame.
abbrev pub IsShut : ReplayWindow → Passed → Type 0
IsShut w r = (r.0.recv.window ≡ w) × ((g : Frame) → r.1 ≢ ok g)

-- The call asked the window, gave a frame only if the window took it, and an error only as the window
-- did.
abbrev pub IsJudged : ReplayWindow → ℕ → ℕ × ℕ → Passed → Type 0
IsJudged w now (session, counter) r =
    (r.0.recv.window ≡ (check_and_set w now session counter).0)
    × ((g : Frame) → r.1 ≡ ok g → (check_and_set w now session counter).1 ≡ ok tt)
    × ((e : FrameAuthError) → r.1 ≡ err e → (x : ReplayError) × (e ≡ replay x))

check_judges :
    (fa : LinkFrameAuth) (recv : RecvState) (now : ℕ) (f : Frame)
    (r : ReplayWindow × Outcome ReplayError (Unit {0}))
    → ((after_check fa recv now f r).0.recv.window ≡ r.0)
      × ((g : Frame) → (after_check fa recv now f r).1 ≡ ok g → r.1 ≡ ok tt)
      × ((e : FrameAuthError)
          → (after_check fa recv now f r).1 ≡ err e
          → (x : ReplayError) × (e ≡ replay x))
unfolding after_check
check_judges fa recv now f (w, panic) = (refl, λ g e. cc, λ e h. cc)
check_judges fa recv now f (w, err x) = (refl, λ g e. cc, λ e h. (x, cc))
check_judges fa recv now f (w, ok u) = (refl, λ g e. refl, λ e h. cc)

verify_judges :
    (fa : LinkFrameAuth) (recv : RecvState) (now : ℕ) (f : Frame) (session counter : ℕ)
    (o : Outcome MacError (Unit {0}))
    → IsShut recv.window (after_verify fa recv now f session counter o)
      ⊎ IsJudged recv.window now (session, counter) (after_verify fa recv now f session counter o)
unfolding after_verify
verify_judges fa recv now f session counter panic = inl (refl, λ g e. cc)
verify_judges fa recv now f session counter (err x) = inl (refl, λ g e. cc)
verify_judges fa recv now f session counter (ok u) =
    inr (check_judges fa recv now f (check_and_set recv.window now session counter))

window-no_key : (fa : LinkFrameAuth) (now session : ℕ) → (no_key fa now session).recv ≡ fa.recv
unfolding no_key
window-no_key fa now session =
    choose (recently_verified fa.recv.last_verified now) (λ (r : LinkFrameAuth). r.recv ≡ fa.recv)
      (λ e. refl) (λ e. refl)

module _ (derive_key : Bytes → ℕ → Bytes) (hmac : Bytes → Bytes → Bytes)
    (is_same : Bytes → Bytes → Bool) where
  with_judges :
      (fa : LinkFrameAuth) (now : ℕ) (f : Frame) (body mac : Bytes) (session counter : ℕ)
      (r : RecvState × Option Bytes)
      → r.0.window ≡ fa.recv.window
      → let out = open_with derive_key hmac is_same fa now f (body, session, counter, mac) r in
        IsShut fa.recv.window out ⊎ IsJudged fa.recv.window now (session, counter) out
  unfolding open_with
  with_judges fa now f body mac session counter (recv, none) w =
      inl (ap (λ (x : RecvState). x.window) (window-no_key fa now session), λ g e. cc)
  with_judges fa now f body mac session counter (recv, some key) w =
      let out =
        after_verify fa recv now (opened f body) session counter
          (verify hmac is_same key (aad_of f f.kind session counter body) mac) in
      subst (λ x. IsShut x out ⊎ IsJudged x now (session, counter) out) w
        (verify_judges fa recv now (opened f body) session counter
          (verify hmac is_same key (aad_of f f.kind session counter body) mac))

  parts_judge :
      (fa : LinkFrameAuth) (now : ℕ) (f : Frame) (o : Outcome WireError (Bytes × ℕ × ℕ × Bytes))
      → let out = open_parts derive_key hmac is_same fa now f o in
        IsShut fa.recv.window out
        ⊎ ((p : ℕ × ℕ) × (session_of o ≡ some p) × IsJudged fa.recv.window now p out)
  unfolding open_parts
  parts_judge fa now f panic = inl (refl, λ g e. cc)
  parts_judge fa now f (err x) = inl (refl, λ g e. cc)
  parts_judge fa now f (ok (body, session, counter, mac)) =
      elim (with_judges fa now f body mac session counter
        (peer_key derive_key fa.src fa.recv session)
        (window-peer_key derive_key fa.src fa.recv session)) [
          | inl shut ↦ inl shut
          | inr judged ↦ inr ((session, counter), refl, judged)
        ]

  pub open_judges :
      (fa : LinkFrameAuth) (now : ℕ) (f : Frame)
      → let out = open_frame derive_key hmac is_same fa now f in
        IsShut fa.recv.window out
        ⊎ ((p : ℕ × ℕ) × (session_of (split_auth_trailer f.payload) ≡ some p)
            × IsJudged fa.recv.window now p out)
  unfolding open_frame
  open_judges fa now f = parts_judge fa now f (split_auth_trailer f.payload)

  -- A frame that is refused for any other reason than its freshness, because it has no trailer, there
  -- is no key for its session or its MAC is wrong, leaves the window as it was.
  pub window-open_refused :
      (fa : LinkFrameAuth) (now : ℕ) (f : Frame) (e : FrameAuthError)
      → (open_frame derive_key hmac is_same fa now f).1 ≡ err e
      → ((x : ReplayError) → e ≢ replay x)
      → (open_frame derive_key hmac is_same fa now f).0.recv.window ≡ fa.recv.window
  window-open_refused fa now f e h n = elim (open_judges fa now f) [
    | inl (same, shut) ↦ same
    | inr (p, at, judged) ↦ let (x, is_replay) = judged.2 e h in absurd (n x is_replay)
  ]
