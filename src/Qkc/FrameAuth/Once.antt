-- ===== src/Qkc/FrameAuth/Once.antt =====
-- On sequences of calls of `open` of qkc/src/frame_auth.rs.
use dkms.Prelude.{ℕ, ◌≡◌, ◌≢◌, refl, sym, ap, ◌∙◌, subst, Bool, List, [], ◌∷◌, inl, inr}
use dkms.Prelude.Assoc.{some_eq}
use dkms.Prelude.Bytes.{Bytes}
use dkms.Prelude.Outcome.{ok}
use dkms.FrameMac.Window.{check_and_set}
use dkms.FrameMac.Window.Blocked.{Remembers}
use dkms.FrameMac.Window.Cases.{IsValid}
use dkms.FrameMac.Window.Once.{run, accepted_once}
use dkms.Qkc.FrameAuth.{LinkFrameAuth, open_frame}
use dkms.Qkc.FrameAuth.Window.{session_of, open_judges}
use dkms.Wire.Frame.{Frame}
use dkms.Wire.Trailer.{split_auth_trailer}

module _ (derive_key : Bytes → ℕ → Bytes) (hmac : Bytes → Bytes → Bytes)
    (is_same : Bytes → Bytes → Bool) where
  -- The frames that arrive, each with the time.
  unfoldable pub open_all : LinkFrameAuth → List (ℕ × Frame) → LinkFrameAuth
  open_all fa [] = fa
  open_all fa ((now, f) ∷ frames) = open_all (open_frame derive_key hmac is_same fa now f).0 frames

  -- Whatever frames arrive, their effect on the window is that of some checks.
  checks_of :
      (fa : LinkFrameAuth) (frames : List (ℕ × Frame))
      → (checks : List (ℕ × ℕ × ℕ)) × ((open_all fa frames).recv.window ≡ run fa.recv.window checks)
  unfolding open_all run
  checks_of fa [] = ([], refl)
  checks_of fa ((now, f) ∷ frames) =
      let fa' = (open_frame derive_key hmac is_same fa now f).0 in
      let (checks, same) = checks_of fa' frames in
      elim (open_judges derive_key hmac is_same fa now f) [
        | inl (left, shut) ↦ (checks, same ∙ ap (λ w. run w checks) left)
        | inr ((s, c), at, judged) ↦ ((now, s, c) ∷ checks, same ∙ ap (λ w. run w checks) judged.0)
      ]

  -- On a link whose window keeps its invariant, once a frame was opened, no frame with the same
  -- session and counter in its trailer is opened again, whatever frames arrive in between and at
  -- whatever times: without condition where sessions are those of epochs, and with a fixed root while
  -- the list of retired sessions has not been filled.
  pub opened_once :
      (fa : LinkFrameAuth) (now later : ℕ) (f f' g g' : Frame) (frames : List (ℕ × Frame))
      → IsValid fa.recv.window
      → (open_frame derive_key hmac is_same fa now f).1 ≡ ok g
      → session_of (split_auth_trailer f'.payload) ≡ session_of (split_auth_trailer f.payload)
      → Remembers (open_all (open_frame derive_key hmac is_same fa now f).0 frames).recv.window
      → (open_frame derive_key hmac is_same
          (open_all (open_frame derive_key hmac is_same fa now f).0 frames)
          later
          f').1
        ≢ ok g'
  opened_once fa now later f f' g g' frames v first same r again =
      let fa' = (open_frame derive_key hmac is_same fa now f).0 in
      let fb = open_all fa' frames in
      elim (open_judges derive_key hmac is_same fa now f) [
        | inl (left, shut) ↦ shut g first
        | inr ((s, c), at, judged) ↦ elim (open_judges derive_key hmac is_same fb later f') [
          | inl (left, shut) ↦ shut g' again
          | inr ((s', c'), at', judged') ↦
              let (checks, window) = checks_of fa' frames in
              let whole : fb.recv.window ≡ run (check_and_set fa.recv.window now s c).0 checks =
                window ∙ ap (λ w. run w checks) judged.0 in
              let pair : ◌≡◌ {A = ℕ × ℕ} (s', c') (s, c) = some_eq (sym at' ∙ same ∙ at) in
              let taken : (check_and_set fb.recv.window later s c).1 ≡ ok tt =
                subst (λ (q : ℕ × ℕ). (check_and_set fb.recv.window later q.0 q.1).1 ≡ ok tt) pair
                  (judged'.1 g' again) in
              accepted_once fa.recv.window now later s c checks v (judged.1 g first)
                (subst Remembers whole r)
                (subst (λ w. (check_and_set w later s c).1 ≡ ok tt) whole taken)
        ]
      ]
