-- ===== src/Qkc/FrameAuth/Seal.antt =====
-- On a frame that `seal` of qkc/src/frame_auth.rs makes and `open` reads.
use dkms.Prelude.{
  ℕ, ◌+◌, ◌%◌, ◌^◌, ◌<◌, ◌≡◌, refl, sym, ap, ◌∙◌, subst, Bool, true, Option, none, some, inl, inr,
  Option-cases, length, arith,
}
use dkms.Prelude.Bytes.{Bytes}
use dkms.Prelude.Assoc.{some_eq}
use dkms.Prelude.Outcome.{Outcome, ok, err, panic, >>=-eq-ok}
use dkms.FrameMac.Window.{ReplayWindow, ReplayError, check_and_set}
use dkms.FrameMac.Message.{FrameAad, build, tag, verify}
use dkms.FrameMac.Message.Cancel.{ok_eq}
use dkms.Qkc.Error.{FrameAuthError, replay}
use dkms.Qkc.FrameAuth.{
  LinkFrameAuth, aad_of, after_check, after_verify, open_frame, open_parts, open_with, opened, seal,
  seal_with, seals,
}
use dkms.Qkc.LinkKeys.{RecvState, RootSource, key_of, cached_key, peer_key, send_material}
use dkms.Wire.Frame.{Frame}
use dkms.Wire.Kinds.{auth_kind_for, base_kind_of, auth_kind_for_iff}
use dkms.Wire.Trailer.{append_auth_trailer}
use dkms.Wire.Trailer.RoundTrip.{split-append_auth_trailer}

-- What the window says of a frame, as the result of `open`.
abbrev pub judged : Frame → Outcome ReplayError (Unit {0}) → Outcome FrameAuthError Frame
judged f panic = panic
judged f (err e) = err (replay e)
judged f (ok u) = ok f

after_check_result :
    (fa : LinkFrameAuth) (recv : RecvState) (now : ℕ) (f : Frame)
    (r : ReplayWindow × Outcome ReplayError (Unit {0}))
    → (after_check fa recv now f r).1 ≡ judged f r.1
unfolding after_check
after_check_result fa recv now f (w, panic) = refl
after_check_result fa recv now f (w, err e) = refl
after_check_result fa recv now f (w, ok u) = refl

module _ (derive_key : Bytes → ℕ → Bytes) where
  -- The look-up of a key leaves the window.
  pub window-peer_key :
      (src : RootSource) (st : RecvState) (session : ℕ)
      → (peer_key derive_key src st session).0.window ≡ st.window
  unfolding peer_key
  window-peer_key src st session = elim (Option-cases (cached_key derive_key st.cached session)) [
    | inr (k, e) ↦ rw (peer_key, e)
    | inl e ↦ elim (Option-cases (key_of derive_key src session)) [
      | inl n ↦ rw (peer_key, e, n)
      | inr (k, n) ↦ rw (peer_key, e, n)
    ]
  ]

  module _ (hmac : Bytes → Bytes → Bytes) (is_same : Bytes → Bytes → Bool) where
    verify-tag :
        (key : Bytes) (aad : FrameAad) (mac : Bytes)
        → is_same mac mac ≡ true
        → tag hmac is_same key aad ≡ ok mac
        → verify hmac is_same key aad mac ≡ ok tt
    unfolding tag verify
    verify-tag key aad mac same h =
        let (m, built, hashed) = >>=-eq-ok (build aad) _ h in rw (built, ok_eq hashed, same)

    sent : Frame → (auth_kind session counter : ℕ) → Bytes → Frame
    sent f auth_kind session counter mac = record f {
      kind = auth_kind;
      payload = append_auth_trailer f.payload session counter mac;
    }

    payload-sent :
        (f : Frame) (auth_kind session counter : ℕ) (mac : Bytes)
        → (sent f auth_kind session counter mac).payload
          ≡ append_auth_trailer f.payload session counter mac
    unfolding sent
    payload-sent f auth_kind session counter mac = refl

    seal_with_result :
        (a : LinkFrameAuth) (f : Frame) (auth_kind session : ℕ) (key mac : Bytes)
        (r : RootSource × Option (ℕ × Bytes))
        → r.1 ≡ some (session, key)
        → tag hmac is_same key (aad_of f auth_kind session ((a.counter + 1) % 2 ^ 64) f.payload)
          ≡ ok mac
        → (seal_with derive_key hmac is_same a f auth_kind r).1
          ≡ ok (sent f auth_kind session ((a.counter + 1) % 2 ^ 64) mac)
    unfolding seal_with sent
    seal_with_result a f auth_kind session key mac (src, none) m t = cc
    seal_with_result a f auth_kind session key mac (src, some q) m t =
        subst
          (λ (q' : ℕ × Bytes).
            (seal_with derive_key hmac is_same a f auth_kind (src, some q')).1
            ≡ ok (sent f auth_kind session ((a.counter + 1) % 2 ^ 64) mac))
          (sym (some_eq m)) (rw (seal_with, t))

    seal_result :
        (a : LinkFrameAuth) (f : Frame) (auth_kind session : ℕ) (key mac : Bytes)
        → auth_kind_for f.kind ≡ some auth_kind
        → seals a.mode f.kind ≡ true
        → (send_material derive_key a.src).1 ≡ some (session, key)
        → tag hmac is_same key (aad_of f auth_kind session ((a.counter + 1) % 2 ^ 64) f.payload)
          ≡ ok mac
        → (seal derive_key hmac is_same a f).1
          ≡ ok (sent f auth_kind session ((a.counter + 1) % 2 ^ 64) mac)
    unfolding seal
    seal_result a f auth_kind session key mac k s m t =
        rw (seal, k, s)
          (seal_with_result a f auth_kind session key mac (send_material derive_key a.src) m t)

    open_with_result :
        (b : LinkFrameAuth) (now : ℕ) (f : Frame) (auth_kind session counter : ℕ) (key mac : Bytes)
        (r : RecvState × Option Bytes)
        → base_kind_of auth_kind ≡ f.kind
        → r.0.window ≡ b.recv.window
        → r.1 ≡ some key
        → is_same mac mac ≡ true
        → tag hmac is_same key (aad_of f auth_kind session counter f.payload) ≡ ok mac
        → (open_with derive_key hmac is_same b now
            (sent f auth_kind session counter mac)
            (f.payload, session, counter, mac)
            r).1
          ≡ judged f (check_and_set b.recv.window now session counter).1
    unfolding open_with after_verify sent opened aad_of
    open_with_result b now f auth_kind session counter key mac (recv, none) k w p same t = cc
    open_with_result b now f auth_kind session counter key mac (recv, some key') k w p same t =
        rw (some_eq p, verify-tag key (aad_of f auth_kind session counter f.payload) mac same t, k)
          (after_check_result b recv now f (check_and_set recv.window now session counter)
            ∙ ap (λ w'. judged f (check_and_set w' now session counter).1) w)

    -- A frame of a kind that has an authenticated variant and that the link seals, where there is a
    -- key to send with: what `seal` makes of it, `open` at an end with the same key for the session
    -- takes for that frame again, exactly as the sender gave it, if the window of the receiver takes
    -- its session and counter, and refuses it as the window does otherwise. A tag has 32 bytes, is
    -- taken for itself, and the session has 64 bits.
    pub open-seal :
        (a b : LinkFrameAuth) (now : ℕ) (f : Frame) (auth_kind session : ℕ) (key mac : Bytes)
        → auth_kind_for f.kind ≡ some auth_kind
        → seals a.mode f.kind ≡ true
        → (send_material derive_key a.src).1 ≡ some (session, key)
        → (peer_key derive_key b.src b.recv session).1 ≡ some key
        → tag hmac is_same key (aad_of f auth_kind session ((a.counter + 1) % 2 ^ 64) f.payload)
          ≡ ok mac
        → is_same mac mac ≡ true
        → length mac ≡ 32
        → session < 2 ^ 64
        → (g : Frame) × ((seal derive_key hmac is_same a f).1 ≡ ok g)
          × ((open_frame derive_key hmac is_same b now g).1
              ≡ judged f (check_and_set b.recv.window now session ((a.counter + 1) % 2 ^ 64)).1)
    unfolding open_frame open_parts sent
    open-seal a b now f auth_kind session key mac k s m p t same l small =
        let counter = (a.counter + 1) % 2 ^ 64 in
        (
          sent f auth_kind session counter mac,
          seal_result a f auth_kind session key mac k s m t,
          rw
              (
                payload-sent f auth_kind session counter mac,
                split-append_auth_trailer f.payload mac session counter small (omega arith) l,
              )
              (open_with_result b now f auth_kind session counter key mac
                (peer_key derive_key b.src b.recv session)
                ((auth_kind_for_iff f.kind auth_kind).0 k).1 (window-peer_key b.src b.recv session)
                p same t),
        )
