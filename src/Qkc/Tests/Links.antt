-- ===== src/Qkc/Tests/Links.antt =====
-- Links on which the theorems about sealed frames are used.
use dkms.Prelude.{
  ℕ, ◌+◌, ◌%◌, ◌^◌, ◌≡◌, ◌≢◌, refl, Bool, true, false, ◌&&◌, none, some, [], ◌∷◌, ◌++◌, take,
  replicate, arith, inr, ◌==◌,
}
use dkms.Prelude.Bytes.{Bytes, from_le}
use dkms.Prelude.Outcome.{ok, err}
use dkms.FrameMac.Window.{
  ReplayError, check_and_set, check_session, check_current, shift, reset_to, leave, is_previous,
  contains, default_window, new_quiet_gated, new as new_window,
}
use dkms.FrameMac.Window.Blocked.{Remembers}
use dkms.FrameMac.Window.Cases.{IsValid}
use dkms.FrameMac.Window.Valid.{new-IsValid}
use dkms.FrameMac.Message.{build, tag, verify, write_lp16, write_key_ids, fixed_part}
use dkms.Qkc.Error.{truncated, replay}
use dkms.Qkc.FrameAuth.{
  LinkFrameAuth, require, seals, signs, aad_of, open_frame, open_parts, open_with, after_verify,
  after_check, opened, seal,
}
use dkms.Qkc.LinkKeys.{fixed, send_material, peer_key, key_of, cached_key}
use dkms.Qkc.FrameAuth.Seal.{judged, open-seal}
use dkms.Qkc.FrameAuth.Window.{window-open_refused}
use dkms.Qkc.FrameAuth.Once.{open_all, opened_once}
use dkms.Wire.Frame.{Frame}
use dkms.Wire.Kinds.{auth_kind_for, base_kind_of}
use dkms.Wire.Trailer.{split_auth_trailer}

abbrev pub derive_key : Bytes → ℕ → Bytes
derive_key root session = session ∷ root

-- The first 32 bytes of the key, with zeros where it has fewer.
abbrev pub hmac : Bytes → Bytes → Bytes
hmac key message = take 32 (key ++ replicate 32 0)

abbrev pub is_same : Bytes → Bytes → Bool
is_same [] [] = true
is_same [] (y ∷ ys) = false
is_same (x ∷ xs) [] = false
is_same (x ∷ xs) (y ∷ ys) = x == y && is_same xs ys

abbrev link : ℕ → LinkFrameAuth
link session = record {
  mode = require;
  peer_id = 2;
  src = fixed (8 ∷ []) session (derive_key (8 ∷ []) session);
  counter = 0;
  recv = record { window = new_quiet_gated default_window; cached = none; last_verified = none };
  stats = record {
    signed = 0;
    verified = 0;
    bad_mac_count = 0;
    replayed = 0;
    resync_suppressed = 0;
    plaintext_accepted = 0;
    plaintext_rejections = 0;
  };
}

abbrev frame : ℕ → Bytes → Frame
frame kind payload = record {
  kind = kind;
  grade = 0;
  sender_id = 1;
  receiver_id = 2;
  dest_final = 2;
  key_size_bits = 256;
  epoch_id = 3;
  key_ids = [];
  header_orr_mp = [];
  header_dkms_mp = [];
  payload = payload;
}

abbrev mac : Bytes
mac = 5 ∷ 8 ∷ replicate 30 0

kind_sealed : auth_kind_for 1 ≡ some 4
unfolding auth_kind_for
kind_sealed = refl

mode_seals : seals require 1 ≡ true
unfolding seals signs
mode_seals = refl

to_send : (send_material derive_key (link 5).src).1 ≡ some (5, derive_key (8 ∷ []) 5)
unfolding send_material
to_send = refl

to_open : (peer_key derive_key (link 6).src (link 6).recv 5).1 ≡ some (derive_key (8 ∷ []) 5)
unfolding peer_key key_of cached_key
to_open = refl

tagged :
    tag hmac is_same
      (derive_key (8 ∷ []) 5)
      (aad_of (frame 1 (70 ∷ [])) 4 5 ((0 + 1) % 2 ^ 64) (70 ∷ []))
    ≡ ok mac
unfolding tag build write_lp16 write_key_ids aad_of
tagged = refl

open-seal_example :
    (g : Frame) × ((seal derive_key hmac is_same (link 5) (frame 1 (70 ∷ []))).1 ≡ ok g)
    × ((open_frame derive_key hmac is_same (link 6) 100 g).1
        ≡ judged
            (frame 1 (70 ∷ []))
            (check_and_set (link 6).recv.window 100 5 ((0 + 1) % 2 ^ 64)).1)
open-seal_example =
    open-seal derive_key hmac is_same (link 5) (link 6) 100 (frame 1 (70 ∷ [])) 4 5
      (derive_key (8 ∷ []) 5) mac kind_sealed mode_seals to_send to_open tagged refl refl
      (omega arith)

short_refused :
    (open_frame derive_key hmac is_same (link 6) 100 (frame 4 (70 ∷ []))).1 ≡ err truncated
unfolding open_frame open_parts split_auth_trailer
short_refused = refl

not_replay : (x : ReplayError) → truncated ≢ replay x
not_replay x e = cc

window-open_refused_example :
    (open_frame derive_key hmac is_same (link 6) 100 (frame 4 (70 ∷ []))).0.recv.window
    ≡ (link 6).recv.window
window-open_refused_example =
    window-open_refused derive_key hmac is_same (link 6) 100 (frame 4 (70 ∷ [])) truncated
      short_refused not_replay

abbrev sealed : Frame
sealed = frame 4 (70 ∷ 5 ∷ 0 ∷ 0 ∷ 0 ∷ 0 ∷ 0 ∷ 0 ∷ 0 ∷ 1 ∷ 0 ∷ 0 ∷ 0 ∷ 0 ∷ 0 ∷ 0 ∷ 0 ∷ mac)

first_opened : (open_frame derive_key hmac is_same (link 6) 100 sealed).1 ≡ ok (frame 1 (70 ∷ []))
unfolding open_frame open_parts split_auth_trailer open_with peer_key key_of cached_key after_verify
    after_check opened verify build write_lp16 write_key_ids fixed_part aad_of base_kind_of
    check_and_set check_session check_current shift reset_to leave is_previous contains
    new_quiet_gated new_window from_le
first_opened = refl

few_retired :
    Remembers
      (open_all derive_key hmac is_same
        (open_frame derive_key hmac is_same (link 6) 100 sealed).0
        ((110, frame 4 []) ∷ [])).recv.window
unfolding open_all open_frame open_parts split_auth_trailer open_with peer_key key_of cached_key
    after_verify after_check opened verify build write_lp16 write_key_ids fixed_part aad_of
    base_kind_of check_and_set check_session check_current shift reset_to leave is_previous contains
    new_quiet_gated new_window from_le
few_retired = inr (omega arith)

link-IsValid : IsValid (link 6).recv.window
link-IsValid = (new-IsValid default_window).2

opened_once_example :
    (open_frame derive_key hmac is_same
      (open_all derive_key hmac is_same
        (open_frame derive_key hmac is_same (link 6) 100 sealed).0
        ((110, frame 4 []) ∷ []))
      120
      sealed).1
    ≢ ok (frame 1 (70 ∷ []))
opened_once_example =
    opened_once derive_key hmac is_same (link 6) 100 120 sealed sealed (frame 1 (70 ∷ []))
      (frame 1 (70 ∷ [])) ((110, frame 4 []) ∷ []) link-IsValid first_opened refl few_retired
