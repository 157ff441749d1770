-- ===== src/Qkc/FrameAuth.antt =====
-- qkc/src/frame_auth.rs and the modes of qkc/src/config.rs: `LinkFrameAuth`, the authentication of
-- the frames of a link. HKDF (`derive_key`), HMAC and its comparison are parameters; the clock is an
-- argument, in nanoseconds. The store of secrets that the link shares is a part of the state, and
-- the text of logs is left out.
pub mod Seal
pub mod Window
pub mod Once
use dkms.Prelude.{
  ℕ, ◌+◌, ◌-◌, ◌%◌, ◌^◌, min, max, Bool, true, false, ◌||◌, Option, none, some, List, [], ◌∷◌, ltb,
  ◌==◌, length, take, if◌then◌else◌,
}
use dkms.Prelude.Bytes.{Bytes}
use dkms.Prelude.Outcome.{Outcome, ok, err, panic, ◌>>=◌}
use dkms.FrameMac.Window.{
  ReplayWindow, ReplayError, check_and_set, default_window, new_monotonic, new_quiet_gated,
}
use dkms.FrameMac.Message.{FrameAad, MacError, tag, verify}
use dkms.Qkc.Error.{FrameAuthError, truncated, bad_mac, replay, plaintext_rejected}
use dkms.Qkc.KeyStore.{fetch_add}
use dkms.Qkc.LinkKeys.{
  RootSource, fixed, per_epoch, RecvState, window_for, resync, send_material, peer_key,
}
use dkms.Qkc.SecretStore.{SecretStore, get, highest, request_resync}
use dkms.Wire.Frame.{Frame, WireError}
use dkms.Wire.Kinds.{is_auth_kind, auth_kind_for, base_kind_of, frame_key_ids_notify}
use dkms.Wire.Trailer.{append_auth_trailer, split_auth_trailer, auth_trailer_len}

pub data FrameAuth : Type 0 where
  off prefer require : FrameAuth

unfoldable pub signs : FrameAuth → Bool
signs off = false
signs prefer = true
signs require = true

unfoldable pub rejects_plaintext : FrameAuth → Bool
rejects_plaintext off = false
rejects_plaintext prefer = false
rejects_plaintext require = true

-- 10 s
abbrev pub resync_suppress_after_verified : ℕ
resync_suppress_after_verified = 10_000_000_000

pub record FrameAuthStats : Type 0 where
  pub signed : ℕ
  pub verified : ℕ
  pub bad_mac_count : ℕ
  pub replayed : ℕ
  pub resync_suppressed : ℕ
  pub plaintext_accepted : ℕ
  pub plaintext_rejections : ℕ

pub record LinkFrameAuth : Type 0 where
  pub mode : FrameAuth
  pub peer_id : ℕ
  pub src : RootSource
  pub counter : ℕ
  pub recv : RecvState
  pub stats : FrameAuthStats

unfoldable pub with_source : FrameAuth → ℕ → RootSource → LinkFrameAuth
with_source mode peer_id src = record {
  mode = mode;
  peer_id = peer_id;
  src = src;
  counter = 0;
  recv = record { window = window_for src; cached = none; last_verified = none };
  stats = record {
    signed = 0;
    verified = 0;
    bad_mac_count = 0;
    replayed = 0;
    resync_suppressed = 0;
    plaintext_accepted = 0;
    plaintext_rejections = 0;
  };
}

unfoldable pub new_per_epoch : FrameAuth → ℕ → SecretStore → LinkFrameAuth
new_per_epoch mode peer_id store = with_source mode peer_id (per_epoch store none)

unfoldable pub seals : FrameAuth → ℕ → Bool
seals mode kind = kind == frame_key_ids_notify || signs mode

-- The fields of the frame that the MAC covers, with the body apart.
unfoldable pub aad_of : Frame → ℕ → ℕ → ℕ → Bytes → FrameAad
aad_of f kind session counter body = record {
  kind = kind;
  grade = f.grade;
  session = session;
  counter = counter;
  sender_id = f.sender_id;
  receiver_id = f.receiver_id;
  dest_final = f.dest_final;
  key_size_bits = f.key_size_bits;
  epoch_id = f.epoch_id;
  key_ids = f.key_ids;
  header_orr_mp = f.header_orr_mp;
  header_dkms_mp = f.header_dkms_mp;
  body = body;
}

-- `t.elapsed() < RESYNC_SUPPRESS_AFTER_VERIFIED`, where a frame was verified
unfoldable pub recently_verified : Option ℕ → ℕ → Bool
recently_verified none now = false
recently_verified (some t) now = ltb (now - t) resync_suppress_after_verified

unfoldable pub count_bad_mac : FrameAuthStats → FrameAuthStats
count_bad_mac stats = record stats { bad_mac_count = fetch_add stats.bad_mac_count 1 }

-- There is no key for the session of a frame.
unfoldable pub no_key : LinkFrameAuth → ℕ → ℕ → LinkFrameAuth
no_key fa now session =
    if recently_verified fa.recv.last_verified now
    then record fa {
      stats =
          count_bad_mac
            (record fa.stats { resync_suppressed = fetch_add fa.stats.resync_suppressed 1 });
    }
    else record fa { src = resync fa.src session; stats = count_bad_mac fa.stats }

-- The base frame: the kind in clear and the payload without the trailer.
unfoldable pub opened : Frame → Bytes → Frame
opened frame body = record frame { kind = base_kind_of frame.kind; payload = body }

-- A link after a call, with the frame that the call leaves.
abbrev pub Passed : Type 0
Passed = LinkFrameAuth × Outcome FrameAuthError Frame

-- What `check_and_set` said of a frame whose MAC is right.
unfoldable pub after_check :
    LinkFrameAuth → RecvState → ℕ → Frame → ReplayWindow × Outcome ReplayError (Unit {0}) → Passed
after_check fa recv now opened_frame (w, panic) =
    (record fa { recv = record recv { window = w } }, panic)
after_check fa recv now opened_frame (w, err e) = (
  record fa {
    recv = record recv { window = w };
    stats = record fa.stats { replayed = fetch_add fa.stats.replayed 1 };
  },
  err (replay e),
)
after_check fa recv now opened_frame (w, ok u) = (
  record fa {
    recv = record recv { window = w; last_verified = some now };
    stats = record fa.stats { verified = fetch_add fa.stats.verified 1 };
  },
  ok opened_frame,
)

unfoldable pub after_verify :
    LinkFrameAuth
    → RecvState
    → ℕ
    → Frame
    → (session counter : ℕ) → Outcome MacError (Unit {0})
    → Passed
after_verify fa recv now opened_frame session counter panic = (record fa { recv = recv }, panic)
after_verify fa recv now opened_frame session counter (err e) =
    (record fa { recv = recv; stats = count_bad_mac fa.stats }, err bad_mac)
after_verify fa recv now opened_frame session counter (ok u) =
    after_check fa recv now opened_frame (check_and_set recv.window now session counter)

unfoldable pub accept_plaintext : LinkFrameAuth → Frame → Passed
accept_plaintext fa frame =
    if frame.kind == frame_key_ids_notify || rejects_plaintext fa.mode
    then (
      record fa {
        stats = record fa.stats {
          plaintext_rejections = fetch_add fa.stats.plaintext_rejections 1;
        };
      },
      err plaintext_rejected,
    )
    else (
      record fa {
        stats = record fa.stats { plaintext_accepted = fetch_add fa.stats.plaintext_accepted 1 };
      },
      ok frame,
    )

module _ (derive_key : Bytes → ℕ → Bytes) where
  -- `None` without a root; `session_bits` is the number that is drawn.
  unfoldable pub new : FrameAuth → ℕ → Option Bytes → ℕ → Option LinkFrameAuth
  new mode peer_id none session_bits = none
  new mode peer_id (some root) session_bits =
      let session = max session_bits 1 in
      some (with_source mode peer_id (fixed root session (derive_key root session)))

  module _ (hmac : Bytes → Bytes → Bytes) (is_same : Bytes → Bytes → Bool) where
    -- With the material to send with, if any.
    unfoldable pub seal_with :
        LinkFrameAuth → Frame → (auth_kind : ℕ) → RootSource × Option (ℕ × Bytes) → Passed
    seal_with fa frame auth_kind (src, none) = (record fa { src = src }, ok frame)
    seal_with fa frame auth_kind (src, some (session, send_key)) =
        let counter = (fa.counter + 1) % 2 ^ 64 in
        elim (tag hmac is_same send_key (aad_of frame auth_kind session counter frame.payload)) [
          | ok mac ↦ (
            record fa {
              src = src;
              counter = counter;
              stats = record fa.stats { signed = fetch_add fa.stats.signed 1 };
            },
            ok (record frame {
              kind = auth_kind;
              payload = append_auth_trailer frame.payload session counter mac;
            }),
          )
          | err e ↦ (record fa { src = src; counter = counter }, panic)
          | panic ↦ (record fa { src = src; counter = counter }, panic)
        ]

    unfoldable pub seal : LinkFrameAuth → Frame → Passed
    seal fa frame = elim (auth_kind_for frame.kind) [
      | none ↦ (fa, ok frame)
      | some auth_kind ↦
          if seals fa.mode frame.kind
          then seal_with fa frame auth_kind (send_material derive_key fa.src)
          else (fa, ok frame)
    ]

    unfoldable pub open_with :
        LinkFrameAuth → ℕ → Frame → Bytes × ℕ × ℕ × Bytes → RecvState × Option Bytes → Passed
    open_with fa now frame (body, session, counter, mac) (recv, none) =
        (no_key fa now session, err bad_mac)
    open_with fa now frame (body, session, counter, mac) (recv, some key) =
        after_verify fa recv now (opened frame body) session counter
          (verify hmac is_same key (aad_of frame frame.kind session counter body) mac)

    unfoldable pub open_parts :
        LinkFrameAuth → ℕ → Frame → Outcome WireError (Bytes × ℕ × ℕ × Bytes) → Passed
    open_parts fa now frame panic = (fa, panic)
    open_parts fa now frame (err e) = (fa, err truncated)
    open_parts fa now frame (ok (body, session, counter, mac)) =
        open_with fa now frame (body, session, counter, mac)
          (peer_key derive_key fa.src fa.recv session)

    unfoldable pub open_frame : LinkFrameAuth → ℕ → Frame → Passed
    open_frame fa now frame = open_parts fa now frame (split_auth_trailer frame.payload)

    -- Without a root, a trailer is cut off unseen.
    unfoldable pub strip : Frame → Outcome FrameAuthError Frame
    strip frame =
        if ltb (length frame.payload) auth_trailer_len
        then err truncated
        else ok (opened frame (take (length frame.payload - auth_trailer_len) frame.payload))

    unfoldable pub authenticate :
        Option LinkFrameAuth → ℕ → Frame → Option LinkFrameAuth × Outcome FrameAuthError Frame
    authenticate none now frame = (none, if is_auth_kind frame.kind then strip frame else ok frame)
    authenticate (some fa) now frame =
        let r =
          if is_auth_kind frame.kind then open_frame fa now frame else accept_plaintext fa frame in
        (some r.0, r.1)
