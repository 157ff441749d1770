-- ===== src/Qkc/Relay.antt =====
-- qkc/src/relay.rs: a frame from another node is decrypted with keys of its link and delivered or
-- encrypted again with keys of the next link. The reading and the printing of UUIDs, the hash of a
-- frame and the primitives of the MAC are parameters. A message that an error carries is its text
-- without the values that are printed in it.
pub mod Handlers
pub mod Keys
pub mod Refuse
pub mod Hop
use dkms.Prelude.{
  ℕ, String, ◌/◌, ◌%◌, ◌^◌, Bool, true, false, Option, none, some, List, [], ◌∷◌, ◌++◌, map, ltb,
  ◌==◌, length, if◌then◌else◌,
}
use dkms.Prelude.Bytes.{Bytes}
use dkms.Prelude.Outcome.{Outcome, ok, err, panic, refuse_if, ◌>>=◌ as bind}
use dkms.Qkc.Crypto.{num_chunks, encrypt, decrypt}
use dkms.Qkc.Error.{QkcError, FrameAuthError, bad_request, no_route, key_wait_timeout, quditto}
use dkms.Qkc.FrameAuth.{LinkFrameAuth, authenticate, seal}
use dkms.Qkc.KeyStore.{OtpKey, KeyStore, lookup_dec, is_dec_announced, fetch_add}
use dkms.Qkc.KeyStore.Wait.{Answers, Waited, wait_enc_batch, wait_dec}
use dkms.Qkc.Routing.{next_hop_graded}
use dkms.Qkc.Service.{
  QkcService, LinkRuntime, M, ◌>>=◌, ◌>>◌, lift, link_to, on_keys, on_auth, TrySend,
}
use dkms.Wire.Frame.{Frame, empty}
use dkms.Wire.Kinds.{frame_recv, frame_relay, frame_local_deliver, grade_qkd}

abbrev pub max_relay_chunks : ℕ
max_relay_chunks = 4

-- In milliseconds.
abbrev pub dec_wait_timeout : ℕ
dec_wait_timeout = 2000

abbrev pub enc_wait_timeout : ℕ
enc_wait_timeout = 30_000

-- What happens around a call: its time, the keys that come while it waits for keys to encrypt with
-- and, for each id, for keys to decrypt with, whether the queue of the peer has room, and what the channel
-- of each local consumer answers.
pub record Around : Type 0 where
  pub now : ℕ
  pub enc_later : List (List OtpKey)
  pub dec_later : ℕ → Answers
  pub has_room : Bool
  pub try_send : ℕ → TrySend

unfoldable pub local_deliver_frame : ℕ → Frame → Bytes → Frame
unfolding empty
local_deliver_frame qkc_id frame plaintext = record (empty frame_local_deliver) {
  sender_id = frame.sender_id;
  receiver_id = qkc_id;
  dest_final = qkc_id;
  grade = frame.grade;
  epoch_id = frame.epoch_id;
  header_orr_mp = frame.header_orr_mp;
  header_dkms_mp = frame.header_dkms_mp;
  payload = plaintext;
}

unfoldable pub outbound_frame :
    (me next_hop dest_final grade epoch_id key_size_bits : ℕ)
    → List Bytes
    → (header_orr_mp header_dkms_mp ciphertext : Bytes) → Frame
outbound_frame me next_hop dest_final grade epoch_id key_size_bits key_ids orr dkms ciphertext =
    record {
      kind = if next_hop == dest_final then frame_recv else frame_relay;
      grade = grade;
      sender_id = me;
      receiver_id = next_hop;
      dest_final = dest_final;
      key_size_bits = key_size_bits;
      epoch_id = epoch_id;
      key_ids = key_ids;
      header_orr_mp = orr;
      header_dkms_mp = dkms;
      payload = ciphertext;
    }

unfoldable pub of_wait : {A : Type 0} → String → ℕ → Waited A → KeyStore × Outcome QkcError A
of_wait what ms (s, panic) = (s, panic)
of_wait what ms (s, err missing) = (s, err (key_wait_timeout what missing ms))
of_wait what ms (s, ok a) = (s, ok a)

unfoldable pub take_or_fetch_enc :
    List (List OtpKey) → ℕ → KeyStore → KeyStore × Outcome QkcError (List OtpKey)
take_or_fetch_enc later n s = of_wait "enc" enc_wait_timeout (wait_enc_batch s n later)

-- What is done where the key is not at hand.
unfoldable pub fetch_missing :
    ℕ → Answers → KeyStore × Option (List ℕ) → KeyStore × Outcome QkcError (List ℕ)
fetch_missing id later (s, some v) = (s, ok v)
fetch_missing id later (s, none) =
    if is_dec_announced s id
    then of_wait "dec" dec_wait_timeout (wait_dec id later s)
    else (s, err (key_wait_timeout "dec (id no anunciado)" 1 0))

-- `lookup_dec` takes the key out: what was taken before a failure is lost.
unfoldable pub lookup_or_fetch_dec :
    (ℕ → Answers) → List ℕ → KeyStore → KeyStore × Outcome QkcError (List OtpKey)
lookup_or_fetch_dec later [] s = (s, ok [])
lookup_or_fetch_dec later (id ∷ ids) s =
    let first = fetch_missing id (later id) (lookup_dec s id) in
    elim first.1 [
      | panic ↦ (first.0, panic)
      | err e ↦ (first.0, err e)
      | ok v ↦
          let rest = lookup_or_fetch_dec later ids first.0 in
          (rest.0, bind rest.1 (λ keys. ok (record { key_id = id; material = v } ∷ keys)))
    ]

-- `fa.seal(&mut out)`, where the link has a `frame_auth`
unfoldable pub seal_if :
    (LinkFrameAuth → Frame → LinkFrameAuth × Outcome FrameAuthError Frame)
    → Frame
    → Option LinkFrameAuth
    → Option LinkFrameAuth × Outcome FrameAuthError Frame
seal_if seal_frame out none = (none, ok out)
seal_if seal_frame out (some fa) = let r = seal_frame fa out in (some r.0, r.1)

-- `peer_out.send`, which answers whether the queue took the frame
unfoldable pub peer_send : Bool → ℕ → Frame → M (Unit {0})
peer_send true next_hop out s = (record s { sent = s.sent ++ (next_hop, out) ∷ [] }, ok tt)
peer_send false next_hop out s = (s, err (quditto "peer_out queue full"))

unfoldable pub count_delivered : M (Unit {0})
count_delivered s = (
  record s {
    stats = record s.stats { incoming_delivered = fetch_add s.stats.incoming_delivered 1 };
  },
  ok tt,
)

unfoldable pub count_forwarded : M (Unit {0})
count_forwarded s = (
  record s {
    stats = record s.stats { incoming_forwarded = fetch_add s.stats.incoming_forwarded 1 };
  },
  ok tt,
)

unfoldable pub start_incoming : QkcService → QkcService
start_incoming s = record s {
  stats = record s.stats { incoming_starts = fetch_add s.stats.incoming_starts 1 };
}

-- `if let Err(_) = &result { … }`
unfoldable pub count_incoming :
    QkcService × Outcome QkcError (Unit {0}) → QkcService × Outcome QkcError (Unit {0})
count_incoming (s, ok u) = (s, ok u)
count_incoming (s, panic) = (s, panic)
count_incoming (s, err e) = (
  record s { stats = record s.stats { incoming_errs = fetch_add s.stats.incoming_errs 1 } },
  err e,
)

unfoldable pub start_local : QkcService → QkcService
start_local s = record s {
  stats = record s.stats { local_send_starts = fetch_add s.stats.local_send_starts 1 };
}

unfoldable pub count_local :
    QkcService × Outcome QkcError (Unit {0}) → QkcService × Outcome QkcError (Unit {0})
count_local (s, ok u) = (
  record s { stats = record s.stats { local_send_oks = fetch_add s.stats.local_send_oks 1 } },
  ok u,
)
count_local (s, panic) = (s, panic)
count_local (s, err e) = (
  record s { stats = record s.stats { local_send_errs = fetch_add s.stats.local_send_errs 1 } },
  err e,
)

-- `.ok_or(…)`
unfoldable pub ok_or : QkcError → Option ℕ → Outcome QkcError ℕ
ok_or e none = err e
ok_or e (some a) = ok a

module _ (parse_uuid : Bytes → Option ℕ) where
  unfoldable pub parse_key_ids : List Bytes → Outcome QkcError (List ℕ)
  parse_key_ids [] = ok []
  parse_key_ids (s ∷ strs) = elim (parse_uuid s) [
    | none ↦ err (bad_request "invalid key_id")
    | some u ↦ bind (parse_key_ids strs) (λ out. ok (u ∷ out))
  ]
