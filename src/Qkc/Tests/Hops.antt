-- ===== src/Qkc/Tests/Hops.antt =====
-- Nodes on which the theorems about the relay are used.
use dkms.Prelude.{
  ℕ, ◌≡◌, refl, true, Option, none, some, List, [], ◌∷◌, ◌++◌, length, arith, ◌==◌, if◌then◌else◌,
}
use dkms.Qkc.Routing.Pick.{get_elem?}
use dkms.Prelude.Assoc.{nat_keys, lookup}
use dkms.Prelude.Bytes.{Bytes}
use dkms.Prelude.Outcome.{ok}
use dkms.Prelude.Sets.{contains}
use dkms.Qkc.Crypto.{num_chunks}
use dkms.Qkc.KeyStore.{OtpKey, KeyStore, new as new_store}
use dkms.Qkc.Relay.{Around}
use dkms.Qkc.Relay.Handlers.{handle_local_send_inner, handle_incoming_inner}
use dkms.Qkc.Relay.Hop.{IsSupplied, IsHandedOn, local_send-incoming}
use dkms.Qkc.Routing.{next_hop, next_hop_graded}
use dkms.Qkc.Service.{QkcService, LinkRuntime, accepted, full}
use dkms.Qkc.Tests.Links.{derive_key, hmac, is_same}
use dkms.Qkc.Tests.Secrets.{key_7, key_8}
use dkms.Wire.Frame.{Frame}
use dkms.Wire.Kinds.{grade_qkd}

-- A UUID is printed as one byte.
abbrev uuid_text : ℕ → Bytes
uuid_text id = id ∷ []

abbrev parse_uuid : Bytes → Option ℕ
parse_uuid [] = none
parse_uuid (id ∷ []) = some id
parse_uuid (id ∷ b ∷ bs) = none

reads : (id : ℕ) → parse_uuid (uuid_text id) ≡ some id
reads id = refl

abbrev frame_hash : Frame → ℕ
frame_hash f = f.dest_final

abbrev around : Around
around = record {
  now = 10;
  enc_later = [];
  dec_later = λ id. [];
  has_room = true;
  try_send = λ i. if i == 0 then full else accepted;
}

abbrev keys_of : List OtpKey → List (ℕ × Bytes) → KeyStore
keys_of enc dec = record new_store { enc = enc; dec = dec }

abbrev link_with : KeyStore → LinkRuntime
link_with keys = record { key_size_bits = 16; keys = keys; auth = none }

abbrev sender_link : LinkRuntime
sender_link = link_with (keys_of (key_7 ∷ key_8 ∷ []) [])

abbrev receiver_link : LinkRuntime
receiver_link = link_with (keys_of [] ((8, 3 ∷ 4 ∷ []) ∷ (7, 1 ∷ 2 ∷ []) ∷ []))

abbrev node : ℕ → ℕ → LinkRuntime → QkcService
node id peer link = record {
  qkc_id = id;
  links = (peer, link) ∷ [];
  routing = record { table = []; qkd_table = []; direct = peer ∷ []; direct_qkd = [] };
  local_out = [] ∷ [] ∷ [];
  sent = [];
  stats = record {
    incoming_starts = 0;
    incoming_errs = 0;
    incoming_delivered = 0;
    incoming_forwarded = 0;
    deliver_calls = 0;
    deliver_sends_ok = 0;
    deliver_drops_full = 0;
    deliver_drops_closed = 0;
    local_send_starts = 0;
    local_send_oks = 0;
    local_send_errs = 0;
  };
}

abbrev to_send : Frame
to_send = record {
  kind = 0x10;
  grade = 1;
  sender_id = 0;
  receiver_id = 1;
  dest_final = 2;
  key_size_bits = 0;
  epoch_id = 6;
  key_ids = [];
  header_orr_mp = 40 ∷ [];
  header_dkms_mp = 41 ∷ [];
  payload = 70 ∷ 71 ∷ 72 ∷ [];
}

hop_found :
    next_hop_graded
      (node 1 2 sender_link).routing
      to_send.dest_final
      (frame_hash to_send)
      (to_send.grade == grade_qkd)
    ≡ some 2
unfolding next_hop_graded next_hop contains
hop_found = refl

sender_linked : lookup 2 (node 1 2 sender_link).links ≡ some sender_link
unfolding lookup
sender_linked = refl

receiver_linked : lookup 1 (node 2 1 receiver_link).links ≡ some receiver_link
unfolding lookup
receiver_linked = refl

chunks_counted : num_chunks (length to_send.payload) 2 ≡ ok 2
unfolding num_chunks
chunks_counted = refl

supplied : IsSupplied 2 2 sender_link.keys receiver_link.keys
unfolding lookup
supplied = record {
  enough = omega arith;
  few = omega arith;
  sizes = (refl, (refl, tt));
  distinct = ((refl, tt), (tt, tt));
  ready = (refl, (refl, tt));
}

second_consumer : get_elem? (node 2 1 receiver_link).local_out 1 ≡ some []
second_consumer = refl

local_send-incoming_example :
    (g : Frame) × (let out =
        handle_local_send_inner uuid_text derive_key hmac is_same frame_hash around to_send
          (node 1 2 sender_link) in
      (out.1 ≡ ok tt) × (out.0.sent ≡ [] ++ (2, g) ∷ []))
    × (let out =
          handle_incoming_inner uuid_text derive_key hmac is_same frame_hash parse_uuid around g
            true
            (node 2 1 receiver_link) in
        (out.1 ≡ ok tt)
        × ((d : Frame) × (get_elem? out.0.local_out 1 ≡ some ([] ++ d ∷ []))
            × IsHandedOn 1 to_send d))
local_send-incoming_example =
    local_send-incoming parse_uuid uuid_text reads derive_key hmac is_same frame_hash around around
      1 [] (node 1 2 sender_link) (node 2 1 receiver_link) sender_link receiver_link to_send 2 2
      refl refl hop_found sender_linked receiver_linked refl refl refl (omega arith) chunks_counted
      supplied refl second_consumer refl
