-- ===== src/Qkc/Relay/Handlers.antt =====
-- qkc/src/relay.rs: `handle_incoming` and `handle_local_send`, and what they call.
use dkms.Prelude.{
  ℕ, ◌/◌, ◌%◌, ◌^◌, Bool, true, false, Option, List, map, ltb, ◌==◌, length, if◌then◌else◌,
}
use dkms.Prelude.Bytes.{Bytes}
use dkms.Prelude.Outcome.{ok, refuse_if}
use dkms.Qkc.Crypto.{num_chunks, encrypt, decrypt}
use dkms.Qkc.Error.{bad_request, no_route}
use dkms.Qkc.FrameAuth.{authenticate, seal}
use dkms.Qkc.Relay.{
  Around, max_relay_chunks, outbound_frame, local_deliver_frame, take_or_fetch_enc,
  lookup_or_fetch_dec, parse_key_ids, seal_if, peer_send, ok_or, count_delivered, count_forwarded,
  start_incoming, count_incoming, start_local, count_local,
}
use dkms.Qkc.Routing.{next_hop_graded}
use dkms.Qkc.Service.{LinkRuntime, M, ◌>>=◌, ◌>>◌, lift, link_to, on_keys, on_auth, deliver_local}
use dkms.Wire.Frame.{Frame}
use dkms.Wire.Kinds.{grade_qkd}

module _ (uuid_text : ℕ → Bytes) (derive_key : Bytes → ℕ → Bytes) (hmac : Bytes → Bytes → Bytes)
    (is_same : Bytes → Bytes → Bool) where
  unfoldable pub send_frame_to_peer :
      Around
      → (link : LinkRuntime) → (next_hop dest_final : ℕ) → Bytes
      → List ℕ
      → (grade epoch_id : ℕ) → (header_orr_mp header_dkms_mp : Bytes) → M (Unit {0})
  send_frame_to_peer at link next_hop dest_final ciphertext key_ids grade epoch_id orr dkms s =
      let out =
        outbound_frame s.qkc_id next_hop dest_final grade epoch_id (link.key_size_bits % 2 ^ 16)
          (map uuid_text key_ids) orr dkms ciphertext in
      (on_auth next_hop (seal_if (seal derive_key hmac is_same) out) >>= λ sealed.
      peer_send at.has_room next_hop sealed)
        s

  unfoldable pub forward_plaintext :
      Around
      → (next_hop dest_final : ℕ) → Bytes
      → (grade epoch_id : ℕ) → (header_orr_mp header_dkms_mp : Bytes) → M (Unit {0})
  forward_plaintext at next_hop dest_final plaintext grade epoch_id orr dkms = do
    link ← link_to next_hop
    needed ← lift (num_chunks (length plaintext) (link.key_size_bits / 8))
    lift (
        refuse_if (ltb max_relay_chunks needed) (bad_request "relay payload needs too many chunks"))
    enc_keys ← on_keys next_hop (take_or_fetch_enc at.enc_later needed)
    sealed ← lift (encrypt plaintext enc_keys)
    send_frame_to_peer at link next_hop dest_final sealed.0 sealed.1 grade epoch_id orr dkms

  module _ (frame_hash : Frame → ℕ) where
    unfoldable pub handle_local_send_inner : Around → Frame → M (Unit {0})
    handle_local_send_inner at frame s =
        (do
          lift (
              refuse_if (frame.dest_final == s.qkc_id)
                (bad_request "LOCAL_SEND con dest_final == my_id no tiene sentido"))
          next_hop ← lift (
              ok_or (no_route frame.dest_final) (
                next_hop_graded s.routing frame.dest_final (frame_hash frame)
                  (frame.grade == grade_qkd)))
          forward_plaintext at next_hop frame.dest_final frame.payload frame.grade frame.epoch_id
              frame.header_orr_mp frame.header_dkms_mp)
          s

    module _ (parse_uuid : Bytes → Option ℕ) where
      -- What is done with the plaintext: it is delivered here or forwarded.
      unfoldable pub pass_on : Around → Frame → Bytes → M (Unit {0})
      pass_on at frame plaintext s =
          if frame.dest_final == s.qkc_id
          then (deliver_local at.try_send (local_deliver_frame s.qkc_id frame plaintext) >>= λ u.
                count_delivered)
              s
          else (do
            next_hop ← lift (
                ok_or (no_route frame.dest_final) (
                  next_hop_graded s.routing frame.dest_final (frame_hash frame)
                    (frame.grade == grade_qkd)))
            forward_plaintext at next_hop frame.dest_final plaintext frame.grade frame.epoch_id
                frame.header_orr_mp frame.header_dkms_mp
            count_forwarded)
              s

      unfoldable pub checked : Around → Frame → Bool → M Frame
      checked at frame true = lift (ok frame)
      checked at frame false =
          on_auth frame.sender_id (λ o. authenticate derive_key hmac is_same o at.now frame)

      unfoldable pub handle_incoming_inner : Around → Frame → Bool → M (Unit {0})
      handle_incoming_inner at frame pre_authenticated = do
        in_link ← link_to frame.sender_id
        base ← checked at frame pre_authenticated
        key_ids ← lift (parse_key_ids parse_uuid base.key_ids)
        dec_keys ← on_keys frame.sender_id (lookup_or_fetch_dec at.dec_later key_ids)
        plaintext ← lift (decrypt base.payload key_ids dec_keys (in_link.key_size_bits / 8))
        pass_on at base plaintext

      unfoldable pub handle_incoming : Around → Frame → Bool → M (Unit {0})
      handle_incoming at frame pre_authenticated s =
          count_incoming (handle_incoming_inner at frame pre_authenticated (start_incoming s))

    unfoldable pub handle_local_send : Around → Frame → M (Unit {0})
    handle_local_send at frame s = count_local (handle_local_send_inner at frame (start_local s))
