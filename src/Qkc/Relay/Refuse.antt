-- ===== src/Qkc/Relay/Refuse.antt =====
-- On what `forward_plaintext` of qkc/src/relay.rs refuses.
use dkms.Prelude.{ℕ, ◌/◌, ◌<◌, ◌≡◌, Bool, some, length, ltb-true}
use dkms.Prelude.Assoc.{nat_keys, lookup}
use dkms.Prelude.Bytes.{Bytes}
use dkms.Prelude.Outcome.{ok, err}
use dkms.Qkc.Crypto.{num_chunks}
use dkms.Qkc.Error.{bad_request}
use dkms.Qkc.Relay.{Around, max_relay_chunks}
use dkms.Qkc.Relay.Handlers.{forward_plaintext}
use dkms.Qkc.Service.{QkcService, LinkRuntime, link_to}

module _ (uuid_text : ℕ → Bytes) (derive_key : Bytes → ℕ → Bytes) (hmac : Bytes → Bytes → Bytes)
    (is_same : Bytes → Bytes → Bool) where
  -- A plaintext that needs more than max_relay_chunks keys of the link to the next hop is refused, and
  -- the service is left as it was: no key is spent and no frame is sent.
  pub forward_plaintext_large :
      (at : Around) (s : QkcService) (link : LinkRuntime) (next_hop dest_final needed : ℕ)
      (plaintext : Bytes) (grade epoch_id : ℕ) (orr dkms : Bytes)
      → lookup next_hop s.links ≡ some link
      → num_chunks (length plaintext) (link.key_size_bits / 8) ≡ ok needed
      → max_relay_chunks < needed
      → forward_plaintext uuid_text derive_key hmac is_same at next_hop dest_final plaintext grade
          epoch_id orr dkms s
        ≡ (s, err (bad_request "relay payload needs too many chunks"))
  unfolding forward_plaintext link_to
  forward_plaintext_large at s link next_hop dest_final needed plaintext grade epoch_id orr dkms l n
        h =
      rw (forward_plaintext, link_to, l, n, ltb-true max_relay_chunks needed h)
