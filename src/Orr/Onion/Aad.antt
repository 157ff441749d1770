-- ===== src/Orr/Onion/Aad.antt =====
-- On the associated data of a layer of orr/src/onion.rs.
use dkms.Prelude.{ℕ, ◌^◌, ◌<◌, ◌≡◌, refl, length}
use dkms.Prelude.Bytes.{Bytes}
use dkms.FrameMac.Message.Cancel.{cancel, cancel_field}
use dkms.Orr.Onion.{layer_aad, aad_v3}

-- Two layers that have the same associated data, with fields of the widths of their types and key
-- ids of the same length, have the same key id, epoch, hops, session and counter, and the headers
-- that go with them have the same hash.
pub layer_aad_injective :
    (sha256 : Bytes → Bytes) (key_id key_id' : Bytes)
    (epoch_id epoch_id' max_hops max_hops' session session' counter counter' : ℕ)
    (dkms_hdr dkms_hdr' : Bytes)
    → length key_id ≡ length key_id'
    → (epoch_id < 256 ^ 4) × (epoch_id' < 256 ^ 4)
    → (max_hops < 256 ^ 4) × (max_hops' < 256 ^ 4)
    → (session < 256 ^ 8) × (session' < 256 ^ 8)
    → (counter < 256 ^ 8) × (counter' < 256 ^ 8)
    → layer_aad sha256 key_id epoch_id max_hops session counter dkms_hdr
      ≡ layer_aad sha256 key_id' epoch_id' max_hops' session' counter' dkms_hdr'
    → (key_id ≡ key_id')
      × (epoch_id ≡ epoch_id')
      × (max_hops ≡ max_hops')
      × (session ≡ session')
      × (counter ≡ counter')
      × (sha256 dkms_hdr ≡ sha256 dkms_hdr')
unfolding layer_aad
layer_aad_injective sha256 k k' e e' m m' s s' c c' d d' size (eb, eb') (mb, mb') (sb, sb')
      (cb, cb') same =
    let (label, rest) = cancel aad_v3 aad_v3 _ _ refl same in
    let (key, after_key) = cancel k k' _ _ size rest in
    let (epoch, after_epoch) = cancel_field 4 e e' _ _ eb eb' after_key in
    let (hops, after_hops) = cancel_field 4 m m' _ _ mb mb' after_epoch in
    let (session, after_session) = cancel_field 8 s s' _ _ sb sb' after_hops in
    let (counter, header) = cancel_field 8 c c' _ _ cb cb' after_session in
    (key, epoch, hops, session, counter, header)
