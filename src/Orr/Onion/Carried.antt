-- ===== src/Orr/Onion/Carried.antt =====
-- On `build_onion` and `peel` of orr/src/onion.rs: an onion on its way.
use dkms.Prelude.{
  ℕ, suc, map, String, All, subst, sym, ◌-◌, ◌%◌, ◌^◌, ◌<◌, ◌≡◌, refl, true, false, some, List, [],
  ◌∷◌, length, arith,
}
use dkms.Prelude.Bytes.{Bytes}
use dkms.Prelude.Outcome.{ok}
use dkms.Aead.{key_len, seal_detached, open_detached, or_failed}
use dkms.Orr.Onion.{
  InnerLayer, PathHopSecret, OnionWire, deliver, forward, Primitives, seal_layer, open_layer, wrap,
  wrap_path, build_onion, peel, is_positive, hops_after_first, of_aead, or_relay, layer_key,
  layer_nonce, layer_aad,
}

-- What the onion relies on: HKDF gives keys of 32 bytes, the cipher takes every text and opens what
-- it sealed, and a layer that names a router by an id is read as it was written.
pub record AreSound (p : Primitives) (IsId : String → Type 0) : Type 0 where
  pub keys : (salt secret info : Bytes) → length (p.hkdf salt secret info) ≡ key_len
  pub seals :
      (key nonce aad plaintext : Bytes)
      → (r : Bytes × Bytes) × (p.aes_encrypt key nonce aad plaintext ≡ some r)
        × (p.aes_decrypt key nonce aad r.0 r.1 ≡ some plaintext)
  pub layers :
      (layer : InnerLayer)
      → IsId layer.next_orr_id
      → (b : Bytes) × (p.to_vec_named layer ≡ some b) × (p.from_slice b ≡ some layer)

module _ (p : Primitives) (session counter : ℕ) (dkms_hdr : Bytes) where
  -- The way of a layer along a path: the router that it names peels it with its own secret and the
  -- epoch that it names, with as many hops as are left, and hands on the layer inside of it to the
  -- next one, with one hop less, until the last one takes the body out.
  pub data IsCarried (body : Bytes) : List PathHopSecret → ℕ → InnerLayer → Type 0 where
    arrives :
        {hop : PathHopSecret} {max_hops : ℕ} {layer : InnerLayer}
        → layer.next_orr_id ≡ hop.orr_id
        → layer.epoch_id ≡ hop.epoch_id
        → (peel p session counter dkms_hdr hop.master_secret layer.key_id layer.xor_ct layer.tag
              max_hops layer.epoch_id
            ≡ ok (deliver body))
        → IsCarried body (hop ∷ []) max_hops layer
    passes :
        {hop : PathHopSecret} {path : List PathHopSecret} {max_hops : ℕ} {layer inner : InnerLayer}
        → layer.next_orr_id ≡ hop.orr_id
        → layer.epoch_id ≡ hop.epoch_id
        → (peel p session counter dkms_hdr hop.master_secret layer.key_id layer.xor_ct layer.tag
              (suc max_hops)
              layer.epoch_id
            ≡ ok (forward inner))
        → IsCarried body path max_hops inner
        → IsCarried body (hop ∷ path) (suc max_hops) layer

  carried_to :
      {body : Bytes} {hop : PathHopSecret} {path : List PathHopSecret} {max_hops : ℕ}
      {layer : InnerLayer}
      → IsCarried body (hop ∷ path) max_hops layer
      → layer.next_orr_id ≡ hop.orr_id
  carried_to (arrives named dated peeled) = named
  carried_to (passes named dated peeled carried) = named

  module _ (secret key_id ct tag : Bytes) (max_hops epoch_id : ℕ) where
    peel_last :
        {text : Bytes}
        → is_positive max_hops ≡ false
        → open_layer p session counter dkms_hdr secret key_id ct tag epoch_id max_hops ≡ ok text
        → peel p session counter dkms_hdr secret key_id ct tag max_hops epoch_id ≡ ok (deliver text)
    unfolding peel
    peel_last last opened = rw (opened, last)

    peel_more :
        {text : Bytes} {inner : InnerLayer}
        → is_positive max_hops ≡ true
        → open_layer p session counter dkms_hdr secret key_id ct tag epoch_id max_hops ≡ ok text
        → p.from_slice text ≡ some inner
        → peel p session counter dkms_hdr secret key_id ct tag max_hops epoch_id
          ≡ ok (forward inner)
    unfolding peel or_relay
    peel_more more opened read = rw (opened, more, read)

  module _ (IsId : String → Type 0) (sound : AreSound p IsId) where
    is_positive-suc : (n : ℕ) → suc n < 2 ^ 31 → is_positive (suc n) ≡ true
    unfolding is_positive
    is_positive-suc n b = ground arith

    zero_hops : is_positive 0 ≡ false
    unfolding is_positive
    zero_hops = refl

    hops_after_first-suc : (n : ℕ) → suc n < 2 ^ 31 → hops_after_first (suc n) ≡ ok n
    unfolding hops_after_first
    hops_after_first-suc n b = ground arith

    -- A layer is made, and peels to the text that it was made of.
    wrap_lem :
        (hop : PathHopSecret) (key_id plaintext : Bytes) (max_hops : ℕ)
        → (layer : InnerLayer) × (wrap p session counter dkms_hdr hop key_id plaintext max_hops
            ≡ ok layer)
          × (layer.next_orr_id ≡ hop.orr_id)
          × (layer.epoch_id ≡ hop.epoch_id)
          × (open_layer p session counter dkms_hdr hop.master_secret layer.key_id layer.xor_ct
                layer.tag layer.epoch_id max_hops
              ≡ ok plaintext)
    unfolding layer_key wrap seal_layer open_layer seal_detached open_detached of_aead or_failed
    wrap_lem hop key_id plaintext max_hops =
        let key = layer_key p.hkdf hop.master_secret key_id in
        let size : length key ≡ key_len = sound.keys _ _ _ in
        let (r, sealed, opened) =
          sound.seals key (layer_nonce key_id)
            (layer_aad p.sha256 key_id hop.epoch_id max_hops session counter dkms_hdr) plaintext in
        (
          record {
            next_orr_id = hop.orr_id;
            epoch_id = hop.epoch_id;
            key_id = key_id;
            xor_ct = r.0;
            tag = r.1;
          },
          rw (size, sealed),
          refl,
          refl,
          rw (size, opened),
        )

    wrap_path_lem :
        (body : Bytes) (first : PathHopSecret × Bytes) (rest : List (PathHopSecret × Bytes))
        → length rest < 2 ^ 31
        → All (λ (h : PathHopSecret × Bytes). IsId h.0.orr_id) (first ∷ rest)
        → (layer : InnerLayer) × (wrap_path p session counter dkms_hdr body first rest ≡ ok layer)
          × IsCarried body (map (λ h. h.0) (first ∷ rest)) (length rest) layer
    unfolding wrap_path or_relay
    wrap_path_lem body (hop, key_id) [] b ids =
        let (layer, made, named, dated, opened) = wrap_lem hop key_id body 0 in
        (layer, made, arrives named dated (peel_last _ _ _ _ _ _ zero_hops opened))
    wrap_path_lem body (hop, key_id) (next ∷ rest) b ids =
        let (inner, wrapped, carried) = wrap_path_lem body next rest (omega arith) ids.1 in
        let (text, written, read) =
          sound.layers inner (subst IsId (sym (carried_to carried)) ids.1.0) in
        let left : length (next ∷ rest) % 2 ^ 32 ≡ length (next ∷ rest) = omega arith in
        let positive : is_positive (length (next ∷ rest)) ≡ true =
          is_positive-suc (length rest) b in
        let (layer, made, named, dated, opened) = wrap_lem hop key_id text (length (next ∷ rest)) in
        (
          layer,
          rw (wrapped, written, left) made,
          passes named dated (peel_more _ _ _ _ _ _ positive opened read) carried,
        )

    -- An onion for a path of fewer than 2 ^ 31 hops is built with the session and the counter that it
    -- was given. The first router of the path peels it with what the wire names, each router finds
    -- the next one of the path and the epoch to peel with in the layer, and the last one, and no
    -- other, takes the body out. The cipher takes every text and opens what it sealed, HKDF gives
    -- keys of 32 bytes, the routers of the path are named by ids, and a layer that names an id is
    -- read as it was written.
    pub peel-build_onion :
        (body : Bytes) (first : PathHopSecret × Bytes) (rest : List (PathHopSecret × Bytes))
        → length rest < 2 ^ 31 - 1
        → All (λ (h : PathHopSecret × Bytes). IsId h.0.orr_id) (first ∷ rest)
        → (wire : OnionWire) × (build_onion p session counter dkms_hdr (first ∷ rest) body
            ≡ ok wire)
          × (wire.session ≡ session)
          × (wire.counter ≡ counter)
          × IsCarried body (map (λ h. h.0) (first ∷ rest)) wire.max_hops (record {
            next_orr_id = wire.first_hop_orr;
            epoch_id = wire.first_epoch_id;
            key_id = wire.first_key_id;
            xor_ct = wire.payload;
            tag = wire.tag;
          })
    unfolding build_onion
    peel-build_onion body first rest b ids =
        let (layer, made, carried) = wrap_path_lem body first rest (omega arith) ids in
        let hops : hops_after_first (length (first ∷ rest)) ≡ ok (length rest) =
          hops_after_first-suc (length rest) (omega arith) in
        (
          record {
            first_hop_orr = layer.next_orr_id;
            first_epoch_id = layer.epoch_id;
            first_key_id = layer.key_id;
            max_hops = length rest;
            payload = layer.xor_ct;
            tag = layer.tag;
            session = session;
            counter = counter;
          },
          rw (made, hops),
          refl,
          refl,
          carried,
        )
