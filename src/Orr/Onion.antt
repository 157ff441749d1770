-- ===== src/Orr/Onion.antt =====
-- orr/src/onion.rs: the layers of an onion. HKDF, SHA-256, the cipher and the MessagePack of a layer
-- are parameters. An `i32` is the number of its 32 bits, and a UUID its 16 bytes; the UUID that is
-- drawn for a hop is given with the hop.
pub mod Carried
pub mod Aad
use dkms.Prelude.{
  ℕ, ◌+◌, ◌-◌, ◌%◌, ◌^◌, Bool, ◌&&◌, String, Option, none, some, List, [], ◌∷◌, ◌++◌, length, take,
  ltb, ◌==◌, if◌then◌else◌,
}
use dkms.Prelude.Bytes.{Bytes, be_bytes}
use dkms.Prelude.Outcome.{Outcome, ok, err, panic, ◌>>=◌}
use dkms.Aead.{AeadError, nonce_len, seal_detached, open_detached}

pub data OrrError : Type 0 where
  relay : String → OrrError
  aead : AeadError → OrrError

pub record InnerLayer : Type 0 where
  pub next_orr_id : String
  pub epoch_id : ℕ
  pub key_id : Bytes
  pub xor_ct : Bytes
  pub tag : Bytes

pub record PathHopSecret : Type 0 where
  pub orr_id : String
  pub master_secret : Bytes
  pub epoch_id : ℕ

pub record OnionWire : Type 0 where
  pub first_hop_orr : String
  pub first_epoch_id : ℕ
  pub first_key_id : Bytes
  pub max_hops : ℕ
  pub payload : Bytes
  pub tag : Bytes
  pub session : ℕ
  pub counter : ℕ

pub data Peeled : Type 0 where
  forward : InnerLayer → Peeled
  deliver : Bytes → Peeled

-- `orr.onion.v1`
abbrev pub hkdf_salt : Bytes
hkdf_salt = 111 ∷ 114 ∷ 114 ∷ 46 ∷ 111 ∷ 110 ∷ 105 ∷ 111 ∷ 110 ∷ 46 ∷ 118 ∷ 49 ∷ []

-- `orr.onion.v3`
abbrev pub aad_v3 : Bytes
aad_v3 = 111 ∷ 114 ∷ 114 ∷ 46 ∷ 111 ∷ 110 ∷ 105 ∷ 111 ∷ 110 ∷ 46 ∷ 118 ∷ 51 ∷ []

-- `max_hops > 0`
unfoldable pub is_positive : ℕ → Bool
is_positive max_hops = ltb 0 max_hops && ltb max_hops (2 ^ 31)

-- `(len as i32) - 1`, where overflow is checked
unfoldable pub hops_after_first : ℕ → Outcome OrrError ℕ
hops_after_first len =
    if len % 2 ^ 32 == 2 ^ 31 then panic else ok ((len % 2 ^ 32 + (2 ^ 32 - 1)) % 2 ^ 32)

unfoldable pub of_aead {ℓ} : {A : Type ℓ} → Outcome AeadError A → Outcome OrrError A
of_aead panic = panic
of_aead (err e) = err (aead e)
of_aead (ok a) = ok a

unfoldable pub or_relay {ℓ} : {A : Type ℓ} → String → Option A → Outcome OrrError A
or_relay text none = err (relay text)
or_relay text (some a) = ok a

-- 12 of the 16 bytes
unfoldable pub layer_nonce : Bytes → Bytes
layer_nonce key_id = take nonce_len key_id

unfoldable pub layer_aad :
    (Bytes → Bytes)
    → (key_id : Bytes) → (epoch_id max_hops session counter : ℕ) → (dkms_hdr : Bytes) → Bytes
layer_aad sha256 key_id epoch_id max_hops session counter dkms_hdr =
    aad_v3
    ++ (key_id
        ++ (be_bytes 4 epoch_id
            ++ (be_bytes 4 max_hops
                ++ (be_bytes 8 session ++ (be_bytes 8 counter ++ sha256 dkms_hdr)))))

unfoldable pub layer_key : (Bytes → Bytes → Bytes → Bytes) → (master_secret key_id : Bytes) → Bytes
layer_key hkdf master_secret key_id = hkdf hkdf_salt master_secret (key_id ++ aad_v3)

-- The functions of other libraries that the onion calls.
pub record Primitives : Type 0 where
  pub hkdf : (salt secret info : Bytes) → Bytes
  pub sha256 : Bytes → Bytes
  pub aes_encrypt : (key nonce aad plaintext : Bytes) → Option (Bytes × Bytes)
  pub aes_decrypt : (key nonce aad ciphertext tag : Bytes) → Option Bytes
  pub to_vec_named : InnerLayer → Option Bytes
  pub from_slice : Bytes → Option InnerLayer

module _ (p : Primitives) (session counter : ℕ) (dkms_hdr : Bytes) where
  unfoldable pub seal_layer :
      (master_secret key_id plaintext : Bytes)
      → (epoch_id max_hops : ℕ) → Outcome OrrError (Bytes × Bytes)
  seal_layer master_secret key_id plaintext epoch_id max_hops = of_aead (
      seal_detached p.aes_encrypt (layer_key p.hkdf master_secret key_id) (layer_nonce key_id)
        plaintext (layer_aad p.sha256 key_id epoch_id max_hops session counter dkms_hdr))

  unfoldable pub open_layer :
      (master_secret key_id ct tag : Bytes) → (epoch_id max_hops : ℕ) → Outcome OrrError Bytes
  open_layer master_secret key_id ct tag epoch_id max_hops = of_aead (
      open_detached p.aes_decrypt (layer_key p.hkdf master_secret key_id) (layer_nonce key_id) ct
        tag (layer_aad p.sha256 key_id epoch_id max_hops session counter dkms_hdr))

  -- The layer for a hop and what it is handed with, from the text inside of it.
  unfoldable pub wrap : PathHopSecret → (key_id plaintext : Bytes) → ℕ → Outcome OrrError InnerLayer
  wrap hop key_id plaintext max_hops = do
    sealed ← seal_layer hop.master_secret key_id plaintext hop.epoch_id max_hops
    ok (record {
      next_orr_id = hop.orr_id;
      epoch_id = hop.epoch_id;
      key_id = key_id;
      xor_ct = sealed.0;
      tag = sealed.1;
    })

  -- The layers from the last hop to the first, where the hops are the first and those behind it.
  unfoldable pub wrap_path :
      Bytes → PathHopSecret × Bytes → List (PathHopSecret × Bytes) → Outcome OrrError InnerLayer
  wrap_path body (hop, key_id) [] = wrap hop key_id body 0
  wrap_path body (hop, key_id) (next ∷ rest) = do
    layer ← wrap_path body next rest
    layer_pt ← or_relay "inner encode" (p.to_vec_named layer)
    wrap hop key_id layer_pt (length (next ∷ rest) % 2 ^ 32)

  unfoldable pub build_onion : List (PathHopSecret × Bytes) → Bytes → Outcome OrrError OnionWire
  build_onion [] body = err (relay "onion: empty path")
  build_onion (first ∷ rest) body = do
    layer ← wrap_path body first rest
    max_hops ← hops_after_first (length (first ∷ rest))
    ok (record {
      first_hop_orr = layer.next_orr_id;
      first_epoch_id = layer.epoch_id;
      first_key_id = layer.key_id;
      max_hops = max_hops;
      payload = layer.xor_ct;
      tag = layer.tag;
      session = session;
      counter = counter;
    })

  unfoldable pub peel :
      (master_secret key_id xor_ct tag : Bytes) → (max_hops epoch_id : ℕ) → Outcome OrrError Peeled
  peel master_secret key_id xor_ct tag max_hops epoch_id =
      open_layer master_secret key_id xor_ct tag epoch_id max_hops >>= λ pt.
      if is_positive max_hops
      then (or_relay "inner decode" (p.from_slice pt) >>= λ layer. ok (forward layer))
      else ok (deliver pt)
