-- ===== src/Orr/Tests/Onions.antt =====
-- Onions on which the theorems about their layers are used.
use dkms.Prelude.{
  ℕ, ◌≡◌, refl, sym, ap, Option, none, some, List, [], ◌∷◌, ◌++◌, length, take, drop, take-append,
  drop-append, replicate, arith, if◌then◌else◌, ◌==◌, ==_refl,
}
use dkms.Prelude.Bytes.{Bytes}
use dkms.Prelude.Outcome.{ok}
use dkms.Orr.Onion.{InnerLayer, PathHopSecret, OnionWire, Primitives, build_onion, layer_aad}
use dkms.Orr.Onion.Carried.{AreSound, IsCarried, peel-build_onion}
use dkms.Orr.Onion.Aad.{layer_aad_injective}

-- A layer is written with the lengths of its key id and of its tag, for the router `orr_c` alone.
abbrev to_vec_named : InnerLayer → Option Bytes
to_vec_named l =
    some (l.epoch_id ∷ length l.key_id ∷ (l.key_id ++ (length l.tag ∷ (l.tag ++ l.xor_ct))))

abbrev with_tag : ℕ → Bytes → Bytes → Option InnerLayer
with_tag epoch key_id [] = none
with_tag epoch key_id (n ∷ rest) = some (record {
  next_orr_id = "orr_c";
  epoch_id = epoch;
  key_id = key_id;
  xor_ct = drop n rest;
  tag = take n rest;
})

abbrev from_slice : Bytes → Option InnerLayer
from_slice [] = none
from_slice (epoch ∷ []) = none
from_slice (epoch ∷ n ∷ rest) = with_tag epoch (take n rest) (drop n rest)

-- A cipher that leaves the text and makes the length of the associated data the tag.
abbrev seal_text : Bytes → Bytes → Bytes → Bytes → Option (Bytes × Bytes)
seal_text key nonce aad plaintext = some (plaintext, length aad ∷ [])

abbrev open_text : Bytes → Bytes → Bytes → Bytes → Bytes → Option Bytes
open_text key nonce aad ciphertext [] = none
open_text key nonce aad ciphertext (t ∷ ts) = if t == length aad then some ciphertext else none

abbrev prims : Primitives
prims = record {
  hkdf = λ salt secret info. replicate 32 9;
  sha256 = λ b. length b ∷ [];
  aes_encrypt = seal_text;
  aes_decrypt = open_text;
  to_vec_named = to_vec_named;
  from_slice = from_slice;
}

layer_read :
    (l : InnerLayer)
    → l.next_orr_id ≡ "orr_c"
    → from_slice (l.epoch_id ∷ length l.key_id ∷ (l.key_id ++ (length l.tag ∷ (l.tag ++ l.xor_ct))))
      ≡ some l
layer_read l named =
    rw
      (
        take-append l.key_id (length l.tag ∷ (l.tag ++ l.xor_ct)) refl,
        drop-append l.key_id (length l.tag ∷ (l.tag ++ l.xor_ct)) refl,
        take-append l.tag l.xor_ct refl,
        drop-append l.tag l.xor_ct refl,
      )
      (ap
        (λ id. some (record {
          next_orr_id = id;
          epoch_id = l.epoch_id;
          key_id = l.key_id;
          xor_ct = l.xor_ct;
          tag = l.tag;
        }))
        (sym named))

prims-AreSound : AreSound prims (λ id. id ≡ "orr_c")
prims-AreSound = record {
  keys = λ salt secret info. refl;
  seals =
      λ key nonce aad plaintext. ((plaintext, length aad ∷ []), refl, rw (==_refl (length aad)));
  layers = λ l named. (_, refl, layer_read l named);
}

abbrev hop : ℕ → PathHopSecret
hop epoch = record { orr_id = "orr_c"; master_secret = replicate 32 epoch; epoch_id = epoch }

abbrev first_hop : PathHopSecret × Bytes
first_hop = (hop 11, replicate 16 1)

abbrev later_hops : List (PathHopSecret × Bytes)
later_hops = (hop 22, replicate 16 2) ∷ (hop 33, replicate 16 3) ∷ []

peel-build_onion_example :
    (wire : OnionWire) × (build_onion prims 42 1 (7 ∷ []) (first_hop ∷ later_hops) (70 ∷ 71 ∷ [])
      ≡ ok wire)
    × (wire.session ≡ 42)
    × (wire.counter ≡ 1)
    × IsCarried prims 42 1
        (7 ∷ [])
        (70 ∷ 71 ∷ [])
        (hop 11 ∷ hop 22 ∷ hop 33 ∷ [])
        wire.max_hops
        (record {
          next_orr_id = wire.first_hop_orr;
          epoch_id = wire.first_epoch_id;
          key_id = wire.first_key_id;
          xor_ct = wire.payload;
          tag = wire.tag;
        })
peel-build_onion_example =
    peel-build_onion prims 42 1 (7 ∷ []) (λ id. id ≡ "orr_c") prims-AreSound (70 ∷ 71 ∷ [])
      first_hop later_hops (omega arith) (refl, (refl, (refl, tt)))

abbrev hash : Bytes → Bytes
hash b = length b ∷ []

same_aad :
    layer_aad hash (replicate 16 1) 11 2 42 1 (7 ∷ [])
    ≡ layer_aad hash (replicate 16 1) 11 2 42 1 (8 ∷ [])
unfolding layer_aad
same_aad = refl

layer_aad_injective_example :
    (◌≡◌ {A = Bytes} (replicate 16 1) (replicate 16 1))
    × (◌≡◌ {A = ℕ} 11 11)
    × (◌≡◌ {A = ℕ} 2 2)
    × (◌≡◌ {A = ℕ} 42 42)
    × (◌≡◌ {A = ℕ} 1 1)
    × (hash (7 ∷ []) ≡ hash (8 ∷ []))
layer_aad_injective_example =
    layer_aad_injective hash (replicate 16 1) (replicate 16 1) 11 11 2 2 42 42 1 1 (7 ∷ []) (8 ∷ [])
      refl (omega arith, omega arith) (omega arith, omega arith) (omega arith, omega arith)
      (omega arith, omega arith) same_aad
