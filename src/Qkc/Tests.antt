-- ===== src/Qkc/Tests.antt =====
-- Key stores on which the theorems about the keys of a link are used.
mod Routes
mod Secrets
mod Links
mod Hops
mod Handshakes
use dkms.Prelude.{
  ℕ, ◌+◌, ◌<◌, ◌≤◌, ◌≡◌, refl, none, some, [], ◌∷◌, take, drop, arith, zero, suc, length, ap, sym,
}
use dkms.Prelude.Assoc.{nat_keys, lookup, some_eq}
use dkms.Qkc.KeyStore.{
  OtpKey, KeyStore, Kme, bank_from, bank_batch_size, bank_ring_headroom, refill_batch, lookup_dec,
  dec_answered, absorb_enc_keys, take_enc_batch,
}
use dkms.Qkc.KeyStore.Ring.{take_enc_batch-absorb_enc_keys}
use dkms.Qkc.KeyStore.Bank.{IsHonest, KeepsRoom, bank_from-KeepsRoom, bank_batch_size_lem}
use dkms.Qkc.KeyStore.Peer.{last_of, or_else, lookup_dec-dec_answered}

abbrev key_1 : OtpKey
key_1 = record { key_id = 1; material = 10 ∷ 11 ∷ [] }

abbrev key_store : KeyStore
key_store = record {
  enc = [];
  dec = (3, 30 ∷ []) ∷ [];
  dec_pending = [];
  dec_announced = [];
  n_enc_taken = 0;
  n_dec_lookups = 0;
  n_dec_misses = 0;
  n_refills_enc = 0;
  n_enc_dropped_full = 0;
  n_notify_dropped = 0;
  n_refills_dec = 0;
}

-- It gives one key where it is asked for any, and none otherwise.
abbrev kme : Kme
kme = λ round batch. elim batch [ zero ↦ none | suc b ↦ some (key_1 ∷ []) ]

kme-IsHonest : IsHonest kme
kme-IsHonest round batch keys = go batch
  where
    go : (b : ℕ) → kme round b ≡ some keys → length keys ≤ b
    go zero e = absurd (cc)
    go (suc b) e = omega (arith, one e)
      where
        one : some (key_1 ∷ []) ≡ some keys → length keys ≡ 1
        one x = ap length (sym (some_eq x))

bank_from-KeepsRoom_example : KeepsRoom key_store (bank_from kme key_store 900 1000).0
bank_from-KeepsRoom_example = bank_from-KeepsRoom kme key_store 900 1000 kme-IsHonest (omega arith)

one_batch : bank_batch_size 900 1000 100 4096 ≡ some 128
unfolding bank_batch_size
one_batch = refl
