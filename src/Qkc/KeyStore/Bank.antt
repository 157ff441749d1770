-- ===== src/Qkc/KeyStore/Bank.antt =====
-- On `bank_from` and `bank_batch_size` of qkc/src/keystore.rs.
use dkms.Prelude.{
  ℕ, zero, suc, ◌+◌, ◌-◌, ◌≤◌, ◌<◌, ◌≡◌, refl, ◌∙◌, ap, max, some, List, arith, length,
  length-append, length-take, take, ◌^◌, ltb, Bool-cases, Option-cases, inl, inr,
}
use dkms.Qkc.KeyStore.{
  OtpKey, KeyStore, enc_capacity, bank_ring_headroom, refill_batch, bank_batch_size, Kme,
  bank_rounds, bank_from, max_bank_rounds, absorb_enc_keys, fetch_add,
}
use dkms.Qkc.KeyStore.Ring.{push_keys_lem}

-- A batch is at least one key, at most `refill_batch` and what the KME holds, and leaves the room
-- that is kept free in the ring.
pub bank_batch_size_lem :
    (stored max ring_len ring_cap batch : ℕ)
    → bank_batch_size stored max ring_len ring_cap ≡ some batch
    → (0 < batch)
      × (batch ≤ refill_batch)
      × (batch ≤ stored)
      × (ring_len + batch + bank_ring_headroom ≤ ring_cap)
unfolding bank_batch_size
bank_batch_size_lem stored max ring_len ring_cap batch h = ground arith

-- How many keys a ring holds after keys are absorbed for which it has room, and that none is
-- dropped.
absorbed :
    (s : KeyStore) (keys : List OtpKey)
    → length s.enc + length keys ≤ enc_capacity
    → s.n_enc_dropped_full < 2 ^ 64
    → (length (absorb_enc_keys s keys).0.enc ≡ length s.enc + length keys)
      × ((absorb_enc_keys s keys).0.n_enc_dropped_full ≡ s.n_enc_dropped_full)
unfolding absorb_enc_keys fetch_add
absorbed s keys h c =
    let ring = push_keys_lem s.enc keys (omega arith) in
    (
      ap (λ r. length r.0) ring
          ∙ omega (
            arith,
            length-append s.enc (take (enc_capacity - length s.enc) keys),
            length-take (enc_capacity - length s.enc) keys,
          ),
      omega (arith, ap (λ r. r.1) ring),
    )

-- The KME answers with at most as many keys as it was asked for.
abbrev pub IsHonest : Kme → Type 0
IsHonest kme =
    (round batch : ℕ) (keys : List OtpKey) → kme round batch ≡ some keys → length keys ≤ batch

-- Nothing dropped, and the room that is kept free is left, where it was free before.
abbrev pub KeepsRoom : KeyStore → KeyStore → Type 0
KeepsRoom s u =
    (length u.enc ≤ max (length s.enc) (enc_capacity - bank_ring_headroom))
    × (u.n_enc_dropped_full ≡ s.n_enc_dropped_full)

bank_rounds-KeepsRoom :
    (kme : Kme) (rounds : ℕ) (s : KeyStore) (stored limit : ℕ)
    → IsHonest kme
    → s.n_enc_dropped_full < 2 ^ 64
    → KeepsRoom s (bank_rounds kme rounds s stored limit).0
unfolding bank_rounds
bank_rounds-KeepsRoom kme zero s stored limit h c = (omega arith, refl)
bank_rounds-KeepsRoom kme (suc rounds) s stored limit h c =
    elim (Option-cases (bank_batch_size stored limit (length s.enc) enc_capacity)) [
      | inl e ↦ rw (e, bank_rounds) (omega arith, refl)
      | inr (batch, e) ↦
          rw (e, bank_rounds)
            (elim (Option-cases (kme rounds batch)) [
              | inl f ↦ rw (f, bank_rounds) (omega arith, refl)
              | inr (keys, f) ↦
                  rw (f, bank_rounds)
                    (let s' = (absorb_enc_keys s keys).0 in
                      let size =
                        bank_batch_size_lem stored limit (length s.enc) enc_capacity batch e in
                      let few = h rounds batch keys f in
                      let one = absorbed s keys (omega (arith, size)) c in
                      let all =
                        bank_rounds-KeepsRoom kme rounds s' (stored - length keys) limit h
                          (omega (arith, one)) in
                      elim (Bool-cases (ltb (length keys) batch)) [
                        | inl less ↦ rw less (omega (arith, one, size), one.1)
                        | inr full ↦ rw full (omega (arith, one, size, all), all.1 ∙ one.1)
                      ])
            ])
    ]

-- Banking from a KME that answers with no more keys than it was asked for drops no key, and leaves
-- `bank_ring_headroom` places of the ring free, or as many as were free before.
pub bank_from-KeepsRoom :
    (kme : Kme) (s : KeyStore) (stored limit : ℕ)
    → IsHonest kme
    → s.n_enc_dropped_full < 2 ^ 64
    → KeepsRoom s (bank_from kme s stored limit).0
unfolding bank_from
bank_from-KeepsRoom kme s stored limit h c =
    bank_rounds-KeepsRoom kme max_bank_rounds s stored limit h c
