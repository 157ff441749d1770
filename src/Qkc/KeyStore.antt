-- ===== src/Qkc/KeyStore.antt =====
-- qkc/src/keystore.rs: `KeyStore`, the keys of one link: those to encrypt with (`enc`, a ring of
-- fixed capacity) and those to decrypt with (`dec`, by id). The workers' loops are modelled by the
-- step that each makes; signals, logs, the rate estimator and the counters of waits, of refills that
-- failed and of NOTIFYs that found their queue full are left out. A key's id is a number.
pub mod Ring
pub mod Bank
pub mod Peer
pub mod Wait
use dkms.Prelude.{
  ℕ, zero, suc, ◌+◌, ◌-◌, ◌*◌, ◌/◌, ◌%◌, ◌^◌, min, Bool, true, false, ◌||◌, Option, none, some,
  List, [], ◌∷◌, ◌++◌, map, length, take, drop, ltb, leb, ◌==◌, if◌then◌else◌,
}
use dkms.Prelude.Assoc.{Assoc, nat_keys, lookup, insert, remove}
use dkms.Prelude.Sets.{contains, add, discard}

abbrev pub buffer_target : ℕ
buffer_target = 2048

-- `ArrayQueue::new(BUFFER_TARGET * 2)`
abbrev pub enc_capacity : ℕ
enc_capacity = buffer_target * 2

abbrev pub refill_batch : ℕ
refill_batch = 128

abbrev pub dec_batch_max : ℕ
dec_batch_max = 128

abbrev pub bank_high_water_num : ℕ
bank_high_water_num = 3

abbrev pub bank_high_water_den : ℕ
bank_high_water_den = 4

abbrev pub bank_ring_headroom : ℕ
bank_ring_headroom = 512

abbrev pub max_bank_rounds : ℕ
max_bank_rounds = 16

abbrev pub dec_pending_max : ℕ
dec_pending_max = 65_536

pub record OtpKey : Type 0 where
  pub key_id : ℕ
  pub material : List ℕ

pub record KeyStore : Type 0 where
  pub enc : List OtpKey
  pub dec : Assoc ℕ (List ℕ)
  pub dec_pending : List ℕ
  pub dec_announced : List ℕ
  pub n_enc_taken : ℕ
  pub n_dec_lookups : ℕ
  pub n_dec_misses : ℕ
  pub n_refills_enc : ℕ
  pub n_enc_dropped_full : ℕ
  pub n_notify_dropped : ℕ
  pub n_refills_dec : ℕ

unfoldable pub new : KeyStore
new = record {
  enc = [];
  dec = [];
  dec_pending = [];
  dec_announced = [];
  n_enc_taken = 0;
  n_dec_lookups = 0;
  n_dec_misses = 0;
  n_refills_enc = 0;
  n_enc_dropped_full = 0;
  n_notify_dropped = 0;
  n_refills_dec = 0;
}

-- `fetch_add` of an `AtomicU64`
unfoldable pub fetch_add : ℕ → ℕ → ℕ
fetch_add n k = (n + k) % 2 ^ 64

unfoldable pub pop : List OtpKey → List OtpKey × Option OtpKey
pop [] = ([], none)
pop (k ∷ ks) = (ks, some k)

unfoldable pub count_taken : KeyStore → List OtpKey × Option OtpKey → KeyStore × Option OtpKey
count_taken s (enc, none) = (record s { enc = enc }, none)
count_taken s (enc, some k) =
    (record s { enc = enc; n_enc_taken = fetch_add s.n_enc_taken 1 }, some k)

unfoldable pub take_enc : KeyStore → KeyStore × Option OtpKey
take_enc s = count_taken s (pop s.enc)

-- `for _ in 0..n { match self.enc.pop() … }`
unfoldable pub pop_batch : List OtpKey → ℕ → List OtpKey × List OtpKey
pop_batch enc zero = (enc, [])
pop_batch [] (suc n) = ([], [])
pop_batch (k ∷ enc) (suc n) = let (left, out) = pop_batch enc n in (left, k ∷ out)

unfoldable pub take_enc_batch : KeyStore → ℕ → KeyStore × List OtpKey
take_enc_batch s n =
    let (enc, out) = pop_batch s.enc n in
    (record s { enc = enc; n_enc_taken = fetch_add s.n_enc_taken (length out) }, out)

unfoldable pub lookup_dec : KeyStore → ℕ → KeyStore × Option (List ℕ)
lookup_dec s id = elim (lookup id s.dec) [
  | some v ↦
      (record s { dec = remove id s.dec; n_dec_lookups = fetch_add s.n_dec_lookups 1 }, some v)
  | none ↦ (
    record s {
      n_dec_lookups = fetch_add s.n_dec_lookups 1;
      n_dec_misses = fetch_add s.n_dec_misses 1;
    },
    none,
  )
]

-- `HashSet::extend`
unfoldable pub add_all : List ℕ → List ℕ → List ℕ
add_all [] set = set
add_all (id ∷ ids) set = add_all ids (add id set)

-- The ids that fit are queued and announced; the others are dropped and counted.
unfoldable pub notify_remote_enc : KeyStore → List ℕ → KeyStore
notify_remote_enc s ids =
    let room = dec_pending_max - length s.dec_pending in
    let kept = take room ids in
    record s {
      dec_pending = s.dec_pending ++ kept;
      dec_announced = add_all kept s.dec_announced;
      n_notify_dropped =
          if ltb room (length ids)
          then fetch_add s.n_notify_dropped (length ids - room)
          else s.n_notify_dropped;
    }

unfoldable pub is_dec_announced : KeyStore → ℕ → Bool
is_dec_announced s id = contains s.dec_announced id

-- `self.enc.push(k)`, and the count of keys that did not fit
unfoldable pub push_key : List OtpKey × ℕ → OtpKey → List OtpKey × ℕ
push_key (enc, dropped) k =
    if ltb (length enc) enc_capacity then (enc ++ k ∷ [], dropped) else (enc, suc dropped)

unfoldable pub push_keys : List OtpKey × ℕ → List OtpKey → List OtpKey × ℕ
push_keys ring [] = ring
push_keys ring (k ∷ ks) = push_keys (push_key ring k) ks

-- With the ids that the NOTIFY to the peer carries.
unfoldable pub absorb_enc_keys : KeyStore → List OtpKey → KeyStore × List ℕ
absorb_enc_keys s keys =
    let (enc, dropped) = push_keys (s.enc, 0) keys in
    (
      record s {
        enc = enc;
        n_refills_enc = fetch_add s.n_refills_enc 1;
        n_enc_dropped_full = fetch_add s.n_enc_dropped_full dropped;
      },
      map (λ (k : OtpKey). k.key_id) keys,
    )

unfoldable pub bank_batch_size : ℕ → ℕ → ℕ → ℕ → Option ℕ
bank_batch_size stored max ring_len ring_cap =
    if max == 0 || ltb stored (max / bank_high_water_den * bank_high_water_num)
    then none
    else let space = ring_cap - ring_len in
      if leb space bank_ring_headroom
      then none
      else let batch = min (min (space - bank_ring_headroom) refill_batch) stored in
        if ltb 0 batch then some batch else none

-- What the KME answers in each round, where `none` stands for an error or a timeout.
abbrev pub Kme : Type 0
Kme = ℕ → ℕ → Option (List OtpKey)

-- The rounds that are left, and the ids that their NOTIFYs carry. No other task changes the ring
-- while a round waits for the KME.
unfoldable pub bank_rounds : Kme → ℕ → KeyStore → ℕ → ℕ → KeyStore × List ℕ
bank_rounds kme zero s stored max = (s, [])
bank_rounds kme (suc rounds) s stored max =
    elim (bank_batch_size stored max (length s.enc) enc_capacity) [
      | none ↦ (s, [])
      | some batch ↦ elim (kme rounds batch) [
        | none ↦ (s, [])
        | some keys ↦
            let (s', ids) = absorb_enc_keys s keys in
            let (s'', more) = bank_rounds kme rounds s' (stored - length keys) max in
            if ltb (length keys) batch then (s', ids) else (s'', ids ++ more)
      ]
    ]

unfoldable pub bank_from : Kme → KeyStore → ℕ → ℕ → KeyStore × List ℕ
bank_from kme s stored max = bank_rounds kme max_bank_rounds s stored max

-- `g.drain(..g.len().min(DEC_BATCH_MAX))`: the ids that the next `dec_keys` asks for
unfoldable pub next_dec_batch : KeyStore → KeyStore × List ℕ
next_dec_batch s =
    let n = min (length s.dec_pending) dec_batch_max in
    (record s { dec_pending = drop n s.dec_pending }, take n s.dec_pending)

unfoldable pub discard_all : List ℕ → List ℕ → List ℕ
discard_all [] set = set
discard_all (id ∷ ids) set = discard_all ids (discard id set)

-- `for k in keys { self.dec.insert(k.key_id, k.material) }`
unfoldable pub insert_all : List OtpKey → Assoc ℕ (List ℕ) → Assoc ℕ (List ℕ)
insert_all [] dec = dec
insert_all (k ∷ ks) dec = insert_all ks (insert k.key_id k.material dec)

-- What `dec_keys` answers for the ids: keys, or an error.
unfoldable pub dec_answered : KeyStore → List ℕ → Option (List OtpKey) → KeyStore
dec_answered s ids none = record s { dec_announced = discard_all ids s.dec_announced }
dec_answered s ids (some keys) = record s {
  dec = insert_all keys s.dec;
  dec_announced = discard_all ids s.dec_announced;
  n_refills_dec = fetch_add s.n_refills_dec 1;
}
