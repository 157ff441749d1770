-- ===== src/Qkc/PqcSource.antt =====
-- qkc/src/pqc_source.rs: `PqcKeySource`, which derives the keys of a link from the secret of an
-- epoch, and `RekeyClock`. A UUID is the number that its 16 bytes give, highest first. HKDF is a
-- parameter: what `expand` gives for a secret, an info and a length, where it does not refuse the length. What comes while a call waits
-- for an epoch, before its deadline, is an argument: the epochs that the handshake inserts.
pub mod Derive
pub mod Keys
pub mod Agree
use dkms.Prelude.{
  ℕ, zero, suc, ◌+◌, ◌-◌, ◌*◌, ◌/◌, ◌%◌, ◌^◌, min, max, Bool, true, false, not, Option, none, some,
  List, [], ◌∷◌, ◌++◌, ltb, leb, ◌==◌, if◌then◌else◌,
}
use dkms.Prelude.Assoc.{nat_keys}
use dkms.Prelude.Bytes.{Bytes, be_bytes}
use dkms.Prelude.Outcome.{Outcome, ok, err, panic, ◌>>=◌}
use dkms.Prelude.Sets.{contains, add}
use dkms.Qkc.Error.{QkcError, key_wait_timeout}
use dkms.Qkc.KeyStore.{OtpKey}
use dkms.Qkc.SecretStore.{SecretStore, get, highest, lowest, insert, request_resync}

-- 255 * 32
abbrev pub hkdf_max_output : ℕ
hkdf_max_output = 8160

-- 10 s, in milliseconds
abbrev pub secret_wait : ℕ
secret_wait = 10_000

unfoldable pub timeout_err : QkcError
timeout_err = key_wait_timeout "pqc-secret" 1 secret_wait

-- `key_id[0..4]` as a big-endian number
unfoldable pub epoch_of : ℕ → ℕ
epoch_of key_id = key_id / 2 ^ 96

-- The first 4 bytes of a fresh UUID are overwritten.
unfoldable pub make_key_id : ℕ → ℕ → ℕ
make_key_id epoch uuid = epoch * 2 ^ 96 + uuid % 2 ^ 96

pub record RekeyClock : Type 0 where
  pub n : ℕ
  pub counter : ℕ

unfoldable pub new_clock : ℕ → RekeyClock
new_clock rekey_keys = record { n = rekey_keys; counter = 0 }

unfoldable pub is_volume_disabled : RekeyClock → Bool
is_volume_disabled c = c.n == 0

-- With whether the loop that rotates is woken.
unfoldable pub tick : RekeyClock → ℕ → RekeyClock × Bool
tick c num = if c.n == 0 then (c, false) else (
  record c { counter = (c.counter + num) % 2 ^ 64 },
  not (c.counter / c.n == (c.counter + num) % 2 ^ 64 / c.n),
)

pub record PqcKeySource : Type 0 where
  pub key_bytes : ℕ
  pub lookahead : ℕ
  pub clock : Option RekeyClock

unfoldable pub new : ℕ → ℕ → Option RekeyClock → PqcKeySource
new key_size_bits lookahead clock = record {
  key_bytes = key_size_bits / 8;
  lookahead = lookahead;
  clock = clock;
}

-- `highest.saturating_sub(self.lookahead)`, but not below the lowest epoch
unfoldable pub active_epoch : PqcKeySource → SecretStore → ℕ → ℕ
active_epoch p s high = elim (lowest s) [
  | none ↦ high - p.lookahead
  | some lo ↦ if ltb (high - p.lookahead) lo then lo else high - p.lookahead
]

unfoldable pub tick_if : Option RekeyClock → ℕ → Option RekeyClock
tick_if none num = none
tick_if (some c) num = some (tick c num).0

abbrev pub Arrivals : Type 0
Arrivals = List (ℕ × Bytes)

-- The loops of `await_any` and `await_epoch`: the store is read again after each insertion.
unfoldable pub await_any : SecretStore → Arrivals → (SecretStore × Arrivals) × Option ℕ
await_any s [] = ((s, []), highest s)
await_any s ((e, v) ∷ later) = elim (highest s) [
  | some h ↦ ((s, (e, v) ∷ later), some h)
  | none ↦ await_any (insert s e v) later
]

unfoldable pub await_epoch : SecretStore → ℕ → Arrivals → (SecretStore × Arrivals) × Option Bytes
await_epoch s epoch [] = ((s, []), get s epoch)
await_epoch s epoch ((e, v) ∷ later) = elim (get s epoch) [
  | some secret ↦ ((s, (e, v) ∷ later), some secret)
  | none ↦ await_epoch (insert s e v) epoch later
]

unfoldable pub is_below : ℕ → Option ℕ → Bool
is_below epoch none = false
is_below epoch (some lo) = ltb epoch lo

-- `dead.iter().max()`
unfoldable pub max_of : List ℕ → Option ℕ
max_of [] = none
max_of (x ∷ xs) = elim (max_of xs) [ none ↦ some x | some y ↦ some (max x y) ]

unfoldable pub resync_if : SecretStore → Option ℕ → SecretStore
resync_if s none = s
resync_if s (some epoch) = request_resync s epoch

module _ (expand : Bytes → Bytes → ℕ → Option Bytes) where
  -- `hk.expand(…).expect(…)`
  unfoldable pub expect_expand : Bytes → Bytes → ℕ → Outcome QkcError Bytes
  expect_expand secret info n = elim (expand secret info n) [ none ↦ panic | some okm ↦ ok okm ]

  -- The loop of `derive_material` with `left` bytes to go.
  unfoldable pub derive_in : ℕ → Bytes → Bytes → ℕ → ℕ → Outcome QkcError Bytes
  derive_in zero secret info left chunk_idx = ok []
  derive_in (suc rounds) secret info left chunk_idx =
      let n = min left hkdf_max_output in
      let rest = derive_in rounds secret info (left - n) (chunk_idx + 1) in
      if left == 0
      then ok []
      else (expect_expand secret (info ++ be_bytes 4 chunk_idx) n >>= λ okm.
          if leb (2 ^ 32) (chunk_idx + 1) then panic else (rest >>= λ out. ok (okm ++ out)))

  unfoldable pub derive_material : Bytes → ℕ → ℕ → Outcome QkcError Bytes
  derive_material secret key_id len =
      derive_in len secret (be_bytes 16 key_id ++ be_bytes 4 (len % 2 ^ 32)) len 0

  unfoldable pub derive_key : PqcKeySource → Bytes → ℕ → Outcome QkcError OtpKey
  derive_key p secret key_id = do
    material ← derive_material secret key_id p.key_bytes
    ok (record { key_id = key_id; material = material })

  -- `for _ in 0..number`, with the UUIDs that are drawn
  unfoldable pub make_keys : PqcKeySource → Bytes → ℕ → List ℕ → Outcome QkcError (List OtpKey)
  make_keys p secret epoch [] = ok []
  make_keys p secret epoch (uuid ∷ uuids) = do
    k ← derive_key p secret (make_key_id epoch uuid)
    ks ← make_keys p secret epoch uuids
    ok (k ∷ ks)
