-- ===== src/Qkc/SecretStore.antt =====
-- qkc/src/pqc_source.rs: `SecretStore`, the secrets of a link by their epoch. The `BTreeMap` is the
-- list of its entries, lowest epoch first. Wake-ups are left out.
pub mod Window
pub mod Insert
use dkms.Prelude.{
  ℕ, zero, suc, ◌+◌, ◌-◌, ◌*◌, ◌/◌, max, Bool, true, false, Option, none, some, List, [], ◌∷◌,
  length, ltb, leb, ◌==◌, if◌then◌else◌,
}
use dkms.Prelude.Assoc.{Assoc, nat_keys, lookup}
use dkms.Prelude.Bytes.{Bytes}
use dkms.Prelude.Epochs.{Secrets, put, evict, split_off, last_epoch, first_epoch}
use dkms.Qkc.KeyStore.{buffer_target}

pub record SecretStore : Type 0 where
  pub inner : Secrets
  pub keep : ℕ
  pub resync_epoch : ℕ

-- `enc_cap.div_ceil(rekey_keys) + 2`, where there is a limit of keys to an epoch
unfoldable pub span : ℕ → ℕ
span zero = 1
span (suc n) = (buffer_target * 2 + n) / suc n + 2

unfoldable pub new : ℕ → ℕ → SecretStore
new lookahead rekey_keys = record {
  inner = [];
  keep = lookahead + 1 + span rekey_keys;
  resync_epoch = 0;
}

unfoldable pub request_resync : SecretStore → ℕ → SecretStore
request_resync s epoch = record s { resync_epoch = max s.resync_epoch epoch }

-- One round of `resync_requested`: the pending epoch, or nothing to return yet.
unfoldable pub take_resync : SecretStore → SecretStore × Option ℕ
take_resync s =
    (record s { resync_epoch = 0 }, if ltb 0 s.resync_epoch then some s.resync_epoch else none)

unfoldable pub get : SecretStore → ℕ → Option Bytes
get s epoch = lookup epoch s.inner

unfoldable pub is_some : Option Bytes → Bool
is_some none = false
is_some (some v) = true

unfoldable pub contains : SecretStore → ℕ → Bool
contains s epoch = is_some (lookup epoch s.inner)

unfoldable pub insert : SecretStore → ℕ → Bytes → SecretStore
insert s epoch secret =
    if contains s epoch then s else record s { inner = evict s.keep (put epoch secret s.inner) }

unfoldable pub replace : SecretStore → ℕ → Bytes → SecretStore
replace s epoch secret = record s { inner = evict s.keep (put epoch secret s.inner) }

-- With the number of epochs that are dropped.
unfoldable pub prune_below : SecretStore → ℕ → SecretStore × ℕ
prune_below s epoch =
    let kept = split_off epoch s.inner in (record s { inner = kept }, length s.inner - length kept)

unfoldable pub highest : SecretStore → Option ℕ
highest s = last_epoch s.inner

unfoldable pub lowest : SecretStore → Option ℕ
lowest s = first_epoch s.inner
