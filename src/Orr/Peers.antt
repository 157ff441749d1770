-- ===== src/Orr/Peers.antt =====
-- orr/src/peers.rs: `PeerRegistry`, what a router knows of the others and the secrets that it shares
-- with them, by epoch. A lock that is held through a method makes it one step, and where a method
-- takes several locks one after the other, it is one step here too.
pub mod Flags
pub mod Held
pub mod Gone
pub mod Verdicts
use dkms.Prelude.{
  ℕ, ◌-◌, max, Bool, true, false, not, ◌&&◌, String, Option, none, some, List, [], ◌∷◌, leb, ltb,
  length, if◌then◌else◌,
}
use dkms.Prelude.Assoc.{Assoc, IsKey, string_keys, nat_keys, lookup, insert, remove, ◌==◌}
use dkms.Prelude.Bytes.{Bytes}
use dkms.Prelude.Epochs.{Secrets, put, evict, last_epoch}
use dkms.Prelude.Sets.{contains, add, discard}

pub data BootstrapTrust : Type 0 where
  tofu strict : BootstrapTrust

abbrev pub max_ephemeral_per_peer : ℕ
max_ephemeral_per_peer = 64

pub record PeerRegistry : Type 0 where
  pub by_orr : Assoc String ℕ
  pub pubkeys : Assoc String Bytes
  pub bootstrap_secrets : Assoc String Bytes
  pub master_secrets : Assoc String Secrets
  pub ephemeral_sks : Assoc String Secrets
  pub current_send_epochs : Assoc String ℕ
  pub rebootstrap_last_failure : Assoc String ℕ
  pub rebootstrap_inflight : Assoc String Bool
  pub grpc_addrs : Assoc String String
  pub pinned_pubkeys : Assoc String Bytes
  pub peer_verify_keys : Assoc String Bytes
  pub bootstrap_trust : BootstrapTrust
  pub trust_roots : Option Bytes
  pub rotation_spawned : List String
  pub local_orr_id : String
  pub local_qkc_id : ℕ

unfoldable pub with_all :
    (seed_qkc : Assoc String ℕ) (seed_pubkeys peer_verify_keys : Assoc String Bytes)
    → String
    → ℕ
    → BootstrapTrust
    → PeerRegistry
with_all seed_qkc seed_pubkeys peer_verify_keys local_orr_id local_qkc_id trust = record {
  by_orr = seed_qkc;
  pubkeys = seed_pubkeys;
  bootstrap_secrets = [];
  master_secrets = [];
  ephemeral_sks = [];
  current_send_epochs = [];
  rebootstrap_last_failure = [];
  rebootstrap_inflight = [];
  grpc_addrs = [];
  pinned_pubkeys = seed_pubkeys;
  peer_verify_keys = peer_verify_keys;
  bootstrap_trust = trust;
  trust_roots = none;
  rotation_spawned = [];
  local_orr_id = local_orr_id;
  local_qkc_id = local_qkc_id;
}

unfoldable pub with_pubkeys_trust :
    Assoc String ℕ → Assoc String Bytes → String → ℕ → BootstrapTrust → PeerRegistry
unfolding with_all
with_pubkeys_trust seed_qkc seed_pubkeys local_orr_id local_qkc_id trust =
    with_all seed_qkc seed_pubkeys [] local_orr_id local_qkc_id trust

unfoldable pub with_trust_roots : PeerRegistry → Option Bytes → PeerRegistry
with_trust_roots p roots = record p { trust_roots = roots }

unfoldable pub modified :
    String → (Secrets → Secrets) → Assoc String Secrets → Option Secrets → Assoc String Secrets
modified k f m none = m
modified k f m (some s) = insert k (f s) m

-- Where there is something at the key, it is changed: `get_mut`.
unfoldable pub modify_at :
    String → (Secrets → Secrets) → Assoc String Secrets → Assoc String Secrets
unfolding modified
modify_at k f m = modified k f m (lookup k m)

-- `values_mut`
unfoldable pub map_values : (Secrets → Secrets) → Assoc String Secrets → Assoc String Secrets
map_values f [] = []
map_values f ((k, s) ∷ m) = (k, f s) ∷ map_values f m

-- `entry(…).or_default()`
unfoldable pub or_default : Option Secrets → Secrets
or_default none = []
or_default (some s) = s

-- `and_then(|m| m.get(&epoch_id))`
unfoldable pub found_in : Option Secrets → ℕ → Option Bytes
found_in none epoch_id = none
found_in (some m) epoch_id = lookup epoch_id m

unfoldable pub last_in : Option Secrets → Option ℕ
last_in none = none
last_in (some m) = last_epoch m

unfoldable pub is_held {ℓ} : {A : Type ℓ} → Option A → Bool
is_held none = false
is_held (some a) = true

unfoldable pub qkc_id : PeerRegistry → String → Option ℕ
qkc_id p orr_id = if orr_id == p.local_orr_id then some p.local_qkc_id else lookup orr_id p.by_orr

unfoldable pub put_peer : PeerRegistry → String → ℕ → PeerRegistry
put_peer p orr_id qkc = record p { by_orr = insert orr_id qkc p.by_orr }

unfoldable pub remove_peer : PeerRegistry → String → PeerRegistry
remove_peer p orr_id = record p { by_orr = remove orr_id p.by_orr }

unfoldable pub forget : PeerRegistry → String → PeerRegistry
forget p orr_id = record p {
  by_orr = remove orr_id p.by_orr;
  pubkeys = remove orr_id p.pubkeys;
  bootstrap_secrets = remove orr_id p.bootstrap_secrets;
  master_secrets = remove orr_id p.master_secrets;
  ephemeral_sks = remove orr_id p.ephemeral_sks;
  current_send_epochs = remove orr_id p.current_send_epochs;
  rebootstrap_last_failure = remove orr_id p.rebootstrap_last_failure;
  rebootstrap_inflight = remove orr_id p.rebootstrap_inflight;
  grpc_addrs = remove orr_id p.grpc_addrs;
  rotation_spawned = discard orr_id p.rotation_spawned;
}

unfoldable pub public_key : PeerRegistry → String → Option Bytes
public_key p orr_id = lookup orr_id p.pubkeys

unfoldable pub put_pubkey : PeerRegistry → String → Bytes → PeerRegistry
put_pubkey p orr_id pubkey = record p { pubkeys = insert orr_id pubkey p.pubkeys }

unfoldable pub remove_pubkey : PeerRegistry → String → PeerRegistry
remove_pubkey p orr_id = record p { pubkeys = remove orr_id p.pubkeys }

unfoldable pub grpc_addr : PeerRegistry → String → Option String
grpc_addr p orr_id = lookup orr_id p.grpc_addrs

unfoldable pub put_grpc_addr : PeerRegistry → String → String → PeerRegistry
put_grpc_addr p orr_id url = record p { grpc_addrs = insert orr_id url p.grpc_addrs }

unfoldable pub set_bootstrap : PeerRegistry → String → Bytes → PeerRegistry
set_bootstrap p orr_id secret = record p {
  bootstrap_secrets = insert orr_id secret p.bootstrap_secrets;
}

unfoldable pub bootstrap_for : PeerRegistry → String → Option Bytes
bootstrap_for p orr_id = lookup orr_id p.bootstrap_secrets

unfoldable pub has_bootstrap : PeerRegistry → String → Bool
has_bootstrap p orr_id = is_held (lookup orr_id p.bootstrap_secrets)

unfoldable pub set_master_for_epoch : PeerRegistry → String → ℕ → Bytes → PeerRegistry
set_master_for_epoch p orr_id epoch_id secret = record p {
  master_secrets =
      insert orr_id (put epoch_id secret (or_default (lookup orr_id p.master_secrets)))
        p.master_secrets;
}

unfoldable pub master_for_epoch : PeerRegistry → String → ℕ → Option Bytes
unfolding found_in
master_for_epoch p orr_id epoch_id = found_in (lookup orr_id p.master_secrets) epoch_id

unfoldable pub latest_epoch_for : PeerRegistry → String → Option ℕ
unfolding last_in
latest_epoch_for p orr_id = last_in (lookup orr_id p.master_secrets)

unfoldable pub drop_old_epochs : PeerRegistry → ℕ → PeerRegistry
drop_old_epochs p keep_last_n = record p {
  master_secrets = map_values (evict keep_last_n) p.master_secrets;
  ephemeral_sks = map_values (evict keep_last_n) p.ephemeral_sks;
}

unfoldable pub master_of : PeerRegistry → String → Option ℕ → Option Bytes
master_of p orr_id none = none
master_of p orr_id (some latest) = master_for_epoch p orr_id latest

unfoldable pub master_secret : PeerRegistry → String → Option Bytes
unfolding master_of
master_secret p orr_id = master_of p orr_id (latest_epoch_for p orr_id)

unfoldable pub store_ephemeral_sk : PeerRegistry → String → ℕ → Bytes → PeerRegistry
store_ephemeral_sk p orr_id epoch_id esk = record p {
  ephemeral_sks =
      insert orr_id
        (evict max_ephemeral_per_peer
          (put epoch_id esk (or_default (lookup orr_id p.ephemeral_sks))))
        p.ephemeral_sks;
}

unfoldable pub taken : PeerRegistry → String → ℕ → Option Secrets → PeerRegistry × Option Bytes
taken p orr_id epoch_id none = (p, none)
taken p orr_id epoch_id (some entry) = (
  record p { ephemeral_sks = insert orr_id (remove epoch_id entry) p.ephemeral_sks },
  lookup epoch_id entry,
)

unfoldable pub take_ephemeral_sk : PeerRegistry → String → ℕ → PeerRegistry × Option Bytes
unfolding taken
take_ephemeral_sk p orr_id epoch_id = taken p orr_id epoch_id (lookup orr_id p.ephemeral_sks)

unfoldable pub has_ephemeral_sk : PeerRegistry → String → ℕ → Bool
unfolding is_held found_in
has_ephemeral_sk p orr_id epoch_id = is_held (found_in (lookup orr_id p.ephemeral_sks) epoch_id)

unfoldable pub current_send_epoch : PeerRegistry → String → Option ℕ
current_send_epoch p orr_id = lookup orr_id p.current_send_epochs

unfoldable pub set_current_send_epoch : PeerRegistry → String → ℕ → PeerRegistry
set_current_send_epoch p orr_id epoch_id = record p {
  current_send_epochs = insert orr_id epoch_id p.current_send_epochs;
}

-- `or_else`
unfoldable pub or_latest : Option ℕ → Option ℕ → Option ℕ
or_latest none latest = latest
or_latest (some epoch) latest = some epoch

unfoldable pub send_epoch_for : PeerRegistry → String → Option ℕ
unfolding or_latest
send_epoch_for p orr_id = or_latest (current_send_epoch p orr_id) (latest_epoch_for p orr_id)

unfoldable pub remove_master_epoch : PeerRegistry → String → ℕ → PeerRegistry
remove_master_epoch p orr_id epoch_id = record p {
  master_secrets = modify_at orr_id (remove epoch_id) p.master_secrets;
}

unfoldable pub reset_for_bootstrap : PeerRegistry → String → Bytes → PeerRegistry
unfolding set_master_for_epoch
reset_for_bootstrap p orr_id secret =
    set_master_for_epoch
      (record p {
        master_secrets = remove orr_id p.master_secrets;
        ephemeral_sks = remove orr_id p.ephemeral_sks;
        current_send_epochs = remove orr_id p.current_send_epochs;
        bootstrap_secrets = insert orr_id secret p.bootstrap_secrets;
      })
      orr_id 0 secret

unfoldable pub drop_old_epochs_for : PeerRegistry → String → ℕ → PeerRegistry
drop_old_epochs_for p orr_id keep_last_n = record p {
  master_secrets = modify_at orr_id (evict (max keep_last_n 2)) p.master_secrets;
  ephemeral_sks = modify_at orr_id (evict (max keep_last_n 2)) p.ephemeral_sks;
}

unfoldable pub clear_peer_secrets : PeerRegistry → String → PeerRegistry
clear_peer_secrets p orr_id = record p {
  bootstrap_secrets = remove orr_id p.bootstrap_secrets;
  master_secrets = remove orr_id p.master_secrets;
  ephemeral_sks = remove orr_id p.ephemeral_sks;
  current_send_epochs = remove orr_id p.current_send_epochs;
}
