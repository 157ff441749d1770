-- ===== src/Qkc/SecretStore/Insert.antt =====
-- On `insert` of `SecretStore` of qkc/src/pqc_source.rs.
use dkms.Prelude.{ℕ, ◌≡◌, ◌∙◌, false, none, some, ltb, ◌==◌, if◌then◌else◌}
use dkms.Prelude.Assoc.{nat_keys}
use dkms.Prelude.Bytes.{Bytes}
use dkms.Prelude.Epochs.{put, evict, first_epoch}
use dkms.Prelude.Epochs.Order.{put-IsSorted}
use dkms.Prelude.Epochs.Lookup.{lookup-put, lookup-evict}
use dkms.Qkc.SecretStore.{SecretStore, insert, contains, get, lowest}
use dkms.Qkc.SecretStore.Window.{IsValid}

-- In a store whose epochs rise, the secret of a new epoch is put beside the others, and at most the
-- lowest epochs go: from the lowest one that is left on, each epoch has what it had, and the new one
-- has its secret.
pub get-insert :
    (s : SecretStore) (epoch e lo : ℕ) (secret : Bytes)
    → IsValid s
    → contains s epoch ≡ false
    → lowest (insert s epoch secret) ≡ some lo
    → get (insert s epoch secret) e
      ≡ (if ltb e lo then none else if epoch == e then some secret else get s e)
unfolding insert get lowest
get-insert s epoch e lo secret v n h =
    let at = λ (h' : first_epoch (evict s.keep (put epoch secret s.inner)) ≡ some lo).
      lookup-evict e s.keep lo (put epoch secret s.inner)
        (put-IsSorted epoch secret s.inner v.sorted) h' in
    rw n (at (rw n at h) ∙ rw (lookup-put e epoch secret s.inner))
