-- ===== src/Qkc/SecretStore/Window.antt =====
-- On the window of epochs of `SecretStore` of qkc/src/pqc_source.rs.
use dkms.Prelude.{ℕ, ◌≤◌, List, [], ◌∷◌, length, arith, choose}
use dkms.Prelude.Assoc.{nat_keys}
use dkms.Prelude.Bytes.{Bytes}
use dkms.Prelude.Epochs.{put, evict, IsSorted}
use dkms.Prelude.Epochs.Order.{
  put-IsSorted, evict-IsSorted, split_off-IsSorted, length-evict, length-split_off,
}
use dkms.Qkc.SecretStore.{
  SecretStore, new, insert, replace, prune_below, request_resync, take_resync, contains,
}

pub record IsValid (s : SecretStore) : Type 0 where
  pub sorted : IsSorted s.inner
  pub bounded : length s.inner ≤ s.keep

evicted :
    (s : SecretStore) (epoch : ℕ) (secret : Bytes) → IsValid s → IsValid (replace s epoch secret)
unfolding replace
evicted s epoch secret v = record {
  sorted =
      evict-IsSorted s.keep (put epoch secret s.inner) (put-IsSorted epoch secret s.inner v.sorted);
  bounded = length-evict s.keep (put epoch secret s.inner);
}

-- The calls that change a store.
pub data Op : Type 0 where
  insertion replacement : ℕ → Bytes → Op
  pruning resync_request : ℕ → Op
  resync_taken : Op

unfoldable pub step : SecretStore → Op → SecretStore
step s (insertion epoch secret) = insert s epoch secret
step s (replacement epoch secret) = replace s epoch secret
step s (pruning epoch) = (prune_below s epoch).0
step s (resync_request epoch) = request_resync s epoch
step s resync_taken = (take_resync s).0

evicted_by_insert :
    (s : SecretStore) (epoch : ℕ) (secret : Bytes)
    → IsValid s
    → IsValid (record s { inner = evict s.keep (put epoch secret s.inner) })
unfolding replace
evicted_by_insert s epoch secret v = evicted s epoch secret v

step-IsValid : (s : SecretStore) (op : Op) → IsValid s → IsValid (step s op)
unfolding step insert prune_below request_resync take_resync
step-IsValid s (insertion epoch secret) v =
    choose (contains s epoch) IsValid (λ e. v) (λ e. evicted_by_insert s epoch secret v)
step-IsValid s (replacement epoch secret) v = evicted s epoch secret v
step-IsValid s (pruning epoch) v = record {
  sorted = split_off-IsSorted epoch s.inner v.sorted;
  bounded = omega (arith, length-split_off epoch s.inner, v.bounded);
}
step-IsValid s (resync_request epoch) v = record { sorted = v.sorted; bounded = v.bounded }
step-IsValid s resync_taken v = record { sorted = v.sorted; bounded = v.bounded }

unfoldable pub run : SecretStore → List Op → SecretStore
run s [] = s
run s (op ∷ ops) = run (step s op) ops

pub run-IsValid : (s : SecretStore) (ops : List Op) → IsValid s → IsValid (run s ops)
unfolding run
run-IsValid s [] v = v
run-IsValid s (op ∷ ops) v = run-IsValid (step s op) ops (step-IsValid s op v)

pub new-IsValid : (lookahead rekey_keys : ℕ) → IsValid (new lookahead rekey_keys)
unfolding new
new-IsValid lookahead rekey_keys = record { sorted = tt; bounded = omega arith }
