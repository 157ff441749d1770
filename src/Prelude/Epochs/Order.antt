-- ===== src/Prelude/Epochs/Order.antt =====
-- Epochs stay in order.
use dkms.Prelude.Tests.{ltb, ◌==◌, ==_iff, choose, le_of_ltb}
use dkms.Prelude.Lists.{length}
use dkms.Prelude.Bytes.{Bytes}
use dkms.Prelude.Assoc.{nat_keys}
use Prim.Native.Nat.{ℕ, suc, ◌≤◌, ◌<◌}
use mathlib.Core.Path.{sym, subst}
use mathlib.Core.List.{[], ◌∷◌}
use native.Mathlib.Omega.{arith}
use dkms.Prelude.Epochs.{Secrets, put, evict, split_off, Above, IsSorted}

pub put-Above :
    (lo epoch : ℕ) (secret : Bytes) (m : Secrets)
    → lo < epoch
    → Above lo m
    → Above lo (put epoch secret m)
unfolding put
put-Above lo epoch secret [] h a = (h, tt)
put-Above lo epoch secret ((e, v) ∷ m) h a =
    choose (ltb epoch e) (Above lo) (λ l. (h, (ground arith, a.1)))
      (λ l.
        choose (epoch == e) (Above lo)
          (λ same. (h, subst (λ x. Above x m) (sym ((==_iff epoch e).0 same)) a.1))
          (λ n. (a.0, put-Above e epoch secret m (ground arith) a.1)))

pub put-IsSorted :
    (epoch : ℕ) (secret : Bytes) (m : Secrets) → IsSorted m → IsSorted (put epoch secret m)
unfolding put
put-IsSorted epoch secret [] a = tt
put-IsSorted epoch secret ((e, v) ∷ m) a =
    choose (ltb epoch e) IsSorted (λ l. (ground arith, a))
      (λ l.
        choose (epoch == e) IsSorted
          (λ same. subst (λ x. Above x m) (sym ((==_iff epoch e).0 same)) a)
          (λ n. put-Above e epoch secret m (ground arith) a))

pub Above-IsSorted : (lo : ℕ) (m : Secrets) → Above lo m → IsSorted m
Above-IsSorted lo [] a = tt
Above-IsSorted lo ((e, v) ∷ m) a = a.1

pub IsSorted-rest : (x : ℕ × Bytes) (m : Secrets) → IsSorted (x ∷ m) → IsSorted m
IsSorted-rest (e, v) m a = Above-IsSorted e m a

pub evict-IsSorted : (keep : ℕ) (m : Secrets) → IsSorted m → IsSorted (evict keep m)
unfolding evict
evict-IsSorted keep [] a = tt
evict-IsSorted keep (x ∷ m) a =
    choose (ltb keep (suc (length m))) IsSorted (λ l. evict-IsSorted keep m (IsSorted-rest x m a))
      (λ l. a)

pub length-evict : (keep : ℕ) (m : Secrets) → length (evict keep m) ≤ keep
unfolding evict
length-evict keep [] = omega arith
length-evict keep (x ∷ m) =
    choose (ltb keep (suc (length m))) (λ (r : Secrets). length r ≤ keep) (λ l. length-evict keep m)
      (λ l. le_of_ltb keep (suc (length m)) l)

pub split_off-IsSorted : (epoch : ℕ) (m : Secrets) → IsSorted m → IsSorted (split_off epoch m)
unfolding split_off
split_off-IsSorted epoch [] a = tt
split_off-IsSorted epoch ((e, v) ∷ m) a =
    choose (ltb e epoch) IsSorted (λ l. split_off-IsSorted epoch m (Above-IsSorted e m a)) (λ l. a)

pub length-split_off : (epoch : ℕ) (m : Secrets) → length (split_off epoch m) ≤ length m
unfolding split_off
length-split_off epoch [] = omega arith
length-split_off epoch ((e, v) ∷ m) =
    choose (ltb e epoch) (λ (r : Secrets). length r ≤ suc (length m))
      (λ l. omega (arith, length-split_off epoch m)) (λ l. omega arith)
