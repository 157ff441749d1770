-- ===== src/Dkms/Buffer/Order.antt =====
-- On the order of `try_push` and `pop_oldest` of dkms/src/state/buffer.rs.
use dkms.Prelude.{
  ℕ, ◌≡◌, refl, ◌∙◌, ap, Option, some, List, [], ◌∷◌, ◌++◌, length, zero, suc, append-nil,
  append_assoc,
}
use dkms.Dkms.Buffer.{TransportKey, SecureKeyBuffer, try_push, pop_front, pop_oldest}

pub push_all : SecureKeyBuffer → List TransportKey → SecureKeyBuffer
push_all b [] = b
push_all b (k ∷ ks) = push_all (try_push b k).0 ks

-- As many calls of `pop_oldest` as `n`, and what they return.
pub pop_all : SecureKeyBuffer → ℕ → SecureKeyBuffer × List (Option TransportKey)
pop_all b zero = (b, [])
pop_all b (suc n) = let (b', r) = pop_oldest b in let (b'', rs) = pop_all b' n in (b'', r ∷ rs)

pub somes : List TransportKey → List (Option TransportKey)
somes [] = []
somes (k ∷ ks) = some k ∷ somes ks

inner-push_all :
    (b : SecureKeyBuffer) (ks : List TransportKey)
    → push_all b ks ≡ record b { inner = b.inner ++ ks }
unfolding push_all try_push
inner-push_all b [] = rw (append-nil b.inner) refl
inner-push_all b (k ∷ ks) =
    inner-push_all (record b { inner = b.inner ++ k ∷ [] }) ks
    ∙ rw (append_assoc b.inner (k ∷ []) ks) refl

pop_all-list :
    (c : ℕ) (ks : List TransportKey)
    → pop_all (record { capacity = c; inner = ks }) (length ks)
      ≡ (record { capacity = c; inner = [] }, somes ks)
unfolding pop_all pop_oldest pop_front somes
pop_all-list c [] = refl
pop_all-list c (k ∷ ks) = ap (λ r. (r.0, some k ∷ r.1)) (pop_all-list c ks)

-- Keys that are pushed onto an empty buffer are popped in the same order, whatever its capacity,
-- and leave it empty.
pub pop_all-push_all :
    (c : ℕ) (ks : List TransportKey)
    → pop_all (push_all (record { capacity = c; inner = [] }) ks) (length ks)
      ≡ (record { capacity = c; inner = [] }, somes ks)
pop_all-push_all c ks =
    rw (inner-push_all (record { capacity = c; inner = [] }) ks) (pop_all-list c ks)
