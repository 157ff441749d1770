-- ===== src/Qkc/Service.antt =====
-- qkc/src/service.rs: the part of `QkcService` and of `LinkRuntime` that the relay uses. What each
-- local consumer (a connection of the router) has been handed, and what was put in the queues of the
-- peers' writers, are lists of frames in the state. What a consumer's channel answers to `try_send`
-- is an argument.
use dkms.Prelude.{ℕ, suc, ◌+◌, Option, none, some, List, [], ◌∷◌, ◌++◌}
use dkms.Prelude.Assoc.{Assoc, nat_keys, lookup, insert}
use dkms.Prelude.Outcome.{Outcome, ok, err, panic}
use dkms.Qkc.Error.{QkcError, unknown_neighbor, FrameAuthError, frame_auth}
use dkms.Qkc.FrameAuth.{LinkFrameAuth}
use dkms.Qkc.KeyStore.{KeyStore, fetch_add}
use dkms.Qkc.Routing.{ForwardingTable}
use dkms.Wire.Frame.{Frame}

pub record LinkRuntime : Type 0 where
  pub key_size_bits : ℕ
  pub keys : KeyStore
  pub auth : Option LinkFrameAuth

-- The counters of the relay; those of the intake of frames are left out.
pub record Stats : Type 0 where
  pub incoming_starts : ℕ
  pub incoming_errs : ℕ
  pub incoming_delivered : ℕ
  pub incoming_forwarded : ℕ
  pub deliver_calls : ℕ
  pub deliver_sends_ok : ℕ
  pub deliver_drops_full : ℕ
  pub deliver_drops_closed : ℕ
  pub local_send_starts : ℕ
  pub local_send_oks : ℕ
  pub local_send_errs : ℕ

pub record QkcService : Type 0 where
  pub qkc_id : ℕ
  pub links : Assoc ℕ LinkRuntime
  pub routing : ForwardingTable
  pub local_out : List (List Frame)
  pub sent : List (ℕ × Frame)
  pub stats : Stats

-- A step of the service that may fail; what it changed before it failed stays.
abbrev pub M : Type 0 → Type 0
M A = QkcService → QkcService × Outcome QkcError A

abbrev pub and_then :
    {A B : Type 0} → QkcService × Outcome QkcError A → (A → M B) → QkcService × Outcome QkcError B
and_then (s, ok a) next = next a s
and_then (s, err e) next = (s, err e)
and_then (s, panic) next = (s, panic)

infixl 5 ◌>>=◌ ◌>>◌
abbrev pub ◌>>=◌ : {A B : Type 0} → M A → (A → M B) → M B
◌>>=◌ first next s = and_then (first s) next

abbrev pub ◌>>◌ : {B : Type 0} → M (Unit {0}) → M B → M B
first >> second = first >>= λ _. second

-- A computation that does not touch the service.
abbrev pub lift : {A : Type 0} → Outcome QkcError A → M A
lift o s = (s, o)

unfoldable pub link_to : ℕ → M LinkRuntime
link_to id s = elim (lookup id s.links) [
  | none ↦ (s, err (unknown_neighbor id))
  | some l ↦ (s, ok l)
]

unfoldable pub put_link : ℕ → LinkRuntime → QkcService → QkcService
put_link id l s = record s { links = insert id l s.links }

-- A call on the keys of a link, which is shared by all that hold it.
unfoldable pub on_keys : {A : Type 0} → ℕ → (KeyStore → KeyStore × Outcome QkcError A) → M A
on_keys id call s = elim (lookup id s.links) [
  | none ↦ (s, err (unknown_neighbor id))
  | some l ↦ let r = call l.keys in (put_link id (record l { keys = r.0 }) s, r.1)
]

unfoldable pub of_auth : {A : Type 0} → Outcome FrameAuthError A → Outcome QkcError A
of_auth panic = panic
of_auth (err e) = err (frame_auth e)
of_auth (ok a) = ok a

-- A call on the authentication of a link.
unfoldable pub on_auth :
    ℕ → (Option LinkFrameAuth → Option LinkFrameAuth × Outcome FrameAuthError Frame) → M Frame
on_auth id call s = elim (lookup id s.links) [
  | none ↦ (s, err (unknown_neighbor id))
  | some l ↦ let r = call l.auth in (put_link id (record l { auth = r.0 }) s, of_auth r.1)
]

-- What a channel answers to `try_send`.
pub data TrySend : Type 0 where
  accepted : TrySend
  full : TrySend
  closed : TrySend

-- A consumer whose channel does not take the frame goes without it.
unfoldable pub offered : TrySend → Frame → List Frame → List Frame
offered accepted f queue = queue ++ f ∷ []
offered full f queue = queue
offered closed f queue = queue

-- `n_ok`, `n_full` and `n_closed`
pub record Tally : Type 0 where
  pub n_ok : ℕ
  pub n_full : ℕ
  pub n_closed : ℕ

unfoldable pub counted : TrySend → Tally → Tally
counted accepted n = record n { n_ok = n.n_ok + 1 }
counted full n = record n { n_full = n.n_full + 1 }
counted closed n = record n { n_closed = n.n_closed + 1 }

-- The loop over the consumers, the first of which has the number `i`.
unfoldable pub send_each :
    (ℕ → TrySend) → Frame → (i : ℕ) → List (List Frame) → Tally → List (List Frame) × Tally
send_each try_send f i [] n = ([], n)
send_each try_send f i (queue ∷ senders) n =
    let rest = send_each try_send f (suc i) senders (counted (try_send i) n) in
    (offered (try_send i) f queue ∷ rest.0, rest.1)

unfoldable pub deliver_local : (ℕ → TrySend) → Frame → M (Unit {0})
deliver_local try_send f s =
    let r = send_each try_send f 0 s.local_out (record { n_ok = 0; n_full = 0; n_closed = 0 }) in
    (
      record s {
        local_out = r.0;
        stats = record s.stats {
          deliver_calls = fetch_add s.stats.deliver_calls 1;
          deliver_sends_ok = fetch_add s.stats.deliver_sends_ok r.1.n_ok;
          deliver_drops_full = fetch_add s.stats.deliver_drops_full r.1.n_full;
          deliver_drops_closed = fetch_add s.stats.deliver_drops_closed r.1.n_closed;
        };
      },
      ok tt,
    )
