-- ===== src/Orr/Bootstrap.antt =====
-- orr/src/bootstrap.rs and the handler `establish_secret` of orr/src/grpc_server.rs: how two routers
-- come to share a first secret. The KEM, the two ways to lower case, the name in a certificate and
-- the checks of an announcement are parameters. A call of the peer is its answer, or what answers it,
-- and `meanwhile` is what other tasks do to the registry while it waits.
pub mod Peer
pub mod Agree
pub mod Passive
pub mod Trust
pub mod Exclusive
pub mod Retry
pub mod Order
use dkms.Prelude.{
  ℕ, Bool, true, false, not, ◌&&◌, String, Option, none, some, List, [], ◌∷◌, length, ltb, ◌==◌,
  if◌then◌else◌,
}
use dkms.Prelude.Assoc.{string_keys, ◌==◌ as same_text}
use dkms.Prelude.Bytes.{Bytes}
use dkms.Prelude.Outcome.{Outcome, ok, err, panic, ◌>>=◌, ◌>>◌, refuse_if}
use dkms.Orr.Peers.{PeerRegistry, qkc_id, is_held, put_pubkey, reset_for_bootstrap}
use dkms.Orr.Peers.Verdicts.{
  SigVerdict, cert_bound, valid, no_key, unsigned, PubkeyVerdict, accept, accept_pin_mismatch,
  Announcement, verify_announcement, verify_fetched_pubkey,
}
use dkms.Orr.Rotation.{Environment, or_err, lower_id}

-- Why the handler does not take a secret: the first two are a status of the call.
pub data EstablishRefusal : Type 0 where
  not_certified unknown_peer from_required decap_failed secret_len : EstablishRefusal

pub data BootstrapError : Type 0 where
  unreachable other_id rejected_announcement encap_failed bad_len : BootstrapError
  rejected : EstablishRefusal → BootstrapError

pub record EstablishRequest : Type 0 where
  pub from : Option String
  pub ciphertext : Bytes

-- The answer to `GetPublicKey`.
pub record Fetched : Type 0 where
  pub reported : String
  pub announced : Announcement

-- The order of texts in the source is that of their bytes.
unfoldable pub bytes_ltb : Bytes → Bytes → Bool
bytes_ltb xs [] = false
bytes_ltb [] (y ∷ ys) = true
bytes_ltb (x ∷ xs) (y ∷ ys) = if x == y then bytes_ltb xs ys else ltb x y

module _ (to_ascii_lowercase : String → String)
    (node_id_from_certs : List Bytes → Option String) where
  unfoldable pub is_named : Option String → String → Bool
  is_named none claimed = false
  is_named (some id) claimed = same_text id claimed

  unfoldable pub require_from_matches_peer : Option (List Bytes) → String → Bool
  unfolding is_named
  require_from_matches_peer none from = true
  require_from_matches_peer (some certs) from =
      is_named (node_id_from_certs certs) (to_ascii_lowercase from)

  module _ (env : Environment) where
    unfoldable pub checked_establish :
        PeerRegistry
        → (secret_key : Bytes) → Option (List Bytes)
        → EstablishRequest
        → (from : String) → Outcome EstablishRefusal Bytes
    unfolding require_from_matches_peer or_err is_held
    checked_establish p secret_key certs m from = do
      refuse_if (same_text from "") from_required
      refuse_if (not (require_from_matches_peer certs from)) not_certified
      refuse_if (not (is_held (qkc_id p from))) unknown_peer
      ss ← or_err decap_failed (env.decap secret_key m.ciphertext)
      refuse_if (not (length ss == 32)) secret_len
      ok ss

    unfoldable pub stored :
        PeerRegistry
        → String
        → Outcome EstablishRefusal Bytes
        → PeerRegistry × Outcome EstablishRefusal (Unit {0})
    stored p from panic = (p, panic)
    stored p from (err r) = (p, err r)
    stored p from (ok secret) = (reset_for_bootstrap p from secret, ok tt)

    -- The handler of a router with the KEM key `secret_key`.
    unfoldable pub handle_establish_secret :
        PeerRegistry
        → (secret_key : Bytes) → Option (List Bytes)
        → EstablishRequest
        → PeerRegistry × Outcome EstablishRefusal (Unit {0})
    unfolding stored checked_establish lower_id
    handle_establish_secret p secret_key certs m =
        let from = lower_id env m.from in
        stored p from (checked_establish p secret_key certs m from)

-- `firmado`
unfoldable pub is_signed : SigVerdict → Bool
is_signed cert_bound = true
is_signed valid = true
is_signed no_key = false
is_signed unsigned = false
is_signed SigVerdict.reject = false

unfoldable pub is_refused : SigVerdict → Bool
is_refused SigVerdict.reject = true
is_refused cert_bound = false
is_refused valid = false
is_refused no_key = false
is_refused unsigned = false

unfoldable pub is_unpinned : PubkeyVerdict → Bool
is_unpinned PubkeyVerdict.reject = true
is_unpinned accept = false
is_unpinned accept_pin_mismatch = false

module _ (verify_node_cert : List Bytes → Bytes → String → Option Bytes)
    (verify_orr_pubkey : Bytes → String → String → Bytes → Bytes → Bool) (env : Environment)
    (peer_id : String) where
  -- The peer gives itself a name, and it is another one.
  unfoldable pub reports_other : Fetched → Bool
  reports_other f =
      let reported = env.to_lowercase f.reported in
      not (same_text reported "") && not (same_text reported peer_id)

  -- Whether the key that was fetched is kept.
  unfoldable pub is_adopted : PeerRegistry → Fetched → Bool
  unfolding reports_other is_signed is_refused is_unpinned
  is_adopted p f =
      let sig = verify_announcement verify_node_cert verify_orr_pubkey p peer_id f.announced in
      let pin =
        if is_signed sig then accept else verify_fetched_pubkey p peer_id f.announced.public_key in
      if reports_other f then false else if is_refused sig then false else not (is_unpinned pin)

  -- A round of `fetch_pubkey`, and whether it is the last one.
  unfoldable pub fetch_round : PeerRegistry → Option Fetched → PeerRegistry × Bool
  unfolding is_adopted
  fetch_round p none = (p, false)
  fetch_round p (some f) =
      (if is_adopted p f then put_pubkey p peer_id f.announced.public_key else p, true)

  unfoldable pub fetch_next :
      (PeerRegistry → PeerRegistry × Bool) → PeerRegistry × Bool → PeerRegistry × Bool
  fetch_next rest (p, true) = (p, true)
  fetch_next rest (p, false) = rest p

  -- The rounds over the answers that come, each with what is done meanwhile.
  unfoldable pub fetch_pubkey :
      PeerRegistry → List ((PeerRegistry → PeerRegistry) × Option Fetched) → PeerRegistry × Bool
  unfolding fetch_next fetch_round
  fetch_pubkey p [] = (p, false)
  fetch_pubkey p ((meanwhile, answer) ∷ answers) =
      fetch_next (λ q. fetch_pubkey q answers) (fetch_round (meanwhile p) answer)

  module _ (local_orr_id : String)
      (on_establish : EstablishRequest → Option (Outcome EstablishRefusal (Unit {0}))) where
    unfoldable pub confirmed :
        Bytes → Option (Outcome EstablishRefusal (Unit {0})) → Outcome BootstrapError Bytes
    confirmed secret none = err unreachable
    confirmed secret (some panic) = err unreachable
    confirmed secret (some (err r)) = err (rejected r)
    confirmed secret (some (ok u)) = ok secret

    unfoldable pub attempt_establish : (draw : ℕ) → Bytes → Outcome BootstrapError Bytes
    unfolding confirmed or_err
    attempt_establish draw pk = do
      refuse_if (not env.has_suite) encap_failed
      (ct, ss) ← or_err encap_failed (env.encap draw pk)
      refuse_if (not (length ss == 32)) bad_len
      confirmed ss (on_establish (record { from = some local_orr_id; ciphertext = ct }))

    unfoldable pub adopt :
        PeerRegistry
        → Outcome BootstrapError Bytes
        → PeerRegistry × Outcome BootstrapError (Unit {0})
    adopt p panic = (p, panic)
    adopt p (err e) = (p, err e)
    adopt p (ok secret) = (reset_for_bootstrap p peer_id secret, ok tt)

    -- The checks of `rebootstrap` on the key that it fetched.
    unfoldable pub fresh_pubkey : PeerRegistry → Option Fetched → Outcome BootstrapError Bytes
    unfolding reports_other is_refused
    fresh_pubkey p none = err unreachable
    fresh_pubkey p (some f) = do
      refuse_if (reports_other f) other_id
      refuse_if
          (is_refused
            (verify_announcement verify_node_cert verify_orr_pubkey p peer_id f.announced))
          rejected_announcement
      ok f.announced.public_key

    unfoldable pub rebootstrap_with :
        (PeerRegistry → PeerRegistry)
        → PeerRegistry
        → (draw : ℕ) → Outcome BootstrapError Bytes
        → PeerRegistry × Outcome BootstrapError (Unit {0})
    unfolding attempt_establish adopt
    rebootstrap_with meanwhile p draw panic = (p, panic)
    rebootstrap_with meanwhile p draw (err e) = (p, err e)
    rebootstrap_with meanwhile p draw (ok pk) =
        adopt (meanwhile (put_pubkey p peer_id pk)) (attempt_establish draw pk)

    unfoldable pub rebootstrap :
        (PeerRegistry → PeerRegistry)
        → PeerRegistry
        → (draw : ℕ) → Option Fetched
        → PeerRegistry × Outcome BootstrapError (Unit {0})
    unfolding rebootstrap_with fresh_pubkey
    rebootstrap meanwhile p draw answer = rebootstrap_with meanwhile p draw (fresh_pubkey p answer)
