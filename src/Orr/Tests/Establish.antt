-- ===== src/Orr/Tests/Establish.antt =====
-- Two routers on which the theorems about bootstraps and rotations are used. The KEM's keys are the
-- number that was drawn, and its secret is always the same.
use dkms.Prelude.{
  ◌≡◌, ◌≢◌, ◌⊎◌, ◌↔◌, refl, Bool, true, String, Option, none, some, List, [], ◌∷◌, ◌++◌, arith,
  if◌then◌else◌,
}
use dkms.Prelude.Assoc.{string_keys, lookup, ◌==◌ as same_text, insert, remove}
use dkms.Prelude.Bytes.{Bytes, same_bytes, same_bytes_iff}
use dkms.Prelude.Outcome.{ok}
use dkms.Orr.Peers.{
  PeerRegistry, with_all, strict, set_bootstrap, bootstrap_for, current_send_epoch, or_default,
  put_peer, is_held, qkc_id, reset_for_bootstrap,
}
use dkms.Orr.Peers.Held.{IsAhead}
use dkms.Orr.Peers.Verdicts.{
  IsAuthentic, verify_announcement, verify_by, verify_configured, signed_by,
}
use dkms.Orr.Rotation.{Environment, next_epoch}
use dkms.Orr.Rotation.Agree.{AreMatched, AreAgreed, rotation_agrees}
use dkms.Orr.Bootstrap.{
  Fetched, require_from_matches_peer, reports_other, is_refused, is_adopted, fresh_pubkey,
  handle_establish_secret,
}
use dkms.Orr.Bootstrap.Agree.{
  AreJoined, HasOnly, handled, establish_request, rebootstrapped, bootstrap_agrees,
  first_rotation_agrees,
}
use dkms.Orr.Bootstrap.Trust.{IsOwnName, adopted_iff_IsAuthentic, adopted_iff_fresh}
use dkms.Orr.Bootstrap.Peer.{passive, side}
use dkms.Orr.Bootstrap.Order.{one_begins}

abbrev bytes_of : String → Bytes
bytes_of x = if same_text x "orr_1" then 1 ∷ [] else 2 ∷ []

abbrev secret : Bytes
secret =
    1 ∷ 2 ∷ 3 ∷ 4 ∷ 5 ∷ 6 ∷ 7 ∷ 8 ∷ 9 ∷ 10 ∷ 11 ∷ 12 ∷ 13 ∷ 14 ∷ 15 ∷ 16 ∷ 17 ∷ 18 ∷ 19 ∷ 20 ∷ 21
    ∷ 22 ∷ 23 ∷ 24 ∷ 25 ∷ 26 ∷ 27 ∷ 28 ∷ 29 ∷ 30 ∷ 31 ∷ 32 ∷ []

abbrev environment : Environment
environment = record {
  hmac = λ k m. k ++ m;
  is_same = same_bytes;
  to_lowercase = λ x. x;
  as_bytes = bytes_of;
  has_suite = true;
  keygen = λ draw. some (draw ∷ [], draw ∷ []);
  encap = λ draw pk. some (draw ∷ pk, secret);
  decap = λ sk ct. some secret;
}

abbrev matched : AreMatched environment "orr_1" "orr_2" 5 6 (5 ∷ []) (5 ∷ []) (6 ∷ 5 ∷ []) secret
matched = record {
  suite = refl;
  same = λ t. (same_bytes_iff t t).1 refl;
  lower_a = refl;
  lower_b = refl;
  named_a = refl;
  named_b = refl;
  drawn = refl;
  sealed = refl;
  opened = refl;
  size = refl;
}

abbrev router : String → PeerRegistry
unfolding with_all
router id = with_all [] [] [] id 1 strict

abbrev first : PeerRegistry
first = set_bootstrap (router "orr_1") "orr_2" (9 ∷ [])

abbrev second : PeerRegistry
second = set_bootstrap (router "orr_2") "orr_1" (9 ∷ [])

first_bootstrap : bootstrap_for first "orr_2" ≡ some (9 ∷ [])
unfolding bootstrap_for set_bootstrap lookup insert remove
first_bootstrap = refl

second_bootstrap : bootstrap_for second "orr_1" ≡ some (9 ∷ [])
unfolding bootstrap_for set_bootstrap lookup insert remove
second_bootstrap = refl

nothing_held :
    IsAhead (next_epoch (current_send_epoch first "orr_2")) (lookup "orr_1" second.master_secrets)
unfolding lookup or_default set_bootstrap router
nothing_held = tt

no_keys :
    IsAhead (next_epoch (current_send_epoch first "orr_2")) (lookup "orr_1" second.ephemeral_sks)
unfolding lookup or_default set_bootstrap router
no_keys = tt

rotation_agrees_example :
    AreAgreed environment "orr_1" "orr_2" 5 6
      (5 ∷ [])
      (5 ∷ [])
      (6 ∷ 5 ∷ [])
      secret
      matched
      first
      second
      (9 ∷ [])
      3
      (next_epoch (current_send_epoch first "orr_2"))
rotation_agrees_example =
    rotation_agrees environment "orr_1" "orr_2" 5 6 (5 ∷ []) (5 ∷ []) (6 ∷ 5 ∷ []) secret matched
      first second (9 ∷ []) 3 first_bootstrap second_bootstrap nothing_held no_keys

first_rotation_agrees_example :
    AreAgreed environment "orr_1" "orr_2" 5 6
      (5 ∷ [])
      (5 ∷ [])
      (6 ∷ 5 ∷ [])
      secret
      matched
      (reset_for_bootstrap first "orr_2" secret)
      (reset_for_bootstrap second "orr_1" secret)
      secret
      3
      1
first_rotation_agrees_example =
    first_rotation_agrees environment "orr_1" "orr_2" 5 6 (5 ∷ []) (5 ∷ []) (6 ∷ 5 ∷ []) secret
      matched first second secret 3

abbrev node_cert : List Bytes → Bytes → String → Option Bytes
node_cert certs roots id = none

abbrev orr_pubkey : Bytes → String → String → Bytes → Bytes → Bool
orr_pubkey key id suite pubkey signature = same_bytes key signature

abbrev known : PeerRegistry
known = put_peer second "orr_1" 4

abbrev trusting : PeerRegistry
trusting = record first { peer_verify_keys = ("orr_2", 8 ∷ []) ∷ [] }

abbrev answer : Fetched
answer = record {
  reported = "orr_2";
  announced = record { suite = "kem"; public_key = 5 ∷ []; signature = 8 ∷ []; signing_certs = [] };
}

is_known : is_held (qkc_id known "orr_1") ≡ true
unfolding is_held qkc_id put_peer set_bootstrap router lookup insert remove
is_known = refl

joined :
    AreJoined
      (λ x. x)
      (λ certs. none)
      node_cert
      orr_pubkey
      environment
      "orr_1"
      "orr_2"
      trusting
      known
      none
      6
      (5 ∷ [])
      (5 ∷ [])
      (6 ∷ 5 ∷ [])
      secret
unfolding require_from_matches_peer
joined = record {
  suite = refl;
  sealed = refl;
  opened = refl;
  size = refl;
  lower = refl;
  named = refl;
  known = is_known;
  certified = refl;
}

abbrev added : PeerRegistry → PeerRegistry
added p = put_peer p "orr_3" 5

is_fresh :
    fresh_pubkey node_cert orr_pubkey environment "orr_2" "orr_1"
      (λ m.
        some (handle_establish_secret (λ x. x) (λ certs. none) environment known (5 ∷ []) none m).1)
      trusting
      (some answer)
    ≡ ok (5 ∷ [])
unfolding fresh_pubkey reports_other is_refused verify_announcement verify_by verify_configured
    signed_by lookup set_bootstrap router same_bytes
is_fresh = refl

bootstrap_agrees_example :
    ((rebootstrapped
        (λ x. x)
        (λ certs. none)
        node_cert
        orr_pubkey
        environment
        "orr_1"
        "orr_2"
        trusting
        known
        none
        6
        (5 ∷ [])
        (5 ∷ [])
        (6 ∷ 5 ∷ [])
        secret
        added
        (some answer)).1
      ≡ ok tt)
    × HasOnly trusting "orr_2" secret
        (rebootstrapped
          (λ x. x)
          (λ certs. none)
          node_cert
          orr_pubkey
          environment
          "orr_1"
          "orr_2"
          trusting
          known
          none
          6
          (5 ∷ [])
          (5 ∷ [])
          (6 ∷ 5 ∷ [])
          secret
          added
          (some answer)).0
    × HasOnly known "orr_1" secret
        (handled
          (λ x. x)
          (λ certs. none)
          node_cert
          orr_pubkey
          environment
          "orr_1"
          "orr_2"
          trusting
          known
          none
          6
          (5 ∷ [])
          (5 ∷ [])
          (6 ∷ 5 ∷ [])
          secret
          (establish_request
            (λ x. x)
            (λ certs. none)
            node_cert
            orr_pubkey
            environment
            "orr_1"
            "orr_2"
            trusting
            known
            none
            6
            (5 ∷ [])
            (5 ∷ [])
            (6 ∷ 5 ∷ [])
            secret)).0
bootstrap_agrees_example =
    bootstrap_agrees (λ x. x) (λ certs. none) node_cert orr_pubkey environment "orr_1" "orr_2"
      trusting known none 6 (5 ∷ []) (5 ∷ []) (6 ∷ 5 ∷ []) secret added (some answer) joined
      is_fresh

is_strict : trusting.bootstrap_trust ≡ strict
unfolding set_bootstrap router
is_strict = refl

adopted_iff_IsAuthentic_example :
    (is_adopted node_cert orr_pubkey environment "orr_2" trusting answer ≡ true) ↔ (
      IsOwnName node_cert orr_pubkey environment "orr_2" answer.reported
      × IsAuthentic node_cert orr_pubkey trusting "orr_2" answer.announced)
adopted_iff_IsAuthentic_example =
    adopted_iff_IsAuthentic node_cert orr_pubkey environment "orr_2" trusting answer is_strict

adopted_iff_fresh_example :
    (is_adopted node_cert orr_pubkey environment "orr_2" trusting answer ≡ true) ↔ (
      fresh_pubkey node_cert orr_pubkey environment "orr_2" "orr_1"
        (λ m. none)
        trusting
        (some answer)
      ≡ ok (5 ∷ []))
adopted_iff_fresh_example =
    adopted_iff_fresh node_cert orr_pubkey environment "orr_2" "orr_1" (λ m. none) trusting answer

one_begins_example :
    ((side bytes_of first "orr_1" "orr_2" ≡ passive)
      × (side bytes_of second "orr_2" "orr_1" ≢ passive))
    ⊎ ((side bytes_of first "orr_1" "orr_2" ≢ passive)
        × (side bytes_of second "orr_2" "orr_1" ≡ passive))
one_begins_example = one_begins bytes_of first second "orr_1" "orr_2" (λ h. ground (arith, h))
