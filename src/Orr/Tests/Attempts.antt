-- ===== src/Orr/Tests/Attempts.antt =====
-- A router on which the theorems about the attempts to establish a secret are used, and a message
-- of a rotation that comes again.
use dkms.Prelude.{
  ℕ, ◌+◌, ◌≤◌, ◌↔◌, ◌≡◌, ◌≢◌, ◌⊎◌, refl, Bool, true, false, none, some, [], ◌∷◌, arith, inr,
}
use dkms.Prelude.Assoc.{string_keys, nat_keys, lookup}
use dkms.Prelude.Bytes.{Bytes}
use dkms.Prelude.Outcome.{Outcome, ok, err}
use dkms.Orr.Macs.{verify_slice, verify_mac_fin}
use dkms.Orr.Peers.{
  PeerRegistry, with_all, tofu, is_held, grpc_addr, public_key, bootstrap_for, take_ephemeral_sk,
  taken,
}
use dkms.Orr.Peers.Flags.{or_false, try_mark_rebootstrap_inflight, should_attempt_rebootstrap}
use dkms.Orr.Rotation.{
  RotationError, KeyRequest, SecretRequest, Environment, lower_id, or_err, refuse_mac, authorised,
  checked_secret, install, establish, handle_establish_ephemeral_secret,
}
use dkms.Orr.Rotation.Once.{key, secret, after_call, after_calls, AreOther, secret_once}
use dkms.Orr.Rotation.Initiator.{Next, wait, round}
use dkms.Orr.Bootstrap.{BootstrapError, unreachable}
use dkms.Orr.Bootstrap.Peer.{Turn, establish_round}
use dkms.Orr.Bootstrap.Passive.{
  trigger_passive_rebootstrap, passive_rebootstrap, refreshed, marked, cleared,
}
use dkms.Orr.Bootstrap.Exclusive.{is_busy, busy_kept, flag_released}
use dkms.Orr.Bootstrap.Retry.{IsReady, IsLongAgo, next_attempt_iff}

abbrev new_secret : Bytes
new_secret =
    1 ∷ 2 ∷ 3 ∷ 4 ∷ 5 ∷ 6 ∷ 7 ∷ 8 ∷ 9 ∷ 10 ∷ 11 ∷ 12 ∷ 13 ∷ 14 ∷ 15 ∷ 16 ∷ 17 ∷ 18 ∷ 19 ∷ 20 ∷ 21
    ∷ 22 ∷ 23 ∷ 24 ∷ 25 ∷ 26 ∷ 27 ∷ 28 ∷ 29 ∷ 30 ∷ 31 ∷ 32 ∷ []

abbrev router : PeerRegistry
unfolding with_all
router = record (with_all [] [] [] "orr_2" 2 tofu) {
  pubkeys = ("orr_1", 5 ∷ []) ∷ [];
  bootstrap_secrets = ("orr_1", 9 ∷ []) ∷ [];
  ephemeral_sks = ("orr_1", (1, 7 ∷ []) ∷ []) ∷ [];
  grpc_addrs = ("orr_1", "http://orr_1") ∷ [];
}

abbrev busy : PeerRegistry
busy = record router { rebootstrap_inflight = ("orr_1", true) ∷ [] }

taken_flag : is_busy "orr_1" busy ≡ true
unfolding is_busy or_false lookup
taken_flag = refl

free_flag : is_busy "orr_1" router ≡ false
unfolding is_busy or_false lookup router
free_flag = refl

abbrev rotate : PeerRegistry → PeerRegistry × Outcome RotationError ℕ
rotate p = (p, ok 2)

abbrev again : PeerRegistry → PeerRegistry × Bool
again p = (p, true)

busy_kept_example :
    (round "orr_1" 3 again rotate busy 500 ≡ (busy, wait, 500))
    × ((establish_round "orr_1" (λ p. p) (ok new_secret) busy 500).0 ≡ busy)
    × (trigger_passive_rebootstrap "orr_1" busy 7000 ≡ (busy, none))
busy_kept_example =
    busy_kept "orr_1" 3 again rotate (λ p. p) (ok new_secret) busy 500 7000 taken_flag

abbrev failing : Bytes → Outcome BootstrapError Bytes
failing pk = err unreachable

flag_released_example :
    (((round "orr_1" 3 again rotate router 500).1 ≡ Next.died)
      ⊎ (is_busy "orr_1" (round "orr_1" 3 again rotate router 500).0 ≡ false))
    × (((establish_round "orr_1" (λ p. p) (ok new_secret) router 500).1 ≡ Turn.died)
        ⊎ (is_busy "orr_1" (establish_round "orr_1" (λ p. p) (ok new_secret) router 500).0 ≡ false))
    × (is_busy "orr_1"
          (passive_rebootstrap "orr_1" (λ p. p) failing router 70 (5 ∷ []) (ok (6 ∷ [])))
        ≡ false)
flag_released_example =
    flag_released "orr_1" 3 again rotate (λ p. p) (ok new_secret) failing router 500 70 (5 ∷ [])
      (ok (6 ∷ [])) free_flag (λ h. cc) (λ fresh h. cc)

begins_task : (trigger_passive_rebootstrap "orr_1" router 70).1 ≡ some (5 ∷ [])
unfolding trigger_passive_rebootstrap marked cleared is_held grpc_addr should_attempt_rebootstrap
    try_mark_rebootstrap_inflight or_false public_key lookup router
begins_task = refl

-- The first attempt failed at the time 70.
abbrev failed_once : PeerRegistry
failed_once = record router { rebootstrap_last_failure = ("orr_1", 70) ∷ [] }

fails : failing (6 ∷ []) ≡ err unreachable
fails = refl

next_attempt_iff_example :
    let refused =
      passive_rebootstrap "orr_1" (λ p. p) failing failed_once 80 (5 ∷ []) (err unreachable) in
    let failed =
      passive_rebootstrap "orr_1" (λ p. p) failing failed_once 80 (5 ∷ []) (ok (6 ∷ [])) in
    let q = refreshed "orr_1" failed_once (5 ∷ []) (6 ∷ []) in
    (((trigger_passive_rebootstrap "orr_1" refused 5070).1 ≡ some (5 ∷ [])) ↔ (
      IsReady "orr_1" failed_once (5 ∷ [])
      × IsLongAgo "orr_1" (lookup "orr_1" failed_once.rebootstrap_last_failure) 5070))
    × (((trigger_passive_rebootstrap "orr_1" failed 5070).1 ≡ some (5 ∷ []))
        ↔ (IsReady "orr_1" q (5 ∷ []) × (80 + 5000 ≤ 5070)))
next_attempt_iff_example =
    next_attempt_iff "orr_1" (λ p. p) failing failed_once 80 5070 (5 ∷ []) (6 ∷ []) (5 ∷ [])
      unreachable unreachable fails

abbrev environment : Environment
environment = record {
  hmac = λ k m. k;
  is_same = λ x y. true;
  to_lowercase = λ x. x;
  as_bytes = λ x. 1 ∷ [];
  has_suite = true;
  keygen = λ draw. some (draw ∷ [], draw ∷ []);
  encap = λ draw pk. some (draw ∷ pk, new_secret);
  decap = λ sk ct. some new_secret;
}

abbrev message : SecretRequest
message = record {
  from = some "orr_1";
  peer = some "orr_2";
  epoch_id = 1;
  ciphertext = 6 ∷ [];
  mac = [];
}

abbrev second_key : KeyRequest
second_key = record { from = some "orr_1"; peer = some "orr_2"; epoch_id = 2; mac = [] }

accepted : (handle_establish_ephemeral_secret environment router "orr_2" 3 message).1 ≡ ok tt
unfolding handle_establish_ephemeral_secret lower_id checked_secret authorised or_err refuse_mac
    verify_mac_fin verify_slice establish install take_ephemeral_sk taken bootstrap_for lookup
    router
accepted = refl

others : AreOther environment "orr_2" 3 "orr_1" 1 (key 8 second_key ∷ secret message ∷ [])
unfolding AreOther
others = (inr (λ h. absurd (omega (arith, h))), tt)

secret_once_example :
    (handle_establish_ephemeral_secret environment
      (after_calls environment "orr_2" 3
        (after_call environment "orr_2" 3 router (secret message))
        (key 8 second_key ∷ secret message ∷ []))
      "orr_2"
      3
      message).1
    ≢ ok tt
unfolding lower_id
secret_once_example =
    secret_once environment "orr_2" 3 router message message
      (key 8 second_key ∷ secret message ∷ []) accepted others refl refl
