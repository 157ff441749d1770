-- ===== src/Orr/Bootstrap/Trust.antt =====
-- On the public keys that a router takes, by orr/src/bootstrap.rs.
use dkms.Prelude.{
  ◌≡◌, ◌≢◌, ◌↔◌, ◌⊎◌, refl, Bool, true, false, not, ◌&&◌, ◌||◌, String, Option, none, some, List,
  [], ◌∷◌, inl, inr, Option-cases, Bool-cases, choose, if◌then◌else◌,
}
use dkms.Prelude.Assoc.{string_keys, lookup, ◌==◌}
use dkms.Prelude.Bytes.{Bytes, same_bytes}
use dkms.Prelude.Outcome.{Outcome, ok, ◌>>◌, refuse_if}
use dkms.Orr.Peers.{PeerRegistry, BootstrapTrust, tofu, strict}
use dkms.Orr.Peers.Verdicts.{
  SigVerdict, cert_bound, valid, no_key, unsigned, PubkeyVerdict, accept, Announcement, signed_by,
  unchecked, verify_chain, verify_configured, verify_by, verify_announcement, verdict_of_pin,
  verify_fetched_pubkey, IsAuthentic, verify_announcement_iff,
}
use dkms.Orr.Rotation.{Environment}
use dkms.Orr.Bootstrap.{
  EstablishRequest, EstablishRefusal, other_id, rejected_announcement, Fetched, reports_other,
  is_signed, is_refused, is_unpinned, is_adopted, fresh_pubkey,
}

module _ (verify_node_cert : List Bytes → Bytes → String → Option Bytes)
    (verify_orr_pubkey : Bytes → String → String → Bytes → Bytes → Bool) (env : Environment)
    (peer_id : String) where
  -- The verdict is not one that leaves the key to its pin.
  abbrev IsSettled : SigVerdict → Type 0
  IsSettled v = (is_signed v || is_refused v) ≡ true

  chain-IsSettled :
      (roots : Option Bytes) (a : Announcement)
      → IsSettled (verify_chain verify_node_cert verify_orr_pubkey strict roots peer_id a)
  unfolding verify_chain unchecked signed_by is_signed is_refused
  chain-IsSettled none a = refl
  chain-IsSettled (some roots) a =
      elim (Option-cases (verify_node_cert a.signing_certs roots peer_id)) [
        | inl n ↦ rw (verify_chain, n) refl
        | inr (vk, v) ↦
            rw (verify_chain, v)
              (choose (verify_orr_pubkey vk peer_id a.suite a.public_key a.signature) IsSettled
                (λ _. refl) (λ _. refl))
      ]

  configured-IsSettled :
      (o : Option Bytes) (a : Announcement) (signature : Bytes)
      → IsSettled
          (verify_configured verify_node_cert verify_orr_pubkey strict o peer_id a signature)
  unfolding verify_configured unchecked signed_by is_signed is_refused
  configured-IsSettled none a signature = refl
  configured-IsSettled (some vk) a [] = refl
  configured-IsSettled (some vk) a (b ∷ bs) =
      choose (verify_orr_pubkey vk peer_id a.suite a.public_key a.signature) IsSettled (λ _. refl)
        (λ _. refl)

  by-IsSettled :
      (p : PeerRegistry) (a : Announcement) (certs : List Bytes)
      → p.bootstrap_trust ≡ strict
      → IsSettled (verify_by verify_node_cert verify_orr_pubkey p peer_id a certs)
  unfolding verify_by
  by-IsSettled p a [] t =
      rw t (configured-IsSettled (lookup peer_id p.peer_verify_keys) a a.signature)
  by-IsSettled p a (c ∷ cs) t = rw t (chain-IsSettled p.trust_roots a)

  pinned_tofu :
      (pin : Option Bytes) (fetched : Bytes) → is_unpinned (verdict_of_pin tofu pin fetched) ≡ false
  unfolding verdict_of_pin is_unpinned
  pinned_tofu none fetched = refl
  pinned_tofu (some p) fetched =
      choose (same_bytes p fetched) (λ v. is_unpinned v ≡ false) (λ _. refl) (λ _. refl)

  settled_pin :
      (v : SigVerdict) (w : PubkeyVerdict)
      → IsSettled v
      → is_refused v ≡ false
      → is_unpinned (if is_signed v then accept else w) ≡ false
  unfolding is_signed is_refused is_unpinned
  settled_pin cert_bound w s r = refl
  settled_pin valid w s r = refl
  settled_pin no_key w s r = cc
  settled_pin unsigned w s r = cc
  settled_pin SigVerdict.reject w s r = cc

  -- The pin decides nothing, with either policy.
  unpinned :
      (p : PeerRegistry) (trust : BootstrapTrust) (a : Announcement)
      → p.bootstrap_trust ≡ trust
      → is_refused (verify_announcement verify_node_cert verify_orr_pubkey p peer_id a) ≡ false
      → is_unpinned (
          if is_signed (verify_announcement verify_node_cert verify_orr_pubkey p peer_id a)
          then accept
          else verify_fetched_pubkey p peer_id a.public_key)
        ≡ false
  unfolding verify_fetched_pubkey verify_announcement is_unpinned
  unpinned p tofu a t r =
      choose (is_signed (verify_announcement verify_node_cert verify_orr_pubkey p peer_id a))
        (λ w. is_unpinned w ≡ false) (λ _. refl)
        (λ _. rw t (pinned_tofu (lookup peer_id p.pinned_pubkeys) a.public_key))
  unpinned p strict a t r =
      settled_pin (verify_announcement verify_node_cert verify_orr_pubkey p peer_id a)
        (verify_fetched_pubkey p peer_id a.public_key) (by-IsSettled p a a.signing_certs t) r

  adopted_lem :
      (p : PeerRegistry) (f : Fetched)
      → is_adopted verify_node_cert verify_orr_pubkey env peer_id p f ≡ (
          if reports_other verify_node_cert verify_orr_pubkey env peer_id f
          then false
          else not (
              is_refused
                (verify_announcement verify_node_cert verify_orr_pubkey p peer_id f.announced)))
  unfolding is_adopted
  adopted_lem p f =
      elim (Bool-cases (
        is_refused
          (verify_announcement verify_node_cert verify_orr_pubkey p peer_id f.announced))) [
            | inl e ↦ rw e refl
            | inr e ↦ rw (e, unpinned p p.bootstrap_trust f.announced refl e) refl
          ]

  refused_iff : (v : SigVerdict) → (is_refused v ≡ false) ↔ (v ≢ SigVerdict.reject)
  unfolding is_refused
  refused_iff cert_bound = (λ h e. cc, λ h. refl)
  refused_iff valid = (λ h e. cc, λ h. refl)
  refused_iff no_key = (λ h e. cc, λ h. refl)
  refused_iff unsigned = (λ h e. cc, λ h. refl)
  refused_iff SigVerdict.reject = (λ h. cc, λ h. absurd (h refl))

  kept_iff :
      (other refused : Bool)
      → ((if other then false else not refused) ≡ true) ↔ ((other ≡ false) × (refused ≡ false))
  kept_iff true refused = (λ h. cc, λ h. cc)
  kept_iff false true = (λ h. cc, λ h. cc)
  kept_iff false false = (λ h. (refl, refl), λ h. refl)

  fresh_iff :
      (other refused : Bool) (pk : Bytes)
      → ((if other then false else not refused) ≡ true)
        ↔ ((refuse_if other other_id >> (refuse_if refused rejected_announcement >> ok pk)) ≡ ok pk)
  fresh_iff true refused pk = (λ h. cc, λ h. cc)
  fresh_iff false true pk = (λ h. cc, λ h. cc)
  fresh_iff false false pk = (λ h. refl, λ h. refl)

  -- The peer gives itself no name, or that of the peer that was asked, whatever the case of its
  -- letters.
  abbrev pub IsOwnName : String → Type 0
  IsOwnName reported = (env.to_lowercase reported ≡ "") ⊎ (env.to_lowercase reported ≡ peer_id)

  either_iff : (a b : Bool) → ((not a && not b) ≡ false) ↔ ((a ≡ true) ⊎ (b ≡ true))
  either_iff true b = (λ h. inl refl, λ h. refl)
  either_iff false true = (λ h. inr refl, λ h. refl)
  either_iff false false = (λ h. cc, λ h. elim h [ inl e ↦ cc | inr e ↦ cc ])

  reports_other-IsOwnName :
      (f : Fetched)
      → (reports_other verify_node_cert verify_orr_pubkey env peer_id f ≡ false)
        ↔ IsOwnName f.reported
  unfolding reports_other
  reports_other-IsOwnName f =
      let reported = env.to_lowercase f.reported in
      let no_name = string_keys.agrees reported "" in
      let own_name = string_keys.agrees reported peer_id in
      let either = either_iff (reported == "") (reported == peer_id) in
      (
        λ h. elim (either.0 h) [ inl e ↦ inl (no_name.0 e) | inr e ↦ inr (own_name.0 e) ],
        λ h. either.1 (elim h [ inl e ↦ inl (no_name.1 e) | inr e ↦ inr (own_name.1 e) ]),
      )

  -- With the strict policy the first fetch keeps exactly the keys of authentic announcements from
  -- peers that give themselves no other name: none, or in lower case that which was asked for.
  pub adopted_iff_IsAuthentic :
      (p : PeerRegistry) (f : Fetched)
      → p.bootstrap_trust ≡ strict
      → (is_adopted verify_node_cert verify_orr_pubkey env peer_id p f ≡ true) ↔ (
          IsOwnName f.reported
          × IsAuthentic verify_node_cert verify_orr_pubkey p peer_id f.announced)
  adopted_iff_IsAuthentic p f t =
      let sig = verify_announcement verify_node_cert verify_orr_pubkey p peer_id f.announced in
      let authentic =
        verify_announcement_iff verify_node_cert verify_orr_pubkey p peer_id f.announced t in
      let kept =
        kept_iff (reports_other verify_node_cert verify_orr_pubkey env peer_id f)
          (is_refused sig) in
      rw (adopted_lem p f) (
        λ h. (
          (reports_other-IsOwnName f).0 (kept.0 h).0,
          authentic.0 ((refused_iff sig).0 (kept.0 h).1),
        ),
        λ h. kept.1 ((reports_other-IsOwnName f).1 h.0, (refused_iff sig).1 (authentic.1 h.1)),
      )

  module _ (local_orr_id : String)
      (on_establish : EstablishRequest → Option (Outcome EstablishRefusal (Unit {0}))) where
    -- The first fetch and a bootstrap anew keep the same keys, with either policy: the pin of a peer
    -- never decides.
    pub adopted_iff_fresh :
        (p : PeerRegistry) (f : Fetched)
        → (is_adopted verify_node_cert verify_orr_pubkey env peer_id p f ≡ true) ↔ (
            fresh_pubkey verify_node_cert verify_orr_pubkey env peer_id local_orr_id on_establish p
              (some f)
            ≡ ok f.announced.public_key)
    unfolding fresh_pubkey
    adopted_iff_fresh p f =
        let other = reports_other verify_node_cert verify_orr_pubkey env peer_id f in
        let refused =
          is_refused
            (verify_announcement verify_node_cert verify_orr_pubkey p peer_id f.announced) in
        rw (adopted_lem p f) (fresh_iff other refused f.announced.public_key)
