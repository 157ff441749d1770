-- ===== src/Orr/Peers/Verdicts.antt =====
-- orr/src/peers.rs: the verdicts on the public key that a peer announces. The check of a chain of
-- certificates against the roots and that of a signature are parameters.
use dkms.Prelude.{
  ℕ, Bool, true, String, Option, none, some, List, [], ◌∷◌, if◌then◌else◌, ◌≡◌, ◌≢◌, ◌↔◌, refl,
  subst, sym, inl, inr, Option-cases, Bool-cases,
}
use dkms.Prelude.Assoc.{string_keys, lookup}
use dkms.Prelude.Bytes.{Bytes, same_bytes}
use dkms.Orr.Peers.{PeerRegistry, BootstrapTrust, tofu, strict}

pub data SigVerdict : Type 0 where
  cert_bound valid no_key unsigned reject : SigVerdict

pub data PubkeyVerdict : Type 0 where
  accept accept_pin_mismatch reject : PubkeyVerdict

unfoldable pub verdict_of_pin : BootstrapTrust → Option Bytes → Bytes → PubkeyVerdict
verdict_of_pin strict none fetched = PubkeyVerdict.reject
verdict_of_pin strict (some p) fetched =
    if same_bytes p fetched then accept else PubkeyVerdict.reject
verdict_of_pin tofu none fetched = accept
verdict_of_pin tofu (some p) fetched = if same_bytes p fetched then accept else accept_pin_mismatch

unfoldable pub verify_fetched_pubkey : PeerRegistry → String → Bytes → PubkeyVerdict
unfolding verdict_of_pin
verify_fetched_pubkey p orr_id fetched =
    verdict_of_pin p.bootstrap_trust (lookup orr_id p.pinned_pubkeys) fetched

-- The verdict on an announcement that cannot be checked.
unfoldable pub unchecked : BootstrapTrust → SigVerdict → SigVerdict
unchecked strict v = SigVerdict.reject
unchecked tofu v = v

pub record Announcement : Type 0 where
  pub suite : String
  pub public_key : Bytes
  pub signature : Bytes
  pub signing_certs : List Bytes

module _ (verify_node_cert : List Bytes → Bytes → String → Option Bytes)
    (verify_orr_pubkey : Bytes → String → String → Bytes → Bytes → Bool) where
  unfoldable pub signed_by : Bytes → String → Announcement → SigVerdict → SigVerdict
  signed_by vk orr_id a v =
      if verify_orr_pubkey vk orr_id a.suite a.public_key a.signature then v else SigVerdict.reject

  unfoldable pub verify_chain : BootstrapTrust → Option Bytes → String → Announcement → SigVerdict
  unfolding signed_by unchecked
  verify_chain trust none orr_id a = unchecked trust unsigned
  verify_chain trust (some roots) orr_id a = elim (verify_node_cert a.signing_certs roots orr_id) [
    | none ↦ SigVerdict.reject
    | some vk ↦ signed_by vk orr_id a cert_bound
  ]

  -- By the key that is configured for the peer.
  unfoldable pub verify_configured :
      BootstrapTrust → Option Bytes → String → Announcement → Bytes → SigVerdict
  unfolding signed_by unchecked
  verify_configured trust none orr_id a signature = unchecked trust no_key
  verify_configured trust (some vk) orr_id a [] = unchecked trust unsigned
  verify_configured trust (some vk) orr_id a (b ∷ bs) = signed_by vk orr_id a valid

  unfoldable pub verify_by : PeerRegistry → String → Announcement → List Bytes → SigVerdict
  unfolding verify_chain verify_configured
  verify_by p orr_id a [] =
      verify_configured p.bootstrap_trust (lookup orr_id p.peer_verify_keys) orr_id a a.signature
  verify_by p orr_id a (c ∷ cs) = verify_chain p.bootstrap_trust p.trust_roots orr_id a

  unfoldable pub verify_announcement : PeerRegistry → String → Announcement → SigVerdict
  unfolding verify_by
  verify_announcement p orr_id a = verify_by p orr_id a a.signing_certs

  -- The announcement is signed by the key of a certificate that leads to the roots, or, where it
  -- brings no certificate, by the key that is configured for the peer.
  pub data IsAuthentic (p : PeerRegistry) (orr_id : String) (a : Announcement) : Type 0 where
    certified :
        (c : Bytes) (cs : List Bytes) (roots vk : Bytes)
        → a.signing_certs ≡ c ∷ cs
        → p.trust_roots ≡ some roots
        → verify_node_cert a.signing_certs roots orr_id ≡ some vk
        → verify_orr_pubkey vk orr_id a.suite a.public_key a.signature ≡ true
        → IsAuthentic p orr_id a
    configured :
        (b : ℕ) (bs vk : Bytes)
        → a.signing_certs ≡ []
        → a.signature ≡ b ∷ bs
        → lookup orr_id p.peer_verify_keys ≡ some vk
        → verify_orr_pubkey vk orr_id a.suite a.public_key a.signature ≡ true
        → IsAuthentic p orr_id a

  module _ (p : PeerRegistry) (orr_id : String) (a : Announcement) where
    by_certificate :
        (c : Bytes) (cs : List Bytes) (o : Option Bytes)
        → a.signing_certs ≡ c ∷ cs
        → p.trust_roots ≡ o
        → verify_chain strict o orr_id a ≢ SigVerdict.reject
        → IsAuthentic p orr_id a
    unfolding verify_chain
    by_certificate c cs none e r h = absurd (h refl)
    by_certificate c cs (some roots) e r h =
        elim (Option-cases (verify_node_cert a.signing_certs roots orr_id)) [
          | inl n ↦ absurd (h (rw (verify_chain, n)))
          | inr (vk, v) ↦
              elim (Bool-cases (verify_orr_pubkey vk orr_id a.suite a.public_key a.signature)) [
                | inl y ↦ certified c cs roots vk e r v y
                | inr n ↦ absurd (h (rw (verify_chain, v, n)))
              ]
        ]

    by_key :
        (o : Option Bytes) (signature : Bytes)
        → a.signing_certs ≡ []
        → lookup orr_id p.peer_verify_keys ≡ o
        → a.signature ≡ signature
        → verify_configured strict o orr_id a signature ≢ SigVerdict.reject
        → IsAuthentic p orr_id a
    unfolding verify_configured
    by_key none signature e k g h = absurd (h refl)
    by_key (some vk) [] e k g h = absurd (h refl)
    by_key (some vk) (b ∷ bs) e k g h =
        elim (Bool-cases (verify_orr_pubkey vk orr_id a.suite a.public_key a.signature)) [
          | inl y ↦ configured b bs vk e g k y
          | inr n ↦ absurd (h (rw n))
        ]

    taken_strict :
        (certs : List Bytes)
        → a.signing_certs ≡ certs
        → p.bootstrap_trust ≡ strict
        → verify_by p orr_id a certs ≢ SigVerdict.reject
        → IsAuthentic p orr_id a
    unfolding verify_by
    taken_strict [] e t h = by_key _ _ e refl refl (rw t at h)
    taken_strict (c ∷ cs) e t h = by_certificate c cs _ e refl (rw t at h)

    authentic_taken : IsAuthentic p orr_id a → verify_announcement p orr_id a ≢ SigVerdict.reject
    unfolding verify_announcement verify_by verify_configured
    authentic_taken (certified c cs roots vk e r v y) =
        subst (λ certs. verify_by p orr_id a certs ≢ SigVerdict.reject) (sym e)
          (rw (r, verify_chain, v, y) (λ h. cc))
    authentic_taken (configured b bs vk e g k y) =
        subst (λ certs. verify_by p orr_id a certs ≢ SigVerdict.reject) (sym e)
          (rw k (
            subst
              (λ sig.
                verify_configured p.bootstrap_trust (some vk) orr_id a sig ≢ SigVerdict.reject)
              (sym g) (rw y (λ h. cc))))

  -- With the strict policy an announcement is taken exactly where it is authentic.
  pub verify_announcement_iff :
      (p : PeerRegistry) (orr_id : String) (a : Announcement)
      → p.bootstrap_trust ≡ strict
      → (verify_announcement p orr_id a ≢ SigVerdict.reject) ↔ IsAuthentic p orr_id a
  unfolding verify_announcement
  verify_announcement_iff p orr_id a t =
      (λ h. taken_strict p orr_id a a.signing_certs refl t h, authentic_taken p orr_id a)
