-- ===== src/Qkc/Handshake/Agree.antt =====
-- On the secrets that the two ends of a link have from the handshake of qkc/src/pqc_handshake.rs.
use dkms.Prelude.{
  List, ℕ, ◌+◌, ◌^◌, ◌<◌, ◌≤◌, ◌≡◌, refl, subst, sym, Bool, true, false, Option, none, some, [],
  ◌∷◌, ◌++◌, arith, length, All,
}
use dkms.Prelude.Assoc.{Assoc, nat_keys, lookup, insert, lookup-insert_self}
use dkms.Prelude.Bytes.{Bytes, same_bytes_iff}
use dkms.Prelude.Epochs.Lookup.{lookup-evict_highest}
use dkms.Wire.Frame.{Frame}
use dkms.Qkc.SecretStore.{SecretStore, get, contains, insert as insert_secret}
use dkms.Qkc.Handshake.{
  HsMsg, init, resp, hmac, PqcHandshake, Crypto, max_resync_jump, publish_inner,
}
use dkms.Qkc.Handshake.Messages.{handshake_frame, accept, send_handshake}
use dkms.Qkc.Handshake.Accept.{AreLinked, accept-handshake_frame}
use dkms.Qkc.Handshake.Handlers.{
  respond, encapsulate, init_cached, init_accepted, handle_init, decapsulated, resp_pending,
  resp_accepted, handle_resp, resync_base, next_own, saturating_add,
}

-- The epoch is a new one for the store, above those that it holds.
pub record IsNew (s : SecretStore) (epoch : ℕ) : Type 0 where
  pub missing : contains s epoch ≡ false
  pub above : All (λ (x : ℕ × Bytes). x.0 < epoch) s.inner
  pub room : 0 < s.keep

get-insert_new :
    (s : SecretStore) (epoch : ℕ) (ss : Bytes)
    → IsNew s epoch
    → get (insert_secret s epoch ss) epoch ≡ some ss
unfolding get insert_secret
get-insert_new s epoch ss n =
    rw n.missing (lookup-evict_highest epoch s.keep ss s.inner n.room n.above)

-- What a link publishes of a secret of 32 bytes.
abbrev published : PqcHandshake → ℕ → Bytes → PqcHandshake
published p epoch ss = record p { store = insert_secret p.store epoch ss }

publish_lem :
    (p : PqcHandshake) (epoch : ℕ) (ss : Bytes)
    → length ss ≡ 32
    → publish_inner p epoch ss false ≡ published p epoch ss
unfolding publish_inner
publish_lem p epoch ss h = rw h

module _ (crypto : Crypto) where
  -- What the responder is with a new epoch, before it answers.
  abbrev answering : PqcHandshake → ℕ → (pk ct ss : Bytes) → PqcHandshake
  answering r epoch pk ct ss = record (published r epoch ss) {
    resp_cache = insert epoch (pk, ct) r.resp_cache;
  }

  init_lem :
      (r : PqcHandshake) (draw epoch : ℕ) (pk ct ss payload : Bytes) (takes : Bool)
      → crypto.has_suite ≡ true
      → crypto.encap draw pk ≡ some (ct, ss)
      → length ss ≡ 32
      → accept crypto r init payload hmac ≡ some (epoch, pk)
      → lookup epoch r.resp_cache ≡ none
      → handle_init crypto r takes draw payload hmac
        ≡ send_handshake crypto (answering r epoch pk ct ss) takes resp epoch ct
  unfolding handle_init init_accepted init_cached encapsulate respond
  init_lem r draw epoch pk ct ss payload takes suite enc size acc cache =
      rw acc (rw cache (rw suite (rw enc (rw (publish_lem r epoch ss size)))))

  resp_lem :
      (i : PqcHandshake) (epoch : ℕ) (sk ct ss payload : Bytes)
      → crypto.has_suite ≡ true
      → crypto.decap sk ct ≡ some ss
      → length ss ≡ 32
      → accept crypto i resp payload hmac ≡ some (epoch, ct)
      → contains i.store epoch ≡ false
      → lookup epoch i.pending_sk ≡ some sk
      → handle_resp crypto i payload hmac ≡ published i epoch ss
  unfolding handle_resp resp_accepted resp_pending decapsulated
  resp_lem i epoch sk ct ss payload suite dec size acc missing pending =
      rw acc (rw missing (rw pending (rw suite (rw dec (publish_lem i epoch ss size)))))

  -- What the handlers change of a handshake.
  abbrev resumed :
      PqcHandshake → List Frame → SecretStore → ℕ → Assoc ℕ (Bytes × Bytes) → PqcHandshake
  resumed p out store drops cache = record p {
    peer_out = out;
    store = store;
    handshake_drops = drops;
    resp_cache = cache;
  }

  linked_sender :
      (p q : PqcHandshake) (psk : Bytes) (out : List Frame) (store : SecretStore) (drops : ℕ)
      (cache : Assoc ℕ (Bytes × Bytes))
      → AreLinked crypto p q psk
      → AreLinked crypto (resumed p out store drops cache) q psk
  linked_sender p q psk out store drops cache l = record {
    sender = l.sender;
    receiver = l.receiver;
    suite = l.suite;
    bits = l.bits;
    own_psk = l.own_psk;
    peer_psk = l.peer_psk;
    policy = l.policy;
    tag_size = l.tag_size;
    tag_same = l.tag_same;
  }

  linked_receiver :
      (p q : PqcHandshake) (psk : Bytes) (out : List Frame) (store : SecretStore) (drops : ℕ)
      (cache : Assoc ℕ (Bytes × Bytes))
      → AreLinked crypto p q psk
      → AreLinked crypto p (resumed q out store drops cache) psk
  linked_receiver p q psk out store drops cache l = record {
    sender = l.sender;
    receiver = l.receiver;
    suite = l.suite;
    bits = l.bits;
    own_psk = l.own_psk;
    peer_psk = l.peer_psk;
    policy = l.policy;
    tag_size = l.tag_size;
    tag_same = l.tag_same;
  }

  -- Two ends with the same PSK, suite and size of a key, which authenticate with an HMAC of 32
  -- bytes, where the initiator has a key pair for the epoch whose KEM gives both ends a secret of
  -- 32 bytes, and the epoch is above those that either holds and was not answered before: the
  -- responder takes the INIT and sends one frame, the initiator takes that frame, and then both
  -- hold the same secret for the epoch.
  pub handshake_agrees :
      (i r : PqcHandshake) (psk : Bytes) (draw epoch : ℕ) (pk sk ct ss : Bytes)
      → AreLinked crypto i r psk
      → AreLinked crypto r i psk
      → crypto.has_suite ≡ true
      → crypto.encap draw pk ≡ some (ct, ss)
      → crypto.decap sk ct ≡ some ss
      → length ss ≡ 32
      → epoch < 2 ^ 32
      → lookup epoch i.pending_sk ≡ some sk
      → lookup epoch r.resp_cache ≡ none
      → IsNew i.store epoch
      → IsNew r.store epoch
      → let after =
          handle_init crypto r true draw (handshake_frame crypto i init epoch pk).payload hmac in
        (f : Frame) × (after.peer_out ≡ r.peer_out ++ (f ∷ []))
        × (get after.store epoch ≡ some ss)
        × (get (handle_resp crypto i f.payload hmac).store epoch ≡ some ss)
  unfolding send_handshake
  handshake_agrees i r psk draw epoch pk sk ct ss l k suite enc dec size bound pending cache ni nr =
      let q = answering r epoch pk ct ss in
      let f = handshake_frame crypto q resp epoch ct in
      let taken =
        init_lem r draw epoch pk ct ss (handshake_frame crypto i init epoch pk).payload true suite
          enc size (accept-handshake_frame crypto i r psk l init epoch pk bound) cache in
      let answered =
        resp_lem i epoch sk ct ss f.payload suite dec size
          (accept-handshake_frame crypto q i psk
            (linked_sender r i psk q.peer_out q.store q.handshake_drops q.resp_cache k) resp epoch
            ct bound)
          ni.missing pending in
      (
        f,
        rw taken,
        rw taken (get-insert_new r.store epoch ss nr),
        rw answered (get-insert_new i.store epoch ss ni),
      )

  again_lem :
      (q : PqcHandshake) (again epoch : ℕ) (pk ct payload : Bytes)
      → accept crypto q init payload hmac ≡ some (epoch, pk)
      → lookup epoch q.resp_cache ≡ some (pk, ct)
      → handle_init crypto q true again payload hmac ≡ send_handshake crypto q true resp epoch ct
  unfolding handle_init init_accepted init_cached
  again_lem q again epoch pk ct payload acc cache =
      rw acc (rw cache (rw ((same_bytes_iff pk pk).1 refl)))

  resp_cache-send :
      (q : PqcHandshake) (takes : Bool) (msg : HsMsg) (epoch : ℕ) (blob : Bytes)
      → (send_handshake crypto q takes msg epoch blob).resp_cache ≡ q.resp_cache
  unfolding send_handshake
  resp_cache-send q true msg epoch blob = refl
  resp_cache-send q false msg epoch blob = refl

  linked_sent :
      (i q : PqcHandshake) (psk : Bytes) (takes : Bool) (msg : HsMsg) (epoch : ℕ) (blob : Bytes)
      → AreLinked crypto i q psk
      → AreLinked crypto i (send_handshake crypto q takes msg epoch blob) psk
  unfolding send_handshake
  linked_sent i q psk true msg epoch blob l =
      let f = handshake_frame crypto q msg epoch blob in
      linked_receiver i q psk (q.peer_out ++ (f ∷ [])) q.store q.handshake_drops q.resp_cache l
  linked_sent i q psk false msg epoch blob l =
      linked_receiver i q psk q.peer_out q.store (q.handshake_drops + 1) q.resp_cache l

  -- Where the responder takes an INIT of a linked end for an epoch that it has not answered
  -- before, and the encapsulation gives a secret of 32 bytes, the same INIT that comes again is
  -- answered with the ciphertext of the first answer, whether that was sent or not, and nothing
  -- else changes: the secrets stay as they are.
  pub init_again :
      (i r : PqcHandshake) (psk : Bytes) (takes : Bool) (draw again epoch : ℕ) (pk ct ss : Bytes)
      → AreLinked crypto i r psk
      → crypto.has_suite ≡ true
      → crypto.encap draw pk ≡ some (ct, ss)
      → length ss ≡ 32
      → epoch < 2 ^ 32
      → lookup epoch r.resp_cache ≡ none
      → let payload = (handshake_frame crypto i init epoch pk).payload in
        let after = handle_init crypto r takes draw payload hmac in
        handle_init crypto after true again payload hmac ≡ record after {
          peer_out = after.peer_out ++ (handshake_frame crypto after resp epoch ct ∷ []);
        }
  unfolding send_handshake
  init_again i r psk takes draw again epoch pk ct ss l suite enc size bound cache =
      let payload = (handshake_frame crypto i init epoch pk).payload in
      let taken =
        init_lem r draw epoch pk ct ss payload takes suite enc size
          (accept-handshake_frame crypto i r psk l init epoch pk bound) cache in
      let q = answering r epoch pk ct ss in
      let after = handle_init crypto r takes draw payload hmac in
      let held : lookup epoch after.resp_cache ≡ some (pk, ct) =
        rw (taken, resp_cache-send q takes resp epoch ct)
          (lookup-insert_self epoch (pk, ct) r.resp_cache) in
      let linked : AreLinked crypto i after psk =
        subst (λ z. AreLinked crypto i z psk) (sym taken)
          (linked_sent i q psk takes resp epoch ct
            (linked_receiver i r psk q.peer_out q.store q.handshake_drops q.resp_cache l)) in
      again_lem after again epoch pk ct payload
        (accept-handshake_frame crypto i after psk linked init epoch pk bound) held

-- The first epoch of a new round is above those that are held, and at most max_resync_jump above the
-- next one, whatever epoch the peer names; the round reaches as far as lookahead beyond it, where the
-- epochs are not at their end.
pub resync_base_lem :
    (highest : Option ℕ) (peer_epoch lookahead : ℕ)
    → next_own highest + max_resync_jump + lookahead < 2 ^ 32
    → let (base, aim) = resync_base highest peer_epoch lookahead in
      (next_own highest ≤ base)
      × (base ≤ next_own highest + max_resync_jump)
      × (aim ≡ base + lookahead)
unfolding resync_base saturating_add
resync_base_lem highest peer_epoch lookahead h = (ground arith, ground arith, ground arith)
