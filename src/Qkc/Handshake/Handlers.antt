-- ===== src/Qkc/Handshake/Handlers.antt =====
-- qkc/src/pqc_handshake.rs: the handlers of its messages, and the steps of `establish`.
use dkms.Prelude.{ℕ, ◌+◌, ◌-◌, Bool, true, false, Option, none, some, max, min, ◌^◌, if◌then◌else◌}
use dkms.Prelude.Assoc.{nat_keys, lookup, insert, remove}
use dkms.Prelude.Bytes.{Bytes, same_bytes}
use dkms.Qkc.Handshake.{
  init, resp, resync_req, RecvAuth, PqcHandshake, Crypto, max_resync_jump, is_some, is_initiator,
  publish_inner,
}
use dkms.Qkc.SecretStore.{contains, request_resync}
use dkms.Qkc.Handshake.Messages.{accept, send_handshake}

module _ (crypto : Crypto) where
  -- The secret is kept and the ciphertext is sent, which is cached with the key.
  unfoldable pub respond :
      PqcHandshake
      → (takes : Bool) → (epoch : ℕ) → Bytes
      → (replaces : Bool) → Option (Bytes × Bytes)
      → PqcHandshake
  unfolding publish_inner send_handshake
  respond p takes epoch pubkey replaces none = p
  respond p takes epoch pubkey replaces (some (ct, ss)) =
      let q = publish_inner p epoch ss replaces in
      send_handshake crypto (record q { resp_cache = insert epoch (pubkey, ct) q.resp_cache }) takes
        resp epoch ct

  unfoldable pub encapsulate :
      PqcHandshake → (takes : Bool) → (draw epoch : ℕ) → Bytes → (replaces : Bool) → PqcHandshake
  unfolding respond
  encapsulate p takes draw epoch pubkey replaces =
      if crypto.has_suite
      then respond p takes epoch pubkey replaces (crypto.encap draw pubkey)
      else p

  -- The same key is answered as before; another one comes of a peer that has restarted.
  unfoldable pub init_cached :
      PqcHandshake
      → (takes : Bool) → (draw epoch : ℕ) → Bytes
      → Option (Bytes × Bytes)
      → PqcHandshake
  unfolding encapsulate send_handshake
  init_cached p takes draw epoch pubkey none = encapsulate p takes draw epoch pubkey false
  init_cached p takes draw epoch pubkey (some (held, ct)) =
      if same_bytes held pubkey
      then send_handshake crypto p takes resp epoch ct
      else encapsulate p takes draw epoch pubkey true

  unfoldable pub init_accepted :
      PqcHandshake → (takes : Bool) → (draw : ℕ) → Option (ℕ × Bytes) → PqcHandshake
  unfolding init_cached
  init_accepted p takes draw none = p
  init_accepted p takes draw (some (epoch, pubkey)) =
      init_cached p takes draw epoch pubkey (lookup epoch p.resp_cache)

  unfoldable pub handle_init :
      PqcHandshake → (takes : Bool) → (draw : ℕ) → Bytes → RecvAuth → PqcHandshake
  unfolding init_accepted accept
  handle_init p takes draw payload recv =
      init_accepted p takes draw (accept crypto p init payload recv)

  unfoldable pub decapsulated : PqcHandshake → ℕ → Option Bytes → PqcHandshake
  unfolding publish_inner
  decapsulated p epoch none = p
  decapsulated p epoch (some ss) = publish_inner p epoch ss false

  unfoldable pub resp_pending : PqcHandshake → ℕ → Bytes → Option Bytes → PqcHandshake
  unfolding decapsulated
  resp_pending p epoch ct none = p
  resp_pending p epoch ct (some sk) =
      if crypto.has_suite then decapsulated p epoch (crypto.decap sk ct) else p

  unfoldable pub resp_accepted : PqcHandshake → Option (ℕ × Bytes) → PqcHandshake
  unfolding resp_pending
  resp_accepted p none = p
  resp_accepted p (some (epoch, ct)) =
      if contains p.store epoch then p else resp_pending p epoch ct (lookup epoch p.pending_sk)

  unfoldable pub handle_resp : PqcHandshake → Bytes → RecvAuth → PqcHandshake
  unfolding resp_accepted accept
  handle_resp p payload recv = resp_accepted p (accept crypto p resp payload recv)

  unfoldable pub resync_accepted : PqcHandshake → Option (ℕ × Bytes) → PqcHandshake
  unfolding is_initiator
  resync_accepted p none = p
  resync_accepted p (some (peer_epoch, blob)) =
      if is_initiator p then record p { store = request_resync p.store (max peer_epoch 1) } else p

  unfoldable pub handle_resync_request : PqcHandshake → Bytes → RecvAuth → PqcHandshake
  unfolding resync_accepted accept
  handle_resync_request p payload recv = resync_accepted p (accept crypto p resync_req payload recv)

  -- The key pair that is kept for the epoch, or a new one.
  unfoldable pub pending_key : PqcHandshake → ℕ → Option Bytes
  unfolding is_some
  pending_key p epoch =
      if is_some (lookup epoch p.pending_sk) then lookup epoch p.pending_pk else none

  unfoldable pub kept_pair : PqcHandshake → ℕ → Option (Bytes × Bytes) → PqcHandshake × Option Bytes
  kept_pair p epoch none = (p, none)
  kept_pair p epoch (some (public, secret)) = (
    record p {
      pending_sk = insert epoch secret p.pending_sk;
      pending_pk = insert epoch public p.pending_pk;
    },
    some public,
  )

  unfoldable pub pair_for :
      PqcHandshake → (draw epoch : ℕ) → Option Bytes → PqcHandshake × Option Bytes
  unfolding kept_pair
  pair_for p draw epoch (some public) = (p, some public)
  pair_for p draw epoch none =
      if crypto.has_suite then kept_pair p epoch (crypto.keygen draw) else (p, none)

  unfoldable pub establish_key : PqcHandshake → (draw epoch : ℕ) → PqcHandshake × Option Bytes
  unfolding pair_for pending_key
  establish_key p draw epoch = pair_for p draw epoch (pending_key p epoch)

  -- A round of the wait of `establish`, and whether it is the last one.
  unfoldable pub establish_round :
      PqcHandshake → (takes : Bool) → (epoch : ℕ) → (pubkey : Bytes) → PqcHandshake × Bool
  unfolding send_handshake
  establish_round p takes epoch pubkey =
      if contains p.store epoch
      then (
        record p { pending_sk = remove epoch p.pending_sk; pending_pk = remove epoch p.pending_pk },
        true,
      )
      else (send_handshake crypto p takes init epoch pubkey, false)

-- `saturating_add`, on 32 bits
unfoldable pub saturating_add : ℕ → ℕ → ℕ
saturating_add a b = min (a + b) (2 ^ 32 - 1)

-- `highest.map(|h| h.saturating_add(1)).unwrap_or(0)`
unfoldable pub next_own : Option ℕ → ℕ
unfolding saturating_add
next_own none = 0
next_own (some h) = saturating_add h 1

unfoldable pub resync_base : Option ℕ → (peer_epoch lookahead : ℕ) → ℕ × ℕ
unfolding next_own saturating_add
resync_base highest peer_epoch lookahead =
    let mine = next_own highest in
    let ceiling = saturating_add mine max_resync_jump in
    let base = min (max mine (saturating_add peer_epoch 1)) ceiling in
    (base, saturating_add base lookahead)
