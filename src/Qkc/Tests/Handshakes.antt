-- ===== src/Qkc/Tests/Handshakes.antt =====
-- The two ends of a link on which the theorems about the handshake are used. A key of the KEM is the
-- number that was drawn, its secret is always the same, and so is every MAC.
use dkms.Prelude.{ℕ, ◌≡◌, refl, true, false, none, some, [], ◌∷◌, ◌++◌, arith, inr}
use dkms.Prelude.Assoc.{Assoc, nat_keys, lookup}
use dkms.Prelude.Bytes.{Bytes, same_bytes, same_bytes_iff}
use dkms.Wire.Frame.{Frame}
use dkms.Qkc.SecretStore.{SecretStore, get, contains, is_some}
use dkms.Qkc.Handshake.{
  require, init, resp, hmac, PqcHandshake, Crypto, encode_cert_chain, split_cert_chain,
}
use dkms.Qkc.Handshake.Messages.{handshake_frame}
use dkms.Qkc.Handshake.Handlers.{handle_init, handle_resp}
use dkms.Qkc.Handshake.Accept.{AreLinked}
use dkms.Qkc.Handshake.Chain.{split-encode_cert_chain}
use dkms.Qkc.Handshake.Agree.{IsNew, handshake_agrees, init_again}

abbrev secret : Bytes
secret =
    1 ∷ 2 ∷ 3 ∷ 4 ∷ 5 ∷ 6 ∷ 7 ∷ 8 ∷ 9 ∷ 10 ∷ 11 ∷ 12 ∷ 13 ∷ 14 ∷ 15 ∷ 16 ∷ 17 ∷ 18 ∷ 19 ∷ 20 ∷ 21
    ∷ 22 ∷ 23 ∷ 24 ∷ 25 ∷ 26 ∷ 27 ∷ 28 ∷ 29 ∷ 30 ∷ 31 ∷ 32 ∷ []

abbrev crypto : Crypto
crypto = record {
  hmac_sha256 = λ k m. secret;
  is_same = same_bytes;
  has_suite = true;
  keygen = λ draw. some (draw ∷ [], draw ∷ []);
  encap = λ draw pk. some (draw ∷ pk, secret);
  decap = λ sk ct. some secret;
  sign_handshake_with = λ key c. [];
  sign_handshake = λ seed c. none;
  verify_handshake = λ key c sig. false;
  verify_node_cert = λ chain roots name. none;
}

abbrev store : SecretStore
store = record { inner = (3, secret) ∷ []; keep = 4; resync_epoch = 0 }

abbrev end_of : ℕ → ℕ → Assoc ℕ Bytes → PqcHandshake
end_of my_id peer_id pending = record {
  suite = 9 ∷ [];
  my_id = my_id;
  peer_id = peer_id;
  peer_out = [];
  store = store;
  lookahead = 2;
  pending_sk = pending;
  pending_pk = pending;
  handshake_drops = 0;
  resp_cache = [];
  last_relink = none;
  psk = some (8 ∷ []);
  sign_seed = none;
  peer_verify_key = none;
  cert_id = none;
  peer_cert_id = "qkc";
  auth = require;
  key_size_bits = 256;
}

abbrev initiator : PqcHandshake
initiator = end_of 1 2 ((4, 5 ∷ []) ∷ [])

abbrev responder : PqcHandshake
responder = end_of 2 1 []

linked : AreLinked crypto initiator responder (8 ∷ [])
linked = record {
  sender = refl;
  receiver = refl;
  suite = refl;
  bits = refl;
  own_psk = refl;
  peer_psk = refl;
  policy = inr refl;
  tag_size = λ m. refl;
  tag_same = λ m. (same_bytes_iff m m).1 refl;
}

linked_back : AreLinked crypto responder initiator (8 ∷ [])
linked_back = record {
  sender = refl;
  receiver = refl;
  suite = refl;
  bits = refl;
  own_psk = refl;
  peer_psk = refl;
  policy = inr refl;
  tag_size = λ m. refl;
  tag_same = λ m. (same_bytes_iff m m).1 refl;
}

store-IsNew : IsNew store 4
unfolding contains is_some lookup
store-IsNew = record { missing = refl; above = (omega arith, tt); room = omega arith }

pending_held : lookup 4 initiator.pending_sk ≡ some (5 ∷ [])
unfolding lookup
pending_held = refl

nothing_cached : lookup 4 responder.resp_cache ≡ none
unfolding lookup
nothing_cached = refl

abbrev first_init : Bytes
first_init = (handshake_frame crypto initiator init 4 (5 ∷ [])).payload

abbrev after : PqcHandshake
after = handle_init crypto responder true 6 first_init hmac

handshake_agrees_example :
    (f : Frame) × (after.peer_out ≡ responder.peer_out ++ (f ∷ []))
    × (get after.store 4 ≡ some secret)
    × (get (handle_resp crypto initiator f.payload hmac).store 4 ≡ some secret)
handshake_agrees_example =
    handshake_agrees crypto initiator responder (8 ∷ []) 6 4 (5 ∷ []) (5 ∷ []) (6 ∷ 5 ∷ []) secret
      linked linked_back refl refl refl refl (omega arith) pending_held nothing_cached store-IsNew
      store-IsNew

init_again_example : handle_init crypto after true 7 first_init hmac ≡ record after {
  peer_out = after.peer_out ++ (handshake_frame crypto after resp 4 (6 ∷ 5 ∷ []) ∷ []);
}
init_again_example =
    init_again crypto initiator responder (8 ∷ []) true 6 7 4 (5 ∷ []) (6 ∷ 5 ∷ []) secret linked
      refl refl refl (omega arith) nothing_cached

split-encode_cert_chain_example :
    split_cert_chain (encode_cert_chain ((1 ∷ 2 ∷ []) ∷ (3 ∷ []) ∷ []) ++ (4 ∷ []))
    ≡ some ((1 ∷ 2 ∷ []) ∷ (3 ∷ []) ∷ [], 4 ∷ [])
split-encode_cert_chain_example =
    split-encode_cert_chain ((1 ∷ 2 ∷ []) ∷ (3 ∷ []) ∷ []) (4 ∷ []) (omega arith)
      (omega arith, (omega arith, tt))
