-- ===== src/Qkc/Relay/Hop.antt =====
-- On a frame that one node of qkc/src/relay.rs sends and the next one takes.
use dkms.Prelude.{
  ℕ, zero, ◌+◌, suc, ◌/◌, ◌%◌, ◌^◌, ◌≤◌, ◌<◌, ◌≡◌, refl, sym, ap, ◌∙◌, Bool, true, false, Option,
  none, some, List, [], ◌∷◌, ◌++◌, map, length, take, take_all, All, length-take, arith, ltb-false,
  ◌==◌, ==_refl,
}
use dkms.Prelude.Assoc.{nat_keys, lookup, lookup-insert_self, some_eq}
use dkms.Prelude.Bytes.{Bytes}
use dkms.Prelude.Outcome.{ok}
use dkms.Qkc.Crypto.{num_chunks, encrypt, decrypt}
use dkms.Qkc.Crypto.RoundTrip.{decrypt-encrypt, ids_of}
use dkms.Qkc.KeyStore.{OtpKey, KeyStore}
use dkms.Qkc.Relay.{
  Around, max_relay_chunks, local_deliver_frame, outbound_frame, seal_if, peer_send,
  take_or_fetch_enc, count_delivered, ok_or,
}
use dkms.Qkc.Relay.Handlers.{
  send_frame_to_peer, forward_plaintext, handle_incoming_inner, handle_local_send_inner, checked,
  pass_on,
}
use dkms.Qkc.Relay.Keys.{
  AreDistinct, AreReady, take_or_fetch_enc_held, lookup_or_fetch_dec_held, parse_key_ids-map,
  material_of_own,
}
use dkms.Qkc.Routing.{next_hop_graded}
use dkms.Qkc.Routing.Pick.{get_elem?}
use dkms.Qkc.Service.{
  QkcService, LinkRuntime, link_to, put_link, on_keys, on_auth, of_auth, deliver_local, TrySend,
  accepted, Tally, offered, send_each, counted,
}
use dkms.Wire.Frame.{Frame}
use dkms.Wire.Kinds.{frame_local_deliver, grade_qkd}

-- The frame `d` for the local router carries what the frame `f` did, and the id of its sender.
pub record IsHandedOn (sender : ℕ) (f d : Frame) : Type 0 where
  pub kind : d.kind ≡ frame_local_deliver
  pub sender_id : d.sender_id ≡ sender
  pub grade : d.grade ≡ f.grade
  pub epoch_id : d.epoch_id ≡ f.epoch_id
  pub header_orr_mp : d.header_orr_mp ≡ f.header_orr_mp
  pub header_dkms_mp : d.header_dkms_mp ≡ f.header_dkms_mp
  pub payload : d.payload ≡ f.payload

-- What a link of size `n` needs for `m` chunks to pass from the ring of the one end to the map of the
-- other: enough keys in the ring, the first `m` of which have distinct ids and `n` bytes and are
-- held at the other end.
pub record IsSupplied (n m : ℕ) (sender receiver : KeyStore) : Type 0 where
  pub enough : m ≤ length sender.enc
  pub few : m ≤ max_relay_chunks
  pub sizes : All (λ (k : OtpKey). length k.material ≡ n) (take m sender.enc)
  pub distinct : AreDistinct (take m sender.enc)
  pub ready : AreReady (take m sender.enc) receiver

length_taken : (m : ℕ) (keys : List OtpKey) → m ≤ length keys → length (take m keys) ≡ m
length_taken m keys l = omega (arith, length-take m keys)

ids_taken : (m : ℕ) (keys : List OtpKey) → length keys ≡ m → take m (ids_of keys) ≡ ids_of keys
ids_taken m keys e = take_all (ids_of keys) m (omega (arith, length_ids keys))
  where
    length_ids : (ks : List OtpKey) → length (ids_of ks) ≡ length ks
    length_ids [] = refl
    length_ids (k ∷ ks) = ap suc (length_ids ks)

-- A consumer whose channel takes the frame gets it, whatever the others answer.
send_each_taken :
    (try_send : ℕ → TrySend) (f : Frame) (first i : ℕ) (senders : List (List Frame)) (n : Tally)
    (queue : List Frame)
    → get_elem? senders i ≡ some queue
    → try_send (first + i) ≡ accepted
    → get_elem? (send_each try_send f first senders n).0 i ≡ some (queue ++ f ∷ [])
unfolding send_each offered
send_each_taken try_send f first i [] n queue h t = cc
send_each_taken try_send f first zero (q ∷ qs) n queue h t =
    let e : try_send first ≡ accepted = ap try_send (omega arith) ∙ t in
    rw (e, offered) (ap (λ (x : List Frame). some (x ++ f ∷ [])) (some_eq h))
send_each_taken try_send f first (suc i) (q ∷ qs) n queue h t =
    send_each_taken try_send f (suc first) i qs (counted (try_send first) n) queue h
      (ap try_send (omega arith) ∙ t)

module _ (parse_uuid : Bytes → Option ℕ) (uuid_text : ℕ → Bytes)
    (reads : (id : ℕ) → parse_uuid (uuid_text id) ≡ some id) (derive_key : Bytes → ℕ → Bytes)
    (hmac : Bytes → Bytes → Bytes) (is_same : Bytes → Bytes → Bool) (frame_hash : Frame → ℕ) where
  send_lem :
      (at : Around) (s : QkcService) (link held : LinkRuntime) (next_hop dest_final : ℕ)
      (ciphertext : Bytes) (ids : List ℕ) (grade epoch_id : ℕ) (orr dkms : Bytes)
      → lookup next_hop s.links ≡ some held
      → held.auth ≡ none
      → at.has_room ≡ true
      → let out =
          send_frame_to_peer uuid_text derive_key hmac is_same at link next_hop dest_final
            ciphertext ids grade epoch_id orr dkms s in
        (out.1 ≡ ok tt)
        × (out.0.sent
            ≡ s.sent
              ++ (
                next_hop,
                outbound_frame s.qkc_id next_hop dest_final grade epoch_id
                    (link.key_size_bits % 2 ^ 16)
                    (map uuid_text ids)
                    orr
                    dkms
                    ciphertext,
              )
                ∷ [])
  unfolding send_frame_to_peer on_auth of_auth seal_if peer_send put_link
  send_lem at s link held next_hop dest_final ciphertext ids grade epoch_id orr dkms l plain room =
      (rw (on_auth, l, plain, room), rw (on_auth, l, plain, room))

  forward_sends :
      (at : Around) (a : QkcService) (link : LinkRuntime) (next_hop dest_final n m : ℕ)
      (plaintext : Bytes) (grade epoch_id : ℕ) (orr dkms : Bytes) (r : Bytes × List ℕ)
      → lookup next_hop a.links ≡ some link
      → link.auth ≡ none
      → link.key_size_bits / 8 ≡ n
      → num_chunks (length plaintext) n ≡ ok m
      → m ≤ max_relay_chunks
      → m ≤ length link.keys.enc
      → encrypt plaintext (take m link.keys.enc) ≡ ok r
      → at.has_room ≡ true
      → let out =
          forward_plaintext uuid_text derive_key hmac is_same at next_hop dest_final plaintext grade
            epoch_id orr dkms a in
        (out.1 ≡ ok tt)
        × (out.0.sent
            ≡ a.sent
              ++ (
                next_hop,
                outbound_frame a.qkc_id next_hop dest_final grade epoch_id
                    (link.key_size_bits % 2 ^ 16)
                    (map uuid_text r.1)
                    orr
                    dkms
                    r.0,
              )
                ∷ [])
  unfolding forward_plaintext link_to on_keys put_link
  forward_sends at a link next_hop dest_final n m plaintext grade epoch_id orr dkms r l plain s c
        few enough e room =
      let taken = take_or_fetch_enc_held at.enc_later m link.keys enough in
      let held = record link { keys = (take_or_fetch_enc at.enc_later m link.keys).0 } in
      let a' = put_link next_hop held a in
      rw (link_to, l, s, c, ltb-false max_relay_chunks m few, on_keys, l, taken, e)
        (send_lem at a' link held next_hop dest_final r.0 r.1 grade epoch_id orr dkms
          (lookup-insert_self next_hop held a.links) plain room)

  incoming_delivers :
      (at : Around) (i : ℕ) (queue : List Frame) (b : QkcService) (g : Frame) (link : LinkRuntime)
      (n : ℕ) (keys : List OtpKey) (plaintext : Bytes)
      → get_elem? b.local_out i ≡ some queue
      → at.try_send i ≡ accepted
      → lookup g.sender_id b.links ≡ some link
      → link.key_size_bits / 8 ≡ n
      → g.key_ids ≡ map uuid_text (ids_of keys)
      → AreDistinct keys
      → AreReady keys link.keys
      → decrypt g.payload (ids_of keys) keys n ≡ ok plaintext
      → (g.dest_final == b.qkc_id) ≡ true
      → let out =
          handle_incoming_inner uuid_text derive_key hmac is_same frame_hash parse_uuid at g true
            b in
        (out.1 ≡ ok tt)
        × (get_elem? out.0.local_out i
            ≡ some (queue ++ local_deliver_frame b.qkc_id g plaintext ∷ []))
  unfolding handle_incoming_inner link_to checked on_keys put_link pass_on deliver_local
      count_delivered local_deliver_frame
  incoming_delivers at i queue b g link n keys plaintext held takes l s ids d r e here =
      let read = parse_key_ids-map parse_uuid uuid_text reads (ids_of keys) in
      let found = lookup_or_fetch_dec_held at.dec_later keys link.keys d r in
      (
        rw (link_to, l, ids, read, on_keys, l, found, s, e, here),
        rw (link_to, l, ids, read, on_keys, l, found, s, e, here)
            (send_each_taken at.try_send (local_deliver_frame b.qkc_id g plaintext) 0 i b.local_out
              _ queue held (ap at.try_send (omega arith) ∙ takes)),
      )

  -- A frame of the local router for a neighbour that is its next hop, where the link between the two
  -- has no frame_auth of its own and is supplied at both ends for the chunks of the payload: the
  -- sender sends one frame, and the neighbour, which takes it as authenticated by its reader, hands
  -- the payload, the two headers, the grade and the epoch as they were, with the sender's id, to each
  -- local consumer whose channel takes it. A key id is read as it is printed, and the queue of the
  -- peer has room.
  pub local_send-incoming :
      (at at' : Around) (i : ℕ) (queue : List Frame) (a b : QkcService) (la lb : LinkRuntime)
      (f : Frame) (n m : ℕ)
      → (f.dest_final == a.qkc_id) ≡ false
      → f.dest_final ≡ b.qkc_id
      → next_hop_graded a.routing f.dest_final (frame_hash f) (f.grade == grade_qkd) ≡ some b.qkc_id
      → lookup b.qkc_id a.links ≡ some la
      → lookup a.qkc_id b.links ≡ some lb
      → la.auth ≡ none
      → la.key_size_bits / 8 ≡ n
      → lb.key_size_bits / 8 ≡ n
      → 0 < n
      → num_chunks (length f.payload) n ≡ ok m
      → IsSupplied n m la.keys lb.keys
      → at.has_room ≡ true
      → get_elem? b.local_out i ≡ some queue
      → at'.try_send i ≡ accepted
      → (g : Frame) × (let out =
            handle_local_send_inner uuid_text derive_key hmac is_same frame_hash at f a in
          (out.1 ≡ ok tt) × (out.0.sent ≡ a.sent ++ (b.qkc_id, g) ∷ []))
        × (let out =
              handle_incoming_inner uuid_text derive_key hmac is_same frame_hash parse_uuid at' g
                true b in
            (out.1 ≡ ok tt)
            × ((d : Frame) × (get_elem? out.0.local_out i ≡ some (queue ++ d ∷ []))
                × IsHandedOn a.qkc_id f d))
  unfolding handle_local_send_inner ok_or outbound_frame local_deliver_frame
  local_send-incoming at at' i queue a b la lb f n m away here hop la_at lb_at plain sa sb pos c
        supply room held_i takes =
      let keys = take m la.keys.enc in
      let count : length keys ≡ m = length_taken m la.keys.enc supply.enough in
      let held = material_of_own n keys (omega (arith, supply.few)) supply.distinct supply.sizes in
      let (r, carried) = decrypt-encrypt f.payload keys keys n m pos c (omega arith) held in
      let ids : r.1 ≡ ids_of keys = carried.first_ids ∙ ids_taken m keys count in
      let g =
        outbound_frame a.qkc_id b.qkc_id f.dest_final f.grade f.epoch_id (la.key_size_bits % 2 ^ 16)
          (map uuid_text r.1) f.header_orr_mp f.header_dkms_mp r.0 in
      let got =
        incoming_delivers at' i queue b g lb n keys f.payload held_i takes lb_at sb
          (ap (map uuid_text) ids) supply.distinct supply.ready
          (ap (λ (t : List ℕ). decrypt r.0 t keys n) (sym ids) ∙ carried.decrypted)
          (rw here (==_refl b.qkc_id)) in
      (
        g,
        rw (away, hop)
            (forward_sends at a la b.qkc_id f.dest_final n m f.payload f.grade f.epoch_id
              f.header_orr_mp f.header_dkms_mp r la_at plain sa c supply.few supply.enough
              carried.encrypted room),
        (
          got.0,
          (
            local_deliver_frame b.qkc_id g f.payload,
            got.1,
            record {
              kind = refl;
              sender_id = refl;
              grade = refl;
              epoch_id = refl;
              header_orr_mp = refl;
              header_dkms_mp = refl;
              payload = refl;
            },
          ),
        ),
      )
