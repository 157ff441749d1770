-- ===== src/Dkms/Generator/Moves.antt =====
-- On `on_ack` of dkms/src/control/generator.rs.
use dkms.Prelude.{
  ◌≡◌, refl, sym, ◌∙◌, ap, String, Bool, true, false, Option, none, some, List, [], ◌∷◌, ◌++◌,
  append-nil, if◌then◌else◌, Option-cases, inl, inr,
}
use dkms.Prelude.Assoc.{string_keys, lookup, lookup-insert_self, beq_refl}
use dkms.Dkms.Security.{KeyGrade, qkd, pqc}
use dkms.Dkms.Buffer.{TransportKey, SecureKeyBuffer, try_push}
use dkms.Dkms.Pool.{PeerBuffers, BufferPool, enc, set_enc, for_peer, new_peer}
use dkms.Dkms.AckPending.{
  AckPendingEntry, AckPendingStore, TakeOutcome, hit, unknown_peer, unknown_key, take_diagnosed,
  hit_entry,
}
use dkms.Dkms.AckPending.Find.{find, find-take_diagnosed, hit-find}
use dkms.Dkms.Generator.{Generator, is_ok, push_enc, move_key, on_ack}

-- The keys of a grade that can be served to a peer, oldest first.
pub served_keys : BufferPool → String → KeyGrade → List TransportKey
served_keys pool peer grade = (enc (for_peer pool peer).1 grade).inner

pub same_grade : KeyGrade → KeyGrade → Bool
same_grade qkd qkd = true
same_grade pqc pqc = true
same_grade qkd pqc = false
same_grade pqc qkd = false

-- The key that an ACK moves.
pub moved_key : String → AckPendingEntry → TransportKey
moved_key key_id e = record { id = key_id; bytes = e.bytes }

enc-set_enc :
    (buf : PeerBuffers) (g h : KeyGrade) (b : SecureKeyBuffer)
    → enc (set_enc buf g b) h ≡ (if same_grade g h then b else enc buf h)
unfolding enc set_enc same_grade
enc-set_enc buf qkd qkd b = refl
enc-set_enc buf qkd pqc b = refl
enc-set_enc buf pqc qkd b = refl
enc-set_enc buf pqc pqc b = refl

peers-for_peer :
    (pool : BufferPool) (peer : String)
    → lookup peer (for_peer pool peer).0.peers ≡ some (for_peer pool peer).1
unfolding for_peer
peers-for_peer pool peer = elim (Option-cases (lookup peer pool.peers)) [
  | inl e ↦
      rw (e, for_peer, lookup-insert_self peer (new_peer pool.capacity_per_peer) pool.peers) refl
  | inr (p, e) ↦ rw (e, for_peer, e) refl
]

for_peer_known :
    (pool : BufferPool) (peer : String) (p : PeerBuffers)
    → lookup peer pool.peers ≡ some p
    → (for_peer pool peer).1 ≡ p
unfolding for_peer
for_peer_known pool peer p e = rw (e, for_peer) refl

served-push_enc :
    (pool : BufferPool) (peer : String) (g h : KeyGrade) (key : TransportKey)
    → served_keys (push_enc pool peer g key).0 peer h
      ≡ served_keys pool peer h ++ (if same_grade g h then key ∷ [] else [])
unfolding served_keys push_enc try_push same_grade
served-push_enc pool peer g h key =
    let buf = (for_peer pool peer).1 in
    let b = record (enc buf g) { inner = (enc buf g).inner ++ key ∷ [] } in
    let known =
      for_peer_known (push_enc pool peer g key).0 peer (set_enc buf g b)
        (lookup-insert_self peer (set_enc buf g b) (for_peer pool peer).0.peers) in
    ap (λ (p : PeerBuffers). (enc p h).inner) known
    ∙ (ap (λ (d : SecureKeyBuffer). d.inner) (enc-set_enc buf g h b) ∙ go (enc buf) g h)
  where
    go :
        (f : KeyGrade → SecureKeyBuffer) (g h : KeyGrade)
        → (if same_grade g h then record (f g) { inner = (f g).inner ++ key ∷ [] } else f h).inner
          ≡ (f h).inner ++ (if same_grade g h then key ∷ [] else [])
    go f qkd qkd = refl
    go f pqc pqc = refl
    go f qkd pqc = sym (append-nil (f pqc).inner)
    go f pqc qkd = sym (append-nil (f qkd).inner)

-- What the pool is to receive for the grade `h`.
pub arrived : Option AckPendingEntry → String → KeyGrade → List TransportKey
arrived none key_id h = []
arrived (some e) key_id h = if same_grade e.grade h then moved_key key_id e ∷ [] else []

pub is_some : Option AckPendingEntry → Bool
is_some none = false
is_some (some e) = true

on_ack_found :
    (g : Generator) (a : AckPendingStore) (peer k : String) (h : KeyGrade) (r : TakeOutcome)
    → ((move_key g a peer k r).1 ≡ is_some (hit_entry r))
      × (served_keys (move_key g a peer k r).0.pool peer h
          ≡ served_keys g.pool peer h ++ arrived (hit_entry r) k h)
unfolding move_key is_some hit_entry arrived push_enc is_ok try_push moved_key
on_ack_found g a peer k h unknown_peer = (refl, sym (append-nil (served_keys g.pool peer h)))
on_ack_found g a peer k h unknown_key = (refl, sym (append-nil (served_keys g.pool peer h)))
on_ack_found g a peer k h (hit e) =
    (refl, served-push_enc g.pool peer e.grade h (record { id = k; bytes = e.bytes }))

-- An ACK answers whether its key waited for one, puts the key at the back of the buffer of its
-- grade exactly in that case, and leaves the peer's other buffer; a second ACK of the same key
-- finds nothing.
pub on_ack_lem :
    (g : Generator) (peer k : String) (h : KeyGrade)
    → ((on_ack g peer k).1 ≡ is_some (find g.ack_pending peer k))
      × (served_keys (on_ack g peer k).0.pool peer h
          ≡ served_keys g.pool peer h ++ arrived (find g.ack_pending peer k) k h)
      × (find (on_ack g peer k).0.ack_pending peer k ≡ none)
unfolding on_ack move_key
on_ack_lem g peer k h =
    let (a, r) = take_diagnosed g.ack_pending peer k in
    let both = on_ack_found g a peer k h r in
    let found = hit-find g.ack_pending peer k in
    (
      both.0 ∙ ap is_some found,
      both.1 ∙ ap (λ o. served_keys g.pool peer h ++ arrived o k h) found,
      ap (λ x. find x peer k) (left r) ∙ gone,
    )
  where
    left :
        (r : TakeOutcome)
        → (move_key g (take_diagnosed g.ack_pending peer k).0 peer k r).0.ack_pending
          ≡ (take_diagnosed g.ack_pending peer k).0
    left unknown_peer = refl
    left unknown_key = refl
    left (hit e) = refl

    gone : find (take_diagnosed g.ack_pending peer k).0 peer k ≡ none
    gone = rw (find-take_diagnosed g.ack_pending peer k peer k, beq_refl peer, beq_refl k) refl
