-- ===== src/Dkms/Generator.antt =====
-- dkms/src/control/generator.rs: what an ACK does (`on_ack`). The counters for metrics and the log
-- are left out; the buffers are those of the pool.
pub mod Moves
use dkms.Prelude.{ℕ, String, Bool, true, false, Option, none, some, List, [], ◌∷◌, ◌++◌}
use dkms.Prelude.Outcome.{Outcome, ok, err}
use dkms.Prelude.Outcome.{panic}
use dkms.Prelude.Assoc.{string_keys, insert as put}
use dkms.Dkms.Security.{KeyGrade}
use dkms.Dkms.Buffer.{TransportKey, SecureKeyBuffer, try_push, Pushed}
use dkms.Dkms.Pool.{PeerBuffers, BufferPool, enc, set_enc, for_peer}
use dkms.Dkms.AckPending.{
  AckPendingEntry, AckPendingStore, TakeOutcome, hit, unknown_peer, unknown_key, take_diagnosed,
}

-- The fields of `Generator` that an ACK reads and changes.
pub record Generator : Type 0 where
  pub ack_pending : AckPendingStore
  pub pool : BufferPool

-- `if let Err(rejected) = …` and the result
unfoldable pub is_ok : Outcome TransportKey (Unit {0}) → Bool
is_ok (ok u) = true
is_ok (err key) = false
is_ok panic = false

-- `buf.enc(grade).try_push(key)`, where the buffer is the one of the pool
unfoldable pub push_enc : BufferPool → String → KeyGrade → TransportKey → BufferPool × Bool
push_enc pool peer grade key =
    let (pool', buf) = for_peer pool peer in
    let (b, r) = try_push (enc buf grade) key in
    (record pool' { peers = put peer (set_enc buf grade b) pool'.peers }, is_ok r)

unfoldable pub move_key :
    Generator → AckPendingStore → String → String → TakeOutcome → Generator × Bool
move_key g ack_pending peer key_id unknown_peer = (record g { ack_pending = ack_pending }, false)
move_key g ack_pending peer key_id unknown_key = (record g { ack_pending = ack_pending }, false)
move_key g ack_pending peer key_id (hit entry) =
    let (pool, moved) =
      push_enc g.pool peer entry.grade (record { id = key_id; bytes = entry.bytes }) in
    (record { ack_pending = ack_pending; pool = pool }, moved)

unfoldable pub on_ack : Generator → String → String → Generator × Bool
on_ack g peer key_id =
    let (ack_pending, r) = take_diagnosed g.ack_pending peer key_id in
    move_key g ack_pending peer key_id r
