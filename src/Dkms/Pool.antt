-- ===== src/Dkms/Pool.antt =====
-- dkms/src/state/pool.rs: the buffers of a peer, and the pool of them. A buffer that several
-- holders share (`Arc`) is the one in the pool: a method on it is an update of the pool.
pub mod Serve
use dkms.Prelude.{ℕ, ◌+◌, String, Option, none, some, List, [], ◌∷◌, map}
use dkms.Prelude.Assoc.{Assoc, string_keys, lookup, insert}
use dkms.Dkms.Security.{KeyGrade, qkd, pqc}
use dkms.Dkms.Buffer.{TransportKey, SecureKeyBuffer, len, pop_oldest, clear, new as new_buffer}

pub record PeerBuffers : Type 0 where
  pub enc_qkd : SecureKeyBuffer
  pub enc_pqc : SecureKeyBuffer
  pub dec : SecureKeyBuffer

unfoldable pub new_peer : ℕ → PeerBuffers
new_peer capacity = record {
  enc_qkd = new_buffer capacity;
  enc_pqc = new_buffer capacity;
  dec = new_buffer capacity;
}

unfoldable pub enc : PeerBuffers → KeyGrade → SecureKeyBuffer
enc p qkd = p.enc_qkd
enc p pqc = p.enc_pqc

-- The buffer that `enc` refers to, changed.
unfoldable pub set_enc : PeerBuffers → KeyGrade → SecureKeyBuffer → PeerBuffers
set_enc p qkd b = record p { enc_qkd = b }
set_enc p pqc b = record p { enc_pqc = b }

unfoldable pub enc_len : PeerBuffers → ℕ
enc_len p = len p.enc_qkd + len p.enc_pqc

-- `pop_oldest` of a grade, or the search goes on with what it left
unfoldable pub or_next :
    PeerBuffers
    → KeyGrade
    → SecureKeyBuffer × Option TransportKey
    → PeerBuffers × Option (KeyGrade × TransportKey)
    → PeerBuffers × Option (KeyGrade × TransportKey)
or_next p g (b, some k) next = (set_enc p g b, some (g, k))
or_next p g (b, none) next = next

unfoldable pub enc_pop_pref :
    PeerBuffers → List KeyGrade → PeerBuffers × Option (KeyGrade × TransportKey)
enc_pop_pref p [] = (p, none)
enc_pop_pref p (g ∷ prefs) = or_next p g (pop_oldest (enc p g)) (enc_pop_pref p prefs)

unfoldable pub enc_clear : PeerBuffers → PeerBuffers × ℕ
enc_clear p = (record p { enc_qkd = clear p.enc_qkd; enc_pqc = clear p.enc_pqc }, enc_len p)

pub record BufferPool : Type 0 where
  pub capacity_per_peer : ℕ
  pub peers : Assoc String PeerBuffers

unfoldable pub new : ℕ → BufferPool
new capacity_per_peer = record { capacity_per_peer = capacity_per_peer; peers = [] }

unfoldable pub for_peer : BufferPool → String → BufferPool × PeerBuffers
for_peer pool peer = elim (lookup peer pool.peers) [
  | some p ↦ (pool, p)
  | none ↦
      let p = new_peer pool.capacity_per_peer in
      (record pool { peers = insert peer p pool.peers }, p)
]

unfoldable pub snapshot : BufferPool → List (String × ℕ × ℕ)
snapshot pool =
    map (λ (entry : String × PeerBuffers). (entry.0, enc_len entry.1, len entry.1.dec)) pool.peers

unfoldable pub clear_peer : PeerBuffers → PeerBuffers
clear_peer p = record { enc_qkd = clear p.enc_qkd; enc_pqc = clear p.enc_pqc; dec = clear p.dec }

unfoldable pub clear_all : BufferPool → BufferPool
clear_all pool = record pool {
  peers = map (λ (entry : String × PeerBuffers). (entry.0, clear_peer entry.1)) pool.peers;
}
