-- ===== src/Dkms/Tests/Buffers.antt =====
-- Buffers, the pool of them, and an ACK.
use dkms.Prelude.{◌≡◌, none, [], ◌∷◌, ◌++◌}
use dkms.Prelude.Assoc.{string_keys}
use dkms.Dkms.Security.{qkd}
use dkms.Dkms.Buffer.{TransportKey, SecureKeyBuffer}
use dkms.Dkms.Pool.{PeerBuffers}
use dkms.Dkms.AckPending.Find.{find}
use dkms.Dkms.Generator.{Generator, on_ack}
use dkms.Dkms.Generator.Moves.{served_keys, arrived, is_some, on_ack_lem}

abbrev one : TransportKey
one = record { id = "a"; bytes = 1 ∷ [] }

abbrev two : TransportKey
two = record { id = "b"; bytes = 2 ∷ [] }

abbrev buffer : SecureKeyBuffer
buffer = record { capacity = 1; inner = one ∷ two ∷ [] }

abbrev peer : PeerBuffers
peer = record {
  enc_qkd = buffer;
  enc_pqc = record { capacity = 1; inner = [] };
  dec = record { capacity = 1; inner = [] };
}

abbrev generator : Generator
generator = record {
  ack_pending = record {
    inner = ("dkms-2", ("k1", record { bytes = 1 ∷ 2 ∷ []; deadline = 50; grade = qkd }) ∷ []) ∷ [];
  };
  pool = record { capacity_per_peer = 4; peers = ("dkms-2", peer) ∷ [] };
}

on_ack_lem_example :
    ((on_ack generator "dkms-2" "k1").1 ≡ is_some (find generator.ack_pending "dkms-2" "k1"))
    × (served_keys (on_ack generator "dkms-2" "k1").0.pool "dkms-2" qkd
        ≡ served_keys generator.pool "dkms-2" qkd
          ++ arrived (find generator.ack_pending "dkms-2" "k1") "k1" qkd)
    × (find (on_ack generator "dkms-2" "k1").0.ack_pending "dkms-2" "k1" ≡ none)
on_ack_lem_example = on_ack_lem generator "dkms-2" "k1" qkd
