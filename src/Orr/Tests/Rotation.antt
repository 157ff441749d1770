-- ===== src/Orr/Tests/Rotation.antt =====
-- A message of a rotation on which the theorem about the MACs is used.
use dkms.Prelude.{◌≡◌, refl, [], ◌∷◌, arith}
use dkms.Orr.Macs.Messages.{Message, response, bytes_of_injective}

abbrev answer : Message
answer = response 7 (98 ∷ []) (99 ∷ 100 ∷ []) (1 ∷ 2 ∷ 3 ∷ [])

bytes_of_injective_example : answer ≡ response 7 (98 ∷ []) (99 ∷ 100 ∷ []) (1 ∷ 2 ∷ 3 ∷ [])
bytes_of_injective_example =
    bytes_of_injective answer (response 7 (98 ∷ []) (99 ∷ 100 ∷ []) (1 ∷ 2 ∷ 3 ∷ []))
      ((omega arith, omega arith, omega arith), omega arith)
      ((omega arith, omega arith, omega arith), omega arith) refl
