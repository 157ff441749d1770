-- ===== src/Orr/Macs/Messages.antt =====
-- On the messages that orr/src/macs.rs authenticates.
use dkms.Prelude.{
  ℕ, ◌%◌, ◌^◌, ◌<◌, ◌≡◌, refl, ap, sym, ◌∙◌, [], ◌∷◌, ◌++◌, length, append_assoc, arith,
}
use dkms.Prelude.Bytes.{Bytes, be_bytes}
use dkms.FrameMac.Message.Cancel.{cancel, cancel_field}
use dkms.Orr.Macs.{write_lp16, req_message, resp_message, fin_message, tag_req, tag_resp, tag_fin}

-- The messages of a rotation: the epoch, the two routers and the key or the ciphertext.
pub data Message : Type 0 where
  request : (epoch_id : ℕ) (from peer : Bytes) → Message
  response : (epoch_id : ℕ) (from peer ephemeral_pubkey : Bytes) → Message
  finish : (epoch_id : ℕ) (from peer ciphertext : Bytes) → Message

abbrev pub bytes_of : Message → Bytes
bytes_of (request e f p) = req_message e f p
bytes_of (response e f p k) = resp_message e f p k
bytes_of (finish e f p c) = fin_message e f p c

abbrev Fits : ℕ → Bytes → Bytes → Type 0
Fits e f p = (e < 256 ^ 4) × (length f < 2 ^ 16) × (length p < 2 ^ 16)

-- The epoch has 32 bits and each field fewer than 2 ^ 16 bytes.
abbrev pub IsTyped : Message → Type 0
IsTyped (request e f p) = Fits e f p
IsTyped (response e f p k) = Fits e f p × (length k < 2 ^ 16)
IsTyped (finish e f p c) = Fits e f p × (length c < 2 ^ 16)

cancel_lp16 :
    (x y ys ys' : Bytes)
    → length x < 2 ^ 16
    → length y < 2 ^ 16
    → write_lp16 x ++ ys ≡ write_lp16 y ++ ys'
    → (x ≡ y) × (ys ≡ ys')
unfolding write_lp16
cancel_lp16 x y ys ys' lx ly e =
    let flat =
      sym (append_assoc (be_bytes 2 (length x % 2 ^ 16)) x ys)
      ∙ (e ∙ append_assoc (be_bytes 2 (length y % 2 ^ 16)) y ys') in
    let (size, rest) =
      cancel_field 2 (length x % 2 ^ 16) (length y % 2 ^ 16) (x ++ ys) (y ++ ys') (omega arith)
        (omega arith) flat in
    cancel x y ys ys' (omega arith) rest

cancel_last :
    (x y : Bytes) → length x < 2 ^ 16 → length y < 2 ^ 16 → write_lp16 x ≡ write_lp16 y → x ≡ y
cancel_last x y lx ly e = (cancel_lp16 x y [] [] lx ly (ap (λ w. w ++ []) e)).0

-- The fields that all three messages begin with.
cancel_head :
    (e e' : ℕ) (f f' p p' ys ys' : Bytes)
    → Fits e f p
    → Fits e' f' p'
    → be_bytes 4 e ++ (write_lp16 f ++ (write_lp16 p ++ ys))
      ≡ be_bytes 4 e' ++ (write_lp16 f' ++ (write_lp16 p' ++ ys'))
    → (e ≡ e') × (f ≡ f') × (p ≡ p') × (ys ≡ ys')
cancel_head e e' f f' p p' ys ys' (eb, fb, pb) (eb', fb', pb') same =
    let (epoch, after_epoch) = cancel_field 4 e e' _ _ eb eb' same in
    let (from, after_from) = cancel_lp16 f f' _ _ fb fb' after_epoch in
    let (peer, rest) = cancel_lp16 p p' _ _ pb pb' after_from in (epoch, from, peer, rest)

-- The byte in which the labels of the three phases differ.
abbrev third : Bytes → ℕ
third [] = 0
third (a ∷ []) = 0
third (a ∷ b ∷ []) = 0
third (a ∷ b ∷ c ∷ bs) = c

-- Two messages with fields of the widths that the code provides for, which the MAC is computed of as
-- the same bytes, are the same message: of the same phase, epoch and routers and with the same key or
-- ciphertext.
pub bytes_of_injective : (a b : Message) → IsTyped a → IsTyped b → bytes_of a ≡ bytes_of b → a ≡ b
unfolding req_message resp_message fin_message
bytes_of_injective (response e f p k) (response e' f' p' k') (h, l) (h', l') same =
    let (epoch, from, peer, rest) =
      cancel_head e e' f f' p p' _ _ h h' (cancel tag_resp tag_resp _ _ refl same).1 in
    rw (epoch, from, peer, cancel_last k k' l l' rest)
bytes_of_injective (finish e f p k) (finish e' f' p' k') (h, l) (h', l') same =
    let (epoch, from, peer, rest) =
      cancel_head e e' f f' p p' _ _ h h' (cancel tag_fin tag_fin _ _ refl same).1 in
    rw (epoch, from, peer, cancel_last k k' l l' rest)
bytes_of_injective (request e f p) (request e' f' p') (eb, fb, pb) (eb', fb', pb') same =
    let (epoch, after_epoch) =
      cancel_field 4 e e' _ _ eb eb' (cancel tag_req tag_req _ _ refl same).1 in
    let (from, after_from) = cancel_lp16 f f' _ _ fb fb' after_epoch in
    rw (epoch, from, cancel_last p p' pb pb' after_from)
bytes_of_injective (request e f p) (response e' f' p' k') h h' same =
    absurd (omega (arith, ap third same))
bytes_of_injective (request e f p) (finish e' f' p' k') h h' same =
    absurd (omega (arith, ap third same))
bytes_of_injective (response e f p k) (request e' f' p') h h' same =
    absurd (omega (arith, ap third same))
bytes_of_injective (response e f p k) (finish e' f' p' k') h h' same =
    absurd (omega (arith, ap third same))
bytes_of_injective (finish e f p k) (request e' f' p') h h' same =
    absurd (omega (arith, ap third same))
bytes_of_injective (finish e f p k) (response e' f' p' k') h h' same =
    absurd (omega (arith, ap third same))
