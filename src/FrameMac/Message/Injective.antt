-- ===== src/FrameMac/Message/Injective.antt =====
-- On the message that `build` of common/src/crypto/frame_mac.rs makes.
use dkms.Prelude.{ℕ, ◌%◌, ◌^◌, ◌<◌, ◌≡◌, refl, sym, ◌∙◌, List, length, arith}
use dkms.Prelude.Bytes.{Bytes}
use dkms.Prelude.Outcome.{ok, >>=-eq-ok}
use dkms.FrameMac.Message.{FrameAad, write_lp16, write_key_ids, fixed_part, build, tag_frame}
use dkms.FrameMac.Message.Cancel.{cancel, cancel_field, ok_eq, cancel_lp16, cancel_key_ids}

-- The fields have the widths of their types, and there are fewer than 2 ^ 32 key ids.
pub record IsTyped (a : FrameAad) : Type 0 where
  pub kind_8 : a.kind < 256 ^ 1
  pub grade_8 : a.grade < 256 ^ 1
  pub session_64 : a.session < 256 ^ 8
  pub counter_64 : a.counter < 256 ^ 8
  pub sender_32 : a.sender_id < 256 ^ 4
  pub receiver_32 : a.receiver_id < 256 ^ 4
  pub dest_32 : a.dest_final < 256 ^ 4
  pub key_size_16 : a.key_size_bits < 256 ^ 2
  pub epoch_32 : a.epoch_id < 256 ^ 4
  pub ids_32 : length a.key_ids < 256 ^ 4

make :
    (kind grade session counter sender receiver dest key_size epoch : ℕ)
    → List Bytes
    → (orr dkms body : Bytes) → FrameAad
make kind grade session counter sender receiver dest key_size epoch ids orr dkms body = record {
  kind = kind;
  grade = grade;
  session = session;
  counter = counter;
  sender_id = sender;
  receiver_id = receiver;
  dest_final = dest;
  key_size_bits = key_size;
  epoch_id = epoch;
  key_ids = ids;
  header_orr_mp = orr;
  header_dkms_mp = dkms;
  body = body;
}

-- The fields of the part before the key ids, but for the number of these.
abbrev SameFixed : FrameAad → FrameAad → Type 0
SameFixed a b =
    (a.kind ≡ b.kind)
    × (a.grade ≡ b.grade)
    × (a.session ≡ b.session)
    × (a.counter ≡ b.counter)
    × (a.sender_id ≡ b.sender_id)
    × (a.receiver_id ≡ b.receiver_id)
    × (a.dest_final ≡ b.dest_final)
    × (a.key_size_bits ≡ b.key_size_bits)
    × (a.epoch_id ≡ b.epoch_id)

cancel_fixed :
    (a b : FrameAad) (r s : Bytes)
    → IsTyped a
    → IsTyped b
    → fixed_part a r ≡ fixed_part b s
    → SameFixed a b × (length a.key_ids ≡ length b.key_ids) × (r ≡ s)
unfolding fixed_part
cancel_fixed a b r s t u e =
    let (e0, f0) = cancel tag_frame tag_frame _ _ refl e in
    let (e1, f1) = cancel_field 1 a.kind b.kind _ _ t.kind_8 u.kind_8 f0 in
    let (e2, f2) = cancel_field 1 a.grade b.grade _ _ t.grade_8 u.grade_8 f1 in
    let (e3, f3) = cancel_field 8 a.session b.session _ _ t.session_64 u.session_64 f2 in
    let (e4, f4) = cancel_field 8 a.counter b.counter _ _ t.counter_64 u.counter_64 f3 in
    let (e5, f5) = cancel_field 4 a.sender_id b.sender_id _ _ t.sender_32 u.sender_32 f4 in
    let (e6, f6) = cancel_field 4 a.receiver_id b.receiver_id _ _ t.receiver_32 u.receiver_32 f5 in
    let (e7, f7) = cancel_field 4 a.dest_final b.dest_final _ _ t.dest_32 u.dest_32 f6 in
    let (e8, f8) =
      cancel_field 2 a.key_size_bits b.key_size_bits _ _ t.key_size_16 u.key_size_16 f7 in
    let (e9, f9) = cancel_field 4 a.epoch_id b.epoch_id _ _ t.epoch_32 u.epoch_32 f8 in
    let (n, f) =
      cancel_field 4 (length a.key_ids % 2 ^ 32) (length b.key_ids % 2 ^ 32) _ _ (omega arith)
        (omega arith) f9 in
    ((e1, e2, e3, e4, e5, e6, e7, e8, e9), omega (arith, n, t.ids_32, u.ids_32), f)

same_fields :
    (a b : FrameAad)
    → a.kind ≡ b.kind
    → a.grade ≡ b.grade
    → a.session ≡ b.session
    → a.counter ≡ b.counter
    → a.sender_id ≡ b.sender_id
    → a.receiver_id ≡ b.receiver_id
    → a.dest_final ≡ b.dest_final
    → a.key_size_bits ≡ b.key_size_bits
    → a.epoch_id ≡ b.epoch_id
    → a.key_ids ≡ b.key_ids
    → a.header_orr_mp ≡ b.header_orr_mp
    → a.header_dkms_mp ≡ b.header_dkms_mp
    → a.body ≡ b.body
    → make a.kind a.grade a.session a.counter a.sender_id a.receiver_id a.dest_final a.key_size_bits
        a.epoch_id a.key_ids a.header_orr_mp a.header_dkms_mp a.body
      ≡ make b.kind b.grade b.session b.counter b.sender_id b.receiver_id b.dest_final
          b.key_size_bits b.epoch_id b.key_ids b.header_orr_mp b.header_dkms_mp b.body
same_fields a b e1 e2 e3 e4 e5 e6 e7 e8 e9 e10 e11 e12 e13 = cc

-- Two frames whose fields have the widths of their types, with fewer than 2 ^ 32 key ids, that
-- have the same message for the MAC are the same frame.
pub build_injective :
    (a b : FrameAad) (m : Bytes) → IsTyped a → IsTyped b → build a ≡ ok m → build b ≡ ok m → a ≡ b
unfolding build make
build_injective a b m t u h k =
    let (x, hx, h1) = >>=-eq-ok (write_key_ids a.key_ids) _ h in
    let (y, hy, h2) = >>=-eq-ok (write_lp16 a.header_orr_mp) _ h1 in
    let (z, hz, h3) = >>=-eq-ok (write_lp16 a.header_dkms_mp) _ h2 in
    let (x', kx, k1) = >>=-eq-ok (write_key_ids b.key_ids) _ k in
    let (y', ky, k2) = >>=-eq-ok (write_lp16 b.header_orr_mp) _ k1 in
    let (z', kz, k3) = >>=-eq-ok (write_lp16 b.header_dkms_mp) _ k2 in
    let ((e1, e2, e3, e4, e5, e6, e7, e8, e9), n, f) =
      cancel_fixed a b _ _ t u (ok_eq h3 ∙ sym (ok_eq k3)) in
    let (e10, f10) = cancel_key_ids a.key_ids b.key_ids x x' _ _ n hx kx f in
    let (e11, f11) = cancel_lp16 a.header_orr_mp b.header_orr_mp y y' _ _ hy ky f10 in
    let (e12, f12) = cancel_lp16 a.header_dkms_mp b.header_dkms_mp z z' _ _ hz kz f11 in
    let (l, e13) =
      cancel_field 4 (length a.body % 2 ^ 32) (length b.body % 2 ^ 32) _ _ (omega arith)
        (omega arith) f12 in
    same_fields a b e1 e2 e3 e4 e5 e6 e7 e8 e9 e10 e11 e12 e13
