-- ===== src/Wire/Kinds.antt =====
-- wire/src/lib.rs: the frame kinds, and which of them are authenticated variants of which.
use dkms.Prelude.{ℕ, ◌≡◌, ◌↔◌, arith, true, Bool, ◌||◌, Option, none, some, ◌==◌, if◌then◌else◌}

abbrev pub frame_recv : ℕ
frame_recv = 0x01

abbrev pub frame_relay : ℕ
frame_relay = 0x02

abbrev pub frame_recv_auth : ℕ
frame_recv_auth = 0x04

abbrev pub frame_relay_auth : ℕ
frame_relay_auth = 0x05

abbrev pub frame_key_ids_notify : ℕ
frame_key_ids_notify = 0x20

abbrev pub frame_key_ids_notify_auth : ℕ
frame_key_ids_notify_auth = 0x25

abbrev pub frame_local_deliver : ℕ
frame_local_deliver = 0x11

abbrev pub frame_pqc_kem_init : ℕ
frame_pqc_kem_init = 0x21

abbrev pub frame_pqc_kem_resp : ℕ
frame_pqc_kem_resp = 0x22

abbrev pub frame_pqc_kem_init_auth : ℕ
frame_pqc_kem_init_auth = 0x23

abbrev pub frame_pqc_kem_resp_auth : ℕ
frame_pqc_kem_resp_auth = 0x24

abbrev pub frame_pqc_kem_init_signed : ℕ
frame_pqc_kem_init_signed = 0x26

abbrev pub frame_pqc_kem_resp_signed : ℕ
frame_pqc_kem_resp_signed = 0x27

abbrev pub frame_pqc_resync_req : ℕ
frame_pqc_resync_req = 0x28

abbrev pub frame_pqc_resync_req_auth : ℕ
frame_pqc_resync_req_auth = 0x29

abbrev pub frame_pqc_resync_req_signed : ℕ
frame_pqc_resync_req_signed = 0x2A

-- The grade of a frame that carries a key of a QKD path.
abbrev pub grade_qkd : ℕ
grade_qkd = 0

unfoldable pub is_auth_kind : ℕ → Bool
is_auth_kind kind =
    kind == frame_recv_auth || kind == frame_relay_auth || kind == frame_key_ids_notify_auth

unfoldable pub auth_kind_for : ℕ → Option ℕ
auth_kind_for kind =
    if kind == frame_recv
    then some frame_recv_auth
    else if kind == frame_relay
    then some frame_relay_auth
    else if kind == frame_key_ids_notify
    then some frame_key_ids_notify_auth
    else none

unfoldable pub base_kind_of : ℕ → ℕ
base_kind_of kind =
    if kind == frame_recv_auth
    then frame_recv
    else if kind == frame_relay_auth
    then frame_relay
    else if kind == frame_key_ids_notify_auth
    then frame_key_ids_notify
    else kind

-- A kind and its authenticated variant determine one another: the variant of a kind is authenticated
-- and has that kind as its base, and every authenticated kind is the variant of its base.
pub auth_kind_for_iff :
    (kind auth : ℕ)
    → (auth_kind_for kind ≡ some auth) ↔ ((is_auth_kind auth ≡ true) × (base_kind_of auth ≡ kind))
unfolding is_auth_kind auth_kind_for base_kind_of
auth_kind_for_iff kind auth = (λ h. ground arith, λ h. ground arith)
