-- ===== src/Wire/Frame.antt =====
-- wire/src/lib.rs: the frame, its error type and its limits. Text is a list of bytes.
use dkms.Prelude.{ℕ, ◌*◌, ◌^◌, ◌<◌, String, List, [], ◌∷◌}
use dkms.Prelude.Bytes.{Bytes}
use dkms.Prelude.Outcome.{Outcome}

-- b"\x51\x4B\x43\x03"
abbrev pub magic : Bytes
magic = 0x51 ∷ 0x4B ∷ 0x43 ∷ 0x03 ∷ []

-- 4 + 1 + 1 + 4
abbrev pub fixed_prefix : ℕ
fixed_prefix = 10

abbrev pub max_total_len : ℕ
max_total_len = 1024 * 1024

-- What `io::Error` the reader can meet.
pub data IoError : Type 0 where
  unexpected_eof timed_out : IoError

pub data WireError : Type 0 where
  io : IoError → WireError
  bad_magic : WireError
  too_large : ℕ → WireError
  truncated : String → WireError
  field_too_long : String → WireError

pub record Frame : Type 0 where
  pub kind : ℕ
  pub grade : ℕ
  pub sender_id : ℕ
  pub receiver_id : ℕ
  pub dest_final : ℕ
  pub key_size_bits : ℕ
  pub epoch_id : ℕ
  pub key_ids : List Bytes
  pub header_orr_mp : Bytes
  pub header_dkms_mp : Bytes
  pub payload : Bytes

unfoldable pub empty : ℕ → Frame
empty kind = record {
  kind = kind;
  grade = 0;
  sender_id = 0;
  receiver_id = 0;
  dest_final = 0;
  key_size_bits = 0;
  epoch_id = 0;
  key_ids = [];
  header_orr_mp = [];
  header_dkms_mp = [];
  payload = [];
}

-- The ranges that the types `u8`, `u16` and `u32` of the fields give.
pub record IsTyped (f : Frame) : Type 0 where
  pub kind : f.kind < 256
  pub grade : f.grade < 256
  pub sender_id : f.sender_id < 2 ^ 32
  pub receiver_id : f.receiver_id < 2 ^ 32
  pub dest_final : f.dest_final < 2 ^ 32
  pub key_size_bits : f.key_size_bits < 2 ^ 16
  pub epoch_id : f.epoch_id < 2 ^ 32

abbrev pub Io : Type 0 → Type 0
Io A = Outcome WireError A
