-- ===== src/Wire/Tests.antt =====
-- Frames, trailers and lists of ids on which the theorems about the wire format are used.
use dkms.Prelude.{◌≡◌, refl, Bool, [], ◌∷◌, ◌++◌, all, arith, ltb}
use dkms.Prelude.Bytes.{Bytes}
use dkms.Prelude.Outcome.{ok, Yields}
use dkms.Wire.Frame.{Frame, IsTyped, max_total_len}
use dkms.Wire.Encode.{encode, first_len, total_len, validate_for_encode, write_frame}
use dkms.Wire.Decode.{read_frame}
use dkms.Wire.RoundTrip.{read_frame-write_frame}
use dkms.Wire.Bounds.{read_frame-IsSound, IsSound}

abbrev is_ascii : Bytes → Bool
is_ascii k = all (λ b. ltb b 128) k

abbrev sample : Frame
sample = record {
  kind = 3;
  grade = 1;
  sender_id = 7;
  receiver_id = 8;
  dest_final = 9;
  key_size_bits = 256;
  epoch_id = 2;
  key_ids = (97 ∷ 98 ∷ []) ∷ (99 ∷ 100 ∷ []) ∷ [];
  header_orr_mp = 1 ∷ [];
  header_dkms_mp = 2 ∷ 3 ∷ [];
  payload = 4 ∷ 5 ∷ 6 ∷ [];
}

sample-IsTyped : IsTyped sample
sample-IsTyped = record {
  kind = omega arith;
  grade = omega arith;
  sender_id = omega arith;
  receiver_id = omega arith;
  dest_final = omega arith;
  key_size_bits = omega arith;
  epoch_id = omega arith;
}

sample_written : write_frame sample ≡ ok (encode sample)
unfolding write_frame validate_for_encode first_len total_len
sample_written = refl

read_frame-write_frame_example : read_frame is_ascii (encode sample ++ 1 ∷ []) ≡ ok (sample, 1 ∷ [])
read_frame-write_frame_example =
    read_frame-write_frame is_ascii sample (encode sample) (1 ∷ []) sample-IsTyped
      (refl, (refl, tt)) sample_written

read_frame-IsSound_example :
    Yields (λ r. IsSound max_total_len r.0) (read_frame is_ascii (81 ∷ 75 ∷ 67 ∷ []))
read_frame-IsSound_example = read_frame-IsSound is_ascii (81 ∷ 75 ∷ 67 ∷ [])
