-- ===== src/FrameMac/Tests.antt =====
-- Windows and frames on which the theorems about the MAC of frames are used.
use dkms.Prelude.{
  ℕ, ◌≡◌, ◌≢◌, refl, true, false, none, some, List, [], ◌∷◌, ◌++◌, arith, inl, ◌%◌, ◌^◌,
}
use dkms.Prelude.Bytes.{Bytes, be_bytes}
use dkms.Prelude.Outcome.{ok}
use dkms.FrameMac.Bitmap.{is_set}
use dkms.FrameMac.Bitmap.Shift.{replicate-IsWords}
use dkms.FrameMac.Window.{
  ReplayWindow, monotonic, new, new_monotonic, check_and_set, check_session, check_current, shift,
  reset_to, leave, contains, is_previous, adopts,
}
use dkms.FrameMac.Window.Spec.{IsBitmap, Represents, fresh_history, spec_check}
use dkms.FrameMac.Window.Refine.{Refines, check_current-Refines}
use dkms.FrameMac.Window.Cases.{IsValid}
use dkms.FrameMac.Window.Valid.{new-IsValid}
use dkms.FrameMac.Window.Once.{run, accepted_once}
use dkms.FrameMac.Message.{FrameAad, build, write_lp16, write_key_ids, fixed_part}
use dkms.FrameMac.Message.Injective.{IsTyped, build_injective}

abbrev window : ReplayWindow
window = new_monotonic 64

window-IsValid : IsValid window
window-IsValid = (new-IsValid 64).1

abbrev frames : List (ℕ × ℕ × ℕ)
frames = (20, 5, 4) ∷ (30, 5, 70) ∷ (40, 6, 1) ∷ []

first_accepted : (check_and_set window 10 5 3).1 ≡ ok tt
unfolding check_and_set check_session check_current shift reset_to leave contains is_previous
    new_monotonic new
first_accepted = refl

frames-monotonic : (run (check_and_set window 10 5 3).0 frames).adopt ≡ monotonic
unfolding run check_and_set check_session check_current shift reset_to leave contains is_previous
    new_monotonic new adopts is_set
frames-monotonic = refl

accepted_once_example :
    (check_and_set (run (check_and_set window 10 5 3).0 frames) 50 5 3).1 ≢ ok tt
accepted_once_example =
    accepted_once window 10 50 5 3 frames window-IsValid first_accepted (inl frames-monotonic)

fresh : Represents 64 0 (0 ∷ []) fresh_history
fresh = record {
  highest_eq = refl;
  below = λ c e. absurd (clash e);
  places = λ b l m. absurd (omega (arith, m));
}
  where
    clash : false ≡ true → ⊥
    clash e = cc

bitmap : IsBitmap 64 (0 ∷ [])
bitmap = record { words = replicate-IsWords 1; room = omega arith; some_width = omega arith }

abbrev current : ReplayWindow
current = record {
  width = 64;
  session = some 5;
  highest = 0;
  bits = 0 ∷ [];
  retired = [];
  prev = none;
  adopt = monotonic;
  last_accept = none;
  quiet = 0;
}

check_current-Refines_example :
    ((check_current current 10 5 3).0.width ≡ 64)
    × Refines 64
        (check_current current 10 5 3).0.highest
        (check_current current 10 5 3).0.bits
        (check_current current 10 5 3).1
        (spec_check 64 fresh_history 5 3)
check_current-Refines_example =
    check_current-Refines current fresh_history 10 5 3 (omega arith) bitmap fresh

abbrev aad : FrameAad
aad = record {
  kind = 10;
  grade = 0;
  session = 7;
  counter = 1;
  sender_id = 2;
  receiver_id = 3;
  dest_final = 3;
  key_size_bits = 256;
  epoch_id = 1;
  key_ids = (97 ∷ []) ∷ (98 ∷ []) ∷ [];
  header_orr_mp = 1 ∷ [];
  header_dkms_mp = [];
  body = 4 ∷ 5 ∷ [];
}

aad-IsTyped : IsTyped aad
aad-IsTyped = record {
  kind_8 = omega arith;
  grade_8 = omega arith;
  session_64 = omega arith;
  counter_64 = omega arith;
  sender_32 = omega arith;
  receiver_32 = omega arith;
  dest_32 = omega arith;
  key_size_16 = omega arith;
  epoch_32 = omega arith;
  ids_32 = omega arith;
}

abbrev message : Bytes
message = fixed_part aad (
    (be_bytes 2 1 ++ 97 ∷ [])
    ++ ((be_bytes 2 1 ++ 98 ∷ []) ++ [])
    ++ ((be_bytes 2 1 ++ 1 ∷ [])
        ++ ((be_bytes 2 0 ++ []) ++ (be_bytes 4 (2 % 2 ^ 32) ++ 4 ∷ 5 ∷ []))))

aad_built : build aad ≡ ok message
unfolding build write_key_ids write_lp16
aad_built = refl

build_injective_example : aad ≡ aad
build_injective_example =
    build_injective aad aad message aad-IsTyped aad-IsTyped aad_built aad_built
