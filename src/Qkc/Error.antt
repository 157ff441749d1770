-- ===== src/Qkc/Error.antt =====
-- qkc/src/error.rs and the errors of qkc/src/frame_auth.rs: the cases that the modelled code returns.
use dkms.Prelude.{ℕ, String}
use dkms.FrameMac.Window.{ReplayError}

pub data FrameAuthError : Type 0 where
  truncated bad_mac : FrameAuthError
  replay : ReplayError → FrameAuthError
  plaintext_rejected : FrameAuthError

pub data QkcError : Type 0 where
  bad_request : String → QkcError
  no_route unknown_neighbor : ℕ → QkcError
  frame_auth : FrameAuthError → QkcError
  not_enough_keys : ℕ → ℕ → QkcError
  key_wait_timeout : String → ℕ → ℕ → QkcError
  quditto : String → QkcError
