-- ===== src/Qkc/LinkKeys.antt =====
-- qkc/src/frame_auth.rs: `RootSource` and `RecvState`, where the keys of a link for the MACs of its
-- frames come from and what it keeps to receive. HKDF (`derive_key`) is a parameter; the store of
-- secrets that the link shares is a part of the state.
use dkms.Prelude.{ℕ, ◌%◌, ◌-◌, ◌^◌, min, Option, none, some, ◌==◌, if◌then◌else◌}
use dkms.Prelude.Bytes.{Bytes}
use dkms.FrameMac.Window.{ReplayWindow, default_window, new_monotonic, new_quiet_gated}
use dkms.Qkc.SecretStore.{SecretStore, get, highest, request_resync}

pub data RootSource : Type 0 where
  fixed : Bytes → ℕ → Bytes → RootSource
  per_epoch : SecretStore → Option (ℕ × Bytes) → RootSource

pub record RecvState : Type 0 where
  pub window : ReplayWindow
  pub cached : Option (ℕ × Bytes)
  pub last_verified : Option ℕ

unfoldable pub window_for : RootSource → ReplayWindow
window_for (fixed root session send_key) = new_quiet_gated default_window
window_for (per_epoch store send_cache) = new_monotonic default_window

unfoldable pub resync : RootSource → ℕ → RootSource
resync (fixed root own send_key) session = fixed root own send_key
resync (per_epoch store send_cache) session =
    per_epoch (request_resync store (min session (2 ^ 32 - 1))) send_cache

module _ (derive_key : Bytes → ℕ → Bytes) where
  -- The key for `epoch`, from the cache or the store, with the cache that is left.
  unfoldable pub epoch_material :
      SecretStore → Option (ℕ × Bytes) → ℕ → RootSource × Option (ℕ × Bytes)
  epoch_material store none epoch = elim (get store epoch) [
    | none ↦ (per_epoch store none, none)
    | some secret ↦ (
      per_epoch store (some (epoch, derive_key secret epoch)),
      some (epoch, derive_key secret epoch),
    )
  ]
  epoch_material store (some (e, k)) epoch =
      if e == epoch
      then (per_epoch store (some (e, k)), some (epoch, k))
      else elim (get store epoch) [
        | none ↦ (per_epoch store (some (e, k)), none)
        | some secret ↦ (
          per_epoch store (some (epoch, derive_key secret epoch)),
          some (epoch, derive_key secret epoch),
        )
      ]

  unfoldable pub send_material : RootSource → RootSource × Option (ℕ × Bytes)
  send_material (fixed root session send_key) =
      (fixed root session send_key, some (session, send_key))
  send_material (per_epoch store send_cache) = elim (highest store) [
    | none ↦ (per_epoch store send_cache, none)
    | some epoch ↦ epoch_material store send_cache epoch
  ]

  unfoldable pub key_of : RootSource → ℕ → Option Bytes
  key_of (fixed root own send_key) session = some (derive_key root session)
  key_of (per_epoch store send_cache) session = elim (get store (session % 2 ^ 32)) [
    | none ↦ none
    | some secret ↦ some (derive_key secret session)
  ]

  unfoldable pub cached_key : Option (ℕ × Bytes) → ℕ → Option Bytes
  cached_key none session = none
  cached_key (some (s, k)) session = if s == session then some k else none

  unfoldable pub peer_key : RootSource → RecvState → ℕ → RecvState × Option Bytes
  peer_key src st session = elim (cached_key st.cached session) [
    | some k ↦ (st, some k)
    | none ↦ elim (key_of src session) [
      | none ↦ (st, none)
      | some k ↦ (record st { cached = some (session, k) }, some k)
    ]
  ]
