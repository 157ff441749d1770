-- ===== src/Dkms/Buffer.antt =====
-- dkms/src/state/buffer.rs: `SecureKeyBuffer`, a queue of transport keys. A call holds the lock of
-- the queue, so each call is one step.
pub mod Order
pub mod TakeById
use dkms.Prelude.{
  ℕ, String, Bool, Option, none, some, List, [], ◌∷◌, ◌++◌, length, ltb, leb, if◌then◌else◌,
}
use dkms.Prelude.Outcome.{Outcome, ok, err}
use dkms.Prelude.Assoc.{◌==◌, string_keys}

pub record TransportKey : Type 0 where
  pub id : String
  pub bytes : List ℕ

pub record SecureKeyBuffer : Type 0 where
  pub capacity : ℕ
  pub inner : List TransportKey

unfoldable pub new : ℕ → SecureKeyBuffer
new capacity = record { capacity = capacity; inner = [] }

unfoldable pub len : SecureKeyBuffer → ℕ
len b = length b.inner

unfoldable pub below_watermark : SecureKeyBuffer → ℕ → Bool
below_watermark b watermark = ltb (len b) watermark

-- The queue and what a push returns: nothing, or the key that is refused.
abbrev pub Pushed : Type 0
Pushed = SecureKeyBuffer × Outcome TransportKey (Unit {0})

unfoldable pub try_push : SecureKeyBuffer → TransportKey → Pushed
try_push b key = (record b { inner = b.inner ++ key ∷ [] }, ok tt)

unfoldable pub try_push_capped : SecureKeyBuffer → TransportKey → ℕ → Pushed
try_push_capped b key ceiling =
    if leb ceiling (length b.inner)
    then (b, err key)
    else (record b { inner = b.inner ++ key ∷ [] }, ok tt)

unfoldable pub pop_front : List TransportKey → List TransportKey × Option TransportKey
pop_front [] = ([], none)
pop_front (k ∷ ks) = (ks, some k)

unfoldable pub pop_oldest : SecureKeyBuffer → SecureKeyBuffer × Option TransportKey
pop_oldest b = let (q, r) = pop_front b.inner in (record b { inner = q }, r)

unfoldable pub push_front : SecureKeyBuffer → TransportKey → SecureKeyBuffer
push_front b key = record b { inner = key ∷ b.inner }

-- `position` and `remove`: the first key of that id goes
unfoldable pub remove_id : List TransportKey → String → List TransportKey × Option TransportKey
remove_id [] id = ([], none)
remove_id (k ∷ ks) id =
    let (rest, r) = remove_id ks id in if k.id == id then (ks, some k) else (k ∷ rest, r)

unfoldable pub take_by_id : SecureKeyBuffer → String → SecureKeyBuffer × Option TransportKey
take_by_id b id = let (q, r) = remove_id b.inner id in (record b { inner = q }, r)

unfoldable pub clear : SecureKeyBuffer → SecureKeyBuffer
clear b = record b { inner = [] }
