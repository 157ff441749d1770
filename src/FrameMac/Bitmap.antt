-- ===== src/FrameMac/Bitmap.antt =====
-- common/src/crypto/frame_mac.rs: the bitmap of a replay window, a `Vec<u64>`. `w << k` keeps the
-- low 64 bits. An index past the end, where the source would panic, reads 0 and writes nothing.
pub mod Laws
pub mod Shift
use Prim.Native.Nat.{bit_and, bit_or}
use dkms.Prelude.{
  ℕ, zero, suc, ◌+◌, ◌-◌, ◌*◌, ◌/◌, ◌%◌, ◌^◌, Bool, not, List, [], ◌∷◌, map, length, get_or, set,
  ltb, leb, ◌==◌, if◌then◌else◌,
}

-- `bits[i / 64] & (1u64 << (i % 64)) != 0`
unfoldable pub is_set : List ℕ → ℕ → Bool
is_set bits i = not (bit_and (get_or bits (i / 64) 0) (2 ^ (i % 64)) == 0)

-- `bits[i / 64] |= 1u64 << (i % 64)`
unfoldable pub set_bit : List ℕ → ℕ → List ℕ
set_bit bits i = set bits (i / 64) (bit_or (get_or bits (i / 64) 0) (2 ^ (i % 64)))

-- `bits.iter_mut().for_each(|w| *w = 0)`
unfoldable pub clear : List ℕ → List ℕ
clear bits = map (λ _. 0) bits

-- `for i in (0..n).rev()`, the first argument the rounds left
unfoldable pub shift_words : ℕ → ℕ → List ℕ → List ℕ
shift_words zero words bits = bits
shift_words (suc i) words bits =
    shift_words i words (set bits i (if leb words i then get_or bits (i - words) 0 else 0))

-- `for w in bits.iter_mut()`
unfoldable pub shift_carry : ℕ → ℕ → List ℕ → List ℕ
shift_carry rem carry [] = []
shift_carry rem carry (w ∷ ws) =
    bit_or (w * 2 ^ rem % 2 ^ 64) carry ∷ shift_carry rem (w / 2 ^ (64 - rem)) ws

unfoldable pub shift_bits : List ℕ → ℕ → List ℕ
shift_bits bits by =
    let words = by / 64 in
    let rem = by % 64 in
    let moved = if ltb 0 words then shift_words (length bits) words bits else bits in
    if ltb 0 rem then shift_carry rem 0 moved else moved
