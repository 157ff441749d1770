-- ===== src/Qkc/Crypto/Chunks.antt =====
-- On the chunks of qkc/src/crypto.rs.
use native.Mathlib.Nat.{div-eq-sub-div, div-eq_of_lt}
use dkms.Prelude.{
  ℕ, zero, suc, ◌+◌, ◌-◌, ◌/◌, ◌≤◌, ◌<◌, ◌≡◌, refl, sym, ap, ◌∙◌, ◌⊎◌, List, [], ◌∷◌, ◌++◌, length,
  take, drop, All, arith, take_all, drop_all, take-append, drop-append, append-nil, length-drop,
  length-take, take-append-drop, Bool-cases, inl, inr, leb,
}
use dkms.Prelude.Bytes.{Bytes}
use dkms.Prelude.Outcome.{ok}
use dkms.Qkc.Crypto.{num_chunks, chunks_in}

-- The chunks in one byte string.
unfoldable pub join : List Bytes → Bytes
join [] = []
join (c ∷ cs) = c ++ join cs

-- The number of chunks that are needed for some bytes.
unfoldable pub needed : ℕ → ℕ → ℕ
needed n d = (n + d) / suc d

pub needed_zero : (d : ℕ) → needed 0 d ≡ 0
unfolding needed
needed_zero d = div-eq_of_lt (omega arith)

pub num_chunks_lem : (n d : ℕ) → num_chunks n (suc d) ≡ ok (needed n d)
unfolding num_chunks needed
num_chunks_lem zero d = ap ok (sym (needed_zero d))
num_chunks_lem (suc n) d = ground arith

le_or_lt : (m n : ℕ) → (m ≤ n) ⊎ (n < m)
le_or_lt m n = elim (Bool-cases (leb m n)) [
  | inl e ↦ inl (ground arith)
  | inr e ↦ inr (ground arith)
]

pub needed_step : (n d : ℕ) → 0 < n → needed n d ≡ needed (n - suc d) d + 1
unfolding needed
needed_step n d h =
    div-eq-sub-div {m = suc d} {n = n + d} (omega arith) (omega arith)
    ∙ ap (λ (q : ℕ). q + 1)
        (elim (le_or_lt (suc d) n) [
          | inl l ↦ ap (λ (x : ℕ). x / suc d) (omega arith)
          | inr l ↦
              div-eq_of_lt {n = n + d - suc d} {m = suc d} (omega arith)
              ∙ sym (div-eq_of_lt {n = n - suc d + d} {m = suc d} (omega arith))
        ])

pub join-chunks_in :
    (rounds d : ℕ) (bytes : Bytes)
    → length bytes ≤ rounds
    → join (chunks_in rounds (suc d) bytes) ≡ bytes
unfolding join chunks_in
join-chunks_in zero d [] h = refl
join-chunks_in zero d (b ∷ bytes) h = absurd (omega arith)
join-chunks_in (suc rounds) d [] h = refl
join-chunks_in (suc rounds) d (b ∷ bytes) h =
    rw (join-chunks_in rounds d (drop d bytes) (omega (arith, length-drop d bytes)))
      (ap (◌∷◌ b) (take-append-drop d bytes))

pub length-chunks_in :
    (rounds d : ℕ) (bytes : Bytes)
    → length bytes ≤ rounds
    → length (chunks_in rounds (suc d) bytes) ≡ needed (length bytes) d
unfolding chunks_in
length-chunks_in zero d [] h = sym (needed_zero d)
length-chunks_in zero d (b ∷ bytes) h = absurd (omega arith)
length-chunks_in (suc rounds) d [] h = sym (needed_zero d)
length-chunks_in (suc rounds) d (b ∷ bytes) h =
    let e = length-drop d bytes in
    let i = length-chunks_in rounds d (drop d bytes) (omega arith) in
    let left : suc (length bytes) - suc d ≡ length bytes - d = omega arith in
    omega (
      arith,
      i,
      needed_step (suc (length bytes)) d (omega arith),
      ap (λ (x : ℕ). needed x d) e,
      ap (λ (x : ℕ). needed x d) left,
    )

-- Each chunk has at most `n` bytes.
pub chunks_in-All :
    (rounds n : ℕ) (bytes : Bytes) → All (λ (c : Bytes). length c ≤ n) (chunks_in rounds n bytes)
unfolding chunks_in
chunks_in-All zero n bytes = tt
chunks_in-All (suc rounds) n [] = tt
chunks_in-All (suc rounds) n (b ∷ bytes) =
    (omega (arith, length-take n (b ∷ bytes)), chunks_in-All rounds n (drop n (b ∷ bytes)))

-- A first part that fills a chunk, or that is all there is.
abbrev pub IsCut : Bytes → Bytes → ℕ → Type 0
IsCut x y n = (length x ≡ n) ⊎ ((length x ≤ n) × (y ≡ []))

take-IsCut : (x y : Bytes) (n : ℕ) → IsCut x y n → take n (x ++ y) ≡ x
take-IsCut x y n (inl e) = take-append x y e
take-IsCut x y n (inr (l, e)) = rw (e, append-nil x) (take_all x n l)

drop-IsCut : (x y : Bytes) (n : ℕ) → IsCut x y n → drop n (x ++ y) ≡ y
drop-IsCut x y n (inl e) = drop-append x y e
drop-IsCut x y n (inr (l, e)) = rw (e, append-nil x) (drop_all x n l)

pub chunks_in-IsCut :
    (rounds n : ℕ) (x y : Bytes)
    → 0 < length x
    → IsCut x y n
    → chunks_in (suc rounds) n (x ++ y) ≡ x ∷ chunks_in rounds n y
unfolding chunks_in
chunks_in-IsCut rounds n [] y h c = absurd (omega arith)
chunks_in-IsCut rounds n (a ∷ x) y h c = rw (take-IsCut (a ∷ x) y n c, drop-IsCut (a ∷ x) y n c)
