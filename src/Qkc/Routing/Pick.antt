-- ===== src/Qkc/Routing/Pick.antt =====
-- On `pick` of qkc/src/routing.rs.
use native.Mathlib.Nat.{mod-lt}
use dkms.Prelude.{
  ℕ, zero, suc, ◌+◌, ◌-◌, ◌%◌, ◌^◌, ◌<◌, ◌≤◌, ◌≡◌, refl, ap, Option, none, some, List, [], ◌∷◌,
  ◌++◌, replicate, All, length, length-append, length-replicate, arith, ltb, if◌then◌else◌,
}
use dkms.Qkc.Routing.{NextHop, add_u64, sum_weights, pick_from, last_id, pick}

module _ {ℓ} {A : Type ℓ} where
  abbrev pub get_elem? : List A → ℕ → Option A
  get_elem? [] i = none
  get_elem? (x ∷ xs) zero = some x
  get_elem? (x ∷ xs) (suc i) = get_elem? xs i

-- The buckets of the hops: each id stands as often as its weight says.
unfoldable pub buckets : List NextHop → List ℕ
buckets [] = []
buckets (h ∷ hs) = replicate h.weight h.qkc_id ++ buckets hs

get_elem?-replicate :
    (n x : ℕ) (ys : List ℕ) (i : ℕ)
    → get_elem? (replicate n x ++ ys) i ≡ (if ltb i n then some x else get_elem? ys (i - n))
get_elem?-replicate zero x ys i = let e : i - 0 ≡ i = omega arith in rw e (ground arith)
get_elem?-replicate (suc n) x ys zero = ground arith
get_elem?-replicate (suc n) x ys (suc i) =
    let e : suc i - suc n ≡ i - n = omega arith in
    rw e (ground (arith, get_elem?-replicate n x ys i))

length-buckets :
    (h : NextHop) (hs : List NextHop) → length (buckets (h ∷ hs)) ≡ h.weight + length (buckets hs)
unfolding buckets
length-buckets h hs = omega (
  arith,
  length-append (replicate h.weight h.qkc_id) (buckets hs),
  length-replicate h.weight h.qkc_id,
)

buckets_nil : buckets [] ≡ []
unfolding buckets
buckets_nil = refl

get_elem?-buckets :
    (h : NextHop) (hs : List NextHop) (i : ℕ)
    → get_elem? (buckets (h ∷ hs)) i
      ≡ (if ltb i h.weight then some h.qkc_id else get_elem? (buckets hs) (i - h.weight))
unfolding buckets
get_elem?-buckets h hs i = get_elem?-replicate h.weight h.qkc_id (buckets hs) i

add_u64_small : (a b : ℕ) → a + b < 2 ^ 64 → add_u64 a b ≡ a + b
unfolding add_u64
add_u64_small a b h = omega arith

sum_weights_lem :
    (acc : ℕ) (hs : List NextHop)
    → acc + length (buckets hs) < 2 ^ 64
    → sum_weights acc hs ≡ acc + length (buckets hs)
unfolding sum_weights
sum_weights_lem acc [] b = omega (arith, ap length buckets_nil)
sum_weights_lem acc (h ∷ hs) b =
    let l = length-buckets h hs in
    let e = add_u64_small acc h.weight (omega arith) in
    rw e (omega (arith, sum_weights_lem (acc + h.weight) hs (omega arith)))

pick_from_lem :
    (last bucket acc : ℕ) (hs : List NextHop)
    → acc + length (buckets hs) < 2 ^ 64
    → acc ≤ bucket
    → bucket < acc + length (buckets hs)
    → some (pick_from last bucket acc hs) ≡ get_elem? (buckets hs) (bucket - acc)
unfolding pick_from
pick_from_lem last bucket acc [] b l u = absurd (omega (arith, ap length buckets_nil))
pick_from_lem last bucket acc (h ∷ hs) b l u =
    let n = length-buckets h hs in
    let e = add_u64_small acc h.weight (omega arith) in
    let d : bucket - acc - h.weight ≡ bucket - (acc + h.weight) = omega arith in
    rw (e, get_elem?-buckets h hs (bucket - acc), d)
      (ground (arith, pick_from_lem last bucket (acc + h.weight) hs))

-- Where every weight is positive and their sum fits 64 bits, a frame goes to the hop that stands at
-- place `hash` modulo the number of buckets, among buckets of which each hop has as many as its
-- weight; so the entry after the loop is never reached, and no hop is picked where there is none.
pub pick-buckets :
    (hops : List NextHop) (hash : ℕ)
    → All (λ (h : NextHop). 0 < h.weight) hops
    → length (buckets hops) < 2 ^ 64
    → pick hops hash ≡ get_elem? (buckets hops) (hash % length (buckets hops))
unfolding pick
pick-buckets [] hash p b = rw buckets_nil
pick-buckets (h ∷ []) hash p b =
    let w : length (buckets (h ∷ [])) ≡ h.weight =
      omega (arith, length-buckets h [], ap length buckets_nil) in
    rw (w, get_elem?-buckets h [] (hash % h.weight)) (ground (arith, mod-lt hash p.0))
pick-buckets (h ∷ g ∷ hs) hash p b =
    let n = length-buckets h (g ∷ hs) in
    let e = sum_weights_lem 0 (h ∷ g ∷ hs) (omega arith) in
    let z : 0 + length (buckets (h ∷ g ∷ hs)) ≡ length (buckets (h ∷ g ∷ hs)) = omega arith in
    let m : hash % length (buckets (h ∷ g ∷ hs)) - 0 ≡ hash % length (buckets (h ∷ g ∷ hs)) =
      omega arith in
    let small = mod-lt hash {m = length (buckets (h ∷ g ∷ hs))} (omega arith) in
    let i =
      pick_from_lem (last_id h (g ∷ hs)) (hash % length (buckets (h ∷ g ∷ hs))) 0 (h ∷ g ∷ hs)
        (omega arith) (omega arith) (omega arith) in
    rw (e, z) (ground (arith, i, m))
