-- ===== src/Wire/Bounds.antt =====
-- On `read_frame` of wire/src/lib.rs and bytes of any kind.
use dkms.Prelude.{
  ℕ, zero, suc, ◌+◌, ◌*◌, ◌≤◌, ◌≡◌, refl, ap, sym, subst, Bool, false, not, String, List, [], ◌∷◌,
  arith, length, take, drop, get_or, All, ltb, le_of_ltb, length-take, length-drop, Bool-cases, inl,
  inr, ltb-false,
}
use dkms.Prelude.Bytes.{Bytes, from_le}
use dkms.Prelude.Outcome.{Yields, gives, refuses, Yields-bind, Yields-mono, Yields-refuse_if}
use dkms.Wire.Frame.{Frame, fixed_prefix, max_total_len, magic, bad_magic, too_large}
use dkms.Wire.Cursor.{copy_to_slice, get_le, get_be, read_exact}
use dkms.Wire.Encode.{first_len, total_len}
use dkms.Wire.Decode.{decode_body, read_frame, read_key_ids, read_lp16, read_body, same}
use dkms.Wire.RoundTrip.{read_body_lem}

-- `n` bytes fewer are left.
abbrev Leaves : {A : Type 0} → ℕ → Bytes → A × Bytes → Type 0
Leaves n b r = length r.1 + n ≡ length b

-- As many bytes came out as are missing from the rest.
abbrev Splits : ℕ → Bytes → Bytes × Bytes → Type 0
Splits n b r = (length r.0 ≡ n) × (length r.1 + n ≡ length b)

copy_to_slice-Splits : (n : ℕ) (b : Bytes) → n ≤ length b → Yields (Splits n b) (copy_to_slice n b)
unfolding copy_to_slice
copy_to_slice-Splits n b h =
    rw (ltb-false (length b) n h)
      (gives _ (omega (arith, length-take n b), omega (arith, length-drop n b)))

read_exact-Splits : (n : ℕ) (b : Bytes) → Yields (Splits n b) (read_exact n b)
unfolding read_exact
read_exact-Splits n b = elim (Bool-cases (ltb (length b) n)) [
  | inl short ↦ rw short (refuses _)
  | inr enough ↦
      let h = le_of_ltb (length b) n enough in
      rw enough (gives _ (omega (arith, length-take n b), omega (arith, length-drop n b)))
]

read_body-Splits : (n : ℕ) (b : Bytes) → Yields (Splits n b) (read_body n b)
read_body-Splits n b = rw (read_body_lem n b) (read_exact-Splits n b)

-- The reader's guard on the announced length.
le_max : (n : ℕ) → ltb max_total_len n ≡ false → n ≤ max_total_len
le_max n e = le_of_ltb max_total_len n e

get_le-Leaves : (n : ℕ) (b : Bytes) → n ≤ length b → Yields (Leaves n b) (get_le n b)
unfolding get_le
get_le-Leaves n b h = rw (ltb-false (length b) n h) (gives _ (omega (arith, length-drop n b)))

get_be-Leaves : (n : ℕ) (b : Bytes) → n ≤ length b → Yields (Leaves n b) (get_be n b)
unfolding get_be
get_be-Leaves n b h = rw (ltb-false (length b) n h) (gives _ (omega (arith, length-drop n b)))

-- A field and its two bytes of length.
abbrev Lp16 : Bytes → Bytes × Bytes → Type 0
Lp16 b r = length r.0 + length r.1 + 2 ≡ length b

read_lp16-Lp16 : (what : String) (b : Bytes) → Yields (Lp16 b) (read_lp16 what b)
unfolding read_lp16
read_lp16-Lp16 what b = Yields-bind _ (Yields-refuse_if _ _) λ _ e.
    Yields-bind _ (get_le-Leaves 2 b (le_of_ltb _ _ e)) λ r p.
      Yields-bind _ (Yields-refuse_if _ _) λ _ e'.
        Yields-mono (λ s q. omega (arith, p, q.0, q.1))
          (copy_to_slice-Splits r.0 r.1 (le_of_ltb _ _ e'))

-- As many ids as were asked for, all of one length.
abbrev Ids : ℕ → ℕ → Bytes → List Bytes × Bytes → Type 0
Ids n len b r = All (λ k. length k ≡ len) r.0 × (length r.0 ≡ n) × (length r.1 + n * len ≡ length b)

first_len_uniform :
    (len : ℕ) (ks : List Bytes)
    → All (λ k. length k ≡ len) ks
    → (first_len ks * length ks ≡ len * length ks) × All (λ k. length k ≡ first_len ks) ks
unfolding first_len
first_len_uniform len [] h = (omega arith, tt)
first_len_uniform len (k ∷ ks) h =
    (ap (λ t. t * length (k ∷ ks)) h.0, subst (λ t. All (λ j. length j ≡ t) (k ∷ ks)) (sym h.0) h)

-- The key ids of a frame have one length, and its parts add up to no more than was announced.
pub record IsSound (limit : ℕ) (f : Frame) : Type 0 where
  pub uniform : All (λ k. length k ≡ first_len f.key_ids) f.key_ids
  pub total : total_len f ≤ limit + fixed_prefix

module _ (is_utf8 : Bytes → Bool) where
  read_key_ids-Ids :
      (n len : ℕ) (b : Bytes)
      → n * len ≤ length b
      → Yields (Ids n len b) (read_key_ids is_utf8 n len b)
  unfolding read_key_ids
  read_key_ids-Ids zero len b h = gives ([], b) (tt, refl, omega arith)
  read_key_ids-Ids (suc n) len b h = Yields-bind _ (copy_to_slice-Splits len b (omega arith)) λ r p.
      Yields-bind _ (Yields-refuse_if _ _) λ _ _.
        Yields-bind _ (read_key_ids-Ids n len r.1 (omega (arith, p.1)))
          λ s q. gives (r.0 ∷ s.0, s.1) ((p.0, q.0), omega (arith, q.1), omega (arith, p.1, q.2))

  decode_body-IsSound : (b : Bytes) → Yields (IsSound (length b)) (decode_body is_utf8 b)
  unfolding decode_body total_len
  decode_body-IsSound b = Yields-bind _ (Yields-refuse_if _ _) λ _ e.
      let h = le_of_ltb (length b) 20 e in
      Yields-bind _ (get_le-Leaves 4 b (omega arith)) λ r1 p1.
        Yields-bind _ (get_le-Leaves 4 r1.1 (omega arith)) λ r2 p2.
          Yields-bind _ (get_le-Leaves 4 r2.1 (omega arith)) λ r3 p3.
            Yields-bind _ (get_le-Leaves 2 r3.1 (omega arith)) λ r4 p4.
              Yields-bind _ (get_be-Leaves 4 r4.1 (omega arith)) λ r5 p5.
                Yields-bind _ (get_le-Leaves 1 r5.1 (omega arith)) λ r6 p6.
                  Yields-bind _ (get_le-Leaves 1 r6.1 (omega arith)) λ r7 p7.
                    Yields-bind _ (Yields-refuse_if _ _) λ _ e7.
                      let h7 = le_of_ltb (length r7.1) (r6.0 * r7.0 + 2) e7 in
                      Yields-bind _ (read_key_ids-Ids r6.0 r7.0 r7.1 (omega arith)) λ r8 p8.
                        Yields-bind _ (read_lp16-Lp16 "header_orr" r8.1) λ r9 p9.
                          Yields-bind _ (read_lp16-Lp16 "header_dkms" r9.1) λ r10 p10.
                            Yields-bind _ (Yields-refuse_if _ _) λ _ e10.
                              let h10 = le_of_ltb (length r10.1) 4 e10 in
                              Yields-bind _ (get_le-Leaves 4 r10.1 h10) λ r11 p11.
                                Yields-bind _ (Yields-refuse_if _ _) λ _ e11.
                                  Yields-bind _
                                    (copy_to_slice-Splits r11.0 r11.1 (le_of_ltb _ _ e11))
                                    λ r12 p12.
                                      let u = first_len_uniform r7.0 r8.0 p8.0 in
                                      gives _ (record {
                                        uniform = u.1;
                                        total = omega (arith, u.0, ap (λ (m : ℕ). r7.0 * m) p8.1);
                                      })

  -- Whatever bytes arrive, `read_frame` does not panic, and a frame that it returns has key ids of
  -- one length and parts that add up to at most `max_total_len` and the prefix.
  pub read_frame-IsSound :
      (stream : Bytes) → Yields (λ r. IsSound max_total_len r.0) (read_frame is_utf8 stream)
  unfolding read_frame total_len
  read_frame-IsSound stream = Yields-bind _ (read_exact-Splits fixed_prefix stream) λ r p.
      let n = from_le (drop 6 r.0) in
      Yields-bind _ (Yields-refuse_if (not (same (take 4 r.0) magic)) bad_magic) λ _ _.
        Yields-bind _ (Yields-refuse_if (ltb max_total_len n) (too_large n)) λ _ e.
          Yields-bind _ (read_body-Splits n r.1) λ s q.
            Yields-bind _ (decode_body-IsSound s.0) λ f v.
              gives (record f { kind = get_or r.0 4 0; grade = get_or r.0 5 0 }, s.1)
                (record { uniform = v.uniform; total = omega (arith, q.0, v.total, le_max n e) })
