-- ===== src/Wire/Trailer/RoundTrip.antt =====
-- On `append_auth_trailer` and `split_auth_trailer` of wire/src/lib.rs.
use dkms.Prelude.{
  ℕ, ◌-◌, ◌^◌, ◌<◌, ◌≡◌, ◌++◌, arith, length, take, drop, ltb-false, sym, ap, ◌∙◌, drop-drop,
  take-append, drop-append, length-append, take-length-append, drop-length-append,
}
use dkms.Prelude.Bytes.{Bytes, le_bytes, from_le, length-le_bytes, from_le-le_bytes}
use dkms.Prelude.Outcome.{ok, err}
use dkms.Wire.Frame.{truncated}
use dkms.Wire.Trailer.{append_auth_trailer, split_auth_trailer, auth_trailer_len}

split-append :
    (p t : Bytes)
    → length t ≡ auth_trailer_len
    → split_auth_trailer (p ++ t)
      ≡ ok (p, from_le (take 8 t), from_le (take 8 (drop 8 t)), drop 16 t)
unfolding split_auth_trailer
split-append p t e =
    let cut : length (p ++ t) - auth_trailer_len ≡ length p = omega (arith, length-append p t) in
    rw (
      ltb-false (length (p ++ t)) auth_trailer_len (omega (arith, length-append p t)),
      cut,
      take-length-append p t,
      drop-length-append p t,
    )

-- Splitting gives back what was appended, for every payload and every session and counter of 64
-- bits, with a tag of 32 bytes.
pub split-append_auth_trailer :
    (payload tag : Bytes) (session counter : ℕ)
    → session < 2 ^ 64
    → counter < 2 ^ 64
    → length tag ≡ 32
    → split_auth_trailer (append_auth_trailer payload session counter tag)
      ≡ ok (payload, session, counter, tag)
unfolding append_auth_trailer
split-append_auth_trailer payload tag session counter hs hc ht =
    let ls = length-le_bytes 8 session in
    let lc = length-le_bytes 8 counter in
    let after : drop 8 (le_bytes 8 session ++ (le_bytes 8 counter ++ tag))
        ≡ le_bytes 8 counter ++ tag =
      drop-append (le_bytes 8 session) _ ls in
    let last : drop 16 (le_bytes 8 session ++ (le_bytes 8 counter ++ tag)) ≡ tag =
      sym (drop-drop 8 8 (le_bytes 8 session ++ (le_bytes 8 counter ++ tag)))
      ∙ ap (drop 8) after
      ∙ drop-append (le_bytes 8 counter) tag lc in
    rw
      (split-append payload (le_bytes 8 session ++ (le_bytes 8 counter ++ tag)) (
        omega (
          arith,
          length-append (le_bytes 8 session) (le_bytes 8 counter ++ tag),
          length-append (le_bytes 8 counter) tag,
          ls,
          lc,
        )))
      (rw (
        after,
        last,
        take-append (le_bytes 8 session) (le_bytes 8 counter ++ tag) ls,
        take-append (le_bytes 8 counter) tag lc,
        from_le-le_bytes 8 session hs,
        from_le-le_bytes 8 counter hc,
      ))

-- It fails, without a panic, exactly on the payloads that are shorter than a trailer.
pub split_auth_trailer_short :
    (payload : Bytes)
    → length payload < auth_trailer_len
    → split_auth_trailer payload ≡ err (truncated "auth trailer")
unfolding split_auth_trailer
split_auth_trailer_short payload h = ground arith
