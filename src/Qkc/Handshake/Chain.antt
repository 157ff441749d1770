-- ===== src/Qkc/Handshake/Chain.antt =====
-- On the chains of certificates in the messages of qkc/src/pqc_handshake.rs.
use dkms.Prelude.{
  ℕ, ◌%◌, ◌^◌, ◌<◌, ◌≡◌, refl, ◌∙◌, some, List, [], ◌∷◌, ◌++◌, arith, length, All, ltb-false,
  length-append, take-append, drop-append, append_assoc,
}
use dkms.Prelude.Bytes.{Bytes, be_bytes, from_be, length-be_bytes, from_be-be_bytes}
use dkms.Qkc.Handshake.{
  split_first, push_cert, and_then, chain_entries, encode_cert_chain, read_certs, split_cert_chain,
}

split_first-append :
    (n : ℕ) (xs ys : Bytes) → length xs ≡ n → split_first n (xs ++ ys) ≡ some (xs, ys)
unfolding split_first
split_first-append n xs ys h = rw (
  ltb-false (length (xs ++ ys)) n (omega (arith, length-append xs ys, h)),
  take-append xs ys {n = n} h,
  drop-append xs ys {n = n} h,
)

split_first-number :
    (n x : ℕ) (rest : Bytes) → split_first n (be_bytes n x ++ rest) ≡ some (be_bytes n x, rest)
split_first-number n x rest = split_first-append n (be_bytes n x) rest (length-be_bytes n x)

-- A certificate has fewer than 2 ^ 32 bytes.
abbrev pub IsCert : Bytes → Type 0
IsCert c = length c < 2 ^ 32

read_certs-chain_entries :
    (chain : List Bytes) (rest : Bytes)
    → All IsCert chain
    → read_certs (length chain) (chain_entries chain ++ rest) ≡ some (chain, rest)
unfolding read_certs chain_entries and_then push_cert
read_certs-chain_entries [] rest h = refl
read_certs-chain_entries (c ∷ cs) rest h =
    let size = be_bytes 4 (length c % 2 ^ 32) in
    let small : from_be size ≡ length c =
      from_be-be_bytes 4 (length c % 2 ^ 32) (omega arith) ∙ omega (arith, h.0) in
    rw (
      append_assoc size (c ++ chain_entries cs) rest,
      append_assoc c (chain_entries cs) rest,
      split_first-number 4 (length c % 2 ^ 32) (c ++ (chain_entries cs ++ rest)),
      small,
      split_first-append (length c) c (chain_entries cs ++ rest) refl,
      read_certs-chain_entries cs rest h.1,
    )

-- A chain of fewer than 2 ^ 16 certificates, each of fewer than 2 ^ 32 bytes, is read back, with
-- what follows it.
pub split-encode_cert_chain :
    (chain : List Bytes) (rest : Bytes)
    → length chain < 2 ^ 16
    → All IsCert chain
    → split_cert_chain (encode_cert_chain chain ++ rest) ≡ some (chain, rest)
unfolding split_cert_chain encode_cert_chain and_then
split-encode_cert_chain chain rest n h =
    let count = be_bytes 2 (length chain % 2 ^ 16) in
    let small : from_be count ≡ length chain =
      from_be-be_bytes 2 (length chain % 2 ^ 16) (omega arith) ∙ omega (arith, n) in
    rw (
      append_assoc count (chain_entries chain) rest,
      split_first-number 2 (length chain % 2 ^ 16) (chain_entries chain ++ rest),
      small,
      read_certs-chain_entries chain rest h,
    )
