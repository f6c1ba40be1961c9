-- ===== src/Probe/Fingerprint/Shape.antt =====
-- The layout of a JA4 fingerprint.
use netsee.Prelude.{List, [], arith, length, length-append, length-take, refl, ℕ, ◌∷◌, ◌≡◌, ◌≤◌}
use netsee.Prelude.Text.{Bytes, utf8}
use netsee.Prelude.Words.{digits_of, itoa}
use netsee.Probe.Fingerprint.{
  Digests, ciphers_hex_sorted, count_non_grease, ends_of, extension_texts, hash_extension_texts,
  highest_version, ja4, ja4_alpn, ja4_extension_hash, ja4_hash, ja4_version, two_digit,
  version_code,
}
use netsee.Probe.Hello.{ClientHello}
use netsee.Proto.SessionId.{hex_encode}
use netsee.Proto.SessionId.Fresh.{length-hex_encode}

length-two_digit : (n : ℕ) → n ≤ 99 → length (two_digit n) ≡ 2
unfolding two_digit itoa digits_of
length-two_digit n h = ground arith

count_non_grease-le : (vals : List ℕ) → count_non_grease vals ≤ 99
unfolding count_non_grease
count_non_grease-le vals = ground arith

length-version_code : (ver : ℕ) → length (version_code ver) ≡ 2
unfolding version_code utf8
length-version_code ver = ground arith

length-ends_of : (c : ℕ) (v : Bytes) → length (ends_of (c ∷ v)) ≡ 2
unfolding ends_of
length-ends_of c v = refl

length-ja4_alpn : (vals : List Bytes) → length (ja4_alpn vals) ≡ 2
unfolding ja4_alpn utf8 hex_encode ends_of
length-ja4_alpn [] = refl
length-ja4_alpn ([] ∷ vals) = refl
length-ja4_alpn ((c ∷ v) ∷ vals) = ground arith

-- SHA-256 gives 32 bytes.
module _ (d : Digests) (wide : (s : Bytes) → length (d.sha256 s) ≡ 32) where
  length-ja4_hash : (s : Bytes) → length (ja4_hash d s) ≡ 12
  unfolding ja4_hash utf8
  length-ja4_hash [] = refl
  length-ja4_hash (c ∷ s) =
      length-take 12 (hex_encode (d.sha256 (c ∷ s)))
        (omega (arith, length-hex_encode (d.sha256 (c ∷ s)), wide (c ∷ s)))

  length-hash_extension_texts :
      (l : List Bytes) (algs : List ℕ) → length (hash_extension_texts d l algs) ≡ 12
  unfolding hash_extension_texts
  length-hash_extension_texts [] algs = unfold utf8 in refl
  length-hash_extension_texts (x ∷ l) algs = length-ja4_hash _

  length-ja4_extension_hash : (exts algs : List ℕ) → length (ja4_extension_hash d exts algs) ≡ 12
  unfolding ja4_extension_hash
  length-ja4_extension_hash exts algs = length-hash_extension_texts (extension_texts exts) algs

  -- If SHA-256 gives 32 bytes, every JA4 has 36, whatever the hello is.
  pub length-ja4 : (c : ClientHello) → length (ja4 d c) ≡ 36
  unfolding ja4 ja4_version
  length-ja4 c = simp length-append (
      omega (
        arith,
        length-version_code (highest_version c.legacy_version c.supp_versions),
        length-two_digit (count_non_grease c.ciphers) (count_non_grease-le c.ciphers),
        length-two_digit (count_non_grease c.extensions) (count_non_grease-le c.extensions),
        length-ja4_alpn c.alpn,
        length-ja4_hash (ciphers_hex_sorted c.ciphers),
        length-ja4_extension_hash c.extensions c.sig_algs,
      ))
