-- ===== src/Probe/Fingerprint/Grease.antt =====
-- The fingerprints and GREASE values.
use netsee.Prelude.{
  ==_iff, All, Bool, Bool-cases, List, [], arith, false, if◌then◌else◌, inl, inr, refl, true, ℕ,
  ◌++◌, ◌+◌, ◌==◌, ◌||◌, ◌∷◌, ◌≡◌,
}
use netsee.Prelude.Text.{Bytes}
use netsee.Prelude.Words.{itoa}
use netsee.Probe.Fingerprint.{
  Digests, cipher_texts, ciphers_hex_sorted, count_from, count_non_grease, extension_texts,
  highest_version, is_grease, ja3, ja3_text, ja4, ja4_extension_hash, ja4_version, write_dec_list,
}
use netsee.Probe.Hello.{ClientHello}

-- The GREASE values of RFC 8701.
abbrev grease_values : List ℕ
grease_values =
    0x0a0a ∷ 0x1a1a ∷ 0x2a2a ∷ 0x3a3a ∷ 0x4a4a ∷ 0x5a5a ∷ 0x6a6a ∷ 0x7a7a ∷ 0x8a8a ∷ 0x9a9a ∷ 0xaaaa
    ∷ 0xbaba ∷ 0xcaca ∷ 0xdada ∷ 0xeaea ∷ 0xfafa ∷ []

has_value : ℕ → List ℕ → Bool
has_value v [] = false
has_value v (w ∷ ws) = v == w || has_value v ws

reserved : ℕ → Bool
reserved v = has_value v grease_values

All-recognised :
    (v : ℕ) (ws : List ℕ)
    → All (λ w. is_grease w ≡ true) ws
    → has_value v ws ≡ true
    → is_grease v ≡ true
unfolding has_value
All-recognised v [] h e = cc
All-recognised v (w ∷ ws) (hit, h) e = elim (Bool-cases (v == w)) [
  | inl same ↦ rw ((==_iff v w).0 same) hit
  | inr other ↦ All-recognised v ws h (rw other at e)
]

reserved-grease : (v : ℕ) → reserved v ≡ true → is_grease v ≡ true
unfolding is_grease reserved
reserved-grease v e =
    All-recognised v grease_values
      (
        refl,
        (
          refl,
          (
            refl,
            (
              refl,
              (
                refl,
                (
                  refl,
                  (
                    refl,
                    (refl, (refl, (refl, (refl, (refl, (refl, (refl, (refl, (refl, tt))))))))),
                  ),
                ),
              ),
            ),
          ),
        ),
      )
      e

-- The values that are not GREASE, in order.
without_grease : List ℕ → List ℕ
without_grease [] = []
without_grease (v ∷ vals) = let rest = without_grease vals in if reserved v then rest else v ∷ rest

-- A hello whose GREASE values are gone from the lists that the fingerprints read.
pub strip : ClientHello → ClientHello
strip c = record c {
  ciphers = without_grease c.ciphers;
  extensions = without_grease c.extensions;
  groups = without_grease c.groups;
  supp_versions = without_grease c.supp_versions;
}

write_dec_list-without_grease :
    (out : Bytes) (first : Bool) (vals : List ℕ)
    → write_dec_list out first (without_grease vals) ≡ write_dec_list out first vals
unfolding write_dec_list without_grease
write_dec_list-without_grease out first [] = refl
write_dec_list-without_grease out first (v ∷ vals) =
    let dashed = out ++ ((if first then [] else b'-' ∷ []) ++ itoa v) in
    ground (
      arith,
      reserved-grease v,
      write_dec_list-without_grease out first vals,
      write_dec_list-without_grease dashed false vals,
    )

count_from-without_grease :
    (n : ℕ) (vals : List ℕ) → count_from n (without_grease vals) ≡ count_from n vals
unfolding count_from without_grease
count_from-without_grease n [] = refl
count_from-without_grease n (v ∷ vals) = ground (
  arith,
  reserved-grease v,
  count_from-without_grease n vals,
  count_from-without_grease (n + 1) vals,
)

highest_version-without_grease :
    (ver : ℕ) (vs : List ℕ) → highest_version ver (without_grease vs) ≡ highest_version ver vs
unfolding highest_version without_grease
highest_version-without_grease ver [] = refl
highest_version-without_grease ver (v ∷ vs) = ground (
  arith,
  reserved-grease v,
  highest_version-without_grease ver vs,
  highest_version-without_grease v vs,
)

cipher_texts-without_grease : (cs : List ℕ) → cipher_texts (without_grease cs) ≡ cipher_texts cs
unfolding cipher_texts without_grease
cipher_texts-without_grease [] = refl
cipher_texts-without_grease (c ∷ cs) =
    ground (arith, reserved-grease c, cipher_texts-without_grease cs)

extension_texts-without_grease :
    (es : List ℕ) → extension_texts (without_grease es) ≡ extension_texts es
unfolding extension_texts without_grease
extension_texts-without_grease [] = refl
extension_texts-without_grease (e ∷ es) =
    ground (arith, reserved-grease e, extension_texts-without_grease es)

-- The sixteen GREASE values of RFC 8701, which clients draw at random, change neither fingerprint
-- where they stand among the ciphers, extensions, groups or versions, whatever the digests.
pub ja3-ja4-strip :
    (d : Digests) (c : ClientHello) → (ja3 d (strip c) ≡ ja3 d c) × (ja4 d (strip c) ≡ ja4 d c)
unfolding ja3 ja3_text ja4 strip ja4_version count_non_grease ciphers_hex_sorted ja4_extension_hash
ja3-ja4-strip d c = (
  simp write_dec_list-without_grease,
  simp (
    count_from-without_grease, highest_version-without_grease, cipher_texts-without_grease,
    extension_texts-without_grease,
  ),
)
