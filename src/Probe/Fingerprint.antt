-- ===== src/Probe/Fingerprint.antt =====
-- internal/probe/ja3.go, second half: the JA3 and JA4 fingerprints.
pub mod Grease
pub mod Order
pub mod Shape
mod Tests
use Prim.Native.Nat.{bit_and}
use mathlib.Core.List.{map}
use netsee.Prelude.{
  Bool, List, [], false, if◌then◌else◌, leb, ltb, not, take, true, ℕ, ◌%◌, ◌&&◌, ◌++◌, ◌+◌, ◌/◌,
  ◌==◌, ◌||◌, ◌∷◌,
}
use netsee.Prelude.Sort.{sort_strings}
use netsee.Prelude.Text.{Bytes, is_empty, join, utf8}
use netsee.Prelude.Words.{itoa}
use netsee.Probe.Hello.{ClientHello, ext_alpn, ext_sni}
use netsee.Proto.SessionId.{hex_encode}

-- `v & 0x0f0f == 0x0a0a` on a uint16
is_grease : ℕ → Bool
is_grease v = bit_and v 0x0f0f == 0x0a0a

-- `writeByteDecList`, onto what was written; the flag is `i > 0`.
write_byte_dec_list : Bytes → Bool → Bytes → Bytes
write_byte_dec_list out behind [] = out
write_byte_dec_list out behind (v ∷ vals) =
    write_byte_dec_list (out ++ ((if behind then b'-' ∷ [] else []) ++ itoa v)) true vals

-- The loop of `writeDecList`, with its variable `first`.
write_dec_list : Bytes → Bool → List ℕ → Bytes
write_dec_list out first [] = out
write_dec_list out first (v ∷ vals) = elim (is_grease v) [
  | true ↦ write_dec_list out first vals
  | false ↦ write_dec_list (out ++ ((if first then [] else b'-' ∷ []) ++ itoa v)) false vals
]

-- `md5.Sum` and `sha256.Sum256` are parameters: functions of the bytes to 16 and 32 bytes.
pub record Digests : Type 0 where
  pub md5 : Bytes → Bytes
  pub sha256 : Bytes → Bytes

-- The text that JA3 hashes.
pub ja3_text : ClientHello → Bytes
ja3_text c =
    let versioned = itoa c.legacy_version ++ (b',' ∷ []) in
    let ciphers = write_dec_list versioned true c.ciphers ++ (b',' ∷ []) in
    let extensions = write_dec_list ciphers true c.extensions ++ (b',' ∷ []) in
    let groups = write_dec_list extensions true c.groups ++ (b',' ∷ []) in
    write_byte_dec_list groups false c.point_formats

pub ja3 : Digests → ClientHello → Bytes
ja3 d c = hex_encode (d.md5 (ja3_text c))

-- The loop of `countNonGREASE` from `n`.
count_from : ℕ → List ℕ → ℕ
count_from n [] = n
count_from n (v ∷ vals) = count_from (if is_grease v then n else n + 1) vals

count_non_grease : List ℕ → ℕ
count_non_grease vals = let n = count_from 0 vals in if ltb 99 n then 99 else n

-- `fmt.Sprintf("%02d", n)`: two digits at least
two_digit : ℕ → Bytes
two_digit n = if ltb n 10 then b'0' ∷ itoa n else itoa n

-- The loop of `ja4Version` from `ver`.
highest_version : ℕ → List ℕ → ℕ
highest_version ver [] = ver
highest_version ver (v ∷ vs) =
    highest_version (if not (is_grease v) && ltb ver v then v else ver) vs

version_code : ℕ → Bytes
version_code ver =
    if ver == 0x0304
    then utf8 "13"
    else if ver == 0x0303
    then utf8 "12"
    else if ver == 0x0302
    then utf8 "11"
    else if ver == 0x0301
    then utf8 "10"
    else if ver == 0x0300
    then utf8 "s3"
    else if ver == 0x0002
    then utf8 "s2"
    else if ver == 0xfeff
    then utf8 "d1"
    else if ver == 0xfefd
    then utf8 "d2"
    else if ver == 0xfefc
    then utf8 "d3"
    else utf8 "00"

ja4_version : List ℕ → ℕ → Bytes
ja4_version vs fallback = version_code (highest_version fallback vs)

is_alnum : ℕ → Bool
is_alnum c = leb b'0' c && leb c b'9' || leb b'A' c && leb c b'Z' || leb b'a' c && leb c b'z'

-- `v[len(v)-1]` of `c ∷ v`
last_of : ℕ → Bytes → ℕ
last_of c [] = c
last_of c (d ∷ v) = last_of d v

-- The first and the last of some bytes; the source calls it on none that are empty.
ends_of : Bytes → Bytes
ends_of [] = []
ends_of (c ∷ v) = c ∷ last_of c v ∷ []

ja4_alpn : List Bytes → Bytes
ja4_alpn [] = utf8 "00"
ja4_alpn ([] ∷ vals) = utf8 "00"
ja4_alpn ((c ∷ v) ∷ vals) =
    if is_alnum c && is_alnum (last_of c v)
    then c ∷ last_of c v ∷ []
    else ends_of (hex_encode (c ∷ v))

-- `fmt.Sprintf("%04x", c)` of a uint16
hex4 : ℕ → Bytes
hex4 v = hex_encode (v / 256 ∷ v % 256 ∷ [])

-- The loop of `ciphersHexSorted` before the sort.
cipher_texts : List ℕ → List Bytes
cipher_texts [] = []
cipher_texts (c ∷ ciphers) =
    let rest = cipher_texts ciphers in if is_grease c then rest else hex4 c ∷ rest

ciphers_hex_sorted : List ℕ → Bytes
ciphers_hex_sorted ciphers = join (utf8 ",") (sort_strings (cipher_texts ciphers))

-- `hex.EncodeToString(sum[:])[:12]`, or the sentinel on the empty text.
ja4_hash : Digests → Bytes → Bytes
ja4_hash d [] = utf8 "000000000000"
ja4_hash d (c ∷ s) = take 12 (hex_encode (d.sha256 (c ∷ s)))

-- The loop of `ja4ExtensionHash` before the sort.
extension_texts : List ℕ → List Bytes
extension_texts [] = []
extension_texts (e ∷ exts) =
    let rest = extension_texts exts in
    if is_grease e || e == ext_sni || e == ext_alpn then rest else hex4 e ∷ rest

-- `"_" + strings.Join(algs, ",")`, if there are signature algorithms.
sig_alg_text : List ℕ → Bytes
sig_alg_text [] = []
sig_alg_text (a ∷ algs) = b'_' ∷ join (utf8 ",") (map hex4 (a ∷ algs))

-- Behind the loop: the texts that were collected.
hash_extension_texts : Digests → List Bytes → List ℕ → Bytes
hash_extension_texts d [] sig_algs = utf8 "000000000000"
hash_extension_texts d (v ∷ vals) sig_algs =
    ja4_hash d (join (utf8 ",") (sort_strings (v ∷ vals)) ++ sig_alg_text sig_algs)

ja4_extension_hash : Digests → List ℕ → List ℕ → Bytes
ja4_extension_hash d exts sig_algs = hash_extension_texts d (extension_texts exts) sig_algs

pub ja4 : Digests → ClientHello → Bytes
ja4 d c =
    b't'
    ∷ (ja4_version c.supp_versions c.legacy_version
        ++ ((if is_empty c.sni then b'i' else b'd')
            ∷ (two_digit (count_non_grease c.ciphers)
                ++ (two_digit (count_non_grease c.extensions)
                    ++ (ja4_alpn c.alpn
                        ++ (b'_'
                            ∷ (ja4_hash d (ciphers_hex_sorted c.ciphers)
                                ++ (b'_' ∷ ja4_extension_hash d c.extensions c.sig_algs))))))))
