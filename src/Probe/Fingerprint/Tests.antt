-- ===== src/Probe/Fingerprint/Tests.antt =====
-- The fingerprints at a concrete hello.
use mathlib.Core.List.Perm
use netsee.Prelude.{[], refl, ◌∷◌, ◌≡◌}
use netsee.Prelude.Text.{utf8}
use netsee.Prelude.Words.{digits_of, itoa}
use netsee.Probe.Fingerprint.{is_grease, ja3, ja3_text, ja4, write_byte_dec_list, write_dec_list}
use netsee.Probe.Fingerprint.Grease.{ja3-ja4-strip, strip}
use netsee.Probe.Fingerprint.Order.{ja4-eq_of_Perm}
use netsee.Probe.Hello.{ClientHello}
use netsee.Probe.Hello.Tests.{hello_of}
use netsee.Probe.Server.Samples.{digests}

abbrev greased : ClientHello
greased = record hello_of { ciphers = 0x0A0A ∷ 0x1301 ∷ 0x1302 ∷ [] }

ja3_text-greased : ja3_text greased ≡ utf8 "771,4865-4866,0-16,,"
unfolding ja3_text write_dec_list write_byte_dec_list is_grease itoa digits_of utf8
ja3_text-greased = refl

ja3-ja4-strip_example :
    (ja3 digests (strip greased) ≡ ja3 digests greased)
    × (ja4 digests (strip greased) ≡ ja4 digests greased)
ja3-ja4-strip_example = ja3-ja4-strip digests greased

ja4-eq_of_Perm_example :
    ja4 digests (record hello_of { ciphers = 0x1301 ∷ []; extensions = 16 ∷ 0 ∷ [] })
    ≡ ja4 digests hello_of
ja4-eq_of_Perm_example = ja4-eq_of_Perm digests hello_of (Perm.refl _) (Perm.swap 16 0 [])
