-- ===== src/Probe/Tls/Tests.antt =====
-- A connection at the TLS port at concrete inputs.
use netsee.Prelude.{List, [], arith, drop, false, refl, take, ◌∷◌, ◌≡◌}
use netsee.Probe.Hello.{parse_client_hello}
use netsee.Probe.Hello.Stream.{concat, fed_of}
use netsee.Probe.Hello.Tests.{hello_record}
use netsee.Probe.Server.Samples.{digests, env_at, peer, server_of}
use netsee.Probe.Tls.{TlsRead, handle_tls_conn, record_found}
use netsee.Probe.Tls.Fragments.{bytes_of, handle_tls_conn_fragments, hello_in}

abbrev fragments : List TlsRead
fragments =
    record { bytes = take 30 hello_record; failed = false }
    ∷ record { bytes = drop 30 hello_record; failed = false }
    ∷ []

handle_tls_conn_fragments_example :
    handle_tls_conn digests (env_at 7) peer fragments (server_of [])
    ≡ record_found digests
        (env_at 7)
        peer
        (server_of [])
        (hello_in (fed_of (parse_client_hello (concat (bytes_of fragments)))))
unfolding concat bytes_of
handle_tls_conn_fragments_example =
    handle_tls_conn_fragments digests (env_at 7) peer fragments (server_of [])
      ((refl, refl), ((refl, refl), tt)) (omega arith)
