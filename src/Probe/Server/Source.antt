-- ===== src/Probe/Server/Source.antt =====
-- The source that an observation is given.
use netsee.Prelude.{Option, Option-cases, inl, inr, none, refl, some, ℕ, ◌<◌, ◌^◌, ◌≡◌}
use netsee.Prelude.Hosts.{net_join_host_port}
use netsee.Prelude.Hosts.RoundTrip.{IsBare, net_split_host_port-join}
use netsee.Prelude.Int.{pos}
use netsee.Prelude.Text.{Bytes}
use netsee.Prelude.Words.Decimal.{strconv_atoi-itoa}
use netsee.Probe.Server.{Peer, peer_of, split_host_port, with_address, with_peer, with_tcp_info}
use netsee.Proto.Types.{Obs, TcpInfo}

split_host_port-join :
    (host : Bytes) (port : ℕ)
    → IsBare host
    → port < 2 ^ 63
    → split_host_port (net_join_host_port host port) ≡ some (host, pos port)
unfolding split_host_port
split_host_port-join host port plain small =
    rw (split_host_port, net_split_host_port-join host port plain, strconv_atoi-itoa port small)
      refl

-- An observation of a connection carries the address and the port of the client as they stand in
-- `RemoteAddr`, which joins them: with a colon between, and with brackets around an address that has
-- colons. The address has no brackets of its own, and the port is in the range of an int.
pub with_peer-peer_of :
    (host : Bytes) (port : ℕ) (tcp_info : Option TcpInfo) (o : Obs)
    → IsBare host
    → port < 2 ^ 63
    → ((with_peer (peer_of (net_join_host_port host port) tcp_info) o).src_ip ≡ host)
      × ((with_peer (peer_of (net_join_host_port host port) tcp_info) o).src_port ≡ port)
unfolding with_peer with_address with_tcp_info peer_of
with_peer-peer_of host port none o plain small =
    rw (peer_of, split_host_port-join host port plain small) (refl, refl)
with_peer-peer_of host port (some ti) o plain small =
    rw (peer_of, split_host_port-join host port plain small) (refl, refl)

-- A peer whose address was read is the observation's source; its port at the probe stays.
pub with_peer-address :
    (p : Peer) (o : Obs) (host : Bytes) (port : ℕ)
    → p.address ≡ some (host, port)
    → ((with_peer p o).src_ip ≡ host) × ((with_peer p o).dst_port ≡ o.dst_port)
unfolding with_peer with_address with_tcp_info
with_peer-address p o host port h = elim (Option-cases p.tcp_info) [
  | inl none_read ↦ rw (h, none_read) (refl, refl)
  | inr (ti, e) ↦ rw (h, e) (refl, refl)
]
