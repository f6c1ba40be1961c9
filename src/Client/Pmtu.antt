-- ===== src/Client/Pmtu.antt =====
-- internal/client/pmtu.go: the binary search for the path MTU; and setPMTUDiscDo of pmtu_linux.go and
-- pmtu_other.go.
pub mod Search
mod Tests
use netsee.Client.Types.{ProbeInfo}
use netsee.Prelude.{
  Bool, List, Option, [], false, if◌then◌else◌, leb, length, ltb, none, some, suc, true, zero, ℕ,
  ◌&&◌, ◌++◌, ◌+◌, ◌-◌, ◌/◌, ◌||◌, ◌∷◌,
}
use netsee.Prelude.Int.{leb_ℤ, ltb_ℤ, pos, pos_part, ℤ}
use netsee.Prelude.Text.{Bytes, utf8}
use netsee.Prelude.Words.{itoa}

pub record PmtuFact : Type 0 where
  pub size : ℕ
  pub ok : Bool

pub record PmtuResult : Type 0 where
  pub facts : List PmtuFact
  pub path_mtu : ℕ
  pub blackhole : Bool
  pub note : Bytes

-- What `WriteToUDP` says with the DF bit set: sent, EMSGSIZE, or another error.
pub data Write : Type 0 where
  sent : Write
  too_big : Write
  write_error : Write

-- `setPMTUDiscDo` on Linux: the errors of `SyscallConn`, of `Control` and of `SetsockoptInt`.
set_pmtu_disc_do : Option Bytes → Option Bytes → Option Bytes → Option Bytes
set_pmtu_disc_do (some e) control_error option_error = some e
set_pmtu_disc_do none (some e) option_error = some e
set_pmtu_disc_do none none option_error = option_error

-- And on other systems.
set_pmtu_disc_other : Option Bytes
set_pmtu_disc_other = some (utf8 "IP_PMTUDISC unsupported on this platform")

-- How the search ends. `out_of_fuel` is no result of the source.
pub data Searched : Type 0 where
  found : ℕ → List PmtuFact → Searched
  search_failed : Searched
  out_of_fuel : Searched

abbrev fact : ℕ → Bool → PmtuFact
fact size ok = record { size = size; ok = ok }

-- The loop over `lo`, `hi` and `lastOK`; the network answers the n-th datagram by its size.
pub search : (ℕ → ℕ → Write) → ℕ → ℕ → ℕ → ℕ → List PmtuFact → Searched
search write zero lo hi last facts = if leb lo hi then out_of_fuel else found last facts
search write (suc fuel) lo hi last facts =
    let mid = (lo + hi) / 2 in
    elim (leb lo hi) [
      | false ↦ found last facts
      | true ↦ elim (write (length facts) mid) [
        | sent ↦ search write fuel (mid + 1) hi mid (facts ++ (fact mid true ∷ []))
        | too_big ↦ search write fuel lo (mid - 1) last (facts ++ (fact mid false ∷ []))
        | write_error ↦ search_failed
      ]
    ]

abbrev head_of : Bytes → Bytes
head_of id = utf8 "{\"session\":\"" ++ (id ++ utf8 "\",\"kind\":\"pmtu\",\"data\":\"")

abbrev tail_bytes : Bytes
tail_bytes = utf8 "\"}"

letters : ℕ → Bytes
letters zero = []
letters (suc n) = b'a' ∷ letters n

-- `payload(size)`, for a size that holds the head and the tail: no smaller one is used.
pub payload : Bytes → ℕ → Bytes
unfolding letters
payload id size =
    head_of id ++ (letters (size - length (head_of id) - length tail_bytes) ++ tail_bytes)

pub min_size : Bytes → ℕ
min_size id = length (head_of id) + length tail_bytes + 1

-- `cap`: 9000 where the probe names no limit or a greater one.
pub payload_cap : ℤ → ℕ
payload_cap max_udp_pmtu =
    if leb_ℤ max_udp_pmtu (pos 0) || ltb_ℤ (pos 9000) max_udp_pmtu
    then 9000
    else pos_part max_udp_pmtu

-- What the network does: an error of `setPMTUDiscDo`, the answers to the search's datagrams, whether
-- the largest one is written again for the check, and what reached the socket from its opening to
-- the check's deadline. The search reads nothing, so the echoes of its datagrams are among it.
pub record PmtuNet : Type 0 where
  pub df_error : Option Bytes
  pub write : ℕ → ℕ → Write
  pub final_write : Bool
  pub arrived : List Bytes

pub data PmtuRun : Type 0 where
  measured : PmtuResult → PmtuRun
  pmtu_failed : PmtuRun
  pmtu_stuck : PmtuRun

-- `ReadFromUDP` takes the first datagram that is there, whichever it answers.
read_fails : List Bytes → Bool
read_fails [] = true
read_fails (first ∷ others) = false

-- Behind the loop: the blackhole check, the path MTU (28 bytes of IP and UDP headers), the note.
pmtu_result : PmtuNet → ℕ → ℕ → List PmtuFact → PmtuResult
unfolding read_fails
pmtu_result net limit last facts = record {
  facts = facts;
  path_mtu = if ltb 0 last then last + 28 else 0;
  blackhole = ltb 0 last && net.final_write && read_fails net.arrived;
  note =
      if leb limit last
      then utf8 "达到探针 pmtu 载荷上限 " ++ (itoa limit ++ utf8 "，实际路径 MTU 可能更大")
      else [];
}

-- `RunPMTU` behind the socket's creation, with fuel for 14 rounds.
pub run_pmtu : Bytes → ProbeInfo → PmtuNet → PmtuRun
unfolding pmtu_result
run_pmtu id info net =
    let limit = payload_cap info.max_udp_pmtu in
    elim net.df_error [
      | some why ↦ measured (record {
        facts = [];
        path_mtu = 0;
        blackhole = false;
        note = utf8 "IP_PMTUDISC 设置失败: " ++ why;
      })
      | none ↦ elim (search net.write 14 (min_size id) limit 0 []) [
        | found last facts ↦ measured (pmtu_result net limit last facts)
        | search_failed ↦ pmtu_failed
        | out_of_fuel ↦ pmtu_stuck
      ]
    ]
