-- ===== src/Client/Pmtu/Search.antt =====
-- How long the search of `RunPMTU` takes, and the size that it finds.
use mathlib.Core.Path.{subst}
use netsee.Client.Pmtu.{
  PmtuFact, PmtuNet, PmtuRun, Searched, Write, found, measured, min_size, out_of_fuel, payload_cap,
  pmtu_failed, pmtu_result, pmtu_stuck, read_fails, run_pmtu, search, search_failed, sent, too_big,
  write_error,
}
use netsee.Client.Types.{ProbeInfo}
use netsee.Prelude.{
  Bool-cases, List, Option-cases, [], arith, false, if◌then◌else◌, inl, inr, leb, length,
  length-append, ltb, none, refl, suc, sym, true, zero, ℕ, ◌&&◌, ◌++◌, ◌+◌, ◌-◌, ◌/◌, ◌<◌, ◌↔◌, ◌∷◌,
  ◌≡◌, ◌≤◌, ◌⊎◌,
}
use netsee.Prelude.Int.{ℤ}
use netsee.Prelude.Text.{Bytes}
use netsee.Probe.Mux.{written}

pow2 : ℕ → ℕ
pow2 zero = 1
pow2 (suc k) = pow2 k + pow2 k

-- What a search from `lo` to `hi` finds on a path that lets `mtu` bytes through.
abbrev largest : ℕ → ℕ → ℕ → ℕ → ℕ
largest mtu lo hi last = if leb lo hi && leb lo mtu then (if leb mtu hi then mtu else hi) else last

-- The search came to an end with no more than `n` facts.
abbrev EndsWithin : ℕ → Searched → Type 0
EndsWithin n (found last facts) = length facts ≤ n
EndsWithin n search_failed = Unit
EndsWithin n out_of_fuel = ⊥

Write-cases : (w : Write) → (w ≡ sent) ⊎ (w ≡ too_big) ⊎ (w ≡ write_error)
Write-cases sent = inl refl
Write-cases too_big = inr (inl refl)
Write-cases write_error = inr (inr refl)

-- One more fact for one round less.
one_more :
    (r : Searched) (facts : List PmtuFact) (f : PmtuFact) (fuel : ℕ)
    → EndsWithin (length (facts ++ (f ∷ [])) + fuel) r
    → EndsWithin (length facts + suc fuel) r
one_more r facts f fuel h =
    let size : length (facts ++ (f ∷ [])) + fuel ≡ length facts + suc fuel =
      omega (arith, length-append facts (f ∷ [])) in
    subst (λ n. EndsWithin n r) size h

search-EndsWithin :
    (write : ℕ → ℕ → Write) (fuel lo hi last : ℕ) (facts : List PmtuFact)
    → 1 ≤ lo
    → hi + 1 < lo + pow2 fuel
    → EndsWithin (length facts + fuel) (search write fuel lo hi last facts)
unfolding search pow2
search-EndsWithin write zero lo hi last facts one h = elim (Bool-cases (leb lo hi)) [
  | inl goes_on ↦ absurd (ground arith)
  | inr ends ↦ rw (ends, search) (omega arith)
]
search-EndsWithin write (suc fuel) lo hi last facts one h = elim (Bool-cases (leb lo hi)) [
  | inr ends ↦ rw (ends, search) (omega arith)
  | inl goes_on ↦ elim (Write-cases (write (length facts) ((lo + hi) / 2))) [
    | inl ok ↦
        rw (goes_on, ok, search)
          (one_more _ facts _ fuel
            (search-EndsWithin write fuel ((lo + hi) / 2 + 1) hi _ _ (omega arith) (ground arith)))
    | inr (inl over) ↦
        rw (goes_on, over, search)
          (one_more _ facts _ fuel
            (search-EndsWithin write fuel lo ((lo + hi) / 2 - 1) _ _ one (ground arith)))
    | inr (inr fails) ↦ rw (goes_on, fails, search) tt
  ]
]

-- On a path that lets through what has at most `mtu` bytes.
module _ (write : ℕ → ℕ → Write) (mtu : ℕ)
    (lets : (i size : ℕ) → write i size ≡ (if leb size mtu then sent else too_big)) where
  -- `lastOK` of a search that was found.
  abbrev FindsLargest : ℕ → Searched → Type 0
  FindsLargest n (found last facts) = last ≡ n
  FindsLargest n search_failed = ⊥
  FindsLargest n out_of_fuel = ⊥

  FindsLargest-eq :
      {m n : ℕ} {r r' : Searched} → m ≡ n → r' ≡ r → FindsLargest m r → FindsLargest n r'
  FindsLargest-eq {m} {n} {r} {r'} e f h =
      subst (λ x. FindsLargest n x) (sym f) (subst (λ k. FindsLargest k r) e h)

  search-FindsLargest :
      (fuel lo hi last : ℕ) (facts : List PmtuFact)
      → 1 ≤ lo
      → hi + 1 < lo + pow2 fuel
      → FindsLargest (largest mtu lo hi last) (search write fuel lo hi last facts)
  unfolding search pow2
  search-FindsLargest zero lo hi last facts one h = elim (Bool-cases (leb lo hi)) [
    | inl goes_on ↦ absurd (ground arith)
    | inr ends ↦ rw (ends, search) refl
  ]
  search-FindsLargest (suc fuel) lo hi last facts one h = elim (Bool-cases (leb lo hi)) [
    | inr ends ↦ rw (ends, search) refl
    | inl goes_on ↦ elim (Bool-cases (leb ((lo + hi) / 2) mtu)) [
      | inl fits ↦
          FindsLargest-eq (ground arith)
            (rw (goes_on, lets (length facts) ((lo + hi) / 2), fits, search) refl)
            (search-FindsLargest fuel ((lo + hi) / 2 + 1) hi ((lo + hi) / 2)
              (facts ++ (record { size = (lo + hi) / 2; ok = true } ∷ [])) (omega arith)
              (ground arith))
      | inr over ↦
          FindsLargest-eq (ground arith)
            (rw (goes_on, lets (length facts) ((lo + hi) / 2), over, search) refl)
            (search-FindsLargest fuel lo ((lo + hi) / 2 - 1) last
              (facts ++ (record { size = (lo + hi) / 2; ok = false } ∷ [])) one (ground arith))
    ]
  ]

-- The fuel of `RunPMTU` is enough, whatever the network answers.
rounds : (id : Bytes) (max_udp_pmtu : ℤ) → payload_cap max_udp_pmtu + 1 < min_size id + pow2 14
unfolding payload_cap pow2 min_size
rounds id max_udp_pmtu = ground arith

one_le-min_size : (id : Bytes) → 1 ≤ min_size id
unfolding min_size
one_le-min_size id = omega arith

-- What `RunPMTU` came to: an error of a write, or a result with at most 14 facts.
abbrev pub IsShortRun : PmtuRun → Type 0
IsShortRun (measured res) = length res.facts ≤ 14
IsShortRun pmtu_failed = Unit
IsShortRun pmtu_stuck = ⊥

-- Whatever the network answers, `RunPMTU` ends: with an error of a write, or with a result of at
-- most 14 facts.
pub run_pmtu-IsShortRun :
    (id : Bytes) (info : ProbeInfo) (net : PmtuNet) → IsShortRun (run_pmtu id info net)
unfolding run_pmtu pmtu_result
run_pmtu-IsShortRun id info net = elim (Option-cases net.df_error) [
  | inr (why, e) ↦ rw e (omega arith)
  | inl e ↦ rw e (
      short (search net.write 14 (min_size id) (payload_cap info.max_udp_pmtu) 0 []) (
        search-EndsWithin net.write 14 _ _ 0 [] (one_le-min_size id) (rounds id info.max_udp_pmtu)))
]
  where
    short :
        (r : Searched)
        → EndsWithin 14 r
        → IsShortRun (elim r [
          | found last facts ↦ measured (pmtu_result net (payload_cap info.max_udp_pmtu) last facts)
          | search_failed ↦ pmtu_failed
          | out_of_fuel ↦ pmtu_stuck
        ])
    short (found last facts) h = h
    short search_failed h = tt
    short out_of_fuel h = h

read_fails-nil : (arrived : List Bytes) → read_fails arrived ≡ true → arrived ≡ []
unfolding read_fails
read_fails-nil [] h = refl
read_fails-nil (first ∷ others) h = cc

-- A run with a path that lets through what has at most `mtu` bytes.
module _ (id : Bytes) (info : ProbeInfo) (net : PmtuNet) (mtu : ℕ)
    (lets : (i size : ℕ) → net.write i size ≡ (if leb size mtu then sent else too_big))
    (df : net.df_error ≡ none) where
  abbrev best : ℕ
  best = largest mtu (min_size id) (payload_cap info.max_udp_pmtu) 0

  abbrev pub MeasuresLargest : PmtuRun → Type 0
  MeasuresLargest (measured res) =
      (res.path_mtu ≡ (if ltb 0 best then best + 28 else 0))
      × ((res.blackhole ≡ true) ↔ ((0 < best) × (net.final_write ≡ true) × (net.arrived ≡ [])))
  MeasuresLargest pmtu_failed = ⊥
  MeasuresLargest pmtu_stuck = ⊥

  silent :
      (n : ℕ)
      → ((ltb 0 n && net.final_write && read_fails net.arrived) ≡ true)
        ↔ ((0 < n) × (net.final_write ≡ true) × (net.arrived ≡ []))
  unfolding read_fails
  silent n = (
    λ h. (ground arith, ground arith, read_fails-nil net.arrived (ground arith)),
    λ h. let (some_size, written, nothing) = h in rw (nothing, written) (ground arith),
  )

  -- If the DF bit can be set and the path lets through what has at most `mtu` bytes, `RunPMTU`
  -- gives the largest size, from the smallest payload to the cap, that the path lets through, plus
  -- 28; 0 if there is none. It reports a blackhole exactly if there is such a size, the datagram of
  -- that size is written once more and no datagram at all reached the socket, from its opening to
  -- the deadline: an echo of a smaller one, sent by the search, is taken for the answer.
  pub run_pmtu-MeasuresLargest : MeasuresLargest (run_pmtu id info net)
  unfolding run_pmtu pmtu_result
  run_pmtu-MeasuresLargest = rw df (
      by_search (search net.write 14 (min_size id) (payload_cap info.max_udp_pmtu) 0 []) (
        search-FindsLargest net.write mtu lets 14 _ _ 0 [] (one_le-min_size id)
          (rounds id info.max_udp_pmtu)))
    where
      by_search :
          (r : Searched)
          → FindsLargest net.write mtu lets best r
          → MeasuresLargest (elim r [
            | found last facts ↦
                measured (pmtu_result net (payload_cap info.max_udp_pmtu) last facts)
            | search_failed ↦ pmtu_failed
            | out_of_fuel ↦ pmtu_stuck
          ])
      by_search (found last facts) h = (rw h refl, rw h (silent best))
      by_search search_failed h = h
      by_search out_of_fuel h = h
