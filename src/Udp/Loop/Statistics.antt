-- ===== src/Udp/Loop/Statistics.antt =====
-- The statistics of the clients after all rounds of message_loop.
use jpl_vision.Common.{ℕ, ◌*◌, ◌≤◌, ◌<◌, ◌≡◌, refl, ◌∙◌, ap, sym, List, [], ◌∷◌, arith}
use jpl_vision.Common.Int.{pos, ◌+ℤ◌, quot}
use jpl_vision.Udp.Types.{SockAddr, UdpComms}
use jpl_vision.Udp.Table.Lookup.{IsTable}
use jpl_vision.Udp.Loop.{Limits, Event, loop_round, add_hosts, rounds, message_loop}
use jpl_vision.Udp.Loop.Invariant.{
  IsComms, empty-IsComms, KnownSenders, KnownHosts, looked_up, loop_round-IsComms,
  add_hosts-IsComms, message_loop-IsComms,
}
use jpl_vision.Udp.Loop.Samples.{
  sample_of, samples, sum_of, number_of, sum_at, count_at, Gained, Gained-append, zero_add,
}
use jpl_vision.Udp.Loop.Gains.{lookup-Gained, loop_round-Gained, Gained-refl}

rounds-Gained :
    (l : Limits) (p : UdpComms) (es : List Event)
    → KnownSenders es
    → IsComms l.max_samples p
    → Gained p (rounds l p es) (samples l p es)
unfolding rounds
rounds-Gained l p [] known v = Gained-refl p
rounds-Gained l p (e ∷ es) known v =
    Gained-append p (loop_round l p e) _ (sample_of l p e) _ (loop_round-Gained l p e known.0 v)
      (rounds-Gained l (loop_round l p e) es known.1 (loop_round-IsComms l p e known.0 v))

add_hosts-Gained :
    (m : ℕ) (hosts : List (SockAddr × ℕ)) (p : UdpComms)
    → KnownHosts hosts
    → IsComms m p
    → Gained p (add_hosts hosts p) []
unfolding add_hosts
add_hosts-Gained m [] p known v = Gained-refl p
add_hosts-Gained m ((addr, addr_len) ∷ hosts) p known v =
    Gained-append p _ _ [] [] (lookup-Gained m p addr addr_len known.0 v).0
      (add_hosts-Gained m hosts _ known.1 (looked_up m p addr addr_len known.0 v))

at_none : (p : UdpComms) (k : ℕ) → p.client_count ≡ 0 → (sum_at p k ≡ pos 0) × (count_at p k ≡ 0)
at_none p k e = (ground (arith, e), ground (arith, e))

at_client :
    (p : UdpComms) (k : ℕ)
    → k < p.client_count
    → (sum_at p k ≡ (p.client k).sum_half_round_trip_usec)
      × (count_at p k ≡ (p.client k).sample_count)
at_client p k h = (ground arith, ground arith)

-- After any rounds of message_loop, whatever messages have come, sends have failed and times have
-- been read, there are at most ten clients, no two of them are taken for one another, and each has in
-- its sum exactly the round trips of the answers that were accepted, those that are not negative and
-- short enough, from the senders for which lookup_client_info gave its number, and their number in
-- its sample count. Once there are `max_samples` of them its mean is half of that sum divided by
-- their number. The default hosts and all senders are of the address families that the code knows.
pub message_loop_lem :
    (l : Limits) (p : UdpComms) (hosts : List (SockAddr × ℕ)) (es : List Event)
    → KnownHosts hosts
    → KnownSenders es
    → let q = message_loop l p hosts es in
      let s = samples l (add_hosts hosts (record p { client_count = 0 })) es in
      IsTable q
      × ((k : ℕ)
          → k < q.client_count
          → ((q.client k).sum_half_round_trip_usec ≡ sum_of k s)
            × ((q.client k).sample_count ≡ number_of k s)
            × (l.max_samples ≤ number_of k s
                → (q.client k).mean_half_round_trip_usec ≡ quot (sum_of k s) (number_of k s * 2)))
unfolding message_loop
message_loop_lem l p hosts es known_hosts known =
    let m = l.max_samples in
    let start : UdpComms = record p { client_count = 0 } in
    let v = message_loop-IsComms l p hosts es known_hosts known in
    let first = add_hosts hosts start in
    let s = samples l first es in
    let gained =
      Gained-append start first _ [] s
        (add_hosts-Gained m hosts start known_hosts (empty-IsComms m p))
        (rounds-Gained l first es known
          (add_hosts-IsComms m hosts start known_hosts (empty-IsComms m p))) in
    (
      v.table,
      λ k h.
          let none = at_none start k refl in
          let now = at_client (message_loop l p hosts es) k h in
          let sum =
            sym now.0 ∙ gained.sum k ∙ ap (λ x. x +ℤ sum_of k s) none.0 ∙ zero_add (sum_of k s) in
          let count : ((message_loop l p hosts es).client k).sample_count ≡ number_of k s =
            omega (arith, now.1, gained.count k, none.1) in
          (sum, count, λ e. (v.clocks k h).mean (omega (arith, e, count)) ∙ rw (sum, count) refl),
    )
