-- ===== src/Udp/Send/Blobs.antt =====
-- udp_comms_send_blobs_to_all: who gets the list, and what is returned.
use jpl_vision.Common.{
  ℕ, zero, suc, ◌+◌, ◌≤◌, ◌<◌, ◌≡◌, refl, ◌⊎◌, ◌↔◌, inl, inr, Bool, true, false, ◌||◌, List, leb,
  ltb, ◌&&◌, if◌then◌else◌, Bool-cases, ℕ_discrete, subst, ◌∙◌, arith,
}
use jpl_vision.Common.Int.{ℤ, pos, negsuc, is_zero}
use jpl_vision.Blobs.Types.{BlobStats}
use jpl_vision.Udp.Types.{SendTo, udp_blob_list, ClientInfo, UdpComms, to_client_msecs, with_client}
use jpl_vision.Udp.Send.{send_blobs, send_blobs_from, udp_comms_send_blobs_to_all}

-- What sendto returns for the list to client `i`.
abbrev pub sent_to : SendTo → UdpComms → ℤ → List BlobStats → ℕ → ℤ
sent_to sendto p usec blobs i =
    let c = p.client i in sendto c.saddr c.saddr_len (udp_blob_list (to_client_msecs c usec) blobs)

module _ (sendto : SendTo) (p : UdpComms) (usec : ℤ) (blobs : List BlobStats) where
  failed : ℕ → ℕ
  failed i = if is_zero (sent_to sendto p usec blobs i) then 0 else 1

  send_blobs_lem :
      (i : ℕ) (c : ClientInfo)
      → c ≡ p.client i
      → ((send_blobs sendto c usec blobs).0.failed_sends ≡ c.failed_sends + failed i)
        × ((send_blobs sendto c usec blobs).1 ≡ is_zero (sent_to sendto p usec blobs i))
  unfolding send_blobs failed
  send_blobs_lem i c e = rw e (ground arith)

  -- The failures of client `j` after the rounds from client `i` on.
  failures_from :
      (n : ℕ) (q : UdpComms) (i j : ℕ) (some_success : Bool)
      → ((k : ℕ) → i ≤ k → q.client k ≡ p.client k)
      → ((send_blobs_from n sendto q i usec blobs some_success).0.client j).failed_sends
        ≡ (q.client j).failed_sends + (if leb i j && ltb j (i + n) then failed j else 0)
  unfolding send_blobs_from
  failures_from zero q i j some_success same = ground arith
  failures_from (suc n) q i j some_success same = ground (
    arith,
    failures_from n (with_client q i c') (i + 1) j
        (some_success || (send_blobs sendto (q.client i) usec blobs).1)
        (λ k h. ground (arith, same k)),
    send_blobs_lem i (q.client i) (same i (omega arith)),
  )
    where
      c' : ClientInfo
      c' = (send_blobs sendto (q.client i) usec blobs).0

  -- A result of true comes from an earlier success, or from one of `n` clients from client `i` on.
  abbrev Succeeds : Bool → Bool → ℕ → ℕ → Type 0
  Succeeds result some_success i n =
      (result ≡ true)
      ↔ (some_success ≡ true)
        ⊎ (k : ℕ) × (i ≤ k) × (k < i + n) × (is_zero (sent_to sendto p usec blobs k) ≡ true)

  success_round :
      (result some_success sent : Bool) (i n : ℕ)
      → sent ≡ is_zero (sent_to sendto p usec blobs i)
      → Succeeds result (some_success || sent) (i + 1) n
      → Succeeds result some_success i (suc n)
  success_round result some_success sent i n e rest = (
    λ t. elim (rest.0 t) [
      | inl u ↦ elim (Bool-cases some_success) [
        | inl h ↦ inl h
        | inr h ↦ inr (i, omega arith, omega arith, ground (arith, e, u, h))
      ]
      | inr (k, a, b, z) ↦ inr (k, omega arith, omega arith, z)
    ],
    λ o. rest.1 (elim o [
      | inl h ↦ inl (ground (arith, h))
      | inr (k, a, b, z) ↦ elim (ℕ_discrete k i) [
        | yes h ↦ inl (either some_success sent (e ∙ subst (λ x. zero_at x ≡ true) h z))
        | no h ↦ inr (k, omega arith, omega arith, z)
      ]
    ]),
  )
    where
      zero_at : ℕ → Bool
      zero_at x = is_zero (sent_to sendto p usec blobs x)

      either : (x y : Bool) → y ≡ true → (x || y) ≡ true
      either true y h = refl
      either false y h = h

  success_from :
      (n : ℕ) (q : UdpComms) (i : ℕ) (some_success : Bool)
      → ((k : ℕ) → i ≤ k → q.client k ≡ p.client k)
      → Succeeds (send_blobs_from n sendto q i usec blobs some_success).1 some_success i n
  unfolding send_blobs_from
  success_from zero q i some_success same =
      (λ e. inl e, λ o. elim o [ inl e ↦ e | inr (k, a, b, z) ↦ absurd (omega arith) ])
  success_from (suc n) q i some_success same =
      success_round _ some_success (send_blobs sendto (q.client i) usec blobs).1 i n
        (send_blobs_lem i (q.client i) (same i (omega arith))).1
        (success_from n _ (i + 1) _ (λ k h. ground (arith, same k)))

  -- udp_comms_send_blobs_to_all returns 0 if sendto has returned 0 for a client, and -1 if not; and
  -- each client for which sendto has not returned 0 has one more failed send.
  pub udp_comms_send_blobs_to_all_lem :
      let (q, retval) = udp_comms_send_blobs_to_all sendto p usec blobs in
      ((retval ≡ pos 0)
          × ((k : ℕ) × (k < p.client_count) × (is_zero (sent_to sendto p usec blobs k) ≡ true))
        ⊎ (retval ≡ negsuc 0)
          × ((k : ℕ) → k < p.client_count → is_zero (sent_to sendto p usec blobs k) ≡ false))
      × ((k : ℕ)
          → k < p.client_count
          → (q.client k).failed_sends
            ≡ (p.client k).failed_sends
              + (if is_zero (sent_to sendto p usec blobs k) then 0 else 1))
  unfolding udp_comms_send_blobs_to_all failed
  udp_comms_send_blobs_to_all_lem = (
    elim (Bool-cases (send_blobs_from p.client_count sendto p 0 usec blobs false).1) [
      | inl h ↦ inl (
        ground (arith, h),
        elim (all.0 h) [ inl e ↦ absurd (ground arith) | inr (k, a, b, z) ↦ (k, omega arith, z) ],
      )
      | inr h ↦ inr (ground (arith, h), λ k l. missed h k l)
    ],
    λ k l. ground (arith, failures_from p.client_count p 0 k false (λ m a. refl)),
  )
    where
      all :
          Succeeds
            (send_blobs_from p.client_count sendto p 0 usec blobs false).1
            false
            0
            p.client_count
      all = success_from p.client_count p 0 false (λ m a. refl)

      missed :
          (send_blobs_from p.client_count sendto p 0 usec blobs false).1 ≡ false
          → (k : ℕ) → k < p.client_count
          → is_zero (sent_to sendto p usec blobs k) ≡ false
      missed h k l = elim (Bool-cases (is_zero (sent_to sendto p usec blobs k))) [
        | inr z ↦ z
        | inl z ↦ absurd (ground (arith, h, all.1 (inr (k, omega arith, omega arith, z))))
      ]
