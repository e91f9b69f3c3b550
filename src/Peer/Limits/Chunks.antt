-- ===== src/Peer/Limits/Chunks.antt =====
-- The limits keep what they promise: all bytes are paid for, and a write that is allowed fits.
use bit_cord.Prelude.{
  ℕ, zero, suc, ◌+◌, ◌-◌, ◌%◌, ◌^◌, ◌≤◌, ◌<◌, ◌≡◌, List, [], ◌∷◌, arith, inl, inr, min, nat_eqb,
  All, Bool-cases,
}
use bit_cord.Peer.Limits.{
  StorageGuard, enough, check_available, record_write, record_free, burst_of, throttle,
}

abbrev pub sum : List ℕ → ℕ
sum [] = 0
sum (n ∷ ns) = n + sum ns

throttle-step :
    (fuel burst remaining : ℕ)
    → 0 < burst
    → burst < 2 ^ 32
    → remaining ≤ fuel
    → (sum (throttle fuel burst remaining) ≡ remaining)
      × All (λ n. n ≤ burst) (throttle fuel burst remaining)
unfolding throttle
throttle-step zero burst remaining a b c = (omega (arith, c), tt)
throttle-step (suc fuel) burst remaining a b c = elim (Bool-cases (nat_eqb remaining 0)) [
  | inl t ↦ rw t (ground (arith, t), tt)
  | inr f ↦
      let ih =
        throttle-step fuel burst (remaining - min remaining burst % 2 ^ 32) a b
          (ground (arith, f)) in
      rw f (ground (arith, a, b, c, f, ih.0), (ground (arith, a, b, f), ih.1))
]

burst_of-bounds : (kbps : ℕ) → (0 < burst_of kbps) × (burst_of kbps < 2 ^ 32)
unfolding burst_of
burst_of-bounds kbps = (omega arith, omega arith)

-- For any limit and any number of bytes, as many rounds as there are bytes are enough: the requests
-- to the rate limiter add up to the bytes, and none exceeds the burst.
pub sum-throttle :
    (kbps bytes : ℕ)
    → (sum (throttle bytes (burst_of kbps) bytes) ≡ bytes)
      × All (λ n. n ≤ burst_of kbps) (throttle bytes (burst_of kbps) bytes)
sum-throttle kbps bytes =
    let b = burst_of-bounds kbps in throttle-step bytes (burst_of kbps) bytes b.0 b.1 (omega arith)

-- If a guard within its limit, of less than 2^64 bytes, says that `n` bytes are available, then it is
-- still within the limit after they are written, and as before after they are freed again.
pub record_write-fits :
    (g : StorageGuard) (n : ℕ)
    → g.limit_bytes < 2 ^ 64
    → g.used_bytes ≤ g.limit_bytes
    → check_available g n ≡ enough
    → ((record_write g n).used_bytes ≤ g.limit_bytes) × (record_free (record_write g n) n ≡ g)
unfolding check_available record_write record_free
record_write-fits g n a b c = (ground (arith, a, b, c), ground (arith, a, b, c))
