-- ===== src/Peer/Limits.antt =====
-- crates/bitcord-core/src/resource: the ceilings on connections, storage and bandwidth.
pub mod Chunks
use bit_cord.Prelude.{
  ℕ, zero, suc, ◌+◌, ◌-◌, ◌*◌, ◌/◌, ◌%◌, ◌^◌, Bool, true, false, List, [], ◌∷◌, Option, none, some,
  min, max, ltb, leb, nat_eqb, map_some, if◌then◌else◌,
}

-- connection_limiter.rs
unfoldable pub allow_inbound : ℕ → ℕ → ℕ → Option ℕ → Bool
allow_inbound max_connections connected incoming_rep lowest_rep_connected =
    if ltb connected max_connections
    then true
    else elim lowest_rep_connected [ none ↦ false | some lowest ↦ ltb lowest incoming_rep ]

-- storage.rs: what the guard keeps besides the directory.
pub record StorageGuard : Type 0 where
  pub limit_bytes : ℕ
  pub used_bytes : ℕ

-- `used` is what the scan of the directory finds.
unfoldable pub new_guard : ℕ → ℕ → StorageGuard
new_guard limit_mb used = record {
  limit_bytes = (limit_mb * 1024 % 2 ^ 64) * 1024 % 2 ^ 64;
  used_bytes = used;
}

-- The error, with its `required` and `available`.
pub data StorageCheck : Type 0 where
  enough : StorageCheck
  limit_exceeded : ℕ → ℕ → StorageCheck

abbrev pub available_bytes : StorageGuard → ℕ
available_bytes g = g.limit_bytes - g.used_bytes

unfoldable pub check_available : StorageGuard → ℕ → StorageCheck
check_available g required =
    if ltb (available_bytes g) required then limit_exceeded required (available_bytes g) else enough

-- `fetch_add` wraps.
unfoldable pub record_write : StorageGuard → ℕ → StorageGuard
record_write g bytes = record g { used_bytes = (g.used_bytes + bytes) % 2 ^ 64 }

unfoldable pub record_free : StorageGuard → ℕ → StorageGuard
record_free g bytes = record g { used_bytes = g.used_bytes - min bytes g.used_bytes }

unfoldable pub near_limit : StorageGuard → Bool
near_limit g = leb (((g.limit_bytes * 9) % 2 ^ 64) / 10) g.used_bytes

-- bandwidth.rs: the burst of a limiter, in bytes per second: `((kbps * 125) as u32).max(1)`, where
-- the product wraps at 64 bits and the cast at 32.
unfoldable pub burst_of : ℕ → ℕ
burst_of kbps = max ((kbps * 125) % 2 ^ 64 % 2 ^ 32) 1

-- The requests that `throttle` makes of the rate limiter, in order, on fuel.
unfoldable pub throttle : ℕ → ℕ → ℕ → List ℕ
throttle zero burst remaining = []
throttle (suc fuel) burst remaining =
    let chunk = min remaining burst % 2 ^ 32 in
    let rest = throttle fuel burst (remaining - chunk) in
    if nat_eqb remaining 0 then [] else max chunk 1 ∷ rest
