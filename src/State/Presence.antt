-- ===== src/State/Presence.antt =====
-- crates/bitcord-core/src/state/presence.rs: who is online. The clock is an argument, in
-- nanoseconds; a time in the future of the clock has age 0, which is as fresh as its negative age.
use bit_cord.Prelude.{
  ℕ, ◌-◌, ◌/◌, ◌≡◌, Bool, String, Option, none, some, leb, ltb, ◌==◌, if◌then◌else◌, arith,
  string_eq,
}
use bit_cord.Prelude.Map.{
  Map, get, insert, retain, map_values, IsMap, get-insert, insert-IsMap, get-retain, get-map_values,
}

pub data PresenceStatus : Type 0 where
  online idle do_not_disturb offline : PresenceStatus

pub record PresenceState : Type 0 where
  pub seen : Map String (PresenceStatus × ℕ)

abbrev offline_threshold_secs : ℕ
offline_threshold_secs = 300

-- `now.signed_duration_since(ts).num_seconds()`, where that is not negative.
abbrev pub age_secs : ℕ → ℕ → ℕ
age_secs now ts = (now - ts) / 1000000000

pub update : PresenceState → String → PresenceStatus → ℕ → PresenceState
update ps user status last_seen = record { seen = insert ps.seen user (status, last_seen) }

pub status_of : PresenceState → ℕ → String → PresenceStatus
status_of ps now user = elim (get ps.seen user) [
  | some (status, last_seen) ↦
      if ltb offline_threshold_secs (age_secs now last_seen) then offline else status
  | none ↦ offline
]

pub all_active : PresenceState → ℕ → Map String PresenceStatus
all_active ps now =
    map_values (λ e. e.0) (retain (λ e. leb (age_secs now e.1) offline_threshold_secs) ps.seen)

-- The status that `get` reports, as read off a list of active users.
abbrev pub listed : Option PresenceStatus → PresenceStatus
listed none = offline
listed (some s) = s

-- The active list and the single read agree for every user, before and after an update; an update
-- shows at once, and stays for the five minutes in which the entry is fresh.
pub all_active-status_of :
    (ps : PresenceState) (now : ℕ) (user v : String) (s : PresenceStatus) (t : ℕ)
    → IsMap ps.seen
    → (listed (get (all_active ps now) v) ≡ status_of ps now v)
      × (status_of (update ps user s t) now v ≡ (
          if user == v
          then (if leb (age_secs now t) offline_threshold_secs then s else offline)
          else status_of ps now v))
      × IsMap (update ps user s t).seen
unfolding all_active status_of update
all_active-status_of ps now user v s t h =
    let fresh : PresenceStatus × ℕ → Bool = λ e. leb (age_secs now e.1) offline_threshold_secs in
    let fst : PresenceStatus × ℕ → PresenceStatus = λ e. e.0 in
    (
      ground (arith, get-map_values fst (retain fresh ps.seen) v, get-retain fresh ps.seen v h),
      ground (arith, get-insert ps.seen user v (s, t)),
      insert-IsMap ps.seen user (s, t) h,
    )
