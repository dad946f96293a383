-- ===== src/Rules/Breaker.antt =====
-- src/rules/rules.c: the circuit breaker, which stops a rule that fires too often on a window. Times
-- are milliseconds of the monotonic clock, so they are numbers; a difference below 0 counts as 0,
-- which no comparison of the code tells from a negative one.
use cofi.Prelude.{
  ℕ, suc, ◌+◌, ◌-◌, ◌≤◌, ◌<◌, ◌≡◌, ◌⊎◌, Bool, true, false, ◌&&◌, List, [], ◌∷◌, ◌++◌, none, some,
  length, get_elem?, set, find_index, All, leb, ltb, ◌==◌, if◌then◌else◌, arith, inl, inr,
}

abbrev pub max_entries : ℕ
max_entries = 512

abbrev pub burst_limit : ℕ
burst_limit = 10

abbrev pub burst_window_ms : ℕ
burst_window_ms = 1000

abbrev pub quiet_reset_ms : ℕ
quiet_reset_ms = 2000

pub record RuleBreakerEntry : Type 0 where
  pub rule_index : ℕ
  pub window_id : ℕ
  pub burst_start_ms : ℕ
  pub burst_count : ℕ
  pub last_fire_ms : ℕ
  pub suppressed : Bool
  pub logged : Bool

abbrev pub RuleBreakerState : Type 0
RuleBreakerState = List RuleBreakerEntry

pub init_rule_breaker : RuleBreakerState
init_rule_breaker = []

abbrev pub fresh_entry : ℕ → ℕ → ℕ → RuleBreakerEntry
fresh_entry rule_index window_id now = record {
  rule_index = rule_index;
  window_id = window_id;
  burst_start_ms = now;
  burst_count = 0;
  last_fire_ms = 0;
  suppressed = false;
  logged = false;
}

-- A new burst begins when the last one is older than its window.
roll_burst : RuleBreakerEntry → ℕ → RuleBreakerEntry
roll_burst e now =
    if ltb burst_window_ms (now - e.burst_start_ms)
    then record e { burst_count = 0; burst_start_ms = now }
    else e

-- The fire is counted, and refused past the limit.
count_fire : RuleBreakerEntry → ℕ → RuleBreakerEntry × Bool
count_fire e now =
    if ltb burst_limit (e.burst_count + 1)
    then (
      record e {
        burst_count = e.burst_count + 1;
        last_fire_ms = now;
        suppressed = true;
        logged = true;
      },
      false,
    )
    else (record e { burst_count = e.burst_count + 1; last_fire_ms = now }, true)

reset_entry : RuleBreakerEntry → ℕ → RuleBreakerEntry
reset_entry e now = record e {
  suppressed = false;
  logged = false;
  burst_count = 0;
  burst_start_ms = now;
}

-- What one call does to its entry, and whether the fire may proceed.
pub fire_entry : RuleBreakerEntry → ℕ → RuleBreakerEntry × Bool
unfolding roll_burst count_fire reset_entry
fire_entry e now =
    if e.suppressed
    then (if ltb quiet_reset_ms (now - e.last_fire_ms)
        then count_fire (roll_burst (reset_entry e now) now) now
        else (e, false))
    else count_fire (roll_burst e now) now

abbrev is_breaker_of : ℕ → ℕ → RuleBreakerEntry → Bool
is_breaker_of rule_index window_id e = (e.rule_index == rule_index) && (e.window_id == window_id)

-- The entry at the index is replaced by what the call makes of it.
fire_at_index : RuleBreakerState → ℕ → ℕ → RuleBreakerState × Bool
unfolding fire_entry
fire_at_index b i now = elim (get_elem? b i) [
  | none ↦ (b, true)
  | some e ↦ (set b i (fire_entry e now).0, (fire_entry e now).1)
]

-- Without room for a new entry the fire proceeds.
pub rule_breaker_should_fire : RuleBreakerState → ℕ → ℕ → ℕ → RuleBreakerState × Bool
rule_breaker_should_fire b rule_index window_id now =
    elim (find_index (is_breaker_of rule_index window_id) b) [
      | some i ↦ fire_at_index b i now
      | none ↦
          if leb max_entries (length b)
          then (b, true)
          else fire_at_index (b ++ (fresh_entry rule_index window_id now ∷ [])) (length b) now
    ]

-- An entry is suppressed only when its burst has used up the limit, and the last fire is no older
-- than the burst.
pub record IsValidEntry (e : RuleBreakerEntry) : Type 0 where
  pub within : e.suppressed ≡ false → e.burst_count ≤ burst_limit
  pub ordered : e.suppressed ≡ true → e.burst_start_ms ≤ e.last_fire_ms

-- A call at a time that is not before the burst keeps the entry valid.
pub fire_entry-IsValid :
    (e : RuleBreakerEntry) (now : ℕ)
    → IsValidEntry e
    → e.burst_start_ms ≤ now
    → IsValidEntry (fire_entry e now).0
unfolding fire_entry
fire_entry-IsValid e now v later = ground arith

-- The number of the fires that proceed, over calls at the times of a list.
abbrev pub proceeding : RuleBreakerEntry → List ℕ → ℕ
proceeding e [] = 0
proceeding e (t ∷ ts) =
    let rest = proceeding (fire_entry e t).0 ts in if (fire_entry e t).1 then suc rest else rest

-- A time of the burst that begins at the start.
abbrev pub InBurst : ℕ → ℕ → Type 0
InBurst start t = (start ≤ t) × (t ≤ start + burst_window_ms)

fire-InBurst :
    (e : RuleBreakerEntry) (t : ℕ)
    → IsValidEntry e
    → InBurst e.burst_start_ms t
    → ((fire_entry e t).0.burst_start_ms ≡ e.burst_start_ms)
      × (((fire_entry e t).1 ≡ false) × ((fire_entry e t).0.suppressed ≡ true)
          ⊎ ((fire_entry e t).1 ≡ true)
            × (e.suppressed ≡ false)
            × (e.burst_count < burst_limit)
            × ((fire_entry e t).0.burst_count ≡ e.burst_count + 1)
            × ((fire_entry e t).0.suppressed ≡ false))
unfolding fire_entry
fire-InBurst e t v within = (ground arith, ground arith)

-- However the calls on a valid entry fall, within the window of one burst no more fires proceed than
-- the limit leaves, and none once the entry is suppressed.
pub burst_limit_lem :
    (e : RuleBreakerEntry) (ts : List ℕ)
    → IsValidEntry e
    → All (InBurst e.burst_start_ms) ts
    → proceeding e ts ≤ (if e.suppressed then 0 else burst_limit - e.burst_count)
burst_limit_lem e [] v h = omega arith
burst_limit_lem e (t ∷ ts) v h =
    let (start, outcome) = fire-InBurst e t v h.0 in
    let rest =
      burst_limit_lem (fire_entry e t).0 ts (fire_entry-IsValid e t v (omega (arith, h.0)))
        (rw start h.1) in
    elim outcome [
      | inl (refused, sup) ↦
          let nothing_more : proceeding (fire_entry e t).0 ts ≤ 0 = ground (arith, rest, sup) in
          simp refused (omega arith)
      | inr (ok, open_before, below, count, open_after) ↦
          let fewer : proceeding (fire_entry e t).0 ts ≤ burst_limit - (e.burst_count + 1) =
            ground (arith, rest) in
          simp (ok, open_before) (omega arith)
    ]

-- A suppressed entry refuses and stays as it is until more than two seconds after its last fire;
-- then the fire proceeds, as the first of a new burst.
pub suppressed_entry :
    (e : RuleBreakerEntry) (now : ℕ)
    → e.suppressed ≡ true
    → fire_entry e now ≡ (
        if ltb (e.last_fire_ms + quiet_reset_ms) now
        then (
          record e {
            burst_start_ms = now;
            burst_count = 1;
            last_fire_ms = now;
            suppressed = false;
            logged = false;
          },
          true,
        )
        else (e, false))
unfolding fire_entry roll_burst count_fire reset_entry
suppressed_entry e now s = ground arith
