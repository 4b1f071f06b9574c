-- ===== src/Restart/Window.antt =====
-- The failures that the policy counts.
use mould_system_backend.Common.{
  ℕ, List, [], ◌∷◌, ◌++◌, ◌+◌, ◌≤◌, ◌≡◌, refl, arith, leb, if◌then◌else◌, length, length-append,
  pos_part,
}
use mould_system_backend.Restart.{RestartPolicyConfig, ModulePolicyState, drop_old, recent}

-- The times rise from `lo` on, and none is later than `hi`.
abbrev pub Rising : ℕ → List ℕ → ℕ → Type 0
Rising lo [] hi = lo ≤ hi
Rising lo (t ∷ ts) hi = (lo ≤ t) × Rising t ts hi

pub Rising-later :
    (lo : ℕ) (ts : List ℕ) (hi now : ℕ) → hi ≤ now → Rising lo ts hi → Rising lo ts now
Rising-later lo [] hi now h r = omega arith
Rising-later lo (t ∷ ts) hi now h r = (r.0, Rising-later t ts hi now h r.1)

Rising-lower : (lo low : ℕ) (ts : List ℕ) (hi : ℕ) → low ≤ lo → Rising lo ts hi → Rising low ts hi
Rising-lower lo low [] hi h r = omega arith
Rising-lower lo low (t ∷ ts) hi h r = (omega arith, r.1)

Rising-append : (lo : ℕ) (ts : List ℕ) (now : ℕ) → Rising lo ts now → Rising lo (ts ++ now ∷ []) now
Rising-append lo [] now r = (r, omega arith)
Rising-append lo (t ∷ ts) now r = (r.0, Rising-append t ts now r.1)

-- How many of the times lie in the window that ends at `now`.
unfoldable pub count_recent : ℕ → ℕ → List ℕ → ℕ
count_recent window now [] = 0
count_recent window now (t ∷ ts) =
    (if leb now (t + window) then 1 else 0) + count_recent window now ts

count_recent-all :
    (window now lo : ℕ) (ts : List ℕ) (hi : ℕ)
    → now ≤ lo + window
    → Rising lo ts hi
    → count_recent window now ts ≡ length ts
unfolding count_recent
count_recent-all window now lo [] hi h r = refl
count_recent-all window now lo (t ∷ ts) hi h r = ground (arith, count_recent-all window now t ts hi)

length-drop_old :
    (window now lo : ℕ) (ts : List ℕ) (hi : ℕ)
    → Rising lo ts hi
    → length (drop_old window now ts) ≡ count_recent window now ts
unfolding drop_old count_recent
length-drop_old window now lo [] hi r = refl
length-drop_old window now lo (t ∷ ts) hi r =
    ground (arith, length-drop_old window now t ts hi r.1, count_recent-all window now t ts hi)

drop_old-Rising :
    (window now lo : ℕ) (ts : List ℕ) (hi : ℕ)
    → Rising lo ts hi
    → Rising lo (drop_old window now ts) hi
unfolding drop_old
drop_old-Rising window now lo [] hi r = r
drop_old-Rising window now lo (t ∷ ts) hi r =
    ground
      (arith, Rising-lower t lo (drop_old window now ts) hi, drop_old-Rising window now t ts hi r.1)

-- With failures recorded in the order of time, the policy counts exactly those of the window, and
-- the new one.
pub length-recent :
    (config : RestartPolicyConfig) (now : ℕ) (s : ModulePolicyState)
    → Rising 0 s.failure_timestamps_ms now
    → length (recent config now s)
      ≡ count_recent (pos_part config.restart_window_ms) now s.failure_timestamps_ms + 1
unfolding recent
length-recent config now s r = omega (
  arith,
  length-append (drop_old (pos_part config.restart_window_ms) now s.failure_timestamps_ms)
      (now ∷ []),
  length-drop_old (pos_part config.restart_window_ms) now 0 s.failure_timestamps_ms now r,
)

pub recent-Rising :
    (config : RestartPolicyConfig) (now : ℕ) (s : ModulePolicyState)
    → Rising 0 s.failure_timestamps_ms now
    → Rising 0 (recent config now s) now
unfolding recent
recent-Rising config now s r =
    Rising-append 0 _ now
      (drop_old-Rising (pos_part config.restart_window_ms) now 0 s.failure_timestamps_ms now r)
