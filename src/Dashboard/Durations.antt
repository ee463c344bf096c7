-- ===== src/Dashboard/Durations.antt =====
-- Which durations `formatDuration` of dashboard-commons.js splits correctly.
use p_loadtesting.Prelude.{ℕ, ◌+◌, ◌*◌, ◌/◌, ◌%◌, ◌<◌, ◌≡◌, ◌↔◌, arith}
use p_loadtesting.Dashboard.{Parts, parts}

-- The milliseconds that the parts stand for.
abbrev pub milliseconds : Parts → ℕ
milliseconds p =
    p.days * 86400000 + p.hours * 3600000 + p.minutes * 60000 + p.seconds * 1000 + p.duration

milliseconds-parts : (d : ℕ) → milliseconds (parts d) ≡ d / 86400000 * 86400000 + d % 8640000
unfolding parts
milliseconds-parts d = omega arith

kept_iff : (d : ℕ) → (d / 86400000 * 86400000 + d % 8640000 ≡ d) ↔ (d % 86400000 < 8640000)
kept_iff d = (λ e. omega arith, λ h. omega arith)

-- The parts of a duration are together that duration exactly where its part of a day is less than
-- 8640000 milliseconds, a tenth of a day.
pub milliseconds-parts_iff : (d : ℕ) → (milliseconds (parts d) ≡ d) ↔ (d % 86400000 < 8640000)
milliseconds-parts_iff d = rw (milliseconds-parts d) (kept_iff d)
