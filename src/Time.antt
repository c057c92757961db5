-- ===== src/Time.antt =====
-- `std::time::SystemTime` and `Duration`, in nanoseconds. A `SystemTime` counts from the earliest
-- time that the platform represents (an `i64` of seconds before the Unix epoch), so it is a
-- natural number, and `<` on it is the order of `SystemTime`.
use git_cvs_fast_import.Prelude.{ℕ, ◌*◌, ◌^◌, ◌-◌, ◌/◌, Option, none, some, leb, if◌then◌else◌}

abbrev pub nanos_per_sec : ℕ
nanos_per_sec = 1_000_000_000

-- `SystemTime::UNIX_EPOCH`
abbrev pub unix_epoch : ℕ
unix_epoch = 2 ^ 63 * 1_000_000_000

-- `SystemTime::duration_since`: an error, here `none`, if `earlier` is later.
abbrev pub duration_since : ℕ → ℕ → Option ℕ
duration_since time earlier = if leb earlier time then some (time - earlier) else none

-- `Duration::as_secs`
abbrev pub as_secs : ℕ → ℕ
as_secs d = d / nanos_per_sec

-- `Result::unwrap_or_default` at a `Duration`
abbrev pub unwrap_or_default : Option ℕ → ℕ
unwrap_or_default none = 0
unwrap_or_default (some d) = d
