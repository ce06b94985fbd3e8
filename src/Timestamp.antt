-- ===== src/Timestamp.antt =====
-- src/Timestamp.h and src/Timestamp.cc: the time of a line of the log.
use moduo.Prelude.{ℕ, ◌+◌, ◌∷◌, ◌++◌, Text, take}

-- `tm`.
pub record Tm : Type 0 where
  pub tm_year : ℕ
  pub tm_mon : ℕ
  pub tm_mday : ℕ
  pub tm_hour : ℕ
  pub tm_min : ℕ
  pub tm_sec : ℕ

-- The C library's part: `localtime`, and the `%4d` and `%02d` of `snprintf`.
pub record Calendar : Type 0 where
  pub localtime : ℕ → Tm
  pub print_4d : ℕ → Text
  pub print_02d : ℕ → Text

-- The source calls them microseconds; `now` stores seconds.
pub record Timestamp : Type 0 where
  pub micro_seconds_since_epoch : ℕ

unfoldable pub default : Timestamp
default = record { micro_seconds_since_epoch = 0 }

unfoldable pub new : ℕ → Timestamp
new n = record { micro_seconds_since_epoch = n }

-- `time` is what `time (NULL)` returns.
unfoldable pub now : (time : ℕ) → Timestamp
unfolding new
now time = new time

-- The call of `snprintf` in `toString`, on what its `tm_time` points to.
unfoldable pub print_tm : Calendar → Tm → Text
print_tm c tm_time = take 127 (
    c.print_4d (tm_time.tm_year + 1900)
    ++ 47 ∷ c.print_02d (tm_time.tm_mon + 1)
    ++ 47 ∷ c.print_02d tm_time.tm_mday
    ++ 32 ∷ c.print_02d tm_time.tm_hour
    ++ 58 ∷ c.print_02d tm_time.tm_min
    ++ 58 ∷ c.print_02d tm_time.tm_sec)

-- `localtime` returns the address of a `tm` that all threads share: that another thread changes it before it
-- is printed is in Logger/Threads.
unfoldable pub to_string : Calendar → Timestamp → Text
unfolding print_tm
to_string c t = print_tm c (c.localtime t.micro_seconds_since_epoch)
