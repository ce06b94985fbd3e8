-- ===== src/Logger.antt =====
-- src/Logger.h and src/Logger.cc: the logger, and the macros that call it. A text has its format
-- already applied.
pub mod Lines
pub mod Threads
use moduo.Prelude.{
  ℕ, Bool, true, false, List, [], ◌∷◌, ◌++◌, Text, codes, take, ◌==◌, if◌then◌else◌,
}
use moduo.Timestamp.{Calendar, now, to_string}

pub data LogLevel : Type 0 where
  info error fatal debug : LogLevel

-- `level` is an int: the number of a level, or before a level is set what the memory holds. `written` is
-- what `std::cout` has taken.
pub record Logger : Type 0 where
  pub level : ℕ
  pub written : Text

abbrev pub number : LogLevel → ℕ
number info = 0
number error = 1
number fatal = 2
number debug = 3

unfoldable pub set_log_level : ℕ → Logger → Logger
set_log_level level l = record l { level = level }

abbrev pub label : ℕ → Text
label level =
    if level == 0
    then codes "[INFO]"
    else if level == 1
    then codes "[ERROR]"
    else if level == 2
    then codes "[FATAL]"
    else if level == 3
    then codes "[DEBUG]"
    else []

unfoldable pub log : Calendar → (time : ℕ) → (msg : Text) → Logger → Logger
log c time msg l = record l {
  written = l.written ++ (label l.level ++ to_string c (now time) ++ codes " : " ++ msg ++ 10 ∷ []);
}

-- What the four macros have in common: the buffer has 1024 characters.
unfoldable pub write : Calendar → LogLevel → (time : ℕ) → (text : Text) → Logger → Logger
unfolding set_log_level log
write c level time text l = log c time (take 1023 text) (set_log_level (number level) l)

-- A call of a macro; `mudebug` is whether MUDEBUG is defined. The result says whether the process goes on.
unfoldable pub call :
    Calendar → (mudebug : Bool) → LogLevel → (time : ℕ) → (text : Text) → Logger → Logger × Bool
unfolding write
call c mudebug info time text l = (write c info time text l, true)
call c mudebug error time text l = (write c error time text l, true)
call c mudebug fatal time text l = (write c fatal time text l, false)
call c true debug time text l = (write c debug time text l, true)
call c false debug time text l = (l, true)
