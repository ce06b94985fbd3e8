-- ===== src/Logger/Lines.antt =====
-- What a run of the macros writes.
use moduo.Prelude.{
  ℕ, ◌≡◌, refl, sym, ap, ◌∙◌, Bool, true, false, not, List, [], ◌∷◌, ◌++◌, Text, codes, take,
}
use mathlib.Core.List.{append_assoc, append-nil}
use moduo.Timestamp.{Calendar, now, to_string}
use moduo.Logger.{
  LogLevel, info, error, fatal, debug, Logger, number, label, log, write, set_log_level, call,
}

-- A call of the macro of a level: the time, and the text.
pub data Entry : Type 0 where
  entry : LogLevel → ℕ → Text → Entry

-- Calls of macros, one after the other, while the process goes on.
unfoldable pub call_all : Calendar → (mudebug : Bool) → List Entry → Logger → Logger × Bool
call_all c mudebug [] l = (l, true)
call_all c mudebug (entry level time text ∷ es) l =
    let (l₁, goes_on) = call c mudebug level time text l in
    elim goes_on [ true ↦ call_all c mudebug es l₁ | false ↦ (l₁, false) ]

-- What a line of a level is to begin with.
abbrev pub level_text : LogLevel → Text
level_text info = codes "[INFO]"
level_text error = codes "[ERROR]"
level_text fatal = codes "[FATAL]"
level_text debug = codes "[DEBUG]"

-- The `switch` of `log`.
pub label_lem : (level : LogLevel) → label (number level) ≡ level_text level
label_lem info = refl
label_lem error = refl
label_lem fatal = refl
label_lem debug = refl

-- The line of a text, under the label of its own level.
unfoldable pub line : Calendar → LogLevel → ℕ → Text → Text
line c level time text =
    level_text level ++ to_string c (now time) ++ codes " : " ++ take 1023 text ++ 10 ∷ []

-- The lines up to that of the first fatal text.
unfoldable pub lines : Calendar → (mudebug : Bool) → List Entry → Text
lines c mudebug [] = []
lines c mudebug (entry info time text ∷ es) = line c info time text ++ lines c mudebug es
lines c mudebug (entry error time text ∷ es) = line c error time text ++ lines c mudebug es
lines c mudebug (entry fatal time text ∷ es) = line c fatal time text
lines c true (entry debug time text ∷ es) = line c debug time text ++ lines c true es
lines c false (entry debug time text ∷ es) = lines c false es

unfoldable pub has_fatal : List Entry → Bool
has_fatal [] = false
has_fatal (entry fatal time text ∷ es) = true
has_fatal (entry _ time text ∷ es) = has_fatal es

write_lem :
    (c : Calendar) (level : LogLevel) (time : ℕ) (text : Text) (l : Logger)
    → (write c level time text l).written ≡ l.written ++ line c level time text
unfolding write log set_log_level line
write_lem c level time text l = rw (label_lem level) refl

-- A line, and what is written after it.
write-written :
    (c : Calendar) (level : LogLevel) (time : ℕ) (text rest whole : Text) (l : Logger)
    → whole ≡ (write c level time text l).written ++ rest
    → whole ≡ l.written ++ (line c level time text ++ rest)
write-written c level time text rest whole l h =
    h
    ∙ ap (λ t. t ++ rest) (write_lem c level time text l)
    ∙ append_assoc l.written (line c level time text) rest

-- The macros, called one after the other, write what the log had and one line for each text up to the
-- first fatal one, each cut to 1023 characters and under the label
-- of its own level, the texts of `LOG_DEBUG` only with MUDEBUG; and
-- the process ends exactly when a text was fatal.
pub call_all_lem :
    (c : Calendar) (mudebug : Bool) (es : List Entry) (l : Logger)
    → ((call_all c mudebug es l).0.written ≡ l.written ++ lines c mudebug es)
      × ((call_all c mudebug es l).1 ≡ not (has_fatal es))
unfolding call_all lines has_fatal call
call_all_lem c mudebug [] l = (sym (append-nil l.written), refl)
call_all_lem c mudebug (entry info time text ∷ es) l =
    let (written, goes) = call_all_lem c mudebug es (write c info time text l) in
    (write-written c info time text _ _ l written, goes)
call_all_lem c mudebug (entry error time text ∷ es) l =
    let (written, goes) = call_all_lem c mudebug es (write c error time text l) in
    (write-written c error time text _ _ l written, goes)
call_all_lem c mudebug (entry fatal time text ∷ es) l = (write_lem c fatal time text l, refl)
call_all_lem c true (entry debug time text ∷ es) l =
    let (written, goes) = call_all_lem c true es (write c debug time text l) in
    (write-written c debug time text _ _ l written, goes)
call_all_lem c false (entry debug time text ∷ es) l = call_all_lem c false es l
