-- ===== src/Logger/Threads.antt =====
-- The macros in several threads, which share the logger and the `tm` of `localtime`: what a call does to
-- them, in the steps between which another thread may run. `std::cout` takes each `<<` whole, and
-- `localtime` and `snprintf` write and read the `tm` in one step each.
pub mod Labels
pub mod Ready
use moduo.Prelude.{
  ℕ, suc, ◌≡◌, refl, sym, ap, ◌∙◌, Bool, true, false, List, [], ◌∷◌, ◌++◌, Text, codes, take, ◌==◌,
  if◌then◌else◌, Bool-cases, inl, inr, arith,
}
use mathlib.Core.List.{append_assoc, append-nil}
use moduo.Timestamp.{Calendar, Tm, now, print_tm, to_string}
use moduo.Logger.{
  LogLevel, info, error, fatal, debug, Logger, number, label, log, write, set_log_level, call,
}
use moduo.Logger.Lines.{Entry, entry, line, lines, level_text}

-- A call of `setLogLevel`; the `switch` of `log`; the call of `localtime`, which stores the time in the `tm`;
-- the `<<` of what `snprintf` prints of that `tm`; another `<<` of `log`; `exit`.
pub data Action : Type 0 where
  sets : ℕ → Action
  labels : Action
  breaks : Tm → Action
  prints : (Tm → Text) → Action
  puts : Text → Action
  ends : Action

abbrev pub write_actions : Calendar → LogLevel → ℕ → Text → List Action → List Action
write_actions c level time text rest =
    sets (number level)
    ∷ labels
    ∷ breaks (c.localtime (now time).micro_seconds_since_epoch)
    ∷ prints (print_tm c)
    ∷ puts (codes " : ")
    ∷ puts (take 1023 text)
    ∷ puts (10 ∷ [])
    ∷ rest

-- A call of the macro of a level, and what the thread does after it.
unfoldable pub call_actions :
    Calendar → (mudebug : Bool) → LogLevel → ℕ → Text → List Action → List Action
call_actions c mudebug info time text rest = write_actions c info time text rest
call_actions c mudebug error time text rest = write_actions c error time text rest
call_actions c mudebug fatal time text rest = write_actions c fatal time text (ends ∷ rest)
call_actions c true debug time text rest = write_actions c debug time text rest
call_actions c false debug time text rest = rest

unfoldable pub actions : Calendar → (mudebug : Bool) → List Entry → List Action
actions c mudebug [] = []
actions c mudebug (entry level time text ∷ es) =
    call_actions c mudebug level time text (actions c mudebug es)

-- `left` is what each thread has still to do.
pub record Threads : Type 0 where
  pub logger : Logger
  pub shared_tm : Tm
  pub going : Bool
  pub left : ℕ → List Action

abbrev pub leave : ℕ → List Action → (ℕ → List Action) → ℕ → List Action
leave i todo left j = if i == j then todo else left j

abbrev pub put : Text → Logger → Logger
put text l = record l { written = l.written ++ text }

-- The next action of a thread, and what it wrote.
unfoldable pub act : ℕ → List Action → Threads → Threads × List (ℕ × Text)
unfolding set_log_level
act i [] s = (s, [])
act i (sets level ∷ todo) s =
    (record s { logger = set_log_level level s.logger; left = leave i todo s.left }, [])
act i (labels ∷ todo) s = (
  record s { logger = put (label s.logger.level) s.logger; left = leave i todo s.left },
  (i, label s.logger.level) ∷ [],
)
act i (breaks tm ∷ todo) s = (record s { shared_tm = tm; left = leave i todo s.left }, [])
act i (prints format ∷ todo) s = (
  record s { logger = put (format s.shared_tm) s.logger; left = leave i todo s.left },
  (i, format s.shared_tm) ∷ [],
)
act i (puts text ∷ todo) s =
    (record s { logger = put text s.logger; left = leave i todo s.left }, (i, text) ∷ [])
act i (ends ∷ todo) s = (record s { going = false }, [])

-- No thread runs once the process has ended.
unfoldable pub step : ℕ → Threads → Threads × List (ℕ × Text)
unfolding act
step i s = if s.going then act i (s.left i) s else (s, [])

-- The threads run in the order of a schedule.
unfoldable pub run : List ℕ → Threads → Threads × List (ℕ × Text)
run [] s = (s, [])
run (i ∷ is) s = let (s₁, wrote) = step i s in let (s₂, more) = run is s₁ in (s₂, wrote ++ more)

-- The `tm` has no time at first.
abbrev pub unset_tm : Tm
unset_tm = record { tm_year = 0; tm_mon = 0; tm_mday = 0; tm_hour = 0; tm_min = 0; tm_sec = 0 }

abbrev pub begin : Calendar → (mudebug : Bool) → (ℕ → List Entry) → Logger → Threads
begin c mudebug threads l = record {
  logger = l;
  shared_tm = unset_tm;
  going = true;
  left = λ i. actions c mudebug (threads i);
}

-- What one thread wrote, and what all wrote.
abbrev pub wrote_by : ℕ → List (ℕ × Text) → Text
wrote_by i [] = []
wrote_by i ((j, text) ∷ said) = let rest = wrote_by i said in if j == i then text ++ rest else rest

abbrev pub wrote_all : List (ℕ × Text) → Text
wrote_all [] = []
wrote_all ((j, text) ∷ said) = text ++ wrote_all said

-- What a thread has to write at one level and one time, until it ends the process.
abbrev pub texts : LogLevel → Tm → List Action → Text
texts level tm [] = []
texts level tm (sets n ∷ todo) = texts level tm todo
texts level tm (labels ∷ todo) = level_text level ++ texts level tm todo
texts level tm (breaks _ ∷ todo) = texts level tm todo
texts level tm (prints format ∷ todo) = format tm ++ texts level tm todo
texts level tm (puts text ∷ todo) = text ++ texts level tm todo
texts level tm (ends ∷ todo) = []

-- The steps of a thread that nothing interrupts.
unfoldable pub act_all : List Action → Tm → Logger → Logger × Bool
unfolding set_log_level
act_all [] tm l = (l, true)
act_all (sets level ∷ todo) tm l = act_all todo tm (set_log_level level l)
act_all (labels ∷ todo) tm l = act_all todo tm (put (label l.level) l)
act_all (breaks tm ∷ todo) _ l = act_all todo tm l
act_all (prints format ∷ todo) tm l = act_all todo tm (put (format tm) l)
act_all (puts text ∷ todo) tm l = act_all todo tm (put text l)
act_all (ends ∷ todo) tm l = (l, false)

one_line :
    (c : Calendar) (level : LogLevel) (time : ℕ) (text : Text) (tm : Tm) (l : Logger)
    (rest : List Action)
    → act_all (write_actions c level time text rest) tm l
      ≡ act_all rest (c.localtime (now time).micro_seconds_since_epoch) (write c level time text l)
unfolding act_all write log to_string
one_line c level time text tm l rest =
    ap
      (λ (w : Text).
        act_all rest (c.localtime (now time).micro_seconds_since_epoch)
          (record l { level = number level; written = w }))
      (simp append_assoc)

-- The steps of a macro, one after the other, do what the macro does.
pub act_all-call :
    (c : Calendar) (mudebug : Bool) (level : LogLevel) (time : ℕ) (text : Text) (tm : Tm)
    (l : Logger)
    → act_all (call_actions c mudebug level time text []) tm l ≡ call c mudebug level time text l
unfolding act_all call_actions call
act_all-call c mudebug info time text tm l = one_line c info time text tm l []
act_all-call c mudebug error time text tm l = one_line c error time text tm l []
act_all-call c mudebug fatal time text tm l = one_line c fatal time text tm l (ends ∷ [])
act_all-call c true debug time text tm l = one_line c debug time text tm l []
act_all-call c false debug time text tm l = refl
