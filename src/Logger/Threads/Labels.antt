-- ===== src/Logger/Threads/Labels.antt =====
-- Under which labels the lines of several threads stand.
use moduo.Prelude.{
  codes, take, ℕ, ◌≡◌, ◌≢◌, refl, sym, ap, ◌∙◌, Bool, true, false, List, [], ◌∷◌, ◌++◌, Text, ◌==◌,
  if◌then◌else◌, get_elem?, Option, some, none,
}
use mathlib.Core.Path.{fun_ext}
use mathlib.Core.List.{append_assoc, append-nil}
use moduo.Timestamp.{Calendar, Tm, now, print_tm, to_string}
use moduo.Logger.{LogLevel, info, error, fatal, debug, Logger, number, label}
use moduo.Logger.Lines.{Entry, entry, line, lines, label_lem}
use moduo.Logger.Threads.{
  unset_tm, Action, ends, write_actions, call_actions, actions, act, step, run, begin, wrote_by,
  wrote_all, texts,
}
use moduo.Logger.Threads.Ready.{IsReady, run-Keeps}

-- All entries are at one level and of one time.
abbrev pub AllAt : LogLevel → ℕ → List Entry → Type 0
AllAt level time [] = Unit
AllAt level time (entry other time' text ∷ es) =
    (other ≡ level) × (time' ≡ time) × AllAt level time es

-- The time as `localtime` stores it.
abbrev pub tm_of : Calendar → ℕ → Tm
tm_of c time = c.localtime (now time).micro_seconds_since_epoch

module _ (c : Calendar) (level : LogLevel) (time : ℕ) where
  write_actions-IsReady :
      (own : LogLevel) (time' : ℕ) (text : Text) (held : ℕ) (tm : Tm) (todo : List Action)
      → own ≡ level
      → time' ≡ time
      → ((held' : ℕ) (tm' : Tm) → IsReady level (tm_of c time) held' tm' todo)
      → IsReady level (tm_of c time) held tm (write_actions c own time' text todo)
  write_actions-IsReady own time' text held tm todo same same' rest =
      (ap number same, (refl, (ap (tm_of c) same', (refl, rest _ _))))

  actions-IsReady :
      (mudebug : Bool) (held : ℕ) (tm : Tm) (es : List Entry)
      → AllAt level time es
      → IsReady level (tm_of c time) held tm (actions c mudebug es)
  unfolding actions call_actions
  actions-IsReady mudebug held tm [] h = tt
  actions-IsReady mudebug held tm (entry info time' text ∷ es) h =
      write_actions-IsReady info time' text held tm (actions c mudebug es) h.0 h.1
        (λ held' tm'. actions-IsReady mudebug held' tm' es h.2)
  actions-IsReady mudebug held tm (entry error time' text ∷ es) h =
      write_actions-IsReady error time' text held tm (actions c mudebug es) h.0 h.1
        (λ held' tm'. actions-IsReady mudebug held' tm' es h.2)
  actions-IsReady mudebug held tm (entry fatal time' text ∷ es) h =
      write_actions-IsReady fatal time' text held tm (ends ∷ actions c mudebug es) h.0 h.1
        (λ held' tm'. actions-IsReady mudebug held' tm' es h.2)
  actions-IsReady true held tm (entry debug time' text ∷ es) h =
      write_actions-IsReady debug time' text held tm (actions c true es) h.0 h.1
        (λ held' tm'. actions-IsReady true held' tm' es h.2)
  actions-IsReady false held tm (entry debug time' text ∷ es) h =
      actions-IsReady false held tm es h.2

  -- A line, as the pieces that are written.
  line_of_pieces :
      (own : LogLevel) (time' : ℕ) (text rest : Text) (todo : List Action)
      → own ≡ level
      → time' ≡ time
      → texts level (tm_of c time) todo ≡ rest
      → texts level (tm_of c time) (write_actions c own time' text todo)
        ≡ line c own time' text ++ rest
  unfolding line to_string
  line_of_pieces own time' text rest todo same same' h = simp (sym same, sym same', h, append_assoc)

  actions-lines :
      (mudebug : Bool) (es : List Entry)
      → AllAt level time es
      → texts level (tm_of c time) (actions c mudebug es) ≡ lines c mudebug es
  unfolding actions call_actions lines
  actions-lines mudebug [] h = refl
  actions-lines mudebug (entry info time' text ∷ es) h =
      line_of_pieces info time' text _ (actions c mudebug es) h.0 h.1 (actions-lines mudebug es h.2)
  actions-lines mudebug (entry error time' text ∷ es) h =
      line_of_pieces error time' text _ (actions c mudebug es) h.0 h.1
        (actions-lines mudebug es h.2)
  actions-lines mudebug (entry fatal time' text ∷ es) h =
      line_of_pieces fatal time' text [] (ends ∷ actions c mudebug es) h.0 h.1 refl
      ∙ append-nil (line c fatal time' text)
  actions-lines true (entry debug time' text ∷ es) h =
      line_of_pieces debug time' text _ (actions c true es) h.0 h.1 (actions-lines true es h.2)
  actions-lines false (entry debug time' text ∷ es) h = actions-lines false es h.2

-- Any number of threads that log at one level and within one second, under any schedule: the log gains
-- what the threads wrote, and each thread wrote its lines, in order, each with that time, cut to 1023
-- characters and under the label of that level, up to a fatal one, but for what it has not come to write.
-- The pieces of different threads' lines may alternate.
pub one_level_lem :
    (c : Calendar) (mudebug : Bool) (level : LogLevel) (time : ℕ) (threads : ℕ → List Entry)
    (l : Logger) (schedule : List ℕ)
    → ((i : ℕ) → AllAt level time (threads i))
    → let (s, wrote) = run schedule (begin c mudebug threads l) in
      (s.logger.written ≡ l.written ++ wrote_all wrote)
      × ((i : ℕ)
          → wrote_by i wrote ++ texts level (tm_of c time) (s.left i) ≡ lines c mudebug (threads i))
one_level_lem c mudebug level time threads l schedule all =
    let (ready, own, gains) =
      run-Keeps level (tm_of c time) schedule (begin c mudebug threads l)
        (λ i. actions-IsReady c level time mudebug l.level _ (threads i) (all i)) in
    (gains, λ i. own i ∙ actions-lines c level time mudebug (threads i) (all i))

-- The second character of a label tells the level.
abbrev level_at : Option ℕ → LogLevel
level_at none = info
level_at (some x) =
    if x == 73 then info else if x == 69 then error else if x == 70 then fatal else debug

line-level :
    (c : Calendar) (level : LogLevel) (time : ℕ) (text : Text)
    → level_at (get_elem? (line c level time text) 1) ≡ level
unfolding line
line-level c info time text = refl
line-level c error time text = refl
line-level c fatal time text = refl
line-level c debug time text = refl

-- What the second thread does between `setLogLevel` and `log` of the first.
abbrev crossed : List ℕ
crossed = 0 ∷ 1 ∷ 0 ∷ 0 ∷ 0 ∷ 0 ∷ 0 ∷ 0 ∷ 1 ∷ 1 ∷ 1 ∷ 1 ∷ 1 ∷ 1 ∷ []

-- A line under any label.
abbrev labelled : Calendar → (heading : Text) → ℕ → Text → Text
labelled c heading time text =
    heading ++ print_tm c (tm_of c time) ++ codes " : " ++ take 1023 text ++ 10 ∷ []

regroup :
    (w a b p x n b' x' : Text)
    → ((((((((((w ++ a) ++ b) ++ p) ++ x) ++ n) ++ a) ++ b') ++ p) ++ x') ++ n)
      ≡ w ++ (a ++ b ++ p ++ x ++ n) ++ (a ++ b' ++ p ++ x' ++ n)
regroup w a b p x n b' x' = simp append_assoc

run-labelled :
    (c : Calendar) (own other : LogLevel) (time time' : ℕ) (text text' : Text) (tm : Tm)
    (l : Logger) (rest rest' : List Action)
    → (run crossed (record {
      logger = l;
      shared_tm = tm;
      going = true;
      left = λ i.
          if i == 0
          then write_actions c own time text rest
          else write_actions c other time' text' rest';
    })).0.logger.written
      ≡ l.written
        ++ labelled c (label (number other)) time text
        ++ labelled c (label (number other)) time' text'
unfolding run step act
run-labelled c own other time time' text text' tm l rest rest' =
    regroup l.written (label (number other)) (print_tm c (tm_of c time)) (codes " : ")
      (take 1023 text) (10 ∷ []) (print_tm c (tm_of c time')) (take 1023 text')

run-crossed :
    (c : Calendar) (own other : LogLevel) (time time' : ℕ) (text text' : Text) (tm : Tm)
    (l : Logger) (rest rest' : List Action)
    → (run crossed (record {
      logger = l;
      shared_tm = tm;
      going = true;
      left = λ i.
          if i == 0
          then write_actions c own time text rest
          else write_actions c other time' text' rest';
    })).0.logger.written
      ≡ l.written ++ line c other time text ++ line c other time' text'
unfolding line to_string
run-crossed c own other time time' text text' tm l rest rest' =
    run-labelled c own other time time' text text' tm l rest rest'
    ∙ ap (λ t. l.written ++ labelled c t time text ++ labelled c t time' text') (label_lem other)

-- What a thread does after the line of a macro.
abbrev ending : LogLevel → List Action
ending fatal = ends ∷ []
ending _ = []

call_actions-write :
    (c : Calendar) (level : LogLevel) (time : ℕ) (text : Text)
    → actions c true (entry level time text ∷ []) ≡ write_actions c level time text (ending level)
unfolding actions call_actions
call_actions-write c info time text = refl
call_actions-write c error time text = refl
call_actions-write c fatal time text = refl
call_actions-write c debug time text = refl

-- Two threads that log at different levels, with MUDEBUG: under some schedule the text of the first stands
-- on a line under the label of the second, which is not the line of that text.
pub label_of_another :
    (c : Calendar) (own other : LogLevel) (time time' : ℕ) (text text' : Text) (l : Logger)
    → own ≢ other
    → let threads =
        λ (i : ℕ). if i == 0 then entry own time text ∷ [] else entry other time' text' ∷ [] in
      ((schedule : List ℕ) × ((run schedule (begin c true threads l)).0.logger.written
          ≡ l.written ++ line c other time text ++ line c other time' text'))
      × (line c other time text ≢ line c own time text)
label_of_another c own other time time' text text' l different = (
  (
    crossed,
    ap
          (λ left.
            (run crossed (record {
              logger = l;
              shared_tm = unset_tm;
              going = true;
              left = left;
            })).0.logger.written)
          (fun_ext each)
        ∙ run-crossed c own other time time' text text' unset_tm l (ending own) (ending other),
  ),
  λ same. different (
      sym (line-level c own time text)
      ∙ ap (λ t. level_at (get_elem? t 1)) (sym same)
      ∙ line-level c other time text),
)
  where
    each :
        (i : ℕ)
        → actions c true (if i == 0 then entry own time text ∷ [] else entry other time' text' ∷ [])
          ≡ (if i == 0
              then write_actions c own time text (ending own)
              else write_actions c other time' text' (ending other))
    each i =
        elim (i == 0)
          as (λ first.
            actions c true
              (if first then entry own time text ∷ [] else entry other time' text' ∷ [])
            ≡ (if first
                then write_actions c own time text (ending own)
                else write_actions c other time' text' (ending other))) [
                  | true ↦ call_actions-write c own time text
                  | false ↦ call_actions-write c other time' text'
                ]
