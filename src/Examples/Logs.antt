-- ===== src/Examples/Logs.antt =====
-- Threads that log.
use moduo.Prelude.{ℕ, ◌≡◌, ◌≢◌, true, [], ◌∷◌, ◌++◌, List, codes, if◌then◌else◌, ◌==◌, arith}
use moduo.Logger.{info, error}
use moduo.Logger.Lines.{Entry, entry, line, lines}
use moduo.Logger.Threads.{begin, run, wrote_all, wrote_by, texts}
use moduo.Logger.Threads.Labels.{AllAt, tm_of, one_level_lem, label_of_another}
use moduo.Examples.Addresses.{calendar, empty_log}

-- Two threads with a line each, and others with nothing to log.
abbrev two_threads : ℕ → List Entry
two_threads i =
    if i == 0
    then entry info 0 (codes "a") ∷ []
    else if i == 1
    then entry info 0 (codes "b") ∷ []
    else []

two_threads-AllAt : (i : ℕ) → AllAt info 0 (two_threads i)
two_threads-AllAt i = ground arith

one_level_lem_example :
    let (s, wrote) = run (0 ∷ 1 ∷ 1 ∷ 0 ∷ 1 ∷ []) (begin calendar true two_threads empty_log) in
    (s.logger.written ≡ empty_log.written ++ wrote_all wrote)
    × ((i : ℕ)
        → wrote_by i wrote ++ texts info (tm_of calendar 0) (s.left i)
          ≡ lines calendar true (two_threads i))
one_level_lem_example =
    one_level_lem calendar true info 0 two_threads empty_log (0 ∷ 1 ∷ 1 ∷ 0 ∷ 1 ∷ [])
      two_threads-AllAt

info-ne-error : info ≢ error
info-ne-error e = cc

label_of_another_example :
    let threads = λ (i : ℕ).
      if i == 0 then entry info 0 (codes "up") ∷ [] else entry error 3 (codes "down") ∷ [] in
    ((schedule : List ℕ) × ((run schedule (begin calendar true threads empty_log)).0.logger.written
        ≡ [] ++ line calendar error 0 (codes "up") ++ line calendar error 3 (codes "down")))
    × (line calendar error 0 (codes "up") ≢ line calendar info 0 (codes "up"))
label_of_another_example =
    label_of_another calendar info error 0 3 (codes "up") (codes "down") empty_log info-ne-error
