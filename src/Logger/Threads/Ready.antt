-- ===== src/Logger/Threads/Ready.antt =====
-- Threads that set one level and store one time: what each step leaves of what they have to write.
use moduo.Prelude.{
  ℕ, ◌≡◌, refl, sym, ap, ◌∙◌, true, false, List, [], ◌∷◌, ◌++◌, Text, ◌==◌, if◌then◌else◌,
  Bool-cases, ==_iff, inl, inr,
}
use mathlib.Core.List.{append_assoc, append-nil}
use moduo.Timestamp.{Tm}
use moduo.Logger.{LogLevel, number, label}
use moduo.Logger.Lines.{label_lem}
use moduo.Logger.Threads.{
  Action, sets, labels, breaks, prints, puts, ends, Threads, leave, act, step, run, wrote_by,
  wrote_all, texts,
}

-- Every level that is set is `n` and every time that is stored is `tm`, and none is read before one is
-- set, unless `level` and `held` are these too.
abbrev pub IsReady : LogLevel → Tm → (level : ℕ) → (held : Tm) → List Action → Type 0
IsReady n tm level held [] = Unit
IsReady n tm level held (sets m ∷ rest) = (m ≡ number n) × IsReady n tm (number n) held rest
IsReady n tm level held (labels ∷ rest) = (level ≡ number n) × IsReady n tm level held rest
IsReady n tm level held (breaks other ∷ rest) = (other ≡ tm) × IsReady n tm level tm rest
IsReady n tm level held (prints format ∷ rest) = (held ≡ tm) × IsReady n tm level held rest
IsReady n tm level held (puts text ∷ rest) = IsReady n tm level held rest
IsReady n tm level held (ends ∷ rest) = IsReady n tm level held rest

module _ (n : LogLevel) (tm : Tm) where
  IsReady-set :
      (level : ℕ) (held : Tm) (todo : List Action)
      → IsReady n tm level held todo
      → IsReady n tm (number n) held todo
  IsReady-set level held [] h = h
  IsReady-set level held (sets m ∷ rest) h = h
  IsReady-set level held (labels ∷ rest) h = (refl, IsReady-set level held rest h.1)
  IsReady-set level held (breaks other ∷ rest) h = (h.0, IsReady-set level tm rest h.1)
  IsReady-set level held (prints format ∷ rest) h = (h.0, IsReady-set level held rest h.1)
  IsReady-set level held (puts text ∷ rest) h = IsReady-set level held rest h
  IsReady-set level held (ends ∷ rest) h = IsReady-set level held rest h

  IsReady-break :
      (level : ℕ) (held : Tm) (todo : List Action)
      → IsReady n tm level held todo
      → IsReady n tm level tm todo
  IsReady-break level held [] h = h
  IsReady-break level held (sets m ∷ rest) h = (h.0, IsReady-break (number n) held rest h.1)
  IsReady-break level held (labels ∷ rest) h = (h.0, IsReady-break level held rest h.1)
  IsReady-break level held (breaks other ∷ rest) h = h
  IsReady-break level held (prints format ∷ rest) h = (refl, IsReady-break level held rest h.1)
  IsReady-break level held (puts text ∷ rest) h = IsReady-break level held rest h
  IsReady-break level held (ends ∷ rest) h = IsReady-break level held rest h

  leave-IsReady :
      (level : ℕ) (held : Tm) (i : ℕ) (rest : List Action) (left : ℕ → List Action)
      → IsReady n tm level held rest
      → ((j : ℕ) → IsReady n tm level held (left j))
      → (j : ℕ) → IsReady n tm level held (leave i rest left j)
  leave-IsReady level held i rest left own others j = elim (Bool-cases (i == j)) [
    | inl same ↦ rw same own
    | inr different ↦ rw different (others j)
  ]

-- What a step leaves of a thread's own text.
module _ (n : LogLevel) (tm : Tm) (i j : ℕ) (todo rest : List Action) (left : ℕ → List Action)
    (e : left i ≡ todo) where
  at_thread : (i == j) ≡ true → texts n tm todo ≡ texts n tm (left j)
  at_thread same = ap (texts n tm) (sym e ∙ ap left ((==_iff i j).0 same))

  leave-texts :
      (text : Text)
      → texts n tm todo ≡ text ++ texts n tm rest
      → wrote_by j ((i, text) ∷ []) ++ texts n tm (leave i rest left j) ≡ texts n tm (left j)
  leave-texts text h = elim (Bool-cases (i == j)) [
    | inl same ↦ rw same (ap (λ t. t ++ texts n tm rest) (append-nil text) ∙ sym h ∙ at_thread same)
    | inr different ↦ rw different refl
  ]

  leave-texts_silent :
      texts n tm todo ≡ texts n tm rest → texts n tm (leave i rest left j) ≡ texts n tm (left j)
  leave-texts_silent h = elim (Bool-cases (i == j)) [
    | inl same ↦ rw same (sym h ∙ at_thread same)
    | inr different ↦ rw different refl
  ]

-- A step of a thread whose next actions are `todo`.
abbrev pub Keeps : LogLevel → Tm → Threads → Threads × List (ℕ × Text) → Type 0
Keeps n tm s (s', wrote) =
    ((j : ℕ) → IsReady n tm s'.logger.level s'.shared_tm (s'.left j))
    × ((j : ℕ) → wrote_by j wrote ++ texts n tm (s'.left j) ≡ texts n tm (s.left j))
    × (s'.logger.written ≡ s.logger.written ++ wrote_all wrote)

act-Keeps :
    (n : LogLevel) (tm : Tm) (i : ℕ) (todo : List Action) (s : Threads)
    → s.left i ≡ todo
    → IsReady n tm s.logger.level s.shared_tm todo
    → ((j : ℕ) → IsReady n tm s.logger.level s.shared_tm (s.left j))
    → Keeps n tm s (act i todo s)
unfolding act
act-Keeps n tm i [] s e own h = (h, λ j. refl, sym (append-nil s.logger.written))
act-Keeps n tm i (sets m ∷ rest) s e own h = (
  rw own.0 (
      leave-IsReady n tm (number n) s.shared_tm i rest s.left own.1
        (λ j. IsReady-set n tm _ s.shared_tm (s.left j) (h j))),
  λ j. leave-texts_silent n tm i j _ rest s.left e refl,
  sym (append-nil s.logger.written),
)
act-Keeps n tm i (labels ∷ rest) s e own h = (
  leave-IsReady n tm _ s.shared_tm i rest s.left own.1 h,
  λ j.
      leave-texts n tm i j _ rest s.left e (label s.logger.level)
        (ap (λ text. text ++ texts n tm rest) (sym (ap label own.0 ∙ label_lem n))),
  ap (λ t. s.logger.written ++ t) (sym (append-nil (label s.logger.level))),
)
act-Keeps n tm i (breaks other ∷ rest) s e own h = (
  rw own.0 (
      leave-IsReady n tm s.logger.level tm i rest s.left own.1
        (λ j. IsReady-break n tm s.logger.level _ (s.left j) (h j))),
  λ j. leave-texts_silent n tm i j _ rest s.left e refl,
  sym (append-nil s.logger.written),
)
act-Keeps n tm i (prints format ∷ rest) s e own h = (
  leave-IsReady n tm s.logger.level _ i rest s.left own.1 h,
  λ j.
      leave-texts n tm i j _ rest s.left e (format s.shared_tm)
        (ap (λ time. format time ++ texts n tm rest) (sym own.0)),
  ap (λ t. s.logger.written ++ t) (sym (append-nil (format s.shared_tm))),
)
act-Keeps n tm i (puts text ∷ rest) s e own h = (
  leave-IsReady n tm _ s.shared_tm i rest s.left own h,
  λ j. leave-texts n tm i j _ rest s.left e text refl,
  ap (λ t. s.logger.written ++ t) (sym (append-nil text)),
)
act-Keeps n tm i (ends ∷ rest) s e own h = (h, λ j. refl, sym (append-nil s.logger.written))

step-Keeps :
    (n : LogLevel) (tm : Tm) (i : ℕ) (s : Threads)
    → ((j : ℕ) → IsReady n tm s.logger.level s.shared_tm (s.left j))
    → Keeps n tm s (step i s)
unfolding step
step-Keeps n tm i s h =
    elim s.going as (λ goes. Keeps n tm s (if goes then act i (s.left i) s else (s, []))) [
      | true ↦ act-Keeps n tm i (s.left i) s refl (h i) h
      | false ↦ (h, λ j. refl, sym (append-nil s.logger.written))
    ]

wrote_by-append :
    (j : ℕ) (xs ys : List (ℕ × Text)) → wrote_by j (xs ++ ys) ≡ wrote_by j xs ++ wrote_by j ys
wrote_by-append j [] ys = refl
wrote_by-append j ((i, text) ∷ xs) ys = elim (Bool-cases (i == j)) [
  | inl same ↦ rw same (simp (wrote_by-append j xs ys, append_assoc))
  | inr different ↦ rw different (wrote_by-append j xs ys)
]

wrote_all-append : (xs ys : List (ℕ × Text)) → wrote_all (xs ++ ys) ≡ wrote_all xs ++ wrote_all ys
wrote_all-append [] ys = refl
wrote_all-append ((i, text) ∷ xs) ys = simp (wrote_all-append xs ys, append_assoc)

pub run-Keeps :
    (n : LogLevel) (tm : Tm) (schedule : List ℕ) (s : Threads)
    → ((j : ℕ) → IsReady n tm s.logger.level s.shared_tm (s.left j))
    → Keeps n tm s (run schedule s)
unfolding run
run-Keeps n tm [] s h = (h, λ j. refl, sym (append-nil s.logger.written))
run-Keeps n tm (i ∷ is) s h =
    let (s₁, wrote) = step i s in
    let (ready₁, own₁, all₁) = step-Keeps n tm i s h in
    let (s₂, more) = run is s₁ in
    let (ready₂, own₂, all₂) = run-Keeps n tm is s₁ ready₁ in
    (
      ready₂,
      λ j.
          ap (λ t. t ++ texts n tm (s₂.left j)) (wrote_by-append j wrote more)
          ∙ append_assoc (wrote_by j wrote) (wrote_by j more) (texts n tm (s₂.left j))
          ∙ ap (λ t. wrote_by j wrote ++ t) (own₂ j)
          ∙ own₁ j,
      all₂
          ∙ ap (λ t. t ++ wrote_all more) all₁
          ∙ append_assoc s.logger.written (wrote_all wrote) (wrote_all more)
          ∙ ap (λ t. s.logger.written ++ t) (sym (wrote_all-append wrote more)),
    )
