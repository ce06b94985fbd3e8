-- ===== src/Examples/Threads.antt =====
-- Threads.
use moduo.Prelude.{◌≡◌, refl, Bool, true, false, [], ◌∷◌, codes}
use moduo.Thread
use moduo.Thread.{Thread}
use moduo.Thread.Protocol.{starts, joins, life, is_ok, alternates, life-alternates}
use moduo.EventLoopThread.{
  waiting, running, waking, joining, faulted, constructing, entering, looping, finished,
  EventLoopThread, new, start_thread, construct, call_back, publish, wake, enter, ask, leave, clear,
  see_loop, read_loop, set_quit, finish_quit, finish_gone, vanish, Reach, here, next,
}
use moduo.EventLoopThread.Soundness.{unasked_faults_in_wakeup}
use moduo.EventLoopThread.Inevitable.{Inevitably}
use moduo.EventLoopThread.Handshake.{start_loop_returns}
use moduo.EventLoopThread.Endings.{lost_quit, start_loop_stuck}

life-alternates_example :
    is_ok (life 7 (starts ∷ joins ∷ []) (Thread.new (λ i. i ∷ []) 0 (codes "io")).0) ≡ true
unfolding alternates
life-alternates_example = life-alternates (λ i. i ∷ []) 0 (codes "io") 7 (starts ∷ joins ∷ [])

-- A thread that is started and destroyed.
unjoined : is_ok (life 7 (starts ∷ []) (Thread.new (λ i. i ∷ []) 0 (codes "io")).0) ≡ false
unfolding alternates
unjoined = life-alternates (λ i. i ∷ []) 0 (codes "io") 7 (starts ∷ [])

-- The loop is published, and the owner has it, before the thread is in `loop ()`.
started :
    (asked : Bool)
    → Reach asked new (record {
      owner = running;
      worker = entering;
      asleep = false;
      published = true;
      quit = false;
    })
started asked =
    next
      (next (next (next (next here (start_thread _ refl)) (construct _ refl)) (call_back _ refl))
        (publish _ refl))
      (wake _ refl refl refl)

start_loop_returns_example :
    Inevitably false
      (λ u. u.owner ≡ running)
      (record {
        owner = waiting;
        worker = constructing;
        asleep = false;
        published = false;
        quit = false;
      })
start_loop_returns_example =
    start_loop_returns
      (record {
        owner = waiting;
        worker = constructing;
        asleep = false;
        published = false;
        quit = false;
      })
      (next here (start_thread _ refl)) refl

-- The destructor begins when the thread is in `loop ()`.
served :
    Reach false new
      (record { owner = running; worker = looping; asleep = false; published = true; quit = false })
served = next (started false) (enter _ refl)

-- `quit_` is set, and the loop is left and destroyed before the rest of `quit`.
abbrev overtaken : EventLoopThread
overtaken = record {
  owner = waking;
  worker = finished;
  asleep = false;
  published = false;
  quit = true;
}

overtaken_reached : Reach false new overtaken
overtaken_reached =
    next
      (next
        (next
          (next (next (next served (see_loop _ refl refl)) (read_loop _ refl refl))
            (set_quit _ refl refl))
          (leave _ refl refl))
        (clear _ refl))
      (vanish _ refl)

unasked_faults_in_wakeup_example : (waking ≡ waking) × (finished ≡ finished)
unasked_faults_in_wakeup_example =
    unasked_faults_in_wakeup overtaken (record overtaken { owner = faulted }) overtaken_reached
      (λ e. cc e) (finish_gone _ refl refl) refl

-- The destructor runs at once after `startLoop`.
abbrev hurried : EventLoopThread
hurried = record {
  owner = joining;
  worker = entering;
  asleep = false;
  published = true;
  quit = true;
}

hurried_reached : Reach false new hurried
hurried_reached =
    next
      (next (next (next (started false) (see_loop _ refl refl)) (read_loop _ refl refl))
        (set_quit _ refl refl))
      (finish_quit _ refl refl)

lost_quit_example : joining ≡ joining
lost_quit_example =
    lost_quit hurried
      (record { owner = joining; worker = looping; asleep = false; published = true; quit = false })
      refl refl (next here (enter hurried refl))

-- The loop is asked to quit, and ends, before the owner wakes.
missed_reached :
    Reach true new (record {
      owner = waiting;
      worker = finished;
      asleep = false;
      published = false;
      quit = true;
    })
missed_reached =
    next
      (next
        (next
          (next
            (next
              (next
                (next (next (next here (start_thread _ refl)) (construct _ refl))
                  (call_back _ refl))
                (publish _ refl))
              (enter _ refl))
            (ask _ refl refl))
          (leave _ refl refl))
        (clear _ refl))
      (vanish _ refl)

start_loop_stuck_example : waiting ≡ waiting
start_loop_stuck_example =
    start_loop_stuck
      (record {
        owner = waiting;
        worker = finished;
        asleep = false;
        published = false;
        quit = true;
      })
      (record {
        owner = waiting;
        worker = finished;
        asleep = false;
        published = false;
        quit = true;
      })
      missed_reached refl refl here
