-- ===== src/EventLoopThread.antt =====
-- src/EventLoopThread.h and src/EventLoopThread.cc: the thread that makes a loop and the thread that
-- owns the object, as steps in any order. A part under `mutex_` is one step.
pub mod Soundness
pub mod Inevitable
pub mod Handshake
pub mod Endings
pub mod Late
use moduo.Prelude.{◌≡◌, Bool, true, false}

-- Where the owner stands: before `startLoop`; in `cond_.wait`; after it; in the destructor once `loop_` was
-- seen not to be null; with the pointer read again, before `quit_ = true` of `EventLoop::quit`; before the
-- rest of `quit`, which ends in `wakeup`; in `thread_.join ()`; past the destructor; or past a call through a
-- null pointer or on a loop that is gone, or past the destructor of a thread that was started and not joined.
pub data Owner : Type 0 where
  idle waiting running quitting calling waking joining gone faulted : Owner

-- Where the thread stands: not started; making the loop; in `callback_`; before `loop_ = &loop`; before
-- `loop_->loop ()`; in it; after it; after `loop_ = nullptr`; or at the end, where the loop is gone.
pub data Worker : Type 0 where
  unborn constructing initializing publishing entering looping leaving clearing finished : Worker

-- The loop of `threadFunc` is made and not destroyed.
abbrev pub is_there : Worker → Bool
is_there unborn = false
is_there constructing = false
is_there finished = false
is_there _ = true

-- `asleep` is whether the owner, in `cond_.wait`, is blocked until it is notified; `published` is
-- `loop_ != nullptr`; `quit` is `quit_` of the loop.
pub record EventLoopThread : Type 0 where
  pub owner : Owner
  pub worker : Worker
  pub asleep : Bool
  pub published : Bool
  pub quit : Bool

abbrev pub new : EventLoopThread
new = record { owner = idle; worker = unborn; asleep = false; published = false; quit = false }

-- `asked` is whether anybody but the destructor calls `quit` on the loop. Such a call before `loop ()` is
-- forgotten and one after it changes nothing, so that only those in it are steps. A blocked `wait` returns when it is
-- notified, and not by itself, which the standard allows too: `startLoop` would test `loop_` again.
pub data Step (asked : Bool) : EventLoopThread → EventLoopThread → Type 0 where
  start_thread :
      (s : EventLoopThread)
      → s.owner ≡ idle
      → Step asked s (record s { owner = waiting; worker = constructing; asleep = false })
  construct :
      (s : EventLoopThread)
      → s.worker ≡ constructing
      → Step asked s (record s { worker = initializing; quit = false })
  call_back :
      (s : EventLoopThread)
      → s.worker ≡ initializing
      → Step asked s (record s { worker = publishing })
  -- `loop_ = &loop; cond_.notify_one ()`.
  publish :
      (s : EventLoopThread)
      → s.worker ≡ publishing
      → Step asked s (record s { worker = entering; asleep = false; published = true })
  -- `wait` tests `loop_`, and blocks or returns.
  fall_asleep :
      (s : EventLoopThread)
      → s.owner ≡ waiting
      → s.asleep ≡ false
      → s.published ≡ false
      → Step asked s (record s { asleep = true })
  wake :
      (s : EventLoopThread)
      → s.owner ≡ waiting
      → s.asleep ≡ false
      → s.published ≡ true
      → Step asked s (record s { owner = running })
  -- `EventLoop::loop` sets `quit_` to false.
  enter :
      (s : EventLoopThread)
      → s.worker ≡ entering
      → Step asked s (record s { worker = looping; quit = false })
  ask :
      (s : EventLoopThread)
      → asked ≡ true
      → s.worker ≡ looping
      → Step asked s (record s { quit = true })
  leave :
      (s : EventLoopThread)
      → s.worker ≡ looping
      → s.quit ≡ true
      → Step asked s (record s { worker = leaving })
  clear :
      (s : EventLoopThread)
      → s.worker ≡ leaving
      → Step asked s (record s { worker = clearing; published = false })
  -- The destructor of the loop.
  vanish :
      (s : EventLoopThread) → s.worker ≡ clearing → Step asked s (record s { worker = finished })
  -- The destructor: of an object that was not started, and of one that was.
  destroy_idle : (s : EventLoopThread) → s.owner ≡ idle → Step asked s (record s { owner = gone })
  see_loop :
      (s : EventLoopThread)
      → s.owner ≡ running
      → s.published ≡ true
      → Step asked s (record s { owner = quitting })
  see_none :
      (s : EventLoopThread)
      → s.owner ≡ running
      → s.published ≡ false
      → Step asked s (record s { owner = faulted })
  -- `loop_->quit ()` reads `loop_`, sets `quit_`, and goes on in the loop.
  read_loop :
      (s : EventLoopThread)
      → s.owner ≡ quitting
      → s.published ≡ true
      → Step asked s (record s { owner = calling })
  quit_null :
      (s : EventLoopThread)
      → s.owner ≡ quitting
      → s.published ≡ false
      → Step asked s (record s { owner = faulted })
  set_quit :
      (s : EventLoopThread)
      → s.owner ≡ calling
      → is_there s.worker ≡ true
      → Step asked s (record s { owner = waking; quit = true })
  set_gone :
      (s : EventLoopThread)
      → s.owner ≡ calling
      → is_there s.worker ≡ false
      → Step asked s (record s { owner = faulted })
  finish_quit :
      (s : EventLoopThread)
      → s.owner ≡ waking
      → is_there s.worker ≡ true
      → Step asked s (record s { owner = joining })
  finish_gone :
      (s : EventLoopThread)
      → s.owner ≡ waking
      → is_there s.worker ≡ false
      → Step asked s (record s { owner = faulted })
  join :
      (s : EventLoopThread)
      → s.owner ≡ joining
      → s.worker ≡ finished
      → Step asked s (record s { owner = gone })

pub data Reach (asked : Bool) (s : EventLoopThread) : EventLoopThread → Type 0 where
  here : Reach asked s s
  next : {t u : EventLoopThread} → Reach asked s t → Step asked t u → Reach asked s u
