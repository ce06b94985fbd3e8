-- ===== src/Channel.antt =====
-- src/Channel.h and src/Channel.cc: a descriptor, the events asked for, the events that came, and the
-- callbacks that they are handed to.
pub mod Dispatch
pub mod Events
pub mod Updates
use moduo.Prelude.{
  ℕ, ◌-◌, ◌^◌, Bool, true, false, not, ◌&&◌, List, Outcome, ok, ◌>>=◌, bit_and, bit_or, ◌==◌,
  if◌then◌else◌,
}

-- The bits of <sys/epoll.h>.
abbrev pub epoll_in : ℕ
epoll_in = 0x001

abbrev pub epoll_pri : ℕ
epoll_pri = 0x002

abbrev pub epoll_out : ℕ
epoll_out = 0x004

abbrev pub epoll_err : ℕ
epoll_err = 0x008

abbrev pub epoll_hup : ℕ
epoll_hup = 0x010

abbrev pub none_event : ℕ
none_event = 0

abbrev pub read_event : ℕ
read_event = bit_or epoll_in epoll_pri

abbrev pub write_event : ℕ
write_event = epoll_out

-- `~x` of a 32-bit int, as a bit pattern.
abbrev pub complement : ℕ → ℕ
complement x = 2 ^ 32 - 1 - x

-- Whether an int has one of the bits of a mask.
abbrev pub has_bits : ℕ → ℕ → Bool
has_bits x mask = not (bit_and x mask == 0)

-- `kNew`, `kAdded` and `kDeleted` of src/EPollPoller.cc, the only values that `index_` takes.
pub data Index : Type 0 where
  fresh added deleted : Index

-- `address` stands for the pointer to the channel; `has_…` say which callbacks are set.
pub record Channel : Type 0 where
  pub address : ℕ
  pub fd : ℕ
  pub events : ℕ
  pub revents : ℕ
  pub index : Index
  pub tied : Bool
  pub has_read : Bool
  pub has_write : Bool
  pub has_close : Bool
  pub has_error : Bool

unfoldable pub new : ℕ → ℕ → Channel
new address fd = record {
  address = address;
  fd = fd;
  events = 0;
  revents = 0;
  index = fresh;
  tied = false;
  has_read = false;
  has_write = false;
  has_close = false;
  has_error = false;
}

-- The setters of callbacks: `is_set` is whether the `std::function` given holds one.
abbrev pub set_read_callback : Bool → Channel → Channel
set_read_callback is_set c = record c { has_read = is_set }

abbrev pub set_write_callback : Bool → Channel → Channel
set_write_callback is_set c = record c { has_write = is_set }

abbrev pub set_close_callback : Bool → Channel → Channel
set_close_callback is_set c = record c { has_close = is_set }

abbrev pub set_error_callback : Bool → Channel → Channel
set_error_callback is_set c = record c { has_error = is_set }

unfoldable pub tie : Channel → Channel
tie c = record c { tied = true }

abbrev pub is_none_event : Channel → Bool
is_none_event c = c.events == none_event

abbrev pub is_writing : Channel → Bool
is_writing c = has_bits c.events write_event

abbrev pub is_reading : Channel → Bool
is_reading c = has_bits c.events read_event

pub data Callback : Type 0 where
  close_callback error_callback read_callback write_callback : Callback

abbrev pub when {ℓ} : {S : Type ℓ} → Bool → (S → Outcome S) → S → Outcome S
when test f s = if test then f s else ok s

-- `call` runs a callback on the state of the program; callbacks change neither `revents_` nor which
-- callbacks are set.
unfoldable pub handle_event_with_guard {ℓ} :
    {S : Type ℓ} → (Callback → S → Outcome S) → Channel → S → Outcome S
handle_event_with_guard call c s = do
  s₁ ←
      when (has_bits c.revents epoll_hup && not (has_bits c.revents epoll_in) && c.has_close)
        (call close_callback) s
  s₂ ← when (has_bits c.revents epoll_err && c.has_error) (call error_callback) s₁
  s₃ ← when (has_bits c.revents (bit_or epoll_in epoll_pri) && c.has_read) (call read_callback) s₂
  when (has_bits c.revents epoll_out && c.has_write) (call write_callback) s₃

-- `alive` is whether `tie_.lock()` finds the owner.
unfoldable pub handle_event {ℓ} :
    {S : Type ℓ} → (Callback → S → Outcome S) → Bool → Channel → S → Outcome S
handle_event call alive c s =
    let handled = handle_event_with_guard call c s in
    if c.tied then (if alive then handled else ok s) else handled
