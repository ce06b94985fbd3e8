-- ===== src/Examples/Kernels.antt =====
-- Kernels that keep to the documentation of epoll. That of `kernel` takes at most `cap` bytes at a time.
use Prim.Native.Nat.{min}
use moduo.Prelude.{
  ℕ, ◌≡◌, refl, Bool, true, false, List, [], ◌∷◌, arith, length, length-take, take, ◌==◌,
  if◌then◌else◌,
}
use moduo.Os.{
  Kernel, Calls, Syscall, ctl_add, ctl_mod, ctl_del, epoll_ctl, write, readv, read, shutdown_wr,
  get_so_error, close, eventfd, epoll_create, socket_stream, setsockopt, bind, listen, accept,
  Reply, returns, fails, delivers, enoent, sum, ReadvFits, WriteFits,
}
use moduo.InetAddress.{InetAddress}
use moduo.Poller.Interest.{EpollLaws, registered}

-- Who connects: 1, from the port 5.
abbrev pub peer : InetAddress
peer = record { sin_family = 2; sin_port = 5; sin_addr = 1 }

abbrev pub in_list : ℕ → Calls → Bool
in_list fd [] = false
in_list fd (epoll_ctl ctl_add f events a ∷ calls) = if f == fd then true else in_list fd calls
in_list fd (epoll_ctl ctl_mod f events a ∷ calls) = in_list fd calls
in_list fd (epoll_ctl ctl_del f events a ∷ calls) = if f == fd then false else in_list fd calls
in_list fd (close f ∷ calls) = if f == fd then false else in_list fd calls
in_list fd (write f bytes ∷ calls) = in_list fd calls
in_list fd (readv f lengths ∷ calls) = in_list fd calls
in_list fd (read f n ∷ calls) = in_list fd calls
in_list fd (shutdown_wr f ∷ calls) = in_list fd calls
in_list fd (get_so_error f ∷ calls) = in_list fd calls
in_list fd (eventfd ∷ calls) = in_list fd calls
in_list fd (setsockopt f o on ∷ calls) = in_list fd calls
in_list fd (socket_stream ∷ calls) = in_list fd calls
in_list fd (bind f ∷ calls) = in_list fd calls
in_list fd (listen f ∷ calls) = in_list fd calls
in_list fd (accept f ∷ calls) = in_list fd calls
in_list fd (epoll_create ∷ calls) = in_list fd calls

abbrev pub answer : (List ℕ → Reply) → Calls → Syscall → Reply
answer writes calls (epoll_ctl ctl_add fd events a) = returns 0
answer writes calls (epoll_ctl ctl_mod fd events a) =
    if in_list fd calls then returns 0 else fails enoent
answer writes calls (epoll_ctl ctl_del fd events a) =
    if in_list fd calls then returns 0 else fails enoent
answer writes calls (write fd bytes) = writes bytes
answer writes calls eventfd = returns 4
answer writes calls socket_stream = returns 6
answer writes calls (accept fd) = returns 9
answer writes calls epoll_create = returns 3
answer writes calls _ = returns 0

abbrev pub total : Syscall → ℕ
total (readv fd lengths) = sum lengths
total _ = 0

-- Reads deliver `received`, cut to the buffers given.
abbrev pub kernel_of : (List ℕ → Reply) → List ℕ → Kernel
kernel_of writes received = record {
  reply = answer writes;
  input = λ calls call. delivers (take (total call) received);
  peer = λ calls call. peer;
}

abbrev pub kernel : ℕ → List ℕ → Kernel
kernel cap received = kernel_of (λ bytes. returns (min cap (length bytes))) received

registered-in_list :
    (writes : List ℕ → Reply) (received : List ℕ) (fd : ℕ) (calls : Calls)
    → registered (kernel_of writes received) fd calls ≡ in_list fd calls
unfolding registered
registered-in_list writes received fd [] = refl
registered-in_list writes received fd (epoll_ctl ctl_add f events a ∷ calls) =
    ground (arith, registered-in_list writes received fd calls)
registered-in_list writes received fd (epoll_ctl ctl_mod f events a ∷ calls) =
    ground (
      arith,
      registered-in_list writes received fd calls,
      registered-in_list writes received f calls,
    )
registered-in_list writes received fd (epoll_ctl ctl_del f events a ∷ calls) =
    ground (
      arith,
      registered-in_list writes received fd calls,
      registered-in_list writes received f calls,
    )
registered-in_list writes received fd (close f ∷ calls) =
    ground (arith, registered-in_list writes received fd calls)
registered-in_list writes received fd (write f bytes ∷ calls) =
    registered-in_list writes received fd calls
registered-in_list writes received fd (readv f lengths ∷ calls) =
    registered-in_list writes received fd calls
registered-in_list writes received fd (read f n ∷ calls) =
    registered-in_list writes received fd calls
registered-in_list writes received fd (shutdown_wr f ∷ calls) =
    registered-in_list writes received fd calls
registered-in_list writes received fd (get_so_error f ∷ calls) =
    registered-in_list writes received fd calls
registered-in_list writes received fd (socket_stream ∷ calls) =
    registered-in_list writes received fd calls
registered-in_list writes received fd (bind f ∷ calls) = registered-in_list writes received fd calls
registered-in_list writes received fd (listen f ∷ calls) =
    registered-in_list writes received fd calls
registered-in_list writes received fd (accept f ∷ calls) =
    registered-in_list writes received fd calls
registered-in_list writes received fd (setsockopt f o on ∷ calls) =
    registered-in_list writes received fd calls
registered-in_list writes received fd (eventfd ∷ calls) =
    registered-in_list writes received fd calls
registered-in_list writes received fd (epoll_create ∷ calls) =
    registered-in_list writes received fd calls

pub kernel_of-EpollLaws :
    (writes : List ℕ → Reply) (received : List ℕ) → EpollLaws (kernel_of writes received)
kernel_of-EpollLaws writes received = record {
  mod_absent = λ calls fd events a h. ground (arith, registered-in_list writes received fd calls);
  mod_present = λ calls fd events a h. ground (arith, registered-in_list writes received fd calls);
  del_present = λ calls fd events a h. ground (arith, registered-in_list writes received fd calls);
}

pub kernel-EpollLaws : (cap : ℕ) (received : List ℕ) → EpollLaws (kernel cap received)
kernel-EpollLaws cap received = kernel_of-EpollLaws _ received

pub kernel-ReadvFits : (cap : ℕ) (received : List ℕ) → ReadvFits (kernel cap received)
kernel-ReadvFits cap received calls fd lengths bytes e =
    ground (arith, length-take {0} (sum lengths) received)

pub kernel-WriteFits : (cap : ℕ) (received : List ℕ) → WriteFits (kernel cap received)
kernel-WriteFits cap received calls fd bytes n e = ground arith
