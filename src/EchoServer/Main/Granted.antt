-- ===== src/EchoServer/Main/Granted.antt =====
-- The calls of `main` on a kernel on which nothing fails.
use moduo.Prelude.{ℕ, ◌<◌, ◌≡◌, refl, true, false, some, [], ◌∷◌, ok, >>=-returns, arith}
use moduo.Os.{
  Kernel, Calls, Reply, returns, ctl_add, epoll_ctl, eventfd, epoll_create, socket_stream,
  setsockopt, so_reuseaddr, so_reuseport,
}
use moduo.Os
use moduo.Socket
use moduo.Channel.{Channel, fresh, added}
use moduo.Channel
use moduo.Channel.Events
use moduo.Poller
use moduo.Poller.Interest.{registered}
use moduo.EventLoop.{EventLoop}
use moduo.EventLoop
use moduo.EventLoop.Lifetime
use moduo.EventLoop.Lifetime.{IsReady, new-IsReady}
use moduo.Acceptor.{Acceptor, set_new_connection_callback}
use moduo.Acceptor

-- A kernel on which nothing that `main` asks for fails. A new socket is no standard stream, and is in no
-- interest list yet.
pub record Grants (k : Kernel) : Type 0 where
  pub has_eventfd : (calls : Calls) → (fd : ℕ) × (k.reply calls eventfd ≡ returns fd)
  pub has_epoll : (calls : Calls) → (fd : ℕ) × (k.reply calls epoll_create ≡ returns fd)
  pub has_socket :
      (calls : Calls)
      → (fd : ℕ) × (k.reply calls socket_stream ≡ returns fd)
        × (2 < fd)
        × (registered k fd calls ≡ false)
  pub binds : (calls : Calls) (fd : ℕ) → k.reply calls (Os.bind fd) ≡ returns 0
  pub listens : (calls : Calls) (fd : ℕ) → k.reply calls (Os.listen fd) ≡ returns 0
  pub adds :
      (calls : Calls) (fd events address : ℕ)
      → k.reply calls (epoll_ctl ctl_add fd events address) ≡ returns 0

-- The acceptor on a new socket, and its loop.
abbrev pub fresh_acceptor : ℕ → ℕ → Acceptor
fresh_acceptor address fd = record {
  accept_socket = fd;
  accept_channel = Channel.set_read_callback true (Channel.new address fd);
  has_new_connection = false;
  listenning = false;
}

abbrev pub bound : {F : Type 0} → ℕ → EventLoop F → EventLoop F
bound fd l = record l {
  calls =
      Os.bind fd
      ∷ setsockopt fd so_reuseport false
      ∷ setsockopt fd so_reuseaddr true
      ∷ socket_stream
      ∷ l.calls;
}

-- The acceptor that listens, and its loop.
abbrev pub listening : ℕ → ℕ → Acceptor
listening address fd = record {
  accept_socket = fd;
  accept_channel = record (Channel.set_read_callback true (Channel.new address fd)) {
    events = 3;
    index = added;
  };
  has_new_connection = true;
  listenning = true;
}

abbrev pub watching : {F : Type 0} → ℕ → ℕ → EventLoop F → EventLoop F
watching address fd l = record l {
  poller = record (l.poller) { channels = Poller.insert fd address l.poller.channels };
  calls = epoll_ctl ctl_add fd 3 address ∷ Os.listen fd ∷ l.calls;
}

module _ {F : Type 0} (k : Kernel) (grants : Grants k) where
  enable_reading_returns :
      (c : Channel) (l : EventLoop F)
      → c.index ≡ fresh
      → c.events ≡ 0
      → Events.enable_reading k c l
        ≡ ok (
          record c { events = 3; index = added },
          record l {
            poller = record (l.poller) {
              channels = Poller.insert c.fd c.address l.poller.channels;
            };
            calls = epoll_ctl ctl_add c.fd 3 c.address ∷ l.calls;
          },
        )
  unfolding Events.enable_reading Events.update_events EventLoop.update_channel
      Poller.update_channel Poller.update_channel_at Poller.register Poller.update
  enable_reading_returns c l unknown quiet = ground (arith, grants.adds l.calls c.fd 3 c.address)

  pub new_loop_returns :
      (address tid : ℕ)
      → (l : EventLoop F) × (EventLoop.Lifetime.new k false false address tid [] ≡ ok l)
  unfolding EventLoop.Lifetime.new EventLoop.Lifetime.create_eventfd
      EventLoop.Lifetime.new_default_poller EventLoop.Lifetime.bare_loop Channel.new
      Events.enable_reading Events.update_events EventLoop.update_channel Poller.update_channel
      Poller.update_channel_at Poller.register Poller.update
  new_loop_returns address tid =
      let (fd, e) = grants.has_eventfd [] in
      let (epollfd, e') = grants.has_epoll (eventfd ∷ []) in
      let p = Poller.new epollfd in
      let calls = epoll_create ∷ eventfd ∷ [] in
      let l = EventLoop.Lifetime.bare_loop address tid fd p calls in
      >>=-returns (EventLoop.Lifetime.create_eventfd k []) _ (fd, eventfd ∷ [])
        (rw (EventLoop.Lifetime.create_eventfd, e) refl)
        (>>=-returns (EventLoop.Lifetime.new_default_poller k false (eventfd ∷ [])) _
          (some p, calls) (rw (EventLoop.Lifetime.new_default_poller, e') refl)
          (>>=-returns (Events.enable_reading k l.wakeup_channel l) _ _
            (enable_reading_returns l.wakeup_channel l refl refl) (_, refl)))

  pub new_acceptor_returns :
      (address fd : ℕ) (l : EventLoop F)
      → k.reply l.calls socket_stream ≡ returns fd
      → 2 < fd
      → Acceptor.new k address false l ≡ ok (fresh_acceptor address fd, bound fd l)
  unfolding Acceptor.new Acceptor.create_nonblocking Socket.bind_address Socket.set_reuse_addr
      Socket.set_reuse_port
  new_acceptor_returns address fd l made big = ground (
    arith,
    grants.binds
        (setsockopt fd so_reuseport false
          ∷ setsockopt fd so_reuseaddr true
          ∷ socket_stream
          ∷ l.calls)
        fd,
  )

  pub listen_returns :
      (address fd : ℕ) (l : EventLoop F)
      → Acceptor.listen k (set_new_connection_callback true (fresh_acceptor address fd)) l
        ≡ ok (listening address fd, watching address fd l)
  unfolding Acceptor.listen Socket.listen Channel.new
  listen_returns address fd l =
      rw (Socket.require_zero, grants.listens l.calls fd)
        (rw
          (enable_reading_returns (fresh_acceptor address fd).accept_channel
            (record l { calls = Os.listen fd ∷ l.calls }) refl refl)
          refl)
