-- ===== src/TcpServer/Closing.antt =====
-- The end of a connection of a server: its name is free again, and it is destructed.
use yatwb.Base.{ℕ, ◌≡◌, refl, true, some, none, List, [], ◌∷◌, ◌++◌, if◌then◌else◌}
use yatwb.Base.Results.{Ensures, Ensures-bind, Ensures-split, ◌>>=◌}
use yatwb.ChannelPort.{ChannelPort}
use yatwb.TcpConnection.{TcpConnection, close_cb, connection_cb, handle_close, destroy_connection}
use yatwb.TcpConnection.Lifecycle.{IsUp, IsDestroyed, close-IsDestroyed}
use yatwb.TcpServer.{
  TcpServer, Connection, same_name, set_name, destroy_connection_of, close_connection,
  run_server_pending, run_server_functor, run_server_functors, remove_connection,
}

module _ {S : Type 0} (port : ChannelPort S) where
  -- `s'` is `s` without the connection `c` of the name, which was destructed last.
  pub record IsReleased (s : TcpServer S) (conn_name : List ℕ) (c : Connection S) (s' : TcpServer S)
      : Type 0 where
    pub names :
        (k : List ℕ) → s'.connections k ≡ (if same_name k conn_name then none else s.connections k)
    pub last : Connection S
    pub released : s'.released ≡ s.released ++ last ∷ []
    pub descriptor : last.sockfd ≡ c.sockfd
    pub ended : IsDestroyed port c.connection (close_cb ∷ connection_cb ∷ []) last.connection
    pub queue_empty : s'.pending ≡ []

  -- In the thread of the loop of a server whose queue is empty, for a connection that is in the map
  -- under its name, is connected or disconnecting and has a registered channel, and of which the
  -- users keep no pointer: `handleClose`, with the server's close callback, and then what it queued
  -- succeed. The name is free and every other name is as before; the connection has called the close
  -- and the connection callback, is disconnected and out of the loop, and it is destructed, once, so
  -- that its descriptor is closed; nothing is left in the queue.
  pub close_connection-IsReleased :
      (s : TcpServer S) (conn_name : List ℕ) (c : Connection S)
      → s.connections conn_name ≡ some c
      → s.pending ≡ []
      → IsUp port c.connection.state
      → port.IsOpen c.connection.channel
      → Ensures
          (do s1 ← close_connection port true conn_name c s; run_server_pending port true s1)
          (IsReleased s conn_name c)
  unfolding close_connection remove_connection run_server_functors run_server_functor
  close_connection-IsReleased s conn_name c at empty up o =
      Ensures-bind IsClosing (IsReleased s conn_name c) (close_connection port true conn_name c s)
        (run_server_pending port true) closing (λ s1 w. rw w.1 (destructed w.0 w.2))
    where
      ends : TcpConnection S → Type 0
      ends = IsDestroyed port c.connection (close_cb ∷ connection_cb ∷ [])

      after : TcpConnection S → TcpServer S
      after c' = record s {
        connections = set_name s.connections conn_name none;
        pending = destroy_connection_of (record c { connection = c' }) ∷ [];
      }

      IsClosing : TcpServer S → Type 0
      IsClosing s1 =
          (c' : TcpConnection S) × (s1 ≡ after c') × Ensures (destroy_connection port true c') ends

      closing : Ensures (close_connection port true conn_name c s) IsClosing
      closing =
          rw (at, empty)
            (Ensures-bind (λ c'. Ensures (destroy_connection port true c') ends) IsClosing
              (handle_close port true c.connection) _
              (Ensures-split ends (handle_close port true c.connection)
                (destroy_connection port true) (close-IsDestroyed port c.connection up o))
              (λ c' d. (c', refl, d)))

      destructed :
          (c' : TcpConnection S)
          → Ensures (destroy_connection port true c') ends
          → Ensures (run_server_pending port true (after c')) (IsReleased s conn_name c)
      destructed c' d =
          Ensures-bind (IsReleased s conn_name c) (IsReleased s conn_name c) _ _
            (Ensures-bind ends (IsReleased s conn_name c) (destroy_connection port true c') _ d
              (λ c'' e. record {
                names = λ k. refl;
                last = record c { connection = c'' };
                released = refl;
                descriptor = refl;
                ended = e;
                queue_empty = refl;
              }))
            (λ s2 r. r)
