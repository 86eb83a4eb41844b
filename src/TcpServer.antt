-- ===== src/TcpServer.antt =====
-- src/include/acceptor.h, src/acceptor.cpp, src/include/tcp_server.h and src/tcp_server.cpp: the
-- listening socket and the connections of a server. A name is the list of its bytes.
-- Each connection has the loop's side of its
-- own channel, which `open_channel loop sockfd` is at first: the `new Channel(loop, sockfd)` of the
-- connection's constructor in the terms of the interface of a channel, about which no law is
-- assumed; `new_channel` of Channel is the one of the poller. The addresses, which are only passed
-- on, the options of the sockets and logging are left out.
pub mod Connections
pub mod Closing
pub mod Accounts
pub mod Census
mod Tests
use yatwb.Base.{
  ℕ, ◌+◌, Bool, true, false, not, ◌&&◌, Option, none, some, List, [], ◌∷◌, ◌++◌, ◌==◌,
  if◌then◌else◌, ltb, ◌^◌,
}
use yatwb.Base.Decimal.{decimal}
use yatwb.Base.Int.{ℤ, pos, ltb_ℤ}
use yatwb.Base.Results.{Result, ok, assert, require, not_in_loop_thread, int_overflow, ◌>>=◌, ◌>>◌}
use yatwb.Buffer.{SysCount, failed, count}
use yatwb.Channel.{enable_reading}
use yatwb.ChannelPort.{ChannelPort}
use yatwb.EventLoopThreadPool.{
  EventLoopThreadPool, new_pool, pool_set_thread_num, pool_start, get_next_loop,
}
use yatwb.TcpConnection.{
  TcpConnection, new_connection, establish_connection, handle_close, destroy_connection,
}

-- Without `loop_`, which is the server's; `accept` and `listen` of the socket are system calls.
pub record Acceptor (S : Type 0) : Type 0 where
  pub channel : S
  pub listenning : Bool
  -- `new_conn_cb_` is set
  pub has_new_conn_cb : Bool
  -- the descriptors that `sockets::close` was called on
  pub closed : List ℕ

-- A `TcpConnectionPtr`, with the loop and the descriptor of the connection.
pub record Connection (S : Type 0) : Type 0 where
  pub io_loop : ℕ
  pub sockfd : ℕ
  pub connection : TcpConnection S

-- What the server puts into its loop's queue.
pub data ServerFunctor (S : Type 0) : Type 0 where
  listen_of : ServerFunctor S
  destroy_connection_of : (conn : Connection S) → ServerFunctor S

pub record TcpServer (S : Type 0) : Type 0 where
  pub loop : ℕ
  pub name : List ℕ
  pub acceptor : Acceptor S
  pub thread_pool : EventLoopThreadPool
  pub started : Bool
  pub next_conn_id : ℕ
  pub connections : List ℕ → Option (Connection S)
  pub has_write_cmpl_cb : Bool
  pub pending : List (ServerFunctor S)
  -- the connections that were destructed, which closed their descriptors; the users keep none
  pub released : List (Connection S)

abbrev pub same_name : List ℕ → List ℕ → Bool
same_name [] [] = true
same_name (x ∷ xs) (y ∷ ys) = (x == y) && same_name xs ys
same_name _ _ = false

-- The key of the map set to a value, or cleared.
abbrev pub set_name {ℓ} : {A : Type ℓ} → (List ℕ → Option A) → List ℕ → Option A → List ℕ → Option A
set_name m k v j = if same_name j k then v else m j

-- `m.erase(k)` returns this.
abbrev pub erased {ℓ} : {A : Type ℓ} → Option A → ℕ
erased none = 0
erased (some a) = 1

module _ {S : Type 0} where
  -- The constructor, and `setWriteCallback` or not.
  unfoldable pub new_server : ℕ → List ℕ → S → Bool → TcpServer S
  new_server loop name channel has_cb = record {
    loop = loop;
    name = name;
    acceptor = record {
      channel = channel;
      listenning = false;
      has_new_conn_cb = true;
      closed = [];
    };
    thread_pool = new_pool loop;
    started = false;
    next_conn_id = 1;
    connections = λ _. none;
    has_write_cmpl_cb = has_cb;
    pending = [];
    released = [];
  }

  unfoldable pub set_thread_num : ℤ → TcpServer S → Result (TcpServer S)
  set_thread_num n s = do
    assert (not (ltb_ℤ n (pos 0)))
    ok (record s { thread_pool = pool_set_thread_num n s.thread_pool })

  unfoldable pub remove_connection :
      Bool → List ℕ → Connection S → TcpServer S → Result (TcpServer S)
  remove_connection in_loop conn_name conn s = do
    require in_loop not_in_loop_thread
    assert (erased (s.connections conn_name) == 1)
    ok (record s {
      connections = set_name s.connections conn_name none;
      pending = s.pending ++ destroy_connection_of conn ∷ [];
    })

module _ {S : Type 0} (port : ChannelPort S) where
  unfoldable pub listen : Bool → Acceptor S → Result (Acceptor S)
  listen in_loop a = do
    require in_loop not_in_loop_thread
    channel ← port.set_interest in_loop enable_reading a.channel
    ok (record a { channel = channel; listenning = true })

  -- The start of the pool's threads, and of listening.
  unfoldable pub start : (ℕ → ℕ) → Bool → TcpServer S → Result (TcpServer S)
  unfolding listen
  start start_loop in_loop s = do
    pool ← (if s.started then ok s.thread_pool else pool_start start_loop in_loop s.thread_pool)
    let s' = record s { started = true; thread_pool = pool }
    let now = (do a ← listen in_loop s'.acceptor; ok (record s' { acceptor = a }))
    if s'.acceptor.listenning
        then ok s'
        else if in_loop
        then now
        else ok (record s' { pending = s'.pending ++ listen_of ∷ [] })

  -- `handleClose` of a connection of the server, with the close callback that `newConnection` set.
  unfoldable pub close_connection :
      Bool → List ℕ → Connection S → TcpServer S → Result (TcpServer S)
  unfolding remove_connection
  close_connection in_loop conn_name conn s = do
    c ← handle_close port in_loop conn.connection
    remove_connection in_loop conn_name (record conn { connection = c }) s

  -- A functor, and then the end of the pointer that it holds.
  unfoldable pub run_server_functor : Bool → ServerFunctor S → TcpServer S → Result (TcpServer S)
  unfolding listen
  run_server_functor in_loop listen_of s = do
    a ← listen in_loop s.acceptor
    ok (record s { acceptor = a })
  run_server_functor in_loop (destroy_connection_of conn) s = do
    c ← destroy_connection port in_loop conn.connection
    ok (record s { released = s.released ++ record conn { connection = c } ∷ [] })

  unfoldable pub run_server_functors :
      Bool → List (ServerFunctor S) → TcpServer S → Result (TcpServer S)
  unfolding run_server_functor
  run_server_functors in_loop [] s = ok s
  run_server_functors in_loop (f ∷ functors) s = do
    s ← run_server_functor in_loop f s
    run_server_functors in_loop functors s

  -- The server's part of `doPendingFunctors` of its loop.
  abbrev pub run_server_pending : Bool → TcpServer S → Result (TcpServer S)
  run_server_pending in_loop s = run_server_functors in_loop s.pending (record s { pending = [] })

-- `snprintf` of `"#%d"` into `buf`, where all of it has room.
abbrev pub format_id : ℕ → List ℕ
format_id id = 35 ∷ decimal id

-- `++` of an `int` that is not negative.
abbrev pub incremented : ℕ → Result ℕ
incremented n = do require (ltb (n + 1) (2 ^ 31)) int_overflow; ok (n + 1)

-- `name_ + buf`
abbrev pub conn_name : {S : Type 0} → TcpServer S → ℕ → List ℕ
conn_name s id = s.name ++ format_id id

module _ {S : Type 0} (port : ChannelPort S) (open_channel : ℕ → ℕ → S) where
  -- The overflow of `next_conn_id_` is undefined behaviour, which comes here after what else the call
  -- does. The thread that runs it is the I/O thread of the connection only if their loops are the same.
  unfoldable pub server_new_connection : Bool → ℕ → TcpServer S → Result (TcpServer S)
  server_new_connection in_loop sockfd s = do
    require in_loop not_in_loop_thread
    (io_loop, pool) ← get_next_loop in_loop s.thread_pool
    let conn = new_connection (open_channel io_loop sockfd) s.has_write_cmpl_cb
    conn ← establish_connection port (in_loop && (io_loop == s.loop)) conn
    next_conn_id ← incremented s.next_conn_id
    ok (record s {
      thread_pool = pool;
      next_conn_id = next_conn_id;
      connections =
          set_name s.connections (conn_name s s.next_conn_id)
            (some (record { io_loop = io_loop; sockfd = sockfd; connection = conn }));
    })

  -- `Acceptor::handleRead`, with what `accept` returned.
  unfoldable pub acceptor_handle_read : Bool → SysCount → TcpServer S → Result (TcpServer S)
  unfolding server_new_connection
  acceptor_handle_read in_loop outcome s = do
    require in_loop not_in_loop_thread
    elim outcome [
      | failed errno ↦ ok s
      | count connfd ↦
          if s.acceptor.has_new_conn_cb
          then server_new_connection in_loop connfd s
          else ok (record s {
            acceptor = record s.acceptor { closed = s.acceptor.closed ++ connfd ∷ [] };
          })
    ]
