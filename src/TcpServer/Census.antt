-- ===== src/TcpServer/Census.antt =====
-- Every connection that a server accepted is in its map, or queued to be destroyed, or destructed.
use yatwb.Base.{ℕ, suc, ◌+◌, ◌≡◌, ◌<◌, true, some, List, length}
use yatwb.Base.Results.{ok}
use yatwb.ChannelPort.{ChannelPort}
use yatwb.EventLoopThreadPool.{EventLoopThreadPool}
use yatwb.TcpServer.{
  TcpServer, Connection, conn_name, server_new_connection, close_connection, run_server_pending,
}
use yatwb.TcpServer.Accounts.{is_some, count_below, destroys}

module _ {S : Type 0} where
  -- How many of the names that were given are in the map.
  abbrev pub open_count : TcpServer S → ℕ
  open_count s = count_below (λ id. is_some (s.connections (conn_name s id))) s.next_conn_id

  pub record IsAccounted (n : ℕ) (s : TcpServer S) : Type 0 where
    pub known :
        (k : List ℕ) (c : Connection S)
        → s.connections k ≡ some c
        → (id : ℕ) × (id < s.next_conn_id) × (k ≡ conn_name s id)
    pub total : open_count s + destroys s.pending + length s.released ≡ n

module _ {S : Type 0} (port : ChannelPort S) (open_channel : ℕ → ℕ → S) where
  -- The servers that steps in the thread of the loop lead to, and how many connections they
  -- accepted: a connection is accepted, one that is in the map closes, after whatever it did since,
  -- and what is queued runs.
  pub data Reaches (s0 : TcpServer S) : ℕ → TcpServer S → Type 0 where
    starts : Reaches s0 0 s0
    accepts :
        (n : ℕ) (s s' : TcpServer S) (sockfd : ℕ)
        → Reaches s0 n s
        → server_new_connection port open_channel true sockfd s ≡ ok s'
        → Reaches s0 (suc n) s'
    closes :
        (n : ℕ) (s s' : TcpServer S) (k : List ℕ) (c entry : Connection S)
        → Reaches s0 n s
        → s.connections k ≡ some entry
        → c.sockfd ≡ entry.sockfd
        → close_connection port true k c s ≡ ok s'
        → Reaches s0 n s'
    runs :
        (n : ℕ) (s s' : TcpServer S)
        → Reaches s0 n s
        → run_server_pending port true s ≡ ok s'
        → Reaches s0 n s'
