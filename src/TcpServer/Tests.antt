-- ===== src/TcpServer/Tests.antt =====
-- Runs of the server, and its theorems at concrete inputs; channels are only their interest sets.
use yatwb.Base.{drop, inl, ℕ, zero, suc, ◌≡◌, refl, ap, [], ◌∷◌, none, some, arith, true, false}
use yatwb.Base.Decimal.{digits_onto}
use yatwb.Base.Int.{negsuc}
use yatwb.Base.Results.{Result, ok, fault, assert_failed, not_in_loop_thread, Ensures, ◌>>=◌}
use yatwb.Buffer.{failed}
use yatwb.Channel.{PollFlags, none_event, read_event}
use yatwb.ChannelPort.Flags.{flags_port}
use yatwb.EventLoopThreadPool.{new_pool, pool_start, start_threads}
use yatwb.EventLoopThreadPool.RoundRobin.{started_pool}
use yatwb.TcpConnection.{new_connection, connected, connection_cb}
use yatwb.TcpServer.{
  format_id, close_connection, run_server_pending, TcpServer, Connection, new_server,
  set_thread_num, start, listen, set_name, server_new_connection, acceptor_handle_read,
}
use yatwb.TcpServer.Closing.{IsReleased, close_connection-IsReleased}
use yatwb.TcpServer.Connections.{
  IsFresh, IsAdded, format_id-injective, server_new_connection-other_loop, set_name_ne,
}

abbrev open_channel : ℕ → ℕ → PollFlags
open_channel loop sockfd = none_event

-- One thread, the loop's own; and a server whose pool has the loops 7 and 8.
abbrev alone : TcpServer PollFlags
alone = new_server 3 (65 ∷ []) none_event false

abbrev pooled : TcpServer PollFlags
pooled = record alone { thread_pool = started_pool (λ i. suc i) 3 2; started = true }

start_listens : (do s ← start flags_port (λ i. i) true alone; ok s.acceptor.channel) ≡ ok read_event
unfolding start listen new_server new_pool pool_start start_threads
start_listens = refl

negative_threads : set_thread_num (negsuc 1) alone ≡ fault assert_failed
unfolding set_thread_num new_server
negative_threads = refl

accept_failed : acceptor_handle_read flags_port open_channel true (failed 11) alone ≡ ok alone
unfolding acceptor_handle_read
accept_failed = refl

alone-IsFresh : IsFresh alone
unfolding new_server
alone-IsFresh id le = refl

server_new_connection-other_loop_example :
    server_new_connection flags_port open_channel true 9 pooled ≡ fault not_in_loop_thread
unfolding new_server
server_new_connection-other_loop_example =
    server_new_connection-other_loop flags_port open_channel pooled 9 1 refl (omega arith)

abbrev entry : Connection PollFlags
entry = record { io_loop = 3; sockfd = 9; connection = new_connection none_event false }

abbrev with_entry : TcpServer PollFlags
with_entry = record alone {
  next_conn_id = 2;
  connections = set_name alone.connections (65 ∷ format_id 1) (some entry);
}

with_entry-fresh : IsFresh with_entry
unfolding new_server
with_entry-fresh zero le = absurd (omega arith)
with_entry-fresh (suc zero) le = absurd (omega arith)
with_entry-fresh (suc (suc id)) le =
    set_name_ne (λ _. none) (65 ∷ format_id 1) (65 ∷ format_id (suc (suc id))) (some entry)
      (λ e. absurd (omega (arith, format_id-injective (suc (suc id)) 1 (ap (drop 1) e))))

entry-IsAdded : IsAdded alone entry with_entry
unfolding new_server digits_onto
entry-IsAdded = record {
  fresh = with_entry-fresh;
  entry = refl;
  others = λ k h. set_name_ne (λ _. none) (65 ∷ format_id 1) k (some entry) h;
}

-- The connection after it was established, and the server that has it.
abbrev conversation : Connection PollFlags
conversation = record entry {
  connection = record (new_connection read_event false) {
    state = connected;
    calls = connection_cb ∷ [];
  };
}

abbrev with_conversation : TcpServer PollFlags
with_conversation = record with_entry {
  connections = set_name alone.connections (65 ∷ format_id 1) (some conversation);
}

close_connection-IsReleased_example :
    Ensures
      (do
        s1 ← close_connection flags_port true (65 ∷ format_id 1) conversation with_conversation
        run_server_pending flags_port true s1)
      (IsReleased flags_port with_conversation (65 ∷ format_id 1) conversation)
unfolding new_server digits_onto
close_connection-IsReleased_example =
    close_connection-IsReleased flags_port with_conversation (65 ∷ format_id 1) conversation refl
      refl (inl refl) tt

abbrev value_or : TcpServer PollFlags → Result (TcpServer PollFlags) → TcpServer PollFlags
value_or d (ok s) = s
value_or d (fault e) = d

-- A connection comes, closes, and is destroyed.
abbrev with_one : TcpServer PollFlags
with_one = value_or alone (server_new_connection flags_port open_channel true 9 alone)

abbrev closing : TcpServer PollFlags
closing = value_or alone (close_connection flags_port true (65 ∷ format_id 1) conversation with_one)

abbrev closed : TcpServer PollFlags
closed = value_or alone (run_server_pending flags_port true closing)
