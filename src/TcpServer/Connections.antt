-- ===== src/TcpServer/Connections.antt =====
-- The map of connections: names are never used again, a new connection is established under its own
-- name, and its removal takes exactly it away.
use yatwb.Base.{
  ℕ, ◌+◌, ◌≤◌, ◌<◌, ◌^◌, ◌≡◌, ◌≢◌, refl, sym, ap, ap₂, ◌∙◌, true, false, Bool-cases, inl, inr,
  Option, none, some, List, [], ◌∷◌, ◌++◌, get_elem?, ◌==◌, drop, arith, ltb,
}
use mathlib.Core.Bool.{true≢false}
use yatwb.Base.Decimal.{
  decimal, decimal-injective, decimal-AreDigits, digits-HasNoNul, length-decimal,
}
use yatwb.Base.Text.{c_string, snprintf, c_string-snprintf}
use yatwb.Base.Results.{ok, fault, not_in_loop_thread, Ensures, Ensures-bind}
use yatwb.Channel.{is_writing}
use yatwb.ChannelPort.{ChannelPort}
use yatwb.EventLoopThreadPool.{EventLoopThreadPool, get_next_loop, is_empty}
use yatwb.TcpConnection.{TcpConnection, new_connection, establish_connection}
use yatwb.TcpConnection.Lifecycle.{IsEstablished, establish_connection-IsEstablished}
use yatwb.TcpServer.{
  format_id, TcpServer, Connection, same_name, set_name, conn_name, server_new_connection,
  remove_connection, destroy_connection_of,
}

same_name_self : (xs : List ℕ) → same_name xs xs ≡ true
same_name_self [] = refl
same_name_self (x ∷ xs) = ground (arith, same_name_self xs)

pub same_name-eq : (xs ys : List ℕ) → same_name xs ys ≡ true → xs ≡ ys
same_name-eq [] [] h = refl
same_name-eq [] (y ∷ ys) h = ground arith
same_name-eq (x ∷ xs) [] h = ground arith
same_name-eq (x ∷ xs) (y ∷ ys) h =
    let both : (x ≡ y) × (same_name xs ys ≡ true) = ground arith in
    ap₂ ◌∷◌ both.0 (same_name-eq xs ys both.1)

pub append-cancel : (xs ys zs : List ℕ) → xs ++ ys ≡ xs ++ zs → ys ≡ zs
append-cancel [] ys zs e = e
append-cancel (x ∷ xs) ys zs e = append-cancel xs ys zs (ap (drop 1) e)

pub set_name_self :
    {A : Type 0} (m : List ℕ → Option A) (k : List ℕ) (v : Option A) → set_name m k v k ≡ v
set_name_self m k v = rw (same_name_self k) refl

pub set_name_ne :
    {A : Type 0} (m : List ℕ → Option A) (k j : List ℕ) (v : Option A)
    → j ≢ k
    → set_name m k v j ≡ m j
set_name_ne m k j v h = elim (Bool-cases (same_name j k)) [
  | inl same ↦ absurd (h (same_name-eq j k same))
  | inr differs ↦ rw differs refl
]

set_name-none :
    {A : Type 0} (m : List ℕ → Option A) (k j : List ℕ) → m j ≡ none → set_name m k none j ≡ none
set_name-none m k j h = elim (Bool-cases (same_name j k)) [
  | inl same ↦ rw same refl
  | inr differs ↦ rw differs h
]

pub format_id-injective : (i j : ℕ) → format_id i ≡ format_id j → i ≡ j
format_id-injective i j e = decimal-injective i j (ap (drop 1) e)

-- An `int` that is not negative has room in an array of 32 bytes.
format_id_fits : (id : ℕ) → id < 2 ^ 31 → c_string (snprintf 32 (format_id id)) ≡ format_id id
format_id_fits id h =
    c_string-snprintf 32 (format_id id) (omega (arith, length-decimal 9 id (omega (arith, h))))
      (omega arith, digits-HasNoNul (decimal id) (decimal-AreDigits id))

is_empty_of_get : (xs : List ℕ) (i x : ℕ) → get_elem? xs i ≡ some x → is_empty xs ≡ false
is_empty_of_get [] i x e = ground arith
is_empty_of_get (y ∷ xs) i x e = refl

module _ {S : Type 0} (port : ChannelPort S) (open_channel : ℕ → ℕ → S) where
  -- In the thread of the server's loop, where the loop that the pool hands out next is another one:
  -- `newConnection` stops because the connection is not in its loop's thread.
  pub server_new_connection-other_loop :
      (s : TcpServer S) (sockfd io_loop : ℕ)
      → get_elem? s.thread_pool.loops s.thread_pool.next ≡ some io_loop
      → io_loop ≢ s.loop
      → server_new_connection port open_channel true sockfd s ≡ fault not_in_loop_thread
  unfolding server_new_connection get_next_loop establish_connection
  server_new_connection-other_loop s sockfd io_loop at other =
      let test : (io_loop == s.loop) ≡ false = ground arith in
      rw (is_empty_of_get s.thread_pool.loops s.thread_pool.next io_loop at, at, test) refl

module _ {S : Type 0} where
  -- No connection has a name that is still to be given.
  abbrev pub IsFresh : TcpServer S → Type 0
  IsFresh s = (id : ℕ) → s.next_conn_id ≤ id → s.connections (conn_name s id) ≡ none

  -- `s'` is `s` with the connection `c` under the next name, and every other name as before.
  pub record IsAdded (s : TcpServer S) (c : Connection S) (s' : TcpServer S) : Type 0 where
    pub fresh : IsFresh s'
    pub entry : s'.connections (conn_name s s.next_conn_id) ≡ some c
    pub others : (k : List ℕ) → k ≢ conn_name s s.next_conn_id → s'.connections k ≡ s.connections k

  -- Where a connection was added under the next name, free until then, `removeConnection` in the
  -- thread of the server's loop succeeds: every name is as before the connection came, the names to
  -- come are free, and the end of the connection is the last of what is queued.
  pub remove_connection-undoes :
      (s s' : TcpServer S) (c : Connection S)
      → IsFresh s
      → IsAdded s c s'
      → Ensures (remove_connection true (conn_name s s.next_conn_id) c s') (λ s''.
        ((k : List ℕ) → s''.connections k ≡ s.connections k)
        × IsFresh s''
        × (s''.pending ≡ s'.pending ++ destroy_connection_of c ∷ []))
  unfolding remove_connection
  remove_connection-undoes s s' c v w =
      rw w.entry
        (back, λ id le. set_name-none s'.connections name (conn_name s' id) (w.fresh id le), refl)
    where
      name : List ℕ
      name = conn_name s s.next_conn_id

      back : (k : List ℕ) → set_name s'.connections name none k ≡ s.connections k
      back k = elim (Bool-cases (same_name k name)) [
        | inl same ↦
            rw (same_name-eq k name same, v s.next_conn_id (omega arith))
              (set_name_self s'.connections name none)
        | inr differs ↦
            let other : k ≢ name =
              λ e. true≢false (sym (ap (same_name k) (sym e) ∙ same_name_self k) ∙ differs) in
            set_name_ne s'.connections name k none other ∙ w.others k other
      ]

module _ {S : Type 0} (port : ChannelPort S) (open_channel : ℕ → ℕ → S) where
  abbrev added : TcpServer S → Connection S → TcpServer S
  added s c = record s {
    next_conn_id = s.next_conn_id + 1;
    connections = set_name s.connections (conn_name s s.next_conn_id) (some c);
  }

  added-IsAdded :
      (s : TcpServer S) (c : Connection S)
      → IsFresh s
      → (pool : EventLoopThreadPool) → IsAdded s c (record (added s c) { thread_pool = pool })
  added-IsAdded s c v pool = record {
    fresh = λ id le.
        set_name_ne s.connections (conn_name s s.next_conn_id) (conn_name s id) (some c) (λ e.
          let same =
            format_id-injective id s.next_conn_id
              (append-cancel s.name (format_id id) (format_id s.next_conn_id) e) in
          absurd (omega arith))
        ∙ v id (omega arith);
    entry = set_name_self s.connections (conn_name s s.next_conn_id) (some c);
    others = λ k h. set_name_ne s.connections (conn_name s s.next_conn_id) k (some c) h;
  }

  -- In the thread of the loop of a server whose names to come
  -- are free and whose pool hands out the server's own loop, and for a channel that may be watched
  -- and does not wait for writing: `newConnection` succeeds, puts an established connection of the
  -- server's loop under the next name and leaves every other name alone; and the names to come are
  -- free again.
  pub server_new_connection-IsAdded :
      (s : TcpServer S) (sockfd : ℕ) (pool : EventLoopThreadPool)
      → IsFresh s
      → get_next_loop true s.thread_pool ≡ ok (s.loop, pool)
      → s.next_conn_id + 1 < 2 ^ 31
      → port.CanSet (open_channel s.loop sockfd)
      → is_writing (port.events (open_channel s.loop sockfd)) ≡ false
      → Ensures (server_new_connection port open_channel true sockfd s) (λ s'.
        (c : Connection S) × IsAdded s c s'
        × (c.io_loop ≡ s.loop)
        × (c.sockfd ≡ sockfd)
        × IsEstablished port
            (new_connection (open_channel s.loop sockfd) s.has_write_cmpl_cb)
            c.connection)
  unfolding server_new_connection new_connection
  server_new_connection-IsAdded s sockfd pool v here low can idle =
      let test : (s.loop == s.loop) ≡ true = ground arith in
      let counts : ltb (s.next_conn_id + 1) (2 ^ 31) ≡ true = ground (arith, low) in
      rw (here, test)
        (Ensures-bind (IsEstablished port conn) _ (establish_connection port true conn) _
          (establish_connection-IsEstablished port conn refl can (omega arith) refl idle)
          (λ conn' e. rw counts (entry conn', added-IsAdded s (entry conn') v pool, refl, refl, e)))
    where
      conn : TcpConnection S
      conn = new_connection (open_channel s.loop sockfd) s.has_write_cmpl_cb

      entry : TcpConnection S → Connection S
      entry conn' = record { io_loop = s.loop; sockfd = sockfd; connection = conn' }
