-- ===== src/TcpServer/Accounts.antt =====
-- What the steps of a server that succeed do to its map, its queue and what it destructed.
use yatwb.Base.{
  ℕ, zero, suc, ◌+◌, ◌≡◌, ◌≢◌, ◌<◌, refl, sym, ap, ◌∙◌, inl, inr, Bool, true, false, ◌&&◌,
  Bool-cases, Option, none, some, List, [], ◌∷◌, ◌++◌, length, length-append, ◌==◌, if◌then◌else◌,
  arith, ltb, ◌^◌,
}
use mathlib.Core.Path.{subst}
use yatwb.Base.Results.{Result, ok, fault, require, int_overflow, ◌>>=◌, ◌>>◌}
use yatwb.ChannelPort.{ChannelPort}
use yatwb.EventLoopThreadPool.{EventLoopThreadPool, get_next_loop}
use yatwb.TcpConnection.{handle_close, destroy_connection, establish_connection, new_connection}
use yatwb.TcpServer.{
  TcpServer, Connection, ServerFunctor, listen_of, destroy_connection_of, set_name, conn_name,
  incremented, server_new_connection, close_connection, remove_connection, run_server_functor,
  run_server_functors, listen,
}

abbrev pub is_some : {A : Type 0} → Option A → Bool
is_some none = false
is_some (some a) = true

-- How many numbers below `n` pass.
abbrev pub count_below : (ℕ → Bool) → ℕ → ℕ
count_below p zero = 0
count_below p (suc n) = (if p n then 1 else 0) + count_below p n

-- How many connections wait to be destroyed.
abbrev pub destroys : {S : Type 0} → List (ServerFunctor S) → ℕ
destroys [] = 0
destroys (listen_of ∷ fs) = destroys fs
destroys (destroy_connection_of conn ∷ fs) = suc (destroys fs)

pub count_below-cong :
    (p q : ℕ → Bool) (n : ℕ) → ((i : ℕ) → i < n → q i ≡ p i) → count_below q n ≡ count_below p n
count_below-cong p q zero h = refl
count_below-cong p q (suc n) h =
    ap (λ b. (if b then 1 else 0) + count_below q n) (h n (omega arith))
    ∙ ap (λ m. (if p n then 1 else 0) + m) (count_below-cong p q n (λ i lt. h i (omega arith)))

pub count_below_one :
    (p q : ℕ → Bool) (i n : ℕ)
    → i < n
    → p i ≡ false
    → q i ≡ true
    → ((j : ℕ) → j ≢ i → q j ≡ p j)
    → count_below q n ≡ suc (count_below p n)
count_below_one p q i zero lt a b same = absurd (omega arith)
count_below_one p q i (suc n) lt a b same = elim (Bool-cases (i == n)) [
  | inl is ↦
      let e : i ≡ n = ground arith in
      let rest = count_below-cong p q n (λ j less. same j (λ h. absurd (omega arith))) in
      rw (ap p (sym e) ∙ a, ap q (sym e) ∙ b) (omega (arith, rest))
  | inr differs ↦
      let rest = count_below_one p q i n (ground arith) a b same in
      rw (same n (λ h. ground arith)) (omega (arith, rest))
]

bind-ok :
    {A B : Type 0} (m : Result A) (f : A → Result B) (b : B)
    → (m >>= f) ≡ ok b
    → (a : A) × (m ≡ ok a) × (f a ≡ ok b)
bind-ok (ok a) f b e = (a, refl, e)
bind-ok (fault x) f b e = absurd (cc)

pub destroys-append :
    {S : Type 0} (fs gs : List (ServerFunctor S)) → destroys (fs ++ gs) ≡ destroys fs + destroys gs
destroys-append [] gs = omega arith
destroys-append (listen_of ∷ fs) gs = destroys-append fs gs
destroys-append (destroy_connection_of conn ∷ fs) gs = omega (arith, destroys-append fs gs)

ok_value : {A : Type 0} → A → Result A → A
ok_value d (ok a) = a
ok_value d (fault x) = d

ok-injective : {A : Type 0} (a b : A) → ok a ≡ ok b → a ≡ b
unfolding ok_value
ok-injective a b e = ap (ok_value a) e

incremented_lem :
    {B : Type 0} (n : ℕ) (f : ℕ → Result B) (b : B)
    → (incremented n >>= f) ≡ ok b
    → f (n + 1) ≡ ok b
incremented_lem n f b e = elim (Bool-cases (ltb (n + 1) (2 ^ 31))) [
  | inl low ↦ sym (ap (λ t. (require t int_overflow >> ok (n + 1)) >>= f) low) ∙ e
  | inr high ↦ absurd (cc (sym (ap (λ t. (require t int_overflow >> ok (n + 1)) >>= f) high) ∙ e))
]

module _ {S : Type 0} (port : ChannelPort S) (open_channel : ℕ → ℕ → S) where
  -- `newConnection` that succeeds adds one entry, under the next name.
  pub accepted_lem :
      (s s' : TcpServer S) (sockfd : ℕ)
      → server_new_connection port open_channel true sockfd s ≡ ok s'
      → (c : Connection S) × (pool : EventLoopThreadPool) × (s' ≡ record s {
        thread_pool = pool;
        next_conn_id = s.next_conn_id + 1;
        connections = set_name s.connections (conn_name s s.next_conn_id) (some c);
      })
  unfolding server_new_connection
  accepted_lem s s' sockfd e =
      let (next, _, e1) = bind-ok (get_next_loop true s.thread_pool) _ s' e in
      let (conn, _, e2) =
        bind-ok
          (establish_connection port (true && (next.0 == s.loop))
            (new_connection (open_channel next.0 sockfd) s.has_write_cmpl_cb))
          _ s' e1 in
      let e3 = incremented_lem s.next_conn_id _ s' e2 in
      (
        record { io_loop = next.0; sockfd = sockfd; connection = conn },
        next.1,
        sym (ok-injective _ _ e3),
      )

  removed_lem :
      (s : TcpServer S) (k : List ℕ) (c entry : Connection S)
      → s.connections k ≡ some entry
      → remove_connection true k c s
        ≡ ok (record s {
          connections = set_name s.connections k none;
          pending = s.pending ++ destroy_connection_of c ∷ [];
        })
  unfolding remove_connection
  removed_lem s k c entry at = rw at refl

  -- `handleClose` that succeeds takes the entry away and queues its end.
  pub closed_lem :
      (s s' : TcpServer S) (k : List ℕ) (c entry : Connection S)
      → s.connections k ≡ some entry
      → close_connection port true k c s ≡ ok s'
      → (c' : Connection S) × (s' ≡ record s {
        connections = set_name s.connections k none;
        pending = s.pending ++ destroy_connection_of c' ∷ [];
      })
  unfolding close_connection
  closed_lem s s' k c entry at e =
      let (conn, _, e1) = bind-ok (handle_close port true c.connection) _ s' e in
      (
        record c { connection = conn },
        sym (
            ok-injective _ _
              (sym (removed_lem s k (record c { connection = conn }) entry at) ∙ e1)),
      )

  -- What was queued runs, and destructs as many connections.
  pub record IsRun (s : TcpServer S) (n : ℕ) (s' : TcpServer S) : Type 0 where
    pub same_connections : s'.connections ≡ s.connections
    pub same_next : s'.next_conn_id ≡ s.next_conn_id
    pub same_name : s'.name ≡ s.name
    pub same_pending : s'.pending ≡ s.pending
    pub more : length s'.released ≡ length s.released + n

  IsRun-trans :
      (s s1 s2 : TcpServer S) (m n : ℕ) → IsRun s m s1 → IsRun s1 n s2 → IsRun s (m + n) s2
  IsRun-trans s s1 s2 m n v w = record {
    same_connections = w.same_connections ∙ v.same_connections;
    same_next = w.same_next ∙ v.same_next;
    same_name = w.same_name ∙ v.same_name;
    same_pending = w.same_pending ∙ v.same_pending;
    more = omega (arith, v.more, w.more);
  }

  IsRun-one :
      (f : ServerFunctor S) (s s1 : TcpServer S)
      → run_server_functor port true f s ≡ ok s1
      → IsRun s (destroys (f ∷ [])) s1
  unfolding run_server_functor
  IsRun-one listen_of s s1 e =
      let (a, _, e1) = bind-ok (listen port true s.acceptor) _ s1 e in
      subst (IsRun s 0) (ok-injective _ _ e1) (record {
        same_connections = refl;
        same_next = refl;
        same_name = refl;
        same_pending = refl;
        more = omega arith;
      })
  IsRun-one (destroy_connection_of conn) s s1 e =
      let (c, _, e1) = bind-ok (destroy_connection port true conn.connection) _ s1 e in
      subst (IsRun s 1) (ok-injective _ _ e1) (record {
        same_connections = refl;
        same_next = refl;
        same_name = refl;
        same_pending = refl;
        more = length-append s.released (record conn { connection = c } ∷ []);
      })

  pub run_lem :
      (fs : List (ServerFunctor S)) (s s' : TcpServer S)
      → run_server_functors port true fs s ≡ ok s'
      → IsRun s (destroys fs) s'
  unfolding run_server_functors
  run_lem [] s s' e = subst (IsRun s 0) (ok-injective s s' e) (record {
    same_connections = refl;
    same_next = refl;
    same_name = refl;
    same_pending = refl;
    more = omega arith;
  })
  run_lem (f ∷ fs) s s' e =
      let (s1, e1, e2) = bind-ok (run_server_functor port true f s) _ s' e in
      subst (λ n. IsRun s n s') (sym (destroys-append (f ∷ []) fs))
        (IsRun-trans s s1 s' (destroys (f ∷ [])) (destroys fs) (IsRun-one f s s1 e1)
          (run_lem fs s1 s' e2))
