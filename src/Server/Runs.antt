-- ===== src/Server/Runs.antt =====
-- A server of net/TcpServerff.cpp from its start on.
use firey.Prelude.{
  ℕ, zero, suc, ◌+◌, ◌<◌, ◌≤◌, ◌≡◌, refl, sym, Bool, true, List, [], ◌∷◌, ◌++◌, some, ◌>>=◌, arith,
  length, Bytes, Option-cases, inl, inr,
}
use mathlib.Core.Path.{subst, ap₂}
use firey.Server.{
  listen, new_server, start, set_thread_num, Connection, TcpServer, with_connection,
  without_connection, put, conn_name, new_connection, remove_connection_in_loop,
}
use firey.Server.LoopPool
use firey.Server.LoopPool.{get_next_loop}
use firey.Server.LoopPool.Ready.{IsReady, get_next_loop-IsReady}
use firey.Server.Names.{Prints, conn_names_differ}
use firey.Server.Table.{
  Call, opens, closes, nth, close_at, run, remove_at, open_after, opened, Ascending, Lists,
  put-Lists, erase-Lists, nth-none, Ascending-append, Ascending-remove_at,
}

-- A server that runs, with its open connections.
pub record Serves (decimal : ℕ → Bytes) (name ip_port : Bytes) (os : List (ℕ × ℕ)) (s : TcpServer)
    : Type 0 where
  pub same_name : s.name ≡ name
  pub same_ip_port : s.ip_port ≡ ip_port
  pub pool_ready : IsReady s.pool
  pub ids : Ascending s.next_conn_id os
  pub listed : Lists (conn_name decimal name ip_port) s.connections os

module _ {limit : ℕ} {decimal : ℕ → Bytes} (prints : Prints limit decimal) (name ip_port : Bytes)
    (fits : length ip_port ≤ 50) where
  new_connection-Serves :
      (s : TcpServer) (os : List (ℕ × ℕ)) (sockfd : ℕ)
      → s.next_conn_id < limit
      → Serves decimal name ip_port os s
      → (s1 : TcpServer) × (new_connection decimal s sockfd ≡ some s1)
        × (s1.next_conn_id ≡ s.next_conn_id + 1)
        × Serves decimal name ip_port (os ++ ((s.next_conn_id, sockfd) ∷ [])) s1
  unfolding new_connection
  new_connection-Serves s os sockfd small v =
      let (l, p, e, ready) = get_next_loop-IsReady s.pool v.pool_ready in
      let conn : Connection = record {
        name = conn_name decimal s.name s.ip_port s.next_conn_id;
        sockfd = sockfd;
        loop = l;
      } in
      let named : conn_name decimal s.name s.ip_port s.next_conn_id
          ≡ conn_name decimal name ip_port s.next_conn_id =
        ap₂ (λ x y. conn_name decimal x y s.next_conn_id) v.same_name v.same_ip_port in
      (
        with_connection s conn p,
        rw e refl,
        refl,
        record {
          same_name = v.same_name;
          same_ip_port = v.same_ip_port;
          pool_ready = ready;
          ids = Ascending-append s.next_conn_id sockfd os v.ids;
          listed =
              subst
                (λ k.
                  Lists (conn_name decimal name ip_port) (put k conn s.connections)
                    (os ++ ((s.next_conn_id, sockfd) ∷ [])))
                (sym named)
                (put-Lists (conn_name decimal name ip_port) limit
                  (conn_names_differ prints name ip_port fits) s.next_conn_id conn s.connections os
                  small v.ids named v.listed);
        },
      )

  close_at-Serves :
      (s : TcpServer) (os : List (ℕ × ℕ)) (place : ℕ)
      → s.next_conn_id ≤ limit
      → Serves decimal name ip_port os s
      → (s1 : TcpServer) × (close_at s (nth s.connections place) ≡ some s1)
        × (s1.next_conn_id ≡ s.next_conn_id)
        × Serves decimal name ip_port (remove_at os place) s1
  unfolding remove_connection_in_loop
  close_at-Serves s os place small v = elim (Option-cases (nth s.connections place)) [
    | inl e ↦ (
      s,
      rw e refl,
      refl,
      subst (λ l. Serves decimal name ip_port l s)
          (sym (nth-none (conn_name decimal name ip_port) s.connections os place v.listed e)) v,
    )
    | inr (x, e) ↦
        let (one, rest) =
          erase-Lists (conn_name decimal name ip_port) limit
            (conn_names_differ prints name ip_port fits) s.next_conn_id s.connections os place x
            small v.ids v.listed e in
        (
          without_connection s x.1,
          rw e (rw one refl),
          refl,
          record {
            same_name = v.same_name;
            same_ip_port = v.same_ip_port;
            pool_ready = v.pool_ready;
            ids = Ascending-remove_at s.next_conn_id os place v.ids;
            listed = rest;
          },
        )
  ]

  run-Serves :
      (s : TcpServer) (os : List (ℕ × ℕ)) (cs : List Call)
      → s.next_conn_id + opened cs ≤ limit
      → Serves decimal name ip_port os s
      → (s1 : TcpServer) × (run decimal s cs ≡ some s1)
        × Serves decimal name ip_port (open_after s.next_conn_id os cs) s1
  unfolding run
  run-Serves s os [] bound v = (s, refl, v)
  run-Serves s os (opens sockfd ∷ cs) bound v =
      let (s1, e, id, v1) = new_connection-Serves s os sockfd (omega (arith, bound)) v in
      let (s2, e2, v2) =
        run-Serves s1 (os ++ ((s.next_conn_id, sockfd) ∷ [])) cs (omega (arith, bound, id)) v1 in
      (
        s2,
        rw e e2,
        subst
            (λ n.
              Serves decimal name ip_port (open_after n (os ++ ((s.next_conn_id, sockfd) ∷ [])) cs)
                s2)
            id v2,
      )
  run-Serves s os (closes place ∷ cs) bound v =
      let (s1, e, id, v1) = close_at-Serves s os place (omega (arith, bound)) v in
      let (s2, e2, v2) = run-Serves s1 (remove_at os place) cs (omega (arith, bound, id)) v1 in
      (
        s2,
        rw e e2,
        subst (λ n. Serves decimal name ip_port (open_after n (remove_at os place) cs) s2) id v2,
      )

-- The pool of a server that was started.
pool-IsReady :
    (base n : ℕ) (start_loop : ℕ → ℕ)
    → IsReady (record {
      base_loop = base;
      started = true;
      num_threads = n;
      next = 0;
      loops = LoopPool.start_loops start_loop 0 n;
    })
unfolding LoopPool.start_loops
pool-IsReady base zero start_loop = record { is_started = refl; inside = inl refl }
pool-IsReady base (suc n) start_loop = record { is_started = refl; inside = inr (omega arith) }

-- From the start of a server on, connections come and end in any order, fewer than `limit` of them. No
-- assertion fails, `getNextLoop` stays inside the vector, and the map has exactly the open connections,
-- each under its own name. Below `limit`, `%d` prints different texts of at most 10 bytes; the address has
-- at most 50.
pub run-Lists :
    {limit : ℕ} {decimal : ℕ → Bytes} (start_loop : ℕ → ℕ) (owner_loop n : ℕ) (has_callback : Bool)
    (name ip_port : Bytes) (cs : List Call)
    → Prints limit decimal
    → length ip_port ≤ 50
    → opened cs < limit
    → (s1 : TcpServer) × ((start start_loop
            (set_thread_num (new_server owner_loop name ip_port) n)
            has_callback
          >>= λ s. run decimal s cs)
        ≡ some s1)
      × Lists (conn_name decimal name ip_port) s1.connections (open_after 1 [] cs)
unfolding start LoopPool.start
run-Lists {limit} {decimal} start_loop owner_loop n has_callback name ip_port cs prints fits bound =
    let s0 : TcpServer = record (new_server owner_loop name ip_port) {
      pool = record {
        base_loop = owner_loop;
        started = true;
        num_threads = n;
        next = 0;
        loops = LoopPool.start_loops start_loop 0 n;
      };
      is_running = true;
      listening = true;
      tasks = (owner_loop, listen) ∷ [];
    } in
    let (s1, e, v) = run-Serves prints name ip_port fits s0 [] cs (omega (arith, bound)) (record {
      same_name = refl;
      same_ip_port = refl;
      pool_ready = pool-IsReady owner_loop n start_loop;
      ids = tt;
      listed = tt;
    }) in
    (s1, e, v.listed)
