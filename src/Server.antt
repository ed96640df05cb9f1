-- ===== src/Server.antt =====
-- net/TcpServerff.h and net/TcpServerff.cpp: the connections of a server, in the thread of its loop. What it
-- has the loops do is listed, the newest last; `decimal` is what `%d` of `snprintf` prints.
pub mod Acceptor
pub mod LoopPool
pub mod Names
pub mod Table
pub mod Runs
mod Tests
use firey.Prelude.{
  ℕ, zero, suc, ◌+◌, Bool, true, false, not, List, [], ◌∷◌, ◌++◌, Option, some, none, ◌==◌,
  if◌then◌else◌, check, ◌>>=◌, ◌>>◌, take, Bytes, codes, bytes_eq,
}
use LoopPool.{get_next_loop}

pub record Connection : Type 0 where
  pub name : Bytes
  pub sockfd : ℕ
  pub loop : ℕ

-- `connectionEstablished` and `connectionDestroy` of a connection, and `listen`, for a loop.
pub data Task : Type 0 where
  established destroy : Connection → Task
  listen : Task

pub record TcpServer : Type 0 where
  pub name : Bytes
  pub ip_port : Bytes
  pub owner_loop : ℕ
  pub pool : LoopPool.LoopPool
  pub is_running : Bool
  pub listening : Bool
  pub next_conn_id : ℕ
  pub connections : List (Bytes × Connection)
  pub tasks : List (ℕ × Task)

abbrev pub new_server : (owner_loop : ℕ) → (name ip_port : Bytes) → TcpServer
new_server owner_loop name ip_port = record {
  name = name;
  ip_port = ip_port;
  owner_loop = owner_loop;
  pool = LoopPool.new_pool owner_loop;
  is_running = false;
  listening = false;
  next_conn_id = 1;
  connections = [];
  tasks = [];
}

-- `std::map::operator[]` with an assignment, and `erase`, which counts.
unfoldable pub put : Bytes → Connection → List (Bytes × Connection) → List (Bytes × Connection)
put k c [] = (k, c) ∷ []
put k c (e ∷ es) = if bytes_eq k e.0 then (k, c) ∷ es else e ∷ put k c es

unfoldable pub erase : Bytes → List (Bytes × Connection) → ℕ × List (Bytes × Connection)
erase k [] = (0, [])
erase k (e ∷ es) = if bytes_eq k e.0 then (1, es) else ((erase k es).0, e ∷ (erase k es).1)

-- `snprintf` into 64 bytes, the last of which ends the text.
abbrev pub conn_name : (ℕ → Bytes) → (name ip_port : Bytes) → ℕ → Bytes
conn_name decimal name ip_port id =
    name ++ take 63 (codes "-" ++ (ip_port ++ (codes "#" ++ decimal id)))

abbrev pub with_connection : TcpServer → Connection → LoopPool.LoopPool → TcpServer
with_connection s conn pool = record s {
  next_conn_id = s.next_conn_id + 1;
  pool = pool;
  connections = put conn.name conn s.connections;
  tasks = s.tasks ++ ((conn.loop, established conn) ∷ []);
}

unfoldable pub new_connection : (ℕ → Bytes) → TcpServer → ℕ → Option TcpServer
unfolding put
new_connection decimal s sockfd = get_next_loop s.pool >>= λ r. some (
    with_connection s
      (record {
        name = conn_name decimal s.name s.ip_port s.next_conn_id;
        sockfd = sockfd;
        loop = r.0;
      })
      r.1)

abbrev pub without_connection : TcpServer → Connection → TcpServer
without_connection s conn = record s {
  connections = (erase conn.name s.connections).1;
  tasks = s.tasks ++ ((conn.loop, destroy conn) ∷ []);
}

unfoldable pub remove_connection_in_loop : TcpServer → Connection → Option TcpServer
unfolding erase
remove_connection_in_loop s conn =
    check ((erase conn.name s.connections).0 == 1) >> some (without_connection s conn)

unfoldable pub start : (ℕ → ℕ) → TcpServer → (has_callback : Bool) → Option TcpServer
start start_loop s has_callback =
    if not s.is_running
    then (LoopPool.start start_loop s.pool has_callback >>= λ r.
        check (not s.listening)
        >> some (record s {
          pool = r.1;
          is_running = true;
          listening = true;
          tasks = s.tasks ++ ((s.owner_loop, listen) ∷ []);
        }))
    else some s

abbrev pub set_thread_num : TcpServer → ℕ → TcpServer
set_thread_num s n = record s { pool = LoopPool.set_thread_num s.pool n }
