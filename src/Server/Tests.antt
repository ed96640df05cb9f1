-- ===== src/Server/Tests.antt =====
-- Runs of net/TcpServerff.cpp and net/EventLoopThreadPoolff.cpp, and the theorems on them.
use firey.Prelude.{
  ℕ, ◌+◌, ◌≡◌, refl, ap, true, false, List, [], ◌∷◌, some, none, ◌>>=◌, arith, Bytes, codes,
}
use firey.Server.{
  TcpServer, new_server, start, set_thread_num, remove_connection_in_loop, conn_name,
}
use firey.Server.LoopPool
use firey.Server.LoopPool.{get_next_loop, get_loop_for_hash, get_all_loops}
use firey.Server.LoopPool.Rounds.{assign, in_turn, loop_for, start-assign}
use firey.Server.Names.{Prints}
use firey.Server.Table.{Call, opens, closes, run, open_after, Lists}
use firey.Server.Runs.{run-Lists}

-- The loop of a thread.
abbrev start_loop : ℕ → ℕ
start_loop i = 100 + i

-- Digits below 10.
abbrev decimal : ℕ → Bytes
decimal n = (48 + n) ∷ []

decimal-Prints : Prints 10 decimal
decimal-Prints = record {
  short = λ n h. omega arith;
  injective = λ m n hm hn e. let same = ap head e in omega (arith, same);
}
  where
    head : Bytes → ℕ
    head [] = 0
    head (x ∷ xs) = x

-- Three connections, the second of which ends, and a fourth.
abbrev traffic : List Call
traffic = opens 5 ∷ opens 6 ∷ opens 7 ∷ closes 1 ∷ opens 6 ∷ []

open_traffic : open_after 1 [] traffic ≡ (1, 5) ∷ (3, 7) ∷ (4, 6) ∷ []
open_traffic = refl

run-Lists_example :
    (s1 : TcpServer) × ((start start_loop
          (set_thread_num (new_server 9 (codes "http") (codes "0.0.0.0:80")) 2)
          false
        >>= λ s. run decimal s traffic)
      ≡ some s1)
    × Lists
        (conn_name decimal (codes "http") (codes "0.0.0.0:80"))
        s1.connections
        ((1, 5) ∷ (3, 7) ∷ (4, 6) ∷ [])
run-Lists_example =
    run-Lists start_loop 9 2 false (codes "http") (codes "0.0.0.0:80") traffic decimal-Prints
      (omega arith) (omega arith)

start-assign_example :
    (LoopPool.start start_loop (LoopPool.set_thread_num (LoopPool.new_pool 9) 3) false >>= λ r.
    assign r.1 5)
    ≡ some (in_turn (loop_for 9 start_loop 3) 0 5)
start-assign_example = start-assign 9 start_loop 3 false 5

turns : in_turn (loop_for 9 start_loop 3) 0 5 ≡ 101 ∷ 102 ∷ 103 ∷ 101 ∷ 102 ∷ []
turns = refl

by_hash :
    (LoopPool.start start_loop (LoopPool.set_thread_num (LoopPool.new_pool 9) 3) false >>= λ r.
    get_loop_for_hash r.1 7)
    ≡ some 102
unfolding LoopPool.start get_loop_for_hash
by_hash = refl

all_loops :
    (LoopPool.start start_loop (LoopPool.set_thread_num (LoopPool.new_pool 9) 0) true >>= λ r.
    get_all_loops r.1)
    ≡ some (9 ∷ [])
unfolding LoopPool.start get_all_loops
all_loops = refl

-- A connection that is not in the map fails the assertion.
unknown :
    remove_connection_in_loop
      (new_server 9 [] [])
      (record { name = codes "x"; sockfd = 3; loop = 9 })
    ≡ none
unfolding remove_connection_in_loop
unknown = refl
