-- ===== src/Events/Tests.antt =====
-- A small server over a few callbacks.
use aoq.Prelude.{◌≡◌, refl, true, false, some, [], ◌∷◌, ◌++◌, drop, replicate, arith}
use aoq.Prelude.Int.{ℤ, pos, negsuc, ◌+ℤ◌}
use aoq.Heap.{null}
use aoq.HashTable.{hash_init}
use aoq.AoqLog.{init_aoq_log}
use aoq.Receive.{Aoq}
use aoq.Events.{accept_cb, write_params, create_param_data_file, here, next, accepts}
use aoq.Events.Window.{save_each, save_each-last}
use aoq.Events.Connections.{Counted, Closed, Reach-Counted, Reach-Closed}

-- It has one connection, of two that it may have at most.
abbrev server : ℤ → Aoq
server status = record {
  server = record {
    mem = record {
      chunks = [];
      slabs = [];
      mp = record { head_next = null; tail_next = null; total = 0; size = 0; cksize = 1024 };
      chunk_used_num = pos 0;
    };
    nodes = [];
    names = record { queues = []; ht = hash_init 0 4 };
    replies = [];
  };
  aoqlog = init_aoq_log 0;
  serv = record {
    pid = pos 9;
    start_time = 0 ∷ [];
    port = pos 5211;
    max_memory = pos 100;
    max_client_connection = pos 2;
    client_connection = pos 1;
    aoq_max_size = pos 5;
    work_dir_path = 0 ∷ [];
    persistent = false;
    aomp = false;
    status = status;
  };
  sockets = record { listening = true; opened = pos 7 ∷ []; watched = pos 7 ∷ [] };
}

-- A second connection, and a third that is turned away.
turned_away : Counted 2 (accept_cb (pos 9) (accept_cb (pos 8) (server (pos 1))))
unfolding accept_cb ◌+ℤ◌
turned_away =
    Reach-Counted 2 (server (pos 1)) _ (record { limit = refl; count = refl; few = omega arith })
      (next (next here (accepts (server (pos 1)) (pos 8) refl))
        (accepts (accept_cb (pos 8) (server (pos 1))) (pos 9) refl))

-- Out of memory, it closes its listening socket when a client comes.
Reach-Closed_example : Closed 1 (accept_cb (pos 8) (server (negsuc 0)))
unfolding accept_cb
Reach-Closed_example =
    Reach-Closed 1 (server (negsuc 0)) (accept_cb (pos 8) (server (negsuc 0)))
      (record { status = refl; few = omega arith })
      (next here (accepts (server (negsuc 0)) (pos 8) refl))

save_each-last_example :
    save_each (pos 3 ∷ pos 5 ∷ pos 4 ∷ []) create_param_data_file
    ≡ some (write_params 1 (drop 2 (replicate 20 (pos 3) ++ pos 5 ∷ pos 4 ∷ [])))
save_each-last_example = save_each-last (pos 3) (pos 5 ∷ pos 4 ∷ [])
