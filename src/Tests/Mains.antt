-- ===== src/Tests/Mains.antt =====
-- `main` of myjql/main/myjqlserver.c on a system that has two clients.
use course_pj.Base.{ℕ, suc, ◌≡◌, refl, true, false, some, List, [], ok, ◌==◌}
use course_pj.FileIo.{existing}
use course_pj.MyJql.{Files}
use course_pj.Server.Main.{System, Process, accept_clients, main}
use course_pj.Server.Main.Connections.{Event, Handled, nothing, recorded, accept_clients-Handled}
use course_pj.Server.Main.Returns.{main-returned}
use course_pj.Tests.Database.{no_keys, no_records, index_file}

abbrev files : Files
files = record {
  idx = (index_file, existing index_file);
  rec_data = (no_records.data_pool.file, existing no_records.data_pool.file);
  rec_fsm = (no_records.fsm_pool.file, existing no_records.fsm_pool.file);
  str_data = (no_records.data_pool.file, existing no_records.data_pool.file);
  str_fsm = (no_records.fsm_pool.file, existing no_records.fsm_pool.file);
}

-- The state counts the connections; the thread of the second one does not start.
abbrev two_clients : System ℕ
two_clients = record {
  signal = λ n. (true, n);
  socket = λ n. (some 3, n);
  bind = λ fd n. (true, n);
  listen = λ fd n. n;
  mutex_init = λ n. (true, n);
  mutex_destroy = λ n. n;
  accept = λ fd n. (some (suc n), suc n);
  pthread_create = λ c n. (c == 1, n);
  closesocket = λ fd n. n;
}

accept_clients-Handled_example :
    (q : Process (ℕ × List Event)) × (accept_clients
        (recorded two_clients)
        files
        2
        3
        (record { sys = (0, []); db = no_keys })
      ≡ ok tt q)
    × Handled q.sys.1
    × (q.db ≡ no_keys)
accept_clients-Handled_example = accept_clients-Handled two_clients files 2 3 0 [] no_keys nothing

-- A system on which the address is in use.
abbrev busy : System ℕ
busy = record two_clients { bind = λ fd n. (false, n) }

busy-main :
    main busy files 4 (record { sys = 0; db = no_keys })
    ≡ ok (some 1) (record { sys = 0; db = no_keys })
unfolding main
busy-main = refl

main-returned_example : (◌≡◌ {A = ℕ} 1 1) × (no_keys ≡ no_keys)
main-returned_example =
    main-returned busy files 4 1 0 no_keys (record { sys = 0; db = no_keys }) busy-main
