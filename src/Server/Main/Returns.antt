-- ===== src/Server/Main/Returns.antt =====
-- When `main` of myjql/main/myjqlserver.c returns, whatever the system answers.
use mathlib.Core.Path.{subst}
use course_pj.Base.{
  ℕ, ◌≡◌, refl, Bool, true, false, Option, none, some, Cmd, Res, ok, fault, hang, and_then, pure,
  ◌>>◌,
}
use course_pj.MyJql.{Db, Files, myjql_init}
use course_pj.Server.Main.{
  System, Process, Start, listening, returned, done_or, socket_or, on_process_db, open_database,
  set_up, run_main, accept_clients, main,
}

module _ {S : Type 0} (system : System S) (files : Files) where
  -- What is known where `main` returns before its loop.
  Untouched : Db → Res (Process S) Start → Type 0
  Untouched db (ok (returned v) q) = (v ≡ 1) × (q.db ≡ db)
  Untouched db (ok (listening fd) q) = Unit {0}
  Untouched db fault = Unit {0}
  Untouched db hang = Unit {0}

  opened :
      (listener : ℕ) (s : S) (db : Db) (r : Res Db (Unit {0}))
      → Untouched db
          ((on_process_db (λ d. r) >> pure (listening listener)) (record { sys = s; db = db }))
  unfolding Untouched
  opened listener s db (ok u d) = tt
  opened listener s db fault = tt
  opened listener s db hang = tt

  open_database-Untouched :
      (listener : ℕ) (locked : Bool) (s : S) (db : Db)
      → Untouched db (open_database system files listener locked (record { sys = s; db = db }))
  unfolding open_database Untouched
  open_database-Untouched listener true s db = opened listener s db (myjql_init files db)
  open_database-Untouched listener false s db = (refl, refl)

  done_or-Untouched :
      (done : Bool) (k : Cmd (Process S) Start) (s : S) (db : Db)
      → Untouched db (k (record { sys = s; db = db }))
      → Untouched db (done_or 1 done k (record { sys = s; db = db }))
  unfolding Untouched
  done_or-Untouched true k s db u = u
  done_or-Untouched false k s db u = (refl, refl)

  socket_or-Untouched :
      (fd : Option ℕ) (k : ℕ → Cmd (Process S) Start) (s : S) (db : Db)
      → ((listener : ℕ) → Untouched db (k listener (record { sys = s; db = db })))
      → Untouched db (socket_or 1 fd k (record { sys = s; db = db }))
  unfolding Untouched
  socket_or-Untouched none k s db u = (refl, refl)
  socket_or-Untouched (some fd) k s db u = u fd

  set_up-Untouched :
      (s : S) (db : Db) → Untouched db (set_up system files (record { sys = s; db = db }))
  unfolding set_up
  set_up-Untouched s db = done_or-Untouched (system.signal s).0 _ _ db (
      socket_or-Untouched (system.socket (system.signal s).1).0 _ _ db (λ listener.
        done_or-Untouched (system.bind listener (system.socket (system.signal s).1).1).0 _ _ db
          (open_database-Untouched listener _ _ db)))

  Returned : Db → Res (Process S) (Option ℕ) → Type 0
  Returned db (ok (some v) q) = (v ≡ 1) × (q.db ≡ db)
  Returned db (ok none q) = Unit {0}
  Returned db fault = Unit {0}
  Returned db hang = Unit {0}

  still_running :
      (db : Db) (r : Res (Process S) (Unit {0})) → Returned db (and_then r (λ u. pure none))
  unfolding Returned
  still_running db (ok u q) = tt
  still_running db fault = tt
  still_running db hang = tt

  run_main-Returned :
      (rounds : ℕ) (db : Db) (r : Res (Process S) Start)
      → Untouched db r
      → Returned db (and_then r (run_main system files rounds))
  unfolding Returned Untouched run_main
  run_main-Returned rounds db (ok (returned v) q) u = u
  run_main-Returned rounds db (ok (listening fd) q) u =
      still_running db (accept_clients system files rounds fd q)
  run_main-Returned rounds db fault u = tt
  run_main-Returned rounds db hang u = tt

  -- Whatever the system answers, `main` returns only with 1, and only before it has opened the
  -- database: once that is open, no failed call ends the loop.
  pub main-returned :
      (rounds v : ℕ) (s : S) (db : Db) (q : Process S)
      → main system files rounds (record { sys = s; db = db }) ≡ ok (some v) q
      → (v ≡ 1) × (q.db ≡ db)
  unfolding main Returned
  main-returned rounds v s db q e = subst (Returned db) e (
      run_main-Returned rounds db (set_up system files (record { sys = s; db = db }))
        (set_up-Untouched s db))
