-- ===== src/Server/Main.antt =====
-- `main`, `CtrlHandler` and `exit_nicely` of myjql/main/myjqlserver.c, as they are for Linux. The
-- calls of the system are a parameter; what is printed is left out.
use course_pj.Base.{
  ℕ, zero, suc, ◌≡◌, refl, Bool, true, false, Option, none, some, ◌==◌, if◌then◌else◌, Cmd, Res, ok,
  fault, hang, pure, lift, ◌>>=◌, ◌>>◌,
}
use course_pj.MyJql.{Db, Files, myjql_init, myjql_close}
pub mod Connections
pub mod Returns

-- A failed call gives `false` or `none`.
pub record System (S : Type 0) : Type 0 where
  pub signal : S → Bool × S
  pub socket : S → Option ℕ × S
  pub bind : ℕ → S → Bool × S
  pub listen : ℕ → S → S
  pub mutex_init : S → Bool × S
  pub mutex_destroy : S → S
  pub accept : ℕ → S → Option ℕ × S
  pub pthread_create : ℕ → S → Bool × S
  pub closesocket : ℕ → S → S

pub record Process (S : Type 0) : Type 0 where
  pub sys : S
  pub db : Db

-- How `main` comes out of the calls before its loop: with the socket that listens, or by a return.
pub data Start : Type 0 where
  listening returned : ℕ → Start

module _ {S : Type 0} where
  abbrev pub call : {A : Type 0} → (S → A × S) → Cmd (Process S) A
  call f p = ok (f p.sys).0 (record p { sys = (f p.sys).1 })

  abbrev pub call_void : (S → S) → Cmd (Process S) (Unit {0})
  call_void f p = ok tt (record p { sys = f p.sys })

  abbrev pub on_process_db : {A : Type 0} → Cmd Db A → Cmd (Process S) A
  on_process_db = lift (λ p. p.db) (λ d p. record p { db = d })

  -- The `return v` after a call that failed.
  abbrev pub done_or : ℕ → Bool → Cmd (Process S) Start → Cmd (Process S) Start
  done_or v true k = k
  done_or v false k = pure (returned v)

  abbrev pub socket_or : ℕ → Option ℕ → (ℕ → Cmd (Process S) Start) → Cmd (Process S) Start
  socket_or v none k = pure (returned v)
  socket_or v (some fd) k = k fd

module _ {S : Type 0} (system : System S) (files : Files) where
  pub open_database : ℕ → Bool → Cmd (Process S) Start
  open_database listener true = do on_process_db (myjql_init files); pure (listening listener)
  open_database listener false = do call_void (system.closesocket listener); pure (returned 1)

  -- The calls before the loop.
  unfoldable pub set_up : Cmd (Process S) Start
  unfolding open_database
  set_up = do
    handled ← call system.signal
    done_or 1 handled (do
      fd ← call system.socket
      socket_or 1 fd (λ listener. do
        bound ← call (system.bind listener)
        done_or 1 bound (do
          call_void (system.listen listener)
          locked ← call system.mutex_init
          open_database listener locked)))

  close_unless : ℕ → Bool → Cmd (Process S) (Unit {0})
  close_unless client true = pure tt
  close_unless client false = call_void (system.closesocket client)

  start_thread : Option ℕ → Cmd (Process S) (Unit {0})
  unfolding close_unless
  start_thread none = pure tt
  start_thread (some client) = do
    started ← call (system.pthread_create client)
    close_unless client started

  -- One round of the loop.
  unfoldable pub accept_client : ℕ → Cmd (Process S) (Unit {0})
  unfolding start_thread
  accept_client listener = do client ← call (system.accept listener); start_thread client

  -- So many rounds; the loop has no end.
  unfoldable pub accept_clients : ℕ → ℕ → Cmd (Process S) (Unit {0})
  unfolding accept_client
  accept_clients zero listener = pure tt
  accept_clients (suc rounds) listener = do accept_client listener; accept_clients rounds listener

  -- What `main` has returned after so many rounds, if it has.
  run_main : ℕ → Start → Cmd (Process S) (Option ℕ)
  unfolding accept_clients
  run_main rounds (returned v) = pure (some v)
  run_main rounds (listening listener) = do accept_clients rounds listener; pure none

  unfoldable pub main : ℕ → Cmd (Process S) (Option ℕ)
  unfolding set_up run_main
  main rounds = do start ← set_up; run_main rounds start

  -- The value that the process exits with.
  unfoldable pub exit_nicely : ℕ → Cmd (Process S) ℕ
  exit_nicely listener = do
    on_process_db myjql_close
    call_void (system.closesocket listener)
    call_void system.mutex_destroy
    pure 0

  -- The number of `SIGINT`; any other signal is passed over.
  abbrev pub sigint : ℕ
  sigint = 2

  unfoldable pub ctrl_handler : ℕ → ℕ → Cmd (Process S) (Option ℕ)
  unfolding exit_nicely
  ctrl_handler listener signo =
      if signo == sigint then (do v ← exit_nicely listener; pure (some v)) else pure none
