-- ===== src/Server/Main/Connections.antt =====
-- What `main` of myjql/main/myjqlserver.c does with the connections that it accepts, whatever the
-- system answers: its calls are written down in a list, the newest first.
use course_pj.Base.{
  ℕ, zero, suc, ◌≡◌, refl, ◌∙◌, Bool, true, false, Option, none, some, List, [], ◌∷◌, ok,
}
use course_pj.MyJql.{Db, Files}
use course_pj.Server.Main.{
  System, Process, close_unless, start_thread, accept_client, accept_clients,
}

pub data Event : Type 0 where
  accepted : ℕ → Event
  not_accepted : Event
  started : ℕ → Event
  not_started : ℕ → Event
  closed : ℕ → Event

abbrev pub accept_event : Option ℕ → Event
accept_event none = not_accepted
accept_event (some client) = accepted client

abbrev pub start_event : ℕ → Bool → Event
start_event client true = started client
start_event client false = not_started client

-- A system that also writes down what `accept`, `pthread_create` and `closesocket` did.
unfoldable pub recorded : {S : Type 0} → System S → System (S × List Event)
recorded system = record {
  signal = λ s. let (b, t) = system.signal s.0 in (b, (t, s.1));
  socket = λ s. let (fd, t) = system.socket s.0 in (fd, (t, s.1));
  bind = λ fd s. let (b, t) = system.bind fd s.0 in (b, (t, s.1));
  listen = λ fd s. (system.listen fd s.0, s.1);
  mutex_init = λ s. let (b, t) = system.mutex_init s.0 in (b, (t, s.1));
  mutex_destroy = λ s. (system.mutex_destroy s.0, s.1);
  accept = λ fd s. let (c, t) = system.accept fd s.0 in (c, (t, accept_event c ∷ s.1));
  pthread_create =
      λ c s. let (b, t) = system.pthread_create c s.0 in (b, (t, start_event c b ∷ s.1));
  closesocket = λ fd s. (system.closesocket fd s.0, closed fd ∷ s.1);
}

-- Each connection that was accepted was handed over to a thread that started, or closed since none
-- did; and nothing else was closed.
pub data Handled : List Event → Type 0 where
  nothing : Handled []
  refused : (l : List Event) → Handled l → Handled (not_accepted ∷ l)
  handed_over : (c : ℕ) (l : List Event) → Handled l → Handled (started c ∷ (accepted c ∷ l))
  turned_away :
      (c : ℕ) (l : List Event) → Handled l → Handled (closed c ∷ (not_started c ∷ (accepted c ∷ l)))

module _ {S : Type 0} (system : System S) (files : Files) where
  start_thread-Handled :
      (c : ℕ) (created : Bool) (s t : S) (l : List Event) (db : Db)
      → system.pthread_create c s ≡ (created, t)
      → Handled l
      → (q : Process (S × List Event)) × (start_thread
            (recorded system)
            files
            (some c)
            (record { sys = (s, accepted c ∷ l); db = db })
          ≡ ok tt q)
        × Handled q.sys.1
        × (q.db ≡ db)
  unfolding start_thread close_unless recorded
  start_thread-Handled c true s t l db e h = (
    record { sys = (t, started c ∷ (accepted c ∷ l)); db = db },
    rw e refl,
    handed_over c l h,
    refl,
  )
  start_thread-Handled c false s t l db e h = (
    record {
      sys = (system.closesocket c t, closed c ∷ (not_started c ∷ (accepted c ∷ l)));
      db = db;
    },
    rw e refl,
    turned_away c l h,
    refl,
  )

  accept_client-Handled :
      (listener : ℕ) (client : Option ℕ) (s t : S) (l : List Event) (db : Db)
      → system.accept listener s ≡ (client, t)
      → Handled l
      → (q : Process (S × List Event)) × (accept_client
            (recorded system)
            files
            listener
            (record { sys = (s, l); db = db })
          ≡ ok tt q)
        × Handled q.sys.1
        × (q.db ≡ db)
  unfolding accept_client start_thread recorded
  accept_client-Handled listener none s t l db e h =
      (record { sys = (t, not_accepted ∷ l); db = db }, rw e refl, refused l h, refl)
  accept_client-Handled listener (some c) s t l db e h =
      let (q, ran, handled, same) =
        start_thread-Handled c (system.pthread_create c t).0 t (system.pthread_create c t).1 l db
          refl h in
      (q, rw e ran, handled, same)

  -- In any number of rounds, whatever the system answers, the loop of `main` goes on: each connection
  -- that it accepts is handed over to a thread or, if that cannot be started, closed, nothing else is
  -- closed, and the database is not touched.
  pub accept_clients-Handled :
      (rounds listener : ℕ) (s : S) (l : List Event) (db : Db)
      → Handled l
      → (q : Process (S × List Event)) × (accept_clients
            (recorded system)
            files
            rounds
            listener
            (record { sys = (s, l); db = db })
          ≡ ok tt q)
        × Handled q.sys.1
        × (q.db ≡ db)
  unfolding accept_clients
  accept_clients-Handled zero listener s l db h = (record { sys = (s, l); db = db }, refl, h, refl)
  accept_clients-Handled (suc rounds) listener s l db h =
      let (p, e, g, d) =
        accept_client-Handled listener (system.accept listener s).0 s (system.accept listener s).1 l
          db refl h in
      let (q, f, k, m) = accept_clients-Handled rounds listener p.sys.0 p.sys.1 p.db g in
      (q, rw e f, k, m ∙ d)
