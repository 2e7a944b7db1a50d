-- ===== src/Server/Threads.antt =====
-- The threads of myjql/main/myjqlserver.c side by side, over one database.
use mathlib.Core.Path.{subst}
use course_pj.Base.{ℕ, ◌≡◌, Bytes, write, ok}
use course_pj.Net.{Sockets}
use course_pj.MyJql.{Db, Limits}
use course_pj.Server.{Thread, Outcome, next, serve_request}
use course_pj.Server.Calls.{Calls, none_yet, trans, Ran}
use course_pj.Server.Rounds.{Calling-serve_request}

-- The database, the socket of each thread, and what its last round ended with.
pub record Server (N : Type 0) : Type 0 where
  pub db : Db
  pub nets : ℕ → N
  pub ends : ℕ → Outcome

module _ {N : Type 0} (sockets : Sockets N) (garbage : Bytes) (limits : Limits) where
  -- A round of one of the threads, which is one step since threads share nothing but the database
  -- and a round calls it at most once; or a connection that is accepted, with a thread whose `code` has no
  -- value yet.
  pub data Step : Server N → Server N → Type 0 where
    served :
        (w : Server N) (i code : ℕ) (o : Outcome) (t : Thread N)
        → w.ends i ≡ next code
        → serve_request sockets garbage limits code (record { net = w.nets i; db = w.db }) ≡ ok o t
        → Step w (record { db = t.db; nets = write w.nets i t.net; ends = write w.ends i o })
    accepted :
        (w : Server N) (i code : ℕ) (n : N)
        → Step w (record w { nets = write w.nets i n; ends = write w.ends i (next code) })

  pub data Reaches : Server N → Server N → Type 0 where
    start : (w : Server N) → Reaches w w
    step : (u v w : Server N) → Reaches u v → Step v w → Reaches u w

  Step-Calls : (v w : Server N) → Step v w → Calls garbage limits v.db w.db
  unfolding Ran
  Step-Calls v _ (served _ i code o t e f) =
      subst (Ran garbage limits sockets v.db) f
        (Calling-serve_request sockets garbage limits code (record { net = v.nets i; db = v.db }))
  Step-Calls v _ (accepted _ i code n) = none_yet v.db

  -- However the rounds of the threads follow each other, the database is what calls of `myjql_get`,
  -- `myjql_set` and `myjql_del` in some order have made of it, and no key or value that was set is
  -- longer than 1024.
  pub reaches-Calls : (u w : Server N) → Reaches u w → Calls garbage limits u.db w.db
  reaches-Calls u _ (start _) = none_yet u.db
  reaches-Calls u w (step _ v _ r s) =
      trans garbage limits u.db v.db w.db (reaches-Calls u v r) (Step-Calls v w s)
