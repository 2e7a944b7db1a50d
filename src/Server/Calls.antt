-- ===== src/Server/Calls.antt =====
-- What a round of `InstanceThread` of myjql/main/myjqlserver.c does to the database, whatever its
-- socket gives: it calls it, and with no text that is too long.
use course_pj.Base.{
  ℕ, ◌≤◌, ◌≡◌, refl, Bool, true, false, Bytes, Res, Cmd, ok, fault, hang, and_then, pure, ◌>>=◌,
  if◌then◌else◌,
}
use course_pj.Net.{Sockets}
use course_pj.Str.Read.{Buffer}
use course_pj.MyJql.{Db, Limits, myjql_get, myjql_set, myjql_del}
use course_pj.Server.{Thread, on_net, on_db, max_str_len}

module _ (garbage : Bytes) (limits : Limits) where
  -- One call of the database that returns, from one state of it to the next.
  pub data Call : Db → Db → Type 0 where
    got :
        (key : Bytes) (value : Buffer) (db db' : Db) (r : ℕ × Bytes)
        → myjql_get garbage limits key value max_str_len db ≡ ok r db'
        → Call db db'
    stored :
        (key : Bytes) (key_len : ℕ) (value : Bytes) (value_len : ℕ) (db db' : Db)
        → key_len ≤ max_str_len
        → value_len ≤ max_str_len
        → myjql_set garbage limits key key_len value value_len db ≡ ok tt db'
        → Call db db'
    deleted :
        (key : Bytes) (db db' : Db) → myjql_del garbage limits key db ≡ ok tt db' → Call db db'

  -- Calls one after another.
  pub data Calls : Db → Db → Type 0 where
    none_yet : (db : Db) → Calls db db
    after : (a b c : Db) → Calls a b → Call b c → Calls a c

  pub trans : (a b c : Db) → Calls a b → Calls b c → Calls a c
  trans a b _ p (none_yet _) = p
  trans a b _ p (after _ m c q call) = after a m c (trans a b m p q) call

  one : (a b : Db) → Call a b → Calls a b
  one a b call = after a a b (none_yet a) call

  module _ {N : Type 0} (sockets : Sockets N) where
    -- If it returns, the database has only been called.
    unfoldable pub Ran : {A : Type 0} → Db → Res (Thread N) A → Type 0
    Ran db (ok a t) = Calls db t.db
    Ran db fault = Unit {0}
    Ran db hang = Unit {0}

    abbrev pub Calling : {A : Type 0} → Cmd (Thread N) A → Type 0
    Calling m = (t : Thread N) → Ran t.db (m t)

    pub Calling-pure : {A : Type 0} (a : A) → Calling (pure a)
    unfolding Ran
    Calling-pure a t = none_yet t.db

    Ran-trans : {A : Type 0} (a b : Db) (r : Res (Thread N) A) → Calls a b → Ran b r → Ran a r
    unfolding Ran
    Ran-trans a b (ok x s) c d = trans a b s.db c d
    Ran-trans a b fault c d = tt
    Ran-trans a b hang c d = tt

    Ran-and_then :
        {A B : Type 0} (db : Db) (r : Res (Thread N) A) (k : A → Cmd (Thread N) B)
        → Ran db r
        → ((a : A) → Calling (k a))
        → Ran db (and_then r k)
    unfolding Ran
    Ran-and_then db (ok a s) k p q = Ran-trans db s.db (k a s) p (q a s)
    Ran-and_then db fault k p q = tt
    Ran-and_then db hang k p q = tt

    Ran-on_net : {A : Type 0} (t : Thread N) (r : Res N A) → Ran t.db (on_net (λ _. r) t)
    unfolding Ran
    Ran-on_net t (ok a n) = none_yet t.db
    Ran-on_net t fault = tt
    Ran-on_net t hang = tt

    Ran-on_db :
        {A : Type 0} (t : Thread N) (r : Res Db A)
        → ((d : Db) (a : A) → r ≡ ok a d → Call t.db d)
        → Ran t.db (on_db (λ _. r) t)
    unfolding Ran
    Ran-on_db t (ok a d) p = one t.db d (p d a refl)
    Ran-on_db t fault p = tt
    Ran-on_db t hang p = tt

    pub Calling-bind :
        {A B : Type 0} (m : Cmd (Thread N) A) (k : A → Cmd (Thread N) B)
        → Calling m
        → ((a : A) → Calling (k a))
        → Calling (m >>= k)
    Calling-bind m k p q t = Ran-and_then t.db (m t) k (p t) q

    pub Calling-on_net : {A : Type 0} (m : Cmd N A) → Calling (on_net m)
    Calling-on_net m t = Ran-on_net t (m t.net)

    pub Calling-if :
        {A : Type 0} (b : Bool) (m k : Cmd (Thread N) A)
        → (b ≡ true → Calling m)
        → (b ≡ false → Calling k)
        → Calling (if b then m else k)
    Calling-if true m k p q = p refl
    Calling-if false m k p q = q refl

    pub Calling-on_db :
        {A : Type 0} (m : Cmd Db A)
        → ((db db' : Db) (a : A) → m db ≡ ok a db' → Call db db')
        → Calling (on_db m)
    Calling-on_db m p t = Ran-on_db t (m t.db) (λ d a e. p t.db d a e)
