-- ===== src/Server/Sessions.antt =====
-- Whole sessions of a client of myjql/main/myjqlserver.c: its requests one after another, then the
-- last one.
use mathlib.Core.List.{append_assoc}
use course_pj.Base.{
  int_minus_one, ℕ, suc, ◌<◌, ◌≤◌, ◌≡◌, refl, sym, ◌∙◌, ap, true, false, List, [], ◌∷◌, ◌++◌, arith,
  length, Bytes, load_list, int_bytes, ok, run_bind, ◌==◌, ltb,
}
use course_pj.Net.{Sockets, int_max}
use course_pj.Net.Reliable.{Reliable}
use course_pj.MyJql.{Db, Limits, myjql_get, myjql_set, myjql_del}
use course_pj.Server.{
  value_buffer, next, left, serve_request, instance_thread, proceed, shut, max_str_len, int_of_size,
}
use course_pj.Server.Replies.{get_request, set_request, del_request, c_string, thread}
use course_pj.Server.Requests.{
  serve_request-get, serve_request-set, serve_request-del, serve_request-exit,
}

pub data Request : Type 0 where
  get : List ℕ → Request
  set : List ℕ → List ℕ → Request
  del : List ℕ → Request

abbrev pub request_bytes : Request → List ℕ
request_bytes (get key) = get_request key
request_bytes (set key value) = set_request key value
request_bytes (del key) = del_request key

-- What the protocol promises: the answer to a request, and what becomes of the database. A text that
-- is too long leaves it alone.
module _ (garbage : Bytes) (limits : Limits) where
  pub data Answered : Request → Db → List ℕ → Db → Type 0 where
    long_get :
        (key : List ℕ) (db : Db)
        → max_str_len < length key
        → length key < int_max
        → Answered (get key) db (int_bytes 2) db
    missing :
        (key : List ℕ) (db db' : Db) (size : ℕ) (value : Bytes)
        → length key ≤ max_str_len
        → myjql_get garbage limits (c_string garbage key) (value_buffer garbage) max_str_len db
          ≡ ok (size, value) db'
        → int_of_size size ≡ int_minus_one
        → Answered (get key) db (int_bytes 0) db'
    found :
        (key : List ℕ) (db db' : Db) (size : ℕ) (value : Bytes)
        → length key ≤ max_str_len
        → size ≤ max_str_len
        → myjql_get garbage limits (c_string garbage key) (value_buffer garbage) max_str_len db
          ≡ ok (size, value) db'
        → Answered (get key) db (int_bytes 1 ++ (int_bytes size ++ load_list value 0 size)) db'
    long_key :
        (key value : List ℕ) (db : Db)
        → max_str_len < length key
        → length key < int_max
        → length value < int_max
        → Answered (set key value) db (int_bytes 2) db
    long_value :
        (key value : List ℕ) (db : Db)
        → length key ≤ max_str_len
        → max_str_len < length value
        → length value < int_max
        → Answered (set key value) db (int_bytes 3) db
    stored :
        (key value : List ℕ) (db db' : Db)
        → length key ≤ max_str_len
        → length value ≤ max_str_len
        → myjql_set garbage limits
            (c_string garbage key)
            (length key)
            (c_string garbage value)
            (length value)
            db
          ≡ ok tt db'
        → Answered (set key value) db (int_bytes 1) db'
    long_del :
        (key : List ℕ) (db : Db)
        → max_str_len < length key
        → length key < int_max
        → Answered (del key) db (int_bytes 2) db
    deleted :
        (key : List ℕ) (db db' : Db)
        → length key ≤ max_str_len
        → myjql_del garbage limits (c_string garbage key) db ≡ ok tt db'
        → Answered (del key) db (int_bytes 1) db'

  -- The requests of a session, the answers, and the database before and after.
  pub data Session : List Request → Db → List ℕ → Db → Type 0 where
    over : (db : Db) → Session [] db [] db
    asked :
        (r : Request) (rs : List Request) (a b c : Db) (reply replies : List ℕ)
        → Answered r a reply b
        → Session rs b replies c
        → Session (r ∷ rs) a (reply ++ replies) c

abbrev pub session_bytes : List Request → List ℕ
session_bytes [] = int_bytes 3
session_bytes (r ∷ rs) = request_bytes r ++ session_bytes rs

module _ {N : Type 0} {sockets : Sockets N} (good : Reliable sockets) (garbage : Bytes)
    (limits : Limits) where
  -- Each request is read whole, answered as the protocol promises, and the thread goes on.
  pub serve_request-Answered :
      (code : ℕ) (r : Request) (a b : Db) (bytes rest out : List ℕ)
      → Answered garbage limits r a bytes b
      → (c : ℕ) × (serve_request sockets garbage limits code
            (thread good garbage limits (request_bytes r ++ rest) out a)
          ≡ ok (next c) (thread good garbage limits rest (out ++ bytes) b))
  serve_request-Answered code _ a _ _ rest out (long_get key _ h g) =
      (2, serve_request-get good garbage limits code key rest out a g ∙ ground arith)
  serve_request-Answered code _ a b _ rest out (missing key _ _ size value h e f) = (
    0,
    serve_request-get good garbage limits code key rest out a (omega arith)
        ∙ (let short : ltb max_str_len (length key) ≡ false = ground arith in
            let none : (int_of_size size == int_minus_one) ≡ true = ground arith in
            rw (short, e, none) refl),
  )
  serve_request-Answered code _ a b _ rest out (found key _ _ size value h g e) = (
    size,
    serve_request-get good garbage limits code key rest out a (omega arith)
        ∙ (let short : ltb max_str_len (length key) ≡ false = ground arith in
            let fits : ltb max_str_len size ≡ false = ground arith in
            let some_value : (size == int_minus_one) ≡ false = ground arith in
            let same_size : int_of_size size ≡ size = omega arith in
            rw (short, e, same_size, some_value, fits) refl),
  )
  serve_request-Answered code _ a _ _ rest out (long_key key value _ h g f) =
      (2, serve_request-set good garbage limits code key value rest out a g f ∙ ground arith)
  serve_request-Answered code _ a _ _ rest out (long_value key value _ h g f) = (
    3,
    serve_request-set good garbage limits code key value rest out a (omega arith) f ∙ ground arith,
  )
  serve_request-Answered code _ a b _ rest out (stored key value _ _ h g e) = (
    1,
    serve_request-set good garbage limits code key value rest out a (omega arith) (omega arith)
        ∙ (let short : ltb max_str_len (length key) ≡ false = ground arith in
            let fits : ltb max_str_len (length value) ≡ false = ground arith in
            rw (short, fits, e) refl),
  )
  serve_request-Answered code _ a _ _ rest out (long_del key _ h g) =
      (2, serve_request-del good garbage limits code key rest out a g ∙ ground arith)
  serve_request-Answered code _ a b _ rest out (deleted key _ _ h e) = (
    1,
    serve_request-del good garbage limits code key rest out a (omega arith)
        ∙ (let short : ltb max_str_len (length key) ≡ false = ground arith in rw (short, e) refl),
  )

  -- A client that sends requests and then the last one, on a connection that loses nothing: the thread
  -- reads them all, answers each of them in order as the protocol promises, leaves the database as the
  -- calls do, sends 1, closes its socket and returns 0, after one round for each.
  pub instance_thread-Session :
      (rs : List Request) (code : ℕ) (a b : Db) (replies rest out : List ℕ)
      → Session garbage limits rs a replies b
      → instance_thread sockets garbage limits
          (suc (length rs))
          code
          (thread good garbage limits (session_bytes rs ++ rest) out a)
        ≡ ok 0 (record {
          net = sockets.closesocket (good.state rest (out ++ (replies ++ int_bytes 1)));
          db = b;
        })
  unfolding instance_thread proceed shut
  instance_thread-Session _ code a _ _ rest out (over _) =
      run_bind (serve_request sockets garbage limits code)
        (proceed sockets garbage limits (instance_thread sockets garbage limits 0)) _
        (thread good garbage limits rest (out ++ int_bytes 1) a) left _
        (serve_request-exit good garbage limits code rest out a)
        (rw (good.shuts rest (out ++ int_bytes 1)) refl)
  instance_thread-Session _ code a c _ rest out (asked r rs _ b _ reply replies answer session) =
      let (next_code, served) =
        serve_request-Answered code r a b reply (session_bytes rs ++ rest) out answer in
      run_bind (serve_request sockets garbage limits code)
        (proceed sockets garbage limits (instance_thread sockets garbage limits (suc (length rs))))
        _ (thread good garbage limits (session_bytes rs ++ rest) (out ++ reply) b) (next next_code)
        _
        (ap
            (λ inbox.
              serve_request sockets garbage limits code (thread good garbage limits inbox out a))
            (append_assoc (request_bytes r) (session_bytes rs) rest)
          ∙ served)
        (instance_thread-Session rs next_code b c replies rest (out ++ reply) session
          ∙ ap
              (λ bytes. ok 0 (record { net = sockets.closesocket (good.state rest bytes); db = c }))
              (append_assoc out reply (replies ++ int_bytes 1)
                ∙ ap (λ bytes. out ++ bytes) (sym (append_assoc reply replies (int_bytes 1)))))
