-- ===== src/Server/Requests.antt =====
-- The requests of a client of myjql/main/myjqlserver.c, one theorem for each.
use mathlib.Core.List.{append_assoc}
use course_pj.Base.{
  ℕ, ◌<◌, ◌≡◌, refl, ◌∙◌, ap, true, List, ◌++◌, arith, length, Bytes, int_bytes, ok, run_bind, pure,
  ltb, if◌then◌else◌,
}
use course_pj.Net.{Sockets, send_code, int_max}
use course_pj.Net.Reliable.{Reliable, send_code-state}
use course_pj.MyJql.{Db, Limits, myjql_get, myjql_set, myjql_del}
use course_pj.Server.{
  value_buffer, next, left, on_net, when_sent, serve_request, dispatch, serve_get, serve_set,
  serve_del, serve_exit, get_text, set_text, del_text, with_text, max_str_len,
}
use course_pj.Server.Replies.{
  text_bytes, get_request, set_request, del_request, c_string, thread, after_call, after_get,
  with_text-state, get_text-state, set_text-state, del_text-state, dispatch-state, on_net-state,
}

module _ {N : Type 0} {sockets : Sockets N} (good : Reliable sockets) (garbage : Bytes)
    (limits : Limits) where
  -- A whole `get` request is read. A key of more than 1024 bytes is answered by 2 and the database is
  -- not called; else it is called once with the key, and the answer is 0 if it has no value, or 1 with
  -- the length and the bytes of the value. What follows the request is left to be read, and a call
  -- that does not return, or a length that the buffer does not have, is passed on.
  pub serve_request-get :
      (code : ℕ) (key rest out : List ℕ) (db : Db)
      → length key < int_max
      → serve_request sockets garbage limits code
          (thread good garbage limits (get_request key ++ rest) out db)
        ≡ (if ltb max_str_len (length key)
            then ok (next 2) (thread good garbage limits rest (out ++ int_bytes 2) db)
            else after_get good garbage limits rest out (
                myjql_get garbage limits
                  (c_string garbage key)
                  (value_buffer garbage)
                  max_str_len
                  db))
  unfolding dispatch serve_get
  serve_request-get code key rest out db h =
      dispatch-state good garbage limits code 0 (text_bytes key ++ rest) out db _ (omega arith) (
        with_text-state good garbage limits 0 (get_text sockets garbage limits) key rest out db h
        ∙ get_text-state good garbage limits (length key) (c_string garbage key) rest out db)

  -- A whole `set` request is read. A key of more than 1024 bytes is answered by 2, else a value of
  -- more by 3, and the database is not called; else it is called once with both, and the answer is 1.
  -- What follows the request is left to be read, and a call that does not return is passed on.
  pub serve_request-set :
      (code : ℕ) (key value rest out : List ℕ) (db : Db)
      → length key < int_max
      → length value < int_max
      → serve_request sockets garbage limits code
          (thread good garbage limits (set_request key value ++ rest) out db)
        ≡ (if ltb max_str_len (length key)
            then ok (next 2) (thread good garbage limits rest (out ++ int_bytes 2) db)
            else if ltb max_str_len (length value)
            then ok (next 3) (thread good garbage limits rest (out ++ int_bytes 3) db)
            else after_call good garbage limits 1 rest out (
                myjql_set garbage limits
                  (c_string garbage key)
                  (length key)
                  (c_string garbage value)
                  (length value)
                  db))
  unfolding dispatch serve_set
  serve_request-set code key value rest out db h g =
      dispatch-state good garbage limits code 1 ((text_bytes key ++ text_bytes value) ++ rest) out
        db _ (omega arith)
        (ap (λ inbox. serve_set sockets garbage limits 1 (thread good garbage limits inbox out db))
            (append_assoc (text_bytes key) (text_bytes value) rest)
          ∙ with_text-state good garbage limits 1
              (λ key_len key.
                with_text sockets garbage limits key_len
                  (λ value_len value. set_text sockets garbage limits key_len key value_len value))
              key (text_bytes value ++ rest) out db h
          ∙ with_text-state good garbage limits (length key)
              (λ value_len.
                set_text sockets garbage limits (length key) (c_string garbage key) value_len)
              value rest out db g
          ∙ set_text-state good garbage limits (length key) (length value) (c_string garbage key)
              (c_string garbage value) rest out db)

  -- A whole `del` request is read. A key of more than 1024 bytes is answered by 2 and the database is
  -- not called; else it is called once with the key, and the answer is 1. What follows the request is
  -- left to be read, and a call that does not return is passed on.
  pub serve_request-del :
      (code : ℕ) (key rest out : List ℕ) (db : Db)
      → length key < int_max
      → serve_request sockets garbage limits code
          (thread good garbage limits (del_request key ++ rest) out db)
        ≡ (if ltb max_str_len (length key)
            then ok (next 2) (thread good garbage limits rest (out ++ int_bytes 2) db)
            else after_call good garbage limits 1 rest out
                (myjql_del garbage limits (c_string garbage key) db))
  unfolding dispatch serve_del
  serve_request-del code key rest out db h =
      dispatch-state good garbage limits code 2 (text_bytes key ++ rest) out db _ (omega arith) (
        with_text-state good garbage limits 2 (del_text sockets garbage limits) key rest out db h
        ∙ del_text-state good garbage limits (length key) (c_string garbage key) rest out db)

  -- The last request: 1 is sent, and the thread leaves its loop.
  pub serve_request-exit :
      (code : ℕ) (rest out : List ℕ) (db : Db)
      → serve_request sockets garbage limits code
          (thread good garbage limits (int_bytes 3 ++ rest) out db)
        ≡ ok left (thread good garbage limits rest (out ++ int_bytes 1) db)
  unfolding dispatch serve_exit
  serve_request-exit code rest out db =
      dispatch-state good garbage limits code 3 rest out db _ (omega arith) (
        run_bind (on_net (send_code sockets 1)) (when_sent sockets garbage limits (pure left)) _ _
          true _
          (on_net-state good garbage limits (send_code sockets 1) true rest out rest
            (out ++ int_bytes 1) db (send_code-state good 1 rest out))
          refl)
