-- ===== src/Server/Rounds.antt =====
-- No round of `InstanceThread` of myjql/main/myjqlserver.c touches the database but by its calls.
use course_pj.Base.{
  int_minus_one, ℕ, Bool, true, false, Option, none, some, arith, Bytes, Cmd, pure, crash, ◌>>=◌,
  ◌==◌, ltb, load_list, leb, write, ◌^◌,
}
use course_pj.Net.{Sockets, recv_code, recv_buffer, send_code, send_bytes}
use course_pj.MyJql.{Limits, myjql_get, myjql_set, myjql_del}
use course_pj.Server.{
  value_buffer, Thread, Outcome, next, left, on_net, on_db, with_text, reply, reply_value, get_text,
  set_text, del_text, serve_request, serve_get, serve_set, serve_del, serve_exit, dispatch,
  int_of_size, max_str_len, or_fail, when_sent, fail,
}
use course_pj.Server.Calls.{
  got, stored, deleted, none_yet, Ran, Calling, Calling-pure, Calling-bind, Calling-on_net,
  Calling-on_db, Calling-if,
}

module _ {N : Type 0} (sockets : Sockets N) (garbage : Bytes) (limits : Limits) where
  Calling-crash : Calling garbage limits sockets (crash {A = Outcome})
  unfolding Ran
  Calling-crash t = tt

  Calling-fail : Calling garbage limits sockets (fail sockets garbage limits)
  unfolding Ran
  Calling-fail t = none_yet t.db

  Calling-or_fail :
      {A : Type 0} (k : A → Cmd (Thread N) Outcome) (a : Option A)
      → ((a : A) → Calling garbage limits sockets (k a))
      → Calling garbage limits sockets (or_fail sockets garbage limits k a)
  Calling-or_fail k none p = Calling-fail
  Calling-or_fail k (some a) p = p a

  Calling-when_sent :
      (k : Cmd (Thread N) Outcome) (sent : Bool)
      → Calling garbage limits sockets k
      → Calling garbage limits sockets (when_sent sockets garbage limits k sent)
  Calling-when_sent k true p = p
  Calling-when_sent k false p = Calling-fail

  Calling-sent :
      (m : Cmd N Bool) (k : Cmd (Thread N) Outcome)
      → Calling garbage limits sockets k
      → Calling garbage limits sockets (on_net m >>= when_sent sockets garbage limits k)
  Calling-sent m k p =
      Calling-bind garbage limits sockets (on_net m) (when_sent sockets garbage limits k)
        (Calling-on_net garbage limits sockets m) (λ sent. Calling-when_sent k sent p)

  Calling-reply : (c : ℕ) → Calling garbage limits sockets (reply sockets garbage limits c)
  unfolding reply
  Calling-reply c =
      Calling-sent (send_code sockets c) (pure (next c))
        (Calling-pure garbage limits sockets (next c))

  Calling-with_text :
      (code : ℕ) (k : ℕ → Bytes → Cmd (Thread N) Outcome)
      → ((len : ℕ) (text : Bytes) → Calling garbage limits sockets (k len text))
      → Calling garbage limits sockets (with_text sockets garbage limits code k)
  unfolding with_text
  Calling-with_text code k p =
      Calling-bind garbage limits sockets (on_net (recv_code sockets code)) _
        (Calling-on_net garbage limits sockets (recv_code sockets code))
        (λ len. Calling-or_fail _ len (λ len.
          Calling-bind garbage limits sockets (on_net (recv_buffer sockets garbage len)) _
            (Calling-on_net garbage limits sockets (recv_buffer sockets garbage len))
            (λ text. Calling-or_fail _ text (λ text.
              Calling-if garbage limits sockets (leb (2 ^ 31) len) crash _ (λ e. Calling-crash)
                (λ e. p len (write text.1 len 0))))))

  Calling-reply_value :
      (value_len : ℕ) (value : Bytes)
      → Calling garbage limits sockets (reply_value sockets garbage limits value_len value)
  unfolding reply_value
  Calling-reply_value len value = Calling-sent (send_code sockets 1) _ (
      Calling-sent (send_code sockets len) _ (
        Calling-sent (send_bytes sockets (load_list value 0 len)) _ (
          Calling-if garbage limits sockets (ltb max_str_len len) crash (pure (next len))
            (λ e. Calling-crash) (λ e. Calling-pure garbage limits sockets (next len)))))

  Calling-get_text :
      (len : ℕ) (key : Bytes)
      → Calling garbage limits sockets (get_text sockets garbage limits len key)
  unfolding get_text
  Calling-get_text len key =
      Calling-if garbage limits sockets (ltb max_str_len len) (reply sockets garbage limits 2) _
        (λ e. Calling-reply 2)
        (λ e.
          Calling-bind garbage limits sockets
            (on_db (myjql_get garbage limits key (value_buffer garbage) max_str_len)) _
            (Calling-on_db garbage limits sockets
              (myjql_get garbage limits key (value_buffer garbage) max_str_len)
              (λ db db' r f. got key (value_buffer garbage) db db' r f))
            (λ r.
              Calling-if garbage limits sockets (int_of_size r.0 == int_minus_one)
                (reply sockets garbage limits 0) _ (λ f. Calling-reply 0)
                (λ f. Calling-reply_value (int_of_size r.0) r.1)))

  Calling-set_text :
      (key_len : ℕ) (key : Bytes) (value_len : ℕ) (value : Bytes)
      → Calling garbage limits sockets (set_text sockets garbage limits key_len key value_len value)
  unfolding set_text
  Calling-set_text key_len key value_len value =
      Calling-if garbage limits sockets (ltb max_str_len key_len) (reply sockets garbage limits 2) _
        (λ e. Calling-reply 2)
        (λ e.
          Calling-if garbage limits sockets (ltb max_str_len value_len)
            (reply sockets garbage limits 3) _ (λ f. Calling-reply 3)
            (λ f.
              Calling-bind garbage limits sockets
                (on_db (myjql_set garbage limits key key_len value value_len)) _
                (Calling-on_db garbage limits sockets
                  (myjql_set garbage limits key key_len value value_len)
                  (λ db db' r g.
                    stored key key_len value value_len db db' (ground arith) (ground arith) g))
                (λ r. Calling-reply 1)))

  Calling-del_text :
      (len : ℕ) (key : Bytes)
      → Calling garbage limits sockets (del_text sockets garbage limits len key)
  unfolding del_text
  Calling-del_text len key =
      Calling-if garbage limits sockets (ltb max_str_len len) (reply sockets garbage limits 2) _
        (λ e. Calling-reply 2)
        (λ e.
          Calling-bind garbage limits sockets (on_db (myjql_del garbage limits key)) _
            (Calling-on_db garbage limits sockets (myjql_del garbage limits key)
              (λ db db' r f. deleted key db db' f))
            (λ r. Calling-reply 1))

  Calling-dispatch :
      (code : ℕ) → Calling garbage limits sockets (dispatch sockets garbage limits code)
  unfolding dispatch serve_get serve_set serve_del serve_exit
  Calling-dispatch code =
      Calling-if garbage limits sockets (code == 0) (serve_get sockets garbage limits code) _
        (λ e. Calling-with_text code _ Calling-get_text)
        (λ e.
          Calling-if garbage limits sockets (code == 1) (serve_set sockets garbage limits code) _
            (λ e. Calling-with_text code _ (λ key_len key.
              Calling-with_text key_len _
                (λ value_len value. Calling-set_text key_len key value_len value)))
            (λ e.
              Calling-if garbage limits sockets (code == 2) (serve_del sockets garbage limits code)
                _ (λ e. Calling-with_text code _ Calling-del_text)
                (λ e.
                  Calling-if garbage limits sockets (code == 3) (serve_exit sockets garbage limits)
                    (pure (next code))
                    (λ e.
                      Calling-sent (send_code sockets 1) (pure left)
                        (Calling-pure garbage limits sockets left))
                    (λ e. Calling-pure garbage limits sockets (next code)))))

  -- A round calls the database or leaves it alone, whatever comes in.
  pub Calling-serve_request :
      (code : ℕ) → Calling garbage limits sockets (serve_request sockets garbage limits code)
  unfolding serve_request
  Calling-serve_request code =
      Calling-bind garbage limits sockets (on_net (recv_code sockets code)) _
        (Calling-on_net garbage limits sockets (recv_code sockets code))
        (λ c. Calling-or_fail _ c Calling-dispatch)
