-- ===== src/Server/Closing.antt =====
-- How a thread of myjql/main/myjqlserver.c ends, whatever its socket does.
use mathlib.Core.Path.{subst}
use course_pj.Base.{
  int_minus_one, ℕ, zero, suc, ◌≡◌, refl, Bool, true, false, Option, none, some, Bytes, Res, Cmd,
  ok, fault, hang, and_then, pure, crash, ◌>>=◌, ◌==◌, leb, ltb, if◌then◌else◌, write, ◌^◌,
  load_list,
}
use course_pj.Net.{Sockets, recv_code, recv_buffer, send_code, send_bytes}
use course_pj.MyJql.{Limits, myjql_get, myjql_set, myjql_del}
use course_pj.Server.{
  value_buffer, Thread, Outcome, next, left, failed, on_net, on_db, with_text, reply, reply_value,
  get_text, set_text, del_text, serve_request, serve_get, serve_set, serve_del, serve_exit,
  dispatch, int_of_size, max_str_len, or_fail, when_sent, fail, instance_thread, proceed, shut,
}

module _ {N : Type 0} (sockets : Sockets N) where
  -- The last thing that was done to the socket is to close it.
  pub record Closed (t : Thread N) : Type 0 where
    pub before : N
    pub closed : t.net ≡ sockets.closesocket before

  -- A round that ends the thread has closed its socket.
  unfoldable pub Shut : Res (Thread N) Outcome → Type 0
  Shut (ok (next c) t) = Unit {0}
  Shut (ok left t) = Unit {0}
  Shut (ok failed t) = Closed t
  Shut fault = Unit {0}
  Shut hang = Unit {0}

  abbrev pub Shutting : Cmd (Thread N) Outcome → Type 0
  Shutting m = (t : Thread N) → Shut (m t)

  Shut-and_then :
      {A : Type 0} (r : Res (Thread N) A) (k : A → Cmd (Thread N) Outcome)
      → ((a : A) → Shutting (k a))
      → Shut (and_then r k)
  unfolding Shut
  Shut-and_then (ok a t) k p = p a t
  Shut-and_then fault k p = tt
  Shut-and_then hang k p = tt

  -- What comes before does not matter.
  Shutting-bind :
      {A : Type 0} (m : Cmd (Thread N) A) (k : A → Cmd (Thread N) Outcome)
      → ((a : A) → Shutting (k a))
      → Shutting (m >>= k)
  Shutting-bind m k p t = Shut-and_then (m t) k p

  Shutting-next : (c : ℕ) → Shutting (pure (next c))
  unfolding Shut
  Shutting-next c t = tt

  Shutting-left : Shutting (pure left)
  unfolding Shut
  Shutting-left t = tt

  Shutting-crash : Shutting (crash {A = Outcome})
  unfolding Shut
  Shutting-crash t = tt

  Shutting-if :
      (b : Bool) (m k : Cmd (Thread N) Outcome)
      → Shutting m
      → Shutting k
      → Shutting (if b then m else k)
  Shutting-if true m k p q = p
  Shutting-if false m k p q = q

  module _ (garbage : Bytes) (limits : Limits) where
    Shutting-fail : Shutting (fail sockets garbage limits)
    unfolding Shut
    Shutting-fail t = record { before = t.net; closed = refl }

    Shutting-or_fail :
        {A : Type 0} (k : A → Cmd (Thread N) Outcome) (a : Option A)
        → ((a : A) → Shutting (k a))
        → Shutting (or_fail sockets garbage limits k a)
    Shutting-or_fail k none p = Shutting-fail
    Shutting-or_fail k (some a) p = p a

    Shutting-sent :
        (m : Cmd N Bool) (k : Cmd (Thread N) Outcome)
        → Shutting k
        → Shutting (on_net m >>= when_sent sockets garbage limits k)
    Shutting-sent m k p = Shutting-bind (on_net m) (when_sent sockets garbage limits k) (λ sent.
        elim sent as (λ b. Shutting (when_sent sockets garbage limits k b)) [
          | true ↦ p
          | false ↦ Shutting-fail
        ])

    Shutting-reply : (c : ℕ) → Shutting (reply sockets garbage limits c)
    unfolding reply
    Shutting-reply c = Shutting-sent (send_code sockets c) (pure (next c)) (Shutting-next c)

    Shutting-with_text :
        (code : ℕ) (k : ℕ → Bytes → Cmd (Thread N) Outcome)
        → ((len : ℕ) (text : Bytes) → Shutting (k len text))
        → Shutting (with_text sockets garbage limits code k)
    unfolding with_text
    Shutting-with_text code k p = Shutting-bind (on_net (recv_code sockets code)) _ (λ len.
        Shutting-or_fail _ len (λ len.
          Shutting-bind (on_net (recv_buffer sockets garbage len)) _ (λ text.
            Shutting-or_fail _ text (λ text.
              Shutting-if (leb (2 ^ 31) len) crash _ Shutting-crash (p len (write text.1 len 0))))))

    Shutting-get_text : (len : ℕ) (key : Bytes) → Shutting (get_text sockets garbage limits len key)
    unfolding get_text reply_value
    Shutting-get_text len key =
        Shutting-if (ltb max_str_len len) (reply sockets garbage limits 2) _ (Shutting-reply 2) (
          Shutting-bind (on_db (myjql_get garbage limits key (value_buffer garbage) max_str_len)) _
            (λ r.
              Shutting-if (int_of_size r.0 == int_minus_one) (reply sockets garbage limits 0) _
                (Shutting-reply 0)
                (Shutting-sent (send_code sockets 1) _ (
                  Shutting-sent (send_code sockets (int_of_size r.0)) _ (
                    Shutting-sent (send_bytes sockets (load_list r.1 0 (int_of_size r.0))) _ (
                      Shutting-if (ltb max_str_len (int_of_size r.0)) crash
                        (pure (next (int_of_size r.0))) Shutting-crash
                        (Shutting-next (int_of_size r.0))))))))

    Shutting-set_text :
        (key_len : ℕ) (key : Bytes) (value_len : ℕ) (value : Bytes)
        → Shutting (set_text sockets garbage limits key_len key value_len value)
    unfolding set_text
    Shutting-set_text key_len key value_len value =
        Shutting-if (ltb max_str_len key_len) (reply sockets garbage limits 2) _ (Shutting-reply 2)
          (Shutting-if (ltb max_str_len value_len) (reply sockets garbage limits 3) _
            (Shutting-reply 3)
            (Shutting-bind (on_db (myjql_set garbage limits key key_len value value_len)) _
              (λ r. Shutting-reply 1)))

    Shutting-del_text : (len : ℕ) (key : Bytes) → Shutting (del_text sockets garbage limits len key)
    unfolding del_text
    Shutting-del_text len key =
        Shutting-if (ltb max_str_len len) (reply sockets garbage limits 2) _ (Shutting-reply 2)
          (Shutting-bind (on_db (myjql_del garbage limits key)) _ (λ r. Shutting-reply 1))

    Shutting-dispatch : (code : ℕ) → Shutting (dispatch sockets garbage limits code)
    unfolding dispatch serve_get serve_set serve_del serve_exit
    Shutting-dispatch code =
        Shutting-if (code == 0) _ _ (Shutting-with_text code _ Shutting-get_text) (
          Shutting-if (code == 1) _ _
            (Shutting-with_text code _ (λ key_len key.
              Shutting-with_text key_len _
                (λ value_len value. Shutting-set_text key_len key value_len value)))
            (Shutting-if (code == 2) _ _ (Shutting-with_text code _ Shutting-del_text) (
              Shutting-if (code == 3) _ _
                (Shutting-sent (send_code sockets 1) (pure left) Shutting-left)
                (Shutting-next code))))

    Shutting-serve_request : (code : ℕ) → Shutting (serve_request sockets garbage limits code)
    unfolding serve_request
    Shutting-serve_request code =
        Shutting-bind (on_net (recv_code sockets code)) _
          (λ c. Shutting-or_fail _ c Shutting-dispatch)

    ClosedAt : Res (Thread N) ℕ → Type 0
    ClosedAt (ok v t) = Closed t
    ClosedAt fault = Unit {0}
    ClosedAt hang = Unit {0}

    shut-ClosedAt : (t : Thread N) → ClosedAt (shut sockets garbage limits t)
    unfolding shut ClosedAt
    shut-ClosedAt t = record { before = (sockets.shutdown t.net).1; closed = refl }

    proceed-ClosedAt :
        (r : Res (Thread N) Outcome) (loop : ℕ → Cmd (Thread N) ℕ)
        → Shut r
        → ((c : ℕ) (t : Thread N) → ClosedAt (loop c t))
        → ClosedAt (and_then r (proceed sockets garbage limits loop))
    unfolding ClosedAt Shut proceed
    proceed-ClosedAt (ok (next c) t) loop p q = q c t
    proceed-ClosedAt (ok left t) loop p q = shut-ClosedAt t
    proceed-ClosedAt (ok failed t) loop p q = p
    proceed-ClosedAt fault loop p q = tt
    proceed-ClosedAt hang loop p q = tt

    loop-ClosedAt :
        (rounds_left code : ℕ) (s : Thread N)
        → ClosedAt (instance_thread sockets garbage limits rounds_left code s)
    unfolding instance_thread ClosedAt
    loop-ClosedAt zero code s = tt
    loop-ClosedAt (suc rounds_left) code s =
        proceed-ClosedAt (serve_request sockets garbage limits code s)
          (instance_thread sockets garbage limits rounds_left) (Shutting-serve_request code s)
          (loop-ClosedAt rounds_left)

    -- Whatever its socket and the database do, a thread that returns has closed its socket, on each
    -- way out of its loop, and does nothing more with it.
    pub instance_thread-Closed :
        (rounds_left code v : ℕ) (s t : Thread N)
        → instance_thread sockets garbage limits rounds_left code s ≡ ok v t
        → Closed t
    unfolding ClosedAt
    instance_thread-Closed rounds_left code v s t e =
        subst ClosedAt e (loop-ClosedAt rounds_left code s)
