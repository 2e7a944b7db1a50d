-- ===== src/Server/Ends.antt =====
-- Connections of myjql/main/myjqlserver.c that do not go on as the protocol says: a negative length,
-- and a client that is gone without its last request.
use course_pj.Base.{
  ℕ, zero, suc, ◌^◌, ◌<◌, ◌≤◌, ◌≡◌, refl, ◌∙◌, true, false, some, List, [], ◌∷◌, ◌++◌, arith, Bytes,
  write, int_bytes, Cmd, ok, fault, hang, run_bind, run_fault, lift_fault, lift_lem, ◌>>=◌, ◌>>◌,
  leb, ==-ne,
}
use course_pj.Net.{Sockets, recv_code, recv_buffer, int_max}
use course_pj.Net.Reliable.{
  Reliable, Ended, recv_code-state, recv_code-end, recv_buffer-negative_nothing,
  recv_buffer-negative_bytes, recv_buffer-end,
}
use course_pj.MyJql.{Db, Limits, myjql_set}
use course_pj.Server.{
  Thread, Outcome, next, on_net, on_db, serve_request, serve_get, serve_set, serve_del, dispatch,
  get_text, set_text, del_text, with_text, reply, instance_thread, proceed, or_fail, terminate,
}
use course_pj.Server.Replies.{thread, dispatch-state, on_net-state}

module _ {N : Type 0} {sockets : Sockets N} (garbage : Bytes) (limits : Limits) where
  module _ (good : Reliable sockets) where
    with_text-negative :
        (code v : ℕ) (k : ℕ → Bytes → Cmd (Thread N) Outcome) (rest out xs : List ℕ) (n : N)
        (db : Db)
        → 2 ^ 31 ≤ v
        → v < 2 ^ 32
        → sockets.recv v (good.state rest out) ≡ (some xs, n)
        → with_text sockets garbage limits code k
            (thread good garbage limits (int_bytes v ++ rest) out db)
          ≡ fault
    unfolding with_text
    with_text-negative code v k rest out xs n db lo hi e =
        run_bind (on_net (recv_code sockets code)) _ _ (thread good garbage limits rest out db)
          (some v) _
          (on_net-state good garbage limits (recv_code sockets code) (some v) _ out rest out db
            (recv_code-state good code v rest out hi))
          (go xs e)
      where
        go :
            (xs : List ℕ)
            → sockets.recv v (good.state rest out) ≡ (some xs, n)
            → (on_net (recv_buffer sockets garbage v)
                  >>= or_fail sockets garbage limits
                      (λ text. terminate sockets garbage limits k v text.1))
                (thread good garbage limits rest out db)
              ≡ fault
        go [] e =
            run_bind (on_net (recv_buffer sockets garbage v)) _
              (thread good garbage limits rest out db) (record { net = n; db = db })
              (some (0, garbage)) fault
              (lift_lem (λ (t : Thread N). t.net) (λ m t. record t { net = m })
                (recv_buffer sockets garbage v) (thread good garbage limits rest out db) _ n
                (recv_buffer-negative_nothing sockets garbage v (good.state rest out) n lo e))
              (let neg : leb (2 ^ 31) v ≡ true = ground arith in rw neg refl)
        go (x ∷ xs) e = run_fault (on_net (recv_buffer sockets garbage v)) _ _ (
            lift_fault (λ (t : Thread N). t.net) (λ m t. record t { net = m })
              (recv_buffer sockets garbage v) (thread good garbage limits rest out db)
              (recv_buffer-negative_bytes sockets garbage v (good.state rest out) n lo x xs e))

    -- A `get`, `set` or `del` whose length of the key is negative as an `int` is not refused: whatever
    -- `recv` gives under that length, if it does not fail, bytes or the end of the text are written
    -- outside of the buffer.
    pub serve_request-negative :
        (code c v : ℕ) (rest out xs : List ℕ) (n : N) (db : Db)
        → c < 3
        → 2 ^ 31 ≤ v
        → v < 2 ^ 32
        → sockets.recv v (good.state rest out) ≡ (some xs, n)
        → serve_request sockets garbage limits code
            (thread good garbage limits (int_bytes c ++ (int_bytes v ++ rest)) out db)
          ≡ fault
    unfolding dispatch serve_get serve_set serve_del
    serve_request-negative code zero v rest out xs n db three lo hi e =
        dispatch-state good garbage limits code 0 (int_bytes v ++ rest) out db fault (omega arith)
          (with_text-negative 0 v (get_text sockets garbage limits) rest out xs n db lo hi e)
    serve_request-negative code (suc zero) v rest out xs n db three lo hi e =
        dispatch-state good garbage limits code 1 (int_bytes v ++ rest) out db fault (omega arith) (
          with_text-negative 1 v
            (λ key_len key.
              with_text sockets garbage limits key_len
                (λ value_len value. set_text sockets garbage limits key_len key value_len value))
            rest out xs n db lo hi e)
    serve_request-negative code (suc (suc zero)) v rest out xs n db three lo hi e =
        dispatch-state good garbage limits code 2 (int_bytes v ++ rest) out db fault (omega arith)
          (with_text-negative 2 v (del_text sockets garbage limits) rest out xs n db lo hi e)
    serve_request-negative code (suc (suc (suc c))) v rest out xs n db three lo hi e = ground arith

  module _ {n : N} (end : Ended sockets n) where
    abbrev pub ended : Db → Thread N
    ended db = record { net = n; db = db }

    dispatch-end :
        (code : ℕ) (db : Db)
        → code < 2 ^ 32
        → serve_request sockets garbage limits code (ended db)
          ≡ dispatch sockets garbage limits code (ended db)
    unfolding serve_request
    dispatch-end code db h =
        run_bind (on_net (recv_code sockets code)) _ _ (ended db) (some code) _
          (lift_lem (λ (t : Thread N). t.net) (λ m t. record t { net = m }) (recv_code sockets code)
            (ended db) (some code) n (recv_code-end end code h))
          refl

    -- A thread whose client is gone, with a `code` that is no request, goes on for ever: in no number
    -- of rounds does it return.
    pub instance_thread-hang :
        (rounds_left code : ℕ) (db : Db)
        → 3 < code
        → code < 2 ^ 32
        → instance_thread sockets garbage limits rounds_left code (ended db) ≡ hang
    unfolding instance_thread dispatch proceed
    instance_thread-hang zero code db lo hi = refl
    instance_thread-hang (suc rounds_left) code db lo hi =
        let passed : dispatch sockets garbage limits code (ended db) ≡ ok (next code) (ended db) =
          rw
            (
              ==-ne code 0 (λ e. omega (arith, e)),
              ==-ne code 1 (λ e. omega (arith, e)),
              ==-ne code 2 (λ e. omega (arith, e)),
              ==-ne code 3 (λ e. omega (arith, e)),
            )
            refl in
        run_bind (serve_request sockets garbage limits code)
          (proceed sockets garbage limits (instance_thread sockets garbage limits rounds_left))
          (ended db) (ended db) (next code) hang (dispatch-end code db hi ∙ passed)
          (instance_thread-hang rounds_left code db lo hi)

    with_text-end :
        (code : ℕ) (k : ℕ → Bytes → Cmd (Thread N) Outcome) (db : Db)
        → code < int_max
        → with_text sockets garbage limits code k (ended db)
          ≡ k code (write garbage code 0) (ended db)
    unfolding with_text
    with_text-end code k db h =
        run_bind (on_net (recv_code sockets code)) _ _ (ended db) (some code) _
          (lift_lem (λ (t : Thread N). t.net) (λ m t. record t { net = m }) (recv_code sockets code)
            (ended db) (some code) n (recv_code-end end code (omega arith)))
          (run_bind (on_net (recv_buffer sockets garbage code)) _ _ (ended db) (some (0, garbage)) _
            (lift_lem (λ (t : Thread N). t.net) (λ m t. record t { net = m })
              (recv_buffer sockets garbage code) (ended db) (some (0, garbage)) n
              (recv_buffer-end end garbage code h))
            (let low : leb (2 ^ 31) code ≡ false = ground arith in rw low refl))

    -- A thread with 1 in `code`, which a set or a del that was answered by 1 leaves there, and whose
    -- client is gone takes this for another `set`: it stores a value of length 1 under a key of length
    -- 1, both of them what `malloc` left in their buffers, and only then sends an answer.
    pub serve_request-stale :
        (db : Db)
        → serve_request sockets garbage limits 1 (ended db)
          ≡ (on_db (myjql_set garbage limits (write garbage 1 0) 1 (write garbage 1 0) 1)
                >> reply sockets garbage limits 1)
              (ended db)
    unfolding dispatch serve_set set_text
    serve_request-stale db =
        dispatch-end 1 db (omega arith)
        ∙ with_text-end 1
            (λ key_len key.
              with_text sockets garbage limits key_len
                (λ value_len value. set_text sockets garbage limits key_len key value_len value))
            db (omega arith)
        ∙ with_text-end 1
            (λ value_len. set_text sockets garbage limits 1 (write garbage 1 0) value_len) db
            (omega arith)
