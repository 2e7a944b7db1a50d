-- ===== src/Server/Replies.antt =====
-- What a thread of myjql/main/myjqlserver.c answers to a whole request on a connection that loses
-- nothing.
use mathlib.Core.List.{append_assoc}
use course_pj.Base.{
  int_minus_one, ℕ, ◌^◌, ◌<◌, ◌≡◌, refl, ◌∙◌, ap, true, false, some, List, ◌++◌, arith, length,
  Bytes, write, store_list, load_list, int_bytes, Res, Cmd, ok, fault, hang, run_bind, lift_lem,
  pure, ◌>>=◌, ◌>>◌, ◌==◌, ltb, leb, if◌then◌else◌, Bool-cases, inl, inr,
}
use course_pj.Net.{Sockets, recv_code, recv_buffer, send_code, send_bytes, int_max}
use course_pj.Net.Reliable.{
  Reliable, recv_code-state, recv_buffer-state, send_code-state, send_bytes-state,
}
use course_pj.MyJql.{Db, Limits, myjql_get, myjql_set, myjql_del}
use course_pj.Server.{
  value_buffer, Thread, Outcome, next, on_net, on_db, with_text, reply, reply_value, get_text,
  set_text, del_text, serve_request, dispatch, int_of_size, max_str_len, when_sent,
}

-- The bytes of a text with its length before it, and of the four requests.
abbrev pub text_bytes : List ℕ → List ℕ
text_bytes xs = int_bytes (length xs) ++ xs

abbrev pub get_request : List ℕ → List ℕ
get_request key = int_bytes 0 ++ text_bytes key

abbrev pub set_request : List ℕ → List ℕ → List ℕ
set_request key value = int_bytes 1 ++ (text_bytes key ++ text_bytes value)

abbrev pub del_request : List ℕ → List ℕ
del_request key = int_bytes 2 ++ text_bytes key

-- A text as it stands in a buffer that held `garbage`.
abbrev pub c_string : Bytes → List ℕ → Bytes
c_string garbage xs = write (store_list garbage 0 xs) (length xs) 0

module _ {N : Type 0} {sockets : Sockets N} (good : Reliable sockets) (garbage : Bytes)
    (limits : Limits) where
  -- A thread whose socket has `inbox` to read and `out` written.
  abbrev pub thread : List ℕ → List ℕ → Db → Thread N
  thread inbox out db = record { net = good.state inbox out; db = db }

  pub on_net-state :
      {A : Type 0} (m : Cmd N A) (a : A) (inbox out inbox' out' : List ℕ) (db : Db)
      → m (good.state inbox out) ≡ ok a (good.state inbox' out')
      → on_net m (thread inbox out db) ≡ ok a (thread inbox' out' db)
  on_net-state m a inbox out inbox' out' db e =
      lift_lem (λ (t : Thread N). t.net) (λ n t. record t { net = n }) m (thread inbox out db) a _ e

  pub reply-state :
      (c : ℕ) (inbox out : List ℕ) (db : Db)
      → reply sockets garbage limits c (thread inbox out db)
        ≡ ok (next c) (thread inbox (out ++ int_bytes c) db)
  unfolding reply
  reply-state c inbox out db =
      run_bind (on_net (send_code sockets c)) (when_sent sockets garbage limits (pure (next c))) _ _
        true _
        (on_net-state (send_code sockets c) true inbox out inbox (out ++ int_bytes c) db
          (send_code-state good c inbox out))
        refl

  pub with_text-state :
      (code : ℕ) (k : ℕ → Bytes → Cmd (Thread N) Outcome) (xs rest out : List ℕ) (db : Db)
      → length xs < int_max
      → with_text sockets garbage limits code k (thread (text_bytes xs ++ rest) out db)
        ≡ k (length xs) (c_string garbage xs) (thread rest out db)
  unfolding with_text
  with_text-state code k xs rest out db h =
      run_bind (on_net (recv_code sockets code)) _ _ (thread (xs ++ rest) out db) (some (length xs))
        _
        (on_net-state (recv_code sockets code) (some (length xs)) _ out _ out db
          (recv_code-state good code (length xs) (xs ++ rest) out (omega arith)))
        (run_bind (on_net (recv_buffer sockets garbage (length xs))) _ _ (thread rest out db)
          (some (length xs, store_list garbage 0 xs)) _
          (on_net-state (recv_buffer sockets garbage (length xs)) _ (xs ++ rest) out rest out db
            (recv_buffer-state good garbage xs rest out h))
          (let low : leb (2 ^ 31) (length xs) ≡ false = ground arith in rw low refl))

  -- What a request ends with after the call of the database: its answer, or the call's fault.
  abbrev pub after_call : ℕ → List ℕ → List ℕ → Res Db (Unit {0}) → Res (Thread N) Outcome
  after_call c rest out (ok _ db) = ok (next c) (thread rest (out ++ int_bytes c) db)
  after_call c rest out fault = fault
  after_call c rest out hang = hang

  -- The answer to a `get`: not found, or the value with its length; a length that the buffer does
  -- not have is a fault.
  abbrev pub value_bytes : ℕ → Bytes → List ℕ
  value_bytes value_len value = int_bytes 1 ++ (int_bytes value_len ++ load_list value 0 value_len)

  abbrev pub after_get : List ℕ → List ℕ → Res Db (ℕ × Bytes) → Res (Thread N) Outcome
  after_get rest out (ok (size, value) db) =
      if int_of_size size == int_minus_one
      then ok (next 0) (thread rest (out ++ int_bytes 0) db)
      else if ltb max_str_len (int_of_size size)
      then fault
      else ok (next (int_of_size size))
          (thread rest (out ++ value_bytes (int_of_size size) value) db)
  after_get rest out fault = fault
  after_get rest out hang = hang

  -- The database is called, and 1 is sent.
  call_reply :
      (rest out : List ℕ) (db : Db) (r : Res Db (Unit {0}))
      → (on_db (λ _. r) >> reply sockets garbage limits 1) (thread rest out db)
        ≡ after_call 1 rest out r
  call_reply rest out db (ok u d) = reply-state 1 rest out d
  call_reply rest out db fault = refl
  call_reply rest out db hang = refl

  pub del_text-state :
      (len : ℕ) (key : Bytes) (rest out : List ℕ) (db : Db)
      → del_text sockets garbage limits len key (thread rest out db) ≡ (
          if ltb max_str_len len
          then ok (next 2) (thread rest (out ++ int_bytes 2) db)
          else after_call 1 rest out (myjql_del garbage limits key db))
  unfolding del_text
  del_text-state len key rest out db = elim (Bool-cases (ltb max_str_len len)) [
    | inl e ↦ rw e (reply-state 2 rest out db)
    | inr e ↦ rw e (call_reply rest out db (myjql_del garbage limits key db))
  ]

  pub set_text-state :
      (key_len value_len : ℕ) (key value : Bytes) (rest out : List ℕ) (db : Db)
      → set_text sockets garbage limits key_len key value_len value (thread rest out db) ≡ (
          if ltb max_str_len key_len
          then ok (next 2) (thread rest (out ++ int_bytes 2) db)
          else if ltb max_str_len value_len
          then ok (next 3) (thread rest (out ++ int_bytes 3) db)
          else after_call 1 rest out (myjql_set garbage limits key key_len value value_len db))
  unfolding set_text
  set_text-state key_len value_len key value rest out db =
      elim (Bool-cases (ltb max_str_len key_len)) [
        | inl e ↦ rw e (reply-state 2 rest out db)
        | inr e ↦ rw e (elim (Bool-cases (ltb max_str_len value_len)) [
          | inl f ↦ rw f (reply-state 3 rest out db)
          | inr f ↦
              rw f
                (call_reply rest out db (myjql_set garbage limits key key_len value value_len db))
        ])
      ]

  reply_value-state :
      (len : ℕ) (value : Bytes) (rest out : List ℕ) (db : Db)
      → reply_value sockets garbage limits len value (thread rest out db) ≡ (
          if ltb max_str_len len
          then fault
          else ok (next len) (thread rest (out ++ value_bytes len value) db))
  unfolding reply_value
  reply_value-state len value rest out db =
      run_bind (on_net (send_code sockets 1)) _ _ (thread rest (out ++ int_bytes 1) db) true _
        (on_net-state (send_code sockets 1) true _ _ _ _ db (send_code-state good 1 rest out))
        (run_bind (on_net (send_code sockets len)) _ _
          (thread rest ((out ++ int_bytes 1) ++ int_bytes len) db) true _
          (on_net-state (send_code sockets len) true _ _ _ _ db
            (send_code-state good len rest (out ++ int_bytes 1)))
          (run_bind (on_net (send_bytes sockets (load_list value 0 len))) _ _
            (thread rest (((out ++ int_bytes 1) ++ int_bytes len) ++ load_list value 0 len) db) true
            _
            (on_net-state (send_bytes sockets (load_list value 0 len)) true _ _ _ _ db (
              send_bytes-state good (load_list value 0 len) rest
                ((out ++ int_bytes 1) ++ int_bytes len)))
            (elim (Bool-cases (ltb max_str_len len)) [
              | inl e ↦ rw e refl
              | inr e ↦ rw e (
                  ap (λ o. ok (next len) (thread rest o db))
                    (append_assoc (out ++ int_bytes 1) (int_bytes len) (load_list value 0 len)
                      ∙ append_assoc out (int_bytes 1) (int_bytes len ++ load_list value 0 len)))
            ])))

  pub get_text-state :
      (len : ℕ) (key : Bytes) (rest out : List ℕ) (db : Db)
      → get_text sockets garbage limits len key (thread rest out db) ≡ (
          if ltb max_str_len len
          then ok (next 2) (thread rest (out ++ int_bytes 2) db)
          else after_get rest out
              (myjql_get garbage limits key (value_buffer garbage) max_str_len db))
  unfolding get_text
  get_text-state len key rest out db = elim (Bool-cases (ltb max_str_len len)) [
    | inl e ↦ rw e (reply-state 2 rest out db)
    | inr e ↦ rw e (go (myjql_get garbage limits key (value_buffer garbage) max_str_len db))
  ]
    where
      go :
          (r : Res Db (ℕ × Bytes))
          → (on_db (λ _. r) >>= (λ p.
                if int_of_size p.0 == int_minus_one
                then reply sockets garbage limits 0
                else reply_value sockets garbage limits (int_of_size p.0) p.1))
              (thread rest out db)
            ≡ after_get rest out r
      go (ok (size, value) d) = elim (Bool-cases (int_of_size size == int_minus_one)) [
        | inl f ↦ rw f (reply-state 0 rest out d)
        | inr f ↦ rw f (reply_value-state (int_of_size size) value rest out d)
      ]
      go fault = refl
      go hang = refl

  pub dispatch-state :
      (code c : ℕ) (rest out : List ℕ) (db : Db) (r : Res (Thread N) Outcome)
      → c < 2 ^ 32
      → dispatch sockets garbage limits c (thread rest out db) ≡ r
      → serve_request sockets garbage limits code (thread (int_bytes c ++ rest) out db) ≡ r
  unfolding serve_request
  dispatch-state code c rest out db r h e =
      run_bind (on_net (recv_code sockets code)) _ _ (thread rest out db) (some c) r
        (on_net-state (recv_code sockets code) (some c) _ out rest out db
          (recv_code-state good code c rest out h))
        e
