-- ===== src/Server.antt =====
-- `InstanceThread` of myjql/main/myjqlserver.c: requests over a socket. A thread's
-- state is its socket with the database that all threads share; what it prints is left out. The
-- critical section makes one step of each call of the database.
pub mod Replies
pub mod Requests
pub mod Ends
pub mod Calls
pub mod Rounds
pub mod Sessions
pub mod Threads
pub mod Closing
pub mod Main
use course_pj.Base.{
  ℕ, zero, suc, ◌+◌, ◌-◌, ◌%◌, ◌^◌, Bool, true, false, Option, none, some, ◌==◌, ltb, if◌then◌else◌,
  Bytes, int_is_neg, int_minus_one, write, load_list, Cmd, Res, ok, pure, spin, crash, lift, ◌>>=◌,
  ◌>>◌,
}
use course_pj.Net.{Sockets, recv_code, recv_buffer, send_code, send_bytes}
use course_pj.Str.Read.{Buffer}
use course_pj.MyJql.{Db, Limits, myjql_get, myjql_set, myjql_del}

abbrev pub max_str_len : ℕ
max_str_len = 1024

-- The buffer for a value, `malloc(MAX_STR_LEN + 1)`.
abbrev pub value_buffer : Bytes → Buffer
value_buffer garbage = record { bytes = garbage; room = max_str_len + 1 }

-- `(int)` of a `size_t`.
abbrev pub int_of_size : ℕ → ℕ
int_of_size x = x % 2 ^ 32

pub record Thread (N : Type 0) : Type 0 where
  pub net : N
  pub db : Db

-- What a round of the loop ends with: the value of `code` for the next one, the end of the loop, or
-- a return with 1 after a failed call.
pub data Outcome : Type 0 where
  next : ℕ → Outcome
  left : Outcome
  failed : Outcome

module _ {N : Type 0} where
  abbrev pub on_net : {A : Type 0} → Cmd N A → Cmd (Thread N) A
  on_net = lift (λ t. t.net) (λ n t. record t { net = n })

  abbrev pub on_db : {A : Type 0} → Cmd Db A → Cmd (Thread N) A
  on_db = lift (λ t. t.db) (λ d t. record t { db = d })

module _ {N : Type 0} (sockets : Sockets N) (garbage : Bytes) (limits : Limits) where
  abbrev pub close_socket : Cmd (Thread N) (Unit {0})
  close_socket t = ok tt (record t { net = sockets.closesocket t.net })

  -- The branches under `iResult == SOCKET_ERROR`.
  abbrev pub fail : Cmd (Thread N) Outcome
  fail = do close_socket; pure failed

  abbrev pub or_fail :
      {A : Type 0} → (A → Cmd (Thread N) Outcome) → Option A → Cmd (Thread N) Outcome
  or_fail k none = fail
  or_fail k (some a) = k a

  abbrev pub when_sent : Cmd (Thread N) Outcome → Bool → Cmd (Thread N) Outcome
  when_sent k true = k
  when_sent k false = fail

  -- `code = c;` and its `send`.
  pub reply : ℕ → Cmd (Thread N) Outcome
  reply c = do sent ← on_net (send_code sockets c); when_sent (pure (next c)) sent

  -- `key[code] = 0`; before the buffer with a negative length.
  abbrev pub terminate : (ℕ → Bytes → Cmd (Thread N) Outcome) → ℕ → Bytes → Cmd (Thread N) Outcome
  terminate k code buffer = if int_is_neg code then crash else k code (write buffer code 0)

  -- A length and the text of that length; `k` gets the length and the text with its end.
  pub with_text : ℕ → (ℕ → Bytes → Cmd (Thread N) Outcome) → Cmd (Thread N) Outcome
  with_text code k = do
    len ← on_net (recv_code sockets code)
    or_fail
        (λ len. do
          text ← on_net (recv_buffer sockets garbage len)
          or_fail (λ text. terminate k len text.1) text)
        len

  -- The end of a `get` that found a value.
  pub reply_value : ℕ → Bytes → Cmd (Thread N) Outcome
  reply_value value_len value = do
    sent ← on_net (send_code sockets 1)
    when_sent
        (do
          sent ← on_net (send_code sockets value_len)
          when_sent
              (do
                sent ← on_net (send_bytes sockets (load_list value 0 value_len))
                when_sent (if ltb max_str_len value_len then crash else pure (next value_len)) sent)
              sent)
        sent

  pub get_text : ℕ → Bytes → Cmd (Thread N) Outcome
  unfolding reply reply_value
  get_text code key = if ltb max_str_len code then reply 2 else do
    (size, value) ← on_db (myjql_get garbage limits key (value_buffer garbage) max_str_len)
    let value_len = int_of_size size
    if value_len == int_minus_one then reply 0 else reply_value value_len value

  unfoldable pub serve_get : ℕ → Cmd (Thread N) Outcome
  unfolding with_text get_text
  serve_get code = with_text code get_text

  pub set_text : ℕ → Bytes → ℕ → Bytes → Cmd (Thread N) Outcome
  unfolding reply
  set_text key_len key value_len value =
      if ltb max_str_len key_len
      then reply 2
      else if ltb max_str_len value_len
      then reply 3
      else (do on_db (myjql_set garbage limits key key_len value value_len); reply 1)

  unfoldable pub serve_set : ℕ → Cmd (Thread N) Outcome
  unfolding with_text set_text
  serve_set code =
      with_text code
        (λ key_len key. with_text key_len (λ value_len value. set_text key_len key value_len value))

  pub del_text : ℕ → Bytes → Cmd (Thread N) Outcome
  unfolding reply
  del_text code key =
      if ltb max_str_len code then reply 2 else (do on_db (myjql_del garbage limits key); reply 1)

  unfoldable pub serve_del : ℕ → Cmd (Thread N) Outcome
  unfolding with_text del_text
  serve_del code = with_text code del_text

  unfoldable pub serve_exit : Cmd (Thread N) Outcome
  serve_exit = do sent ← on_net (send_code sockets 1); when_sent (pure left) sent

  -- Any other code is passed over.
  unfoldable pub dispatch : ℕ → Cmd (Thread N) Outcome
  unfolding serve_get serve_set serve_del serve_exit
  dispatch code =
      if code == 0
      then serve_get code
      else if code == 1
      then serve_set code
      else if code == 2
      then serve_del code
      else if code == 3
      then serve_exit
      else pure (next code)

  -- One round of the loop.
  unfoldable pub serve_request : ℕ → Cmd (Thread N) Outcome
  unfolding dispatch
  serve_request code = do c ← on_net (recv_code sockets code); or_fail dispatch c

  -- The end of the thread: the value that it returns.
  pub shut : Cmd (Thread N) ℕ
  shut = do
    done ← on_net (λ n. let (b, n') = sockets.shutdown n in ok b n')
    close_socket
    pure (if done then 0 else 1)

  abbrev pub proceed : (ℕ → Cmd (Thread N) ℕ) → Outcome → Cmd (Thread N) ℕ
  unfolding shut
  proceed loop (next code) = loop code
  proceed loop left = shut
  proceed loop failed = pure 1

  -- The loop, in at most so many rounds, from the value of `code`.
  unfoldable pub instance_thread : ℕ → ℕ → Cmd (Thread N) ℕ
  unfolding serve_request
  instance_thread zero code = spin
  instance_thread (suc rounds_left) code = do
    outcome ← serve_request code
    proceed (instance_thread rounds_left) outcome
