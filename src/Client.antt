-- ===== src/Client.antt =====
-- `MyJQL::client` of myjql/driver/myjqlclient.cpp: the requests of a client over a socket. An exception
-- is a value of the result; the texts are lists of characters.
use course_pj.Base.{
  ℕ, ◌%◌, ◌^◌, Bool, true, false, Option, none, some, List, ◌==◌, if◌then◌else◌, length, int_is_neg,
  Bytes, write, load_list, until_nul, take, Cmd, ok, pure, crash, ◌>>=◌, ◌>>◌,
}
use course_pj.Net.{Sockets, recv_code, recv_buffer, send_code, send_bytes}
pub mod Connect
pub mod Replies
pub mod Requests

-- `system_error` by its message, `key_too_long` and `value_too_long`.
pub data Error : Type 0 where
  socket_failed : Error
  gethostbyname_failed : Error
  connect_failed : Error
  send_failed : Error
  recv_failed : Error
  incomplete_response : Error
  unknown_return_code : ℕ → Error
  key_too_long : Error
  value_too_long : Error

pub data Reply (A : Type 0) : Type 0 where
  returned : A → Reply A
  thrown : Error → Reply A

module _ {N : Type 0} where
  abbrev pub throw : {A : Type 0} → Error → Cmd N (Reply A)
  throw e = pure (thrown e)

  -- `if (iResult == SOCKET_ERROR) throw system_error{...};`
  abbrev pub unless_failed : {A : Type 0} → Cmd N (Reply A) → Bool → Cmd N (Reply A)
  unless_failed k true = k
  unless_failed k false = throw send_failed

  abbrev pub unless_lost : {A B : Type 0} → (A → Cmd N (Reply B)) → Option A → Cmd N (Reply B)
  unless_lost k none = throw recv_failed
  unless_lost k (some a) = k a

module _ {N : Type 0} (sockets : Sockets N) (garbage : Bytes) where
  -- The first code of a request.
  abbrev pub send_request : {A : Type 0} → ℕ → Cmd N (Reply A) → Cmd N (Reply A)
  send_request c k = do sent ← send_code sockets c; unless_failed k sent

  -- The length as an `int` and the characters of a key or a value.
  abbrev pub send_text : {A : Type 0} → List ℕ → Cmd N (Reply A) → Cmd N (Reply A)
  send_text xs k = do
    sent ← send_code sockets (length xs % 2 ^ 32)
    unless_failed
        (if int_is_neg (length xs % 2 ^ 32)
          then crash
          else (do sent ← send_bytes sockets (take (length xs % 2 ^ 32) xs); unless_failed k sent))
        sent

  -- The code of an answer; `code` is what the variable held.
  abbrev pub recv_reply : {A : Type 0} → ℕ → (ℕ → Cmd N (Reply A)) → Cmd N (Reply A)
  recv_reply code k = do c ← recv_code sockets code; unless_lost k c

  -- `std::string res = buf;` after `buf[code] = 0;`.
  abbrev pub string_of : Bytes → ℕ → List ℕ
  string_of buf code = until_nul (load_list (write buf code 0) 0 code)

  pub recv_value : Cmd N (Reply (Option (List ℕ)))
  recv_value = recv_reply 1 (λ code. do
    got ← recv_buffer sockets garbage code
    unless_lost
        (λ got.
          if got.0 == code
          then pure (returned (some (string_of got.1 code)))
          else throw incomplete_response)
        got)

  -- The branches on the code of the answer.
  pub get_reply : ℕ → Cmd N (Reply (Option (List ℕ)))
  unfolding recv_value
  get_reply code =
      if code == 0
      then pure (returned none)
      else if code == 1
      then recv_value
      else if code == 2
      then throw key_too_long
      else throw (unknown_return_code code)

  pub set_reply : ℕ → Cmd N (Reply (Unit {0}))
  set_reply code =
      if code == 1
      then pure (returned tt)
      else if code == 2
      then throw key_too_long
      else if code == 3
      then throw value_too_long
      else throw (unknown_return_code code)

  pub del_reply : ℕ → Cmd N (Reply (Unit {0}))
  del_reply code =
      if code == 1
      then pure (returned tt)
      else if code == 2
      then throw key_too_long
      else throw (unknown_return_code code)

  unfoldable pub client_get : List ℕ → Cmd N (Reply (Option (List ℕ)))
  unfolding get_reply
  client_get key = send_request 0 (send_text key (recv_reply (length key % 2 ^ 32) get_reply))

  unfoldable pub client_set : List ℕ → List ℕ → Cmd N (Reply (Unit {0}))
  unfolding set_reply
  client_set key value =
      send_request 1
        (send_text key (send_text value (recv_reply (length value % 2 ^ 32) set_reply)))

  unfoldable pub client_del : List ℕ → Cmd N (Reply (Unit {0}))
  unfolding del_reply
  client_del key = send_request 2 (send_text key (recv_reply (length key % 2 ^ 32) del_reply))

  -- The destructor.
  close_client : Cmd N (Unit {0})
  close_client n = ok tt (sockets.closesocket n)

  after_send : Cmd N (Unit {0}) → Bool → Cmd N (Unit {0})
  after_send k true = k
  after_send k false = close_client

  after_recv : Cmd N (Unit {0}) → Option ℕ → Cmd N (Unit {0})
  unfolding close_client
  after_recv k none = close_client
  after_recv k (some _) = k

  -- A failed `shutdown` closes the socket as a good one does.
  unfoldable pub end_client : Cmd N (Unit {0})
  unfolding after_send after_recv close_client
  end_client = do
    sent ← send_code sockets 3
    after_send
        (do
          c ← recv_code sockets 3
          after_recv ((λ n. let (b, n') = sockets.shutdown n in ok b n') >> close_client) c)
        sent
