-- ===== src/Client/Requests.antt =====
-- The client of myjql/driver/myjqlclient.cpp and the server of myjql/main/myjqlserver.c together: the
-- client understands each answer, and sends what the server reads.
use mathlib.Core.List.{append_assoc}
use course_pj.Base.{
  ℕ, ◌^◌, ◌<◌, ◌≡◌, refl, sym, ◌∙◌, ap, true, Option, none, some, List, [], ◌∷◌, ◌++◌, arith,
  length, Bytes, load_list, int_bytes, until_nul, length-load_list, Cmd, ok, run_bind, pure, ◌>>=◌,
  ◌>>◌,
}
use course_pj.Net.{Sockets, recv_code, send_code}
use course_pj.Net.Reliable.{Reliable, recv_code-state, send_code-state}
use course_pj.MyJql.{Db, Limits}
use course_pj.Server.Replies.{get_request, set_request, del_request}
use course_pj.Server.Sessions.{
  Request, get, set, del, request_bytes, Answered, long_get, missing, found, long_key, long_value,
  stored, long_del, deleted, Session, over, asked, session_bytes,
}
use course_pj.Client.{
  Reply, returned, thrown, key_too_long, value_too_long, client_get, client_set, client_del,
  get_reply, recv_value, set_reply, del_reply, end_client,
}
use course_pj.Client.Replies.{
  client_get-state, client_set-state, client_del-state, recv_value-state,
}

abbrev pub without_value : Reply (Unit {0}) → Reply (Option (List ℕ))
without_value (returned u) = returned none
without_value (thrown e) = thrown e

module _ {N : Type 0} (sockets : Sockets N) (garbage : Bytes) where
  -- A request by the operation that makes it.
  unfoldable pub ask : Request → Cmd N (Reply (Option (List ℕ)))
  ask (get key) = client_get sockets garbage key
  ask (set key value) = do reply ← client_set sockets garbage key value; pure (without_value reply)
  ask (del key) = do reply ← client_del sockets garbage key; pure (without_value reply)

  -- Requests one after another, then the destructor; an exception ends its request alone.
  unfoldable pub conversation : List Request → Cmd N (List (Reply (Option (List ℕ))))
  unfolding ask
  conversation [] = do end_client sockets garbage; pure []
  conversation (r ∷ rs) = do reply ← ask r; replies ← conversation rs; pure (reply ∷ replies)

module _ (garbage : Bytes) (limits : Limits) where
  -- What the client's caller gets.
  unfoldable pub outcome :
      (r : Request) (a : Db) (bytes : List ℕ) (b : Db)
      → Answered garbage limits r a bytes b
      → Reply (Option (List ℕ))
  outcome _ a _ _ (long_get key _ h g) = thrown key_too_long
  outcome _ a _ b (missing key _ _ size value h e f) = returned none
  outcome _ a _ b (found key _ _ size value h g e) =
      returned (some (until_nul (load_list value 0 size)))
  outcome _ a _ _ (long_key key value _ h g f) = thrown key_too_long
  outcome _ a _ _ (long_value key value _ h g f) = thrown value_too_long
  outcome _ a _ b (stored key value _ _ h g e) = returned none
  outcome _ a _ _ (long_del key _ h g) = thrown key_too_long
  outcome _ a _ b (deleted key _ _ h e) = returned none

  unfoldable pub outcomes :
      (rs : List Request) (a : Db) (bytes : List ℕ) (b : Db)
      → Session garbage limits rs a bytes b
      → List (Reply (Option (List ℕ)))
  unfolding outcome
  outcomes _ a _ _ (over _) = []
  outcomes _ a _ c (asked r rs _ b _ reply replies answer session) =
      outcome r a reply b answer ∷ outcomes rs b replies c session

module _ {N : Type 0} {sockets : Sockets N} (good : Reliable sockets) (garbage : Bytes)
    (limits : Limits) where
  set_replied :
      (key value : List ℕ) (v : ℕ) (rest out : List ℕ) (reply : Reply (Unit {0}))
      → length key < 2 ^ 31
      → length value < 2 ^ 31
      → v < 2 ^ 32
      → ((n : N) → set_reply sockets garbage v n ≡ ok reply n)
      → ask sockets garbage (set key value) (good.state (int_bytes v ++ rest) out)
        ≡ ok (without_value reply) (good.state rest (out ++ set_request key value))
  unfolding ask
  set_replied key value v rest out reply h g f e =
      run_bind (client_set sockets garbage key value) _ _ _ reply _
        (client_set-state good garbage key value v rest out h g f ∙ e _) refl

  del_replied :
      (key : List ℕ) (v : ℕ) (rest out : List ℕ) (reply : Reply (Unit {0}))
      → length key < 2 ^ 31
      → v < 2 ^ 32
      → ((n : N) → del_reply sockets garbage v n ≡ ok reply n)
      → ask sockets garbage (del key) (good.state (int_bytes v ++ rest) out)
        ≡ ok (without_value reply) (good.state rest (out ++ del_request key))
  unfolding ask
  del_replied key v rest out reply h f e =
      run_bind (client_del sockets garbage key) _ _ _ reply _
        (client_del-state good garbage key v rest out h f ∙ e _) refl

  -- The client sends the bytes that the server takes for the request, reads the bytes that the server
  -- answers, and returns or throws what they stand for; a value comes up to its first zero.
  pub ask-Answered :
      (r : Request) (a b : Db) (bytes rest out : List ℕ)
      (answer : Answered garbage limits r a bytes b)
      → ask sockets garbage r (good.state (bytes ++ rest) out)
        ≡ ok (outcome garbage limits r a bytes b answer) (good.state rest (out ++ request_bytes r))
  unfolding ask outcome set_reply del_reply get_reply
  ask-Answered _ a _ _ rest out (long_get key _ h g) =
      client_get-state good garbage key 2 rest out (omega arith) (omega arith)
  ask-Answered _ a b _ rest out (missing key _ _ size value h e f) =
      client_get-state good garbage key 0 rest out (omega arith) (omega arith)
  ask-Answered _ a b _ rest out (found key _ _ size value h g e) =
      client_get-state good garbage key 1 (int_bytes size ++ (load_list value 0 size ++ rest)) out
        (omega arith) (omega arith)
      ∙ ap
          (λ n.
            recv_value sockets garbage (
              good.state (int_bytes n ++ (load_list value 0 size ++ rest))
                (out ++ get_request key)))
          (sym (length-load_list value 0 size))
      ∙ recv_value-state good garbage (load_list value 0 size) rest (out ++ get_request key) (
          let same : length (load_list value 0 size) ≡ size = length-load_list value 0 size in
          omega arith)
  ask-Answered _ a _ _ rest out (long_key key value _ h g f) =
      set_replied key value 2 rest out (thrown key_too_long) (omega arith) (omega arith)
        (omega arith) (λ n. refl)
  ask-Answered _ a _ _ rest out (long_value key value _ h g f) =
      set_replied key value 3 rest out (thrown value_too_long) (omega arith) (omega arith)
        (omega arith) (λ n. refl)
  ask-Answered _ a b _ rest out (stored key value _ _ h g e) =
      set_replied key value 1 rest out (returned tt) (omega arith) (omega arith) (omega arith)
        (λ n. refl)
  ask-Answered _ a _ _ rest out (long_del key _ h g) =
      del_replied key 2 rest out (thrown key_too_long) (omega arith) (omega arith) (λ n. refl)
  ask-Answered _ a b _ rest out (deleted key _ _ h e) =
      del_replied key 1 rest out (returned tt) (omega arith) (omega arith) (λ n. refl)

  pub end_client-state :
      (v : ℕ) (rest out : List ℕ)
      → v < 2 ^ 32
      → end_client sockets garbage (good.state (int_bytes v ++ rest) out)
        ≡ ok tt (sockets.closesocket (good.state rest (out ++ int_bytes 3)))
  unfolding end_client
  end_client-state v rest out h =
      run_bind (send_code sockets 3) _ _ (good.state (int_bytes v ++ rest) (out ++ int_bytes 3))
        true _ (send_code-state good 3 (int_bytes v ++ rest) out)
        (run_bind (recv_code sockets 3) _ _ (good.state rest (out ++ int_bytes 3)) (some v) _
          (recv_code-state good 3 v rest (out ++ int_bytes 3) h)
          (rw (good.shuts rest (out ++ int_bytes 3)) refl))

  -- A whole session seen from the client: it sends what `session_bytes` says, which the server reads,
  -- reads the answers and the last one, which the server sends, closes its socket, and has given its
  -- caller the outcome of each request.
  pub conversation-Session :
      (rs : List Request) (a b : Db) (bytes rest out : List ℕ)
      (session : Session garbage limits rs a bytes b)
      → conversation sockets garbage rs (good.state (bytes ++ (int_bytes 1 ++ rest)) out)
        ≡ ok
            (outcomes garbage limits rs a bytes b session)
            (sockets.closesocket (good.state rest (out ++ session_bytes rs)))
  unfolding conversation outcomes
  conversation-Session _ a _ _ rest out (over _) =
      run_bind (end_client sockets garbage) _ _ _ tt _ (end_client-state 1 rest out (omega arith))
        refl
  conversation-Session _ a c _ rest out (asked r rs _ b _ reply replies answer session) =
      run_bind (ask sockets garbage r) _ _
        (good.state (replies ++ (int_bytes 1 ++ rest)) (out ++ request_bytes r))
        (outcome garbage limits r a reply b answer) _
        (ap (λ inbox. ask sockets garbage r (good.state inbox out))
            (append_assoc reply replies (int_bytes 1 ++ rest))
          ∙ ask-Answered r a b reply (replies ++ (int_bytes 1 ++ rest)) out answer)
        (run_bind (conversation sockets garbage rs) _ _ _
          (outcomes garbage limits rs b replies c session) _
          (conversation-Session rs b c replies rest (out ++ request_bytes r) session)
          (ap
            (λ sent.
              ok
                (outcome garbage limits r a reply b answer
                  ∷ outcomes garbage limits rs b replies c session)
                (sockets.closesocket (good.state rest sent)))
            (append_assoc out (request_bytes r) (session_bytes rs))))
