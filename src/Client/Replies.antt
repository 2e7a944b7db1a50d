-- ===== src/Client/Replies.antt =====
-- What `MyJQL::client` of myjql/driver/myjqlclient.cpp sends and makes of an answer, on a connection
-- that loses nothing.
use mathlib.Core.List.{append_assoc}
use course_pj.Base.{
  ℕ, ◌%◌, ◌^◌, ◌<◌, ◌≡◌, refl, ◌∙◌, ap, true, false, some, List, ◌++◌, arith, length, Bytes,
  store_list, int_bytes, until_nul, take-length, load_list-store_list, load_list-write, Cmd, ok,
  run_bind, ==-refl, leb,
}
use course_pj.Net.{Sockets, recv_code, recv_buffer, send_code, send_bytes, int_max}
use course_pj.Net.Reliable.{
  Reliable, recv_code-state, recv_buffer-state, send_code-state, send_bytes-state,
}
use course_pj.Server.Replies.{text_bytes, get_request, set_request, del_request}
use course_pj.Client.{
  Reply, returned, send_request, send_text, recv_reply, recv_value, string_of, client_get,
  client_set, client_del, get_reply, set_reply, del_reply, unless_failed, unless_lost,
}

module _ {N : Type 0} {sockets : Sockets N} (good : Reliable sockets) (garbage : Bytes) where
  send_request-state :
      {A : Type 0} (c : ℕ) (k : Cmd N (Reply A)) (inbox out : List ℕ)
      → send_request sockets garbage c k (good.state inbox out)
        ≡ k (good.state inbox (out ++ int_bytes c))
  send_request-state c k inbox out =
      run_bind (send_code sockets c) (unless_failed k) _ _ true _ (send_code-state good c inbox out)
        refl

  send_text-state :
      {A : Type 0} (xs : List ℕ) (k : Cmd N (Reply A)) (inbox out : List ℕ)
      → length xs < 2 ^ 31
      → send_text sockets garbage xs k (good.state inbox out)
        ≡ k (good.state inbox (out ++ text_bytes xs))
  send_text-state xs k inbox out h =
      let size : length xs % 2 ^ 32 ≡ length xs = omega arith in
      let low : leb (2 ^ 31) (length xs) ≡ false = ground arith in
      rw (size, low, take-length xs)
        (run_bind (send_code sockets (length xs)) _ _
          (good.state inbox (out ++ int_bytes (length xs))) true _
          (send_code-state good (length xs) inbox out)
          (run_bind (send_bytes sockets xs) (unless_failed k) _ _ true _
            (send_bytes-state good xs inbox (out ++ int_bytes (length xs)))
            (ap (λ bytes. k (good.state inbox bytes))
              (append_assoc out (int_bytes (length xs)) xs))))

  recv_reply-state :
      {A : Type 0} (code v : ℕ) (k : ℕ → Cmd N (Reply A)) (rest out : List ℕ)
      → v < 2 ^ 32
      → recv_reply sockets garbage code k (good.state (int_bytes v ++ rest) out)
        ≡ k v (good.state rest out)
  recv_reply-state code v k rest out h =
      run_bind (recv_code sockets code) (unless_lost k) _ _ (some v) _
        (recv_code-state good code v rest out h) refl

  string_of-store_list :
      (xs : List ℕ) → string_of sockets garbage (store_list garbage 0 xs) (length xs) ≡ until_nul xs
  string_of-store_list xs = ap until_nul (
      load_list-write (store_list garbage 0 xs) 0 (length xs) (length xs) 0 (omega arith)
      ∙ load_list-store_list garbage 0 xs)

  -- A value is read up to its first zero.
  pub recv_value-state :
      (xs rest out : List ℕ)
      → length xs < int_max
      → recv_value sockets garbage (good.state (text_bytes xs ++ rest) out)
        ≡ ok (returned (some (until_nul xs))) (good.state rest out)
  unfolding recv_value
  recv_value-state xs rest out h =
      recv_reply-state 1 (length xs) _ (xs ++ rest) out (omega arith)
      ∙ run_bind (recv_buffer sockets garbage (length xs)) _ _ (good.state rest out)
          (some (length xs, store_list garbage 0 xs)) _
          (recv_buffer-state good garbage xs rest out h)
          (rw (==-refl (length xs), string_of-store_list xs) refl)

  -- Each of the three sends its request whole and reads the code of the answer.
  pub client_get-state :
      (key : List ℕ) (v : ℕ) (rest out : List ℕ)
      → length key < 2 ^ 31
      → v < 2 ^ 32
      → client_get sockets garbage key (good.state (int_bytes v ++ rest) out)
        ≡ get_reply sockets garbage v (good.state rest (out ++ get_request key))
  unfolding client_get
  client_get-state key v rest out h g =
      send_request-state 0 _ (int_bytes v ++ rest) out
      ∙ send_text-state key _ (int_bytes v ++ rest) (out ++ int_bytes 0) h
      ∙ recv_reply-state (length key % 2 ^ 32) v (get_reply sockets garbage) rest _ g
      ∙ ap (λ bytes. get_reply sockets garbage v (good.state rest bytes))
          (append_assoc out (int_bytes 0) (text_bytes key))

  pub client_set-state :
      (key value : List ℕ) (v : ℕ) (rest out : List ℕ)
      → length key < 2 ^ 31
      → length value < 2 ^ 31
      → v < 2 ^ 32
      → client_set sockets garbage key value (good.state (int_bytes v ++ rest) out)
        ≡ set_reply sockets garbage v (good.state rest (out ++ set_request key value))
  unfolding client_set
  client_set-state key value v rest out h f g =
      send_request-state 1 _ (int_bytes v ++ rest) out
      ∙ send_text-state key _ (int_bytes v ++ rest) (out ++ int_bytes 1) h
      ∙ send_text-state value _ (int_bytes v ++ rest) _ f
      ∙ recv_reply-state (length value % 2 ^ 32) v (set_reply sockets garbage) rest _ g
      ∙ ap (λ bytes. set_reply sockets garbage v (good.state rest bytes))
          (append_assoc (out ++ int_bytes 1) (text_bytes key) (text_bytes value)
            ∙ append_assoc out (int_bytes 1) (text_bytes key ++ text_bytes value))

  pub client_del-state :
      (key : List ℕ) (v : ℕ) (rest out : List ℕ)
      → length key < 2 ^ 31
      → v < 2 ^ 32
      → client_del sockets garbage key (good.state (int_bytes v ++ rest) out)
        ≡ del_reply sockets garbage v (good.state rest (out ++ del_request key))
  unfolding client_del
  client_del-state key v rest out h g =
      send_request-state 2 _ (int_bytes v ++ rest) out
      ∙ send_text-state key _ (int_bytes v ++ rest) (out ++ int_bytes 2) h
      ∙ recv_reply-state (length key % 2 ^ 32) v (del_reply sockets garbage) rest _ g
      ∙ ap (λ bytes. del_reply sockets garbage v (good.state rest bytes))
          (append_assoc out (int_bytes 2) (text_bytes key))
