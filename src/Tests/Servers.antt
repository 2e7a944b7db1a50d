-- ===== src/Tests/Servers.antt =====
-- Threads of myjql/main/myjqlserver.c over pipes.
use course_pj.Base.{
  ℕ, ◌-◌, ◌^◌, ◌≡◌, refl, List, [], ◌∷◌, ◌++◌, arith, int_bytes, ok, fault, hang, write, ◌>>◌, ◌∙◌,
  ltb, ◌==◌, if◌then◌else◌,
}
use course_pj.MyJql.{Db, myjql_get, myjql_set, myjql_del}
use course_pj.Server.{
  value_buffer, Thread, next, left, serve_request, instance_thread, on_db, reply, max_str_len,
}
use course_pj.Server.Replies.{
  get_request, set_request, del_request, c_string, thread, after_call, after_get,
}
use course_pj.Server.Requests.{
  serve_request-get, serve_request-set, serve_request-del, serve_request-exit,
}
use course_pj.Server.Ends.{ended, serve_request-negative, instance_thread-hang, serve_request-stale}
use course_pj.Server.Sessions.{
  Request, get, missing, Session, over, asked, session_bytes, instance_thread-Session,
}
use course_pj.Server.Calls.{Calls}
use course_pj.Server.Threads.{Server, Reaches, start, step, served, reaches-Calls}
use course_pj.Server.Closing.{Closed, instance_thread-Closed}
use course_pj.Tests.Database.{zeros_memory, limits, no_keys, key_x, asked_once, myjql_get-missing}
use course_pj.Tests.Pipes.{Pipe, pipes, pipe, reliable_pipes, pipe-Ended}

abbrev pub thread_at : List ℕ → List ℕ → Db → Thread Pipe
thread_at = thread reliable_pipes zeros_memory limits

serve_request-get_example :
    serve_request pipes zeros_memory limits 7 (thread_at (get_request key_x ++ []) [] no_keys) ≡ (
      if ltb max_str_len 1
      then ok (next 2) (thread_at [] (int_bytes 2) no_keys)
      else after_get reliable_pipes zeros_memory limits [] [] (
          myjql_get zeros_memory limits
            (c_string zeros_memory key_x)
            (value_buffer zeros_memory)
            1024
            no_keys))
serve_request-get_example =
    serve_request-get reliable_pipes zeros_memory limits 7 key_x [] [] no_keys (omega arith)

serve_request-set_example :
    serve_request pipes zeros_memory limits 7
      (thread_at (set_request key_x (5 ∷ 6 ∷ []) ++ []) [] no_keys)
    ≡ (if ltb max_str_len 1
        then ok (next 2) (thread_at [] (int_bytes 2) no_keys)
        else if ltb max_str_len 2
        then ok (next 3) (thread_at [] (int_bytes 3) no_keys)
        else after_call reliable_pipes zeros_memory limits 1 [] [] (
            myjql_set zeros_memory limits
              (c_string zeros_memory key_x)
              1
              (c_string zeros_memory (5 ∷ 6 ∷ []))
              2
              no_keys))
serve_request-set_example =
    serve_request-set reliable_pipes zeros_memory limits 7 key_x (5 ∷ 6 ∷ []) [] [] no_keys
      (omega arith) (omega arith)

serve_request-del_example :
    serve_request pipes zeros_memory limits 7 (thread_at (del_request key_x ++ []) [] no_keys) ≡ (
      if ltb max_str_len 1
      then ok (next 2) (thread_at [] (int_bytes 2) no_keys)
      else after_call reliable_pipes zeros_memory limits 1 [] []
          (myjql_del zeros_memory limits (c_string zeros_memory key_x) no_keys))
serve_request-del_example =
    serve_request-del reliable_pipes zeros_memory limits 7 key_x [] [] no_keys (omega arith)

-- A `get` whose length is -1.
serve_request-negative_example :
    serve_request pipes zeros_memory limits 7
      (thread_at (int_bytes 0 ++ (int_bytes (2 ^ 32 - 1) ++ [])) [] no_keys)
    ≡ fault
serve_request-negative_example =
    serve_request-negative zeros_memory limits reliable_pipes 7 0 (2 ^ 32 - 1) [] [] [] (pipe [] [])
      no_keys (omega arith) (omega arith) (omega arith) refl

instance_thread-hang_example :
    instance_thread pipes zeros_memory limits 3 7
      (ended zeros_memory limits (pipe-Ended []) no_keys)
    ≡ hang
instance_thread-hang_example =
    instance_thread-hang zeros_memory limits (pipe-Ended []) 3 7 no_keys (omega arith) (omega arith)

serve_request-stale_example :
    serve_request pipes zeros_memory limits 1 (ended zeros_memory limits (pipe-Ended []) no_keys)
    ≡ (on_db (myjql_set zeros_memory limits (write zeros_memory 1 0) 1 (write zeros_memory 1 0) 1)
          >> reply pipes zeros_memory limits 1)
        (ended zeros_memory limits (pipe-Ended []) no_keys)
serve_request-stale_example = serve_request-stale zeros_memory limits (pipe-Ended []) no_keys

abbrev pub one_get : List Request
one_get = get key_x ∷ []

-- A client asks for a key that is not there.
pub one_get-Session : Session zeros_memory limits one_get no_keys (int_bytes 0 ++ []) asked_once
one_get-Session =
    asked (get key_x) [] no_keys asked_once asked_once (int_bytes 0) []
      (missing key_x no_keys asked_once (2 ^ 64 - 1) zeros_memory (omega arith) myjql_get-missing
        refl)
      (over asked_once)

instance_thread-Session_example :
    instance_thread pipes zeros_memory limits 2 7
      (thread_at (session_bytes one_get ++ []) [] no_keys)
    ≡ ok 0
        (record { net = pipes.closesocket (pipe [] (int_bytes 0 ++ int_bytes 1)); db = asked_once })
instance_thread-Session_example =
    instance_thread-Session reliable_pipes zeros_memory limits one_get 7 no_keys asked_once
      (int_bytes 0) [] [] one_get-Session

abbrev bye_pipe : Pipe
bye_pipe = pipe (int_bytes 3) []

instance_thread-Closed_example :
    Closed pipes
      (record { net = pipes.closesocket (pipe [] (int_bytes 0 ++ int_bytes 1)); db = asked_once })
instance_thread-Closed_example =
    instance_thread-Closed pipes zeros_memory limits 2 7 0
      (thread_at (session_bytes one_get ++ []) [] no_keys)
      (record { net = pipes.closesocket (pipe [] (int_bytes 0 ++ int_bytes 1)); db = asked_once })
      (instance_thread-Session reliable_pipes zeros_memory limits one_get 7 no_keys asked_once
        (int_bytes 0) [] [] one_get-Session)

-- Two threads: one serves its request, then the other one says goodbye.
abbrev two_threads : Server Pipe
two_threads = record {
  db = no_keys;
  nets = λ i. if i == 0 then pipe (get_request key_x ++ []) [] else pipe (int_bytes 3 ++ []) [];
  ends = λ i. next 7;
}

abbrev after_first : Server Pipe
after_first = record {
  db = asked_once;
  nets = write two_threads.nets 0 (pipe [] ([] ++ int_bytes 0));
  ends = write two_threads.ends 0 (next 0);
}

abbrev after_both : Server Pipe
after_both = record {
  db = asked_once;
  nets = write after_first.nets 1 (pipe [] ([] ++ int_bytes 1));
  ends = write after_first.ends 1 left;
}

both_served : Reaches pipes zeros_memory limits two_threads after_both
both_served =
    step two_threads after_first after_both
      (step two_threads two_threads after_first (start two_threads) (
        served two_threads 0 7 (next 0) (thread_at [] ([] ++ int_bytes 0) asked_once) refl (
          serve_request-get reliable_pipes zeros_memory limits 7 key_x [] [] no_keys (omega arith)
          ∙ rw myjql_get-missing refl)))
      (served after_first 1 7 left (thread_at [] ([] ++ int_bytes 1) asked_once) refl
        (serve_request-exit reliable_pipes zeros_memory limits 7 [] [] asked_once))

reaches-Calls_example : Calls zeros_memory limits no_keys asked_once
reaches-Calls_example = reaches-Calls pipes zeros_memory limits two_threads after_both both_served
