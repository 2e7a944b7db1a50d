-- ===== src/Shell/Sessions.antt =====
-- The shell of myjql/main/myjqlshell.cpp with the client of myjql/driver/myjqlclient.cpp: a script of
-- commands on the standard input.
use mathlib.Core.List.{append_assoc}
use course_pj.Base.{
  ℕ, suc, ◌≤◌, ◌≡◌, refl, ◌∙◌, ap, List, [], ◌∷◌, ◌++◌, arith, length, Bytes, int_bytes, ok,
  run_bind, lift_lem, pure, ◌>>◌,
}
use course_pj.Net.{Sockets}
use course_pj.Net.Reliable.{Reliable}
use course_pj.MyJql.{Db, Limits}
use course_pj.Server.Sessions.{
  Request, request_bytes, Answered, Session, over, asked, session_bytes,
}
use course_pj.Client.{end_client}
use course_pj.Client.Requests.{ask, outcome, ask-Answered, end_client-state}
use course_pj.Shell.{exit, parse, newline, exit_name, input_buffer_size}
use course_pj.Shell.Lines.{Text, text_nil, Text-letter}
use course_pj.Shell.Words.{Typed, parse-Typed}
use course_pj.Shell.Loop.{
  Shell, Line, prompt, bye, continue, break, on_client, print, run_command, shell_round,
  after_round, shell,
}
use course_pj.Shell.Rounds.{command, shown, shell_round-line, run_command-ask}

exit_name-Text : Text exit_name
exit_name-Text = Text-letter 101 (120 ∷ 105 ∷ 116 ∷ []) (omega arith) (omega arith) (
    Text-letter 120 (105 ∷ 116 ∷ []) (omega arith) (omega arith) (
      Text-letter 105 (116 ∷ []) (omega arith) (omega arith)
        (Text-letter 116 [] (omega arith) (omega arith) text_nil)))

parse-exit_name : parse exit_name ≡ exit
unfolding parse
parse-exit_name = refl

-- Commands as they are typed, one in a line, and `exit` behind them.
pub data Script : List Request → List ℕ → Type 0 where
  leave : Script [] (exit_name ++ (newline ∷ []))
  type_line :
      (r : Request) (rs : List Request) (line lines : List ℕ)
      → Typed (command r) line
      → Text line
      → length line ≤ input_buffer_size
      → Script rs lines
      → Script (r ∷ rs) (line ++ (newline ∷ lines))

module _ {N : Type 0} {sockets : Sockets N} (good : Reliable sockets) (garbage : Bytes)
    (limits : Limits) where
  abbrev pub shell_at : List ℕ → List ℕ → List ℕ → List Line → Shell N
  shell_at stdin inbox sent out = record { stdin = stdin; net = good.state inbox sent; out = out }

  -- One command of a script.
  shell_round-Answered :
      (r : Request) (a b : Db) (bytes line rest inbox sent : List ℕ) (out : List Line)
      (answer : Answered garbage limits r a bytes b)
      → Typed (command r) line
      → Text line
      → length line ≤ input_buffer_size
      → shell_round sockets garbage (shell_at (line ++ (newline ∷ rest)) (bytes ++ inbox) sent out)
        ≡ ok continue (
            shell_at rest inbox
              (sent ++ request_bytes r)
              (shown r (outcome garbage limits r a bytes b answer) ∷ (prompt ∷ out)))
  shell_round-Answered r a b bytes line rest inbox sent out answer typed t h =
      shell_round-line sockets garbage line rest (good.state (bytes ++ inbox) sent) out t h
      ∙ ap (λ c. run_command sockets garbage c (shell_at rest (bytes ++ inbox) sent (prompt ∷ out)))
          (parse-Typed (command r) line typed)
      ∙ run_command-ask sockets garbage r (shell_at rest (bytes ++ inbox) sent (prompt ∷ out))
      ∙ run_bind (on_client (ask sockets garbage r))
          (λ reply. print (shown r reply) >> pure continue)
          (shell_at rest (bytes ++ inbox) sent (prompt ∷ out))
          (shell_at rest inbox (sent ++ request_bytes r) (prompt ∷ out))
          (outcome garbage limits r a bytes b answer) _
          (lift_lem (λ (s : Shell N). s.net) (λ n s. record s { net = n }) (ask sockets garbage r)
            (shell_at rest (bytes ++ inbox) sent (prompt ∷ out)) _ _
            (ask-Answered good garbage limits r a b bytes inbox sent answer))
          refl

  -- What is printed from the first command of a session on, the newest first.
  unfoldable pub printed :
      (rs : List Request) (a : Db) (bytes : List ℕ) (b : Db)
      → Session garbage limits rs a bytes b
      → List Line
      → List Line
  printed _ a _ _ (over _) out = bye ∷ (prompt ∷ out)
  printed _ a _ c (asked r rs _ b _ reply replies answer session) out =
      printed rs b replies c session
        (shown r (outcome garbage limits r a reply b answer) ∷ (prompt ∷ out))

  -- A script of commands is run to its end, in a round for each line: the requests are sent as they
  -- were typed, each answer is printed, and `exit` says goodbye and closes the socket.
  pub shell-Session :
      (rs : List Request) (a b : Db) (bytes script inbox sent : List ℕ) (out : List Line)
      (session : Session garbage limits rs a bytes b)
      → Script rs script
      → shell sockets garbage
          (suc (length rs))
          (shell_at script (bytes ++ (int_bytes 1 ++ inbox)) sent out)
        ≡ ok tt (record {
          stdin = [];
          net = sockets.closesocket (good.state inbox (sent ++ session_bytes rs));
          out = printed rs a bytes b session out;
        })
  unfolding shell printed run_command
  shell-Session _ a _ _ _ inbox sent out (over _) leave =
      run_bind (shell_round sockets garbage) (after_round sockets garbage (shell sockets garbage 0))
        _ (shell_at [] (int_bytes 1 ++ inbox) sent (bye ∷ (prompt ∷ out))) break _
        (shell_round-line sockets garbage exit_name [] (good.state (int_bytes 1 ++ inbox) sent) out
            exit_name-Text (omega arith)
          ∙ ap
              (λ c.
                run_command sockets garbage c
                  (shell_at [] (int_bytes 1 ++ inbox) sent (prompt ∷ out)))
              parse-exit_name)
        (lift_lem (λ (s : Shell N). s.net) (λ n s. record s { net = n })
          (end_client sockets garbage)
          (shell_at [] (int_bytes 1 ++ inbox) sent (bye ∷ (prompt ∷ out))) tt _
          (end_client-state good garbage limits 1 inbox sent (omega arith)))
  shell-Session _ a c _ _ inbox sent out (asked r rs _ b _ reply replies answer session)
        (type_line _ _ line lines typed t h script) =
      run_bind (shell_round sockets garbage)
        (after_round sockets garbage (shell sockets garbage (suc (length rs)))) _
        (shell_at lines (replies ++ (int_bytes 1 ++ inbox)) (sent ++ request_bytes r)
          (shown r (outcome garbage limits r a reply b answer) ∷ (prompt ∷ out)))
        continue _
        (ap
            (λ bytes.
              shell_round sockets garbage (shell_at (line ++ (newline ∷ lines)) bytes sent out))
            (append_assoc reply replies (int_bytes 1 ++ inbox))
          ∙ shell_round-Answered r a b reply line lines (replies ++ (int_bytes 1 ++ inbox)) sent out
              answer typed t h)
        (shell-Session rs b c replies lines inbox (sent ++ request_bytes r)
            (shown r (outcome garbage limits r a reply b answer) ∷ (prompt ∷ out)) session script
          ∙ ap
              (λ bytes. ok tt (record {
                stdin = [];
                net = sockets.closesocket (good.state inbox bytes);
                out =
                    printed rs b replies c session
                      (shown r (outcome garbage limits r a reply b answer) ∷ (prompt ∷ out));
              }))
              (append_assoc sent (request_bytes r) (session_bytes rs)))
