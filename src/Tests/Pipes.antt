-- ===== src/Tests/Pipes.antt =====
-- A connection as two lists of bytes, one to be read and one that was written, for the runs of the
-- server, the client and the shell.
use course_pj.Base.{
  ℕ, zero, suc, ◌≡◌, refl, Bool, true, false, some, List, [], ◌∷◌, ◌++◌, length, take, take-append,
}
use course_pj.Net.{Sockets}
use course_pj.Net.Reliable.{Reliable, Ended}

pub record Pipe : Type 0 where
  pub inbox : List ℕ
  pub outbox : List ℕ
  pub open_end : Bool

abbrev pub drop : ℕ → List ℕ → List ℕ
drop zero xs = xs
drop (suc n) [] = []
drop (suc n) (x ∷ xs) = drop n xs

abbrev pub pipes : Sockets Pipe
pipes = record {
  recv = λ n p. (some (take n p.inbox), record p { inbox = drop n p.inbox });
  send = λ xs p. (true, record p { outbox = p.outbox ++ xs });
  shutdown = λ p. (true, p);
  closesocket = λ p. record p { open_end = false };
}

abbrev pub pipe : List ℕ → List ℕ → Pipe
pipe xs out = record { inbox = xs; outbox = out; open_end = true }

pub drop-append : (xs ys : List ℕ) → drop (length xs) (xs ++ ys) ≡ ys
drop-append [] ys = refl
drop-append (x ∷ xs) ys = drop-append xs ys

abbrev pub reliable_pipes : Reliable pipes
reliable_pipes = record {
  state = pipe;
  receives = λ xs rest out i. (some (take-append xs rest i), pipe (drop-append xs rest i) out);
  sends = λ xs inbox out. refl;
  shuts = λ inbox out. refl;
}

pub pipe-Ended : (out : List ℕ) → Ended pipes (pipe [] out)
pipe-Ended out = record { receives = receives }
  where
    receives : (len : ℕ) → pipes.recv len (pipe [] out) ≡ (some [], pipe [] out)
    receives zero = refl
    receives (suc len) = refl
