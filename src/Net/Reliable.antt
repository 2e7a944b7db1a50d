-- ===== src/Net/Reliable.antt =====
-- A connection that loses nothing, and one whose other end is closed.
use course_pj.Base.{
  ℕ, suc, ◌^◌, ◌<◌, ◌≤◌, ◌≡◌, refl, ◌∙◌, ap, true, false, some, List, [], ◌∷◌, ◌++◌, arith, length,
  Bytes, write32, store_list, int_bytes, take-length, fault, read32-int_bytes, ok, ◌==◌, leb,
}
use course_pj.Base.Memory.Laws.{read32-write32}
use course_pj.Net.{Sockets, recv_code, recv_buffer, send_code, send_bytes, int_max}

-- The documented behaviour of a stream: with so many bytes at hand they all come in at once and in
-- order, and what is sent goes out behind what was sent before.
pub record Reliable {N : Type 0} (sockets : Sockets N) : Type 0 where
  pub state : List ℕ → List ℕ → N
  pub receives :
      (xs rest out : List ℕ)
      → sockets.recv (length xs) (state (xs ++ rest) out) ≡ (some xs, state rest out)
  pub sends :
      (xs inbox out : List ℕ) → sockets.send xs (state inbox out) ≡ (true, state inbox (out ++ xs))
  pub shuts : (inbox out : List ℕ) → sockets.shutdown (state inbox out) ≡ (true, state inbox out)

-- At the end of the stream `recv` gives no bytes and no error.
pub record Ended {N : Type 0} (sockets : Sockets N) (n : N) : Type 0 where
  pub receives : (len : ℕ) → sockets.recv len n ≡ (some [], n)

module _ {N : Type 0} {sockets : Sockets N} where
  module _ (good : Reliable sockets) where
    pub recv_code-state :
        (code v : ℕ) (rest out : List ℕ)
        → v < 2 ^ 32
        → recv_code sockets code (good.state (int_bytes v ++ rest) out)
          ≡ ok (some v) (good.state rest out)
    unfolding recv_code
    recv_code-state code v rest out h = rw (good.receives (int_bytes v) rest out) (
        ap (λ w. ok (some w) (good.state rest out))
          (read32-int_bytes (write32 (λ _. 0) 0 code) v h))

    pub recv_buffer-state :
        (garbage : Bytes) (xs rest out : List ℕ)
        → length xs < int_max
        → recv_buffer sockets garbage (length xs) (good.state (xs ++ rest) out)
          ≡ ok (some (length xs, store_list garbage 0 xs)) (good.state rest out)
    unfolding recv_buffer store_list
    recv_buffer-state garbage [] rest out h = rw (good.receives [] rest out) refl
    recv_buffer-state garbage (x ∷ xs) rest out h =
        let top : (suc (length xs) == int_max) ≡ false = ground arith in
        let low : leb (2 ^ 31) (suc (length xs)) ≡ false = ground arith in
        rw (top, good.receives (x ∷ xs) rest out, low)
          (ap (λ ys. ok (some (length ys, store_list garbage 0 ys)) (good.state rest out))
            (take-length (x ∷ xs)))

    pub send_bytes-state :
        (xs inbox out : List ℕ)
        → send_bytes sockets xs (good.state inbox out) ≡ ok true (good.state inbox (out ++ xs))
    unfolding send_bytes
    send_bytes-state xs inbox out = rw (good.sends xs inbox out) refl

    pub send_code-state :
        (code : ℕ) (inbox out : List ℕ)
        → send_code sockets code (good.state inbox out)
          ≡ ok true (good.state inbox (out ++ int_bytes code))
    unfolding send_code
    send_code-state code inbox out = send_bytes-state (int_bytes code) inbox out

  module _ {n : N} (end : Ended sockets n) where
    pub recv_code-end : (code : ℕ) → code < 2 ^ 32 → recv_code sockets code n ≡ ok (some code) n
    unfolding recv_code store_list
    recv_code-end code h =
        rw (end.receives 4) (ap (λ w. ok (some w) n) (read32-write32 (λ _. 0) 0 code ∙ omega arith))

    pub recv_buffer-end :
        (garbage : Bytes) (code : ℕ)
        → code < int_max
        → recv_buffer sockets garbage code n ≡ ok (some (0, garbage)) n
    unfolding recv_buffer
    recv_buffer-end garbage code h =
        let top : (code == int_max) ≡ false = ground arith in rw (top, end.receives code) refl

-- A negative length: nothing, or bytes that do not lie in the buffer.
module _ {N : Type 0} (sockets : Sockets N) (garbage : Bytes) (v : ℕ) (n n' : N)
    (lo : 2 ^ 31 ≤ v) where
  pub recv_buffer-negative_nothing :
      sockets.recv v n ≡ (some [], n') → recv_buffer sockets garbage v n ≡ ok (some (0, garbage)) n'
  unfolding recv_buffer
  recv_buffer-negative_nothing e =
      let top : (v == int_max) ≡ false = ground arith in rw (top, e) refl

  pub recv_buffer-negative_bytes :
      (x : ℕ) (xs : List ℕ)
      → sockets.recv v n ≡ (some (x ∷ xs), n')
      → recv_buffer sockets garbage v n ≡ fault
  unfolding recv_buffer
  recv_buffer-negative_bytes x xs e =
      let top : (v == int_max) ≡ false = ground arith in
      let neg : leb (2 ^ 31) v ≡ true = ground arith in rw (top, e, neg) refl
