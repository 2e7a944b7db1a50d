-- ===== src/Client/Connect.antt =====
-- The constructor of `MyJQL::client` of myjql/driver/myjqlclient.cpp, as it is for Linux. The calls of
-- the system are a parameter.
use course_pj.Base.{ℕ, Bool, true, false, Option, none, some, Cmd, ok, pure, ◌>>=◌}
use course_pj.Client.{socket_failed, gethostbyname_failed, connect_failed, Reply, returned, throw}

-- A failed call gives `none` or `false`; an address is a number.
pub record Network (S : Type 0) : Type 0 where
  pub socket : S → Option ℕ × S
  pub gethostbyname : S → Option ℕ × S
  pub connect : ℕ → ℕ → S → Bool × S

module _ {S : Type 0} (network : Network S) where
  connected : ℕ → Bool → Cmd S (Reply ℕ)
  connected fd true = pure (returned fd)
  connected fd false = throw connect_failed

  connect_to : ℕ → Option ℕ → Cmd S (Reply ℕ)
  unfolding connected
  connect_to fd none = throw gethostbyname_failed
  connect_to fd (some address) = do
    done ← (λ s. ok (network.connect fd address s).0 (network.connect fd address s).1)
    connected fd done

  with_socket : Option ℕ → Cmd S (Reply ℕ)
  unfolding connect_to
  with_socket none = throw socket_failed
  with_socket (some fd) = do
    server ← (λ s. ok (network.gethostbyname s).0 (network.gethostbyname s).1)
    connect_to fd server

  -- The socket that `ConnectSocket` becomes. A call that fails throws, and closes nothing.
  unfoldable pub open_client : Cmd S (Reply ℕ)
  unfolding with_socket
  open_client = do fd ← (λ s. ok (network.socket s).0 (network.socket s).1); with_socket fd
