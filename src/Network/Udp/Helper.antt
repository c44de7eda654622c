-- ===== src/Network/Udp/Helper.antt =====
-- src/apps/boost_tcp/udp.cpp: class udp_helper, the socket of a connection for one datagram.
use cpp_alls.Prelude.{
  ℕ, ◌≡◌, refl, List, Option, none, some, M, Outcome, ok, undefined, pure, required, ◌>>=◌, ◌>>◌,
}
use cpp_alls.AsyncConnection.Members.{Members, make}

-- `endpoint_` is that of the last datagram received, if there has been one.
pub record Helper : Type 0 where
  pub socket_strand : Option ℕ
  pub socket : Option ℕ
  pub endpoint : Option ℕ

-- A datagram on its way: on which socket, to which endpoint, with which bytes.
pub record Sent : Type 0 where
  pub socket : ℕ
  pub endpoint : Option ℕ
  pub bytes : List ℕ

abbrev pub create : Option ℕ → Option ℕ → Helper
create socket_strand socket = record {
  socket_strand = socket_strand;
  socket = socket;
  endpoint = none;
}

pub shutdown : Helper → Helper
shutdown h = h

pub close : Helper → Helper
close h = h

-- The handler is wrapped by the strand.
pub async_write_some : List ℕ → M Helper Sent
async_write_some buffer h =
    (do
      socket ← required h.socket
      strand ← required h.socket_strand
      pure (record { socket = socket; endpoint = h.endpoint; bytes = buffer }))
      h

-- From its start to its end, at which a datagram of this endpoint has been received.
pub async_read_some : ℕ → List ℕ → M Helper (List ℕ)
async_read_some sender received h =
    (do
      socket ← required h.socket
      strand ← required h.socket_strand
      (λ h. (ok received, record h { endpoint = some sender })))
      h

pub available : (ℕ → Outcome ℕ) → Helper → Outcome ℕ
available of h = elim h.socket [ none ↦ undefined | some k ↦ of k ]

-- `udp_connection_fast::create`
abbrev pub create_connection :
    Option ℕ → Option ℕ → Option ℕ → Option ℕ → Option ℕ → Outcome (Members Helper)
create_connection parent processor io_service socket_strand socket =
    make (λ i. ok (create socket_strand socket)) parent processor io_service

-- `udp_connection_fast::close`
abbrev pub close_connection : Members Helper → Members Helper
close_connection c = c

abbrev answer : ℕ → List ℕ → List ℕ → M Helper Sent
answer sender received reply = do
  async_read_some sender received >>= λ bs. pure tt
  (λ h. (ok tt, close (shutdown h)))
  async_write_some reply

-- What is written after a datagram has been received goes back to where this one came from, on the
-- same socket, also if the connection has been shut down and closed in between.
pub answer-sender :
    (strand socket sender : ℕ) (received reply : List ℕ)
    → answer sender received reply (create (some strand) (some socket)) ≡ (
      ok (record { socket = socket; endpoint = some sender; bytes = reply }),
      record { socket_strand = some strand; socket = some socket; endpoint = some sender },
    )
unfolding async_read_some async_write_some shutdown close
answer-sender strand socket sender received reply = refl
