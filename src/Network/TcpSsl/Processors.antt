-- ===== src/Network/TcpSsl/Processors.antt =====
-- Which processor gets a connection of class tcp_ssl, from its accept over its handshake.
use cpp_alls.Prelude.{
  ℕ, ◌<◌, ◌≡◌, ap, ◌∙◌, List, [], ◌∷◌, ◌++◌, Option, none, some, Bool, Outcome, ok, continue_with,
  required,
}
use cpp_alls.AsyncConnection.{Connection, Handler, fresh, release}
use cpp_alls.Network.{success, Accept, Event, served, Host}
use cpp_alls.Network.TcpSsl.{
  TcpSsl, Handshake, handled, wait, shake, accept, start_connection, on_accept, handle_handshake,
  complete, complete_handshake,
}
use cpp_alls.Network.TcpSsl.Kept.{made, complete_handshake-handle}

-- The members that `accept` uses are there.
pub record IsOn (s : TcpSsl) : Type 0 where
  pub io_service : ℕ
  pub context : ℕ
  pub acceptor : ℕ
  pub has_io_service : s.io_service ≡ some io_service
  pub has_context : s.context ≡ some context
  pub has_acceptor : s.acceptor ≡ some acceptor

module _ (host : Host) (small : host.handler_size < 1020) where
  -- The accept that `accept` begins, and the handshake that a connection begins.
  abbrev begun_accept : Option ℕ → ℕ → Accept
  begun_accept processor acceptor = record {
    acceptor = acceptor;
    handler = (made host small).0;
    connection = (handled host fresh).1;
    processor = processor;
    result = none;
  }

  abbrev begun_handshake : Option ℕ → Handshake
  begun_handshake processor = record {
    handler = (made host small).0;
    connection = (handled host fresh).1;
    processor = processor;
    result = none;
  }

  accept-on :
      (s : TcpSsl) (on : IsOn s)
      → accept host s
        ≡ (ok tt, record s { accepts = s.accepts ++ (begun_accept s.processor on.acceptor ∷ []) })
  unfolding accept
  accept-on s on =
      let (h, m, _, _) = made host small in
      let steps : Option ℕ → Option ℕ → Outcome Handler → Option ℕ → Outcome (Unit {0}) × TcpSsl =
        λ io context made acceptor. continue_with (required io s) (λ _ s.
          continue_with (required context s) (λ _ s.
            continue_with (made, s)
              (λ h s. continue_with (required acceptor s) (λ n. wait host n h)))) in
      ap (λ io. steps io s.context (handled host fresh).0 s.acceptor) on.has_io_service
      ∙ ap (λ c. steps (some on.io_service) c (handled host fresh).0 s.acceptor) on.has_context
      ∙ ap (λ o. steps (some on.io_service) (some on.context) o s.acceptor) m
      ∙ ap (λ n. steps (some on.io_service) (some on.context) (ok h) n) on.has_acceptor

  start_connection-on :
      (processor : Option ℕ) (s : TcpSsl)
      → start_connection host fresh processor s
        ≡ (ok tt, record s { handshakes = s.handshakes ++ (begun_handshake processor ∷ []) })
  unfolding start_connection
  start_connection-on processor s =
      let (h, m, _, _) = made host small in
      ap
        (λ o.
          continue_with {A = Handler} (o, s) (λ h. shake host (handled host fresh).1 processor h))
        m

  complete-on :
      (a : Accept) (freed : Option ℕ) (u : TcpSsl) (on : IsOn u)
      → release a.handler a.connection ≡ (ok freed, fresh)
      → ((b : Bool) (events : List Event) → host.set_no_delay b events ≡ ok tt)
      → complete host a success u ≡ (
        ok tt,
        record u {
          accepts = u.accepts ++ (begun_accept u.processor on.acceptor ∷ []);
          handshakes = u.handshakes ++ (begun_handshake a.processor ∷ []);
        },
      )
  unfolding complete on_accept
  complete-on a freed u on back sets =
      let v : TcpSsl = record u {
        accepts = u.accepts ++ (begun_accept u.processor on.acceptor ∷ []);
      } in
      ap
        (λ (r : Outcome (Option ℕ) × Connection).
          continue_with {A = Option ℕ} (r.0, u) (λ _. on_accept host r.1 a.processor success))
        back
      ∙ ap
          (λ r. continue_with {A = Unit {0}} r (λ _ s.
            continue_with (host.set_no_delay s.nodelay s.events, s)
              (λ _. start_connection host fresh a.processor)))
          (accept-on u on)
      ∙ ap (λ o. continue_with {A = Unit {0}} (o, v) (λ _. start_connection host fresh a.processor))
          (sets v.nodelay v.events)
      ∙ start_connection-on a.processor v

  -- A connection is handed to the processor that the server has when it begins to wait for it. In
  -- any state s with the members that this needs, `accept` begins an accept. In any state u with
  -- these members, when the accept has succeeded, the run of its handler succeeds, and begins a
  -- handshake and the next accept. And in any state v, when that handshake has succeeded, the run of
  -- its handler gives the new connection once to the processor of s, and returns or throws what this
  -- one does, whatever processors u and v have, or none. Setting the option succeeds, and a handler
  -- has fewer than 1020 bytes.
  pub accept-processed :
      (s : TcpSsl) (p : ℕ)
      → s.processor ≡ some p
      → IsOn s
      → (u : TcpSsl) → IsOn u
      → ((b : Bool) (events : List Event) → host.set_no_delay b events ≡ ok tt)
      → (v : TcpSsl)
      → (a : Accept) × (b : Accept) × (h : Handshake) × (accept host s
          ≡ (ok tt, record s { accepts = s.accepts ++ (a ∷ []) }))
        × (complete host (record a { result = some success }) success u ≡ (
          ok tt,
          record u { accepts = u.accepts ++ (b ∷ []); handshakes = u.handshakes ++ (h ∷ []) },
        ))
        × (complete_handshake host (record h { result = some success }) success v ≡ (
          host.process p fresh v.events,
          record v { events = v.events ++ (served p fresh ∷ []) },
        ))
  unfolding handle_handshake
  accept-processed s p ep on u on' sets v =
      let (_, _, freed, back) = made host small in
      let a = begun_accept s.processor on.acceptor in
      let h = begun_handshake s.processor in
      (
        a,
        begun_accept u.processor on'.acceptor,
        h,
        accept-on s on,
        complete-on (record a { result = some success }) freed u on' back sets,
        complete_handshake-handle host small (record h { result = some success }) success v
              (p, freed, ep, back)
            ∙ ap (λ o. handle_handshake host fresh o success v) ep,
      )
