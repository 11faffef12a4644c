-- ===== src/AgentClient.antt =====
-- mom/Collectors/QemuGuestAgentClient.py: `_QemuGuestAgentSocketClient`, the connection to the agent
-- in a guest. What the socket does in each call is a list of events, the next one first; a run that
-- needs more events than there are is `blocked`, and an event of another kind of call is an error. Bytes are numbers. The texts of the errors are left
-- out, and the coding of requests and responses is a parameter.
pub mod Lines
pub mod Tests
use mom_perf_fair_scheduler.Common.{
  ℕ, zero, suc, ◌-◌, Bool, true, false, Option, none, some, List, [], ◌∷◌, ◌++◌, ◌==◌, ◌&&◌, ltb,
  if◌then◌else◌, length, drop,
}

-- What `sock.send`, `sock.recv(1)` and `sock.connect` do.
pub data Event : Type 0 where
  accepted : ℕ → Event
  byte : ℕ → Event
  peer_closed connected timeout socket_error : Event

-- How a method ends. A `ProtocolError` always comes with the end of the connection.
pub data Ending (A : Type 0) : Type 0 where
  returns : A → Ending A
  protocol_error type_error blocked : Ending A

-- `self.sock is not None`, what the agent has got, and what the socket does from now on.
pub record Client : Type 0 where
  pub has_sock : Bool
  pub wire : List ℕ
  pub events : List Event

abbrev pub newline : ℕ
newline = 10

abbrev pub take : ℕ → List ℕ → List ℕ
take zero bytes = []
take (suc n) [] = []
take (suc n) (b ∷ bytes) = b ∷ take n bytes

-- `self._sock_close(self.sock); self.sock = None`
abbrev pub give_up : Client → Client
give_up c = record c { has_sock = false }

-- The loop of `_sock_send`, over the events: what is sent of `msg[sent:]`. It leaves `self.sock`
-- alone but for the errors.
unfoldable pub send_bytes : Bool → List ℕ → List ℕ → List Event → Ending (Unit {0}) × Client
send_bytes has_sock wire [] events =
    (returns tt, record { has_sock = has_sock; wire = wire; events = events })
send_bytes has_sock wire (b ∷ msg) [] =
    (blocked, record { has_sock = has_sock; wire = wire; events = [] })
send_bytes has_sock wire (b ∷ msg) (accepted (suc n) ∷ events) =
    send_bytes has_sock (wire ++ take (suc n) (b ∷ msg)) (drop (suc n) (b ∷ msg)) events
send_bytes has_sock wire (b ∷ msg) (event ∷ events) =
    (protocol_error, record { has_sock = false; wire = wire; events = events })

-- `_sock_send(sock, msg)`
unfoldable pub sock_send : List ℕ → Client → Ending (Unit {0}) × Client
unfolding send_bytes
sock_send msg c = send_bytes c.has_sock c.wire msg c.events

-- `data == token`, and `data[-len(token):] == token`
abbrev pub same_bytes : List ℕ → List ℕ → Bool
same_bytes [] [] = true
same_bytes (a ∷ data_) (b ∷ token) = (a == b) && same_bytes data_ token
same_bytes _ _ = false

unfoldable pub ends_in : List ℕ → List ℕ → Bool
ends_in token data_ = same_bytes (drop (length data_ - length token) data_) token

-- The loop of `_sock_recv_until`, on what has been read: the data, or none where it returns `None`;
-- whether the socket is kept; and the events that are left.
unfoldable pub recv_bytes :
    List ℕ → List ℕ → List Event → Ending (Option (List ℕ)) × Bool × List Event
unfolding ends_in
recv_bytes token data_ [] = (if ltb 4096 (length data_) then returns none else blocked, true, [])
recv_bytes token data_ (byte b ∷ events) =
    let longer = data_ ++ b ∷ [] in
    let rest = recv_bytes token longer events in
    if ltb 4096 (length data_)
    then (returns none, true, byte b ∷ events)
    else if ends_in token longer
    then (returns (some longer), true, events)
    else rest
recv_bytes token data_ (peer_closed ∷ events) =
    if ltb 4096 (length data_)
    then (returns none, true, peer_closed ∷ events)
    else (returns none, true, events)
recv_bytes token data_ (event ∷ events) =
    if ltb 4096 (length data_)
    then (returns none, true, event ∷ events)
    else (protocol_error, false, events)

-- `_sock_recv_until(sock, token)`
unfoldable pub sock_recv_until : List ℕ → Client → Ending (Option (List ℕ)) × Client
unfolding recv_bytes
sock_recv_until token c =
    let (result, kept, events) = recv_bytes token [] c.events in
    (result, record c { has_sock = kept && c.has_sock; events = events })

module _ (return_of : List ℕ → Option (Option ℕ)) where
  -- The body of the loop of `_reset_conn`, after a response was read; `again` is the next round.
  -- `return_of` is the number in the field `return` of a response, `some none` for a response
  -- without one, and none where the decoder raises; `json.loads(None)` raises too.
  unfoldable pub check_response :
      ℕ
      → (Client → Ending (Unit {0}) × Client)
      → Ending (Option (List ℕ)) × Client
      → Ending (Unit {0}) × Client
  check_response seq again (returns none, c) = (type_error, c)
  check_response seq again (returns (some response), c) = elim (return_of response) [
    | none ↦ (type_error, c)
    | some none ↦ again c
    | some (some number) ↦ if number == seq then (returns tt, c) else again c
  ]
  check_response seq again (protocol_error, c) = (protocol_error, c)
  check_response seq again (type_error, c) = (type_error, c)
  check_response seq again (blocked, c) = (blocked, c)

  -- The loop, with one unit of fuel for each response.
  unfoldable pub await_sync : ℕ → ℕ → Client → Ending (Unit {0}) × Client
  unfolding sock_recv_until check_response
  await_sync zero seq c = (blocked, c)
  await_sync (suc fuel) seq c =
      check_response seq (await_sync fuel seq) (sock_recv_until (newline ∷ []) c)

  abbrev pub and_then :
      {A B : Type 0} → Ending A × Client → (A → Client → Ending B × Client) → Ending B × Client
  and_then (returns a, c) f = f a c
  and_then (protocol_error, c) f = (protocol_error, c)
  and_then (type_error, c) f = (type_error, c)
  and_then (blocked, c) f = (blocked, c)

  -- `_reset_conn(sock)`, with the request that `seq` makes
  unfoldable pub reset_conn : (ℕ → List ℕ) → ℕ → ℕ → Client → Ending (Unit {0}) × Client
  unfolding sock_send await_sync
  reset_conn sync_request fuel seq c =
      and_then (sock_send (sync_request seq) c) λ u c'. await_sync fuel seq c'

  -- `_connect()` and `_make_connection()`
  unfoldable pub connect : (ℕ → List ℕ) → ℕ → ℕ → Client → Ending (Unit {0}) × Client
  unfolding reset_conn
  connect sync_request fuel seq c = elim c.events [
    | [] ↦ (blocked, c)
    | connected ∷ events ↦
        reset_conn sync_request fuel seq (record c { has_sock = true; events = events })
    | event ∷ events ↦ (protocol_error, record c { has_sock = false; events = events })
  ]

  unfoldable pub make_connection : (ℕ → List ℕ) → ℕ → ℕ → Client → Ending (Unit {0}) × Client
  unfolding connect
  make_connection sync_request fuel seq c =
      let fresh = connect sync_request fuel seq c in if c.has_sock then (returns tt, c) else fresh

  -- `_call(command, args)`, with the request as bytes: the response, or none for `None`.
  unfoldable pub call : (ℕ → List ℕ) → ℕ → ℕ → List ℕ → Client → Ending (Option (List ℕ)) × Client
  unfolding make_connection sock_send sock_recv_until
  call sync_request fuel seq request c =
      and_then (make_connection sync_request fuel seq c)
        λ u c'. and_then (sock_send request c') λ v c''. sock_recv_until (newline ∷ []) c''
