-- ===== src/AgentClient/Tests.antt =====
-- Runs of the connection to a guest agent, and the theorems about it at concrete inputs.
use mom_perf_fair_scheduler.Common.{
  ℕ, ◌≡◌, refl, true, false, Option, none, some, List, [], ◌∷◌, ◌++◌, arith,
}
use mom_perf_fair_scheduler.AgentClient.{
  accepted, byte, timeout, connected, peer_closed, returns, protocol_error, type_error, Client,
  sock_send, await_sync, connect,
}
use mom_perf_fair_scheduler.AgentClient.Lines.{
  SentState, open_client, lines_of, bytes_of, ended, sock_send-wire, await_sync-skips,
}

-- The socket takes two bytes, and then nothing in time.
abbrev slow : Client
slow = record { has_sock = true; wire = []; events = accepted 2 ∷ timeout ∷ [] }

sock_send_runs :
    sock_send (1 ∷ 2 ∷ 3 ∷ []) slow
    ≡ (protocol_error, record { has_sock = false; wire = 1 ∷ 2 ∷ []; events = [] })
unfolding sock_send
sock_send_runs = refl

sock_send-wire_example :
    (unsent : List ℕ) × ((sock_send (1 ∷ 2 ∷ 3 ∷ []) slow).1.wire ++ unsent ≡ 1 ∷ 2 ∷ 3 ∷ [])
    × SentState true
        (sock_send (1 ∷ 2 ∷ 3 ∷ []) slow).0
        (sock_send (1 ∷ 2 ∷ 3 ∷ []) slow).1.has_sock
        unsent
sock_send-wire_example = sock_send-wire (1 ∷ 2 ∷ 3 ∷ []) slow

-- A response is a number in one byte.
abbrev number_in : List ℕ → Option (Option ℕ)
number_in [] = none
number_in (b ∷ bytes) = some (some b)

-- A stale response, the response that is waited for, and one byte more.
abbrev client : Client
client = open_client [] (lines_of ((4 ∷ []) ∷ []) ++ (bytes_of (ended (7 ∷ [])) ++ byte 9 ∷ []))

await_sync-skips_example :
    await_sync number_in 2 7 client ≡ (returns tt, open_client [] (byte 9 ∷ []))
await_sync-skips_example =
    await_sync-skips number_in 2 7 ((4 ∷ []) ∷ []) (7 ∷ []) [] (byte 9 ∷ [])
      (record { line = record { inner = (refl, tt); short = omega arith }; other = refl }, tt)
      (record { inner = (refl, tt); short = omega arith }) refl (omega arith)

-- Where the agent closes the connection first, the decoder of the response raises, and the socket
-- that is of no use any more is kept.
closed_runs :
    connect number_in
      (λ seq. seq ∷ [])
      5
      7
      (record { has_sock = false; wire = []; events = connected ∷ accepted 1 ∷ peer_closed ∷ [] })
    ≡ (type_error, open_client (7 ∷ []) [])
unfolding connect
closed_runs = refl
