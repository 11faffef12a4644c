-- ===== src/AgentClient/Lines.antt =====
-- Proofs about what `_sock_send`, `_sock_recv_until` and `_reset_conn` of
-- mom/Collectors/QemuGuestAgentClient.py send and read.
use mathlib.Core.List.{append_assoc}
use mom_perf_fair_scheduler.Common.{
  ℕ, zero, suc, ◌+◌, ◌-◌, ◌≤◌, ◌<◌, ◌≡◌, refl, ap, ◌∙◌, subst, Bool, true, false, not, ◌&&◌, Option,
  none, some, List, [], ◌∷◌, ◌++◌, arith, ◌==◌, ltb, length, drop, length-append, All, Option-cases,
  inl, inr,
}
use mom_perf_fair_scheduler.AgentClient.{
  Event, accepted, byte, peer_closed, connected, timeout, socket_error, Ending, returns,
  protocol_error, type_error, blocked, Client, newline, take, send_bytes, sock_send, ends_in,
  recv_bytes, sock_recv_until, check_response, await_sync,
}

-- What has become of the bytes that are not sent, and of the socket.
abbrev pub SentState : Bool → Ending (Unit {0}) → Bool → List ℕ → Type 0
SentState before (returns u) has_sock unsent = (unsent ≡ []) × (has_sock ≡ before)
SentState before protocol_error has_sock unsent = has_sock ≡ false
SentState before type_error has_sock unsent = ⊥
SentState before blocked has_sock unsent = has_sock ≡ before

take-drop : (n : ℕ) (bytes : List ℕ) → take n bytes ++ drop n bytes ≡ bytes
take-drop zero bytes = refl
take-drop (suc n) [] = refl
take-drop (suc n) (b ∷ bytes) = ap (λ r. b ∷ r) (take-drop n bytes)

-- What a run sends, and what it leaves.
Sent : Bool → List ℕ → Ending (Unit {0}) × Client → Type 0
Sent before all run =
    (unsent : List ℕ) × (run.1.wire ++ unsent ≡ all) × SentState before run.0 run.1.has_sock unsent

send_bytes-Sent :
    (before : Bool) (wire msg : List ℕ) (events : List Event)
    → Sent before (wire ++ msg) (send_bytes before wire msg events)
unfolding send_bytes Sent
send_bytes-Sent before wire [] events = ([], refl, (refl, refl))
send_bytes-Sent before wire (b ∷ msg) [] = (b ∷ msg, refl, refl)
send_bytes-Sent before wire (b ∷ msg) (accepted zero ∷ events) = (b ∷ msg, refl, refl)
send_bytes-Sent before wire (b ∷ msg) (accepted (suc n) ∷ events) =
    subst
      (λ all.
        Sent before all
          (send_bytes before (wire ++ take (suc n) (b ∷ msg)) (drop (suc n) (b ∷ msg)) events))
      (append_assoc wire (take (suc n) (b ∷ msg)) (drop (suc n) (b ∷ msg))
        ∙ ap (λ m. wire ++ m) (take-drop (suc n) (b ∷ msg)))
      (send_bytes-Sent before (wire ++ take (suc n) (b ∷ msg)) (drop (suc n) (b ∷ msg)) events)
send_bytes-Sent before wire (b ∷ msg) (byte c ∷ events) = (b ∷ msg, refl, refl)
send_bytes-Sent before wire (b ∷ msg) (peer_closed ∷ events) = (b ∷ msg, refl, refl)
send_bytes-Sent before wire (b ∷ msg) (connected ∷ events) = (b ∷ msg, refl, refl)
send_bytes-Sent before wire (b ∷ msg) (timeout ∷ events) = (b ∷ msg, refl, refl)
send_bytes-Sent before wire (b ∷ msg) (socket_error ∷ events) = (b ∷ msg, refl, refl)

-- Whatever the socket does, what `_sock_send` has sent and what it has not sent yet make up the
-- message; all is sent and `self.sock` is what it was where it returns, and where it raises
-- `ProtocolError` there is no socket any more.
pub sock_send-wire :
    (msg : List ℕ) (c : Client)
    → (unsent : List ℕ) × ((sock_send msg c).1.wire ++ unsent ≡ c.wire ++ msg)
      × SentState c.has_sock (sock_send msg c).0 (sock_send msg c).1.has_sock unsent
unfolding sock_send Sent
sock_send-wire msg c = send_bytes-Sent c.has_sock c.wire msg c.events

-- The bytes as they come from the socket.
abbrev pub bytes_of : List ℕ → List Event
bytes_of [] = []
bytes_of (b ∷ bytes) = byte b ∷ bytes_of bytes

-- A line without its end, which is short enough.
pub record IsLine (line : List ℕ) : Type 0 where
  pub inner : All (λ b. (b == newline) ≡ false) line
  pub short : length line ≤ 4096

drop-last : (data_ : List ℕ) (b : ℕ) → drop (length data_) (data_ ++ b ∷ []) ≡ b ∷ []
drop-last [] b = refl
drop-last (a ∷ data_) b = drop-last data_ b

ends_in-newline :
    (data_ : List ℕ) (b : ℕ) → ends_in (newline ∷ []) (data_ ++ b ∷ []) ≡ (b == newline)
unfolding ends_in
ends_in-newline data_ b =
    let count : length (data_ ++ b ∷ []) - 1 ≡ length data_ =
      omega (arith, length-append data_ (b ∷ [])) in
    rw (count, drop-last data_ b) (ground arith)

recv_bytes-line :
    (data_ line : List ℕ) (rest : List Event)
    → All (λ b. (b == newline) ≡ false) line
    → length data_ + length line ≤ 4096
    → recv_bytes (newline ∷ []) data_ (bytes_of (line ++ newline ∷ []) ++ rest)
      ≡ (returns (some (data_ ++ (line ++ newline ∷ []))), true, rest)
unfolding recv_bytes
recv_bytes-line data_ [] rest inner short =
    let few : ltb 4096 (length data_) ≡ false = ground (arith, short) in
    rw (few, ends_in-newline data_ newline) refl
recv_bytes-line data_ (b ∷ line) rest inner short =
    let few : ltb 4096 (length data_) ≡ false = ground (arith, short) in
    rw (few, ends_in-newline data_ b ∙ inner.0)
      (recv_bytes-line (data_ ++ b ∷ []) line rest inner.1
          (omega (arith, short, length-append data_ (b ∷ [])))
        ∙ ap (λ m. (returns (some m), true, rest))
            (append_assoc data_ (b ∷ []) (line ++ newline ∷ [])))

-- A line with its end, as it comes from the socket.
abbrev pub ended : List ℕ → List ℕ
ended line = line ++ newline ∷ []

-- A client with a socket.
abbrev pub open_client : List ℕ → List Event → Client
open_client wire events = record { has_sock = true; wire = wire; events = events }

sock_recv_until-line :
    (line wire : List ℕ) (rest : List Event)
    → IsLine line
    → sock_recv_until (newline ∷ []) (open_client wire (bytes_of (ended line) ++ rest))
      ≡ (returns (some (ended line)), open_client wire rest)
unfolding sock_recv_until
sock_recv_until-line line wire rest h =
    ap
      (λ (r : Ending (Option (List ℕ)) × Bool × List Event).
        (r.0, record (open_client wire []) { has_sock = r.1 && true; events = r.2 }))
      (recv_bytes-line [] line rest h.inner (omega (arith, h.short)))

-- All the lines, as they come from the socket.
abbrev pub lines_of : List (List ℕ) → List Event
lines_of [] = []
lines_of (line ∷ lines) = bytes_of (ended line) ++ lines_of lines

-- The response is not the one to the request with this number.
abbrev pub is_stale : ℕ → Option (Option ℕ) → Bool
is_stale seq none = false
is_stale seq (some none) = true
is_stale seq (some (some number)) = not (number == seq)

module _ (return_of : List ℕ → Option (Option ℕ)) where
  -- A response with another number, or without one.
  pub record IsStale (seq : ℕ) (response : List ℕ) : Type 0 where
    pub line : IsLine response
    pub other : is_stale seq (return_of (ended response)) ≡ true

  check_response-stale :
      (seq : ℕ) (again : Client → Ending (Unit {0}) × Client) (response : List ℕ) (c : Client)
      → is_stale seq (return_of response) ≡ true
      → check_response return_of seq again (returns (some response), c) ≡ again c
  unfolding check_response
  check_response-stale seq again response c h = elim (Option-cases (return_of response)) [
    | inl e ↦ absurd (ground (arith, h, e))
    | inr (none, e) ↦ rw (e, check_response) refl
    | inr (some number, e) ↦
        let other : (number == seq) ≡ false = ground (arith, rw e at h) in
        rw (e, other, check_response) refl
  ]

  await_sync-stale :
      (fuel seq : ℕ) (line wire : List ℕ) (rest : List Event)
      → IsStale seq line
      → await_sync return_of (suc fuel) seq (open_client wire (bytes_of (ended line) ++ rest))
        ≡ await_sync return_of fuel seq (open_client wire rest)
  unfolding await_sync
  await_sync-stale fuel seq line wire rest h =
      ap (check_response return_of seq (await_sync return_of fuel seq))
        (sock_recv_until-line line wire rest h.line)
      ∙ check_response-stale seq (await_sync return_of fuel seq) (ended line) _ h.other

  await_sync-answer :
      (fuel seq : ℕ) (answer wire : List ℕ) (rest : List Event)
      → IsLine answer
      → return_of (ended answer) ≡ some (some seq)
      → await_sync return_of (suc fuel) seq (open_client wire (bytes_of (ended answer) ++ rest))
        ≡ (returns tt, open_client wire rest)
  unfolding await_sync check_response
  await_sync-answer fuel seq answer wire rest h e =
      let same : (seq == seq) ≡ true = ground arith in
      ap (check_response return_of seq (await_sync return_of fuel seq))
        (sock_recv_until-line answer wire rest h)
      ∙ rw (e, same, check_response) refl

  -- If the responses before the one that is waited for are lines of at most 4096 bytes with another
  -- number or none, and that one is such a line with its number, then with more fuel than there are
  -- such responses `_reset_conn` ends its loop well, and leaves on the socket exactly what follows.
  pub await_sync-skips :
      (fuel seq : ℕ) (stale : List (List ℕ)) (answer wire : List ℕ) (rest : List Event)
      → All (IsStale seq) stale
      → IsLine answer
      → return_of (ended answer) ≡ some (some seq)
      → length stale < fuel
      → await_sync return_of fuel seq
          (open_client wire (lines_of stale ++ (bytes_of (ended answer) ++ rest)))
        ≡ (returns tt, open_client wire rest)
  await_sync-skips zero seq stale answer wire rest old line same enough = absurd (omega arith)
  await_sync-skips (suc fuel) seq [] answer wire rest old line same enough =
      await_sync-answer fuel seq answer wire rest line same
  await_sync-skips (suc fuel) seq (first ∷ stale) answer wire rest old line same enough =
      let others = bytes_of (ended answer) ++ rest in
      ap (λ events. await_sync return_of (suc fuel) seq (open_client wire events))
        (append_assoc (bytes_of (ended first)) (lines_of stale) others)
      ∙ await_sync-stale fuel seq first wire (lines_of stale ++ others) old.0
      ∙ await_sync-skips fuel seq stale answer wire rest old.1 line same (omega (arith, enough))
