-- ===== src/Session/Requests.antt =====
-- A subscriber asks for a snapshot once, and again only after it was served.
use delta_stream.Common.{
  ℕ, ◌+◌, ◌≤◌, ◌≡◌, Bool, true, false, not, ◌&&◌, Bool-cases, inl, inr, List, [], ◌∷◌, ◌++◌, Option,
  arith,
}
use delta_stream.Error.{Result, ok, err}
use delta_stream.Libraries.{Libraries}
use delta_stream.Packet.{Packet}
use delta_stream.State.{AgentState}
use delta_stream.Stream.Decoder.{Decoder, ApplyResult, applied, need_snapshot, duplicate, is_at}
use delta_stream.Stream.Agent.{agent_apply_packet}
use delta_stream.Session.{
  ControlMessage, hello, hello_ack, ack, resync_request, SubscriberSession, is_delta, react,
  on_packet, then_run, run,
}

pub requests : List ControlMessage → ℕ
requests [] = 0
requests (resync_request c l r t ∷ ms) = 1 + requests ms
requests (ack c s ∷ ms) = requests ms
requests (hello c a b r ∷ ms) = requests ms
requests (hello_ack c v ∷ ms) = requests ms

pub acks : List ControlMessage → ℕ
acks [] = 0
acks (ack c s ∷ ms) = 1 + acks ms
acks (resync_request c l r t ∷ ms) = acks ms
acks (hello c a b r ∷ ms) = acks ms
acks (hello_ack c v ∷ ms) = acks ms

-- A request that has not been served.
abbrev pub open_request : Bool → ℕ
open_request true = 1
open_request false = 0

requests-append : (ms ns : List ControlMessage) → requests (ms ++ ns) ≡ requests ms + requests ns
unfolding requests
requests-append [] ns = omega arith
requests-append (resync_request c l r t ∷ ms) ns = omega (arith, requests-append ms ns)
requests-append (ack c s ∷ ms) ns = requests-append ms ns
requests-append (hello c a b r ∷ ms) ns = requests-append ms ns
requests-append (hello_ack c v ∷ ms) ns = requests-append ms ns

acks-append : (ms ns : List ControlMessage) → acks (ms ++ ns) ≡ acks ms + acks ns
unfolding acks
acks-append [] ns = omega arith
acks-append (ack c s ∷ ms) ns = omega (arith, acks-append ms ns)
acks-append (resync_request c l r t ∷ ms) ns = acks-append ms ns
acks-append (hello c a b r ∷ ms) ns = acks-append ms ns
acks-append (hello_ack c v ∷ ms) ns = acks-append ms ns

-- The requests of a step are paid for by its acknowledgements and by what is left open.
abbrev Balanced : SubscriberSession → SubscriberSession × List ControlMessage → Type 0
Balanced before (after, sent) =
    requests sent + open_request before.awaiting_snapshot
    ≤ acks sent + open_request after.awaiting_snapshot

abbrev StepBalanced : SubscriberSession → SubscriberSession × Result (List ControlMessage) → Type 0
StepBalanced before (after, err e) = Balanced before (after, [])
StepBalanced before (after, ok sent) = Balanced before (after, sent)

react-StepBalanced :
    (s : SubscriberSession) (d : Decoder AgentState) (r : Result (ApplyResult AgentState))
    → StepBalanced s (react s (d, r))
unfolding react requests acks
react-StepBalanced s d (err e) = omega arith
react-StepBalanced s d (ok (applied n state)) = ground arith
react-StepBalanced s d (ok (duplicate n)) = omega arith
react-StepBalanced s d (ok (need_snapshot l r)) = elim (Bool-cases s.awaiting_snapshot) [
  | inl waiting ↦ rw waiting (omega arith)
  | inr calm ↦ rw calm (omega arith)
]

module _ (lib : Libraries) (drop_once : Option ℕ) where
  on_packet-StepBalanced :
      (s : SubscriberSession) (p : Packet) → StepBalanced s (on_packet lib drop_once s p)
  unfolding on_packet requests acks
  on_packet-StepBalanced s p =
      elim (Bool-cases (not s.dropped && (is_at drop_once p.sequence && is_delta p.kind))) [
        | inl lost ↦ rw lost (omega arith)
        | inr taken ↦ rw taken (
            react-StepBalanced s (agent_apply_packet lib s.decoder p).0
              (agent_apply_packet lib s.decoder p).1)
      ]

  then_run-Balanced :
      (s : SubscriberSession) (step : SubscriberSession × Result (List ControlMessage))
      (rest : SubscriberSession → SubscriberSession × List ControlMessage)
      → StepBalanced s step
      → ((t : SubscriberSession) → Balanced t (rest t))
      → Balanced s (then_run lib drop_once step rest)
  unfolding then_run
  then_run-Balanced s (after, err e) rest h k = h
  then_run-Balanced s (after, ok sent) rest h k =
      omega
        (arith, h, k after, requests-append sent (rest after).1, acks-append sent (rest after).1)

  -- Whatever packets a subscriber session receives, the requests for a snapshot that it publishes,
  -- with one more if a request was open before, are no more than its acknowledgements of applied
  -- packets, with one more if a request is open afterwards: it never asks again before a packet was
  -- applied.
  pub run-requests :
      (packets : List Packet) (s : SubscriberSession)
      → requests (run lib drop_once packets s).1 + open_request s.awaiting_snapshot
        ≤ acks (run lib drop_once packets s).1
          + open_request (run lib drop_once packets s).0.awaiting_snapshot
  unfolding run requests acks
  run-requests [] s = omega arith
  run-requests (p ∷ packets) s =
      then_run-Balanced s (on_packet lib drop_once s p) (run lib drop_once packets)
        (on_packet-StepBalanced s p) (run-requests packets)
