-- ===== src/Session.antt =====
-- src/control.rs, and `SubscriberSession` of src/session.rs: what it publishes for each packet. The
-- transport and the decoding of messages are left out: packets come in, control messages go out.
pub mod Requests
use delta_stream.Common.{
  ℕ, ◌+◌, Bool, true, false, not, ◌&&◌, List, [], ◌∷◌, ◌++◌, Option, none, some, if◌then◌else◌,
}
use delta_stream.Error.{DeltaError, Result, ok, err}
use delta_stream.Libraries.{Libraries}
use delta_stream.Packet.{Packet, PacketKind, default_config}
use delta_stream.State.{AgentState}
use delta_stream.Stream.Decoder.{
  Decoder, ApplyResult, applied, need_snapshot, duplicate, is_at, new_decoder,
}
use delta_stream.Stream.Agent.{agent_apply_packet}

-- Strings are their bytes.
pub data ControlMessage : Type 0 where
  hello : List ℕ → ℕ → ℕ → List ℕ → ControlMessage
  hello_ack : List ℕ → ℕ → ControlMessage
  ack : List ℕ → ℕ → ControlMessage
  resync_request : List ℕ → Option ℕ → ℕ → List ℕ → ControlMessage

-- `dropped` is the local variable of `run`.
pub record SubscriberSession : Type 0 where
  pub client_id : List ℕ
  pub reply_topic : List ℕ
  pub decoder : Decoder AgentState
  pub awaiting_snapshot : Bool
  pub dropped : Bool

unfoldable pub new_session : List ℕ → List ℕ → SubscriberSession
unfolding new_decoder
new_session client reply = record {
  client_id = client;
  reply_topic = reply;
  decoder = new_decoder default_config;
  awaiting_snapshot = false;
  dropped = false;
}

unfoldable pub is_delta : PacketKind → Bool
is_delta PacketKind.snapshot = false
is_delta PacketKind.delta = true

-- The match on what the decoder answers, with what is published.
unfoldable pub react :
    SubscriberSession
    → Decoder AgentState × Result (ApplyResult AgentState)
    → SubscriberSession × Result (List ControlMessage)
react self (d, err e) = (record self { decoder = d }, err e)
react self (d, ok (applied sequence_ state_)) =
    (record self { decoder = d; awaiting_snapshot = false }, ok (ack self.client_id sequence_ ∷ []))
react self (d, ok (duplicate sequence_)) = (record self { decoder = d }, ok [])
react self (d, ok (need_snapshot local required)) =
    if not self.awaiting_snapshot
    then (
      record self { decoder = d; awaiting_snapshot = true },
      ok (resync_request self.client_id local required self.reply_topic ∷ []),
    )
    else (record self { decoder = d }, ok [])

module _ (lib : Libraries) (drop_once_sequence : Option ℕ) where
  -- One packet: the one that is to be dropped once, or one for the decoder.
  unfoldable pub on_packet :
      SubscriberSession → Packet → SubscriberSession × Result (List ControlMessage)
  unfolding is_delta is_at react agent_apply_packet
  on_packet self packet =
      if not self.dropped && (is_at drop_once_sequence packet.sequence && is_delta packet.kind)
      then (record self { dropped = true }, ok [])
      else react self (agent_apply_packet lib self.decoder packet)

  -- What follows one packet in the loop; an error ends it.
  unfoldable pub then_run :
      SubscriberSession × Result (List ControlMessage)
      → (SubscriberSession → SubscriberSession × List ControlMessage)
      → SubscriberSession × List ControlMessage
  then_run (self, err e) rest = (self, [])
  then_run (self, ok sent) rest = let later = rest self in (later.0, sent ++ later.1)

  -- The loop over the packets, with all that it publishes.
  unfoldable pub run : List Packet → SubscriberSession → SubscriberSession × List ControlMessage
  unfolding on_packet then_run
  run [] self = (self, [])
  run (packet ∷ packets) self = then_run (on_packet self packet) (run packets)
