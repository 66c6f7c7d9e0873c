-- ===== src/Exchange/Reading.antt =====
-- `WsSession::onRead`, and the events that the session goes through.
use trading_chart_viewer.Common.{
  ℕ, Bool, true, false, Option, none, some, List, [], ◌∷◌, if◌then◌else◌,
}
use trading_chart_viewer.Common.Int.{ℤ, pos}
use trading_chart_viewer.Common.Double.{DoubleOps}
use trading_chart_viewer.Domain.Label.{Text, codes}
use trading_chart_viewer.Config.Texts.{same_text}
use trading_chart_viewer.Exchange.Json.{JsonOps, ◌>>=◌}
use trading_chart_viewer.Exchange.Socket.{
  Pending, WsSession, do_read, handle_kline, handle_failure, schedule_reconnect, on_handshake,
  on_ssl_handshake, on_reconnect_timer, call_on_error, start_session, stop_session,
}

-- How the block of `onRead` that may throw ends: by `return`, or at its end with a new session.
pub data Reaction (D : Type 0) : Type 0 where
  returns : Reaction D
  ends : WsSession D → Reaction D

module _ {D J : Type 0} (ops : DoubleOps D) (json : JsonOps D J) where
  abbrev object_of : Option J → Option J
  object_of none = none
  object_of (some v) = if json.is_object v then some v else none

  -- The member "data" where it is an object, and the root otherwise.
  abbrev pub payload_or : J → Option J → J
  payload_or root none = root
  payload_or root (some v) = v

  unfoldable pub payload_of : J → J
  payload_of root = payload_or root (object_of (json.if_contains root (codes "data")))

  -- Whether the payload is no event, or one of the name "kline".
  abbrev kline_event : Option J → Option Bool
  kline_event none = some true
  kline_event (some e) = do name ← json.as_string e; some (same_text name (codes "kline"))

  -- An exception ends the block too.
  abbrev pub or_same : WsSession D → Option (WsSession D) → Reaction D
  or_same w none = Reaction.ends w
  or_same w (some w') = Reaction.ends w'

  abbrev pub take_object : WsSession D → Option J → Reaction D
  take_object w none = Reaction.returns
  take_object w (some k) = or_same w (handle_kline ops json k w)

  abbrev pub take_event : WsSession D → J → Option Bool → Reaction D
  take_event w payload none = Reaction.ends w
  take_event w payload (some false) = Reaction.returns
  take_event w payload (some true) =
      take_object w (object_of (json.if_contains payload (codes "k")))

  abbrev pub take_value : WsSession D → Option J → Reaction D
  take_value w none = Reaction.ends w
  take_value w (some root) =
      if json.is_object root
      then take_event w (payload_of root)
          (kline_event (json.if_contains (payload_of root) (codes "e")))
      else Reaction.returns

  unfoldable pub react : Text → WsSession D → Reaction D
  unfolding payload_of handle_kline same_text
  react payload w = take_value w (json.parse payload)

  abbrev pub after_reaction : WsSession D → Reaction D → WsSession D
  after_reaction w Reaction.returns = w
  after_reaction w (Reaction.ends w') = do_read w'

  -- A message has been read; the read is done, and a return from the block starts no other.
  unfoldable pub on_read : Text → WsSession D → WsSession D
  unfolding react do_read
  on_read payload w =
      let done = record w { pending = Pending.nothing } in after_reaction done (react payload done)

-- What happens to the session: its handlers are called with the code of an error or with none.
pub data SocketEvent : Type 0 where
  starting stopping timer_fired idle_timeout closed : SocketEvent
  resolved connected tls_ready upgraded : SocketEvent
  failed : ℤ → SocketEvent
  message : Text → SocketEvent

module _ {D J : Type 0} (ops : DoubleOps D) (json : JsonOps D J) (jitter : ℕ → ℕ) where
  unfoldable pub on_event : WsSession D → SocketEvent → WsSession D
  unfolding start_session stop_session on_reconnect_timer schedule_reconnect handle_failure
      on_ssl_handshake on_handshake on_read
  on_event w SocketEvent.starting = start_session w
  on_event w SocketEvent.stopping = stop_session w
  on_event w SocketEvent.timer_fired = on_reconnect_timer w
  on_event w SocketEvent.idle_timeout =
      if w.running then schedule_reconnect jitter (call_on_error (pos 0) w) else w
  on_event w SocketEvent.closed = schedule_reconnect jitter w
  on_event w SocketEvent.resolved = record w { pending = Pending.connecting }
  on_event w SocketEvent.connected = record w { pending = Pending.tls_handshaking }
  on_event w SocketEvent.tls_ready = on_ssl_handshake w
  on_event w SocketEvent.upgraded = on_handshake w
  on_event w (SocketEvent.failed code) = handle_failure jitter code w
  on_event w (SocketEvent.message text) = on_read ops json text w

  unfoldable pub on_events : WsSession D → List SocketEvent → WsSession D
  on_events w [] = w
  on_events w (e ∷ es) = on_events (on_event w e) es
