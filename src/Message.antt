-- ===== src/Message.antt =====
-- agent/BaseMessage.ts, agent/AgentMessage.ts and the decorators of decorators/: what every message
-- carries. Of the thread decorator the thread id is kept, the one field that the framework sets; dates are
-- in milliseconds.
use aries_framework_javascri.Prelude.{
  String, Bool, true, false, Option, none, some, ◌==◌, or_option, truthy, bind_option, ℕ, leb, ◌+◌,
  List, [], ◌∷◌, ◌||◌, codes, same_number, is_alphanumeric, if◌then◌else◌,
}

-- decorators/transport/TransportDecorator.ts
pub data ReturnRouteTypes : Type 0 where
  none_route all_route thread_route : ReturnRouteTypes

pub record TransportDecorator : Type 0 where
  pub return_route : Option ReturnRouteTypes
  pub return_route_thread : Option String

pub record ThreadDecorator : Type 0 where
  pub thread_id : Option String

-- decorators/timing/TimingDecorator.ts and decorators/l10n/L10nDecorator.ts
pub record TimingDecorator : Type 0 where
  pub in_time : Option ℕ
  pub out_time : Option ℕ
  pub stale_time : Option ℕ
  pub expires_time : Option ℕ
  pub delay_milli : Option ℕ
  pub wait_until_time : Option ℕ

pub record L10nDecorator : Type 0 where
  pub locale : Option String

-- A constructor that is given no options leaves `id` undefined.
pub record AgentMessage : Type 0 where
  pub id : Option String
  pub thread : Option ThreadDecorator
  pub transport : Option TransportDecorator
  pub please_ack : Bool
  pub timing : Option TimingDecorator
  pub l10n : Option L10nDecorator

-- A message as its constructor leaves it.
abbrev pub new_message : String → AgentMessage
new_message id = record {
  id = some id;
  thread = none;
  transport = none;
  please_ack = false;
  timing = none;
  l10n = none;
}

-- The getter `threadId`.
abbrev pub thread_id : AgentMessage → Option String
thread_id m = or_option (bind_option m.thread (λ t. t.thread_id)) m.id

-- A message whose constructor was given no options.
abbrev pub bare_message : AgentMessage
bare_message = record {
  id = none;
  thread = none;
  transport = none;
  please_ack = false;
  timing = none;
  l10n = none;
}

abbrev pub set_thread : Option String → AgentMessage → AgentMessage
set_thread thread m = record m { thread = some (record { thread_id = thread }) }

abbrev pub set_please_ack : AgentMessage → AgentMessage
set_please_ack m = record m { please_ack = true }

-- `requiresAck`
abbrev pub requires_ack : AgentMessage → Bool
requires_ack m = m.please_ack

abbrev pub set_timing : TimingDecorator → AgentMessage → AgentMessage
set_timing timing m = record m { timing = some timing }

abbrev pub add_locale : String → AgentMessage → AgentMessage
add_locale locale m = record m { l10n = some (record { locale = some locale }) }

-- `getLocale`: no locale for an empty one.
abbrev pub get_locale : AgentMessage → Option String
get_locale m = truthy (bind_option m.l10n (λ l. l.locale))

abbrev pub set_return_routing : ReturnRouteTypes → Option String → AgentMessage → AgentMessage
set_return_routing route thread m = record m {
  transport = some (record { return_route = some route; return_route_thread = thread });
}

-- `a === b`
abbrev same_thread : Option String → Option String → Bool
same_thread none none = true
same_thread (some thread) (some wanted) = thread == wanted
same_thread _ _ = false

route_returns : Option ReturnRouteTypes → Option String → Option String → Bool
route_returns none _ _ = false
route_returns (some none_route) _ _ = false
route_returns (some all_route) _ _ = true
route_returns (some thread_route) thread wanted = same_thread thread wanted

transport_returns : Option TransportDecorator → Option String → Bool
unfolding route_returns
transport_returns none wanted = false
transport_returns (some t) wanted = route_returns t.return_route t.return_route_thread wanted

-- `hasReturnRouting`
unfoldable pub has_return_routing : AgentMessage → Option String → Bool
unfolding transport_returns
has_return_routing m wanted = transport_returns m.transport wanted

-- `MessageIdRegExp`, /[-_./a-zA-Z0-9]{8,64}/: the text has eight such characters in a row. The
-- upper bound is no restriction, since nothing has to follow the match.
is_id_character : ℕ → Bool
is_id_character c =
    same_number c b'-'
    || same_number c b'_'
    || same_number c b'.'
    || same_number c b'/'
    || is_alphanumeric c

-- `run` characters of the class stand just before the text.
has_run : ℕ → List ℕ → Bool
unfolding is_id_character
has_run run [] = leb 8 run
has_run run (c ∷ text) = leb 8 run || has_run (if is_id_character c then run + 1 else 0) text

unfoldable pub matches_message_id : Option String → Bool
unfolding has_run
matches_message_id none = false
matches_message_id (some id) = has_run 0 (codes id)
