-- ===== src/Tests/Registration.antt =====
-- The handlers of an agent whose messages are texts, named by their types.
use aries_framework_javascri.Prelude.{length, map_option, String, none, ◌≡◌, All, some}
use aries_framework_javascri.Exec.{ok}
use aries_framework_javascri.Agent.Receiver.{Receiving, get_handler_for_type}
use aries_framework_javascri.Agent.Registration.{
  Handle, Handles, assembled, register_modules, handled, get_handler_for_type-register_modules,
}
use aries_framework_javascri.Tests.Agent.{deps}

abbrev quiet : Handle Unit String
quiet context s = (ok none, s)

abbrev handles : Handles Unit String
handles = record {
  connection_request = quiet;
  connection_response = quiet;
  ack = quiet;
  trust_ping = quiet;
  trust_ping_response = quiet;
  propose_credential = quiet;
  offer_credential = quiet;
  request_credential = quiet;
  issue_credential = quiet;
  credential_ack = quiet;
  propose_presentation = quiet;
  request_presentation = quiet;
  presentation = quiet;
  presentation_ack = quiet;
  keylist_update = quiet;
  forward = quiet;
  message_pickup = quiet;
  basic_message = quiet;
}

abbrev receiving : Receiving Unit String String
receiving = record deps { message_type = λ m. m }

get_handler_for_type-register_modules_example :
    (length (register_modules handles) ≡ 18)
    × (length (handled receiving handles) ≡ 18)
    × All
        (λ p.
          map_option (λ h. h.handle) (get_handler_for_type (assembled receiving handles) p.0)
          ≡ some p.1)
        (handled receiving handles)
get_handler_for_type-register_modules_example =
    get_handler_for_type-register_modules receiving handles
