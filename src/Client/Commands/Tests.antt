-- ===== src/Client/Commands/Tests.antt =====
-- Messages of an application, handled.
use drachtio_server.Common.{
  ℕ, ◌≡◌, refl, true, false, none, some, List, [], ◌∷◌, ◌++◌, ◌==◌, if◌then◌else◌, Text, codes,
  text_eq, starts_with,
}
use drachtio_server.Common.Dict
use drachtio_server.ClientController.{Live, api_response, empty}
use drachtio_server.ClientController.Transactions.{route_api_response}
use drachtio_server.ClientController.Applications
use drachtio_server.ClientController.Applications.{System, Stack, ProxyOptions}
use drachtio_server.Drachtio.Messages.{
  Strings, split_msg, cut_at, parts_of, parts_of_chunk, lines_of, get_value_for_header, find_header,
}
use drachtio_server.SipDialogController.Outbox.{Outbox, sent, outbox_stack}
use drachtio_server.SipDialogController.Outbox.Copies.{outbox_stack-KeepsClients}
use drachtio_server.Client.Commands.{
  Connection, Server, create_response_msg, process_client_message,
}
use drachtio_server.Client.Commands.Refusals.{process_client_message-refused}
use drachtio_server.Client.Commands.Requests.{Asked, process_client_message-answered_later}

abbrev push : ℕ → List Text → List Text
push c [] = (c ∷ []) ∷ []
push c (t ∷ ts) = (c ∷ t) ∷ ts

abbrev split_on : ℕ → Text → List Text
split_on separator [] = [] ∷ []
split_on separator (c ∷ s) =
    let rest = split_on separator s in if c == separator then [] ∷ rest else push c rest

abbrev split_at : Text → Text → List Text
split_at [] s = s ∷ []
split_at (separator ∷ more) s = split_on separator s

abbrev strings : Strings
strings = record {
  split = split_at;
  split_compress = split_at;
  trim = λ s. s;
  iequals = text_eq;
  tokenize = split_at;
}

abbrev live : Live
live c = some (record { tags = []; app_name = [] })

abbrev no_proxy : Text → Text → ProxyOptions → Text → System Outbox → System Outbox
no_proxy m u o h s = s

abbrev stack : Stack Outbox
stack = outbox_stack sent live (codes "d") no_proxy

abbrev server : Server
server = record {
  is_secret = text_eq (codes "cymru");
  host_ports = codes "udp/1.2.3.4:5060";
  version = codes "v0.9.4";
  local_host_ports = [];
}

abbrev idle : Connection Outbox
idle = record {
  system = record {
    world = record {
      pending = record {
        objects = λ a. record {
          transaction_id = [];
          sip = record {
            call_id = [];
            is_cancel = false;
            is_invite = false;
            method_name = [];
            cseq_method = [];
            cseq = [];
            branch = none;
            to_tag = none;
          };
          timer = 0;
          canceled = false;
          meta = [];
          encoded_msg = [];
        };
        by_call_id = [];
        by_transaction = [];
        timers = [];
      };
      clients = empty;
      route_requests = [];
    };
    stack = record { jobs = []; dialog_ids = [] };
  };
  tags = [];
}

process_client_message-refused_example :
    (idle.system ≡ idle.system)
    × ((reason : Text) × (codes "u|response|7|NO|Unknown message type"
          ≡ create_response_msg (codes "u") (codes "7") false (some reason)))
unfolding process_client_message split_msg cut_at parts_of starts_with text_eq create_response_msg
process_client_message-refused_example =
    process_client_message-refused strings stack server live 1 (codes "u") (codes "t")
      (codes "7|fly") (codes "u|response|7|NO|Unknown message type") idle idle refl

-- An OPTIONS request outside a dialog.
abbrev options : Text
options = codes "7|sip|||" ++ 13 ∷ 10 ∷ codes "OPTIONS sip:a@b SIP/2.0" ++ 13 ∷ 10 ∷ codes "To: x"

abbrev after_options : Connection Outbox
after_options = record idle {
  system =
      (Applications.send_request_outside_dialog stack 1 (codes "t") (codes "7")
        (codes "OPTIONS sip:a@b SIP/2.0") (codes "To: x") [] [] [] idle.system).1;
}

process_client_message-answered_later_example :
    let r =
      route_api_response live (codes "7") (codes "OK") [] after_options.system.world.clients in
    Asked strings stack server live 1
      (codes "u")
      (codes "t")
      (codes "7")
      idle.system
      after_options.system
    × (r.0 ≡ true)
    × (r.1.posted
        ≡ after_options.system.world.clients.posted
          ++ (1, api_response (codes "7") (codes "OK") []) ∷ [])
unfolding process_client_message split_msg cut_at parts_of parts_of_chunk lines_of starts_with
    text_eq get_value_for_header find_header Dict.find
process_client_message-answered_later_example =
    process_client_message-answered_later strings stack server live 1 (codes "u") (codes "t")
      options (codes "OK") [] idle after_options
      (outbox_stack-KeepsClients live (codes "d") no_proxy (λ m u o h s. refl)) refl refl refl refl
