-- ===== src/SipDialogController/Outbox/Tests.antt =====
-- A BYE posted to the stack thread.
use drachtio_server.Common.{
  Bool, ◌≡◌, refl, true, false, none, some, [], ◌∷◌, ◌++◌, arith, codes, text_eq,
}
use drachtio_server.ClientController.{Live, empty}
use drachtio_server.ClientController.Applications.{System}
use drachtio_server.SipDialogController.Outbox.{
  Outbox, sent, request_inside_dialog, send_request_inside_dialog, find_dialog_by_call_id,
}
use drachtio_server.SipDialogController.Outbox.Copies.{send_request_inside_dialog-whole}

abbrev live : Live
live c = none

abbrev idle : System Outbox
idle = record {
  world = record {
    pending = record {
      objects = λ a. record {
        transaction_id = [];
        sip = record {
          call_id = [];
          is_cancel = false;
          is_invite = false;
          method_name = [];
          cseq_method = [];
          cseq = [];
          branch = none;
          to_tag = none;
        };
        timer = 0;
        canceled = false;
        meta = [];
        encoded_msg = [];
      };
      by_call_id = [];
      by_transaction = [];
      timers = [];
    };
    clients = empty;
    route_requests = [];
  };
  stack = record { jobs = []; dialog_ids = codes "c;uac" ∷ [] };
}

-- Without a dialog as the called side, the one as the calling side is found.
find_dialog_uac : find_dialog_by_call_id (codes "c") idle ≡ some (codes "c;uac")
unfolding find_dialog_by_call_id text_eq
find_dialog_uac = refl

send_request_inside_dialog-whole_example :
    (r : Bool × System Outbox) × (send_request_inside_dialog sent live []
        (codes "7")
        (codes "c;uac")
        (codes "BYE x SIP/2.0")
        (codes "To: x")
        []
        (codes "t")
        idle
      ≡ some r)
    × (r.0 ≡ true)
    × (r.1.world ≡ idle.world)
    × (r.1.stack.dialog_ids ≡ idle.stack.dialog_ids)
    × (r.1.stack.jobs
        ≡ idle.stack.jobs
          ++ request_inside_dialog (record {
            client_msg_id = codes "7";
            transaction_id = codes "t";
            request_id = [];
            dialog_id = codes "c;uac";
            start_line = codes "BYE x SIP/2.0";
            headers = codes "To: x";
            body = [];
            route_url = [];
          })
            ∷ [])
send_request_inside_dialog-whole_example =
    send_request_inside_dialog-whole live [] (codes "7") (codes "c;uac") (codes "BYE x SIP/2.0")
      (codes "To: x") [] (codes "t") idle refl refl (ground arith) (ground arith) (ground arith)
      (ground arith) (ground arith) (ground arith)
