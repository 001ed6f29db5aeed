-- ===== src/SipDialogController/Thread/Tests.antt =====
-- The thread of the stack on a concrete call.
use drachtio_server.Common.{
  ◌≡◌, ◌+◌, refl, true, false, none, some, OnOption, [], ◌∷◌, codes, text_eq, ◌==◌, is_some,
  has_substring, if◌then◌else◌,
}
use drachtio_server.Common.Dict
use drachtio_server.Common.Handles
use drachtio_server.SipTransport.{TportName}
use drachtio_server.SipDialog.{SipDialog, we_are_uas, no_refresher, get_tport}
use drachtio_server.SipDialog.Stable.{sd_find_by_leg, sd_find_by_dialog_id, sd_clear_leg}
use drachtio_server.InvitesInProgress.{Iip, find_by_leg, find_by_orq, outgoing}
use drachtio_server.ClientController.{Client, Controller, Live, lock}
use drachtio_server.ClientController
use drachtio_server.ClientController.Transactions.{find_client_for_api_request}
use drachtio_server.ClientController.Routing.{SipRequest}
use drachtio_server.SipDialogController.Liveness.{nothing, track_tport_liveness}
use drachtio_server.SipDialogController.Thread.{
  invite, Thread, Dialog, Rip, bye, cancel, info, find_dialog_by_leg, find_rip_by_orq,
  find_dialog_by_id,
}
use drachtio_server.SipDialogController.Thread.Steps.{
  World, tport_of_dialog, notify_terminate_stale_dialog,
}
use drachtio_server.SipDialogController.Thread.Responses.{process_response_to_refreshing_reinvite}
use drachtio_server.SipDialogController.Thread.Responses.Refresh.{
  IsOver, process_response_to_refreshing_reinvite-IsOver,
}
use drachtio_server.SipDialogController.Thread.Requests.{
  zero_rc, Request, process_default, process_cancel,
}
use drachtio_server.SipDialogController.Thread.Requests.Held.{Accounted, Yields}
use drachtio_server.SipDialogController.Thread.Requests.Accounted.{process_default-Accounted}
use drachtio_server.SipDialogController.Thread.Requests.Late.{IsGone, process_cancel-IsGone}
use drachtio_server.SipDialogController.Thread.Sending.{Command, do_send_request_inside_dialog}
use drachtio_server.SipDialogController.TimerD.{resend_if_needed}
use drachtio_server.SipDialogController.Thread.Outside.{
  Received, Network, process_response_outside_dialog,
}
use drachtio_server.SipDialogController.Thread.Outside.Failed.{
  IsForgotten, process_response_outside_dialog-IsForgotten,
}
use drachtio_server.SipDialogController.Thread.Replying.{Reply, Incoming}
use drachtio_server.SipDialogController.Thread.Replying.Whole.{do_respond_to_sip_request}
use drachtio_server.SipDialogController.Thread.Replying.Answered.{do_respond_to_sip_request-Told}
use drachtio_server.SipDialogController.Thread.Placing.{
  Placed, Outbound, do_send_request_outside_dialog,
}
use drachtio_server.SipDialogController.Thread.Placing.Answered.{
  do_send_request_outside_dialog-Told,
}
use drachtio_server.SipDialogController.Thread.Sending.Replies.{replies}
use drachtio_server.SipDialogController.Thread.Sending.Answered.{do_send_request_inside_dialog-Told}

abbrev name : TportName
name = record { host = codes "9.9.9.9"; port = codes "4321"; proto = codes "tcp" }

abbrev core : SipDialog
core = record {
  role = we_are_uas;
  call_id = codes "x";
  local_tag = codes "l";
  remote_tag = codes "r";
  dialog_id = codes "x;from-tag=r";
  transaction_id = codes "t";
  leg = some 1;
  tp = some 4;
  transport = name;
  orq = none;
  orq_ack = none;
  destroy_ack_on_close = false;
  refresher = no_refresher;
  session_expires_secs = 0;
  timer_session_refresh = none;
  pp_self = false;
  timer_g = none;
  duration_timer_g = 0;
  irq_update = none;
  update_transaction_id = [];
  incoming_transaction_ids = [];
}

abbrev dialog : Dialog
dialog = record {
  core = core;
  is_invite_dialog = true;
  sip_status = 200;
  min_se = 90;
  seq = 0;
  timer_h = none;
  invite_irq = none;
  route_uri = [];
  ack_bye = false;
  local_contact = [];
  local_sdp = [];
  local_content_type = [];
  remote_sdp = [];
}

-- Application 3 has the dialog, and has asked with the message id m.
abbrev clients : Controller
clients = record ClientController.empty {
  dialogs = (codes "x;from-tag=r", 3) ∷ [];
  api_requests = (codes "m", 3) ∷ [];
}

abbrev rip : Rip
rip = record {
  transaction_id = codes "u";
  dialog_id = codes "x;from-tag=r";
  dlg = none;
  clear_dialog_on_response = false;
}

-- The dialog at address 7 is established, and its refreshing re-INVITE 20 is out.
abbrev call : Thread
call = record {
  objects = λ a. dialog;
  invites = [];
  dialogs =
      record { address = 7; leg = 1; dialog_id = codes "x;from-tag=r"; role = we_are_uas } ∷ [];
  rips = (20, rip) ∷ [];
  irqs = [];
  acks = record { invites = []; acks = [] };
  counts = [];
  caches = record { by_uri = []; contact_alias = false; aliases = [] };
  clients = clients;
  effects = [];
}

abbrev bye_request : SipRequest
bye_request = record {
  method_name = codes "BYE";
  is_notify = false;
  subscription_state = none;
  event = none;
}

abbrev world : World
world = record {
  live = λ c. if c == 3 then some (record { tags = []; app_name = [] }) else none;
  random = 0;
  uuid = codes "new";
  new_timer = 11;
  dialog_stack = record {
    is_closed = λ tp. false;
    tport_name = λ tp. name;
    outgoing_transport = λ orq. some 4;
  };
  contact_stack = record {
    tport_by_name = λ pinned host port. none;
    is_secondary = λ tp. true;
    parent = λ tp. 1;
  };
  ack_stack = record { call_id = λ t. codes "x"; cseq = λ t. 1 };
  leg_by_call_id = λ id. some 1;
  create = λ leg m.
      some (record { orq = 30; raw = codes "BYE"; meta = codes "meta"; sip = bye_request });
  create_cancel = λ orq. none;
  has_route = λ leg. true;
  remote_target = λ leg. none;
  is_dgram = λ tp. false;
}

abbrev request : Request
request = record {
  leg = 1;
  irq = 50;
  method = bye;
  sip = bye_request;
  session_expires = none;
  raw = codes "BYE";
  meta = codes "meta";
}

found : find_dialog_by_leg 1 call ≡ some (some 7)
unfolding find_dialog_by_leg find_by_leg sd_find_by_leg
found = refl

unused : Dict.find (codes "new") call.irqs ≡ none
unfolding Dict.find
unused = refl

process_default-Accounted_example :
    Yields (Accounted world request call) (process_default world zero_rc request call)
process_default-Accounted_example =
    process_default-Accounted world zero_rc request call (λ h. cc (h, found)) unused

process_cancel-IsGone_example :
    OnOption
      (IsGone 1)
      (process_cancel world zero_rc (record request { method = cancel }) none call)
process_cancel-IsGone_example =
    process_cancel-IsGone world zero_rc (record request { method = cancel }) call

sent : find_rip_by_orq 20 call ≡ some rip
unfolding find_rip_by_orq Handles.find
sent = refl

established : find_dialog_by_id (codes "x;from-tag=r") call ≡ some 7
unfolding find_dialog_by_id sd_find_by_dialog_id text_eq
established = refl

process_response_to_refreshing_reinvite-IsOver_example :
    OnOption
      (IsOver 20 7)
      (process_response_to_refreshing_reinvite world 3 nothing none none 20 none call)
process_response_to_refreshing_reinvite-IsOver_example =
    process_response_to_refreshing_reinvite-IsOver world 3 nothing none none 20 7 none rip call refl
      sent established

abbrev command : Command
command = record {
  msg_id = codes "m";
  transaction_id = codes "a";
  dialog_id = codes "x;from-tag=r";
  start_line = codes "INFO sip:x SIP/2.0";
  method = some info;
  request_uri = codes "sip:x";
  content_type = none;
  body = [];
  now = 5;
}

asked : is_some (find_client_for_api_request world.live (codes "m") clients) ≡ true
unfolding find_client_for_api_request Dict.find text_eq
asked = refl

do_send_request_inside_dialog-Told_example :
    OnOption
      (λ u. replies (codes "m") u.clients.posted ≡ 0 + 1)
      (do_send_request_inside_dialog world command call)
do_send_request_inside_dialog-Told_example =
    do_send_request_inside_dialog-Told world command call refl asked

-- An INVITE of ours is out on leg 2.
abbrev trying : Iip
trying = outgoing 2 21 (codes "t") (some 7) 0

abbrev calling : Thread
calling = record call { invites = trying ∷ [] }

abbrev network : Network
network = record {
  aggressive_nat = false;
  nat_detection_disabled = false;
  first_route = λ leg. none;
  request_host = λ orq. none;
  route_scheme = λ orq. none;
  protocol = λ orq. none;
  is_private = λ host. false;
}

abbrev busy : Received
busy = record {
  response = record {
    orq = 21;
    status = 486;
    method_name = codes "INVITE";
    call_id = codes "x";
    session_expires = none;
    has_contact = false;
    raw = codes "486";
    meta = codes "meta";
    answer = nothing;
    tport = none;
  };
  payload = none;
  has_rseq = false;
  contact_host = none;
  address = codes "9.9.9.9";
  port = codes "4321";
  nat_yes = false;
}

tried : find_by_orq (some 21) calling.invites ≡ some trying
unfolding find_by_orq
tried = refl

not_acknowledged : (resend_if_needed world.ack_stack 21 calling.acks).0 ≡ false
unfolding resend_if_needed Dict.find
not_acknowledged = refl

process_response_outside_dialog-IsForgotten_example :
    Yields
      (λ res. IsForgotten trying res.1)
      (process_response_outside_dialog world network 3 busy calling)
process_response_outside_dialog-IsForgotten_example =
    process_response_outside_dialog-IsForgotten world network 3 busy trying 7 calling refl refl
      tried refl not_acknowledged

-- The request 50 waits for the application's answer.
abbrev incoming_side : Incoming
incoming_side = record {
  waiting = λ id. none;
  method = λ irq. bye;
  tport = λ irq. some 4;
  is_shutdown = λ tp. false;
  find_transport = λ tp. some (record { contact = codes "sip:1.2.3.4"; is_sips = false });
  contact_is_sip = λ irq. true;
  contact = λ irq. none;
  leg = λ irq. some 1;
  session_expires = λ irq. none;
  treply = λ irq. true;
  reliable_treply = λ irq. none;
  response = λ irq.
      some (record { raw = codes "200"; meta = codes "meta"; expires = 0; contact_expires = none });
  best_effort_tls = false;
  default_refresher = codes "uac";
  timer_h = 12;
  t1 = 500;
  timer_h_msecs = 32000;
}

abbrev reply_ok : Reply
reply_ok = record {
  msg_id = codes "m";
  transaction_id = codes "held";
  code = 200;
  cseq_is_update = false;
  cseq_is_cancel = false;
  content_type = none;
  contact = none;
  requires_100rel = false;
  session_expires = none;
  body = [];
  now = 5;
}

do_respond_to_sip_request-Told_example :
    OnOption
      (λ u. replies (codes "m") u.clients.posted ≡ 0 + 1)
      (do_respond_to_sip_request world incoming_side reply_ok
        (record call { irqs = (codes "held", 50) ∷ [] }))
do_respond_to_sip_request-Told_example =
    do_respond_to_sip_request-Told world incoming_side reply_ok
      (record call { irqs = (codes "held", 50) ∷ [] }) refl asked

-- The response goes out.
test_reply_sent :
    is_some (
      do_respond_to_sip_request world incoming_side reply_ok
        (record call { irqs = (codes "held", 50) ∷ [] }))
    ≡ true
unfolding do_respond_to_sip_request Dict.find text_eq
test_reply_sent = refl

test_late_cancel :
    is_some (process_cancel world zero_rc (record request { method = cancel }) none call) ≡ true
unfolding process_cancel tport_of_dialog get_tport sd_clear_leg
test_late_cancel = refl

test_refresh_over :
    is_some (process_response_to_refreshing_reinvite world 3 nothing none none 20 none call) ≡ true
unfolding process_response_to_refreshing_reinvite Handles.find track_tport_liveness
    find_dialog_by_id text_eq notify_terminate_stale_dialog
test_refresh_over = refl

test_info_sent : is_some (do_send_request_inside_dialog world command call) ≡ true
unfolding do_send_request_inside_dialog text_eq has_substring
test_info_sent = refl

-- An INVITE by a transport that is found.
abbrev placed : Placed
placed = record {
  msg_id = codes "m";
  transaction_id = codes "v";
  dialog_id = codes "d";
  start_line = codes "INVITE sip:x SIP/2.0";
  route_url = [];
  method = some invite;
  request_uri = codes "sip:x";
  user = none;
  host = some (codes "x");
  from = none;
  contact = none;
  content_type = none;
  body = [];
  now = 6;
}

abbrev outbound : Outbound
outbound = record {
  proxy = none;
  find_appropriate = λ uri. some (record {
    tport = 4;
    contact = codes "sip:1.2.3.4";
    host = codes "1.2.3.4";
    port = codes "5060";
  });
  parent_name = λ tp. name;
  replace_host = λ from host port. none;
  normalize = λ uri. some uri;
  is_local = λ uri. false;
  leg = λ from. some 3;
  has_local_tag = λ leg. true;
  request = λ leg tp m.
      some (record { orq = 31; raw = codes "INVITE"; meta = codes "meta"; sip = bye_request });
  address = 8;
  dialog = dialog;
}

do_send_request_outside_dialog-Told_example :
    (u : Thread) × (do_send_request_outside_dialog world outbound placed call ≡ some u)
    × (replies (codes "m") u.clients.posted ≡ 0 + 1)
do_send_request_outside_dialog-Told_example =
    do_send_request_outside_dialog-Told world outbound placed call refl asked refl (λ leg. refl)
