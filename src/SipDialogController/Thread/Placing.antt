-- ===== src/SipDialogController/Thread/Placing.antt =====
-- Requests of applications outside of dialogs: `doSendRequestOutsideDialog` of
-- src/sip-dialog-controller.cpp.
pub mod Answered
use drachtio_server.Common.{
  ℕ, Bool, true, false, not, ◌&&◌, ◌||◌, Option, none, some, List, [], ◌∷◌, ◌++◌, if◌then◌else◌,
  is_empty, Text, codes, starts_with, has_substring,
}
use drachtio_server.SipTransport.{TportName}
use drachtio_server.InvitesInProgress.{outgoing, insert}
use drachtio_server.DrachtioController.{UaInvalidData, find_tport_for_subscription}
use drachtio_server.ClientController.Transactions.{remove_app_transaction}
use drachtio_server.SipDialogController.Thread.{
  Thread, Dialog, Method, invite, options, notify, message, subscribe, requested, leg_destroyed,
  did, on_clients, on_dialog, add_rip,
}
use drachtio_server.SipDialogController.Thread.Steps.{World, Outgoing}
use drachtio_server.SipDialogController.Thread.Sending.{
  Tried, undefined, failed, done, ◌>>=◌, answer, sent_text,
}

-- What an application asks for, with what is read of its start line and headers; without a method the
-- start line is not valid, and a request uri need not have a user or a host (`url_user` and `url_host`
-- are null pointers then).
pub record Placed : Type 0 where
  pub msg_id : Text
  pub transaction_id : Text
  pub dialog_id : Text
  pub start_line : Text
  pub route_url : Text
  pub method : Option Method
  pub request_uri : Text
  pub user : Option Text
  pub host : Option Text
  pub from : Option Text
  pub contact : Option Text
  pub content_type : Option Text
  pub body : Text
  pub now : ℕ

-- A transport, with the contact and the host and port for a From of localhost.
pub record Route : Type 0 where
  pub tport : ℕ
  pub contact : Text
  pub host : Text
  pub port : Text

-- The configured proxy, the transport that is found for a uri, the name of a transport's parent, what
-- is made of uris, and what the stack makes: a leg, whether it has a local tag, the request on it and
-- the dialog, which gets a new address.
pub record Outbound : Type 0 where
  pub proxy : Option Text
  pub find_appropriate : Text → Option Route
  pub parent_name : ℕ → TportName
  pub replace_host : Text → Text → Text → Option Text
  pub normalize : Text → Option Text
  pub is_local : Text → Bool
  pub leg : Text → Option ℕ
  pub has_local_tag : ℕ → Bool
  pub request : ℕ → ℕ → Method → Option Outgoing
  pub address : ℕ
  pub dialog : Dialog

-- These may go to a subscriber without an address of its own.
abbrev pub may_be_cached : Method → Bool
may_be_cached m = elim m [
  | invite ↦ true
  | options ↦ true
  | notify ↦ true
  | message ↦ true
  | _ ↦ false
]

abbrev pub makes_dialog : Method → Bool
makes_dialog m = elim m [ invite ↦ true | subscribe ↦ true | _ ↦ false ]

module _ (world : World) (out : Outbound) (k : Placed) where
  abbrev pub valid_method : Option Method → Thread → Tried Method
  valid_method none t = failed (codes "invalid request-uri: " ++ k.start_line) t
  valid_method (some m) t = done m t

  -- The host and the port of the transport's name do not reach the From.
  abbrev pub cached_route : ℕ → TportName → Route
  cached_route tp name = record {
    tport = tp;
    contact =
        codes "<sip:"
        ++ (name.host
            ++ (codes ":" ++ (name.port ++ (codes ";transport=" ++ (name.proto ++ codes ">")))));
    host = [];
    port = [];
  }

  -- The uri that decides on the transport: the application's route, the configured proxy, or the
  -- request uri.
  abbrev pub next_hop : Text
  next_hop =
      if is_empty k.route_url
      then elim out.proxy [ none ↦ k.request_uri | some proxy ↦ proxy ]
      else k.route_url

  abbrev pub route_from : Option Route → Thread → Tried Route
  route_from none t = failed (codes "requested protocol/transport not available") t
  route_from (some r) t = done (record r { contact = codes "<" ++ (r.contact ++ codes ">") }) t

  abbrev pub cached_or_found : Option UaInvalidData → Thread → Tried Route
  cached_or_found none t = route_from (out.find_appropriate next_hop) t
  cached_or_found (some ua) t = done (cached_route ua.tport (out.parent_name ua.tport)) t

  -- `findTportForSubscription` appends the host to its key: a null pointer is undefined behaviour.
  abbrev pub cached_for : Option Text → Thread → Tried Route
  cached_for none t = undefined
  cached_for (some host) t = cached_or_found (find_tport_for_subscription k.user host t.caches) t

  unfoldable pub choose_route : Method → Thread → Tried Route
  choose_route m t = if may_be_cached m then cached_for k.host t else cached_or_found none t

  abbrev pub replaced_from : Text → Option Text → Thread → Tried Text
  replaced_from from none t = failed (codes "invalid from value provided by client: " ++ from) t
  replaced_from from (some f) t = done f t

  abbrev pub choose_from : Option Text → Route → Thread → Tried Text
  choose_from none r t = done r.contact t
  choose_from (some from) r t =
      if has_substring (codes "localhost") from
      then replaced_from from (out.replace_host from r.host r.port) t
      else done from t

  abbrev pub check_type : Option Text → Thread → Tried (Unit {0})
  check_type (some type) t = done tt t
  check_type none t =
      if is_empty k.body || starts_with (codes "v=0") k.body
      then done tt t
      else failed (codes "missing content-type") t

  abbrev pub check_loop : Option Text → Thread → Tried (Unit {0})
  check_loop none t = failed (codes "invalid request-uri: " ++ k.request_uri) t
  check_loop (some uri) t =
      if out.is_local uri then failed (codes "can not send request to myself") t else done tt t

  abbrev pub leg_made : Option ℕ → Thread → Tried ℕ
  leg_made none t = failed (codes "Error creating leg") t
  leg_made (some leg) t = done leg t

  -- Without a request its leg is given up.
  abbrev pub request_made : ℕ → Method → Option Outgoing → Thread → Tried Outgoing
  request_made leg m none t =
      failed (codes "Error creating sip transaction for uac request") (did (leg_destroyed leg) t)
  request_made leg m (some o) t = done o (did (requested leg m o.orq) t)

  -- The constructor of `SipDialog` asserts that the leg has a local tag.
  abbrev pub tag_asserted : Method → ℕ → Thread → Tried (Unit {0})
  tag_asserted m leg t =
      if makes_dialog m && not (out.has_local_tag leg) then undefined else done tt t

  abbrev pub new_dialog : Route → Dialog
  new_dialog r = record out.dialog {
    core = record out.dialog.core { transaction_id = k.transaction_id };
    local_contact = elim k.contact [ none ↦ r.contact | some c ↦ c ];
  }

  abbrev pub enter_dialog : Route → ℕ → Outgoing → Thread → Thread
  enter_dialog r leg o t = record (on_dialog out.address (λ old. new_dialog r) t) {
    invites = insert (outgoing leg o.orq k.transaction_id (some out.address) k.now) t.invites;
  }

  abbrev pub enter_rip : ℕ → Outgoing → Thread → Thread
  enter_rip leg o t = did (leg_destroyed leg) (
      add_rip o.orq
        (record {
          transaction_id = k.transaction_id;
          dialog_id = k.dialog_id;
          dlg = none;
          clear_dialog_on_response = false;
        })
        t)

  -- An INVITE or SUBSCRIBE is in progress with its dialog; another request is waited for without a leg.
  unfoldable pub note_placed : Method → Route → ℕ → Outgoing → Thread → Thread
  unfolding add_rip
  note_placed m r leg o t = if makes_dialog m then enter_dialog r leg o t else enter_rip leg o t

  abbrev pub report_placed : Outgoing → Thread → Tried (Unit {0})
  report_placed o t =
      done tt (answer world k.msg_id (codes "OK") (sent_text world k.transaction_id o) t)

  unfoldable pub place : Thread → Tried (Unit {0})
  unfolding choose_route note_placed
  place t = valid_method k.method t >>= λ m t1. choose_route m t1 >>= λ r t2.
      choose_from k.from r t2 >>= λ from t3. check_type k.content_type t3 >>= λ ok t4.
      check_loop (out.normalize k.request_uri) t4 >>= λ ok' t5.
      leg_made (out.leg from) t5 >>= λ leg t6.
      request_made leg m (out.request leg r.tport m) t6 >>= λ o t7.
      tag_asserted m leg t7 >>= λ ok'' t8. report_placed o (note_placed m r leg o t8)

  abbrev pub caught : Tried (Unit {0}) → Option Thread
  caught undefined = none
  caught (done ok t) = some t
  caught (failed why t) = some (
      on_clients (remove_app_transaction k.transaction_id)
        (answer world k.msg_id (codes "NOK") why t))

  unfoldable pub do_send_request_outside_dialog : Thread → Option Thread
  unfolding place remove_app_transaction
  do_send_request_outside_dialog t = caught (place t)
