-- ===== src/SipDialogController/Thread/Sending.antt =====
-- Requests of applications inside dialogs: `doSendRequestInsideDialog` of
-- src/sip-dialog-controller.cpp.
pub mod Replies
pub mod Answered
pub mod Canceling
use drachtio_server.Common.{
  ℕ, Bool, true, false, not, ◌&&◌, ◌||◌, Option, none, some, List, [], ◌∷◌, ◌++◌, ◌==◌, ltb,
  if◌then◌else◌, is_empty, is_some, Text, text_eq, codes, starts_with, has_substring,
}
use drachtio_server.Drachtio.Messages.{crlf}
use drachtio_server.InvitesInProgress
use drachtio_server.InvitesInProgress.{
  Iip, find_by_leg, find_by_transaction_id, insert, outgoing, set_canceled, modify,
}
use drachtio_server.SipDialog.{SipDialog}
use drachtio_server.SipDialog.Stable.{sd_clear_id}
use drachtio_server.DrachtioController.{UaInvalidData, find_tport_for_subscription}
use drachtio_server.ClientController.{Controller}
use drachtio_server.ClientController.Routing.{is_terminated}
use drachtio_server.ClientController.Transactions.{remove_app_transaction, route_api_response}
use drachtio_server.SipDialogController.TimerD.{TimerDHandler, add_ack}
use drachtio_server.SipDialogController.Thread.{
  Thread, Dialog, Method, invite, ack, bye, prack, subscribe, notify, refer, Effect, requested,
  outgoing_destroyed, canceled, of_invite, did, did_all, on_clients, on_core, on_dialog,
  with_clients, dialog_id, find_dialog_by_id, add_rip, clear_rip_by_dialog_id,
}
use drachtio_server.SipDialogController.Thread.Steps.{
  World, Outgoing, Target, or_null, clear_invite_leg, tport_of_dialog, current_tport_for_dialog,
  pin_tport, notify_terminate_stale_dialog,
}
use drachtio_server.SipDialogController.Thread.Requests.{is_invite, is_bye, is_notify}

-- What an application asks for, with what the stack reads of its start line and of its headers: the
-- method, if it is a known one, and the Content-Type.
pub record Command : Type 0 where
  pub msg_id : Text
  pub transaction_id : Text
  pub dialog_id : Text
  pub start_line : Text
  pub method : Option Method
  pub request_uri : Text
  pub content_type : Option Text
  pub body : Text
  pub now : ℕ

-- An exception keeps what was changed before it; `undefined` is a failed assertion or a null pointer
-- that is read.
pub data Tried (A : Type 0) : Type 0 where
  undefined : Tried A
  failed : Text → Thread → Tried A
  done : A → Thread → Tried A

infixl 5 ◌>>=◌
abbrev pub ◌>>=◌ : {A B : Type 0} → Tried A → (A → Thread → Tried B) → Tried B
undefined >>= f = undefined
failed why t >>= f = failed why t
done a t >>= f = f a t

abbrev pub is_ack : Option Method → Bool
is_ack none = false
is_ack (some m) = elim m [ ack ↦ true | _ ↦ false ]

abbrev pub is_prack : Option Method → Bool
is_prack none = false
is_prack (some m) = elim m [ prack ↦ true | _ ↦ false ]

abbrev pub is_bye_of : Option Method → Bool
is_bye_of none = false
is_bye_of (some m) = is_bye m

abbrev pub find_dialog : Command → Option ℕ → Thread → Tried ℕ
find_dialog k (some a) t = done a t
find_dialog k none t =
    failed
      (if is_ack k.method
        then codes "ACK for non-success final response is automatically generated by server"
        else codes "unable to find dialog for dialog id provided")
      t

abbrev pub leg_of : Option ℕ → Thread → Tried ℕ
leg_of none t = undefined
leg_of (some leg) t = done leg t

module _ (world : World) where
  -- A far end that has registered a connection keeps it; another is followed to its current one.
  abbrev pub registered : Option Target → Thread → Option UaInvalidData
  registered none t = none
  registered (some target) t = elim target.host [
    | none ↦ none
    | some host ↦ find_tport_for_subscription target.user host t.caches
  ]

  abbrev pub follow : ℕ → Option Target → Option UaInvalidData → Thread → Thread
  follow a target none t = (current_tport_for_dialog world a target t).1
  follow a target (some binding) t = t

  unfoldable pub choose_tport : ℕ → ℕ → Thread → Thread
  unfolding current_tport_for_dialog tport_of_dialog find_tport_for_subscription
  choose_tport a leg t =
      let target = world.remote_target leg in follow a target (registered target t) t

  -- A BYE while a re-INVITE of ours is unanswered cancels it first.
  abbrev pub cancel_orq : ℕ → ℕ → Option ℕ → Thread → Thread
  cancel_orq a leg none t = t
  cancel_orq a leg (some orq) t =
      let (id, t1) = dialog_id a (clear_invite_leg leg (did (canceled orq) t)) in
      clear_rip_by_dialog_id id t1

  abbrev pub cancel_reinvite : ℕ → ℕ → Option Iip → Thread → Thread
  cancel_reinvite a leg none t = t
  cancel_reinvite a leg (some iip) t = cancel_orq a leg iip.orq t

  unfoldable pub before_bye : Command → ℕ → ℕ → Thread → Thread
  unfolding dialog_id clear_invite_leg clear_rip_by_dialog_id find_by_leg
  before_bye k a leg t =
      if is_bye_of k.method then cancel_reinvite a leg (find_by_leg leg t.invites) t else t

  abbrev pub check_host : Command → Option Text → Thread → Tried (Unit {0})
  check_host k none t =
      failed
        (codes
            "unable to find route for empty host when sending request inside dialog for dialog id "
          ++ k.dialog_id)
        t
  check_host k (some host) t = done tt t

  abbrev pub check_target : Command → Option Target → Thread → Tried (Unit {0})
  check_target k none t =
      failed
        (codes "unable to find route when sending request inside dialog for dialog id "
          ++ k.dialog_id)
        t
  check_target k (some target) t = check_host k target.host t

  -- The far end's Contact is the request uri of an ACK, and where the application leaves it open.
  abbrev pub check_route : Command → ℕ → Thread → Tried (Unit {0})
  check_route k leg t =
      if (is_ack k.method || has_substring (codes "placeholder") k.request_uri)
        && world.has_route leg
      then check_target k (world.remote_target leg) t
      else done tt t

  abbrev pub known_method : Command → Option Method → Thread → Tried Method
  known_method k none t =
      failed (codes "invalid or missing method supplied on start line: " ++ k.start_line) t
  known_method k (some m) t = done m t

  -- A body without a type must be SDP. The first result is the type that was found or made out: an
  -- application's own is copied.
  abbrev pub detect_type : Command → Option Text → Thread → Tried Text
  detect_type k (some type) t = done type t
  detect_type k none t =
      if is_empty k.body
      then done [] t
      else if starts_with (codes "v=0") k.body
      then done (codes "application/sdp") t
      else failed (codes "missing content-type") t

  abbrev pub keep_sdp : Command → Method → ℕ → Text → Thread → Thread
  keep_sdp k m a type t =
      if is_invite m && (not (is_empty k.body) && text_eq type (codes "application/sdp"))
      then on_dialog a (λ d. record d { local_sdp = k.body; local_content_type = type }) t
      else t

  -- The transport of an ACK: over udp the ACK is kept for timer D, and else it is given up at the end;
  -- without a transport yet it is kept by the dialog. True where it is to be given up.
  abbrev pub ack_tport : ℕ → ℕ → Option ℕ → Thread → Bool × Thread
  ack_tport a orq none t =
      (false, on_core a (λ c. record c { orq_ack = some orq; destroy_ack_on_close = true }) t)
  ack_tport a orq (some tp) t =
      let t1 =
        if world.is_dgram tp then record t { acks = add_ack world.ack_stack orq t.acks } else t in
      (not (world.is_dgram tp), pin_tport world a tp t1)

  -- What is made of a request: the request, if there is one, and whether it is given up at the end.
  abbrev pub send_ack : ℕ → ℕ → Option Outgoing → Thread → Tried (Option Outgoing × Bool)
  send_ack a leg none t = undefined
  send_ack a leg (some out) t =
      let t1 = did (requested leg ack out.orq) (on_dialog a (λ d. record d { seq = 0 }) t) in
      let (destroy, t2) = ack_tport a out.orq (world.dialog_stack.outgoing_transport out.orq) t1 in
      done (some out, destroy) (clear_invite_leg leg t2)

  abbrev pub created : ℕ → Method → Option Outgoing → Thread → Tried (Option Outgoing × Bool)
  created leg m none t = failed (codes "Error creating sip transaction for request") t
  created leg m (some out) t = done (some out, false) (did (requested leg m out.orq) t)

  unfoldable pub make_request : Method → ℕ → ℕ → Thread → Tried (Option Outgoing × Bool)
  unfolding add_ack clear_invite_leg find_by_leg pin_tport
  make_request m a leg t =
      if is_ack (some m)
      then if (t.objects a).sip_status == 200
        then send_ack a leg (world.create leg ack) t
        else done (none, false) t
      else if is_prack (some m) && not (is_some (find_by_leg leg t.invites))
      then failed (codes "unable to find IIP when sending PRACK") t
      else created leg m (world.create leg m) t

  abbrev pub answer : Text → Text → Text → Thread → Thread
  answer msg_id how why t =
      (with_clients t (route_api_response world.live msg_id how why t.clients)).1

  abbrev pub sent_text : Text → Outgoing → Text
  sent_text transaction out =
      out.meta ++ codes "|" ++ transaction ++ codes "|Msg sent:|" ++ crlf ++ out.raw

  -- Whether the dialog ends when the request is answered.
  abbrev pub clears_dialog : Method → Dialog → Outgoing → Bool
  clears_dialog m d out =
      is_bye m
      || (not d.is_invite_dialog && (is_notify m && is_terminated out.sip.subscription_state))

  abbrev pub note_request : Command → Method → ℕ → ℕ → Outgoing → Thread → Thread
  note_request k m a leg out t =
      let t1 =
        add_rip out.orq
          (record {
            transaction_id = k.transaction_id;
            dialog_id = k.dialog_id;
            dlg = some a;
            clear_dialog_on_response = clears_dialog m (t.objects a) out;
          })
          t in
      if is_invite m
      then record t1 {
        invites =
            insert (outgoing leg out.orq (t.objects a).core.transaction_id (some a) k.now)
              t1.invites;
      }
      else t1

  -- The stack has acknowledged a failure itself.
  abbrev pub refuse_ack : Command → Text × Thread → Thread
  refuse_ack k (id, t) =
      answer k.msg_id (codes "NOK")
        (codes "ACK for non-success responses is automatically generated by the stack")
        (record t { dialogs = sd_clear_id id t.dialogs })

  abbrev pub report_sent : Command → Method → ℕ → ℕ → Option Outgoing → Thread → Tried (Unit {0})
  report_sent k m a leg none t =
      if is_ack (some m) then done tt (refuse_ack k (dialog_id a t)) else undefined
  report_sent k m a leg (some out) t =
      let t1 = if is_ack (some m) then t else note_request k m a leg out t in
      done tt (answer k.msg_id (codes "OK") (sent_text k.transaction_id out) t1)

  abbrev pub or_undefined : Option Thread → Tried (Unit {0})
  or_undefined none = undefined
  or_undefined (some t) = done tt t

  -- An ACK that comes too late for a CANCEL is followed by a BYE.
  abbrev pub bye_after_ack : Method → ℕ → Thread → Tried (Unit {0})
  bye_after_ack m a t =
      if is_ack (some m) && ((t.objects a).sip_status == 200 && (t.objects a).ack_bye)
      then or_undefined (notify_terminate_stale_dialog world a t)
      else done tt t

  -- The last line destroys the ACK that nothing keeps.
  abbrev pub finish_request : Bool → Option Outgoing → Thread → Tried (Unit {0})
  finish_request destroy none t = done tt t
  finish_request destroy (some out) t =
      done tt (if destroy then did (outgoing_destroyed out.orq) t else t)

  -- Up to the request that is made.
  unfoldable pub prepare : Command → ℕ → ℕ → Thread → Tried Method
  unfolding choose_tport before_bye
  prepare k a leg t =
      let t1 = before_bye k a leg (choose_tport a leg t) in
      check_route k leg t1 >>= λ ok t2. known_method k k.method t2 >>= λ m t3.
      detect_type k k.content_type t3 >>= λ type t4. done m (keep_sdp k m a type t4)

  unfoldable pub perform : Command → Method → ℕ → ℕ → Thread → Tried (Unit {0})
  unfolding make_request notify_terminate_stale_dialog dialog_id add_rip
  perform k m a leg t = make_request m a leg t >>= λ made t1.
      report_sent k m a leg made.0 t1 >>= λ ok t2.
      bye_after_ack m a t2 >>= λ ok' t3. finish_request made.1 made.0 t3

  abbrev pub catch : Command → Tried (Unit {0}) → Option Thread
  catch k undefined = none
  catch k (done ok t) = some t
  catch k (failed why t) = some (
      on_clients (remove_app_transaction k.transaction_id)
        (answer k.msg_id (codes "NOK") (codes "Server error: " ++ why) t))

  -- `none` is an assertion that fails or a null pointer that is read.
  unfoldable pub do_send_request_inside_dialog : Command → Thread → Option Thread
  unfolding prepare perform find_dialog_by_id tport_of_dialog
  do_send_request_inside_dialog k t = catch k (
      find_dialog k (find_dialog_by_id k.dialog_id t) t >>= λ a t1.
      leg_of (t1.objects a).core.leg (tport_of_dialog world a t1).1 >>= λ leg t2.
      prepare k a leg t2 >>= λ m t3. perform k m a leg t3)
