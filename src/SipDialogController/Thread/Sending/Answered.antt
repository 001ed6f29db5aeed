-- ===== src/SipDialogController/Thread/Sending/Answered.antt =====
-- An application that sends a request inside a dialog is answered once
-- (`doSendRequestInsideDialog` of src/sip-dialog-controller.cpp).
use drachtio_server.Common.{
  ℕ, suc, ◌+◌, ◌≡◌, ◌≢◌, ◌⊎◌, inl, inr, refl, sym, ap, ◌∙◌, subst, Bool, true, false, not, ◌&&◌,
  ◌||◌, Option, none, some, OnOption, List, [], ◌∷◌, ◌++◌, ◌==◌, if◌then◌else◌, is_empty, is_some,
  Text, text_eq, text_eq_self, codes, starts_with, has_substring, arith, Bool-cases, Option-cases,
}
use drachtio_server.Common
use drachtio_server.InvitesInProgress.{Iip, find_by_leg}
use drachtio_server.DrachtioController.{UaInvalidData}
use drachtio_server.SipDialog.Stable.{sd_clear_id}
use drachtio_server.SipDialogController.Thread.Requests.{is_invite}
use drachtio_server.ClientController.Transactions.{
  find_client_for_api_request, route_api_response, remove_app_transaction,
}
use drachtio_server.SipDialogController.Thread.{
  Thread, Method, Effect, did, dialog_id, find_dialog_by_id, add_rip, bye, ack, on_dialog,
}
use drachtio_server.SipDialogController.Thread.Steps.{
  World, Outgoing, Target, route_to_app, tell_bye, bye_on_leg, forget_dialog,
  notify_terminate_stale_dialog, tport_of_dialog, clear_invite_leg,
}
use drachtio_server.SipDialogController.Thread.Clients.{
  clear_invite_leg-clients, clear_rip_by_dialog_id-clients, tport_of_dialog-clients,
  pin_tport-clients, current_tport_for_dialog-clients,
}
use drachtio_server.SipDialogController.Thread.Sending.Replies.{
  replies, route_api_response-replies, route_request_inside_dialog-replies, OnTried, bind-OnTried,
}
use drachtio_server.SipDialogController.Thread.Sending.{
  Command, Tried, undefined, failed, done, find_dialog, leg_of, follow, registered, choose_tport,
  cancel_orq, cancel_reinvite, before_bye, check_target, check_route, known_method, detect_type,
  keep_sdp, ack_tport, send_ack, created, make_request, answer, note_request, refuse_ack,
  report_sent, bye_after_ack, or_undefined, finish_request, prepare, perform, catch,
  do_send_request_inside_dialog, is_bye_of, is_ack, is_prack, sent_text,
}

cancel_orq-clients :
    (world : World) (a leg : ℕ) (o : Option ℕ) (t : Thread)
    → (cancel_orq world a leg o t).clients ≡ t.clients
unfolding dialog_id
cancel_orq-clients world a leg none t = refl
cancel_orq-clients world a leg (some orq) t =
    let u = clear_invite_leg leg (did (Effect.canceled orq) t) in
    let (id, v) = dialog_id a u in
    clear_rip_by_dialog_id-clients id v ∙ clear_invite_leg-clients leg (did (Effect.canceled orq) t)

cancel_reinvite-clients :
    (world : World) (a leg : ℕ) (o : Option Iip) (t : Thread)
    → (cancel_reinvite world a leg o t).clients ≡ t.clients
cancel_reinvite-clients world a leg none t = refl
cancel_reinvite-clients world a leg (some iip) t = cancel_orq-clients world a leg iip.orq t

follow-clients :
    (world : World) (a : ℕ) (target : Option Target) (o : Option UaInvalidData) (t : Thread)
    → (follow world a target o t).clients ≡ t.clients
follow-clients world a target none t = current_tport_for_dialog-clients world a target t
follow-clients world a target (some binding) t = refl

ack_tport-clients :
    (world : World) (a orq : ℕ) (o : Option ℕ) (t : Thread)
    → (ack_tport world a orq o t).1.clients ≡ t.clients
ack_tport-clients world a orq none t = refl
ack_tport-clients world a orq (some tp) t = elim (Bool-cases (world.is_dgram tp)) [
  | inl udp ↦ rw udp (pin_tport-clients world a tp _)
  | inr other ↦ rw other (pin_tport-clients world a tp _)
]

module _ (world : World) (k : Command) (t0 : Thread) (ne : is_empty k.msg_id ≡ false)
    (asked : is_some (find_client_for_api_request world.live k.msg_id t0.clients) ≡ true) where
  abbrev Same : Thread → Type 0
  Same t = t.clients ≡ t0.clients

  abbrev Told : Thread → Type 0
  Told t = replies k.msg_id t.clients.posted ≡ replies k.msg_id t0.clients.posted + 1

  before_bye-Same : (a leg : ℕ) (t : Thread) → Same t → Same (before_bye world k a leg t)
  unfolding before_bye
  before_bye-Same a leg t h = elim (Bool-cases (is_bye_of k.method)) [
    | inl e ↦ rw e (cancel_reinvite-clients world a leg (find_by_leg leg t.invites) t ∙ h)
    | inr e ↦ rw e h
  ]

  choose_tport-Same : (a leg : ℕ) (t : Thread) → Same t → Same (choose_tport world a leg t)
  unfolding choose_tport
  choose_tport-Same a leg t h =
      follow-clients world a (world.remote_target leg)
        (registered world (world.remote_target leg) t) t
      ∙ h

  check_target-Same :
      (o : Option Target) (t : Thread) → Same t → OnTried Same Same (check_target world k o t)
  check_target-Same none t h = h
  check_target-Same (some target) t h = ground (arith, h)

  check_route-Same : (leg : ℕ) (t : Thread) → Same t → OnTried Same Same (check_route world k leg t)
  check_route-Same leg t h =
      elim (Bool-cases (
        (is_ack k.method || has_substring (codes "placeholder") k.request_uri)
        && world.has_route leg)) [
          | inl e ↦ rw e (check_target-Same (world.remote_target leg) t h)
          | inr e ↦ rw e h
        ]

  known_method-Same :
      (o : Option Method) (t : Thread) → Same t → OnTried Same Same (known_method world k o t)
  known_method-Same none t h = h
  known_method-Same (some m) t h = h

  detect_type-Same :
      (o : Option Text) (t : Thread) → Same t → OnTried Same Same (detect_type world k o t)
  detect_type-Same (some type) t h = h
  detect_type-Same none t h = elim (Bool-cases (is_empty k.body)) [
    | inl e ↦ rw e h
    | inr e ↦ elim (Bool-cases (starts_with (codes "v=0") k.body)) [
      | inl v ↦ rw (e, v) h
      | inr v ↦ rw (e, v) h
    ]
  ]

  keep_sdp-Same :
      (m : Method) (a : ℕ) (type : Text) (t : Thread) → Same t → Same (keep_sdp world k m a type t)
  keep_sdp-Same m a type t h =
      elim (Bool-cases
        (is_invite m && (not (is_empty k.body) && text_eq type (codes "application/sdp")))) [
          | inl e ↦ rw e h
          | inr e ↦ rw e h
        ]

  prepare-Same : (a leg : ℕ) (t : Thread) → Same t → OnTried Same Same (prepare world k a leg t)
  unfolding prepare
  prepare-Same a leg t h =
      let t1 = before_bye world k a leg (choose_tport world a leg t) in
      let h1 = before_bye-Same a leg (choose_tport world a leg t) (choose_tport-Same a leg t h) in
      bind-OnTried Same Same Same (check_route world k leg t1) _ (check_route-Same leg t1 h1)
        λ ok t2 h2.
          bind-OnTried Same Same Same (known_method world k k.method t2) _
            (known_method-Same k.method t2 h2)
            λ m t3 h3.
              bind-OnTried Same Same Same (detect_type world k k.content_type t3) _
                (detect_type-Same k.content_type t3 h3) λ type t4 h4. keep_sdp-Same m a type t4 h4

  send_ack-Same :
      (a leg : ℕ) (o : Option Outgoing) (t : Thread)
      → Same t
      → OnTried Same Same (send_ack world a leg o t)
  send_ack-Same a leg none t h = tt
  send_ack-Same a leg (some out) t h =
      let u = did (Effect.requested leg ack out.orq) (on_dialog a (λ d. record d { seq = 0 }) t) in
      let r = ack_tport world a out.orq (world.dialog_stack.outgoing_transport out.orq) u in
      clear_invite_leg-clients leg r.1
      ∙ ack_tport-clients world a out.orq (world.dialog_stack.outgoing_transport out.orq) u
      ∙ h

  created-Same :
      (leg : ℕ) (m : Method) (o : Option Outgoing) (t : Thread)
      → Same t
      → OnTried Same Same (created world leg m o t)
  created-Same leg m none t h = h
  created-Same leg m (some out) t h = h

  make_request-Same :
      (m : Method) (a leg : ℕ) (t : Thread)
      → Same t
      → OnTried Same Same (make_request world m a leg t)
  unfolding make_request
  make_request-Same m a leg t h = elim (Bool-cases (is_ack (some m))) [
    | inl e ↦ elim (Bool-cases ((t.objects a).sip_status == 200)) [
      | inl ok ↦ rw (e, ok) (send_ack-Same a leg (world.create leg ack) t h)
      | inr other ↦ rw (e, other) h
    ]
    | inr e ↦ elim (Bool-cases (is_prack (some m) && not (is_some (find_by_leg leg t.invites)))) [
      | inl lost ↦ rw (e, lost) h
      | inr known ↦ rw (e, known) (created-Same leg m (world.create leg m) t h)
    ]
  ]

  dialog_id-Same : (a : ℕ) (t : Thread) → Same t → Same (dialog_id a t).1
  unfolding dialog_id
  dialog_id-Same a t h = h

  note_request-Same :
      (m : Method) (a leg : ℕ) (out : Outgoing) (t : Thread)
      → Same t
      → Same (note_request world k m a leg out t)
  unfolding add_rip
  note_request-Same m a leg out t h = elim (Bool-cases (is_invite m)) [
    | inl e ↦ rw e h
    | inr e ↦ rw e h
  ]

  answer-Told : (how why : Text) (t : Thread) → Same t → Told (answer world k.msg_id how why t)
  answer-Told how why t h =
      subst
        (λ s.
          replies k.msg_id (route_api_response world.live k.msg_id how why s).1.posted
          ≡ replies k.msg_id t0.clients.posted + 1)
        (sym h) (route_api_response-replies world k.msg_id how why t0.clients ne asked)

  refuse_ack-Told : (r : Text × Thread) → Same r.1 → Told (refuse_ack world k r)
  refuse_ack-Told (id, t) h =
      answer-Told (codes "NOK") _ (record t { dialogs = sd_clear_id id t.dialogs }) h

  report_sent-Told :
      (m : Method) (a leg : ℕ) (o : Option Outgoing) (t : Thread)
      → Same t
      → OnTried Same Told (report_sent world k m a leg o t)
  report_sent-Told m a leg none t h = elim (Bool-cases (is_ack (some m))) [
    | inl e ↦ rw e (refuse_ack-Told (dialog_id a t) (dialog_id-Same a t h))
    | inr e ↦ rw e tt
  ]
  report_sent-Told m a leg (some out) t h = elim (Bool-cases (is_ack (some m))) [
    | inl e ↦ rw e (answer-Told (codes "OK") (sent_text world k.transaction_id out) t h)
    | inr e ↦ rw e (
        answer-Told (codes "OK") (sent_text world k.transaction_id out)
          (note_request world k m a leg out t) (note_request-Same m a leg out t h))
  ]

  tell_bye-Told :
      (a leg : ℕ) (o : Option Outgoing) (t : Thread)
      → Told t
      → OnOption Told (tell_bye world a leg o t)
  unfolding route_to_app dialog_id
  tell_bye-Told a leg none t h = tt
  tell_bye-Told a leg (some out) t h =
      let (id, u) = dialog_id a (did (Effect.requested leg bye out.orq) t) in
      route_request_inside_dialog-replies world out.raw out.meta (codes "unsolicited") k.msg_id id
        out.sip u.clients
      ∙ h

  bye_on_leg-Told :
      (a : ℕ) (o : Option ℕ) (t : Thread) → Told t → OnOption Told (bye_on_leg world a o t)
  bye_on_leg-Told a none t h = h
  bye_on_leg-Told a (some leg) t h =
      tell_bye-Told a leg (world.create leg bye) (tport_of_dialog world a t).1 (
        subst (λ s. replies k.msg_id s.posted ≡ replies k.msg_id t0.clients.posted + 1)
          (sym (tport_of_dialog-clients world a t)) h)

  forget-Told :
      (a : ℕ) (o : Option Thread)
      → OnOption Told o
      → OnTried Same Told
          (or_undefined world (Common.◌>>=◌ o (λ u. some (forget_dialog world a u))))
  forget-Told a none h = tt
  forget-Told a (some u) h = h

  terminate-Told :
      (a : ℕ) (t : Thread)
      → Told t
      → OnTried Same Told (or_undefined world (notify_terminate_stale_dialog world a t))
  unfolding notify_terminate_stale_dialog
  terminate-Told a t h =
      forget-Told a (bye_on_leg world a (t.objects a).core.leg t)
        (bye_on_leg-Told a (t.objects a).core.leg t h)

  bye_after_ack-Told :
      (m : Method) (a : ℕ) (t : Thread) → Told t → OnTried Same Told (bye_after_ack world m a t)
  bye_after_ack-Told m a t h =
      elim (Bool-cases
        (is_ack (some m) && ((t.objects a).sip_status == 200 && (t.objects a).ack_bye))) [
          | inl e ↦ rw e (terminate-Told a t h)
          | inr e ↦ rw e h
        ]

  finish_request-Told :
      (destroy : Bool) (o : Option Outgoing) (t : Thread)
      → Told t
      → OnTried Same Told (finish_request world destroy o t)
  finish_request-Told destroy none t h = h
  finish_request-Told false (some out) t h = h
  finish_request-Told true (some out) t h = h

  perform-Told :
      (m : Method) (a leg : ℕ) (t : Thread) → Same t → OnTried Same Told (perform world k m a leg t)
  unfolding perform
  perform-Told m a leg t h =
      bind-OnTried Same Same Told (make_request world m a leg t) _ (make_request-Same m a leg t h)
        λ made t1 h1.
          bind-OnTried Same Told Told (report_sent world k m a leg made.0 t1) _
            (report_sent-Told m a leg made.0 t1 h1)
            λ ok t2 h2.
              bind-OnTried Same Told Told (bye_after_ack world m a t2) _
                (bye_after_ack-Told m a t2 h2) λ ok' t3 h3. finish_request-Told made.1 made.0 t3 h3

  catch-Told : (m : Tried (Unit {0})) → OnTried Same Told m → OnOption Told (catch world k m)
  unfolding remove_app_transaction
  catch-Told undefined h = tt
  catch-Told (failed why t) h = answer-Told (codes "NOK") (codes "Server error: " ++ why) t h
  catch-Told (done ok t) h = h

  find_dialog-Same : (o : Option ℕ) (t : Thread) → Same t → OnTried Same Same (find_dialog k o t)
  find_dialog-Same none t h = h
  find_dialog-Same (some a) t h = h

  leg_of-Same : (o : Option ℕ) (t : Thread) → Same t → OnTried Same Same (leg_of o t)
  leg_of-Same none t h = tt
  leg_of-Same (some leg) t h = h

-- A request inside a dialog of an application that is connected and has asked with a message id: unless
-- an assertion fails or a null pointer is read, the application gets exactly one more answer to that id,
-- whether the request is sent, refused or fails at any step, and also where a BYE follows an ACK.
pub do_send_request_inside_dialog-Told :
    (world : World) (k : Command) (t : Thread)
    → is_empty k.msg_id ≡ false
    → is_some (find_client_for_api_request world.live k.msg_id t.clients) ≡ true
    → OnOption
        (λ u. replies k.msg_id u.clients.posted ≡ replies k.msg_id t.clients.posted + 1)
        (do_send_request_inside_dialog world k t)
unfolding do_send_request_inside_dialog
do_send_request_inside_dialog-Told world k t ne asked =
    let P : Thread → Type 0 = Same world k t ne asked in
    let Q : Thread → Type 0 = Told world k t ne asked in
    catch-Told world k t ne asked _ (
      bind-OnTried P P Q (find_dialog k (find_dialog_by_id k.dialog_id t) t) _
        (find_dialog-Same world k t ne asked (find_dialog_by_id k.dialog_id t) t refl)
        λ a t1 h1.
          bind-OnTried P P Q (leg_of (t1.objects a).core.leg (tport_of_dialog world a t1).1) _
            (leg_of-Same world k t ne asked (t1.objects a).core.leg (tport_of_dialog world a t1).1
              (tport_of_dialog-clients world a t1 ∙ h1))
            λ leg t2 h2.
              bind-OnTried P P Q (prepare world k a leg t2) _
                (prepare-Same world k t ne asked a leg t2 h2)
                λ m t3 h3. perform-Told world k t ne asked m a leg t3 h3)
