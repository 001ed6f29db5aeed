-- ===== src/SipDialogController/Thread/Outside.antt =====
-- Responses to requests that make dialogs: `processResponseOutsideDialog` of
-- src/sip-dialog-controller.cpp.
pub mod Failed
use drachtio_server.Common.{
  ℕ, Bool, true, false, not, ◌&&◌, ◌||◌, Option, none, some, List, [], ◌∷◌, ◌++◌, ◌==◌, leb, ltb,
  if◌then◌else◌, is_some, Text, text_eq, codes, ◌>>=◌,
}
use drachtio_server.InvitesInProgress.{Iip, find_by_orq}
use drachtio_server.SipDialogController.TimerD
use drachtio_server.SipDialogController.TimerD.{resend_if_needed}
use drachtio_server.ClientController.Dialogs.{remove_dialog}
use drachtio_server.ClientController.Routing.{route_response_inside_transaction}
use drachtio_server.SipDialogController.Thread.{
  Thread, Dialog, Rip, response_leaked, leg_established, of_acks, did, did_all, on_clients,
  on_dialog, with_clients, dialog_id, find_rip_by_orq, clear_rip,
}
use drachtio_server.SipDialogController.Thread.Steps.{
  World, add_dialog, clear_invite, start_session_timer,
}
use drachtio_server.SipDialogController.Thread.Responses.{
  Response, track, start_timer_d, dgram_of, uac_refresher,
}
use drachtio_server.SipDialogController.Thread.Requests.{Returned, zero_rc, minus_one}

-- What else is read of a response: its body, whether it has an RSeq, the host of its Contact, the address
-- that it came from, and whether it says that it comes through a NAT.
pub record Received : Type 0 where
  pub response : Response
  pub payload : Option Text
  pub has_rseq : Bool
  pub contact_host : Option Text
  pub address : Text
  pub port : Text
  pub nat_yes : Bool

-- The configuration; the first Route of a leg with its host; of the request, the host of its uri, the
-- scheme of its route and the protocol of its transport; and isRfc1918.
pub record Network : Type 0 where
  pub aggressive_nat : Bool
  pub nat_detection_disabled : Bool
  pub first_route : ℕ → Option (Option Text)
  pub request_host : ℕ → Option Text
  pub route_scheme : ℕ → Option Text
  pub protocol : ℕ → Option Text
  pub is_private : Text → Bool

abbrev pub is_invite : Response → Bool
is_invite r = text_eq r.method_name (codes "INVITE")

abbrev pub is_subscribe : Response → Bool
is_subscribe r = text_eq r.method_name (codes "SUBSCRIBE")

-- A success, or a provisional response that is sent reliably.
abbrev pub makes_dialog : Received → Bool
makes_dialog m =
    let r = m.response in
    (is_invite r && (r.status == 200 || ((ltb 100 r.status && ltb r.status 200) && m.has_rseq)))
    || (is_subscribe r && (r.status == 202 || r.status == 200))

abbrev pub same_host : Option Text → Text → Bool
same_host none t = false
same_host (some host) t = text_eq host t

module _ (world : World) (net : Network) where
  abbrev pub private_host : Option Text → Bool
  private_host none = false
  private_host (some host) = net.is_private host

  abbrev pub differs : Received → Bool
  differs m =
      is_invite m.response && (is_some m.contact_host && not (same_host m.contact_host m.address))

  abbrev pub behind_nat : Received → Option (Option Text) → Bool
  behind_nat m none = differs m || (net.aggressive_nat && m.nat_yes)
  behind_nat m (some host) = private_host host || (net.aggressive_nat && m.nat_yes)

  -- Requests of the dialog go to the address that the response came from; TLS is kept.
  abbrev pub nat_route : Received → Text
  nat_route m =
      if same_host (net.protocol m.response.orq) (codes "tls")
      then codes "sips:" ++ (m.address ++ (codes ":" ++ (m.port ++ codes ";transport=tls")))
      else elim (net.route_scheme m.response.orq) [ none ↦ codes "sip" | some scheme ↦ scheme ]
        ++ (codes ":" ++ (m.address ++ (codes ":" ++ m.port)))

  unfoldable pub detect_nat : Received → ℕ → ℕ → Thread → Thread
  detect_nat m leg a t =
      if behind_nat m (net.first_route leg) && not net.nat_detection_disabled
      then if same_host (net.request_host m.response.orq) (codes "feature-server")
        then t
        else on_dialog a (λ d. record d { route_uri = nat_route m }) t
      else on_dialog a (λ d. record d { route_uri = [] }) t

  -- The INVITE was cancelled, but answered before that: the ACK will be followed by a BYE.
  abbrev pub note_canceled : Iip → ℕ → Thread → Thread
  note_canceled iip a t =
      if iip.canceled then on_dialog a (λ d. record d { ack_bye = true }) t else t

  unfoldable pub establish : Received → Iip → ℕ → Thread → Option Thread
  unfolding detect_nat add_dialog
  establish m iip a t =
      if makes_dialog m
      then add_dialog world a
          (note_canceled iip a (detect_nat m iip.leg a (did (leg_established iip.leg) t)))
      else some t

  abbrev pub is_ok_invite : Response → Bool
  is_ok_invite r = is_invite r && r.status == 200

  abbrev pub keep_for_timer_d : Response → Thread → Option Thread
  keep_for_timer_d r t =
      if is_ok_invite r && dgram_of world (world.dialog_stack.outgoing_transport r.orq)
      then start_timer_d world r.orq t
      else some t

  abbrev pub end_invite : Response → Iip → Thread → Thread
  end_invite r iip t = if ltb 200 r.status then clear_invite iip t else t

  unfoldable pub finish_response : Response → Iip → ℕ → Thread → Thread
  unfolding start_session_timer clear_invite
  finish_response r iip a t =
      if is_ok_invite r
      then elim r.session_expires [
        | none ↦ end_invite r iip t
        | some se ↦ start_session_timer world a se.delta (uac_refresher se.refresher) t
      ]
      else end_invite r iip t

  abbrev pub note_response : Received → Dialog → Dialog
  note_response m d = elim m.payload [
    | none ↦ record d { sip_status = m.response.status }
    | some sdp ↦ record d { sip_status = m.response.status; remote_sdp = sdp }
  ]

  abbrev pub tell_app : Response → Text → Text → Thread → Thread
  tell_app r transaction id t =
      (with_clients t (
        route_response_inside_transaction world.live r.raw r.meta transaction r.status r.method_name
          id t.clients)).1

  abbrev pub forget_owner : Text × Thread → Thread
  forget_owner (id, t) = on_clients (remove_dialog id) t

  -- A failed INVITE leaves no dialog.
  abbrev pub forget_failed : Response → ℕ → Thread → Thread
  forget_failed r a t = if is_invite r && ltb 200 r.status then forget_owner (dialog_id a t) else t

  abbrev pub tell_dialog : Response → Iip → ℕ → Thread → Thread
  tell_dialog r iip a t =
      let (id, u) = dialog_id a t in forget_failed r a (tell_app r iip.transaction_id id u)

  unfoldable pub response_to_invite :
      Received → Iip → Option ℕ → Thread → Option (Returned × Thread)
  unfolding establish start_timer_d finish_response dialog_id
  response_to_invite m iip none t = none
  response_to_invite m iip (some a) t =
      establish m iip a (on_dialog a (note_response m) t) >>= keep_for_timer_d m.response >>= λ u.
      some (zero_rc, tell_dialog m.response iip a (finish_response m.response iip a u))

  abbrev pub invite_found : Received → Option Iip → Thread → Option (Returned × Thread)
  invite_found m none t = some (minus_one, t)
  invite_found m (some iip) t = response_to_invite m iip iip.dialog t

  -- An INVITE that has its ACK already gets it again.
  abbrev pub unless_resent :
      Received → Bool × List TimerD.Effect → Thread → Option (Returned × Thread)
  unless_resent m (true, effects) t = some (zero_rc, did_all of_acks effects t)
  unless_resent m (false, effects) t =
      invite_found m (find_by_orq (some m.response.orq) t.invites) t

  -- Other requests have no dialog. Without a request in progress the response is not given back.
  abbrev pub rip_found : Response → Option Rip → Thread → Option (Returned × Thread)
  rip_found r none t = some (minus_one, did (response_leaked r.orq) t)
  rip_found r (some rip) t = some (
    zero_rc,
    tell_app r rip.transaction_id [] (if leb 200 r.status then clear_rip r.orq t else t),
  )

  unfoldable pub process_response_outside_dialog :
      ℕ → Received → Thread → Option (Returned × Thread)
  unfolding track response_to_invite resend_if_needed find_by_orq find_rip_by_orq clear_rip
  process_response_outside_dialog limit m t =
      let r = m.response in
      let t1 = track limit r.answer r.tport t in
      if is_invite r
      then unless_resent m (resend_if_needed world.ack_stack r.orq t1.acks) t1
      else if is_subscribe r
      then invite_found m (find_by_orq (some r.orq) t1.invites) t1
      else rip_found r (find_rip_by_orq r.orq t1) t1
