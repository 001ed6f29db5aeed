-- ===== src/SipDialogController/Thread/Replying/Dialogs.antt =====
-- The first branch of `doRespondToSipRequest` (src/sip-dialog-controller.cpp): a request that waited.
use drachtio_server.Common.{
  ℕ, Bool, true, false, not, ◌&&◌, ◌||◌, Option, none, some, List, [], ◌==◌, ltb, if◌then◌else◌,
  is_empty, is_some, Text, codes, ◌>>=◌,
}
use drachtio_server.DrachtioController
use drachtio_server.DrachtioController.{
  Caches, cache_tport_for_subscription, flush_tport_for_subscription,
}
use drachtio_server.SipDialogController.Thread.{
  Thread, of_caches, did_all, on_dialog, dialog_id, find_dialog_by_leg,
}
use drachtio_server.SipDialogController.Thread.Steps.{World}
use drachtio_server.SipDialogController.Thread.Requests.{remove_incoming}
use drachtio_server.SipDialogController.Thread.Replying.{
  Reply, Local, Sent, Incoming, Outcome, is_invite, is_subscribe, is_register, gone_text,
  open_tport, try_reply,
}

abbrev pub or_empty : Option Text → Text
or_empty none = []
or_empty (some t) = t

module _ (world : World) (net : Incoming) (k : Reply) where
  abbrev pub reply_from : ℕ → Option Local → Thread → Option Text × Thread
  reply_from irq none t = (some (codes "Unable to find transport for transaction"), t)
  reply_from irq (some l) t = try_reply net irq k.code t

  abbrev pub reply_over : ℕ → Option ℕ → Thread → Option Text × Thread
  reply_over irq none t = (some gone_text, t)
  reply_over irq (some tp) t = reply_from irq (net.find_transport tp) t

  -- The seconds that are granted: for a REGISTER those of the Contact come first.
  abbrev pub granted : ℕ → Sent → ℕ
  granted irq s =
      if is_subscribe (net.method irq)
      then s.expires
      else elim s.contact_expires [ none ↦ s.expires | some secs ↦ secs ]

  abbrev pub keep_caches : Thread → Caches × List DrachtioController.Effect → Thread
  keep_caches t (caches, effects) = did_all of_caches effects (record t { caches = caches })

  -- The transport of a subscriber, which has no address of its own, is kept as long as it is granted.
  abbrev pub cache_peer : ℕ → Option Text × Option Text → ℕ → Thread → Thread
  cache_peer tp (user, host) secs t =
      if ltb 0 secs
      then keep_caches t (cache_tport_for_subscription (or_empty user) host k.now secs tp t.caches)
      else keep_caches t (flush_tport_for_subscription user host t.caches)

  abbrev pub cache_response :
      ℕ → ℕ → Option Text × Option Text → Option Sent → Thread → Option Text × Thread
  cache_response irq tp peer none t =
      (some (codes "connection error: remote side may have closed socket"), t)
  cache_response irq tp peer (some s) t = (none, cache_peer tp peer (granted irq s) t)

  abbrev pub caches_peer : ℕ → Bool
  caches_peer irq =
      (is_subscribe (net.method irq) && (k.code == 202 || k.code == 200))
      || (is_register (net.method irq) && k.code == 200)

  abbrev pub cache_contact :
      ℕ → Option ℕ → Option (Option Text × Option Text) → Thread → Option Text × Thread
  cache_contact irq none peer t = (none, t)
  cache_contact irq (some tp) none t = (none, t)
  cache_contact irq (some tp) (some peer) t =
      if world.is_dgram tp then (none, t) else cache_response irq tp peer (net.response irq) t

  unfoldable pub after_reply : ℕ → Option ℕ → Option Text × Thread → Option Text × Thread
  unfolding cache_tport_for_subscription flush_tport_for_subscription
  after_reply irq tp (some why, t) = (some why, t)
  after_reply irq tp (none, t) =
      if caches_peer irq then cache_contact irq tp (net.contact irq) t else (none, t)

  -- A request inside a dialog is no longer held; an answer to a re-INVITE has our new session.
  abbrev pub release_in : ℕ → Option Text → Option (Option ℕ) → Thread → Option (Text × Thread)
  release_in irq problem none t = some ([], t)
  release_in irq problem (some none) t = none
  release_in irq problem (some (some a)) t =
      let (id, t1) = dialog_id a t in
      let t2 = remove_incoming a k.transaction_id t1 in
      some (
        id,
        if is_invite (net.method irq) && (not (is_empty k.body) && not (is_some problem))
            then on_dialog a (λ d. record d { local_sdp = k.body }) t2
            else t2,
      )

  abbrev pub release : ℕ → Bool → Option Text → Thread → Option (Text × Thread)
  release irq false problem t = some ([], t)
  release irq true problem t = elim (net.leg irq) [
    | none ↦ some ([], t)
    | some leg ↦ release_in irq problem (find_dialog_by_leg leg t) t
  ]

  abbrev pub finish_waiting : ℕ → Bool → Option Text × Thread → Option (Outcome × Thread)
  finish_waiting irq existing (problem, t) = release irq existing problem t >>= λ r. some (
    record {
      problem = problem;
      irq = some irq;
      dialog = r.0;
      destroy_irq = true;
      clear_iip = false;
      is_update = false;
      existing = existing;
    },
    r.1,
  )

  -- `none` is an invite in progress without a dialog.
  unfoldable pub respond_to_waiting : ℕ → Bool → Thread → Option (Outcome × Thread)
  unfolding after_reply dialog_id find_dialog_by_leg
  respond_to_waiting irq existing t =
      let tp = open_tport net irq in
      finish_waiting irq existing (after_reply irq tp (reply_over irq tp t))
