-- ===== src/SipDialogController/Thread/Responses/Refresh.antt =====
-- The end of a session whose refresh fails (`processResponseToRefreshingReinvite` of
-- src/sip-dialog-controller.cpp).
use drachtio_server.Common.{
  ℕ, ◌≡◌, refl, sym, ap, ◌∙◌, Bool, true, false, not, ◌&&◌, ◌||◌, Option, none, some, OnOption,
  List, [], ◌∷◌, ◌==◌, leb, ltb, if◌then◌else◌, Text, arith, Bool-cases, inl, inr, keep_if, subst,
  is_empty, codes,
}
use drachtio_server.Common
use drachtio_server.Common.Handles
use drachtio_server.Common.Dict.{Dict}
use drachtio_server.SipDialog.Stable.{Stored, sd_clear}
use drachtio_server.SipDialogController.Liveness
use drachtio_server.SipDialogController.Liveness.{Answer, Tport, track_tport_liveness}
use drachtio_server.SipDialogController.Thread.{
  Thread, Rip, Effect, did, did_all, of_liveness, find_rip_by_orq, clear_rip, find_dialog_by_id,
}
use drachtio_server.SipDialogController.Thread.Steps.{
  World, bye_on_leg, forget_dialog, notify_terminate_stale_dialog,
}
use drachtio_server.SipDialogController.Thread.Responses.{
  Response, note_counts, track, end_refresh, tear_down, refresh_done, refresh_answered,
  process_response_to_refreshing_reinvite,
}

abbrev pub has_address : ℕ → List Stored → Bool
has_address a [] = false
has_address a (d ∷ s) = d.address == a || has_address a s

has_address-sd_clear : (a : ℕ) (s : List Stored) → has_address a (sd_clear a s) ≡ false
unfolding sd_clear
has_address-sd_clear a [] = refl
has_address-sd_clear a (d ∷ s) = ground (arith, has_address-sd_clear a s)

-- No answer, or a final one that is neither a success nor the glare of two re-INVITEs.
abbrev pub has_failed : Option Response → Bool
has_failed none = true
has_failed (some r) = leb 200 r.status && (not (r.status == 200) && not (r.status == 491))

did_all-tables :
    {A : Type 0} (f : A → Effect) (es : List A) (t : Thread)
    → ((did_all f es t).rips ≡ t.rips) × ((did_all f es t).dialogs ≡ t.dialogs)
did_all-tables f [] t = (refl, refl)
did_all-tables f (e ∷ es) t = did_all-tables f es (did (f e) t)

note_counts-tables :
    (t : Thread) (r : Dict ℕ × List Liveness.Effect)
    → ((note_counts t r).rips ≡ t.rips) × ((note_counts t r).dialogs ≡ t.dialogs)
note_counts-tables t (counts, effects) =
    did_all-tables of_liveness effects (record t { counts = counts })

-- The dialog is no longer established, and the request no longer in progress.
abbrev pub IsOver : ℕ → ℕ → Thread → Type 0
IsOver orq a u = (find_rip_by_orq orq u ≡ none) × (has_address a u.dialogs ≡ false)

IsOver-forgotten :
    (world : World) (orq a : ℕ) (o : Option Thread)
    → OnOption (IsOver orq a) (
        Common.◌>>=◌
          (Common.◌>>=◌ o (λ u. some (forget_dialog world a u)))
          (λ u. some (clear_rip orq u)))
unfolding clear_rip find_rip_by_orq
IsOver-forgotten world orq a none = tt
IsOver-forgotten world orq a (some u) =
    (Handles.find-erase_self orq u.rips, has_address-sd_clear a u.dialogs)

end_refresh-IsOver :
    (world : World) (orq a : ℕ) (t : Thread)
    → OnOption (IsOver orq a) (end_refresh world orq (notify_terminate_stale_dialog world a t))
unfolding notify_terminate_stale_dialog
end_refresh-IsOver world orq a t =
    IsOver-forgotten world orq a (bye_on_leg world a (t.objects a).core.leg t)

refresh_answered-IsOver :
    (world : World) (o : Option Response) (orq a : ℕ) (asked : Option ℕ) (rip : Rip) (t : Thread)
    → has_failed o ≡ true
    → find_dialog_by_id rip.dialog_id t ≡ some a
    → OnOption (IsOver orq a) (refresh_answered world o orq asked (some rip) t)
refresh_answered-IsOver world none orq a asked rip t failed found =
    subst (λ d. OnOption (IsOver orq a) (end_refresh world orq (tear_down world d t))) (sym found)
      (end_refresh-IsOver world orq a t)
refresh_answered-IsOver world (some r) orq a asked rip t failed found =
    let final : ltb r.status 200 ≡ false = ground (arith, failed) in
    let not_ok : (r.status == 200) ≡ false = ground (arith, failed) in
    let no_glare : (r.status == 491) ≡ false = ground (arith, failed) in
    rw final (
      subst (λ d. OnOption (IsOver orq a) (end_refresh world orq (refresh_done world r asked d t)))
        (sym found) (rw (not_ok, no_glare) (end_refresh-IsOver world orq a t)))

find_dialog_by_id-same :
    (id : Text) (t u : Thread)
    → u.dialogs ≡ t.dialogs
    → find_dialog_by_id id u ≡ find_dialog_by_id id t
unfolding find_dialog_by_id
find_dialog_by_id-same id t u e = ground (arith, e)

-- The refreshing re-INVITE of an established dialog gets no answer, or a final one other than 200 and
-- 491: unless no BYE can be made, the re-INVITE is no longer in progress and the dialog is no longer
-- among the established ones.
pub process_response_to_refreshing_reinvite-IsOver :
    (world : World) (limit : ℕ) (answer : Answer) (tport : Option Tport) (o : Option Response)
    (orq a : ℕ) (asked : Option ℕ) (rip : Rip) (t : Thread)
    → has_failed o ≡ true
    → find_rip_by_orq orq t ≡ some rip
    → find_dialog_by_id rip.dialog_id t ≡ some a
    → OnOption
        (IsOver orq a)
        (process_response_to_refreshing_reinvite world limit answer tport o orq asked t)
unfolding process_response_to_refreshing_reinvite track find_rip_by_orq find_dialog_by_id
process_response_to_refreshing_reinvite-IsOver world limit answer tport o orq a asked rip t failed
      sent found =
    let u = track limit answer tport t in
    let (rips, dialogs) = note_counts-tables t (track_tport_liveness limit answer tport t.counts) in
    subst (λ r. OnOption (IsOver orq a) (refresh_answered world o orq asked r u))
      (sym (ap (Handles.find orq) rips ∙ sent))
      (refresh_answered-IsOver world o orq a asked rip u failed
        (find_dialog_by_id-same rip.dialog_id t u dialogs ∙ found))
