-- ===== src/SipDialogController/Outbox/Copies.antt =====
-- What the stack thread reads of a text that was copied, and what posting a job leaves alone.
use Prim.{Unit, tt}
use drachtio_server.Common.{
  ℕ, zero, suc, ◌≤◌, ◌≡◌, ◌≢◌, refl, ap, true, false, [], ◌∷◌, ◌++◌, arith, length, take, is_empty,
  Text, ◌==◌, Bool, some, if-cases,
}
use drachtio_server.ClientController.{Live}
use drachtio_server.ClientController.Applications.{System, ProxyOptions}
use drachtio_server.ClientController.Applications.Answers.{KeepsClients}
use drachtio_server.SipDialogController.Outbox.{
  c_string, copy, message_data, request_inside_dialog, Outbox, sent, send_request_inside_dialog,
  post_inside, enqueue, unless_failed, outbox_stack, send_request_outside_dialog,
  respond_to_sip_request, send_cancel_request,
}

-- No zero byte in it.
abbrev pub NoZero : Text → Type 0
NoZero [] = Unit {0}
NoZero (c ∷ s) = (c ≢ 0) × NoZero s

c_string-NoZero : (s : Text) → NoZero s → c_string s ≡ s
unfolding c_string
c_string-NoZero [] _ = refl
c_string-NoZero (c ∷ s) (n, ns) =
    let e : (c == 0) ≡ false = ground arith in rw e (ap (◌∷◌ c) (c_string-NoZero s ns))

take-all : (n : ℕ) (s : Text) → length s ≤ n → take n s ≡ s
take-all zero [] l = refl
take-all zero (c ∷ s) l = absurd (omega arith)
take-all (suc n) [] l = refl
take-all (suc n) (c ∷ s) l = ap (◌∷◌ c) (take-all n s (omega arith))

pub copy-fits : (n : ℕ) (s : Text) → NoZero s → length s ≤ n → copy n s ≡ s
unfolding copy
copy-fits n s z l = rw (take-all n s l) (c_string-NoZero s z)

length-c_string : (s : Text) → length (c_string s) ≤ length s
unfolding c_string
length-c_string [] = omega arith
length-c_string (c ∷ s) = ground (arith, length-c_string s)

length-take : (n : ℕ) (s : Text) → length (take n s) ≤ n
length-take zero s = omega arith
length-take (suc n) [] = omega arith
length-take (suc n) (c ∷ s) = omega (arith, length-take n s)

-- Whatever the text, at most as many bytes are read as the buffer was given.
pub length-copy : (n : ℕ) (s : Text) → length (copy n s) ≤ n
unfolding copy
length-copy n s = omega (arith, length-c_string (take n s), length-take n s)

-- A text that fits its buffer, without a zero byte.
abbrev pub Fits : ℕ → Text → Type 0
Fits n s = NoZero s × (length s ≤ n)

-- A request inside a dialog with a dialog id and a transaction id that are not empty, and whose texts
-- have no zero byte and fit their buffers (128 bytes for the message's and the transaction's id, 1024
-- for the dialog's, 512 for the start line, 8400 for the headers, 12288 for the body), passes the
-- assertion of a dialog id and is
-- posted to the stack thread as it was given, after the jobs before it, and the tables of the clients
-- stay as they were, where the message to the thread can be sent.
pub send_request_inside_dialog-whole :
    (live : Live) (uuid msg_id dialog start_line headers body transaction : Text)
    (s : System Outbox)
    → is_empty dialog ≡ false
    → is_empty transaction ≡ false
    → Fits 128 msg_id
    → Fits 128 transaction
    → Fits 1024 dialog
    → Fits 512 start_line
    → Fits 8400 headers
    → Fits 12288 body
    → (r : Bool × System Outbox) × (send_request_inside_dialog sent live uuid msg_id dialog
          start_line headers body transaction s
        ≡ some r)
      × (r.0 ≡ true)
      × (r.1.world ≡ s.world)
      × (r.1.stack.dialog_ids ≡ s.stack.dialog_ids)
      × (r.1.stack.jobs
          ≡ s.stack.jobs
            ++ request_inside_dialog (record {
              client_msg_id = msg_id;
              transaction_id = transaction;
              request_id = [];
              dialog_id = dialog;
              start_line = start_line;
              headers = headers;
              body = body;
              route_url = [];
            })
              ∷ [])
unfolding send_request_inside_dialog message_data post_inside
send_request_inside_dialog-whole live uuid msg_id dialog start_line headers body transaction s i n m
      t d l h b =
    (
      (
        true,
        enqueue
            (request_inside_dialog (record {
              client_msg_id = msg_id;
              transaction_id = transaction;
              request_id = [];
              dialog_id = dialog;
              start_line = start_line;
              headers = headers;
              body = body;
              route_url = [];
            }))
            s,
      ),
      rw
          (
            i,
            n,
            copy-fits 128 msg_id m.0 m.1,
            copy-fits 128 transaction t.0 t.1,
            copy-fits 1024 dialog d.0 d.1,
            copy-fits 512 start_line l.0 l.1,
            copy-fits 8400 headers h.0 h.1,
            copy-fits 12288 body b.0 b.1,
            copy-fits 128 [] tt (omega arith),
          )
          refl,
      refl,
      refl,
      refl,
      refl,
    )

-- The stack's side of the interface, where its messages can be sent and the proxy's part does so too.
pub outbox_stack-KeepsClients :
    (live : Live) (uuid : Text)
    (proxy : Text → Text → ProxyOptions → Text → System Outbox → System Outbox)
    → ((m u : Text) (o : ProxyOptions) (h : Text) (s : System Outbox)
        → (proxy m u o h s).world.clients ≡ s.world.clients)
    → KeepsClients (outbox_stack sent live uuid proxy)
unfolding outbox_stack send_request_inside_dialog send_request_outside_dialog respond_to_sip_request
    send_cancel_request post_inside
outbox_stack-KeepsClients live uuid proxy keeps = record {
  inside = λ m d t h b u s.
      if-cases (λ o. (unless_failed sent live uuid o s).1.world.clients ≡ s.world.clients)
        (is_empty d) _ _ (λ e. refl) (λ e. refl);
  outside = λ m t h b u d r s. refl;
  respond = λ m u t h b s. refl;
  cancel = λ m u t h b s. refl;
  proxy = keeps;
}
