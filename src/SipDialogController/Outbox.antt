-- ===== src/SipDialogController/Outbox.antt =====
-- The hand-over from the thread of the clients to the thread of the SIP stack: the `send…` methods and
-- `respondToSipRequest` of src/sip-dialog-controller.cpp copy what they are given to a `SipMessageData`,
-- whose texts have a fixed size, and post it.
pub mod Copies
mod Tests
use drachtio_server.Common.{
  ℕ, ◌≡◌, Bool, true, false, not, ◌||◌, Option, none, some, List, [], ◌∷◌, ◌++◌, ◌==◌,
  if◌then◌else◌, take, is_empty, Text, codes, has_substring,
}
use drachtio_server.ClientController.{Live}
use drachtio_server.ClientController.Selection.{has_tag}
use drachtio_server.ClientController.Transactions.{route_api_response}
use drachtio_server.ClientController.Applications.{System, on_clients, ProxyOptions, Stack}

abbrev pub msg_id_len : ℕ
msg_id_len = 128

abbrev pub max_dialog_id_len : ℕ
max_dialog_id_len = 1024

abbrev pub start_len : ℕ
start_len = 512

abbrev pub hdr_len : ℕ
hdr_len = 8400

abbrev pub body_len : ℕ
body_len = 12288

-- The texts that the getters give.
pub record SipMessageData : Type 0 where
  pub client_msg_id : Text
  pub transaction_id : Text
  pub request_id : Text
  pub dialog_id : Text
  pub start_line : Text
  pub headers : Text
  pub body : Text
  pub route_url : Text

-- A buffer of zeros is read up to its first zero.
unfoldable pub c_string : Text → Text
c_string [] = []
c_string (c ∷ s) = if c == 0 then [] else c ∷ c_string s

-- memcpy of at most `n` bytes to zeroed bytes with room for one more.
unfoldable pub copy : ℕ → Text → Text
unfolding c_string
copy n s = c_string (take n s)

unfoldable pub message_data : Text → Text → Text → Text → Text → Text → Text → SipMessageData
unfolding copy
message_data msg_id transaction request dialog start_line headers body = record {
  client_msg_id = copy msg_id_len msg_id;
  transaction_id = copy msg_id_len transaction;
  request_id = copy msg_id_len request;
  dialog_id = copy max_dialog_id_len dialog;
  start_line = copy start_len start_line;
  headers = copy hdr_len headers;
  body = copy body_len body;
  route_url = [];
}

-- The constructor with a route url keeps less of the dialog id.
unfoldable pub message_data_with_route :
    Text → Text → Text → Text → Text → Text → Text → Text → SipMessageData
unfolding copy
message_data_with_route msg_id transaction request dialog start_line headers body route_url =
    record {
      client_msg_id = copy msg_id_len msg_id;
      transaction_id = copy msg_id_len transaction;
      request_id = copy msg_id_len request;
      dialog_id = copy msg_id_len dialog;
      start_line = copy start_len start_line;
      headers = copy hdr_len headers;
      body = copy body_len body;
      route_url = copy start_len route_url;
    }

-- What is posted to the stack thread: the function that runs there, and its data.
pub data Job : Type 0 where
  request_inside_dialog request_outside_dialog response cancel : SipMessageData → Job

-- The jobs posted, the oldest first, and the ids of the dialogs, which the stack thread writes.
pub record Outbox : Type 0 where
  pub jobs : List Job
  pub dialog_ids : List Text

-- How `su_msg_create` and `su_msg_send` end.
pub data Sending : Type 0 where
  sent create_failed send_failed : Sending

abbrev pub enqueue : Job → System Outbox → System Outbox
enqueue job s = record s { stack = record s.stack { jobs = s.stack.jobs ++ job ∷ [] } }

abbrev pub post_job : Sending → Job → System Outbox → Bool × System Outbox
post_job sent job s = (true, enqueue job s)
post_job create_failed job s = (false, s)
post_job send_failed job s = (false, s)

-- Only inside a dialog is the client told that sending failed.
unfoldable pub report : Live → Text → Text → System Outbox → System Outbox
unfolding route_api_response
report live msg_id reason s =
    on_clients (λ clients. (route_api_response live msg_id (codes "NOK") reason clients).1) s

unfoldable pub post_inside : Sending → Live → Text → Job → System Outbox → Bool × System Outbox
unfolding report
post_inside sent live msg_id job s = (true, enqueue job s)
post_inside create_failed live msg_id job s =
    (false, report live msg_id (codes "Internal server error allocating message") s)
post_inside send_failed live msg_id job s =
    (false, report live msg_id (codes "Internal server error sending message") s)

-- The suffixes ;uas and ;uac, in this order.
unfoldable pub find_dialog_by_call_id : Text → System Outbox → Option Text
find_dialog_by_call_id call_id s =
    if has_tag (call_id ++ codes ";uas") s.stack.dialog_ids
    then some (call_id ++ codes ";uas")
    else if has_tag (call_id ++ codes ";uac") s.stack.dialog_ids
    then some (call_id ++ codes ";uac")
    else none

-- `uuid` stands for each text that `generateUuid` gives here.
module _ (sending : Sending) (live : Live) (uuid : Text) where
  abbrev pub or_uuid : Text → Text
  or_uuid id = if is_empty id then uuid else id

  -- There is no result where the assertion of a dialog id fails.
  unfoldable pub send_request_inside_dialog :
      Text → Text → Text → Text → Text → Text → System Outbox → Option (Bool × System Outbox)
  unfolding message_data post_inside
  send_request_inside_dialog msg_id dialog start_line headers body transaction s =
      if is_empty dialog
      then none
      else some (
          post_inside sending live msg_id
            (request_inside_dialog
              (message_data msg_id (or_uuid transaction) [] dialog start_line headers body))
            s)

  unfoldable pub send_request_outside_dialog :
      Text → Text → Text → Text → Text → Text → Text → System Outbox → Bool × System Outbox
  unfolding message_data_with_route
  send_request_outside_dialog msg_id start_line headers body transaction dialog route_url s =
      let dialog' = if has_substring (codes "INVITE") start_line then uuid else dialog in
      post_job sending
        (request_outside_dialog (
          message_data_with_route msg_id (or_uuid transaction) [] dialog' start_line headers body
            route_url))
        s

  unfoldable pub send_cancel_request :
      Text → Text → Text → Text → Text → System Outbox → Bool × System Outbox
  unfolding message_data
  send_cancel_request msg_id transaction start_line headers body s =
      post_job sending (cancel (message_data msg_id transaction [] [] start_line headers body)) s

  unfoldable pub respond_to_sip_request :
      Text → Text → Text → Text → Text → System Outbox → Bool × System Outbox
  unfolding message_data
  respond_to_sip_request msg_id transaction start_line headers body s =
      post_job sending (response (message_data msg_id transaction [] [] start_line headers body)) s

  -- A failed assertion as a request that is not sent: the interface has no result for it. The clients
  -- call `send_inside` with a dialog id that is not empty, or one that was found.
  abbrev pub unless_failed : Option (Bool × System Outbox) → System Outbox → Bool × System Outbox
  unless_failed none s = (false, s)
  unless_failed (some r) s = r

  -- The interface that the clients use. `proxyRequest` is that of another component.
  unfoldable pub outbox_stack :
      (Text → Text → ProxyOptions → Text → System Outbox → System Outbox) → Stack Outbox
  unfolding send_request_inside_dialog send_request_outside_dialog send_cancel_request
      respond_to_sip_request find_dialog_by_call_id
  outbox_stack proxy = record {
    send_inside = λ m d t h b u s. unless_failed (send_request_inside_dialog m d t h b u s) s;
    send_outside = send_request_outside_dialog;
    respond = respond_to_sip_request;
    send_cancel = send_cancel_request;
    proxy = proxy;
    find_dialog_by_call_id = find_dialog_by_call_id;
  }
