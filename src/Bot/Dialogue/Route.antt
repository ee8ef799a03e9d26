-- ===== src/Bot/Dialogue/Route.antt =====
-- The handlers of NFTorrent/bot/handlers/inquiry.py as the router calls them: the first one in the
-- order of the file whose filters an update passes.
use nft_torrent.Base.{ℕ, ◌==◌, Bool, true, false, Option, none, some, [], ◌∷◌, if◌then◌else◌}
use nft_torrent.Bot.Inquiries.{Inquiries}
use nft_torrent.Bot.Dialogue.{
  InquiryAction, cancel, submit, next_step, Callback, inquiry_callback, inquiry_reply_callback,
  DialogueState, form_subject, form_message, form_nft_address, form_screenshot, user_reply,
  admin_reply, Context, Handled, App, Update, done, say, chat_id,
}
use nft_torrent.Bot.Dialogue.Form.{
  cancel_inquiry, start_inquiry, get_subject, get_message, query_screenshot, get_address,
  get_screenshot, query_submit_inquiry, submit_inquiry,
}
use nft_torrent.Bot.Dialogue.Replies.{
  user_reply_cancel, user_reply_inquiry, user_get_reply, admin_reply_inquiry, admin_get_reply,
}
use Prim.Native.String.{String}

-- A command of a message; `start` has the argument "inquiry" or not.
pub data Command : Type 0 where
  get_id inquiry : Command
  start : Bool → Command

-- A message with its text, its command and the last of its photos, or a pressed button with the
-- message that it stands under
pub data Event : Type 0 where
  message : ℕ → Option String → Option Command → Option String → Event
  pressed : ℕ → Callback → Event

abbrev pub ignored : Context → Inquiries → Handled
ignored c db = done c db []

unfoldable pub next_pressed : Option DialogueState → Context → Inquiries → Handled
next_pressed (some form_nft_address) c db = query_screenshot c db
next_pressed (some form_screenshot) c db = query_submit_inquiry c db
next_pressed state c db = ignored c db

abbrev pub is_cancel : InquiryAction → Bool
is_cancel cancel = true
is_cancel action = false

unfoldable pub press : App → Update → ℕ → Callback → Context → Inquiries → Handled
press app u id (inquiry_reply_callback key user_id message_id action) c db =
    if is_cancel action
    then user_reply_cancel id key c db
    else if user_id == 0
    then user_reply_inquiry app u id key message_id action c db
    else admin_reply_inquiry app u id key user_id message_id action c db
press app u id (inquiry_callback key cancel) c db = cancel_inquiry id key c db
press app u id (inquiry_callback key next_step) c db = next_pressed c.state c db
press app u id (inquiry_callback key submit) c db = submit_inquiry app u id key c db
press app u id (inquiry_callback key action) c db = ignored c db

-- A message that no earlier handler takes
unfoldable pub answer :
    App
    → Update
    → ℕ
    → Option String
    → Option String
    → Option DialogueState
    → Context
    → Inquiries
    → Handled
answer app u id text photo (some user_reply) c db = user_get_reply app u id text c db
answer app u id text photo (some admin_reply) c db = admin_get_reply app u id text c db
answer app u id text photo (some form_subject) c db = get_subject text c db
answer app u id text photo (some form_message) c db = get_message text c db
answer app u id text photo (some form_nft_address) c db = get_address app text c db
answer app u id text (some file_id) (some form_screenshot) c db = get_screenshot file_id c db
answer app u id text photo state c db = ignored c db

-- `/inquiry`, after the replies and before the questions of the form
abbrev pub in_reply : Option DialogueState → Bool
in_reply (some user_reply) = true
in_reply (some admin_reply) = true
in_reply state = false

unfoldable pub handle : App → Update → Event → Context → Inquiries → Handled
handle app u (pressed id callback) c db = press app u id callback c db
handle app u (message id text (some get_id) photo) c db = done c db (say chat_id [] ∷ [])
handle app u (message id text (some (start is_inquiry)) photo) c db =
    if u.is_private
    then (if is_inquiry then start_inquiry u.random_inquiry_id c db else ignored c db)
    else answer app u id text photo c.state c db
handle app u (message id text (some inquiry) photo) c db =
    if u.is_private
    then (if in_reply c.state
        then answer app u id text photo c.state c db
        else start_inquiry u.random_inquiry_id c db)
    else answer app u id text photo c.state c db
handle app u (message id text none photo) c db = answer app u id text photo c.state c db
