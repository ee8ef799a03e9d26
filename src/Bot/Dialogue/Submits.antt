-- ===== src/Bot/Dialogue/Submits.antt =====
-- An inquiry from its first question to the table.
use nft_torrent.Base.{ℕ, Bool, true, false, Option, none, some, List, [], ◌∷◌}
use nft_torrent.Bot.Inquiries.{Inquiries, UserInquiry, active}
use nft_torrent.Bot.Dialogue.{
  submit, next_step, inquiry_callback, DialogueState, no_fields, Context, Handled, App, Update,
  Sent, done, sent_text, admin_group, edited_message, new_inquiry_body, inquiry_reply_callback,
  reply, close, block_user,
}
use nft_torrent.Bot.Dialogue.Route.{Event, message, pressed, inquiry, handle}
use Prim.Native.String.{String}

-- Updates one after the other, from a context and a table; what is sent is that of the last one.
abbrev pub play : App → Update → List Event → Context → Inquiries → Handled
play app u [] c db = done c db []
play app u (e ∷ []) c db = handle app u e c db
play app u (e ∷ e' ∷ es) c db =
    let h = handle app u e c db in play app u (e' ∷ es) h.context h.table

-- `/inquiry`, a subject, a message, no address, no screenshot, and "Submit"
abbrev pub conversation : Option String → Option String → String → ℕ → List Event
conversation subject text key id =
    message id none (some inquiry) none
    ∷ message id subject none none
    ∷ message id text none none
    ∷ pressed id (inquiry_callback key next_step)
    ∷ pressed id (inquiry_callback key next_step)
    ∷ pressed id (inquiry_callback key submit)
    ∷ []

-- The context of a dialogue that has the given answers
abbrev pub filled :
    DialogueState → String → Option (Option String) → Option (Option String) → Context
filled state key subject text = record {
  state = some state;
  fields = record no_fields { inquiry_id = some key; subject = subject; message = text };
}

abbrev pub is_premium_user : Option Bool → Bool
is_premium_user (some true) = true
is_premium_user (some false) = false
is_premium_user none = false

-- The row of an inquiry of the user with this subject and message, and what is sent about it
abbrev pub row_of : Update → String → Option String → Option String → ℕ → ℕ → UserInquiry
row_of u name subject text id num = record {
  id = num;
  inquiry_id = u.random_inquiry_id;
  user_id = u.from_user.id;
  state = some active;
  username = some name;
  language = u.from_user.language_code;
  is_premium = is_premium_user u.from_user.is_premium;
  subject = subject;
  message = text;
  message_id = some id;
  nft_address = none;
  created_time = u.now;
  updated_time = u.now;
  disabled_to = none;
  closed_time = none;
  admin_user_id = none;
  admin_message = none;
}

abbrev pub told : Update → Option String → Option String → ℕ → ℕ → List Sent
told u subject text id num =
    let key = u.random_inquiry_id in
    let user_id = u.from_user.id in
    let body = new_inquiry_body num subject none text in
    sent_text admin_group body (
      inquiry_reply_callback key user_id id reply
      ∷ inquiry_reply_callback key user_id id close
      ∷ inquiry_reply_callback key user_id id block_user
      ∷ [])
    ∷ sent_text (edited_message id) body (
        inquiry_reply_callback key 0 u.admin_message_id reply
        ∷ inquiry_reply_callback key 0 u.admin_message_id close
        ∷ [])
    ∷ []
