-- ===== src/Bot/Dialogue/Replies.antt =====
-- The replies of users and of administrators to an inquiry: the handlers of InquiryReplyForm in
-- NFTorrent/bot/handlers/inquiry.py.
use nft_torrent.Base.{
  ℕ, Bool, true, false, ◌&&◌, Option, none, some, List, [], ◌∷◌, leb, ◌==◌, if◌then◌else◌,
}
use nft_torrent.Base.Int.{eqb_ℤ}
use nft_torrent.Base.Result.{Result, ok, err}
use nft_torrent.Bot.Inquiries.{
  Inquiries, BaseInquiry, UserInquiry, BackendError, sync_inquiry_close, sync_inquiry_block,
}
use nft_torrent.Bot.Dialogue.{
  InquiryAction, cancel, submit, next_step, reply, reply_cancel, close, block_user, DialogueState,
  user_reply, admin_reply, DialogueData, no_fields, Context, cleared, Text, Sent, Handled, App,
  Update, done, raises, require, say, inquiry_reply_kb, inquiry_user_kb, inquiry_admin_kb,
  HandlerError, key_error, attribute_error, unknown_locale, sent_text, keyboard_removed,
  callback_answer, admin_group, user_chat, blocked, already_closed, reply_cancelled, reply_sent,
  inquiry_closed, get_failed, update_failed, send_failed, type_reply, reply_of_user, closed_by_user,
  answer_of_admin, answer_sent,
}
use nft_torrent.Ipfs.Content.{equals}
use Prim.Native.String.{String}

-- `inquiry.disabled_to and inquiry.disabled_to >= curr_time`
abbrev pub is_blocked : ℕ → Option ℕ → Bool
is_blocked now none = false
is_blocked now (some t) = leb now t

-- The date up to which an inquiry is blocked is written for the locale of the user.
abbrev pub blocked_text : Bool → ℕ → Result HandlerError (Option (List Sent))
blocked_text true num = ok (some (say (blocked num) [] ∷ []))
blocked_text false num = err unknown_locale

-- `callback_validate_inquiry`: what is sent for an inquiry that is closed or blocked
unfoldable pub callback_validate_inquiry :
    App → Update → ℕ → Bool → UserInquiry → Result HandlerError (Option (List Sent))
callback_validate_inquiry app u callback_message_id verify_blocked inquiry = elim inquiry.state [
  | none ↦
      ok (some (keyboard_removed callback_message_id ∷ say (already_closed inquiry.id) [] ∷ []))
  | some s ↦
      if verify_blocked && is_blocked u.now inquiry.disabled_to
      then blocked_text (app.has_locale u.from_user.language_code) inquiry.id
      else ok none
]

unfoldable pub user_reply_cancel : ℕ → String → Context → Inquiries → Handled
user_reply_cancel callback_message_id key c db =
    if equals c.fields.inquiry_id (some key)
    then done cleared db (say reply_cancelled [] ∷ keyboard_removed callback_message_id ∷ [])
    else done c db (keyboard_removed callback_message_id ∷ [])

-- The context that waits for a reply, and the question for it
abbrev pub asked :
    String → DialogueState → DialogueData → UserInquiry → InquiryAction → Inquiries → Handled
asked key state fields inquiry action db =
    done (record { state = some state; fields = fields }) db
      (say (type_reply inquiry.id action) (inquiry_reply_kb key) ∷ [])

abbrev pub ask_user :
    ℕ
    → String
    → ℕ
    → InquiryAction
    → Context
    → Inquiries
    → UserInquiry
    → Result HandlerError (Option (List Sent))
    → Handled
ask_user callback_message_id key message_id action c db inquiry (err e) = raises e c db
ask_user callback_message_id key message_id action c db inquiry (ok (some refusal)) =
    done c db refusal
ask_user callback_message_id key message_id action c db inquiry (ok none) =
    asked key user_reply
      (record no_fields {
        reply_action = some action;
        inquiry_id = some key;
        message_id = some message_id;
        callback_message_id = some callback_message_id;
      })
      inquiry action db

abbrev pub user_found :
    App
    → Update
    → ℕ
    → String
    → ℕ
    → InquiryAction
    → Context
    → Inquiries
    → Result BackendError UserInquiry
    → Handled
user_found app u callback_message_id key message_id action c db (err e) =
    done c db (sent_text callback_answer (get_failed e) [] ∷ [])
user_found app u callback_message_id key message_id action c db (ok inquiry) =
    if inquiry.user_id == u.from_user.id
    then ask_user callback_message_id key message_id action c db inquiry
        (callback_validate_inquiry app u callback_message_id true inquiry)
    else done c db []

unfoldable pub user_reply_inquiry :
    App → Update → ℕ → String → ℕ → InquiryAction → Context → Inquiries → Handled
user_reply_inquiry app u callback_message_id key message_id action c db =
    user_found app u callback_message_id key message_id action c db (app.inquiry_get key)

-- The id and the user name of an inquiry, which is all that the texts take from it
abbrev pub of_base :
    Result BackendError BaseInquiry × Inquiries
    → Result BackendError (Option (ℕ × Option String)) × Inquiries
of_base (ok x, db) = (ok (some (x.id, some x.username)), db)
of_base (err e, db) = (err e, db)

abbrev pub of_get :
    Result BackendError UserInquiry
    → Inquiries
    → Result BackendError (Option (ℕ × Option String)) × Inquiries
of_get (ok x) db = (ok (some (x.id, x.username)), db)
of_get (err e) db = (err e, db)

-- What a reply of the user does to the inquiry
abbrev pub user_update :
    App
    → Update
    → String
    → InquiryAction
    → Inquiries
    → Result BackendError (Option (ℕ × Option String)) × Inquiries
user_update app u key close db =
    of_base (sync_inquiry_close u.now key (some u.from_user.id) none none db)
user_update app u key reply db = of_get (app.inquiry_get key) db
user_update app u key action db = (ok none, db)

abbrev pub user_answers :
    Update → ℕ → Option String → String → InquiryAction → Option (ℕ × Option String) → List Sent
user_answers u sent_id text key reply (some (num, name)) =
    sent_text admin_group (reply_of_user num text) (inquiry_admin_kb key u.from_user.id sent_id)
    ∷ say (reply_sent num) []
    ∷ []
user_answers u sent_id text key close (some (num, name)) =
    sent_text admin_group (closed_by_user num text) [] ∷ say (inquiry_closed num) [] ∷ []
user_answers u sent_id text key action inquiry = []

-- The dialogue goes on when the inquiry cannot be updated, and else ends.
abbrev pub settle_reply :
    Context
    → (Option (ℕ × Option String) → List Sent)
    → Result BackendError (Option (ℕ × Option String)) × Inquiries
    → Handled
settle_reply c answers (err e, db) = done c db (say (update_failed e) [] ∷ [])
settle_reply c answers (ok inquiry, db) = done cleared db (answers inquiry)

unfoldable pub user_get_reply : App → Update → ℕ → Option String → Context → Inquiries → Handled
user_get_reply app u message_id text c db =
    let missing = raises key_error c db in
    require c.fields.reply_action missing (λ action. require c.fields.inquiry_id missing (λ key.
      require c.fields.message_id missing (λ replied.
        settle_reply c (user_answers u message_id text key action)
          (user_update app u key action db))))

abbrev pub ask_admin :
    ℕ
    → String
    → ℕ
    → ℕ
    → InquiryAction
    → Context
    → Inquiries
    → UserInquiry
    → Result HandlerError (Option (List Sent))
    → Handled
ask_admin callback_message_id key user_id message_id action c db inquiry (err e) = raises e c db
ask_admin callback_message_id key user_id message_id action c db inquiry (ok (some refusal)) =
    done c db refusal
ask_admin callback_message_id key user_id message_id action c db inquiry (ok none) =
    let fields : DialogueData = record no_fields {
      reply_action = some action;
      inquiry_id = some key;
      user_id = some user_id;
      message_id = some message_id;
      callback_message_id = some callback_message_id;
    } in
    elim inquiry.language [
      | none ↦ raises attribute_error (record { state = some admin_reply; fields = fields }) db
      | some language ↦ asked key admin_reply fields inquiry action db
    ]

abbrev pub admin_found :
    App
    → Update
    → ℕ
    → String
    → ℕ
    → ℕ
    → InquiryAction
    → Context
    → Inquiries
    → Result BackendError UserInquiry
    → Handled
admin_found app u callback_message_id key user_id message_id action c db (err e) =
    done c db (say (get_failed e) [] ∷ [])
admin_found app u callback_message_id key user_id message_id action c db (ok inquiry) =
    ask_admin callback_message_id key user_id message_id action c db inquiry
      (callback_validate_inquiry app u callback_message_id false inquiry)

unfoldable pub admin_reply_inquiry :
    App → Update → ℕ → String → ℕ → ℕ → InquiryAction → Context → Inquiries → Handled
admin_reply_inquiry app u callback_message_id key user_id message_id action c db =
    if eqb_ℤ u.chat_id app.admin_group_id
    then admin_found app u callback_message_id key user_id message_id action c db
        (app.inquiry_get key)
    else done c db []

abbrev pub disable_to_hours : ℕ
disable_to_hours = 48

-- What a reply of an administrator does to the inquiry
abbrev pub admin_update :
    App
    → Update
    → Option String
    → String
    → InquiryAction
    → Inquiries
    → Result BackendError (Option (ℕ × Option String)) × Inquiries
admin_update app u text key close db =
    of_base (sync_inquiry_close u.now key none (some u.from_user.id) text db)
admin_update app u text key reply db = of_get (app.inquiry_get key) db
admin_update app u text key block_user db =
    of_base (sync_inquiry_block u.now key (some u.from_user.id) text disable_to_hours db)
admin_update app u text key action db = (ok none, db)

abbrev pub answers_with_kb : InquiryAction → String → ℕ → List nft_torrent.Bot.Dialogue.Callback
answers_with_kb reply key sent_id = inquiry_user_kb key sent_id
answers_with_kb action key sent_id = []

-- For any other action the icon of the answer is unbound, which is caught and told.
abbrev pub admin_answers :
    ℕ → Option String → ℕ → String → InquiryAction → Option (ℕ × Option String) → List Sent
admin_answers sent_id text user_id key action none = say send_failed [] ∷ []
admin_answers sent_id text user_id key action (some (num, name)) =
    sent_text (user_chat user_id) (answer_of_admin num action text)
      (answers_with_kb action key sent_id)
    ∷ say (answer_sent num action) []
    ∷ []

unfoldable pub admin_get_reply : App → Update → ℕ → Option String → Context → Inquiries → Handled
admin_get_reply app u sent_id text c db =
    if eqb_ℤ u.chat_id app.admin_group_id
    then (let missing = raises key_error c db in
        require c.fields.reply_action missing (λ action.
          require c.fields.user_id missing (λ user_id.
            require c.fields.message_id missing (λ replied.
              require c.fields.inquiry_id missing (λ key.
                settle_reply c (admin_answers sent_id text user_id key action)
                  (admin_update app u text key action db))))))
    else done c db []
