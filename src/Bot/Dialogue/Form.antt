-- ===== src/Bot/Dialogue/Form.antt =====
-- The dialogue that fills an inquiry: the handlers of InquiryForm in
-- NFTorrent/bot/handlers/inquiry.py.
use nft_torrent.Base.{
  ℕ, Bool, true, false, Option, none, some, List, [], ◌∷◌, ◌++◌, if◌then◌else◌, length,
}
use nft_torrent.Base.Result.{Result, ok, err}
use nft_torrent.Bot.Inquiries.{
  Inquiries, BaseInquiry, BackendError, Submission, sync_inquiry_create, sync_inquiry_list,
}
use nft_torrent.Bot.Dialogue.{
  DialogueState, form_subject, form_message, form_nft_address, form_screenshot, form_confirmation,
  user_reply, admin_reply, Context, cleared, Text, Sent, Handled, App, Update, done, raises,
  require, say, new_inquiry_kb, inquiry_user_kb, inquiry_admin_kb, key_error, value_error,
  invalid_callback, sent_text, sent_images, keyboard_removed, callback_answer, admin_group,
  edited_message, expired, inquiry_cancelled, already_started, invalid_address, step_subject,
  step_message, step_address, step_screenshot, step_images, step_submit, already_open,
  submit_failed, new_inquiry_body,
}
use nft_torrent.Ipfs.Content.{equals}
use Prim.Native.String.{String}

-- The handlers take the application, the update, the context and the table.

abbrev pub context_lost : ℕ → Context → Inquiries → Handled
context_lost callback_message_id c db =
    done c db (keyboard_removed callback_message_id ∷ say expired [] ∷ [])

unfoldable pub cancel_inquiry : ℕ → String → Context → Inquiries → Handled
cancel_inquiry callback_message_id key c db =
    if equals c.fields.inquiry_id (some key)
    then done cleared db (say inquiry_cancelled [] ∷ keyboard_removed callback_message_id ∷ [])
    else context_lost callback_message_id c db

-- `current_state.startswith("InquiryForm:")`
abbrev pub in_form : Option DialogueState → Bool
in_form none = false
in_form (some form_subject) = true
in_form (some form_message) = true
in_form (some form_nft_address) = true
in_form (some form_screenshot) = true
in_form (some form_confirmation) = true
in_form (some admin_reply) = false
in_form (some user_reply) = false

unfoldable pub start_inquiry : String → Context → Inquiries → Handled
start_inquiry random_id c db =
    if in_form c.state
    then require c.fields.inquiry_id (raises invalid_callback c db)
        (λ key. done c db (say already_started (new_inquiry_kb false false key) ∷ []))
    else done
        (record {
          state = some form_subject;
          fields = record (c.fields) { inquiry_id = some random_id };
        })
        db (say step_subject (new_inquiry_kb false false random_id) ∷ [])

-- `update_data`, an answer with a keyboard for `data["inquiry_id"]`, and `set_state`
abbrev pub next_question : Text → Bool → DialogueState → Context → Inquiries → Handled
next_question question next_btn state c db =
    require c.fields.inquiry_id (raises key_error c db) (λ key.
      done (record c { state = some state }) db
        (say question (new_inquiry_kb false next_btn key) ∷ []))

unfoldable pub get_subject : Option String → Context → Inquiries → Handled
get_subject text c db =
    next_question step_message false form_message
      (record c { fields = record (c.fields) { subject = some text } }) db

unfoldable pub get_message : Option String → Context → Inquiries → Handled
get_message text c db =
    next_question step_address true form_nft_address
      (record c { fields = record (c.fields) { message = some text } }) db

unfoldable pub query_screenshot : Context → Inquiries → Handled
query_screenshot c db = next_question step_screenshot true form_screenshot c db

unfoldable pub get_address : App → Option String → Context → Inquiries → Handled
get_address app text c db = elim (app.ton_address text) [
  | none ↦ done c db (say invalid_address [] ∷ [])
  | some address ↦
      query_screenshot (record c { fields = record (c.fields) { nft_address = some address } }) db
]

unfoldable pub get_screenshot : String → Context → Inquiries → Handled
get_screenshot file_id c db =
    let images = c.fields.images ++ file_id ∷ [] in
    let c' : Context = record c { fields = record (c.fields) { images = images } } in
    require c.fields.inquiry_id (raises key_error c' db)
      (λ key. done c' db (say (step_images (length images)) (new_inquiry_kb false true key) ∷ []))

unfoldable pub query_submit_inquiry : Context → Inquiries → Handled
query_submit_inquiry c db = require c.fields.subject (raises key_error c db) (λ subject.
    require c.fields.inquiry_id (raises key_error c db)
      (λ key. done c db (say (step_submit subject) (new_inquiry_kb true false key) ∷ [])))

abbrev pub images_of : List String → List Sent
images_of [] = []
images_of (image ∷ more) = sent_images (image ∷ more) ∷ []

-- The messages about a new inquiry, to the administrators and to the user
abbrev pub announced : Update → ℕ → Submission → List String → ℕ → List Sent
announced u callback_message_id form images num =
    let body = new_inquiry_body num form.subject form.nft_address form.message in
    images_of images
    ++ sent_text admin_group body
        (inquiry_admin_kb form.inquiry_id u.from_user.id callback_message_id)
      ∷ sent_text (edited_message callback_message_id) body
          (inquiry_user_kb form.inquiry_id u.admin_message_id)
      ∷ []

abbrev pub report_submit : BackendError → Context → Inquiries → Handled
report_submit e c db = done c db (sent_text callback_answer (submit_failed e) [] ∷ [])

abbrev pub created :
    Update → ℕ → Submission → Context → Result BackendError BaseInquiry × Inquiries → Handled
created u callback_message_id form c (err e, db) = report_submit e c db
created u callback_message_id form c (ok inquiry, db) =
    done cleared db (announced u callback_message_id form c.fields.images inquiry.id)

abbrev pub submit_listed :
    Update → ℕ → Submission → Context → Inquiries → Result BackendError (List BaseInquiry) → Handled
submit_listed u callback_message_id form c db (err e) = report_submit e c db
submit_listed u callback_message_id form c db (ok (inquiry ∷ more)) =
    done c db (say (already_open inquiry.id) (inquiry_user_kb inquiry.inquiry_id 0) ∷ [])
submit_listed u callback_message_id form c db (ok []) =
    created u callback_message_id form c (sync_inquiry_create u.now u.from_user form db)

-- Without a backend, the inquiry_id is formatted as a number, which raises.
unfoldable pub submit_inquiry : App → Update → ℕ → String → Context → Inquiries → Handled
submit_inquiry app u callback_message_id key c db =
    if equals c.fields.inquiry_id (some key)
    then require c.fields.message (raises key_error c db) (λ message.
      require c.fields.subject (raises key_error c db) (λ subject.
        let form : Submission = record {
          inquiry_id = key;
          subject = subject;
          message = message;
          message_id = callback_message_id;
          nft_address = c.fields.nft_address;
        } in
        if app.has_backend
        then submit_listed u callback_message_id form c db
            (sync_inquiry_list (some u.from_user.id) 0 20 db)
        else raises value_error c db))
    else context_lost callback_message_id c db
