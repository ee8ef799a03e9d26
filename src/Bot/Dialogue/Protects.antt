-- ===== src/Bot/Dialogue/Protects.antt =====
-- What an update outside of the group of the administrators can do to the inquiries of others.
use nft_torrent.Base.{
  ℕ, ◌≡◌, refl, Bool, true, false, Option, none, some, List, ◌==◌, inl, inr, Option-cases,
}
use nft_torrent.Base.Int.{eqb_ℤ}
use nft_torrent.Base.Result.{Result, ok, err}
use nft_torrent.Bot.Inquiries.{Inquiries, UserInquiry, BackendError}
use nft_torrent.Bot.Inquiries.WellFormed.{IsWellFormed}
use nft_torrent.Bot.Dialogue.{
  InquiryAction, cancel, submit, next_step, reply, reply_cancel, close, block_user, Callback,
  inquiry_callback, inquiry_reply_callback, DialogueState, form_subject, form_message,
  form_nft_address, form_screenshot, form_confirmation, user_reply, admin_reply, Context,
  HandlerError, App, Update, Sent, Text, step_message, step_address,
}
use nft_torrent.Bot.Dialogue.Form.{
  cancel_inquiry, start_inquiry, get_subject, get_message, query_screenshot, get_address,
  get_screenshot, query_submit_inquiry, next_question, in_form,
}
use nft_torrent.Bot.Dialogue.Replies.{
  user_reply_cancel, user_reply_inquiry, admin_reply_inquiry, admin_get_reply, ask_user, user_found,
}
use nft_torrent.Bot.Dialogue.Route.{
  Event, message, pressed, get_id, start, inquiry, answer, press, in_reply, is_cancel, next_pressed,
  handle,
}
use nft_torrent.Ipfs.Content.{equals}
use Prim.Native.String.{String}
use nft_torrent.Bot.Dialogue.Others.{
  of_others, Protects, require-Protects, if-Protects, submit_inquiry-Protects,
  user_get_reply-Protects,
}

next_question-Protects :
    (i : ℕ) (q : Text) (b : Bool) (state : DialogueState) (c : Context) (db : Inquiries)
    → Protects i db (next_question q b state c db)
next_question-Protects i q b state c db =
    require-Protects i db c.fields.inquiry_id _ _ refl (λ k. refl)

query_screenshot-Protects :
    (i : ℕ) (c : Context) (db : Inquiries) → Protects i db (query_screenshot c db)
unfolding query_screenshot
query_screenshot-Protects i c db = require-Protects i db c.fields.inquiry_id _ _ refl (λ k. refl)

-- The handlers that only read the table
module _ (app : App) (u : Update) (i : ℕ) (c : Context) (db : Inquiries) where
  cancel_inquiry-Protects : (id : ℕ) (key : String) → Protects i db (cancel_inquiry id key c db)
  unfolding cancel_inquiry
  cancel_inquiry-Protects id key =
      if-Protects i db (equals c.fields.inquiry_id (some key)) _ _ refl refl

  user_reply_cancel-Protects :
      (id : ℕ) (key : String) → Protects i db (user_reply_cancel id key c db)
  unfolding user_reply_cancel
  user_reply_cancel-Protects id key =
      if-Protects i db (equals c.fields.inquiry_id (some key)) _ _ refl refl

  start_inquiry-Protects : (key : String) → Protects i db (start_inquiry key c db)
  unfolding start_inquiry
  start_inquiry-Protects key =
      if-Protects i db (in_form c.state) _ _
        (require-Protects i db c.fields.inquiry_id _ _ refl (λ k. refl)) refl

  get_address-Protects : (text : Option String) → Protects i db (get_address app text c db)
  unfolding get_address query_screenshot
  get_address-Protects text = elim (Option-cases (app.ton_address text)) [
    | inl bad ↦ rw (bad, get_address) refl
    | inr (a, good) ↦ rw (good, get_address) (query_screenshot-Protects i _ db)
  ]

  get_screenshot-Protects : (file : String) → Protects i db (get_screenshot file c db)
  unfolding get_screenshot
  get_screenshot-Protects file = require-Protects i db c.fields.inquiry_id _ _ refl (λ k. refl)

  next_pressed-Protects : (state : Option DialogueState) → Protects i db (next_pressed state c db)
  unfolding next_pressed query_screenshot query_submit_inquiry
  next_pressed-Protects (some form_nft_address) = query_screenshot-Protects i c db
  next_pressed-Protects (some form_screenshot) =
      require-Protects i db c.fields.subject _ _ refl
        (λ s. require-Protects i db c.fields.inquiry_id _ _ refl (λ k. refl))
  next_pressed-Protects none = refl
  next_pressed-Protects (some form_subject) = refl
  next_pressed-Protects (some form_message) = refl
  next_pressed-Protects (some form_confirmation) = refl
  next_pressed-Protects (some user_reply) = refl
  next_pressed-Protects (some admin_reply) = refl

  ask_user-Protects :
      (id : ℕ) (key : String) (m : ℕ) (a : InquiryAction) (x : UserInquiry)
      (o : Result HandlerError (Option (List Sent)))
      → Protects i db (ask_user id key m a c db x o)
  ask_user-Protects id key m a x (ok none) = refl
  ask_user-Protects id key m a x (ok (some s)) = refl
  ask_user-Protects id key m a x (err e) = refl

  user_found-Protects :
      (id : ℕ) (key : String) (m : ℕ) (a : InquiryAction) (r : Result BackendError UserInquiry)
      → Protects i db (user_found app u id key m a c db r)
  user_found-Protects id key m a (err e) = refl
  user_found-Protects id key m a (ok x) =
      if-Protects i db (x.user_id == u.from_user.id) _ _ (ask_user-Protects id key m a x _) refl

  user_reply_inquiry-Protects :
      (id : ℕ) (key : String) (m : ℕ) (a : InquiryAction)
      → Protects i db (user_reply_inquiry app u id key m a c db)
  unfolding user_reply_inquiry
  user_reply_inquiry-Protects id key m a = user_found-Protects id key m a (app.inquiry_get key)

-- Outside of the group of the administrators
module _ (app : App) (u : Update) (c : Context) (db : Inquiries) (w : IsWellFormed db)
    (outside : eqb_ℤ u.chat_id app.admin_group_id ≡ false) where
  admin_reply_inquiry-Protects :
      (id : ℕ) (key : String) (user_id m : ℕ) (a : InquiryAction)
      → Protects u.from_user.id db (admin_reply_inquiry app u id key user_id m a c db)
  unfolding admin_reply_inquiry
  admin_reply_inquiry-Protects id key user_id m a = rw (outside, admin_reply_inquiry) refl

  admin_get_reply-Protects :
      (id : ℕ) (text : Option String)
      → Protects u.from_user.id db (admin_get_reply app u id text c db)
  unfolding admin_get_reply
  admin_get_reply-Protects id text = rw (outside, admin_get_reply) refl

  press-Protects : (id : ℕ) (b : Callback) → Protects u.from_user.id db (press app u id b c db)
  unfolding press
  press-Protects id (inquiry_reply_callback key user_id m a) =
      let i = u.from_user.id in
      if-Protects i db (is_cancel a) _ _ (user_reply_cancel-Protects app u i c db id key) (
        if-Protects i db (user_id == 0) _ _ (user_reply_inquiry-Protects app u i c db id key m a)
          (admin_reply_inquiry-Protects id key user_id m a))
  press-Protects id (inquiry_callback key cancel) =
      cancel_inquiry-Protects app u u.from_user.id c db id key
  press-Protects id (inquiry_callback key next_step) =
      next_pressed-Protects app u u.from_user.id c db c.state
  press-Protects id (inquiry_callback key submit) = submit_inquiry-Protects app u c db w id key
  press-Protects id (inquiry_callback key reply) = refl
  press-Protects id (inquiry_callback key reply_cancel) = refl
  press-Protects id (inquiry_callback key close) = refl
  press-Protects id (inquiry_callback key block_user) = refl

  answer-Protects :
      (id : ℕ) (text photo : Option String) (state : Option DialogueState)
      → Protects u.from_user.id db (answer app u id text photo state c db)
  unfolding answer get_subject get_message
  answer-Protects id text photo (some user_reply) = user_get_reply-Protects app u c db w id text
  answer-Protects id text photo (some admin_reply) = admin_get_reply-Protects id text
  answer-Protects id text photo (some form_subject) =
      next_question-Protects u.from_user.id step_message false form_message _ db
  answer-Protects id text photo (some form_message) =
      next_question-Protects u.from_user.id step_address true form_nft_address _ db
  answer-Protects id text photo (some form_nft_address) =
      get_address-Protects app u u.from_user.id c db text
  answer-Protects id text (some file) (some form_screenshot) =
      get_screenshot-Protects app u u.from_user.id c db file
  answer-Protects id text none (some form_screenshot) = refl
  answer-Protects id text photo (some form_confirmation) = refl
  answer-Protects id text photo none = refl

  -- An update outside of the group of the administrators leaves the inquiries of all users but its
  -- own as they are, whatever the callback and the context are; the table must keep its unique
  -- constraints.
  pub handle-Protects :
      (e : Event)
      → of_others u.from_user.id (handle app u e c db).table ≡ of_others u.from_user.id db
  unfolding handle
  handle-Protects (pressed id b) = press-Protects id b
  handle-Protects (message id text (some get_id) photo) = refl
  handle-Protects (message id text (some (start b)) photo) =
      let i = u.from_user.id in
      if-Protects i db u.is_private _ _
        (if-Protects i db b _ _ (start_inquiry-Protects app u i c db u.random_inquiry_id) refl)
        (answer-Protects id text photo c.state)
  handle-Protects (message id text (some inquiry) photo) =
      let i = u.from_user.id in
      if-Protects i db u.is_private _ _
        (if-Protects i db (in_reply c.state) _ _ (answer-Protects id text photo c.state)
          (start_inquiry-Protects app u i c db u.random_inquiry_id))
        (answer-Protects id text photo c.state)
  handle-Protects (message id text none photo) = answer-Protects id text photo c.state
