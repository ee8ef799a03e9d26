-- ===== src/Bot/Dialogue/Quiet.antt =====
-- The handlers keep the keys of the data that the states of a dialogue need.
use nft_torrent.Base.{
  ℕ, ◌≡◌, refl, Bool, true, ◌&&◌, Option, none, some, List, [], ◌∷◌, ◌==◌, inl, inr, Bool-cases,
  Option-cases,
}
use nft_torrent.Base.Int.{eqb_ℤ}
use nft_torrent.Base.Result.{Result, ok, err}
use nft_torrent.Bot.Inquiries.{Inquiries, BaseInquiry, UserInquiry, BackendError, Submission}
use nft_torrent.Bot.Dialogue.{
  InquiryAction, DialogueState, form_subject, form_message, form_nft_address, form_screenshot,
  form_confirmation, user_reply, admin_reply, Context, App, Update, Sent, HandlerError, say,
  keyboard_removed, already_closed, blocked,
}
use nft_torrent.Bot.Dialogue.Form.{
  get_subject, get_message, get_address, get_screenshot, query_submit_inquiry, submit_inquiry,
  submit_listed, created,
}
use nft_torrent.Bot.Dialogue.Replies.{
  user_reply_inquiry, user_get_reply, admin_reply_inquiry, admin_get_reply, settle_reply,
  user_update, admin_update, is_blocked, callback_validate_inquiry, ask_user, user_found, ask_admin,
  admin_found,
}
use nft_torrent.Bot.Dialogue.Route.{answer, next_pressed}
use nft_torrent.Ipfs.Content.{equals}
use Prim.Native.String.{String}
use nft_torrent.Bot.Dialogue.Fields.{
  Has, IsReadyIn, IsReady, IsQuiet, require-IsQuiet, if-IsQuiet, require-IsReady, if-IsReady,
  images_ready, query_screenshot-IsQuiet,
}

module _ (app : App) (u : Update) (c : Context) (db : Inquiries) (r : IsReady c) where
  pub get_address-IsQuiet :
      (text : Option String)
      → IsReadyIn (some form_nft_address) c.fields
      → IsQuiet (get_address app text c db)
  unfolding get_address
  get_address-IsQuiet text s = elim (Option-cases (app.ton_address text)) [
    | inl bad ↦ rw (bad, get_address) (r, refl)
    | inr (a, good) ↦ rw (good, get_address) (query_screenshot-IsQuiet _ db s)
  ]

  pub get_screenshot-IsQuiet :
      (file : String) → Has c.fields.inquiry_id → IsQuiet (get_screenshot file c db)
  unfolding get_screenshot
  get_screenshot-IsQuiet file k =
      require-IsQuiet c.fields.inquiry_id _ _ k (λ key. (images_ready c.state c.fields _ r, refl))

  pub settle_reply-IsQuiet :
      (answers : Option (ℕ × Option String) → List Sent)
      (o : Result BackendError (Option (ℕ × Option String)) × Inquiries)
      → IsQuiet (settle_reply c answers o)
  settle_reply-IsQuiet answers (ok x, db') = (tt, refl)
  settle_reply-IsQuiet answers (err e, db') = (r, refl)

  pub user_get_reply-IsQuiet :
      (id : ℕ) (text : Option String)
      → IsReadyIn (some user_reply) c.fields
      → IsQuiet (user_get_reply app u id text c db)
  unfolding user_get_reply
  user_get_reply-IsQuiet id text (a, k, m) = require-IsQuiet c.fields.reply_action _ _ a (λ action.
      require-IsQuiet c.fields.inquiry_id _ _ k (λ key.
        require-IsQuiet c.fields.message_id _ _ m
          (λ replied. settle_reply-IsQuiet _ (user_update app u key action db))))

  pub admin_get_reply-IsQuiet :
      (id : ℕ) (text : Option String)
      → IsReadyIn (some admin_reply) c.fields
      → IsQuiet (admin_get_reply app u id text c db)
  unfolding admin_get_reply
  admin_get_reply-IsQuiet id text (a, k, m, i) =
      if-IsQuiet (eqb_ℤ u.chat_id app.admin_group_id) _ _
        (require-IsQuiet c.fields.reply_action _ _ a (λ action.
          require-IsQuiet c.fields.user_id _ _ i (λ user_id.
            require-IsQuiet c.fields.message_id _ _ m (λ replied.
              require-IsQuiet c.fields.inquiry_id _ _ k
                (λ key. settle_reply-IsQuiet _ (admin_update app u text key action db))))))
        (r, refl)

  pub next_pressed-IsQuiet :
      (state : Option DialogueState) → IsReadyIn state c.fields → IsQuiet (next_pressed state c db)
  unfolding next_pressed query_submit_inquiry
  next_pressed-IsQuiet (some form_nft_address) s = query_screenshot-IsQuiet c db s
  next_pressed-IsQuiet (some form_screenshot) (k, s, m) =
      require-IsQuiet c.fields.subject _ _ s
        (λ x. require-IsQuiet c.fields.inquiry_id _ _ k (λ y. (r, refl)))
  next_pressed-IsQuiet none s = (r, refl)
  next_pressed-IsQuiet (some form_subject) s = (r, refl)
  next_pressed-IsQuiet (some form_message) s = (r, refl)
  next_pressed-IsQuiet (some form_confirmation) s = (r, refl)
  next_pressed-IsQuiet (some user_reply) s = (r, refl)
  next_pressed-IsQuiet (some admin_reply) s = (r, refl)

  pub answer-IsQuiet :
      (id : ℕ) (text photo : Option String) (state : Option DialogueState)
      → IsReadyIn state c.fields
      → IsQuiet (answer app u id text photo state c db)
  unfolding answer get_subject get_message
  answer-IsQuiet id text photo (some user_reply) s = user_get_reply-IsQuiet id text s
  answer-IsQuiet id text photo (some admin_reply) s = admin_get_reply-IsQuiet id text s
  answer-IsQuiet id text photo (some form_subject) s =
      require-IsQuiet c.fields.inquiry_id _ _ s (λ k. ((s, refl), refl))
  answer-IsQuiet id text photo (some form_message) (k, s) =
      require-IsQuiet c.fields.inquiry_id _ _ k (λ key. ((k, s, refl), refl))
  answer-IsQuiet id text photo (some form_nft_address) s = get_address-IsQuiet text s
  answer-IsQuiet id text (some file) (some form_screenshot) (k, s, m) =
      get_screenshot-IsQuiet file k
  answer-IsQuiet id text none (some form_screenshot) s = (r, refl)
  answer-IsQuiet id text photo (some form_confirmation) s = (r, refl)
  answer-IsQuiet id text photo none s = (r, refl)

  pub ask_user-IsQuiet :
      (id : ℕ) (key : String) (m : ℕ) (a : InquiryAction) (x : UserInquiry) (o : Option (List Sent))
      → IsQuiet (ask_user id key m a c db x (ok o))
  ask_user-IsQuiet id key m a x none = ((refl, refl, refl), refl)
  ask_user-IsQuiet id key m a x (some s) = (r, refl)

  ask_user-IsReady :
      (id : ℕ) (key : String) (m : ℕ) (a : InquiryAction) (x : UserInquiry)
      (o : Result HandlerError (Option (List Sent)))
      → IsReady (ask_user id key m a c db x o).context
  ask_user-IsReady id key m a x (ok o) = (ask_user-IsQuiet id key m a x o).0
  ask_user-IsReady id key m a x (err e) = r

  -- With a locale that is known, the check of an inquiry does not raise.
  validated :
      (id : ℕ) (verify : Bool) (x : UserInquiry)
      → app.has_locale u.from_user.language_code ≡ true
      → (o : Option (List Sent)) × (callback_validate_inquiry app u id verify x ≡ ok o)
  unfolding callback_validate_inquiry
  validated id verify x known = elim (Option-cases x.state) [
    | inl shut ↦ (some (keyboard_removed id ∷ say (already_closed x.id) [] ∷ []), rw shut refl)
    | inr (s, opened) ↦ elim (Bool-cases (verify && is_blocked u.now x.disabled_to)) [
      | inl stopped ↦ (some (say (blocked x.id) [] ∷ []), rw (opened, stopped, known) refl)
      | inr free ↦ (none, rw (opened, free) refl)
    ]
  ]

  pub user_found-IsQuiet :
      (id : ℕ) (key : String) (m : ℕ) (a : InquiryAction) (o : Result BackendError UserInquiry)
      → app.has_locale u.from_user.language_code ≡ true
      → IsQuiet (user_found app u id key m a c db o)
  user_found-IsQuiet id key m a (err e) known = (r, refl)
  user_found-IsQuiet id key m a (ok x) known =
      let (o, e) = validated id true x known in
      if-IsQuiet (x.user_id == u.from_user.id) _ _ (rw e (ask_user-IsQuiet id key m a x o))
        (r, refl)

  user_found-IsReady :
      (id : ℕ) (key : String) (m : ℕ) (a : InquiryAction) (o : Result BackendError UserInquiry)
      → IsReady (user_found app u id key m a c db o).context
  user_found-IsReady id key m a (err e) = r
  user_found-IsReady id key m a (ok x) =
      if-IsReady (x.user_id == u.from_user.id) _ _ (ask_user-IsReady id key m a x _) r

  pub user_reply_inquiry-IsQuiet :
      (id : ℕ) (key : String) (m : ℕ) (a : InquiryAction)
      → app.has_locale u.from_user.language_code ≡ true
      → IsQuiet (user_reply_inquiry app u id key m a c db)
  unfolding user_reply_inquiry
  user_reply_inquiry-IsQuiet id key m a known =
      user_found-IsQuiet id key m a (app.inquiry_get key) known

  pub user_reply_inquiry-IsReady :
      (id : ℕ) (key : String) (m : ℕ) (a : InquiryAction)
      → IsReady (user_reply_inquiry app u id key m a c db).context
  unfolding user_reply_inquiry
  user_reply_inquiry-IsReady id key m a = user_found-IsReady id key m a (app.inquiry_get key)

  pub ask_admin-IsReady :
      (id : ℕ) (key : String) (user_id m : ℕ) (a : InquiryAction) (x : UserInquiry)
      (o : Result HandlerError (Option (List Sent)))
      → IsReady (ask_admin id key user_id m a c db x o).context
  ask_admin-IsReady id key user_id m a x (err e) = r
  ask_admin-IsReady id key user_id m a x (ok (some s)) = r
  ask_admin-IsReady id key user_id m a x (ok none) = elim (Option-cases x.language) [
    | inl unknown ↦ rw (unknown, ask_admin) (refl, refl, refl, refl)
    | inr (l, known) ↦ rw (known, ask_admin) (refl, refl, refl, refl)
  ]

  pub admin_found-IsReady :
      (id : ℕ) (key : String) (user_id m : ℕ) (a : InquiryAction)
      (o : Result BackendError UserInquiry)
      → IsReady (admin_found app u id key user_id m a c db o).context
  admin_found-IsReady id key user_id m a (err e) = r
  admin_found-IsReady id key user_id m a (ok x) = ask_admin-IsReady id key user_id m a x _

  pub admin_reply_inquiry-IsReady :
      (id : ℕ) (key : String) (user_id m : ℕ) (a : InquiryAction)
      → IsReady (admin_reply_inquiry app u id key user_id m a c db).context
  unfolding admin_reply_inquiry
  admin_reply_inquiry-IsReady id key user_id m a =
      elim (Bool-cases (eqb_ℤ u.chat_id app.admin_group_id)) [
        | inl inside ↦ rw (inside, admin_reply_inquiry) (admin_found-IsReady id key user_id m a _)
        | inr outside ↦ rw (outside, admin_reply_inquiry) r
      ]

  pub created-IsReady :
      (id : ℕ) (form : Submission) (o : Result BackendError BaseInquiry × Inquiries)
      → IsReady (created u id form c o).context
  created-IsReady id form (ok x, db') = tt
  created-IsReady id form (err e, db') = r

  pub submit_listed-IsReady :
      (id : ℕ) (form : Submission) (o : Result BackendError (List BaseInquiry))
      → IsReady (submit_listed u id form c db o).context
  submit_listed-IsReady id form (err e) = r
  submit_listed-IsReady id form (ok (x ∷ xs)) = r
  submit_listed-IsReady id form (ok []) = created-IsReady id form _

  pub submit_inquiry-IsReady :
      (id : ℕ) (key : String) → IsReady (submit_inquiry app u id key c db).context
  unfolding submit_inquiry
  submit_inquiry-IsReady id key =
      if-IsReady (equals c.fields.inquiry_id (some key)) _ _
        (require-IsReady c.fields.message _ _ r (λ m.
          require-IsReady c.fields.subject _ _ r
            (λ s. if-IsReady app.has_backend _ _ (submit_listed-IsReady id _ _) r)))
        r
