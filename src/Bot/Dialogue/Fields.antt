-- ===== src/Bot/Dialogue/Fields.antt =====
-- The keys of the data that the states of a dialogue need.
use nft_torrent.Base.{
  ℕ, ◌≡◌, refl, Bool, true, false, Option, none, some, List, arith, if◌then◌else◌, is_some, inl,
  inr, Bool-cases,
}
use nft_torrent.Bot.Inquiries.{Inquiries}
use nft_torrent.Bot.Dialogue.{
  DialogueState, form_subject, form_message, form_nft_address, form_screenshot, form_confirmation,
  user_reply, admin_reply, DialogueData, Context, Handled, require,
}
use nft_torrent.Bot.Dialogue.Form.{cancel_inquiry, start_inquiry, query_screenshot, in_form}
use nft_torrent.Bot.Dialogue.Replies.{user_reply_cancel}
use nft_torrent.Ipfs.Content.{equals}
use Prim.Native.String.{String}

abbrev pub Has {ℓ} : {A : Type ℓ} → Option A → Type 0
Has o = is_some o ≡ true

-- The keys that the handlers of a state read
abbrev pub IsReadyIn : Option DialogueState → DialogueData → Type 0
IsReadyIn none f = Unit
IsReadyIn (some form_subject) f = Has f.inquiry_id
IsReadyIn (some form_message) f = Has f.inquiry_id × Has f.subject
IsReadyIn (some form_nft_address) f = Has f.inquiry_id × Has f.subject × Has f.message
IsReadyIn (some form_screenshot) f = Has f.inquiry_id × Has f.subject × Has f.message
IsReadyIn (some form_confirmation) f = Has f.inquiry_id
IsReadyIn (some user_reply) f = Has f.reply_action × Has f.inquiry_id × Has f.message_id
IsReadyIn (some admin_reply) f =
    Has f.reply_action × Has f.inquiry_id × Has f.message_id × Has f.user_id

abbrev pub IsReady : Context → Type 0
IsReady c = IsReadyIn c.state c.fields

abbrev pub IsQuiet : Handled → Type 0
IsQuiet h = IsReady h.context × (h.raised ≡ none)

pub require-IsQuiet {ℓ} :
    {A : Type ℓ} (o : Option A) (h : Handled) (f : A → Handled)
    → Has o
    → ((a : A) → IsQuiet (f a))
    → IsQuiet (require o h f)
require-IsQuiet none h f e q = ground arith
require-IsQuiet (some a) h f e q = q a

pub if-IsQuiet :
    (b : Bool) (h h' : Handled) → IsQuiet h → IsQuiet h' → IsQuiet (if b then h else h')
if-IsQuiet true h h' p q = p
if-IsQuiet false h h' p q = q

pub require-IsReady {ℓ} :
    {A : Type ℓ} (o : Option A) (h : Handled) (f : A → Handled)
    → IsReady h.context
    → ((a : A) → IsReady (f a).context)
    → IsReady (require o h f).context
require-IsReady none h f p q = p
require-IsReady (some a) h f p q = q a

pub if-IsReady :
    (b : Bool) (h h' : Handled)
    → IsReady h.context
    → IsReady h'.context
    → IsReady (if b then h else h').context
if-IsReady true h h' p q = p
if-IsReady false h h' p q = q

pub form_ready :
    (state : Option DialogueState) (f : DialogueData)
    → in_form state ≡ true
    → IsReadyIn state f
    → Has f.inquiry_id
form_ready none f e r = ground arith
form_ready (some form_subject) f e r = r
form_ready (some form_message) f e r = r.0
form_ready (some form_nft_address) f e (r, s, m) = r
form_ready (some form_screenshot) f e (r, s, m) = r
form_ready (some form_confirmation) f e r = r
form_ready (some user_reply) f e r = ground arith
form_ready (some admin_reply) f e r = ground arith

pub images_ready :
    (state : Option DialogueState) (f : DialogueData) (images : List String)
    → IsReadyIn state f
    → IsReadyIn state (record f { images = images })
images_ready none f images r = r
images_ready (some form_subject) f images r = r
images_ready (some form_message) f images r = r
images_ready (some form_nft_address) f images r = r
images_ready (some form_screenshot) f images r = r
images_ready (some form_confirmation) f images r = r
images_ready (some user_reply) f images r = r
images_ready (some admin_reply) f images r = r

module _ (c : Context) (db : Inquiries) (r : IsReady c) where
  pub cancel_inquiry-IsQuiet : (id : ℕ) (key : String) → IsQuiet (cancel_inquiry id key c db)
  unfolding cancel_inquiry
  cancel_inquiry-IsQuiet id key =
      if-IsQuiet (equals c.fields.inquiry_id (some key)) _ _ (tt, refl) (r, refl)

  pub user_reply_cancel-IsQuiet : (id : ℕ) (key : String) → IsQuiet (user_reply_cancel id key c db)
  unfolding user_reply_cancel
  user_reply_cancel-IsQuiet id key =
      if-IsQuiet (equals c.fields.inquiry_id (some key)) _ _ (tt, refl) (r, refl)

  pub start_inquiry-IsQuiet : (key : String) → IsQuiet (start_inquiry key c db)
  unfolding start_inquiry
  start_inquiry-IsQuiet key = elim (Bool-cases (in_form c.state)) [
    | inl filling ↦
        rw (filling, start_inquiry)
          (require-IsQuiet c.fields.inquiry_id _ _ (form_ready c.state c.fields filling r)
            (λ k. (r, refl)))
    | inr other ↦ rw (other, start_inquiry) (refl, refl)
  ]

pub query_screenshot-IsQuiet :
    (c : Context) (db : Inquiries)
    → IsReadyIn (some form_screenshot) c.fields
    → IsQuiet (query_screenshot c db)
unfolding query_screenshot
query_screenshot-IsQuiet c db (k, s, m) =
    require-IsQuiet c.fields.inquiry_id _ _ k (λ key. ((k, s, m), refl))
