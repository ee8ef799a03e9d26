-- ===== src/Bot/Dialogue.antt =====
-- What the dialogues of the bot keep and send: InquiryAction, the callbacks and the states of
-- NFTorrent/bot/states/inquiry.py, the keyboards of NFTorrent/bot/keyboards/inquiry.py, and the
-- context of a user in a chat. Texts are named and not spelled out. Telegram takes what is sent;
-- the identifiers that it gives, and the parsing of its updates, are parameters.
pub mod Form
pub mod Replies
pub mod Route
pub mod Others
pub mod Protects
pub mod Fields
pub mod Quiet
pub mod Ready
pub mod Submits
use nft_torrent.Base.{
  ℕ, ◌+◌, Bool, true, false, Option, none, some, List, [], ◌∷◌, ◌++◌, if◌then◌else◌,
}
use nft_torrent.Base.Int.{ℤ}
use nft_torrent.Base.Result.{Result}
use nft_torrent.Bot.Inquiries.{Inquiries, UserInquiry, BackendError, User}
use Prim.Native.String.{String}

pub data InquiryAction : Type 0 where
  cancel submit next_step reply reply_cancel close block_user : InquiryAction

-- InquiryCallback, and InquiryReplyCallback with its inquiry_id, user_id and message_id
pub data Callback : Type 0 where
  inquiry_callback : String → InquiryAction → Callback
  inquiry_reply_callback : String → ℕ → ℕ → InquiryAction → Callback

-- The states of InquiryForm and of InquiryReplyForm
pub data DialogueState : Type 0 where
  form_subject form_message form_nft_address form_screenshot form_confirmation : DialogueState
  admin_reply user_reply : DialogueState

-- The keys of the data, which may be missing; a text is `None` where the message has none.
pub record DialogueData : Type 0 where
  pub inquiry_id : Option String
  pub subject : Option (Option String)
  pub message : Option (Option String)
  pub nft_address : Option String
  pub images : List String
  pub reply_action : Option InquiryAction
  pub user_id : Option ℕ
  pub message_id : Option ℕ
  pub callback_message_id : Option ℕ

-- The FSMContext of a user in a chat
pub record Context : Type 0 where
  pub state : Option DialogueState
  pub fields : DialogueData

abbrev pub no_fields : DialogueData
no_fields = record {
  inquiry_id = none;
  subject = none;
  message = none;
  nft_address = none;
  images = [];
  reply_action = none;
  user_id = none;
  message_id = none;
  callback_message_id = none;
}

-- `state.clear()`
abbrev pub cleared : Context
cleared = record { state = none; fields = no_fields }

-- The texts, with the numbers and the texts that stand in them
pub data Text : Type 0 where
  chat_id expired reply_cancelled inquiry_cancelled already_started invalid_address : Text
  step_subject step_message step_address step_screenshot : Text
  step_images : ℕ → Text
  step_submit : Option String → Text
  already_closed blocked already_open reply_sent inquiry_closed : ℕ → Text
  get_failed update_failed submit_failed : BackendError → Text
  send_failed : Text
  type_reply : ℕ → InquiryAction → Text
  new_inquiry_body : ℕ → Option String → Option String → Option String → Text
  reply_of_user closed_by_user : ℕ → Option String → Text
  answer_of_admin : ℕ → InquiryAction → Option String → Text
  answer_sent : ℕ → InquiryAction → Text

-- Where a text goes: into the chat, to the administrators, to a user, into a message of the bot, or
-- into the answer to a callback
pub data Place : Type 0 where
  this_chat admin_group callback_answer : Place
  user_chat edited_message : ℕ → Place

pub data Sent : Type 0 where
  sent_text : Place → Text → List Callback → Sent
  sent_images : List String → Sent
  keyboard_removed : ℕ → Sent

-- What a handler raises
pub data HandlerError : Type 0 where
  key_error value_error attribute_error invalid_callback unknown_locale : HandlerError

-- What a handler leaves behind
pub record Handled : Type 0 where
  pub context : Context
  pub table : Inquiries
  pub sent : List Sent
  pub raised : Option HandlerError

-- The application: its administrators, whether it has a backend, `TonAddress(text.strip()).b64url`,
-- what the cached `inquiry_get` gives, and whether `format_datetime` takes the locale
pub record App : Type 0 where
  pub admin_group_id : ℤ
  pub has_backend : Bool
  pub ton_address : Option String → Option String
  pub inquiry_get : String → Result BackendError UserInquiry
  pub has_locale : Option String → Bool

-- An update: its user and chat, the time, a random inquiry_id, and the identifier of a message that
-- is sent to the administrators
pub record Update : Type 0 where
  pub from_user : User
  pub chat_id : ℤ
  pub is_private : Bool
  pub now : ℕ
  pub random_inquiry_id : String
  pub admin_message_id : ℕ

abbrev pub done : Context → Inquiries → List Sent → Handled
done context table sent = record { context = context; table = table; sent = sent; raised = none }

abbrev pub raises : HandlerError → Context → Inquiries → Handled
raises e context table = record { context = context; table = table; sent = []; raised = some e }

-- `data[key]`
abbrev pub require {ℓ} : {A : Type ℓ} → Option A → Handled → (A → Handled) → Handled
require none missing f = missing
require (some a) missing f = f a

abbrev pub say : Text → List Callback → Sent
say text keyboard = sent_text this_chat text keyboard

-- The keyboards
abbrev pub new_inquiry_kb : Bool → Bool → String → List Callback
new_inquiry_kb submit_btn next_btn key =
    inquiry_callback key cancel ∷ (if submit_btn then inquiry_callback key submit ∷ [] else [])
    ++ (if next_btn then inquiry_callback key next_step ∷ [] else [])

abbrev pub inquiry_reply_kb : String → List Callback
inquiry_reply_kb key = inquiry_reply_callback key 0 0 cancel ∷ []

abbrev pub inquiry_user_kb : String → ℕ → List Callback
inquiry_user_kb key message_id =
    inquiry_reply_callback key 0 message_id reply
    ∷ inquiry_reply_callback key 0 message_id close
    ∷ []

abbrev pub inquiry_admin_kb : String → ℕ → ℕ → List Callback
inquiry_admin_kb key user_id message_id =
    inquiry_reply_callback key user_id message_id reply
    ∷ inquiry_reply_callback key user_id message_id close
    ∷ inquiry_reply_callback key user_id message_id block_user
    ∷ []
