-- ===== src/Bot/Tests.antt =====
-- The inquiries on concrete tables and dialogues.
use nft_torrent.Base.{ℕ, ◌≡◌, refl, true, false, Option, none, some, [], ◌∷◌}
use nft_torrent.Base.Int.{pos, negsuc}
use nft_torrent.Base.Result.{err}
use nft_torrent.Bot.Inquiries.{
  Inquiries, User, Submission, no_result_found, new_inquiry, sync_inquiry_create,
  sync_inquiry_close, sync_inquiry_block, sync_inquiry_list, validation_error,
}
use Prim.Native.String.{String}
use nft_torrent.Bot.Inquiries.WellFormed.{IsWellFormed}
use nft_torrent.Bot.Inquiries.Desk.{Follows, run, desk_of, create, close}
use nft_torrent.Bot.Inquiries.Refinement.{Reached, empty, after, Reached-IsWellFormed, run-Follows}
use nft_torrent.Bot.Inquiries.Nameless.{create_nameless}
use nft_torrent.Bot.Dialogue.{
  App, Update, Context, cleared, no_fields, user_reply, form_screenshot, inquiry_callback, submit,
  key_error, value_error, InquiryAction,
}
use nft_torrent.Bot.Dialogue.Form.{submit_inquiry}
use nft_torrent.Bot.Dialogue.Route.{message, pressed, press, handle}
use nft_torrent.Bot.Dialogue.Others.{of_others}
use nft_torrent.Bot.Dialogue.Protects.{handle-Protects}
use nft_torrent.Bot.Dialogue.Submits.{filled}

abbrev ann : User
ann = record { id = 7; is_premium = none; language_code = some "en"; username = some "ann" }

abbrev bob : User
bob = record { id = 8; is_premium = some true; language_code = some "de"; username = some "bob" }

abbrev ghost : User
ghost = record { id = 9; is_premium = none; language_code = none; username = none }

abbrev form_of : Submission
form_of = record {
  inquiry_id = "k1";
  subject = some "Photo";
  message = some "It is gone";
  message_id = 5;
  nft_address = none;
}

abbrev nothing : Inquiries
nothing = record { rows = []; next_id = 1 }

abbrev one_open : Inquiries
one_open = (run 100 (create ann form_of) nothing).1

one_open-Reached : Reached one_open
one_open-Reached = after 100 (create ann form_of) empty

one_open-IsWellFormed : IsWellFormed one_open
one_open-IsWellFormed = Reached-IsWellFormed one_open-Reached

run-Follows_example :
    Follows
      (close "k1" (some 7) none none)
      (desk_of one_open)
      (run 200 (close "k1" (some 7) none none) one_open)
unfolding sync_inquiry_create
run-Follows_example =
    run-Follows 200 (close "k1" (some 7) none none) one_open one_open-IsWellFormed (refl, tt) tt

Reached-IsWellFormed_example : IsWellFormed one_open
Reached-IsWellFormed_example = Reached-IsWellFormed one_open-Reached

create_nameless_example :
    let (r, db') = sync_inquiry_create 100 ghost form_of nothing in
    (r ≡ err validation_error)
    × (db'.rows ≡ new_inquiry 100 ghost form_of 1 ∷ [])
    × ((user_id admin : Option ℕ) (m : Option String)
        → (sync_inquiry_close 200 "k1" user_id admin m db').1 ≡ db')
    × ((admin : Option ℕ) (m : Option String) (hours : ℕ)
        → (sync_inquiry_block 200 "k1" admin m hours db').1 ≡ db')
    × (sync_inquiry_list (some 9) 0 20 db' ≡ err validation_error)
create_nameless_example = create_nameless 100 200 ghost form_of nothing refl refl refl

abbrev app : App
app = record {
  admin_group_id = negsuc 99;
  has_backend = true;
  ton_address = λ text. none;
  inquiry_get = λ key. err no_result_found;
  has_locale = λ language. true;
}

abbrev update_of : User → Update
update_of user = record {
  from_user = user;
  chat_id = pos 8;
  is_private = true;
  now = 300;
  random_inquiry_id = "k2";
  admin_message_id = 70;
}

-- Bob tries to close the inquiry of Ann.
abbrev intruding : Context
intruding = record cleared {
  state = some user_reply;
  fields = record no_fields {
    reply_action = some InquiryAction.close;
    inquiry_id = some "k1";
    message_id = some 5;
  };
}

handle-Protects_example :
    of_others 8
      (handle app (update_of bob) (message 9 (some "x") none none) intruding one_open).table
    ≡ of_others 8 one_open
handle-Protects_example =
    handle-Protects app (update_of bob) intruding one_open one_open-IsWellFormed refl
      (message 9 (some "x") none none)

-- "Submit" under an old question, while a reply to the same inquiry is awaited
stale_submit :
    (handle app
      (update_of bob)
      (pressed 5 (inquiry_callback "k1" submit))
      intruding
      one_open).raised
    ≡ some key_error
unfolding handle press submit_inquiry
stale_submit = refl

-- "Submit" without a backend
submit_offline :
    (handle
      (record app { has_backend = false })
      (update_of bob)
      (pressed 5 (inquiry_callback "k2" submit))
      (filled form_screenshot "k2" (some (some "S")) (some (some "M")))
      one_open).raised
    ≡ some value_error
unfolding handle press submit_inquiry
submit_offline = refl
