-- ===== src/Bot/Dialogue/Ready.antt =====
-- What the data of a dialogue hold in each of its states.
use nft_torrent.Base.{◌≡◌, Bool, true, false, ◌||◌, ◌&&◌, none, ◌==◌}
use nft_torrent.Bot.Inquiries.{Inquiries}
use nft_torrent.Bot.Dialogue.{submit, inquiry_callback, inquiry_reply_callback, Handled}
use nft_torrent.Bot.Dialogue.Route.{Event, message, pressed, is_cancel}
use Prim.Native.String.{String}
use nft_torrent.Bot.Dialogue.Fields.{IsReady}

-- The events whose handlers neither read keys out of their state nor the language of an inquiry,
-- nor a locale that is not known
abbrev pub is_quiet : Bool → Event → Bool
is_quiet known (message id text command photo) = true
is_quiet known (pressed id (inquiry_callback key submit)) = false
is_quiet known (pressed id (inquiry_callback key action)) = true
is_quiet known (pressed id (inquiry_reply_callback key user_id m action)) =
    is_cancel action || (user_id == 0 && known)

abbrev pub Keeps : Bool → Handled → Type 0
Keeps quiet h = IsReady h.context × (quiet ≡ true → h.raised ≡ none)
