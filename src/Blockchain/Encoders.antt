-- ===== src/Blockchain/Encoders.antt =====
-- The codes of dates and countries in the data of a contract: date_mask_to_string and
-- bcd2c_to_string of NFTorrent/blockchain/encoders.py. A text is the list of the codes of its
-- characters, and a shift is a division by a power of 2.
pub mod Dates
use nft_torrent.Base.{
  ℕ, zero, suc, ◌+◌, ◌-◌, ◌*◌, ◌/◌, ◌%◌, ◌^◌, Bool, true, false, ◌||◌, List, [], ◌∷◌, ◌==◌,
  if◌then◌else◌,
}

abbrev pub dash : ℕ
dash = 45

abbrev pub star : ℕ
star = 42

-- `chr(((n >> i) & 0xF) + 48)`
abbrev pub digit_at : ℕ → ℕ → ℕ
digit_at n i = n / 2 ^ i % 16 + 48

-- The loop, from the digit at 4 times the counter on
unfoldable pub mask_chars : ℕ → ℕ → List ℕ
mask_chars n zero = digit_at n 0 ∷ []
mask_chars n (suc k) =
    let i = 4 * suc k in
    let rest = mask_chars n k in
    let part = if n / 2 ^ (i - 8) % 256 == 0 then star ∷ [] else rest in
    digit_at n i ∷ (if i == 16 || i == 8 then dash ∷ part else rest)

unfoldable pub date_mask_to_string : ℕ → List ℕ
date_mask_to_string n = if n / 65536 % 65536 == 0 then star ∷ [] else mask_chars n 7

unfoldable pub bcd2c_to_string : ℕ → List ℕ
bcd2c_to_string n = (n / 32 % 32 + 65) ∷ (n % 32 + 65) ∷ []
