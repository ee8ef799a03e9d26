-- ===== src/Blockchain/Tests.antt =====
-- Dates of contracts, and ADNL ids.
use nft_torrent.Base.{
  Bool, true, ◌&&◌, ◌||◌, leb, ◌+◌, ◌-◌, ◌*◌, ◌/◌, ◌%◌, ◌^◌, ltb, if◌then◌else◌, map, All, ℕ, zero,
  suc, ◌≡◌, refl, false, some, List, [], ◌∷◌, ◌++◌, drop, arith,
}
use nft_torrent.Base.Result.{ok, ◌>>=◌}
use nft_torrent.Blockchain.Address.{Codec, adnl_id_encode, adnl_id_decode}
use nft_torrent.Blockchain.Address.RoundTrip.{
  upper_code, lower_code, IsBase32, adnl_id_decode-adnl_id_encode,
}
use nft_torrent.Blockchain.Encoders.{date_mask_to_string, mask_chars}
use nft_torrent.Blockchain.Encoders.Dates.{date_mask, date_text, date_mask_to_string-date_text}

-- 0x20250100 is "2025-01-*".
january : date_mask_to_string 539296000 ≡ 50 ∷ 48 ∷ 50 ∷ 53 ∷ 45 ∷ 48 ∷ 49 ∷ 45 ∷ 42 ∷ []
unfolding date_mask_to_string mask_chars
january = refl

date_mask_to_string-date_text_example :
    date_mask_to_string (date_mask 32 37 1 0) ≡ date_text 32 37 1 0
date_mask_to_string-date_text_example =
    date_mask_to_string-date_text 32 37 1 0 (omega arith) (omega arith) (omega arith) (omega arith)

-- Base32: five bytes are eight letters.
abbrev letter : ℕ → ℕ
letter d = if ltb d 26 then d + 65 else d + 24

abbrev digit : ℕ → ℕ
digit c = if ltb c 64 then c - 24 else c - 65

abbrev letters : ℕ → ℕ → List ℕ
letters zero n = []
letters (suc k) n = letter (n / 32 ^ k % 32) ∷ letters k n

abbrev bytes_of : ℕ → ℕ → List ℕ
bytes_of zero n = []
bytes_of (suc k) n = n / 256 ^ k % 256 ∷ bytes_of k n

abbrev base32_encode : List ℕ → List ℕ
base32_encode (a ∷ b ∷ c ∷ d ∷ e ∷ bytes) =
    letters 8 ((((a * 256 + b) * 256 + c) * 256 + d) * 256 + e) ++ base32_encode bytes
base32_encode bytes = []

abbrev digits_of : ℕ → List ℕ → ℕ
digits_of n [] = n
digits_of n (c ∷ text) = digits_of (n * 32 + digit c) text

abbrev base32_decode : List ℕ → List ℕ
base32_decode (a ∷ b ∷ c ∷ d ∷ e ∷ f ∷ g ∷ h ∷ text) =
    bytes_of 5 (digits_of 0 (a ∷ b ∷ c ∷ d ∷ e ∷ f ∷ g ∷ h ∷ [])) ++ base32_decode text
base32_decode text = []

abbrev base32 : Codec
base32 = record {
  b32encode = base32_encode;
  b32decode = λ text. some (base32_decode text);
  b64decode = λ text. some text;
  fromhex = λ text. some text;
  hex = λ bytes. bytes;
  upper = map upper_code;
  lower = map lower_code;
  crc = λ bytes. 7 ∷ 9 ∷ [];
}

abbrev descending : ℕ → List ℕ
descending zero = []
descending (suc n) = n ∷ descending n

abbrev encoded : List ℕ
encoded = drop 1 (base32_encode ((45 ∷ descending 32) ++ 7 ∷ 9 ∷ []))

abbrev is_base32 : List ℕ → Bool
is_base32 [] = true
is_base32 (c ∷ text) = ((leb 65 c && leb c 90) || (leb 50 c && leb c 55)) && is_base32 text

All-IsBase32 : (text : List ℕ) → is_base32 text ≡ true → All IsBase32 text
All-IsBase32 [] e = tt
All-IsBase32 (c ∷ text) e = (ground arith, All-IsBase32 text (ground arith))

adnl_id_decode-adnl_id_encode_example :
    (adnl_id_encode base32 (descending 32) false >>= adnl_id_decode base32) ≡ ok (descending 32)
adnl_id_decode-adnl_id_encode_example =
    adnl_id_decode-adnl_id_encode base32 (descending 32) encoded false refl refl refl refl
      (All-IsBase32 encoded refl) (λ text h. refl) (λ text h. refl)
