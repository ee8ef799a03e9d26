-- ===== src/Blockchain/Encoders/Dates.antt =====
-- What a date mask says, and the size of its text.
use nft_torrent.Base.{
  ℕ, ◌+◌, ◌*◌, ◌/◌, ◌%◌, ◌≤◌, ◌<◌, ◌≡◌, refl, List, [], ◌∷◌, arith, ◌==◌, length, if◌then◌else◌,
}
use nft_torrent.Blockchain.Encoders.{dash, star, mask_chars, date_mask_to_string, bcd2c_to_string}

-- Two octets of the year, one of the month and one of the day, with two digits in each
abbrev pub octet : ℕ → ℕ → ℕ
octet a b = a * 16 + b

abbrev pub date_mask : ℕ → ℕ → ℕ → ℕ → ℕ
date_mask century year month day = ((century * 256 + year) * 256 + month) * 256 + day

-- The two digits of an octet
abbrev pub digits : ℕ → List ℕ → List ℕ
digits o rest = (o / 16 + 48) ∷ (o % 16 + 48) ∷ rest

-- The text of a date by its parts
abbrev pub date_text : ℕ → ℕ → ℕ → ℕ → List ℕ
date_text century year month day =
    if century + year == 0
    then star ∷ []
    else digits century (
        digits year (
          dash
          ∷ (if month == 0
              then star ∷ []
              else digits month (dash ∷ (if day == 0 then star ∷ [] else digits day [])))))

-- The text of a mask is that of the date whose octets it has: "*" for a missing year, and for a
-- missing month or a missing day "*" in the place of the rest.
pub date_mask_to_string-date_text :
    (century year month day : ℕ)
    → century < 256
    → year < 256
    → month < 256
    → day < 256
    → date_mask_to_string (date_mask century year month day) ≡ date_text century year month day
unfolding date_mask_to_string mask_chars
date_mask_to_string-date_text century year month day c y m d =
    let n = date_mask century year month day in
    let missing : (n / 65536 % 65536 == 0) ≡ (century + year == 0) = ground arith in
    let no_month : (n / 256 % 256 == 0) ≡ (month == 0) = ground arith in
    let no_day : (n / 1 % 256 == 0) ≡ (day == 0) = ground arith in
    let c1 : n / 268435456 % 16 ≡ century / 16 = omega arith in
    let c0 : n / 16777216 % 16 ≡ century % 16 = omega arith in
    let y1 : n / 1048576 % 16 ≡ year / 16 = omega arith in
    let y0 : n / 65536 % 16 ≡ year % 16 = omega arith in
    let m1 : n / 4096 % 16 ≡ month / 16 = omega arith in
    let m0 : n / 256 % 16 ≡ month % 16 = omega arith in
    let d1 : n / 16 % 16 ≡ day / 16 = omega arith in
    let d0 : n / 1 % 16 ≡ day % 16 = omega arith in
    rw (missing, no_month, no_day, c1, c0, y1, y0, m1, m0, d1, d0) refl

-- A mask gives the text of at most ten characters for which the code has room.
pub length-mask_chars_le : (n : ℕ) → length (mask_chars n 7) ≤ 10
unfolding mask_chars
length-mask_chars_le n = ground arith

-- A code of two letters, each counted from "A", gives the two letters.
pub bcd2c_to_string_letters :
    (a b : ℕ) → a < 26 → b < 26 → bcd2c_to_string (a * 32 + b) ≡ (a + 65) ∷ (b + 65) ∷ []
unfolding bcd2c_to_string
bcd2c_to_string_letters a b h k =
    let first : (a * 32 + b) / 32 % 32 ≡ a = omega arith in
    let second : (a * 32 + b) % 32 ≡ b = omega arith in rw (first, second) refl
