-- ===== src/Blockchain/Address/RoundTrip.antt =====
-- ADNL ids are read back: adnl_id_encode and adnl_id_decode of NFTorrent/blockchain/address.py.
use nft_torrent.Base.{
  ℕ, zero, suc, ◌+◌, ◌-◌, ◌<◌, ◌≡◌, refl, ap, ◌∙◌, ◌&&◌, ◌||◌, leb, map, All, if◌then◌else◌, Bool,
  true, false, some, List, [], ◌∷◌, ◌++◌, arith, ◌==◌, take, drop, length,
}
use nft_torrent.Base.Result.{ok, ◌>>=◌}
use nft_torrent.Blockchain.Address.{
  Codec, equal_bytes, has_length, adnl_tag, tag_letter, adnl_id_encode, adnl_content,
  adnl_id_decode,
}

equal_bytes_refl : (xs : List ℕ) → equal_bytes xs xs ≡ true
equal_bytes_refl [] = refl
equal_bytes_refl (x ∷ xs) =
    let same : (x == x) ≡ true = ground arith in rw same (equal_bytes_refl xs)

take-append : (n : ℕ) (xs ys : List ℕ) → length xs ≡ n → take n (xs ++ ys) ≡ xs
take-append zero [] ys e = refl
take-append zero (x ∷ xs) ys e = ground arith
take-append (suc n) [] ys e = ground arith
take-append (suc n) (x ∷ xs) ys e = ap (λ r. x ∷ r) (take-append n xs ys (omega arith))

drop-append : (n : ℕ) (xs ys : List ℕ) → length xs ≡ n → drop n (xs ++ ys) ≡ ys
drop-append zero [] ys e = refl
drop-append zero (x ∷ xs) ys e = ground arith
drop-append (suc n) [] ys e = ground arith
drop-append (suc n) (x ∷ xs) ys e = drop-append n xs ys (omega arith)

content_of_tagged :
    (codec : Codec) (id : List ℕ)
    → length id ≡ 32
    → adnl_content codec (some ((adnl_tag ∷ id) ++ codec.crc (adnl_tag ∷ id))) ≡ ok id
content_of_tagged codec id n =
    let sum = codec.crc (adnl_tag ∷ id) in
    rw (take-append 32 id sum n, drop-append 32 id sum n, equal_bytes_refl sum, adnl_content) refl

adnl_id_decode_of :
    (codec : Codec) (id text rest : List ℕ)
    → length id ≡ 32
    → length text ≡ 55
    → codec.upper (tag_letter ∷ text) ≡ 70 ∷ rest
    → codec.b32decode (70 ∷ rest) ≡ some ((adnl_tag ∷ id) ++ codec.crc (adnl_tag ∷ id))
    → adnl_id_decode codec text ≡ ok id
unfolding adnl_id_decode
adnl_id_decode_of codec id text rest n m cased decoded =
    let fits : has_length 55 text ≡ true = ground arith in
    rw (fits, cased, decoded) (content_of_tagged codec id n)

-- Letters of ASCII in the other case, which is what `str.upper` and `str.lower` do to a text of
-- ASCII
abbrev pub upper_code : ℕ → ℕ
upper_code c = if leb 97 c && leb c 122 then c - 32 else c

abbrev pub lower_code : ℕ → ℕ
lower_code c = if leb 65 c && leb c 90 then c + 32 else c

-- The alphabet of base32: A to Z and 2 to 7
abbrev pub IsBase32 : ℕ → Type 0
IsBase32 c = ((leb 65 c && leb c 90) || (leb 50 c && leb c 55)) ≡ true

abbrev pub IsAscii : ℕ → Type 0
IsAscii c = c < 128

base32_code :
    (c : ℕ)
    → IsBase32 c
    → (c < 128) × (lower_code c < 128) × (upper_code c ≡ c) × (upper_code (lower_code c) ≡ c)
base32_code c h = (ground arith, ground arith, ground arith, ground arith)

base32-IsAscii :
    (text : List ℕ) → All IsBase32 text → All IsAscii text × All IsAscii (map lower_code text)
base32-IsAscii [] h = (tt, tt)
base32-IsAscii (c ∷ text) (h, hs) =
    let (a, b, e, f) = base32_code c h in
    let (lows, ups) = base32-IsAscii text hs in ((a, lows), (b, ups))

map-upper_code :
    (text : List ℕ)
    → All IsBase32 text
    → (map upper_code text ≡ text) × (map upper_code (map lower_code text) ≡ text)
map-upper_code [] h = (refl, refl)
map-upper_code (c ∷ text) (h, hs) =
    let (a, b, e, f) = base32_code c h in
    let (es, fs) = map-upper_code text hs in (rw (e, es) refl, rw (f, fs) refl)

length-map : (f : ℕ → ℕ) (text : List ℕ) → length (map f text) ≡ length text
length-map f [] = refl
length-map f (c ∷ text) = ap suc (length-map f text)

-- Encoding an address of 32 bytes and decoding the text gives the address, in either case. The
-- encoding of the tagged and checked address has 56 letters of base32, the first of which is "F",
-- and is decoded to what was encoded; and `upper` and `lower` change the case of the letters of
-- ASCII.
pub adnl_id_decode-adnl_id_encode :
    (codec : Codec) (id rest : List ℕ) (upper_case : Bool)
    → length id ≡ 32
    → codec.b32encode ((45 ∷ id) ++ codec.crc (45 ∷ id)) ≡ 70 ∷ rest
    → codec.b32decode (70 ∷ rest) ≡ some ((45 ∷ id) ++ codec.crc (45 ∷ id))
    → length rest ≡ 55
    → All IsBase32 rest
    → ((text : List ℕ) → All IsAscii text → codec.upper text ≡ map upper_code text)
    → ((text : List ℕ) → All IsAscii text → codec.lower text ≡ map lower_code text)
    → (adnl_id_encode codec id upper_case >>= adnl_id_decode codec) ≡ ok id
unfolding adnl_id_encode
adnl_id_decode-adnl_id_encode codec id rest true n encoded decoded m h upper lower =
    let fits : has_length 32 id ≡ true = ground arith in
    let cased = upper (102 ∷ rest) (omega arith, (base32-IsAscii rest h).0) in
    rw (fits, encoded)
      (adnl_id_decode_of codec id rest rest n m (cased ∙ ap (λ t. 70 ∷ t) (map-upper_code rest h).0)
        decoded)
adnl_id_decode-adnl_id_encode codec id rest false n encoded decoded m h upper lower =
    let fits : has_length 32 id ≡ true = ground arith in
    let low = map lower_code rest in
    let cased = upper (102 ∷ low) (omega arith, (base32-IsAscii rest h).1) in
    rw (fits, encoded, lower rest (base32-IsAscii rest h).0)
      (adnl_id_decode_of codec id low rest n (length-map lower_code rest ∙ m)
        (cased ∙ ap (λ t. 70 ∷ t) (map-upper_code rest h).1) decoded)
