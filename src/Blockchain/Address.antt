-- ===== src/Blockchain/Address.antt =====
-- ADNL ids and bag ids: NFTorrent/blockchain/address.py. Bytes and texts are lists of numbers,
-- those of a text being the codes of its characters. The codecs of the Python library and the
-- checksum of pytonlib are parameters.
pub mod RoundTrip
use nft_torrent.Base.{
  ℕ, zero, suc, ◌-◌, Bool, true, false, not, ◌&&◌, Option, none, some, List, [], ◌∷◌, ◌++◌, ◌==◌,
  if◌then◌else◌, take, drop, length,
}
use nft_torrent.Base.Result.{Result, ok, err, ◌>>=◌, ◌>>◌, raise_if}

-- A codec that may refuse its input returns `none` where it raises.
pub record Codec : Type 0 where
  pub b32encode : List ℕ → List ℕ
  pub b32decode : List ℕ → Option (List ℕ)
  pub b64decode : List ℕ → Option (List ℕ)
  pub fromhex : List ℕ → Option (List ℕ)
  pub hex : List ℕ → List ℕ
  pub upper : List ℕ → List ℕ
  pub lower : List ℕ → List ℕ
  pub crc : List ℕ → List ℕ

-- ValueError, `binascii.Error` (of base32), and the errors of Python
pub data AddressError : Type 0 where
  value_error binascii_error index_error unbound_local type_error : AddressError

abbrev pub equal_bytes : List ℕ → List ℕ → Bool
equal_bytes [] [] = true
equal_bytes [] (y ∷ ys) = false
equal_bytes (x ∷ xs) [] = false
equal_bytes (x ∷ xs) (y ∷ ys) = x == y && equal_bytes xs ys

abbrev pub has_length : ℕ → List ℕ → Bool
has_length n xs = length xs == n

-- The first byte of an ADNL address, and the letter "f" that stands for it
abbrev pub adnl_tag : ℕ
adnl_tag = 45

abbrev pub tag_letter : ℕ
tag_letter = 102

unfoldable pub adnl_id_encode : Codec → List ℕ → Bool → Result AddressError (List ℕ)
adnl_id_encode codec adnl_id upper_case =
    let buffer = adnl_tag ∷ adnl_id in
    let adnl_enc = drop 1 (codec.b32encode (buffer ++ codec.crc buffer)) in
    raise_if (not (has_length 32 adnl_id)) value_error
    >> ok (if upper_case then adnl_enc else codec.lower adnl_enc)

abbrev pub adnl_content : Codec → Option (List ℕ) → Result AddressError (List ℕ)
adnl_content codec none = err binascii_error
adnl_content codec (some []) = err index_error
adnl_content codec (some (first ∷ bytes)) =
    let adnl_dec = first ∷ bytes in
    raise_if (not (first == adnl_tag)) value_error
    >> raise_if (not (equal_bytes (codec.crc (take 33 adnl_dec)) (drop 33 adnl_dec))) value_error
    >> ok (take 32 bytes)

unfoldable pub adnl_id_decode : Codec → List ℕ → Result AddressError (List ℕ)
adnl_id_decode codec id =
    raise_if (not (has_length 55 id)) value_error
    >> adnl_content codec (codec.b32decode (codec.upper (tag_letter ∷ id)))

-- An id as bytes, as a text, or as a number: the digits that `hex` writes after "0x"
pub data AnyId : Type 0 where
  of_bytes of_text of_digits : List ℕ → AnyId

abbrev pub encode_32 : Codec → Option (List ℕ) → Result AddressError (List ℕ)
encode_32 codec none = err value_error
encode_32 codec (some buf) =
    raise_if (not (has_length 32 buf)) value_error >> adnl_id_encode codec buf false

unfoldable pub parse_adnl_id : Codec → AnyId → Result AddressError (List ℕ)
parse_adnl_id codec (of_bytes buf) = adnl_id_encode codec buf false
parse_adnl_id codec (of_digits digits) = err type_error
parse_adnl_id codec (of_text adnl_id) =
    if has_length 55 adnl_id
    then (adnl_id_decode codec adnl_id >>= λ bytes. ok adnl_id)
    else encode_32 codec
        (if has_length 64 adnl_id then codec.fromhex adnl_id else codec.b64decode adnl_id)

-- The text of 64 hexadecimal digits; `buf` is unbound where it is not one.
abbrev pub hex_bag_id : List ℕ → Option (List ℕ) → Result AddressError (List ℕ)
hex_bag_id bag_id none = err unbound_local
hex_bag_id bag_id (some buf) = raise_if (not (has_length 32 buf)) value_error >> ok bag_id

abbrev pub base64_bag_id : Codec → Option (List ℕ) → Result AddressError (List ℕ)
base64_bag_id codec none = err value_error
base64_bag_id codec (some buf) =
    raise_if (not (has_length 32 buf)) value_error >> ok (codec.hex buf)

abbrev pub zeros : ℕ → List ℕ
zeros zero = []
zeros (suc n) = 48 ∷ zeros n

-- `.rjust(64, "0")`
abbrev pub rjust : List ℕ → List ℕ
rjust digits = zeros (64 - length digits) ++ digits

unfoldable pub parse_bag_id : Codec → AnyId → Result AddressError (List ℕ)
parse_bag_id codec (of_digits digits) = ok (codec.upper (rjust digits))
parse_bag_id codec (of_bytes bytes) =
    raise_if (not (has_length 32 bytes)) value_error >> ok (codec.upper (codec.hex bytes))
parse_bag_id codec (of_text bag_id) =
    (if has_length 64 bag_id
      then hex_bag_id bag_id (codec.fromhex bag_id)
      else base64_bag_id codec (codec.b64decode bag_id))
    >>= λ text. ok (codec.upper text)
