-- ===== src/Blockchain/Content.antt =====
-- What is read from the cell of an NFT: GeoPoint, PetMemoryNftImmutableData, NftMutableMetaData and
-- PetMemoryNftContent of NFTorrent/blockchain/models.py, and flatten_snake_cell of
-- NFTorrent/blockchain/encoders.py. The slices of cells are those of a library. A slice that the
-- source advances is returned, and texts of codes are lists of numbers.
pub mod Layout
mod Tests
use nft_torrent.Base.{
  ℕ, zero, suc, ◌*◌, ◌/◌, ◌%◌, ◌^◌, Bool, true, false, not, Option, none, some, List, [], ◌∷◌, ◌++◌,
  ◌==◌, if◌then◌else◌,
}
use nft_torrent.Base.Result.{Result, ok, err, ◌>>=◌, ◌>>◌, raise_if}
use nft_torrent.Blockchain.Encoders.{date_mask_to_string, bcd2c_to_string}
use mathlib.Core.Option
use Prim.Native.String.{String}

-- A slice that has no more bits or references, a ValueError, and an index out of range
pub data TvmError : Type 0 where
  underflow value_error index_error : TvmError

-- `CellSlice`: `load_uint`, `load_ref` and `load_string`, a slice as a condition, its references
-- and bytes, and `codecs.encode`
pub record Slices : Type 1 where
  pub Slice : Type 0
  pub load_uint : ℕ → Slice → Result TvmError (ℕ × Slice)
  pub load_ref : Slice → Result TvmError (Slice × Slice)
  pub load_string : Slice → Result TvmError String
  pub is_true : Slice → Bool
  pub has_refs : Slice → Bool
  pub tobytes : Slice → List ℕ
  pub base64 : List ℕ → List ℕ

-- The latitude in 2^23-ths of a degree, and the longitude in 2^24-ths
pub record GeoPoint : Type 0 where
  pub is_south : Bool
  pub latitude : ℕ
  pub longitude : ℕ

unfoldable pub geo_point : ℕ → GeoPoint
geo_point v = record {
  is_south = v / 2 ^ 47 % 2 == 1;
  latitude = v / 2 ^ 24 % 2 ^ 23 * 90;
  longitude = v % 2 ^ 24 * 360;
}

pub record PetMemoryNftImmutableData : Type 0 where
  pub species : ℕ
  pub name : String
  pub sex : ℕ
  pub species_name : Option String
  pub breed : Option String
  pub lang : Option (List ℕ)
  pub country_code : List ℕ
  pub geo_point : Option GeoPoint
  pub location : Option String
  pub birth_date : List ℕ
  pub death_date : List ℕ

pub record NftMutableMetaData : Type 0 where
  pub uri : Option String
  pub description : Option String
  pub image : Option String
  pub image_data : Option (List ℕ)

pub record PetMemoryNftContent : Type 0 where
  pub imm_data : PetMemoryNftImmutableData
  pub meta_data : NftMutableMetaData
  pub fee_due_time : ℕ

module _ (slices : Slices) where
  open slices use {Slice, load_uint, load_ref, load_string, is_true, has_refs, tobytes, base64}

  -- `cs.load_ref(as_cs=True).load_string()`
  abbrev pub load_text : Slice → Result TvmError (String × Slice)
  load_text cs = load_ref cs >>= λ (child, cs'). load_string child >>= λ text. ok (text, cs')

  -- `... if cs.load_uint(1) else None`
  abbrev pub optional {ℓ} :
      {A : Type ℓ}
      → (Slice → Result TvmError (A × Slice))
      → Slice
      → Result TvmError (Option A × Slice)
  optional load cs = load_uint 1 cs >>= λ (flag, cs').
      if flag == 0 then ok (none, cs') else load cs' >>= λ (value, cs''). ok (some value, cs'')

  unfoldable pub optional_text : Slice → Result TvmError (Option String × Slice)
  optional_text = optional load_text

  -- Fuel for each cell of the chain
  unfoldable pub flatten_snake_cell : ℕ → Slice → Result TvmError (List ℕ)
  flatten_snake_cell zero cs = ok []
  flatten_snake_cell (suc fuel) cs = elim (is_true cs) [
    | false ↦ ok []
    | true ↦ elim (has_refs cs) [
      | false ↦ ok (tobytes cs)
      | true ↦ load_ref cs >>= λ (child, cs').
          flatten_snake_cell fuel child >>= λ rest. ok (tobytes cs ++ rest)
    ]
  ]

  -- The rest of the data stands in a cell of its own.
  unfoldable pub immutable_rest :
      ℕ → String → ℕ → Option String → Slice → Result TvmError PetMemoryNftImmutableData
  immutable_rest species name sex species_name cs = do
    (breed, cs) ← optional_text cs
    (lang, cs) ← optional (load_uint 10) cs
    (country_code, cs) ← load_uint 10 cs
    (point, cs) ← optional (load_uint 48) cs
    (location, cs) ← optional_text cs
    (birth_date, cs) ← load_uint 32 cs
    (death_date, cs) ← load_uint 32 cs
    ok record {
      species = species;
      name = name;
      sex = sex;
      species_name = species_name;
      breed = breed;
      lang = Option.map bcd2c_to_string lang;
      country_code = bcd2c_to_string country_code;
      geo_point = Option.map geo_point point;
      location = location;
      birth_date = date_mask_to_string birth_date;
      death_date = date_mask_to_string death_date;
    }

  -- `PetMemoryNftImmutableData.from_tvm`
  unfoldable pub immutable_data : Slice → Result TvmError (PetMemoryNftImmutableData × Slice)
  immutable_data cs = do
    (species, cs) ← load_uint 4 cs
    (name, cs) ← load_text cs
    (sex, cs) ← load_uint 1 cs
    (species_name, cs) ← optional_text cs
    (child, cs) ← load_ref cs
    imm_data ← immutable_rest species name sex species_name child
    ok (imm_data, cs)

  -- An image in the format 0, with as many cells as the fuel
  unfoldable pub snake_image : ℕ → Slice → Result TvmError (List ℕ × Slice)
  snake_image fuel cs = do
    (img, cs) ← load_ref cs
    (format, img) ← load_uint 8 img
    raise_if (not (format == 0)) value_error
    bytes ← flatten_snake_cell fuel img
    ok (base64 bytes, cs)

  -- `NftMutableMetaData.from_tvm`
  unfoldable pub mutable_data : ℕ → Slice → Result TvmError (NftMutableMetaData × Slice)
  mutable_data fuel cs = do
    (uri, cs) ← optional_text cs
    (description, cs) ← optional_text cs
    (child, cs) ← load_ref cs
    (image, child) ← optional_text child
    (image_data, child) ← optional (snake_image fuel) child
    ok (record { uri = uri; description = description; image = image; image_data = image_data }, cs)

  -- `PetMemoryNftContent.from_tvm`
  unfoldable pub from_tvm : ℕ → Slice → Result TvmError PetMemoryNftContent
  from_tvm fuel cs = do
    (sc1, cs) ← load_ref cs
    (imm_data, sc1) ← immutable_data sc1
    (sc2, sc1) ← load_ref sc1
    (meta_data, sc2) ← mutable_data fuel sc2
    (fee_due_time, sc2) ← load_uint 32 sc2
    ok record { imm_data = imm_data; meta_data = meta_data; fee_due_time = fee_due_time }
