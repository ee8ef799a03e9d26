-- ===== src/Blockchain/Content/Layout.antt =====
-- The layout of the cell of an NFT, and what is read from it: PetMemoryNftContent.from_tvm of
-- NFTorrent/blockchain/models.py.
pub mod ReadBack
use mathlib.Core.Option
use nft_torrent.Base.{
  ℕ, zero, suc, ◌^◌, ◌<◌, ◌≡◌, refl, true, false, Option, none, some, List, [], ◌∷◌, ◌++◌, arith,
  length,
}
use nft_torrent.Base.Result.{ok}
use nft_torrent.Blockchain.Content.{
  Slices, geo_point, PetMemoryNftContent, optional, optional_text, flatten_snake_cell,
  immutable_rest, immutable_data, snake_image, mutable_data, from_tvm,
}
use nft_torrent.Blockchain.Encoders.{date_mask_to_string, bcd2c_to_string}
use Prim.Native.String.{String}

-- Slices by their first part: a number of so many bits, a reference, a cell with a text, and the
-- last or another cell of a chain with their bytes
pub record Builder (slices : Slices) : Type 0 where
  pub uint : ℕ → ℕ → slices.Slice → slices.Slice
  pub ref : slices.Slice → slices.Slice → slices.Slice
  pub text : String → slices.Slice
  pub load-uint :
      (bits v : ℕ) (s : slices.Slice)
      → v < 2 ^ bits
      → slices.load_uint bits (uint bits v s) ≡ ok (v, s)
  pub load-ref : (c s : slices.Slice) → slices.load_ref (ref c s) ≡ ok (c, s)
  pub load-text : (t : String) → slices.load_string (text t) ≡ ok t
  pub last : List ℕ → slices.Slice
  pub link : List ℕ → slices.Slice → slices.Slice
  pub is_true-last : (bytes : List ℕ) → slices.is_true (last bytes) ≡ true
  pub is_true-link : (bytes : List ℕ) (s : slices.Slice) → slices.is_true (link bytes s) ≡ true
  pub has_refs-last : (bytes : List ℕ) → slices.has_refs (last bytes) ≡ false
  pub has_refs-link : (bytes : List ℕ) (s : slices.Slice) → slices.has_refs (link bytes s) ≡ true
  pub tobytes-last : (bytes : List ℕ) → slices.tobytes (last bytes) ≡ bytes
  pub tobytes-link : (bytes : List ℕ) (s : slices.Slice) → slices.tobytes (link bytes s) ≡ bytes
  pub load-link :
      (bytes : List ℕ) (s : slices.Slice) → slices.load_ref (link bytes s) ≡ ok (s, last bytes)

-- The data as the contract stores them: numbers for dates, places and codes
pub record Stored : Type 0 where
  pub species : ℕ
  pub name : String
  pub sex : ℕ
  pub species_name : Option String
  pub breed : Option String
  pub lang : Option ℕ
  pub country : ℕ
  pub point : Option ℕ
  pub location : Option String
  pub birth : ℕ
  pub death : ℕ
  pub uri : Option String
  pub description : Option String
  pub image : Option String
  pub image_data : Option (List ℕ × List (List ℕ))
  pub fee_due_time : ℕ

-- The bytes of a chain of cells
abbrev pub joined : List ℕ → List (List ℕ) → List ℕ
joined bytes [] = bytes
joined bytes (more ∷ chain) = bytes ++ joined more chain

abbrev pub HasFuel : ℕ → Option (List ℕ × List (List ℕ)) → Type 0
HasFuel fuel none = Unit {0}
HasFuel fuel (some (bytes, chain)) = length chain < fuel

abbrev pub Fits : ℕ → Option ℕ → Type 0
Fits bits none = Unit {0}
Fits bits (some v) = v < 2 ^ bits

pub record IsStorable (d : Stored) : Type 0 where
  pub species : d.species < 2 ^ 4
  pub sex : d.sex < 2 ^ 1
  pub lang : Fits 10 d.lang
  pub country : d.country < 2 ^ 10
  pub point : Fits 48 d.point
  pub birth : d.birth < 2 ^ 32
  pub death : d.death < 2 ^ 32
  pub fee_due_time : d.fee_due_time < 2 ^ 32

-- What a reader should make of the data
pub content_of : (List ℕ → List ℕ) → Stored → PetMemoryNftContent
content_of base64 d = record {
  imm_data = record {
    species = d.species;
    name = d.name;
    sex = d.sex;
    species_name = d.species_name;
    breed = d.breed;
    lang = Option.map bcd2c_to_string d.lang;
    country_code = bcd2c_to_string d.country;
    geo_point = Option.map geo_point d.point;
    location = d.location;
    birth_date = date_mask_to_string d.birth;
    death_date = date_mask_to_string d.death;
  };
  meta_data = record {
    uri = d.uri;
    description = d.description;
    image = d.image;
    image_data = Option.map (λ (bytes, chain). base64 (joined bytes chain)) d.image_data;
  };
  fee_due_time = d.fee_due_time;
}

module _ (slices : Slices) (b : Builder slices) where
  open slices use {Slice}

  -- A flag, and what it announces
  abbrev pub maybe_text : Option String → Slice → Slice
  maybe_text none s = b.uint 1 0 s
  maybe_text (some t) s = b.uint 1 1 (b.ref (b.text t) s)

  abbrev pub maybe_uint : ℕ → Option ℕ → Slice → Slice
  maybe_uint bits none s = b.uint 1 0 s
  maybe_uint bits (some v) s = b.uint 1 1 (b.uint bits v s)

  pub snake : List ℕ → List (List ℕ) → Slice
  snake bytes [] = b.last bytes
  snake bytes (more ∷ chain) = b.link bytes (snake more chain)

  abbrev pub maybe_image : Option (List ℕ × List (List ℕ)) → Slice → Slice
  maybe_image none s = b.uint 1 0 s
  maybe_image (some (bytes, chain)) s = b.uint 1 1 (b.ref (b.uint 8 0 (snake bytes chain)) s)

  abbrev pub immutable_cell : Stored → Slice → Slice
  immutable_cell d end = maybe_text d.breed (
      maybe_uint 10 d.lang (
        b.uint 10 d.country (
          maybe_uint 48 d.point
            (maybe_text d.location (b.uint 32 d.birth (b.uint 32 d.death end))))))

  abbrev pub mutable_cell : Stored → Slice → Slice
  mutable_cell d end = maybe_text d.uri (
      maybe_text d.description
        (b.ref (maybe_text d.image (maybe_image d.image_data end)) (b.uint 32 d.fee_due_time end)))

  -- The whole cell; `end` stands after the last part.
  pub cell : Stored → Slice → Slice
  cell d end =
      b.ref
        (b.uint 4 d.species (
          b.ref (b.text d.name) (
            b.uint 1 d.sex (
              maybe_text d.species_name
                (b.ref (immutable_cell d end) (b.ref (mutable_cell d end) end))))))
        end
