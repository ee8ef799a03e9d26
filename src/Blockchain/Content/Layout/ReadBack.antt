-- ===== src/Blockchain/Content/Layout/ReadBack.antt =====
-- What is written in the cell of an NFT is read back: PetMemoryNftContent.from_tvm of
-- NFTorrent/blockchain/models.py.
use mathlib.Core.Option
use nft_torrent.Base.{
  ℕ, zero, suc, ◌<◌, ◌≡◌, refl, Option, none, some, List, [], ◌∷◌, arith, length,
}
use nft_torrent.Base.Result.{ok}
use nft_torrent.Blockchain.Content.{
  Slices, optional, optional_text, flatten_snake_cell, immutable_rest, immutable_data, snake_image,
  mutable_data, from_tvm,
}
use Prim.Native.String.{String}
use nft_torrent.Blockchain.Content.Layout.{
  Builder, Stored, joined, HasFuel, Fits, IsStorable, content_of, maybe_text, maybe_uint, snake,
  maybe_image, immutable_cell, mutable_cell, cell,
}

module _ (slices : Slices) (b : Builder slices) where
  open slices use {Slice}

  optional-text :
      (t : Option String) (s : Slice) → optional_text slices (maybe_text slices b t s) ≡ ok (t, s)
  unfolding optional_text
  optional-text none s = rw (b.load-uint 1 0 s (omega arith)) refl
  optional-text (some t) s =
      rw
        (b.load-uint 1 1 (b.ref (b.text t) s) (omega arith), b.load-ref (b.text t) s, b.load-text t)
        refl

  optional-uint :
      (bits : ℕ) (v : Option ℕ) (s : Slice)
      → Fits bits v
      → optional slices (slices.load_uint bits) (maybe_uint slices b bits v s) ≡ ok (v, s)
  optional-uint bits none s h = rw (b.load-uint 1 0 s (omega arith)) refl
  optional-uint bits (some v) s h =
      rw (b.load-uint 1 1 (b.uint bits v s) (omega arith), b.load-uint bits v s h) refl

  immutable_rest-cell :
      (d : Stored) (end : Slice)
      → IsStorable d
      → immutable_rest slices d.species d.name d.sex d.species_name (immutable_cell slices b d end)
        ≡ ok (content_of slices.base64 d).imm_data
  unfolding immutable_rest content_of
  immutable_rest-cell d end h =
      let last = b.uint 32 d.death end in
      let dates = b.uint 32 d.birth last in
      let place = maybe_text slices b d.location dates in
      let point = maybe_uint slices b 48 d.point place in
      let country = b.uint 10 d.country point in
      let lang = maybe_uint slices b 10 d.lang country in
      rw
        (
          optional-text d.breed lang,
          optional-uint 10 d.lang country h.lang,
          b.load-uint 10 d.country point h.country,
          optional-uint 48 d.point place h.point,
          optional-text d.location dates,
          b.load-uint 32 d.birth last h.birth,
          b.load-uint 32 d.death end h.death,
        )
        refl

  flatten-snake :
      (fuel : ℕ) (bytes : List ℕ) (chain : List (List ℕ))
      → length chain < fuel
      → flatten_snake_cell slices fuel (snake slices b bytes chain) ≡ ok (joined bytes chain)
  unfolding flatten_snake_cell snake
  flatten-snake zero bytes chain h = absurd (omega arith)
  flatten-snake (suc fuel) bytes [] h =
      rw (b.is_true-last bytes, b.has_refs-last bytes, flatten_snake_cell, b.tobytes-last bytes)
        refl
  flatten-snake (suc fuel) bytes (more ∷ chain) h =
      let next = snake slices b more chain in
      rw
        (
          b.is_true-link bytes next,
          b.has_refs-link bytes next,
          flatten_snake_cell,
          b.load-link bytes next,
          flatten-snake fuel more chain (omega arith),
          b.tobytes-link bytes next,
        )
        refl

  optional-image :
      (fuel : ℕ) (image : Option (List ℕ × List (List ℕ))) (s : Slice)
      → HasFuel fuel image
      → optional slices (snake_image slices fuel) (maybe_image slices b image s)
        ≡ ok (Option.map (λ (bytes, chain). slices.base64 (joined bytes chain)) image, s)
  unfolding snake_image
  optional-image fuel none s h = rw (b.load-uint 1 0 s (omega arith)) refl
  optional-image fuel (some (bytes, chain)) s h =
      let img = b.uint 8 0 (snake slices b bytes chain) in
      rw
        (
          b.load-uint 1 1 (b.ref img s) (omega arith),
          b.load-ref img s,
          b.load-uint 8 0 (snake slices b bytes chain) (omega arith),
          flatten-snake fuel bytes chain h,
        )
        refl

  mutable_data-cell :
      (fuel : ℕ) (d : Stored) (end : Slice)
      → HasFuel fuel d.image_data
      → mutable_data slices fuel (mutable_cell slices b d end)
        ≡ ok ((content_of slices.base64 d).meta_data, b.uint 32 d.fee_due_time end)
  unfolding mutable_data content_of
  mutable_data-cell fuel d end h =
      let due = b.uint 32 d.fee_due_time end in
      let image = maybe_image slices b d.image_data end in
      let child = maybe_text slices b d.image image in
      rw
        (
          optional-text d.uri (maybe_text slices b d.description (b.ref child due)),
          optional-text d.description (b.ref child due),
          b.load-ref child due,
          optional-text d.image image,
          optional-image fuel d.image_data end h,
        )
        refl

  immutable_data-cell :
      (d : Stored) (end rest : Slice)
      → IsStorable d
      → immutable_data slices (
          b.uint 4 d.species (
            b.ref (b.text d.name) (
              b.uint 1 d.sex
                (maybe_text slices b d.species_name (b.ref (immutable_cell slices b d end) rest)))))
        ≡ ok ((content_of slices.base64 d).imm_data, rest)
  unfolding immutable_data
  immutable_data-cell d end rest h =
      let child = b.ref (immutable_cell slices b d end) rest in
      let named = maybe_text slices b d.species_name child in
      let sexed = b.uint 1 d.sex named in
      rw
        (
          b.load-uint 4 d.species (b.ref (b.text d.name) sexed) h.species,
          b.load-ref (b.text d.name) sexed,
          b.load-text d.name,
          b.load-uint 1 d.sex named h.sex,
          optional-text d.species_name child,
          b.load-ref (immutable_cell slices b d end) rest,
          immutable_rest-cell d end h,
        )
        refl

-- The data of an NFT that a contract has stored in a cell are read back from it: each text and
-- number as it was stored, dates, codes and places in their readable form, and an image of its own
-- with the bytes of all its cells. The numbers must fit their bits, the fuel must be more than the
-- cells that follow the first one of the image, and what reads a slice must agree with what builds
-- it.
pub from_tvm-cell :
    (slices : Slices) (b : Builder slices) (fuel : ℕ) (d : Stored) (end : slices.Slice)
    → IsStorable d
    → HasFuel fuel d.image_data
    → from_tvm slices fuel (cell slices b d end) ≡ ok (content_of slices.base64 d)
unfolding from_tvm cell content_of
from_tvm-cell slices b fuel d end h long =
    let meta = b.ref (mutable_cell slices b d end) end in
    let imm = b.uint 4 d.species (
      b.ref (b.text d.name) (
        b.uint 1 d.sex
          (maybe_text slices b d.species_name (b.ref (immutable_cell slices b d end) meta)))) in
    rw
      (
        b.load-ref imm end,
        immutable_data-cell slices b d end meta h,
        b.load-ref (mutable_cell slices b d end) end,
        mutable_data-cell slices b fuel d end long,
        b.load-uint 32 d.fee_due_time end h.fee_due_time,
      )
      refl
