-- ===== src/Blockchain/Content/Tests.antt =====
-- Slices as the list of what was put in them, and an animal whose image takes two cells.
use nft_torrent.Base.{ℕ, ◌≡◌, refl, Bool, true, false, none, some, List, [], ◌∷◌, arith}
use nft_torrent.Base.Result.{Result, ok, err}
use nft_torrent.Blockchain.Content.{Slices, TvmError, underflow, from_tvm}
use nft_torrent.Blockchain.Content.Layout.{Builder, Stored, IsStorable, content_of, cell}
use nft_torrent.Blockchain.Content.Layout.ReadBack.{from_tvm-cell}
use Prim.Native.String.{String}

data Toy : Type 0 where
  end : Toy
  uint : ℕ → ℕ → Toy → Toy
  ref : Toy → Toy → Toy
  text : String → Toy
  last : List ℕ → Toy
  link : List ℕ → Toy → Toy

abbrev toy_uint : ℕ → Toy → Result TvmError (ℕ × Toy)
toy_uint bits (uint width v s) = ok (v, s)
toy_uint bits end = err underflow
toy_uint bits (ref c s) = err underflow
toy_uint bits (text t) = err underflow
toy_uint bits (last bytes) = err underflow
toy_uint bits (link bytes s) = err underflow

abbrev toy_ref : Toy → Result TvmError (Toy × Toy)
toy_ref (ref c s) = ok (c, s)
toy_ref (link bytes s) = ok (s, last bytes)
toy_ref end = err underflow
toy_ref (uint width v s) = err underflow
toy_ref (text t) = err underflow
toy_ref (last bytes) = err underflow

abbrev toy_string : Toy → Result TvmError String
toy_string (text t) = ok t
toy_string end = err underflow
toy_string (uint width v s) = err underflow
toy_string (ref c s) = err underflow
toy_string (last bytes) = err underflow
toy_string (link bytes s) = err underflow

abbrev toy_refs : Toy → Bool
toy_refs (ref c s) = true
toy_refs (link bytes s) = true
toy_refs end = false
toy_refs (uint width v s) = false
toy_refs (text t) = false
toy_refs (last bytes) = false

abbrev toy_bytes : Toy → List ℕ
toy_bytes (last bytes) = bytes
toy_bytes (link bytes s) = bytes
toy_bytes end = []
toy_bytes (uint width v s) = []
toy_bytes (ref c s) = []
toy_bytes (text t) = []

abbrev toys : Slices
toys = record {
  Slice = Toy;
  load_uint = toy_uint;
  load_ref = toy_ref;
  load_string = toy_string;
  is_true = λ s. true;
  has_refs = toy_refs;
  tobytes = toy_bytes;
  base64 = λ bytes. bytes;
}

abbrev toy_builder : Builder toys
toy_builder = record {
  uint = uint;
  ref = ref;
  text = text;
  load-uint = λ bits v s h. refl;
  load-ref = λ c s. refl;
  load-text = λ t. refl;
  last = last;
  link = link;
  is_true-last = λ bytes. refl;
  is_true-link = λ bytes s. refl;
  has_refs-last = λ bytes. refl;
  has_refs-link = λ bytes s. refl;
  tobytes-last = λ bytes. refl;
  tobytes-link = λ bytes s. refl;
  load-link = λ bytes s. refl;
}

abbrev rex : Stored
rex = record {
  species = 1;
  name = "Rex";
  sex = 0;
  species_name = none;
  breed = some "Collie";
  lang = some 131;
  country = 622;
  point = some 281474976710655;
  location = none;
  birth = 132055563;
  death = 0;
  uri = none;
  description = some "A dog";
  image = none;
  image_data = some (1 ∷ 2 ∷ [], (3 ∷ []) ∷ []);
  fee_due_time = 1700000000;
}

rex-IsStorable : IsStorable rex
rex-IsStorable = record {
  species = omega arith;
  sex = omega arith;
  lang = omega arith;
  country = omega arith;
  point = omega arith;
  birth = omega arith;
  death = omega arith;
  fee_due_time = omega arith;
}

from_tvm-cell_example :
    from_tvm toys 2 (cell toys toy_builder rex end) ≡ ok (content_of (λ bytes. bytes) rex)
from_tvm-cell_example = from_tvm-cell toys toy_builder 2 rex end rex-IsStorable (omega arith)
