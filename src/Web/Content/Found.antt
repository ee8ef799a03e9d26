-- ===== src/Web/Content/Found.antt =====
-- Which file has a digest, and what a request for one may be answered: NFTorrent/webserver.py.
use mathlib.Core.Path.{subst}
use nft_torrent.Base.{
  ◌&&◌, false, ◌≡◌, refl, sym, Bool, true, not, ◌||◌, Option, none, some, if◌then◌else◌, List, [],
  ◌∷◌, ◌⊎◌, inl, inr, keep, arith, Bool-cases,
}
use nft_torrent.Base.Result.{Result, ok, err}
use nft_torrent.Ipfs.Content.{
  first, size_limit, unicode_error, NftContentFile, NftContentInfo, Node, Served, whole, part,
  truthy, equals, equals-some, equals_refl, is_file, find_file, get_file, choose, text_of,
}
use nft_torrent.Web.Content.{served_name, served_hash, is_latin_1, Response, streamed}
use nft_torrent.Web.Sync.{WebError, ipfs_error}
use Prim.Native.String.{String}

abbrev pub served_digest : Served → Option String
served_digest (whole info) = info.digest
served_digest (part f) = f.digest

-- The file with the digest is sent, or it is too large, or its name or hash does not fit a header,
-- or the node does not give its text.
abbrev pub IsFound : Node → Option String → Result WebError Response → Type 0
IsFound node digest (ok (streamed (text, s))) = served_digest s ≡ digest
IsFound node digest (err (ipfs_error e)) =
    (e ≡ size_limit)
    ⊎ ((e ≡ unicode_error)
        × ((s : Served) × (served_digest s ≡ digest)
            × ((is_latin_1 (served_name s) && is_latin_1 (served_hash s)) ≡ false)))
    ⊎ ((cid : String) × (s : Served) × (served_digest s ≡ digest) × (text_of node cid s ≡ err e))
IsFound node digest r = ⊥

pub equals_refl_all : (a : Option String) → equals a a ≡ true
equals_refl_all none = refl
equals_refl_all (some s) = equals_refl s

pub equals-true : (a b : Option String) → equals a b ≡ true → a ≡ b
equals-true none none e = refl
equals-true none (some b) e = ground arith
equals-true (some a) none e = ground arith
equals-true (some a) (some b) e = equals-some (some a) b e

-- A file with the digest is found.
abbrev pub HasFile : Option String → List NftContentFile → Type 0
HasFile digest fs = (g : NftContentFile) × (find_file none digest fs ≡ some g) × (g.digest ≡ digest)

pub head-HasFile : (f : NftContentFile) (fs : List NftContentFile) → HasFile f.digest (f ∷ fs)
unfolding find_file
head-HasFile f fs = (f, rw (equals_refl_all f.digest) refl, refl)

pub tail-HasFile :
    (digest : Option String) (f : NftContentFile) (fs : List NftContentFile)
    → HasFile digest fs
    → HasFile digest (f ∷ fs)
unfolding find_file
tail-HasFile digest f fs (g, e, d) = elim (Bool-cases (equals f.digest digest)) [
  | inl hit ↦ (f, rw hit refl, equals-true f.digest digest hit)
  | inr miss ↦ (g, rw (miss, e) refl, d)
]

pub found-HasFile :
    (path digest : Option String) (fs : List NftContentFile) (g : NftContentFile)
    → find_file path digest fs ≡ some g
    → HasFile g.digest fs
unfolding find_file
found-HasFile path digest [] g e = ground arith
found-HasFile path digest (f ∷ fs) g e = elim (Bool-cases (is_file path digest f)) [
  | inl hit ↦
      let e' = (rw hit at e) in
      let same : f ≡ g = ground arith in
      subst (λ h. HasFile h.digest (f ∷ fs)) same (head-HasFile f fs)
  | inr miss ↦ tail-HasFile g.digest f fs (found-HasFile path digest fs g (rw miss at e))
]

pub kept-HasFile :
    (p : NftContentFile → Bool) (fs : List NftContentFile) (g : NftContentFile)
    → first (keep p fs) ≡ ok g
    → HasFile g.digest fs
kept-HasFile p [] g e = ground arith
kept-HasFile p (f ∷ fs) g e = elim (Bool-cases (p f)) [
  | inl passes ↦
      let e' = (rw passes at e) in
      let same : f ≡ g = ground arith in
      subst (λ h. HasFile h.digest (f ∷ fs)) same (head-HasFile f fs)
  | inr fails ↦ tail-HasFile g.digest f fs (kept-HasFile p fs g (rw fails at e))
]

pub get_file-chosen :
    (digest : Option String) (info : NftContentInfo) (f : NftContentFile) (fs : List NftContentFile)
    (h : NftContentFile)
    → info.files ≡ f ∷ fs
    → find_file none digest info.files ≡ some h
    → choose none digest info ≡ some (part h)
unfolding choose get_file
get_file-chosen digest info f fs h full hit =
    let got : get_file none digest info ≡ some h = hit in
    subst
      (λ xs.
        elim xs [
          | [] ↦
              if equals info.digest digest || not (truthy digest) then some (whole info) else none
          | g ∷ gs ↦ elim (get_file none digest info) [ none ↦ none | some x ↦ some (part x) ]
        ]
        ≡ some (part h))
      (sym full) (rw got refl)
