-- ===== src/Store.antt =====
-- The store of a node (internal/chunkstore/store.go). The disk is a parameter through its faults:
-- each operation takes those that will occur, and the files under the root are a list.
pub mod Usage
pub mod Integrity
pub mod Contents
pub mod Refines
pub mod Scanned
use prosiak.Base.{
  ℕ, ℤ, pos, Text, text, List, [], ◌∷◌, ◌++◌, Bool, true, false, not, ◌&&◌, ◌||◌, Option, none,
  some, ◌≡◌, ◌+◌, ◌-◌, ◌+ℤ◌, ◌-ℤ◌, ltb, leb, ltb_ℤ, ◌==◌, if◌then◌else◌, eqb, length, take, drop,
  any, delete_where, trim_prefix,
}

-- A file under the root, by the name of its chunk: the directory is the first two characters.
-- `temporary` files end in .chunk.tmp, the others in .chunk.
pub record Stored : Type 0 where
  pub name : Text
  pub temporary : Bool
  pub content : List ℕ

-- AES-GCM from crypto/cipher: `open_sealed nonce (seal nonce x)` is `x`.
pub record Aead : Type 0 where
  pub nonce_size : ℕ
  pub seal : List ℕ → List ℕ → List ℕ
  pub open_sealed : List ℕ → List ℕ → Option (List ℕ)
  pub open_seal : (nonce x : List ℕ) → open_sealed nonce (seal nonce x) ≡ some x

pub record Store : Type 0 where
  pub aead : Option Aead
  pub files : List Stored
  pub used : ℤ

pub data Failure : Type 0 where
  invalid_hash hash_mismatch not_found too_short undecryptable disk : Failure

pub data Result {ℓ} (A : Type ℓ) : Type ℓ where
  ok : A → Result A
  err : Failure → Result A

abbrev pub is_hex : ℕ → Bool
is_hex c = (leb b'0' c && leb c b'9') || (leb b'a' c && leb c b'f') || (leb b'A' c && leb c b'F')

-- hex.DecodeString succeeds: pairs of hexadecimal digits.
unfoldable pub decodes : Text → Bool
decodes [] = true
decodes (c ∷ []) = false
decodes (c ∷ d ∷ s) = is_hex c && is_hex d && decodes s

-- Path, as the name under the root.
unfoldable pub path : Text → Option Text
unfolding decodes
path hash =
    let clean = trim_prefix (text "sha256:") hash in
    if ltb (length clean) 2 || not (decodes clean) then none else some clean

abbrev pub chunk_file : Text → Stored → Bool
chunk_file name f = eqb name f.name && not f.temporary

abbrev pub temporary_file : Text → Stored → Bool
temporary_file name f = eqb name f.name && f.temporary

-- scanUsed
unfoldable pub scan_used : List Stored → ℕ
scan_used [] = 0
scan_used (f ∷ fs) = (if f.temporary then 0 else length f.content) + scan_used fs

-- The content of a chunk's file.
unfoldable pub read_file : Text → List Stored → Option (List ℕ)
read_file name [] = none
read_file name (f ∷ fs) = if chunk_file name f then some f.content else read_file name fs

-- fileSize
unfoldable pub file_size : Text → List Stored → ℕ
file_size name fs = elim (read_file name fs) [ none ↦ 0 | some content ↦ length content ]

-- addUsed
unfoldable pub add_used : ℤ → Store → Store
add_used delta s = record s {
  used = if ltb_ℤ (s.used +ℤ delta) (pos 0) then pos 0 else s.used +ℤ delta;
}

-- New, at the files that are found; the cipher of a key is a parameter.
unfoldable pub new : (List ℕ → Aead) → List ℕ → List Stored → Result Store
new cipher [] found = ok (record { aead = none; files = found; used = pos (scan_used found) })
new cipher (k ∷ key) found =
    if length (k ∷ key) == 32
    then ok (record { aead = some (cipher (k ∷ key)); files = found; used = pos (scan_used found) })
    else err disk

-- Has
unfoldable pub has : Text → Store → Bool
has hash s = elim (path hash) [ none ↦ false | some name ↦ any (chunk_file name) s.files ]

-- What goes wrong during one Put. `body` breaks off with an error, and a failed write of the sealed
-- chunk leaves what it has written.
pub record Faults : Type 0 where
  pub mkdir : Bool
  pub create : Bool
  pub body : Bool
  pub close : Bool
  pub nonce : Bool
  pub write : Option (List ℕ)
  pub rename : Bool

-- The temporary file is written, or removed.
abbrev pub with_temporary : Text → List ℕ → List Stored → List Stored
with_temporary name content fs =
    delete_where (temporary_file name) fs
    ++ record { name = name; temporary = true; content = content } ∷ []

abbrev pub without_temporary : Text → Store → Store
without_temporary name s = record s { files = delete_where (temporary_file name) s.files }

-- os.Rename of the temporary file, which holds `content`.
abbrev pub renamed : Text → List ℕ → List Stored → List Stored
renamed name content fs =
    delete_where (chunk_file name) (delete_where (temporary_file name) fs)
    ++ record { name = name; temporary = false; content = content } ∷ []

-- The rename with the count of what it changes.
unfoldable pub commit : Text → List ℕ → Store → Store
unfolding add_used
commit name content s =
    let old = file_size name s.files in
    let s' = record s { files = renamed name content s.files } in
    add_used (pos (file_size name s'.files) -ℤ pos old) s'

-- The end of putEncrypted: os.WriteFile of the sealed chunk, and its rename.
unfoldable pub write_sealed : Text → List ℕ → List ℕ → Faults → Store → Store × Result ℕ
write_sealed name sealed content fault s = elim fault.write [
  | some partial ↦ (record s { files = with_temporary name partial s.files }, err disk)
  | none ↦
      if fault.rename
      then (without_temporary name s, err disk)
      else (commit name sealed s, ok (length content))
]

module _ (hash_bytes : List ℕ → Text) where
  -- putPlain
  unfoldable pub put_plain : Text → List ℕ → Faults → Store → Store × Result ℕ
  unfolding commit
  put_plain hash content fault s = elim (path hash) [
    | none ↦ (s, err invalid_hash)
    | some name ↦
        if fault.mkdir || fault.create
        then (s, err disk)
        else if fault.body || fault.close
        then (without_temporary name s, err disk)
        else if not (eqb (hash_bytes content) hash)
        then (without_temporary name s, err hash_mismatch)
        else if fault.rename
        then (without_temporary name s, err disk)
        else (commit name content s, ok (length content))
  ]

  abbrev seal_chunk : Aead → List ℕ → List ℕ → List ℕ
  seal_chunk aead nonce content = nonce ++ aead.seal nonce content

  -- putEncrypted, with the nonce that is drawn.
  unfoldable pub put_encrypted : Aead → List ℕ → Text → List ℕ → Faults → Store → Store × Result ℕ
  unfolding write_sealed
  put_encrypted aead nonce hash content fault s = elim (path hash) [
    | none ↦ (s, err invalid_hash)
    | some name ↦
        if fault.body
        then (s, err disk)
        else if not (eqb (hash_bytes content) hash)
        then (s, err hash_mismatch)
        else if fault.nonce || fault.mkdir
        then (s, err disk)
        else write_sealed name (seal_chunk aead nonce content) content fault s
  ]

  -- Put
  unfoldable pub put : List ℕ → Text → List ℕ → Faults → Store → Store × Result ℕ
  unfolding put_plain put_encrypted
  put nonce hash content fault s = elim s.aead [
    | none ↦ put_plain hash content fault s
    | some aead ↦ put_encrypted aead nonce hash content fault s
  ]

-- The end of Open, on the content of the file.
unfoldable pub unseal : Option Aead → List ℕ → Result (List ℕ)
unseal none content = ok content
unseal (some aead) sealed =
    if ltb (length sealed) aead.nonce_size
    then err too_short
    else elim (aead.open_sealed (take aead.nonce_size sealed) (drop aead.nonce_size sealed)) [
      | none ↦ err undecryptable
      | some plain ↦ ok plain
    ]

-- Open, where the disk can be read.
unfoldable pub open_chunk : Text → Store → Result (List ℕ)
unfolding unseal
open_chunk hash s = elim (path hash) [
  | none ↦ err invalid_hash
  | some name ↦ elim (read_file name s.files) [
    | none ↦ err not_found
    | some content ↦ unseal s.aead content
  ]
]

-- Delete; `stuck` is a failure of os.Remove other than a missing file.
unfoldable pub delete : Bool → Text → Store → Store × Option Failure
unfolding add_used
delete stuck hash s = elim (path hash) [
  | none ↦ (s, some invalid_hash)
  | some name ↦
      if not (any (chunk_file name) s.files) then (s, none) else if stuck then (s, some disk) else (
        add_used (pos 0 -ℤ pos (file_size name s.files))
            (record s { files = delete_where (chunk_file name) s.files }),
        none,
      )
]

unfoldable pub total_size : List Stored → ℕ
total_size [] = 0
total_size (f ∷ fs) = length f.content + total_size fs

-- What goes wrong during Clear: RemoveAll leaves some files, or MkdirAll fails after it.
pub data ClearFault : Type 0 where
  nothing : ClearFault
  remains : List Stored → ClearFault
  no_root : ClearFault

-- Clear, at the cleaned path of the root: the count of files and of bytes.
unfoldable pub clear : Text → ClearFault → Store → Store × Result (ℕ × ℕ)
clear root fault s =
    if eqb root (text ".") || eqb root (text "/") then (s, err disk) else elim fault [
      | nothing ↦ (record s { files = []; used = pos 0 }, ok (length s.files, total_size s.files))
      | remains left ↦ (record s { files = left }, err disk)
      | no_root ↦ (record s { files = [] }, err disk)
    ]
