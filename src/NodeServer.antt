-- ===== src/NodeServer.antt =====
-- The program of a node (cmd/backup-node/main.go): its handlers over the chunk store, and what it
-- reports to the server.
pub mod Capacity
use prosiak.Base.{
  ℕ, ℤ, pos, Text, text, List, [], Bool, not, ◌&&◌, Option, none, some, ◌+ℤ◌, ◌-ℤ◌, wrapped, ltb_ℤ,
  ◌==◌, eqb, length, if◌then◌else◌, trim_space,
}
use prosiak.Protocol.{NodeRegisterRequest}
use prosiak.Store.{
  Store, Failure, not_found, Faults, ClearFault, Result, put, open_chunk, delete, clear,
}

-- parseStorageKey, with base64 a parameter: `some []` is no encryption.
unfoldable pub parse_storage_key : (Text → Option (List ℕ)) → Text → Text → Option (List ℕ)
parse_storage_key base64 configured environment =
    let flag = trim_space configured in
    let chosen = if eqb flag [] then trim_space environment else flag in
    if eqb chosen [] then some [] else elim (base64 chosen) [
      | none ↦ none
      | some key ↦ if length key == 32 then some key else none
    ]

-- nodeRegisterRequest
unfoldable pub node_register_request : Text → Text → ℤ → Store → NodeRegisterRequest
node_register_request id public_addr capacity s =
    let free = capacity -ℤ s.used in
    record {
      id = id;
      address = public_addr;
      capacity = capacity;
      free = if ltb_ℤ free (pos 0) then pos 0 else free;
    }

-- The response of a handler: its status and its body.
pub data Response : Type 0 where
  reply : ℕ → List ℕ → Response

-- The test of putChunk before it stores: an unknown length, -1, passes, and the sum is an int64.
unfoldable pub has_room : ℤ → ℤ → Store → Bool
has_room content_length capacity s =
    not (ltb_ℤ (pos 0) content_length && ltb_ℤ capacity (wrapped (s.used +ℤ content_length)))

module _ (hash_bytes : List ℕ → Text) where
  -- putChunk
  unfoldable pub put_chunk : ℤ → ℤ → List ℕ → Text → List ℕ → Faults → Store → Store × Response
  unfolding has_room
  put_chunk capacity content_length nonce hash content fault s =
      let (s', stored) = put hash_bytes nonce hash content fault s in
      if not (has_room content_length capacity s)
      then (s, reply 507 [])
      else elim stored [ Result.ok n ↦ (s', reply 201 []) | Result.err _ ↦ (s', reply 400 []) ]

abbrev error_status : Failure → ℕ
error_status not_found = 404
error_status _ = 400

-- getChunk
unfoldable pub get_chunk : Text → Store → Response
get_chunk hash s = elim (open_chunk hash s) [
  | Result.ok content ↦ reply 200 content
  | Result.err e ↦ reply (error_status e) []
]

-- deleteChunk
unfoldable pub delete_chunk : Bool → Text → Store → Store × Response
delete_chunk stuck hash s =
    let (s', failure) = delete stuck hash s in
    (s', elim failure [ none ↦ reply 200 [] | some _ ↦ reply 400 [] ])

-- clearStorage
unfoldable pub clear_storage : Text → Text → ClearFault → Store → Store × Response
clear_storage confirm root fault s =
    let (s', cleared) = clear root fault s in
    if not (eqb confirm (text "delete-all-chunks"))
    then (s, reply 400 [])
    else elim cleared [ Result.ok _ ↦ (s', reply 200 []) | Result.err _ ↦ (s', reply 500 []) ]
